-- ===== src/Auth/Lock/Invariant.antt =====
-- What holds of the lock file in every undisturbed run (auth.py: `_TokenFileLock`).
use ts_api_wrapper.Base.{
  ℕ, ◌<◌, ◌≡◌, ◌≢◌, refl, ap, sym, ◌∙◌, subst, Bool, true, false, not, Option, none, some,
  some-injective, arith,
}
use native.Mathlib.Decide.{ℕ_discrete}
use mathlib.Core.Logic.{ite}
use ts_api_wrapper.Auth.Lock.{
  update, LockFile, Phase, outside, trying, refused, judging, stealing, waiting, opened, inside,
  stopped, System, read_lock_pid, lock_file_is_stale, process_is_running, is_stale, move_to,
}

-- A process that created the file and has not given it up.
abbrev pub is_holding : Phase → Bool
is_holding opened = true
is_holding inside = true
is_holding _ = false

-- A process that holds the lock runs, and its file stands.
abbrev pub IsHolder : Option LockFile → (ℕ → Bool) → ℕ → Type 0
IsHolder file running i =
    (0 < i) × (running i ≡ true) × (f : LockFile) × (file ≡ some f) × (f.creator ≡ i)

-- Once the pid is written, it is that of the holder.
abbrev pub IsOwned : Option LockFile → (ℕ → Bool) → ℕ → Phase → Type 0
IsOwned file running i p =
    ((is_holding p ≡ true) → IsHolder file running i) × ((p ≡ inside) → read_lock_pid file ≡ some i)

pub record IsSound (s : System) : Type 0 where
  pub owned : (i : ℕ) → IsOwned s.file s.running i (s.phase i)
  pub named : (f : LockFile) (p : ℕ) → s.file ≡ some f → f.pid ≡ some p → p ≡ f.creator
  pub unnamed :
      (f : LockFile) → s.file ≡ some f → f.pid ≡ none → f.aged ≡ true → s.running f.creator ≡ false

pub update-all :
    {A : Type 0} (P : ℕ → A → Type 0) (f : ℕ → A) (i : ℕ) (a : A)
    → P i a
    → ((j : ℕ) → i ≢ j → P j (f j))
    → (j : ℕ) → P j (update f i a j)
update-all P f i a new old j = go (ℕ_discrete i j)
  where
    go : (d : Dec (i ≡ j)) → P j (ite d a (f j))
    go (yes e) = subst (λ k. P k a) e new
    go (no n) = old j n

-- A step of a process to a phase in which it holds nothing.
pub move-IsSound :
    (s : System) (i : ℕ) (p : Phase)
    → IsOwned s.file s.running i p
    → IsSound s
    → IsSound (move_to s i p)
move-IsSound s i p new h = record {
  owned = update-all (IsOwned s.file s.running) s.phase i p new (λ j n. h.owned j);
  named = h.named;
  unnamed = h.unnamed;
}

-- Two holders are one.
pub holder_unique :
    (file : Option LockFile) (running : ℕ → Bool) (i j : ℕ)
    → IsHolder file running i
    → IsHolder file running j
    → i ≡ j
holder_unique file running i j (_, _, f, e, c) (_, _, g, e', c') =
    sym c ∙ ap (λ x. x.creator) (some-injective _ _ (sym e ∙ e')) ∙ c'

-- Nothing is owned by a process that holds nothing.
pub free-IsOwned :
    (file : Option LockFile) (running : ℕ → Bool) (i : ℕ) (p : Phase)
    → is_holding p ≡ false
    → IsOwned file running i p
free-IsOwned file running i outside h = (λ e. absurd (cc), λ e. absurd (cc))
free-IsOwned file running i trying h = (λ e. absurd (cc), λ e. absurd (cc))
free-IsOwned file running i refused h = (λ e. absurd (cc), λ e. absurd (cc))
free-IsOwned file running i (judging pid) h = (λ e. absurd (cc), λ e. absurd (cc))
free-IsOwned file running i stealing h = (λ e. absurd (cc), λ e. absurd (cc))
free-IsOwned file running i waiting h = (λ e. absurd (cc), λ e. absurd (cc))
free-IsOwned file running i stopped h = (λ e. absurd (cc), λ e. absurd (cc))
free-IsOwned file running i opened h = absurd (cc)
free-IsOwned file running i inside h = absurd (cc)

running_judged :
    (p : ℕ) (running : Bool)
    → 0 < p
    → running ≡ true
    → not (process_is_running p running) ≡ true
    → ⊥
running_judged p running pos runs h = ground arith

-- A lock that is stale has no holder.
pub stale-IsFree :
    (s : System)
    → IsSound s
    → is_stale s (read_lock_pid s.file) ≡ true
    → (i : ℕ) → ¬ IsHolder s.file s.running i
stale-IsFree s h stale i (pos, runs, f, e, c) = go f.pid refl
  where
    judged : is_stale s f.pid ≡ true
    judged = subst (λ x. is_stale s (read_lock_pid x) ≡ true) e stale

    go : (o : Option ℕ) → f.pid ≡ o → ⊥
    go none q =
        let old : f.aged ≡ true =
          sym (ap lock_file_is_stale e) ∙ subst (λ o. is_stale s o ≡ true) q judged in
        let ended = h.unnamed f e q old in cc (runs, ended, ap s.running c)
    go (some p) q =
        let p≡i : p ≡ i = h.named f p e q ∙ c in
        running_judged p (s.running p) (subst (λ k. 0 < k) (sym p≡i) pos) (ap s.running p≡i ∙ runs)
          (subst (λ o. is_stale s o ≡ true) q judged)

-- A process that is no holder owns nothing.
pub unheld-IsOwned :
    (s : System) (file : Option LockFile) (running : ℕ → Bool)
    → IsSound s
    → (i : ℕ) → ¬ IsHolder s.file s.running i
    → IsOwned file running i (s.phase i)
unheld-IsOwned s file running h i free = go (is_holding (s.phase i)) refl
  where
    go : (b : Bool) → is_holding (s.phase i) ≡ b → IsOwned file running i (s.phase i)
    go true e = absurd (free ((h.owned i).0 e))
    go false e = free-IsOwned file running i (s.phase i) e

-- Beside a holder, the others own nothing.
pub other-IsOwned :
    (s : System) (file : Option LockFile) (i : ℕ)
    → IsSound s
    → is_holding (s.phase i) ≡ true
    → (j : ℕ) → i ≢ j
    → IsOwned file s.running j (s.phase j)
other-IsOwned s file i h held j n =
    unheld-IsOwned s file s.running h j
      (λ other. n (holder_unique s.file s.running i j ((h.owned i).0 held) other))
