-- ===== src/Auth/Lock/Moves.antt =====
-- The steps keep the invariant of the lock file (auth.py: `_TokenFileLock`).
use ts_api_wrapper.Base.{
  ℕ, ◌<◌, ◌≡◌, ◌≢◌, refl, ap, sym, ◌∙◌, subst, Bool, true, false, none, some, some-injective,
  none-ne-some, arith, nat_eq, if◌then◌else◌,
}
use ts_api_wrapper.Auth.Lock.{
  update, LockFile, Phase, opened, inside, stopped, System, read_lock_pid, write_pid, grown_old,
  leave_file,
}
use ts_api_wrapper.Auth.Lock.Invariant.{
  update-all, is_holding, IsHolder, IsOwned, IsSound, free-IsOwned, unheld-IsOwned, other-IsOwned,
}

-- A step after which no file stands, and none was held but by the process itself.
pub clear-IsSound :
    (s : System) (i : ℕ) (p : Phase)
    → is_holding p ≡ false
    → ((j : ℕ) → i ≢ j → IsOwned none s.running j (s.phase j))
    → IsSound (leave_file s none i p)
clear-IsSound s i p free others = record {
  owned =
      update-all (IsOwned none s.running) s.phase i p (free-IsOwned none s.running i p free) others;
  named = λ f q e. absurd (none-ne-some _ e);
  unnamed = λ f e. absurd (none-ne-some _ e);
}

abbrev pub created : ℕ → LockFile
created i = record { creator = i; pid = none; aged = false }

pub create-IsSound :
    (s : System) (i : ℕ)
    → IsSound s
    → 0 < i
    → s.running i ≡ true
    → s.file ≡ none
    → IsSound (leave_file s (some (created i)) i opened)
create-IsSound s i h pos runs absent = record {
  owned =
      update-all (IsOwned (some (created i)) s.running) s.phase i opened
        (λ _. (pos, runs, created i, refl, refl), λ e. absurd (cc))
        (λ j _.
          unheld-IsOwned s _ s.running h j (λ (_, _, f, e, _). none-ne-some _ (sym absent ∙ e)));
  named = λ f p e q. absurd (none-ne-some _ (ap (λ x. x.pid) (some-injective _ _ e) ∙ q));
  unnamed = λ f e q old. absurd (cc (old, ap (λ x. x.aged) (some-injective _ _ e)));
}

abbrev written : ℕ → LockFile
written i = record { creator = i; pid = some i; aged = false }

write_own : (i : ℕ) (f : LockFile) → f.creator ≡ i → write_pid i (some f) ≡ some (written i)
write_own i f c = go (nat_eq f.creator i) (ground (arith, c))
  where
    go :
        (b : Bool)
        → b ≡ true
        → (if b then some (record { creator = f.creator; pid = some i; aged = false }) else some f)
          ≡ some (written i)
    go true e = ap (λ k. some (record { creator = k; pid = some i; aged = false })) c
    go false e = absurd (cc)

written-IsSound :
    (s : System) (i : ℕ)
    → IsSound s
    → s.phase i ≡ opened
    → IsSound (leave_file s (some (written i)) i inside)
written-IsSound s i h at = record {
  owned =
      update-all (IsOwned (some (written i)) s.running) s.phase i inside
        (λ _. (holds.0, holds.1, written i, refl, refl), λ _. refl)
        (other-IsOwned s (some (written i)) i h (ap is_holding at));
  named = λ f p e q.
      some-injective _ _ (sym q ∙ ap (λ x. x.pid) (some-injective _ _ (sym e)))
      ∙ ap (λ x. x.creator) (some-injective _ _ e);
  unnamed = λ f e q old. absurd (cc (old, ap (λ x. x.aged) (some-injective _ _ e)));
}
  where
    holds : IsHolder s.file s.running i
    holds = (h.owned i).0 (ap is_holding at)

pub write-IsSound :
    (s : System) (i : ℕ)
    → IsSound s
    → s.phase i ≡ opened
    → IsSound (leave_file s (write_pid i s.file) i inside)
write-IsSound s i h at =
    let (_, _, f, e, c) : IsHolder s.file s.running i = (h.owned i).0 (ap is_holding at) in
    subst (λ file. IsSound (leave_file s file i inside))
      (sym (ap (write_pid i) e ∙ write_own i f c)) (written-IsSound s i h at)

-- A process that ends owns nothing any more.
pub crash-IsSound :
    (s : System) (i : ℕ)
    → IsSound s
    → IsSound (record s { phase = update s.phase i stopped; running = update s.running i false })
crash-IsSound s i h = record {
  owned =
      update-all (IsOwned s.file (update s.running i false)) s.phase i stopped
        (free-IsOwned s.file (update s.running i false) i stopped refl)
        (λ j n. (λ e. goes_on j n ((h.owned j).0 e), (h.owned j).1));
  named = h.named;
  unnamed = λ f e q old.
      update-all (λ k b. s.running k ≡ false → b ≡ false) s.running i false (λ _. refl) (λ k _ x. x)
        f.creator (h.unnamed f e q old);
}
  where
    goes_on :
        (j : ℕ) → i ≢ j → IsHolder s.file s.running j → IsHolder s.file (update s.running i false) j
    goes_on j n (pos, runs, f, e, c) = (
      pos,
      update-all (λ k b. i ≢ k → b ≡ s.running k) s.running i false (λ m. absurd (m refl))
            (λ k _ _. refl) j n
          ∙ runs,
      f,
      e,
      c,
    )

-- A file gets old only if it holds a pid or its creator has ended.
pub age-IsSound :
    (s : System) (f : LockFile)
    → IsSound s
    → s.file ≡ some f
    → (f.pid ≡ none → s.running f.creator ≡ false)
    → IsSound (record s { file = some (grown_old f) })
age-IsSound s f h at ended = record {
  owned = λ j. (λ e. stands j ((h.owned j).0 e), λ e. sym (ap read_lock_pid at) ∙ (h.owned j).1 e);
  named =
      λ g p e q. h.named f p at (ap (λ x. x.pid) (same g e) ∙ q) ∙ ap (λ x. x.creator) (same g e);
  unnamed = λ g e q old.
      ap s.running (sym (ap (λ x. x.creator) (same g e))) ∙ ended (ap (λ x. x.pid) (same g e) ∙ q);
}
  where
    same : (g : LockFile) → some (grown_old f) ≡ some g → grown_old f ≡ g
    same g e = some-injective _ _ e

    stands : (j : ℕ) → IsHolder s.file s.running j → IsHolder (some (grown_old f)) s.running j
    stands j (pos, runs, g, e, c) =
        (pos, runs, grown_old f, refl, ap (λ x. x.creator) (some-injective _ _ (sym at ∙ e)) ∙ c)
