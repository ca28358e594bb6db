-- ===== src/Auth/Lock/Exclusion.antt =====
-- Who may be in the `with` block of the lock (auth.py: `_TokenFileLock`).
use ts_api_wrapper.Base.{ℕ, ◌≡◌, refl, ap, Bool, true, false, none, some, none-ne-some}
use ts_api_wrapper.Auth.Lock.{
  Phase, outside, trying, refused, judging, waiting, inside, System, init, move_to, read_lock_pid,
  is_stale, verdict, undisturbed_rules, Step, enter, create, write, refuse, read, judge, replace,
  keep, retry, give_up, release, crash, age, Steps, done, step,
}
use ts_api_wrapper.Auth.Lock.Moves.{
  clear-IsSound, create-IsSound, write-IsSound, crash-IsSound, age-IsSound,
}
use ts_api_wrapper.Auth.Lock.Invariant.{
  is_holding, IsHolder, IsSound, holder_unique, free-IsOwned, stale-IsFree, unheld-IsOwned,
  other-IsOwned, move-IsSound,
}

init-IsSound : IsSound init
init-IsSound = record {
  owned = λ i. free-IsOwned none init.running i outside refl;
  named = λ f p e. absurd (none-ne-some _ e);
  unnamed = λ f e. absurd (none-ne-some _ e);
}

-- A process that holds nothing moves to a phase in which it holds nothing.
free_move :
    (s : System) (i : ℕ) (p : Phase) → is_holding p ≡ false → IsSound s → IsSound (move_to s i p)
free_move s i p e h = move-IsSound s i p (free-IsOwned s.file s.running i p e) h

verdict-free : (b : Bool) → is_holding (verdict b) ≡ false
verdict-free true = refl
verdict-free false = refl

Step-IsSound : {s t : System} → IsSound s → Step undisturbed_rules s t → IsSound t
Step-IsSound h (enter i at) = free_move _ i trying refl h
Step-IsSound h (create i pos runs at absent) = create-IsSound _ i h pos runs absent
Step-IsSound h (write i at) = write-IsSound _ i h at
Step-IsSound h (refuse i f at e) = free_move _ i refused refl h
Step-IsSound h (read i at) = free_move _ i (judging _) refl h
Step-IsSound {s} h (judge i pid at) =
    free_move s i (verdict (is_stale s pid)) (verdict-free (is_stale s pid)) h
Step-IsSound {s} h (replace i at stale) =
    clear-IsSound s i trying refl
      (λ j _. unheld-IsOwned s none s.running h j (stale-IsFree s h stale j))
Step-IsSound h (keep i at) = free_move _ i waiting refl h
Step-IsSound h (retry i at) = free_move _ i trying refl h
Step-IsSound h (give_up i at) = free_move _ i outside refl h
Step-IsSound {s} h (release i at) =
    clear-IsSound s i outside refl (other-IsOwned s none i h (ap is_holding at))
Step-IsSound h (crash i) = crash-IsSound _ i h
Step-IsSound h (age f at ended) = age-IsSound _ f h at ended

Steps-IsSound : {s t : System} → IsSound s → Steps undisturbed_rules s t → IsSound t
Steps-IsSound h done = h
Steps-IsSound h (step before last) = Step-IsSound (Steps-IsSound h before) last

-- In every run, crashes included, in which a lock is moved away only while it is still stale by the
-- code's own test, and no process that goes on takes a second from creating the lock to writing its
-- pid: a process in the `with` block is running, the lock file holds its pid, and no other process is
-- there.
pub mutual_exclusion :
    {s : System}
    → Steps undisturbed_rules init s
    → (i j : ℕ) → s.phase i ≡ inside
    → s.phase j ≡ inside
    → (i ≡ j) × (s.running i ≡ true) × (read_lock_pid s.file ≡ some i)
mutual_exclusion {s} run i j at_i at_j = (
  holder_unique s.file s.running i j held ((sound.owned j).0 (ap is_holding at_j)),
  held.1,
  (sound.owned i).1 at_i,
)
  where
    sound : IsSound s
    sound = Steps-IsSound init-IsSound run

    held : IsHolder s.file s.running i
    held = (sound.owned i).0 (ap is_holding at_i)
