-- ===== src/Auth/Lock/Runs.antt =====
-- Runs of the lock file (auth.py: `_TokenFileLock`): how a stale lock is taken over, and how a live
-- one is lost.
use ts_api_wrapper.Base.{
  ℕ, ◌<◌, ◌≡◌, ◌≢◌, refl, ap, sym, ◌∙◌, subst, Bool, true, false, nat_eq, if◌then◌else◌, Option,
  none, some, none-ne-some, ◌+◌, arith,
}
use ts_api_wrapper.Auth.Lock.{
  update, LockFile, Phase, outside, trying, refused, judging, stealing, opened, inside, System,
  move_to, leave_file, read_lock_pid, lock_file_is_stale, is_stale, verdict, write_pid, Rules,
  prompt_rules, undisturbed_rules, Step, enter, create, write, refuse, read, judge, replace,
  release, Steps, done, step,
}
use ts_api_wrapper.Auth.Lock.Invariant.{update-all}

update-same : {A : Type 0} (f : ℕ → A) (i : ℕ) (a : A) → update f i a i ≡ a
update-same f i a =
    update-all (λ k b. i ≡ k → b ≡ a) f i a (λ _. refl) (λ k n e. absurd (n e)) i refl

update-other : {A : Type 0} (f : ℕ → A) (i j : ℕ) (a : A) → i ≢ j → update f i a j ≡ f j
update-other f i j a n =
    update-all (λ k b. i ≢ k → b ≡ f k) f i a (λ m. absurd (m refl)) (λ k _ _. refl) j n

-- The lock file, where two processes stand, and which ones run.
record IsAt (i j : ℕ) (p q : Phase) (file : Option LockFile) (running : ℕ → Bool) (s : System)
    : Type 0 where
  first : s.phase i ≡ p
  second : s.phase j ≡ q
  holds : s.file ≡ file
  runs : s.running ≡ running

abbrev named : ℕ → Option LockFile
named i = some (record { creator = i; pid = some i; aged = false })

-- Steps to a state in which two processes and the file stand so.
abbrev Leads : Rules → System → ℕ → ℕ → Phase → Phase → Option LockFile → Type 0
Leads rules s i j p q file = (t : System) × Steps rules s t × IsAt i j p q file s.running t

module _ {rules : Rules} {s : System} {i j : ℕ} where
  swapped :
      {p q : Phase} {file : Option LockFile}
      → Leads rules s i j p q file
      → Leads rules s j i q p file
  swapped (t, run, at) =
      (t, run, record { first = at.second; second = at.first; holds = at.holds; runs = at.runs })

  module _ (differ : i ≢ j) {q : Phase} where
    moves :
        {p : Phase} {file : Option LockFile} (p' : Phase) (file' : System → Option LockFile)
        (expected : Option LockFile)
        → ((t : System)
            → IsAt i j p q file s.running t
            → Step rules t (leave_file t (file' t) i p') × (file' t ≡ expected))
        → Leads rules s i j p q file
        → Leads rules s i j p' q expected
    moves p' file' expected move (t, run, at) = (
      leave_file t (file' t) i p',
      step run (move t at).0,
      record {
        first = update-same t.phase i p';
        second = update-other t.phase i j p' differ ∙ at.second;
        holds = (move t at).1;
        runs = at.runs;
      },
    )

    enters :
        {file : Option LockFile}
        → Leads rules s i j outside q file
        → Leads rules s i j trying q file
    enters {file} l = moves trying (λ t. t.file) file (λ t at. (enter i at.first, at.holds)) l

    refused_by :
        {f : LockFile} → Leads rules s i j trying q (some f) → Leads rules s i j refused q (some f)
    refused_by {f} l =
        moves refused (λ t. t.file) (some f) (λ t at. (refuse i f at.first at.holds, at.holds)) l

    -- With no file there, the process gets in.
    gets_in :
        0 < i
        → s.running i ≡ true
        → Leads rules s i j trying q none
        → Leads rules s i j inside q (named i)
    gets_in pos live l =
        moves inside (λ t. write_pid i t.file) (named i)
          (λ t at. (write i at.first, ap (write_pid i) at.holds ∙ own (nat_eq i i) (ground arith)))
          (moves opened _ (some (record { creator = i; pid = none; aged = false }))
            (λ t at. (create i pos (ap (λ r. r i) at.runs ∙ live) at.first at.holds, refl)) l)
      where
        own :
            (b : Bool)
            → b ≡ true
            → (if b then named i else some (record { creator = i; pid = none; aged = false }))
              ≡ named i
        own true e = refl
        own false e = absurd (cc)

    -- After `_read_lock_pid`, a lock that is judged stale is about to be moved away.
    judges :
        (pid : Option ℕ) (file : Option LockFile)
        → ((t : System) → IsAt i j (judging pid) q file s.running t → is_stale t pid ≡ true)
        → Leads rules s i j (judging pid) q file
        → Leads rules s i j stealing q file
    judges pid file stale (t, run, at) = (
      move_to t i (verdict (is_stale t pid)),
      step run (judge i pid at.first),
      record {
        first = update-same t.phase i _ ∙ ap verdict (stale t at);
        second = update-other t.phase i j _ differ ∙ at.second;
        holds = at.holds;
        runs = at.runs;
      },
    )

    reads :
        (pid : Option ℕ) (file : Option LockFile)
        → read_lock_pid file ≡ pid
        → Leads rules s i j refused q file
        → Leads rules s i j (judging pid) q file
    reads pid file e (t, run, at) = (
      move_to t i (judging (read_lock_pid t.file)),
      step run (read i at.first),
      record {
        first =
            update-same t.phase i _ ∙ ap (λ f. judging (read_lock_pid f)) at.holds ∙ ap judging e;
        second = update-other t.phase i j _ differ ∙ at.second;
        holds = at.holds;
        runs = at.runs;
      },
    )

    steals :
        {file : Option LockFile}
        → ((t : System) → IsAt i j stealing q file s.running t → rules.may_replace t)
        → Leads rules s i j stealing q file
        → Leads rules s i j trying q none
    steals {file} may l =
        moves trying (λ t. none) none (λ t at. (replace i at.first (may t at), refl)) l

    leaves :
        {file : Option LockFile}
        → Leads rules s i j inside q file
        → Leads rules s i j outside q none
    leaves l = moves outside (λ t. none) none (λ t at. (release i at.first, refl)) l

-- Where two processes stand at first.
starts :
    {rules : Rules} {s : System} (i j : ℕ) {p q : Phase} {file : Option LockFile}
    → s.phase i ≡ p
    → s.phase j ≡ q
    → s.file ≡ file
    → Leads rules s i j p q file
starts {s = s} i j at_i at_j e =
    (s, done, record { first = at_i; second = at_j; holds = e; runs = refl })

-- Whenever the lock is free and two processes that run are outside, there are steps after which both
-- are in the `with` block at once, though no lock file gets to be a second old on the way, and the
-- processes that run afterwards are those that ran before.
pub live_lock_stolen :
    (s : System) (i j : ℕ)
    → i ≢ j
    → 0 < i
    → 0 < j
    → s.running i ≡ true
    → s.running j ≡ true
    → s.phase i ≡ outside
    → s.phase j ≡ outside
    → s.file ≡ none
    → (t : System) × Steps prompt_rules s t
      × (t.phase i ≡ inside)
      × (t.phase j ≡ inside)
      × (t.running ≡ s.running)
live_lock_stolen s i j differ pos_i pos_j live_i live_j at_i at_j absent = result taken
  where
    differ' : j ≢ i
    differ' e = differ (sym e)

    -- The second finds the first one's lock.
    found : Leads prompt_rules s i j inside refused (named i)
    found = swapped (
        refused_by differ' (
          enters differ'
            (swapped (gets_in differ pos_i live_i (enters differ (starts i j at_i at_j absent))))))

    -- The first gives it up before the second reads it, and a path with no file counts as stale.
    condemned : Leads prompt_rules s j i stealing outside none
    condemned =
        judges differ' none none (λ t at. ap lock_file_is_stale at.holds)
          (reads differ' none none refl (swapped (leaves differ found)))

    -- The first locks again before the second moves the file away.
    taken : Leads prompt_rules s j i inside inside (named j)
    taken = gets_in differ' pos_j live_j (
        steals differ' (λ t at. tt)
          (swapped (gets_in differ pos_i live_i (enters differ (swapped condemned)))))

    result :
        Leads prompt_rules s j i inside inside (named j)
        → (t : System) × Steps prompt_rules s t
          × (t.phase i ≡ inside)
          × (t.phase j ≡ inside)
          × (t.running ≡ s.running)
    result (t, run, at) = (t, run, at.second, at.first, at.runs)

-- Whenever the lock file holds the pid of a process that has ended, another process that is outside can
-- get in by steps that move only a stale lock away: the file then holds its own pid.
pub stale_lock_recovered :
    (s : System) (i p : ℕ)
    → 0 < i
    → s.running i ≡ true
    → s.phase i ≡ outside
    → read_lock_pid s.file ≡ some p
    → s.running p ≡ false
    → (t : System) × Steps undisturbed_rules s t
      × (t.phase i ≡ inside)
      × (read_lock_pid t.file ≡ some i)
stale_lock_recovered s i p pos live at_i holds ended = go s.file refl holds
  where
    differ : i ≢ i + 1
    differ e = omega (arith, e)

    stale :
        {q : Phase} {pid : Phase} {file : Option LockFile} (t : System)
        → IsAt i (i + 1) q pid file s.running t
        → is_stale t (some p) ≡ true
    stale t at = ground (arith, ap (λ r. r p) at.runs, ended)

    result :
        Leads undisturbed_rules s i (i + 1) inside (s.phase (i + 1)) (named i)
        → (t : System) × Steps undisturbed_rules s t
          × (t.phase i ≡ inside)
          × (read_lock_pid t.file ≡ some i)
    result (t, run, at) = (t, run, at.first, ap read_lock_pid at.holds)

    go :
        (file : Option LockFile)
        → s.file ≡ file
        → read_lock_pid file ≡ some p
        → (t : System) × Steps undisturbed_rules s t
          × (t.phase i ≡ inside)
          × (read_lock_pid t.file ≡ some i)
    go none e named_p = absurd (none-ne-some _ named_p)
    go (some f) e named_p = result (
        gets_in differ pos live (
          steals differ
            (λ t at.
              subst (λ o. is_stale t o ≡ true) (sym (ap read_lock_pid at.holds ∙ named_p))
                (stale t at))
            (judges differ (some p) (some f) stale (
              reads differ (some p) (some f) named_p
                (refused_by differ (enters differ (starts i (i + 1) at_i refl e)))))))
