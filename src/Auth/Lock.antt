-- ===== src/Auth/Lock.antt =====
-- The lock file of a token store (auth.py: `_TokenFileLock`, `_read_lock_pid`, `_lock_file_is_stale`,
-- `_process_is_running`). Processes are numbered by their pids, each has one contender for the lock,
-- and the calls of the operating system are interleaved in any order. No pid is given out twice.
pub mod Invariant
pub mod Moves
pub mod Exclusion
pub mod Runs
use ts_api_wrapper.Base.{
  ℕ, ◌<◌, ◌≡◌, Bool, true, false, not, Option, none, some, arith, nat_eq, if◌then◌else◌,
}
use native.Mathlib.Decide.{ℕ_discrete}
use mathlib.Core.Logic.{ite}

abbrev pub update : {A : Type 0} → (ℕ → A) → ℕ → A → ℕ → A
update f i a j = ite (ℕ_discrete i j) a (f j)

-- The file at the lock's path: the process that created it, the pid that it holds once that is
-- written, and whether it was last modified a second (`TOKEN_LOCK_STALE_SECONDS`) ago or more.
pub record LockFile : Type 0 where
  pub creator : ℕ
  pub pid : Option ℕ
  pub aged : Bool

-- Where a contender stands.
pub data Phase : Type 0 where
  -- not in `__enter__`, and not in the `with` block
  outside : Phase
  -- before `os.open`
  trying : Phase
  -- after `FileExistsError`
  refused : Phase
  -- after `_read_lock_pid`
  judging : Option ℕ → Phase
  -- before `os.replace`
  stealing : Phase
  -- `_remove_stale_lock` returned `False`
  waiting : Phase
  -- between `os.open` and `os.write`
  opened : Phase
  -- in the `with` block
  inside : Phase
  -- the process has ended
  stopped : Phase

pub record System : Type 0 where
  pub file : Option LockFile
  pub phase : ℕ → Phase
  pub running : ℕ → Bool

abbrev pub init : System
init = record { file = none; phase = λ _. outside; running = λ _. true }

-- `_read_lock_pid`
abbrev pub read_lock_pid : Option LockFile → Option ℕ
read_lock_pid none = none
read_lock_pid (some f) = f.pid

-- `_lock_file_is_stale`
abbrev pub lock_file_is_stale : Option LockFile → Bool
lock_file_is_stale none = true
lock_file_is_stale (some f) = f.aged

-- `_process_is_running`, on a pid and whether the process is running
abbrev pub process_is_running : ℕ → Bool → Bool
process_is_running pid running = if nat_eq pid 0 then false else running

-- `_remove_stale_lock`, after the pid is read: whether the lock is stolen.
abbrev pub is_stale : System → Option ℕ → Bool
is_stale s none = lock_file_is_stale s.file
is_stale s (some pid) = not (process_is_running pid (s.running pid))

abbrev pub verdict : Bool → Phase
verdict true = stealing
verdict false = waiting

-- `os.write` on the descriptor of a file that the path may no longer lead to.
abbrev pub write_pid : ℕ → Option LockFile → Option LockFile
write_pid i none = none
write_pid i (some f) =
    if nat_eq f.creator i
    then some (record { creator = f.creator; pid = some i; aged = false })
    else some f

abbrev pub grown_old : LockFile → LockFile
grown_old f = record f { aged = true }

abbrev pub move_to : System → ℕ → Phase → System
move_to s i p = record s { phase = update s.phase i p }

abbrev pub leave_file : System → Option LockFile → ℕ → Phase → System
leave_file s file i p = record s { file = file; phase = update s.phase i p }

-- What a schedule lets happen: when `os.replace` runs, and when the file gets old.
pub record Rules : Type 1 where
  pub may_replace : System → Type 0
  pub may_age : LockFile → System → Type 0

pub data Step (rules : Rules) (s : System) : System → Type 0 where
  enter : (i : ℕ) → s.phase i ≡ outside → Step rules s (move_to s i trying)
  create :
      (i : ℕ)
      → 0 < i
      → s.running i ≡ true
      → s.phase i ≡ trying
      → s.file ≡ none
      → Step rules s
          (leave_file s (some (record { creator = i; pid = none; aged = false })) i opened)
  write : (i : ℕ) → s.phase i ≡ opened → Step rules s (leave_file s (write_pid i s.file) i inside)
  refuse :
      (i : ℕ) (f : LockFile)
      → s.phase i ≡ trying
      → s.file ≡ some f
      → Step rules s (move_to s i refused)
  read : (i : ℕ) → s.phase i ≡ refused → Step rules s (move_to s i (judging (read_lock_pid s.file)))
  judge :
      (i : ℕ) (pid : Option ℕ)
      → s.phase i ≡ judging pid
      → Step rules s (move_to s i (verdict (is_stale s pid)))
  replace :
      (i : ℕ)
      → s.phase i ≡ stealing
      → rules.may_replace s
      → Step rules s (leave_file s none i trying)
  -- `except OSError: return False`
  keep : (i : ℕ) → s.phase i ≡ stealing → Step rules s (move_to s i waiting)
  retry : (i : ℕ) → s.phase i ≡ waiting → Step rules s (move_to s i trying)
  -- the deadline has passed
  give_up : (i : ℕ) → s.phase i ≡ waiting → Step rules s (move_to s i outside)
  -- `__exit__`, which removes whatever file is at the path
  release : (i : ℕ) → s.phase i ≡ inside → Step rules s (leave_file s none i outside)
  crash :
      (i : ℕ)
      → Step rules s
          (record s { phase = update s.phase i stopped; running = update s.running i false })
  age :
      (f : LockFile)
      → s.file ≡ some f
      → rules.may_age f s
      → Step rules s (record s { file = some (grown_old f) })

pub data Steps (rules : Rules) (s : System) : System → Type 0 where
  done : Steps rules s s
  step : {t u : System} → Steps rules s t → Step rules t u → Steps rules s u

-- `os.replace` runs whenever its process is about to call it, and no lock file gets to be a second
-- old.
abbrev pub prompt_rules : Rules
prompt_rules = record { may_replace = λ s. Unit; may_age = λ f s. ⊥ }

-- A lock is replaced while it is still stale by the code's own test, and no process that goes on takes
-- a second from `os.open` to `os.write`.
abbrev pub undisturbed_rules : Rules
undisturbed_rules = record {
  may_replace = λ s. is_stale s (read_lock_pid s.file) ≡ true;
  may_age = λ f s. (f.pid ≡ none) → s.running f.creator ≡ false;
}
