-- ===== src/Lease.antt =====
-- src/deepseek_mcp/execution_lock.py: the lease of a workspace on a POSIX host, and the descriptors that are
-- open. What the operating system answers is a record; closing a descriptor gives it back also where it
-- reports an error. Locking and unlocking on Windows is left out.
pub mod Released
use deepseek_as_subagent.Prelude.{
  ℕ, Bool, true, false, not, ◌&&◌, ◌||◌, Option, none, some, List, [], ◌∷◌, ◌==◌, if◌then◌else◌,
}
use deepseek_as_subagent.Prelude.Results.{Result, ok, err}
use deepseek_as_subagent.Prelude.Exec.{Exec, pure, raise, lift, raise_if, ◌>>=◌, ◌>>◌}
use deepseek_as_subagent.Text.{Text, codes, text_eq}

-- The descriptors that are open, the last one first.
abbrev pub Descriptors : Type 0
Descriptors = List ℕ

unfoldable pub close : ℕ → Descriptors → Descriptors
close fd [] = []
close fd (d ∷ ds) = elim (fd == d) [ true ↦ ds | false ↦ d ∷ close fd ds ]

-- `filesystem:device:inode`, or the normalized path where the file system reports no inode.
pub data Identity : Type 0 where
  filesystem : ℕ → ℕ → Identity
  path : Text → Identity

unfoldable pub same_identity : Identity → Identity → Bool
unfolding text_eq
same_identity (filesystem a b) (filesystem c d) = a == c && b == d
same_identity (path s) (path t) = text_eq s t
same_identity _ _ = false

pub data LockAnswer : Type 0 where
  locked : LockAnswer
  conflict : LockAnswer
  lock_error : Text → LockAnswer

pub data LeaseError : Type 0 where
  busy : LeaseError
  already_released : LeaseError
  identity_changed : LeaseError
  lock_failed : Text → LeaseError
  -- An `OSError` that is not caught.
  os_error : Text → LeaseError

pub record LockInfo : Type 0 where
  pub is_regular : Bool
  pub is_owned : Bool
  -- What is left of the mode behind `fchmod`.
  pub mode : ℕ

-- The answers in the order of the calls: the device and inode of the workspace, the preparation of the
-- lock directory, the two descriptors, the state of the lock file with the error of a call on it, the
-- closing of the directory's descriptor, the lock, and the workspace again.
pub record LockHost : Type 0 where
  pub workspace_stat : Result Text (ℕ × ℕ)
  pub canonical : Text
  pub directory_ready : Result Text (Unit {0})
  pub open_directory : Result Text ℕ
  pub open_file : Result Text ℕ
  pub file_info : Result Text LockInfo
  pub file_started : Result Text (Unit {0})
  pub directory_closed : Result Text (Unit {0})
  pub lock_file : LockAnswer
  pub workspace_stat_again : Result Text (ℕ × ℕ)

pub record WorkspaceExecutionLease : Type 0 where
  pub fd : Option ℕ

abbrev pub Act : Type 0 → Type 0
Act A = Exec Descriptors LeaseError A

filesystem_identity : ℕ × ℕ → Option Identity
filesystem_identity (device, inode) = if inode == 0 then none else some (filesystem device inode)

identified : Text → Option Identity → Identity
identified canonical none = path canonical
identified canonical (some i) = i

unfoldable pub workspace_identity : Text → Result Text (ℕ × ℕ) → Result LeaseError Identity
unfolding filesystem_identity identified
workspace_identity canonical (err e) = err (lock_failed e)
workspace_identity canonical (ok numbers) = ok (identified canonical (filesystem_identity numbers))

-- Behind `os.fstat` and `os.fchmod`.
unfoldable pub validate_open_lock : Result Text LockInfo → Result Text (Unit {0})
validate_open_lock (err e) = err e
validate_open_lock (ok info) =
    if not info.is_regular
    then err (codes "workspace execution lock is not a regular file")
    else if not info.is_owned
    then err (codes "workspace execution lock has unsafe ownership")
    else if not (info.mode == 0o600)
    then err (codes "workspace execution lock mode is not 0600")
    else ok tt

-- What is raised behind a closing: its own error, if it fails.
closed_behind :
    {E : Type 0} {A : Type 0} → (Text → E) → Result Text (Unit {0}) → Result E A → Result E A
closed_behind f (ok _) r = r
closed_behind f (err e) r = err (f e)

-- The two descriptors: that of the directory is closed again if there is no file.
opened_behind :
    Result Text (Unit {0}) → Result Text ℕ → Result Text ℕ → Exec Descriptors Text (ℕ × ℕ)
unfolding close closed_behind
opened_behind closed (err e) file s = (err e, s)
opened_behind closed (ok directory) (err e) s =
    (closed_behind (λ t. t) closed (err e), close directory (directory ∷ s))
opened_behind closed (ok directory) (ok fd) s = (ok (fd, directory), fd ∷ directory ∷ s)

-- `_open_platform_lock`
unfoldable pub open_platform_lock : LockHost → Exec Descriptors Text (ℕ × ℕ)
unfolding opened_behind
open_platform_lock h s = opened_behind h.directory_closed h.open_directory h.open_file s

-- The checks of `_open_lock_file`, and the calls behind them; the directory's descriptor is closed
-- whatever they give, and where this fails its error is raised; the file's descriptor is then closed only
-- if a check failed.
checked_file :
    ℕ × ℕ → Result Text (Unit {0}) → Result Text (Unit {0}) → Result Text (Unit {0}) → Act ℕ
unfolding close closed_behind
checked_file (fd, directory) closed (err e) started s =
    (closed_behind (λ t. os_error t) closed (err (lock_failed e)), close directory (close fd s))
checked_file (fd, directory) closed (ok _) (err e) s =
    (closed_behind (λ t. os_error t) closed (err (lock_failed e)), close directory (close fd s))
checked_file (fd, directory) closed (ok _) (ok _) s =
    (closed_behind (λ t. os_error t) closed (ok fd), close directory s)

checked_open : LockHost → Result Text (ℕ × ℕ) × Descriptors → Result LeaseError ℕ × Descriptors
unfolding checked_file validate_open_lock
checked_open h (err e, s) = (err (lock_failed e), s)
checked_open h (ok opened, s) =
    checked_file opened h.directory_closed (validate_open_lock h.file_info) h.file_started s

unfoldable pub open_lock_file : LockHost → Act ℕ
unfolding open_platform_lock checked_open
open_lock_file h s = checked_open h (open_platform_lock h s)

-- `release`: the lease is given up first, so that a second release does nothing. `failed` if `os.close`
-- reports an error.
unfoldable pub release :
    Bool
    → WorkspaceExecutionLease
    → Descriptors
    → Result LeaseError (Unit {0}) × (WorkspaceExecutionLease × Descriptors)
unfolding close
release failed l s = elim l.fd [
  | none ↦ (ok tt, (l, s))
  | some fd ↦ (
    if failed then err (lock_failed (codes "close")) else ok tt,
    (record { fd = none }, close fd s),
  )
]

unfoldable pub fileno : WorkspaceExecutionLease → Result LeaseError ℕ
fileno l = elim l.fd [ none ↦ err already_released | some fd ↦ ok fd ]

-- Behind the lock: the workspace must still be the same.
unchanged : Identity → Result LeaseError Identity → Result LeaseError (Unit {0})
unfolding same_identity
unchanged i (err e) = err e
unchanged i (ok j) = if same_identity j i then ok tt else err identity_changed

given_up :
    LeaseError
    → Result LeaseError (Unit {0}) × (WorkspaceExecutionLease × Descriptors)
    → Result LeaseError WorkspaceExecutionLease × Descriptors
given_up e (ok _, (l, s)) = (err e, s)
given_up e (err f, (l, s)) = (err f, s)

leased : Bool → ℕ → Result LeaseError (Unit {0}) → Act WorkspaceExecutionLease
unfolding release given_up
leased failed fd (ok _) s = (ok (record { fd = some fd }), s)
leased failed fd (err e) s = given_up e (release failed (record { fd = some fd }) s)

lock_opened : Bool → LockHost → Identity → ℕ → LockAnswer → Act WorkspaceExecutionLease
unfolding leased unchanged close workspace_identity
lock_opened failed h i fd conflict s =
    (err (if failed then os_error (codes "close") else busy), close fd s)
lock_opened failed h i fd (lock_error e) s =
    (err (if failed then os_error (codes "close") else lock_failed e), close fd s)
lock_opened failed h i fd locked s =
    leased failed fd (unchanged i (workspace_identity h.canonical h.workspace_stat_again)) s

expects : Option Identity → Identity → Bool
unfolding same_identity
expects none i = true
expects (some e) i = same_identity i e

lock_directory : Result Text (Unit {0}) → Result LeaseError (Unit {0})
lock_directory (ok _) = ok tt
lock_directory (err e) = err (lock_failed e)

unfoldable pub acquire_workspace_lease :
    Bool → LockHost → Option Identity → Act WorkspaceExecutionLease
unfolding workspace_identity expects open_lock_file lock_opened lock_directory
acquire_workspace_lease failed h expected = do
  i ← lift (workspace_identity h.canonical h.workspace_stat)
  raise_if (not (expects expected i)) identity_changed
  lift (lock_directory h.directory_ready)
  fd ← open_lock_file h
  lock_opened failed h i fd h.lock_file
