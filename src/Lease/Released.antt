-- ===== src/Lease/Released.antt =====
-- No descriptor is left open by an acquisition that fails (src/deepseek_mcp/execution_lock.py).
use deepseek_as_subagent.Prelude.{
  ℕ, ◌≡◌, ◌≢◌, refl, ap, ◌∙◌, Bool, true, false, not, Option, none, some, ◌∷◌, arith,
}
use deepseek_as_subagent.Prelude.Results.{Result, ok, err}
use deepseek_as_subagent.Prelude.Exec.{continue, raise_if}
use deepseek_as_subagent.Text.{Text}
use deepseek_as_subagent.Lease.{
  Descriptors, close, Identity, LockAnswer, locked, conflict, lock_error, LeaseError,
  identity_changed, LockHost, WorkspaceExecutionLease, Act, workspace_identity, validate_open_lock,
  closed_behind, opened_behind, open_platform_lock, checked_file, checked_open, open_lock_file,
  release, given_up, unchanged, leased, lock_opened, expects, lock_directory,
  acquire_workspace_lease,
}

-- The two descriptors that the system gives are not the same.
abbrev pub IsFresh : LockHost → Type 0
IsFresh h =
    (directory fd : ℕ) → h.open_directory ≡ ok directory → h.open_file ≡ ok fd → directory ≢ fd

-- A failure leaves the descriptors as they were. A lease holds one more, which its release closes
-- whatever closing reports, and a second release changes nothing.
abbrev pub Released : Descriptors → Result LeaseError WorkspaceExecutionLease × Descriptors → Type 0
Released s (err e, t) = t ≡ s
Released s (ok l, t) =
    (fd : ℕ) × (l.fd ≡ some fd)
    × (t ≡ fd ∷ s)
    × ((failed : Bool) → (release failed l t).1 ≡ (record { fd = none }, s))
    × ((failed : Bool) (u : Descriptors)
        → release failed (record { fd = none }) u ≡ (ok tt, (record { fd = none }, u)))

close_head : (fd : ℕ) (s : Descriptors) → close fd (fd ∷ s) ≡ s
unfolding close
close_head fd s = ground arith

close_second : (fd other : ℕ) (s : Descriptors) → fd ≢ other → close fd (other ∷ fd ∷ s) ≡ other ∷ s
unfolding close
close_second fd other s h = ground arith

leased-Released :
    (failed : Bool) (fd : ℕ) (r : Result LeaseError (Unit {0})) (s : Descriptors)
    → Released s (leased failed fd r (fd ∷ s))
unfolding leased given_up release
leased-Released failed fd (ok _) s =
    (fd, refl, refl, λ f. ap (λ t. (record { fd = none }, t)) (close_head fd s), λ f u. refl)
leased-Released true fd (err e) s = close_head fd s
leased-Released false fd (err e) s = close_head fd s

lock_opened-Released :
    (failed : Bool) (h : LockHost) (i : Identity) (fd : ℕ) (a : LockAnswer) (s : Descriptors)
    → Released s (lock_opened failed h i fd a (fd ∷ s))
unfolding lock_opened
lock_opened-Released failed h i fd locked s =
    leased-Released failed fd (unchanged i (workspace_identity h.canonical h.workspace_stat_again))
      s
lock_opened-Released failed h i fd conflict s = close_head fd s
lock_opened-Released failed h i fd (lock_error e) s = close_head fd s

-- What is open behind the opening of the lock file.
Opened : Descriptors → Result LeaseError ℕ × Descriptors → Type 0
Opened s (err e, t) = t ≡ s
Opened s (ok fd, t) = t ≡ fd ∷ s

checked_file-Opened :
    (fd directory : ℕ) (closed checked started : Result Text (Unit {0})) (s : Descriptors)
    → closed ≡ ok tt
    → directory ≢ fd
    → Opened s (checked_file (fd, directory) closed checked started (fd ∷ directory ∷ s))
unfolding checked_file Opened closed_behind
checked_file-Opened fd directory (err e) checked started s c n = absurd (cc)
checked_file-Opened fd directory (ok _) (err e) started s c n =
    ap (close directory) (close_head fd (directory ∷ s)) ∙ close_head directory s
checked_file-Opened fd directory (ok _) (ok _) (err e) s c n =
    ap (close directory) (close_head fd (directory ∷ s)) ∙ close_head directory s
checked_file-Opened fd directory (ok _) (ok _) (ok _) s c n = close_second directory fd s n

closing_directory :
    (closed : Result Text (Unit {0})) (h : LockHost) (directory : ℕ) (e : Text) (s : Descriptors)
    → closed ≡ ok tt
    → Opened s (checked_open h (opened_behind closed (ok directory) (err e) s))
unfolding checked_open Opened opened_behind closed_behind
closing_directory (err f) h directory e s c = absurd (cc)
closing_directory (ok _) h directory e s c = close_head directory s

opened_behind-Opened :
    (h : LockHost) (directory fd : Result Text ℕ) (s : Descriptors)
    → h.open_directory ≡ directory
    → h.open_file ≡ fd
    → h.directory_closed ≡ ok tt
    → IsFresh h
    → Opened s (checked_open h (opened_behind h.directory_closed directory fd s))
unfolding checked_open Opened opened_behind
opened_behind-Opened h (err e) fd s d f c n = refl
opened_behind-Opened h (ok directory) (err e) s d f c n =
    closing_directory h.directory_closed h directory e s c
opened_behind-Opened h (ok directory) (ok fd) s d f c n =
    checked_file-Opened fd directory h.directory_closed (validate_open_lock h.file_info)
      h.file_started s c (n directory fd d f)

lift-Released :
    {A : Type 0} (r : Result LeaseError A) (f : A → Act WorkspaceExecutionLease) (s : Descriptors)
    → ((a : A) → Released s (f a s))
    → Released s (continue (r, s) f)
lift-Released (ok a) f s k = k a
lift-Released (err e) f s k = refl

raise_if-Released :
    (b : Bool) (e : LeaseError) (f : Unit {0} → Act WorkspaceExecutionLease) (s : Descriptors)
    → Released s (f tt s)
    → Released s (continue (raise_if b e s) f)
raise_if-Released true e f s k = refl
raise_if-Released false e f s k = k

Opened-Released :
    (x : Result LeaseError ℕ × Descriptors) (f : ℕ → Act WorkspaceExecutionLease) (s : Descriptors)
    → Opened s x
    → ((fd : ℕ) → Released s (f fd (fd ∷ s)))
    → Released s (continue x f)
unfolding Opened
Opened-Released (ok fd, t) f s e k = rw e (k fd)
Opened-Released (err e', t) f s e k = e

-- However the system answers otherwise, an acquisition that raises leaves the open descriptors as they
-- were, if the closing of the lock directory's descriptor does not fail and the system does not give one
-- descriptor twice. One that returns leaves one more open, that of the lease,
-- which a release closes also where it raises; and a second release does nothing.
pub acquire_workspace_lease-Released :
    (failed : Bool) (h : LockHost) (expected : Option Identity) (s : Descriptors)
    → h.directory_closed ≡ ok tt
    → IsFresh h
    → Released s (acquire_workspace_lease failed h expected s)
unfolding acquire_workspace_lease open_lock_file open_platform_lock
acquire_workspace_lease-Released failed h expected s closed fresh =
    lift-Released (workspace_identity h.canonical h.workspace_stat) _ s (λ i.
      raise_if-Released (not (expects expected i)) identity_changed _ s (
        lift-Released (lock_directory h.directory_ready) _ s (λ _.
          Opened-Released
            (checked_open h (opened_behind h.directory_closed h.open_directory h.open_file s)) _ s
            (opened_behind-Opened h h.open_directory h.open_file s refl refl closed fresh)
            (λ fd. lock_opened-Released failed h i fd h.lock_file s))))
