-- ===== src/Examples/Leases.antt =====
-- The lease of a workspace at a concrete host (src/deepseek_mcp/execution_lock.py).
use deepseek_as_subagent.Prelude.{◌≡◌, refl, true, false, none, some, [], ◌∷◌, arith}
use deepseek_as_subagent.Prelude.Results.{ok, err, ok-inj}
use deepseek_as_subagent.Text.{codes}
use deepseek_as_subagent.Lease.{LockHost, locked, conflict, busy, os_error, acquire_workspace_lease}
use deepseek_as_subagent.Lease.Released.{IsFresh, Released, acquire_workspace_lease-Released}

abbrev quiet_host : LockHost
quiet_host = record {
  workspace_stat = ok (1, 7);
  canonical = codes "/work";
  directory_ready = ok tt;
  open_directory = ok 4;
  open_file = ok 5;
  file_info = ok (record { is_regular = true; is_owned = true; mode = 0o600 });
  file_started = ok tt;
  directory_closed = ok tt;
  lock_file = locked;
  workspace_stat_again = ok (1, 7);
}

quiet_host-IsFresh : IsFresh quiet_host
quiet_host-IsFresh directory fd d f e =
    let a : 4 ≡ directory = ok-inj d in let b : 5 ≡ fd = ok-inj f in absurd (omega arith)

lease_acquired :
    acquire_workspace_lease false quiet_host none (3 ∷ [])
    ≡ (ok (record { fd = some 5 }), 5 ∷ 3 ∷ [])
unfolding acquire_workspace_lease
lease_acquired = refl

lease_busy :
    acquire_workspace_lease false (record quiet_host { lock_file = conflict }) none (3 ∷ [])
    ≡ (err busy, 3 ∷ [])
unfolding acquire_workspace_lease
lease_busy = refl

-- Where the closing of the directory's descriptor fails, that of the lock file stays open.
lease_leaked :
    acquire_workspace_lease false
      (record quiet_host { directory_closed = err (codes "EIO") })
      none
      (3 ∷ [])
    ≡ (err (os_error (codes "EIO")), 5 ∷ 3 ∷ [])
unfolding acquire_workspace_lease
lease_leaked = refl

acquire_workspace_lease-Released_example :
    Released (3 ∷ []) (acquire_workspace_lease false quiet_host none (3 ∷ []))
acquire_workspace_lease-Released_example =
    acquire_workspace_lease-Released false quiet_host none (3 ∷ []) refl quiet_host-IsFresh
