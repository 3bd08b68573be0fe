-- ===== src/Tasks/Worker/Lease.antt =====
-- A worker that beats in time is not reaped, and a beat reports a lease that is lost.
use restock_system.Tasks.Table.{TaskRun, update_where, Table, update_rows}
use restock_system.Tasks.Worker.{accepts_config, reap_once, heartbeat, holds, is_expired}
use restock_system.Common.{ℕ, ◌≡◌, Text, some, true, ◌≤◌, ◌+◌, ◌*◌, false, arith, refl}
use restock_system.Tasks.Table.Rows.{row_at-update, row_at, row_at-update_rows}

-- Under a configuration that the worker accepts, a task that it holds when it beats at the time
-- `beat_at` still has its row as the beat left it after a pass of the reaper at any time up to two
-- beats later.
pub reap_once-heartbeat :
    (worker : Text) (heartbeat_seconds lease_seconds beat_at now i : ℕ) (t : Table) {r : TaskRun}
    → accepts_config heartbeat_seconds lease_seconds ≡ true
    → row_at i t.rows ≡ some r
    → holds worker i r ≡ true
    → now ≤ beat_at + heartbeat_seconds * 2
    → row_at i (reap_once now (heartbeat worker lease_seconds beat_at i t).0).rows
      ≡ some (record r {
        heartbeat_at = some beat_at;
        lease_expires_at = some (beat_at + lease_seconds);
      })
unfolding accepts_config reap_once heartbeat update_where
reap_once-heartbeat worker heartbeat_seconds lease_seconds beat_at now i t {r} c h own n =
    let beat = λ (r : TaskRun). record r {
      heartbeat_at = some beat_at;
      lease_expires_at = some (beat_at + lease_seconds);
    } in
    let beaten : row_at i (update_rows (holds worker i) beat t.rows) ≡ some (beat r) =
      rw own at (row_at-update (holds worker i) beat i (λ x. refl) t.rows h) in
    let alive : is_expired now (beat r) ≡ false = ground (arith, c, n) in
    row_at-update_rows (is_expired now) _ i (update_rows (holds worker i) beat t.rows) (λ x. refl)
      alive beaten
