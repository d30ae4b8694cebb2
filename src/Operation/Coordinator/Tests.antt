-- ===== src/Operation/Coordinator/Tests.antt =====
-- A caller that runs while another process waits for the lock.
use m_ui.Prelude.{ℕ, ◌≡◌, refl, true, false, ◌&&◌, Option, none, some}
use m_ui.Operation.Coordinator.{
  Coordinator, new_coordinator, acquire, Pc, requesting, trying, polling, locked, running, start,
  take, lock, wait, taken, busy, activate, update, System, initial, pick, Reachable, at_start,
  later,
}
use m_ui.Operation.Coordinator.Exclusion.{is_shown, Reachable-unique, Reachable-active}

abbrev own_process : ℕ → ℕ
own_process i = i

abbrev moved : System → ℕ → Coordinator → Option ℕ → Pc → System
moved s i c o p = record { coordinator = update s.coordinator i c; owner = o; pc = update s.pc i p }

abbrev taken_token : Coordinator
taken_token = record { token = false; active = false }

abbrev in_use : Coordinator
in_use = record { token = false; active = true }

abbrev first_requests : System
first_requests = moved initial 0 new_coordinator none (requesting acquire)

abbrev first_tries : System
first_tries = moved first_requests 0 taken_token none (trying acquire)

abbrev first_locks : System
first_locks = moved first_tries 0 taken_token (some 0) locked

abbrev first_runs : System
first_runs = moved first_locks 0 in_use (some 0) running

abbrev second_requests : System
second_requests = moved first_runs 1 new_coordinator (some 0) (requesting acquire)

abbrev second_tries : System
second_tries = moved second_requests 1 taken_token (some 0) (trying acquire)

abbrev second_waits : System
second_waits = moved second_tries 1 taken_token (some 0) (polling acquire)

first_runs-Reachable : Reachable own_process first_runs
first_runs-Reachable =
    later
      (later (later (later at_start (pick 0 (start acquire))) (pick 0 take)) (pick 0 (lock taken)))
      (pick 0 activate)

second_waits-Reachable : Reachable own_process second_waits
second_waits-Reachable =
    later (later (later first_runs-Reachable (pick 1 (start acquire))) (pick 1 take))
      (pick 1 (wait busy))

Reachable-unique_example : ◌≡◌ {A = ℕ} 0 0
Reachable-unique_example = Reachable-unique 0 0 second_waits-Reachable refl refl

-- Nobody of process 1 runs, and its token is taken; that of process 2 is in the channel.
Reachable-active_example :
    (is_shown (second_waits.pc 0) (second_waits.coordinator 0) ≡ true)
    × (((second_waits.coordinator 2).token && (second_waits.coordinator 2).active) ≡ false)
Reachable-active_example = Reachable-active 0 2 second_waits-Reachable
