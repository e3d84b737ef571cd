-- ===== src/Examples/Flights.antt =====
-- Two tasks that observe the same generation: one logs in, the other takes its result.
use keenetic_rci.Prelude.{ℕ, ◌%◌, ◌^◌, ◌≡◌, ◌≢◌, ok, length, refl}
use keenetic_rci.Client.Flight.{
  LoginResult, waiting, authenticating, storing, finished, panicked, Tasks, put, written, locked,
  stored, observe, enter, reuse, write, store, initial, Reachable, begin, next,
}
use keenetic_rci.Client.Flight.Single.{Numbered, Reachable-Numbered, Reachable-LogsIn}

abbrev done : LoginResult
done = ok tt

abbrev first_waits : Tasks
first_waits = record initial { phase = put initial.phase 0 (waiting 0) }

abbrev both_wait : Tasks
both_wait = record first_waits { phase = put first_waits.phase 1 (waiting 0) }

abbrev first_enters : Tasks
first_enters = record {
  shared = locked 0 both_wait.shared;
  phase = put both_wait.phase 0 (authenticating 0);
}

abbrev first_writes : Tasks
first_writes = record {
  shared = written 0 done first_enters.shared;
  phase = put first_enters.phase 0 (storing done);
}

abbrev first_stores : Tasks
first_stores = record {
  shared = stored first_writes.shared;
  phase = put first_writes.phase 0 (finished done);
}

abbrev both_done : Tasks
both_done = record first_stores { phase = put first_stores.phase 1 (finished done) }

entered : Reachable first_enters
entered = next (next (next begin (observe 0 refl)) (observe 1 refl)) (enter 0 0 refl refl refl)

ended : Reachable both_done
ended =
    next (next (next entered (write 0 0 done refl)) (store 0 done refl))
      (reuse 1 0 refl refl (λ e. cc))

Reachable-Numbered_example :
    Numbered both_done.shared.logins
    × (both_done.shared.generation ≡ length both_done.shared.logins % 2 ^ 64)
    × (both_done.phase 1 ≢ panicked)
Reachable-Numbered_example = Reachable-Numbered both_done 1 ended

abbrev task : ℕ
task = 0

Reachable-LogsIn_example : task ≡ task
Reachable-LogsIn_example = Reachable-LogsIn first_enters task task entered tt tt
