-- ===== src/Client/Flight.antt =====
-- src/client.rs, `authenticate` with many calls at once: the mutex, the atomic generation, and the
-- places at which a task can be interrupted or dropped, as a step relation. What a login sends and
-- what it returns is any result here; `Client.Session` says what a single call does.
use keenetic_rci.Prelude.{
  ℕ, ◌+◌, ◌%◌, ◌^◌, ◌≡◌, ◌≢◌, Option, none, some, List, [], ◌∷◌, Result, ◌==◌, if◌then◌else◌,
}
use keenetic_rci.Error.{Error}
pub mod Single

abbrev pub LoginResult : Type 0
LoginResult = Result (Unit {0}) Error

-- Where a task is: before its request; at the lock, with the generation that it read before a
-- request that came back as 401; in `perform_authentication` under the lock; between writing the
-- state and the store to the atomic; at the end of `authenticate`; dropped; or in a failed `expect`.
pub data Phase : Type 0 where
  fresh : Phase
  waiting : ℕ → Phase
  authenticating : ℕ → Phase
  storing : LoginResult → Phase
  finished : LoginResult → Phase
  dropped : Phase
  panicked : Phase

-- What the tasks share: who holds the mutex, the state behind it, and the atomic. `logins` lists the
-- generations that the completed logins had observed, newest first; the program does not keep it.
pub record Shared : Type 0 where
  pub holder : Option ℕ
  pub generation : ℕ
  pub last_result : Option LoginResult
  pub published : ℕ
  pub logins : List ℕ

pub record Tasks : Type 0 where
  pub shared : Shared
  pub phase : ℕ → Phase

abbrev pub put : (ℕ → Phase) → ℕ → Phase → ℕ → Phase
put phase i new j = if j == i then new else phase j

-- The retained result, as the caller sees it.
abbrev pub after_retained : Option LoginResult → Phase
after_retained none = panicked
after_retained (some result) = finished result

-- The state after a login with this result.
abbrev pub written : ℕ → LoginResult → Shared → Shared
written observed result s = record s {
  generation = (s.generation + 1) % 2 ^ 64;
  last_result = some result;
  logins = observed ∷ s.logins;
}

-- The lock taken by a task, released, and released with the store to the atomic.
abbrev pub locked : ℕ → Shared → Shared
locked i s = record s { holder = some i }

abbrev pub released : Shared → Shared
released s = record s { holder = none }

abbrev pub stored : Shared → Shared
stored s = record s { published = s.generation; holder = none }

pub data Step (s : Tasks) : Tasks → Type 0 where
  -- The atomic is read, and the request comes back as 401.
  observe :
      (i : ℕ)
      → s.phase i ≡ fresh
      → Step s (record s { phase = put s.phase i (waiting s.shared.published) })
  -- The lock is taken with a generation that is still current.
  enter :
      (i observed : ℕ)
      → s.phase i ≡ waiting observed
      → s.shared.holder ≡ none
      → s.shared.generation ≡ observed
      → Step s
          (record { shared = locked i s.shared; phase = put s.phase i (authenticating observed) })
  -- The lock is taken with an old generation, and released at once.
  reuse :
      (i observed : ℕ)
      → s.phase i ≡ waiting observed
      → s.shared.holder ≡ none
      → s.shared.generation ≢ observed
      → Step s (record s { phase = put s.phase i (after_retained s.shared.last_result) })
  -- The login ends, and the state is written.
  write :
      (i observed : ℕ) (result : LoginResult)
      → s.phase i ≡ authenticating observed
      → Step s (record {
        shared = written observed result s.shared;
        phase = put s.phase i (storing result);
      })
  -- The generation is stored to the atomic, and the lock is released.
  store :
      (i : ℕ) (result : LoginResult)
      → s.phase i ≡ storing result
      → Step s (record { shared = stored s.shared; phase = put s.phase i (finished result) })
  -- A task that waits for the lock is dropped.
  drop_waiting :
      (i observed : ℕ)
      → s.phase i ≡ waiting observed
      → Step s (record s { phase = put s.phase i dropped })
  -- A task is dropped during its login, and the lock is released.
  drop_login :
      (i observed : ℕ)
      → s.phase i ≡ authenticating observed
      → Step s (record { shared = released s.shared; phase = put s.phase i dropped })

abbrev pub initial : Tasks
initial = record {
  shared = record { holder = none; generation = 0; last_result = none; published = 0; logins = [] };
  phase = λ i. fresh;
}

-- What any order of steps of any number of tasks can reach.
pub data Reachable : Tasks → Type 0 where
  begin : Reachable initial
  next : {s t : Tasks} → Reachable s → Step s t → Reachable t
