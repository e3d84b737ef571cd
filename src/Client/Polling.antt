-- ===== src/Client/Polling.antt =====
-- src/client.rs, `NetworkTestSession`: a continued network test that is read by polling.
-- The replies to the polls and to the cancellation are given as a list, in the order in which they
-- arrive; each is what `send_json` returns. The pause before a poll changes no result.
use keenetic_rci.Prelude.{
  ℕ, zero, suc, Bool, true, false, not, ◌&&◌, Option, none, some, List, [], ◌∷◌, ◌++◌, Result, ok,
  err,
}
use keenetic_rci.Prelude.Str.{Str}
use keenetic_rci.Error.{Error}
pub mod Drain

-- `NetworkTestOutput`
abbrev pub Lines : Type 0
Lines = List Str

-- `NetworkTestResponse`
pub record PollResponse : Type 0 where
  pub message : Lines
  pub continued : Bool

-- `into_parts`, its first part
abbrev pub output_of : Lines → Option Lines
output_of [] = none
output_of (line ∷ lines) = some (line ∷ lines)

-- The fields of `NetworkTestSession` that change.
pub record PollSession : Type 0 where
  pub pending : Option Lines
  pub continued : Bool

-- `new`
unfoldable pub start : PollResponse → PollSession
start response = record { pending = output_of response.message; continued = response.continued }

abbrev pub Script : Type 0
Script = List (Result PollResponse Error)

-- How a call ends, with the replies that it left: with a value, with an error, or still waiting for
-- a reply when there are no more.
pub data Ended (A : Type 0) : Type 0 where
  gives : A → Script → Ended A
  fails : Error → Script → Ended A
  waits : Ended A

-- The loop of `next_chunk`, by the two fields that it reads: a round takes the pending output, or
-- stops, or polls. A failed poll leaves a session that is continued and has no pending output.
unfoldable pub poll : Option Lines → Bool → Script → Ended (Option Lines × PollSession)
poll (some output) c script = gives (some output, record { pending = none; continued = c }) script
poll none false script = gives (none, record { pending = none; continued = false }) script
poll none true [] = waits
poll none true (err e ∷ script) = fails e script
poll none true (ok response ∷ script) = poll (output_of response.message) response.continued script

-- `next_chunk`
unfoldable pub next_chunk : PollSession → Script → Ended (Option Lines × PollSession)
next_chunk session script = poll session.pending session.continued script

-- A round of the `while let` of `collect`, with the rest of the loop.
abbrev pub after :
    (Lines → PollSession → Script → Ended Lines)
    → Lines
    → Ended (Option Lines × PollSession)
    → Ended Lines
after more lines (gives (some output, session) script) = more (lines ++ output) session script
after more lines (gives (none, session) script) = gives lines script
after more lines (fails e script) = fails e script
after more lines waits = waits

-- The loop, on fuel.
unfoldable pub collect_loop : ℕ → Lines → PollSession → Script → Ended Lines
collect_loop zero lines session script = waits
collect_loop (suc fuel) lines session script =
    after (collect_loop fuel) lines (next_chunk session script)

abbrev pub replies {ℓ} : {A : Type ℓ} → List A → ℕ
replies [] = 0
replies (r ∷ script) = suc (replies script)

-- `collect`
unfoldable pub collect : PollSession → Script → Ended Lines
collect session script = collect_loop (suc (suc (replies script))) [] session script

abbrev pub unread : Option Lines → Lines
unread none = []
unread (some output) = output

-- `cancel`: the lines, and whether a DELETE was sent. The reply to it is the first of the list.
abbrev pub stop : Lines → Bool → Script → Ended Lines × Bool
stop lines false script = (gives lines script, false)
stop lines true [] = (waits, true)
stop lines true (err e ∷ script) = (fails e script, true)
stop lines true (ok response ∷ script) =
    (gives (lines ++ unread (output_of response.message)) script, true)

unfoldable pub cancel : PollSession → Script → Ended Lines × Bool
cancel session script = stop (unread session.pending) session.continued script

-- `is_finished`
unfoldable pub is_finished : PollSession → Bool
is_finished session = elim session.pending [ none ↦ not session.continued | some _ ↦ false ]
