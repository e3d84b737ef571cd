-- ===== src/Client/Polling/Drain.antt =====
-- src/client.rs, `collect` and `cancel` of `NetworkTestSession`, against a description of what there
-- is to read.
use keenetic_rci.Prelude.{
  ℕ, zero, suc, ◌<◌, ◌≡◌, Bool, true, false, Option, none, some, [], ◌∷◌, ◌++◌, ok, err, arith,
  refl, ap, sym, ◌∙◌, append-nil,
}
use keenetic_rci.Error.{Error}
use keenetic_rci.Client.Polling.{
  Lines, PollResponse, output_of, PollSession, start, Script, Ended, gives, fails, waits,
  next_chunk, collect_loop, after, replies, collect, unread, cancel, poll, stop,
}

-- What reading to the end means: the lines read so far and those of each reply, up to the first
-- error or the first reply that is not continued.
unfoldable pub drained : Lines → Bool → Script → Ended Lines
drained lines false script = gives lines script
drained lines true [] = waits
drained lines true (err e ∷ script) = fails e script
drained lines true (ok response ∷ script) =
    drained (lines ++ response.message) response.continued script

abbrev idle : Bool → PollSession
idle c = record { pending = none; continued = c }

-- With fuel beyond the replies, the loop without pending output reads to the end.
abbrev Drains : Bool → Script → Type 0
Drains c script =
    (fuel : ℕ) (lines : Lines)
    → replies script < fuel
    → collect_loop fuel lines (idle c) script ≡ drained lines c script

after-poll :
    (fuel : ℕ) (lines message : Lines) (c : Bool) (script : Script)
    → Drains c script
    → replies script < fuel
    → after (collect_loop fuel) lines (poll (output_of message) c script)
      ≡ drained (lines ++ message) c script
unfolding collect_loop next_chunk poll
after-poll fuel lines (line ∷ message) c script drains enough =
    drains fuel (lines ++ line ∷ message) enough
after-poll fuel lines [] c script drains enough =
    drains (suc fuel) lines (omega arith) ∙ ap (λ l. drained l c script) (sym (append-nil lines))

drains : (c : Bool) (script : Script) → Drains c script
unfolding collect_loop next_chunk poll drained
drains c script zero lines enough = absurd (omega arith)
drains false script (suc fuel) lines enough = refl
drains true [] (suc fuel) lines enough = refl
drains true (err e ∷ script) (suc fuel) lines enough = refl
drains true (ok response ∷ script) (suc fuel) lines enough =
    after-poll fuel lines response.message response.continued script
      (drains response.continued script) (omega arith)

collected :
    (output : Option Lines) (c : Bool) (script : Script)
    → collect (record { pending = output; continued = c }) script ≡ drained (unread output) c script
unfolding collect collect_loop next_chunk poll
collected none c script = drains c script (suc (suc (replies script))) [] (omega arith)
collected (some output) c script = drains c script (suc (replies script)) output (omega arith)

-- `collect` gives what is pending and the lines of each reply, in order, up to and with the first
-- reply that is not continued, and reads no reply after it; the first failed poll is its error; and
-- it waits only when the replies run out before either. The fuel of its loop is always enough.
pub collect-drained :
    (session : PollSession) (script : Script)
    → collect session script ≡ drained (unread session.pending) session.continued script
collect-drained session script = collected session.pending session.continued script

unread-output_of : (message : Lines) → unread (output_of message) ≡ message
unread-output_of [] = refl
unread-output_of (line ∷ message) = refl

-- A test that is started and then collected gives the lines of the first response and of each reply
-- up to the first that is not continued.
pub collect-start :
    (response : PollResponse) (script : Script)
    → collect (start response) script ≡ drained response.message response.continued script
unfolding start
collect-start response script =
    collect-drained (start response) script
    ∙ ap (λ l. drained l response.continued script) (unread-output_of response.message)

stop_sent : (lines : Lines) (c : Bool) (script : Script) → (stop lines c script).1 ≡ c
stop_sent lines false script = refl
stop_sent lines true [] = refl
stop_sent lines true (err e ∷ script) = refl
stop_sent lines true (ok response ∷ script) = refl

-- `cancel` sends a DELETE just when the router has not reported completion, and the lines that it
-- gives are those that are pending, followed by those of the reply to the DELETE; a failed DELETE is
-- its error.
pub cancel_cases :
    (session : PollSession) (e : Error) (response : PollResponse) (script : Script)
    → ((cancel session script).1 ≡ session.continued)
      × (cancel (record session { continued = false }) script
          ≡ (gives (unread session.pending) script, false))
      × (cancel (record session { continued = true }) (ok response ∷ script)
          ≡ (gives (unread session.pending ++ response.message) script, true))
      × (cancel (record session { continued = true }) (err e ∷ script) ≡ (fails e script, true))
unfolding cancel
cancel_cases session e response script = (
  stop_sent (unread session.pending) session.continued script,
  refl,
  ap (λ l. (gives (unread session.pending ++ l) script, true)) (unread-output_of response.message),
  refl,
)
