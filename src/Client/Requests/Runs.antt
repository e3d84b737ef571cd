-- ===== src/Client/Requests/Runs.antt =====
-- src/client.rs, `run_network_test`: a network test from its first request to its last line.
use keenetic_rci.Prelude.{
  ℕ, zero, suc, ◌≤◌, ◌<◌, ◌≡◌, Bool, true, false, Option, none, some, [], ◌∷◌, ◌++◌, arith, refl,
  sym, ap, ◌∙◌, append-nil, append_assoc,
}
use keenetic_rci.Prelude.Str.{Str, Bytes}
use keenetic_rci.Error.{Error}
use keenetic_rci.Client.Inspect.{Memchr}
use keenetic_rci.Client.Platform.{Platform}
use keenetic_rci.Client.Responses.{Decoder}
use keenetic_rci.Client.Polling.{PollResponse, Lines, output_of, start}
use keenetic_rci.Client.Session.{Inner, State, Outcome, returns, fails, panic, pass}
use keenetic_rci.Client.Requests.{get_json, post_at_path, start_network_test}
use keenetic_rci.Client.Requests.Polls.{chunk_read, poll_live, collect_live, run_network_test}

-- Lines before those of an outcome, and an outcome of a loop that had the fuel.
abbrev pub prepend : Lines → Outcome Lines → Outcome Lines
prepend lines (returns more) = returns (lines ++ more)
prepend lines (fails e) = fails e
prepend lines panic = panic

abbrev pub in_time : Outcome Lines → Outcome (Option Lines)
in_time (returns lines) = returns (some lines)
in_time (fails e) = fails e
in_time panic = panic

prepend_twice : (a b : Lines) (o : Outcome Lines) → prepend (a ++ b) o ≡ prepend a (prepend b o)
prepend_twice a b (returns lines) = ap (λ l. returns l) (append_assoc a b lines)
prepend_twice a b (fails e) = refl
prepend_twice a b panic = refl

module _ (p : Platform) (m : Memchr) (d : Decoder PollResponse) (inner : Inner p) (path : Str) where
  -- What reading a test to its end means, by the GETs that it sends, their number, and the state that
  -- each leaves to the next: it ends with the first reply that is not continued, whose lines are the
  -- last, or with the first failed GET.
  pub data Reads : ℕ → Bool → State p → Outcome Lines → State p → Type 0 where
    over : {s : State p} → Reads 0 false s (returns []) s
    failed :
        {s t : State p} {e : Error}
        → get_json p m d inner path s ≡ (fails e, t)
        → Reads 1 true s (fails e) t
    panicked : {s t : State p} → get_json p m d inner path s ≡ (panic, t) → Reads 1 true s panic t
    more :
        {n : ℕ} {s next t : State p} {o : Outcome Lines} (response : PollResponse)
        → get_json p m d inner path s ≡ (returns response, next)
        → Reads n response.continued next o t
        → Reads (suc n) true s (prepend response.message o) t

  module _ (polls : ℕ) where
    -- A chunk and the rest of the loop, when nothing is pending.
    Finishes : ℕ → Bool → State p → Outcome Lines → State p → Type 0
    Finishes n c s o t =
        (f k : ℕ) (lines : Lines)
        → n ≤ f
        → n ≤ k
        → pass p (poll_live p m d inner path f none c s)
            (chunk_read p (collect_live p m d inner path polls k) lines)
          ≡ (in_time (prepend lines o), t)

    -- The same for a message that has just come.
    message_read :
        (n : ℕ) (c : Bool) (s : State p) (o : Outcome Lines) (t : State p)
        → n ≤ polls
        → Finishes n c s o t
        → (f k : ℕ) (lines message : Lines) → n ≤ f
        → n < k
        → pass p
            (poll_live p m d inner path f (output_of message) c s)
            (chunk_read p (collect_live p m d inner path polls k) lines)
          ≡ (in_time (prepend lines (prepend message o)), t)
    unfolding Finishes poll_live collect_live
    message_read n c s o t all h f zero lines message a b = absurd (omega arith)
    message_read n c s o t all h f (suc k) lines [] a b =
        h f (suc k) lines a (omega arith)
        ∙ ap (λ x. (in_time x, t))
            (ap (λ l. prepend l o) (sym (append-nil lines)) ∙ prepend_twice lines [] o)
    message_read n c s o t all h f (suc k) lines (line ∷ message) a b =
        h polls k (lines ++ line ∷ message) all (omega arith)
        ∙ ap (λ x. (in_time x, t)) (prepend_twice lines (line ∷ message) o)

    Reads-Finishes :
        {n : ℕ} {c : Bool} {s t : State p} {o : Outcome Lines}
        → n ≤ polls
        → Reads n c s o t
        → Finishes n c s o t
    unfolding Finishes poll_live
    Reads-Finishes all (over {s}) f k lines a b =
        ap (λ l. (returns (some l), s)) (sym (append-nil lines))
    Reads-Finishes all (failed get) zero k lines a b = absurd (omega arith)
    Reads-Finishes all (failed get) (suc f) k lines a b = rw get refl
    Reads-Finishes all (panicked get) zero k lines a b = absurd (omega arith)
    Reads-Finishes all (panicked get) (suc f) k lines a b = rw get refl
    Reads-Finishes all (more response get rest) zero k lines a b = absurd (omega arith)
    Reads-Finishes all (more {n} {next = v} {t} {o} response get rest) (suc f) k lines a b =
        rw get (
          message_read n response.continued v o t (omega arith) (Reads-Finishes (omega arith) rest)
            f k lines response.message (omega arith) (omega arith))

  -- When the POST of a network test has given its first response, and reading it to its end takes `n`
  -- polls, `run_network_test` ends with fuel for them: with the lines of the first response and then
  -- those of each reply, in order, up to and with the first that is not continued, or with the failure
  -- of the first poll that failed. It leaves the state that the last of these requests left, and sends
  -- no other.
  pub run_network_test-Reads :
      (fuel n : ℕ) (body : Option Bytes) (s next t : State p) (response : PollResponse)
      (o : Outcome Lines)
      → post_at_path p m d inner path body s ≡ (returns response, next)
      → Reads n response.continued next o t
      → suc n < fuel
      → run_network_test p m d inner path fuel body s ≡ (in_time (prepend response.message o), t)
  unfolding run_network_test start_network_test start collect_live
  run_network_test-Reads zero n body s next t response o sent reads enough = absurd (omega arith)
  run_network_test-Reads (suc fuel) n body s next t response o sent reads enough = rw sent (
      message_read (suc fuel) n response.continued next o t (omega arith)
        (Reads-Finishes (suc fuel) (omega arith) reads) (suc fuel) fuel [] response.message
        (omega arith) (omega arith)
      ∙ ap (λ x. (in_time x, t)) (nothing_before response.message o))
    where
      nothing_before :
          (message : Lines) (x : Outcome Lines) → prepend [] (prepend message x) ≡ prepend message x
      nothing_before message (returns lines) = refl
      nothing_before message (fails e) = refl
      nothing_before message panic = refl
