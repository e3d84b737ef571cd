-- ===== src/Client/Requests/Polls.antt =====
-- src/client.rs, `next_chunk` and `collect` of `NetworkTestSession` and `run_network_test`, over the
-- session of the client: each poll is an authenticated GET. The loops run on fuel, and `none` is that
-- it ran out; the pause before a poll changes no result.
use keenetic_rci.Prelude.{ℕ, zero, suc, Bool, true, false, Option, none, some, [], ◌++◌}
use keenetic_rci.Prelude.Str.{Str, Bytes}
use keenetic_rci.Client.Inspect.{Memchr}
use keenetic_rci.Client.Platform.{Platform}
use keenetic_rci.Client.Responses.{Decoder}
use keenetic_rci.Client.Polling.{Lines, PollResponse, output_of, PollSession}
use keenetic_rci.Client.Session.{Inner, M, pass, pure}
use keenetic_rci.Client.Requests.{get_json, start_network_test}

module _ (p : Platform) where
  -- A round of the `while let` of `collect`, with the rest of the loop.
  abbrev pub chunk_read :
      (Lines → PollSession → M p (Option Lines))
      → Lines
      → Option (Option Lines × PollSession)
      → M p (Option Lines)
  chunk_read more lines none = pure p none
  chunk_read more lines (some (some output, session)) = more (lines ++ output) session
  chunk_read more lines (some (none, session)) = pure p (some lines)

  module _ (m : Memchr) (d : Decoder PollResponse) (inner : Inner p) (path : Str) where
    -- The loop of `next_chunk`, by the two fields that it reads.
    unfoldable pub poll_live : ℕ → Option Lines → Bool → M p (Option (Option Lines × PollSession))
    poll_live fuel (some output) c s =
        pure p (some (some output, record { pending = none; continued = c })) s
    poll_live fuel none false s =
        pure p (some (none, record { pending = none; continued = false })) s
    poll_live zero none true s = pure p none s
    poll_live (suc fuel) none true s =
        pass p (get_json p m d inner path s)
          λ response. poll_live fuel (output_of response.message) response.continued

    -- The loop of `collect`, with the fuel of each of its chunks.
    unfoldable pub collect_live : ℕ → ℕ → Lines → PollSession → M p (Option Lines)
    unfolding poll_live
    collect_live polls zero lines session s = pure p none s
    collect_live polls (suc fuel) lines session s =
        pass p (poll_live polls session.pending session.continued s)
          (chunk_read (collect_live polls fuel) lines)

    -- `run_network_test`
    unfoldable pub run_network_test : ℕ → Option Bytes → M p (Option Lines)
    unfolding collect_live start_network_test
    run_network_test fuel body s =
        pass p (start_network_test p m d inner path body s) (collect_live fuel fuel [])
