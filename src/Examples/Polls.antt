-- ===== src/Examples/Polls.antt =====
-- A network test that is read by polling, with concrete replies; and identifiers of digits.
use keenetic_rci.Prelude.{◌≡◌, Bool, true, false, some, [], ◌∷◌, ok, refl}
use keenetic_rci.Prelude.Str.{Str, codes}
use keenetic_rci.Text.{as_str}
use keenetic_rci.Client.Polling.{PollResponse, PollSession, Script, gives, collect}
use keenetic_rci.Client.Polling.Drain.{drained, collect-drained}
use keenetic_rci.Identifiers.{parse_iccid, optional_reported}
use keenetic_rci.Identifiers.Digits.{parse_iccid-reads_back}
use keenetic_rci.Identifiers.Reports.{IsRead, optional_reported-IsRead}

abbrev response : Str → Bool → PollResponse
response line continued = record { message = line ∷ []; continued = continued }

abbrev silent : PollResponse
silent = record { message = []; continued = true }

abbrev poll_script : Script
poll_script =
    ok silent ∷ ok (response (codes "two") true) ∷ ok (response (codes "three") false) ∷ []

collected_lines :
    drained (codes "one" ∷ []) true poll_script
    ≡ gives (codes "one" ∷ codes "two" ∷ codes "three" ∷ []) []
unfolding drained
collected_lines = refl

abbrev half_read : PollSession
half_read = record { pending = some (codes "one" ∷ []); continued = true }

collect-drained_example :
    collect half_read poll_script ≡ drained (codes "one" ∷ []) true poll_script
collect-drained_example = collect-drained half_read poll_script

-- Two replies that go on, and one that ends the test; the reply after it is not read.
abbrev iccid : Str
iccid = codes "8901000000000000001"

-- A number of eighteen digits is not an ICCID, and is kept as it was sent.
optional_reported-IsRead_example :
    IsRead parse_iccid as_str
      (some (codes "890100000000000001"))
      (optional_reported parse_iccid (some (codes "890100000000000001")))
optional_reported-IsRead_example =
    optional_reported-IsRead parse_iccid as_str parse_iccid-reads_back
      (some (codes "890100000000000001"))
