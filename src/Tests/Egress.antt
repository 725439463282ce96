-- ===== src/Tests/Egress.antt =====
-- Attempts at a host that a stub takes and at one that none takes.
use qare.Prelude.{ℕ, String, Bool, true, none, some, List, [], ◌∷◌, any, filter, length, ◌≡◌, refl}
use qare.Json.{Json}
use qare.Egress.{EgressAttempt, EgressStub, summarize_egress}
use qare.Egress.Refused.{counted, summarize_egress-missing}

abbrev as_it_is : String → String
as_it_is s = s

abbrev to_host : String → EgressAttempt
to_host host = record { host = some (Json.text host); port = some (Json.num 443); protocol = none }

abbrev attempts : List EgressAttempt
attempts = to_host "api.test." ∷ to_host "evil.test.org" ∷ to_host "evil.test.org" ∷ []

abbrev stubs : List EgressStub
stubs = ("*.test" ∷ []) ∷ []

summarize_egress-missing_example :
    ((summarize_egress as_it_is attempts stubs).is_refused ≡ true)
    × (counted (summarize_egress as_it_is attempts stubs).findings ≡ 2)
unfolding qare.Egress.matches_stub qare.Egress.normalize_host qare.Prelude.strip_suffix
    qare.Egress.matches_host
summarize_egress-missing_example = summarize_egress-missing as_it_is attempts stubs
