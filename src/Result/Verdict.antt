-- ===== src/Result/Verdict.antt =====
-- `RunVerdict` of packages/core/src/result.ts, and `mergeVerdicts` of packages/core/src/egress.ts.
use qare.Prelude.{String, List, has, if◌then◌else◌, Bool, true, false}

pub data RunVerdict : Type 0 where
  passed failed blocked refused waived : RunVerdict

abbrev pub verdict_text : RunVerdict → String
verdict_text passed = "passed"
verdict_text failed = "failed"
verdict_text blocked = "blocked"
verdict_text refused = "refused"
verdict_text waived = "waived"

abbrev pub is_refused : RunVerdict → Bool
is_refused refused = true
is_refused _ = false

unfoldable pub merge_verdicts : List String → RunVerdict
unfolding has
merge_verdicts verdicts =
    if has verdicts "refused"
    then refused
    else if has verdicts "blocked"
    then blocked
    else if has verdicts "failed"
    then failed
    else passed
