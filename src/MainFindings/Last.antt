-- ===== src/MainFindings/Last.antt =====
-- `lastProvenOf` of packages/core/src/main-findings.ts: when each criterion last passed. `Date.parse` is
-- a parameter, `none` for `NaN`.
use qare.Prelude.{
  ℕ, String, Bool, true, false, ◌&&◌, not, Option, none, some, List, [], ◌∷◌, filter, insert,
  lookup, ltb, if◌then◌else◌, ◌==◌,
}
use qare.Json.{Json}
use qare.Ledger.Types.{LedgerChangeKind, verify}
use qare.Ledger.History.{LedgerChange}
use qare.Ledger.Document.{LedgerDocument}
use qare.MainPasses.Read.{MainPass}
use qare.MainPasses.{standing_main_passes}
use qare.MainFindings.Types.{LastProven}

abbrev is_verify : LedgerChangeKind → Bool
is_verify verify = true
is_verify _ = false

unfoldable pub set_all :
    List String → LastProven → List (String × LastProven) → List (String × LastProven)
set_all [] proven last = last
set_all (criterion ∷ criteria) proven last = set_all criteria proven (insert criterion proven last)

-- The last `verify` record of each criterion.
unfoldable pub verified_last :
    List LedgerChange → List (String × LastProven) → List (String × LastProven)
verified_last [] last = last
verified_last (c ∷ cs) last = verified_last cs (
    if is_verify c.kind
    then set_all c.criteria
        (record { run = c.actor; at = c.timestamp; sha = none; recorded_at = none }) last
    else last)

abbrev same_sha : String → Option String → Bool
same_sha sha none = false
same_sha sha (some head) = sha == head

-- `!(Date.parse(recorded.at) > Date.parse(pass.at))`: a comparison with `NaN` is false.
abbrev not_later : Option ℕ → Option ℕ → Bool
not_later (some recorded) (some passed) = not (ltb passed recorded)
not_later _ _ = true

abbrev is_later : (String → Option ℕ) → Option LastProven → MainPass → Bool
is_later date_parse none pass = true
is_later date_parse (some recorded) pass = not_later (date_parse recorded.at) (date_parse pass.at)

module _ (date_parse : String → Option ℕ) (head_sha : Option String) where
  unfoldable pub passed_last :
      List (String × MainPass) → List (String × LastProven) → List (String × LastProven)
  passed_last [] last = last
  passed_last ((criterion, pass) ∷ passes) last = passed_last passes (
      if not (same_sha pass.sha head_sha) && is_later date_parse (lookup criterion last) pass
      then insert criterion
          (record {
            run = pass.run;
            at = pass.at;
            sha = some pass.sha;
            recorded_at = some pass.recorded_at;
          })
          last
      else last)

module _ (sha256 : String → String) (json_text : Json → String) (date_parse : String → Option ℕ)
    (ledger : LedgerDocument) where
  abbrev pub standing : Option (List (String × MainPass)) → List (String × MainPass)
  standing none = []
  standing (some passes) = standing_main_passes sha256 json_text passes ledger.entries

  unfoldable pub last_proven_of :
      Option (List (String × MainPass)) → Option String → List (String × LastProven)
  last_proven_of passes head_sha =
      passed_last date_parse head_sha (standing passes) (verified_last ledger.changes [])

  -- `here`: the passes of the revision that is checked.
  unfoldable pub passes_here :
      Option (List (String × MainPass)) → Option String → List (String × MainPass)
  passes_here passes head_sha =
      filter (λ (p : String × MainPass). same_sha p.1.sha head_sha) (standing passes)
