-- ===== src/MainFindings/Sorted.antt =====
-- What `classifyMainRun` makes of each criterion of a run.
use qare.Prelude.{
  ℕ, ◌-◌, String, Bool, true, false, ◌&&◌, ◌||◌, not, Option, some, List, [], ◌∷◌, length, map, any,
  is_empty, nat_eq, ◌≡◌, refl, sym, ap, ◌∙◌, arith, length-map, Bool-cases, inl, inr,
}
use qare.Json.{Json}
use qare.Result.{CriterionResult, RunResult, Finding}
use qare.Result.Verdict.{RunVerdict}
use qare.Ledger.Document.{LedgerDocument}
use qare.MainPasses.Read.{MainPass}
use qare.MainPasses.{entries_by_criterion}
use qare.MainFindings.Types.{MainFinding, EnvironmentFinding}
use qare.MainFindings.Last.{passes_here, last_proven_of}
use qare.MainFindings.{
  SortedCriteria, sort_all, nothing_sorted, is_blocked, classified, classify_main_run,
}
use qare.MainFindings.Rounds.{
  ids_where, finding_ids, down_ids, failed_test, proven_test, flaky_test, down_test, sort_all-adds,
  one-findings, one-recovered, one-flaky, one-down, sort_all-unplanned, has_other_cause,
  causes_count,
}

ids_where-is_empty :
    (test : Finding → Bool) (cs : List CriterionResult)
    → is_empty (ids_where test cs) ≡ not (any (λ (c : CriterionResult). test c.finding) cs)
ids_where-is_empty test [] = refl
ids_where-is_empty test (c ∷ cs) = elim (Bool-cases (test c.finding)) [
  | inl y ↦ rw y refl
  | inr n ↦ rw n (ids_where-is_empty test cs)
]

map-is_empty {ℓ κ} :
    {A : Type ℓ} {B : Type κ} (f : A → B) (xs : List A) → is_empty (map f xs) ≡ is_empty xs
map-is_empty f [] = refl
map-is_empty f (x ∷ xs) = refl

length-is_empty {ℓ} : {A : Type ℓ} (xs : List A) → length xs ≡ 0 → is_empty xs ≡ true
length-is_empty [] h = refl
length-is_empty (x ∷ xs) h = absurd (omega arith)

is_empty-nil {ℓ} : {A : Type ℓ} (xs : List A) → is_empty xs ≡ true → xs ≡ []
is_empty-nil [] h = refl
is_empty-nil (x ∷ xs) h = cc

classified-kept :
    (v : RunVerdict) (n : ℕ) (s : SortedCriteria)
    → (map (λ (f : MainFinding). f.criterion_id) (classified v n s).findings ≡ finding_ids s)
      × ((classified v n s).recovered ≡ s.recovered)
      × ((classified v n s).flaky ≡ s.flaky)
      × ((classified v n s).environment_up
          ≡ (not (is_empty s.recovered) || not (is_empty s.findings)))
unfolding classified
classified-kept v n s =
    let up = not (is_empty s.recovered) || not (is_empty s.findings) in
    let test =
      is_blocked v
      && not up
      && not (is_empty s.down)
      && nat_eq (length s.down) (n - s.unplanned_count) in
    elim (Bool-cases test) [
      | inr k ↦ rw k (refl, refl, refl, refl)
      | inl y ↦
          let r : s.recovered ≡ [] = is_empty-nil s.recovered (ground (arith, y)) in
          let f : s.findings ≡ [] = is_empty-nil s.findings (ground (arith, y)) in
          rw y
            (ap (map (λ (f : MainFinding). f.criterion_id)) (sym f), sym r, refl, ground (arith, y))
    ]

classified-environment :
    (v : RunVerdict) (n : ℕ) (s : SortedCriteria) (e : EnvironmentFinding)
    → (classified v n s).environment ≡ some e
    → (is_blocked v ≡ true)
      × (is_empty s.recovered ≡ true)
      × (is_empty s.findings ≡ true)
      × (length s.down ≡ n - s.unplanned_count)
      × (e.criteria ≡ down_ids s)
unfolding classified
classified-environment v n s e h =
    let up = not (is_empty s.recovered) || not (is_empty s.findings) in
    let test =
      is_blocked v
      && not up
      && not (is_empty s.down)
      && nat_eq (length s.down) (n - s.unplanned_count) in
    let t : test ≡ true = ground (arith, h) in
    (
      ground (arith, t),
      ground (arith, t),
      ground (arith, t),
      ground (arith, t),
      ground (arith, h, t),
    )

-- Whatever a run on the default branch found, the findings are the criteria that failed, the recovered
-- ones those that were proven, and the flaky ones those that are unverified for a quarantined check,
-- each in the order of the result; and the environment is up exactly where a criterion was proven or
-- failed.
pub classify_main_run-sorted :
    (sha256 : String → String) (json_text : Json → String) (date_parse : String → Option ℕ)
    (result : RunResult) (ledger : LedgerDocument) (passes : Option (List (String × MainPass)))
    (head_sha : Option String)
    → (let c = classify_main_run sha256 json_text date_parse result ledger passes head_sha in
        (map (λ (f : MainFinding). f.criterion_id) c.findings
          ≡ ids_where failed_test result.criteria)
        × (c.recovered ≡ ids_where proven_test result.criteria)
        × (c.flaky ≡ ids_where flaky_test result.criteria)
        × (c.environment_up ≡ (
            any (λ (c : CriterionResult). proven_test c.finding) result.criteria
            || any (λ (c : CriterionResult). failed_test c.finding) result.criteria)))
unfolding classify_main_run
classify_main_run-sorted sha256 json_text date_parse result ledger passes head_sha =
    let entries = entries_by_criterion ledger.entries in
    let here = passes_here sha256 json_text date_parse ledger passes head_sha in
    let last = last_proven_of sha256 json_text date_parse ledger passes head_sha in
    let cs = result.criteria in
    let s = sort_all sha256 json_text entries here last cs nothing_sorted in
    let k = classified-kept result.verdict (length cs) s in
    let f =
      sort_all-adds sha256 json_text entries here last finding_ids failed_test
        (one-findings sha256 json_text entries here last) cs nothing_sorted in
    let r =
      sort_all-adds sha256 json_text entries here last (λ s. s.recovered) proven_test
        (one-recovered sha256 json_text entries here last) cs nothing_sorted in
    let q =
      sort_all-adds sha256 json_text entries here last (λ s. s.flaky) flaky_test
        (one-flaky sha256 json_text entries here last) cs nothing_sorted in
    let rn = ap is_empty r ∙ ids_where-is_empty proven_test cs in
    let fn =
      sym (map-is_empty (λ (f : MainFinding). f.criterion_id) s.findings)
      ∙ ap is_empty f
      ∙ ids_where-is_empty failed_test cs in
    (k.0 ∙ f, k.1 ∙ r, k.2 ∙ q, ground (arith, k.3, rn, fn))

-- Where a run has the environment finding, its verdict is blocked, no criterion of it was proven or
-- failed, each is unverified for the environment's sake or as nothing was planned for it, and the
-- finding names the former, in the order of the result.
pub classify_main_run-environment :
    (sha256 : String → String) (json_text : Json → String) (date_parse : String → Option ℕ)
    (result : RunResult) (ledger : LedgerDocument) (passes : Option (List (String × MainPass)))
    (head_sha : Option String) (e : EnvironmentFinding)
    → (classify_main_run sha256 json_text date_parse result ledger passes head_sha).environment
      ≡ some e
    → (is_blocked result.verdict ≡ true)
      × (any (λ (c : CriterionResult). proven_test c.finding) result.criteria ≡ false)
      × (any (λ (c : CriterionResult). failed_test c.finding) result.criteria ≡ false)
      × (any (λ (c : CriterionResult). has_other_cause c.finding) result.criteria ≡ false)
      × (e.criteria ≡ ids_where down_test result.criteria)
unfolding classify_main_run
classify_main_run-environment sha256 json_text date_parse result ledger passes head_sha e h =
    let entries = entries_by_criterion ledger.entries in
    let here = passes_here sha256 json_text date_parse ledger passes head_sha in
    let last = last_proven_of sha256 json_text date_parse ledger passes head_sha in
    let cs = result.criteria in
    let s = sort_all sha256 json_text entries here last cs nothing_sorted in
    let (b, r0, f0, n, c) = classified-environment result.verdict (length cs) s e h in
    let f =
      sort_all-adds sha256 json_text entries here last finding_ids failed_test
        (one-findings sha256 json_text entries here last) cs nothing_sorted in
    let r =
      sort_all-adds sha256 json_text entries here last (λ s. s.recovered) proven_test
        (one-recovered sha256 json_text entries here last) cs nothing_sorted in
    let d =
      sort_all-adds sha256 json_text entries here last down_ids down_test
        (one-down sha256 json_text entries here last) cs nothing_sorted in
    let u = sort_all-unplanned sha256 json_text entries here last cs nothing_sorted in
    let rn = ap is_empty r ∙ ids_where-is_empty proven_test cs in
    let fn =
      sym (map-is_empty (λ (f : MainFinding). f.criterion_id) s.findings)
      ∙ ap is_empty f
      ∙ ids_where-is_empty failed_test cs in
    let o : is_empty (ids_where has_other_cause cs) ≡ true =
      length-is_empty (ids_where has_other_cause cs) (
        omega (
          arith,
          causes_count cs,
          u,
          n,
          ap length d,
          length-map (λ (d : String × String). d.0) s.down,
        )) in
    (
      b,
      ground (arith, rn, r0),
      ground (arith, fn, f0),
      ground (arith, ids_where-is_empty has_other_cause cs, o),
      c ∙ d,
    )
