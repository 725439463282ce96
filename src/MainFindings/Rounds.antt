-- ===== src/MainFindings/Rounds.antt =====
-- What one round of the loop of `classifyMainRun` over the criteria adds.
use qare.Prelude.{
  ◌+◌, String, Bool, true, false, ◌&&◌, not, Option, none, some, List, [], ◌∷◌, ◌++◌, length, map,
  filter, ◌≡◌, refl, sym, ap, ◌∙◌, arith, append_assoc, append-nil, map-append, length-append,
  Bool-cases, inl, inr,
}
use qare.Json.{Json}
use qare.Result.{
  CriterionResult, Finding, was_proven, was_failed, was_unverified, is_proven, is_failed,
  outcome_of,
}
use qare.Ledger.Types.{LedgerEntry}
use qare.MainPasses.Read.{MainPass}
use qare.MainFindings.Types.{
  LastProven, MainFinding, UnverifiedCause, waived, quarantine, verifier, held, refused,
  not_selected, unplanned, environment, unverified_cause,
}
use qare.MainFindings.{SortedCriteria, by_cause, sort_one, sort_all, finding_of}

abbrev pub cause_of : Finding → Option UnverifiedCause
cause_of (was_unverified reason evidence) = some (unverified_cause reason)
cause_of _ = none

abbrev pub is_quarantined : Option UnverifiedCause → Bool
is_quarantined (some quarantine) = true
is_quarantined _ = false

-- Unverified for the environment's sake.
abbrev pub is_down : Option UnverifiedCause → Bool
is_down (some environment) = true
is_down _ = false

abbrev pub is_unplanned : Option UnverifiedCause → Bool
is_unplanned (some unplanned) = true
is_unplanned _ = false

-- The ids of the criteria that a test of their findings takes, in the result's order.
abbrev pub ids_where : (Finding → Bool) → List CriterionResult → List String
ids_where test cs =
    map (λ (c : CriterionResult). c.id) (filter (λ (c : CriterionResult). test c.finding) cs)

abbrev pub finding_ids : SortedCriteria → List String
finding_ids s = map (λ (f : MainFinding). f.criterion_id) s.findings

abbrev pub down_ids : SortedCriteria → List String
down_ids s = map (λ (d : String × String). d.0) s.down

abbrev pub id_if : Bool → String → List String
id_if true id = id ∷ []
id_if false id = []

pub ids_where-cons :
    (test : Finding → Bool) (c : CriterionResult) (cs : List CriterionResult)
    → ids_where test (c ∷ cs) ≡ id_if (test c.finding) c.id ++ ids_where test cs
ids_where-cons test c cs = elim (Bool-cases (test c.finding)) [
  | inl y ↦ rw y refl
  | inr n ↦ rw n refl
]

pub cause-flaky :
    (u : UnverifiedCause) (id reason : String) (s : SortedCriteria)
    → (by_cause u id reason s).flaky ≡ s.flaky ++ id_if (is_quarantined (some u)) id
cause-flaky quarantine id reason s = refl
cause-flaky waived id reason s = sym (append-nil s.flaky)
cause-flaky verifier id reason s = sym (append-nil s.flaky)
cause-flaky held id reason s = sym (append-nil s.flaky)
cause-flaky refused id reason s = sym (append-nil s.flaky)
cause-flaky not_selected id reason s = sym (append-nil s.flaky)
cause-flaky unplanned id reason s = sym (append-nil s.flaky)
cause-flaky environment id reason s = sym (append-nil s.flaky)

pub cause-down :
    (u : UnverifiedCause) (id reason : String) (s : SortedCriteria)
    → down_ids (by_cause u id reason s) ≡ down_ids s ++ id_if (is_down (some u)) id
cause-down quarantine id reason s = sym (append-nil (down_ids s))
cause-down waived id reason s = sym (append-nil (down_ids s))
cause-down verifier id reason s = sym (append-nil (down_ids s))
cause-down held id reason s = sym (append-nil (down_ids s))
cause-down refused id reason s = sym (append-nil (down_ids s))
cause-down not_selected id reason s = sym (append-nil (down_ids s))
cause-down unplanned id reason s = sym (append-nil (down_ids s))
cause-down environment id reason s =
    map-append (λ (d : String × String). d.0) s.down ((id, reason) ∷ [])

-- A cause leaves what was found and what recovered, and counts a criterion that nothing was planned for.
pub cause-others :
    (u : UnverifiedCause) (id reason : String) (s : SortedCriteria)
    → ((by_cause u id reason s).findings ≡ s.findings)
      × ((by_cause u id reason s).recovered ≡ s.recovered)
      × ((by_cause u id reason s).unplanned_count
          ≡ s.unplanned_count + length (id_if (is_unplanned (some u)) id))
cause-others quarantine id reason s = (refl, refl, omega arith)
cause-others waived id reason s = (refl, refl, omega arith)
cause-others verifier id reason s = (refl, refl, omega arith)
cause-others held id reason s = (refl, refl, omega arith)
cause-others refused id reason s = (refl, refl, omega arith)
cause-others not_selected id reason s = (refl, refl, omega arith)
cause-others unplanned id reason s = (refl, refl, omega arith)
cause-others environment id reason s = (refl, refl, omega arith)

abbrev pub failed_test : Finding → Bool
failed_test f = is_failed (outcome_of f)

abbrev pub proven_test : Finding → Bool
proven_test f = is_proven (outcome_of f)

abbrev pub flaky_test : Finding → Bool
flaky_test f = is_quarantined (cause_of f)

abbrev pub down_test : Finding → Bool
down_test f = is_down (cause_of f)

abbrev pub unplanned_test : Finding → Bool
unplanned_test f = is_unplanned (cause_of f)

module _ (sha256 : String → String) (json_text : Json → String)
    (entries : List (String × LedgerEntry)) (here : List (String × MainPass))
    (last_proven : List (String × LastProven)) where
  -- What one round adds to a part of what was sorted, every round adds.
  pub sort_all-adds :
      (part : SortedCriteria → List String) (test : Finding → Bool)
      → ((c : CriterionResult) (f : Finding) (s : SortedCriteria)
          → part (sort_one sha256 json_text entries here last_proven c f s)
            ≡ part s ++ id_if (test f) c.id)
      → (cs : List CriterionResult) (s : SortedCriteria)
      → part (sort_all sha256 json_text entries here last_proven cs s) ≡ part s ++ ids_where test cs
  unfolding sort_all
  sort_all-adds part test one [] s = sym (append-nil (part s))
  sort_all-adds part test one (c ∷ cs) s =
      let t = sort_one sha256 json_text entries here last_proven c c.finding s in
      sort_all-adds part test one cs t
      ∙ ap (λ l. l ++ ids_where test cs) (one c c.finding s)
      ∙ append_assoc (part s) (id_if (test c.finding) c.id) (ids_where test cs)
      ∙ ap (λ l. part s ++ l) (sym (ids_where-cons test c cs))

  pub one-findings :
      (c : CriterionResult) (f : Finding) (s : SortedCriteria)
      → finding_ids (sort_one sha256 json_text entries here last_proven c f s)
        ≡ finding_ids s ++ id_if (failed_test f) c.id
  unfolding sort_one finding_of
  one-findings c (was_proven evidence) s = sym (append-nil (finding_ids s))
  one-findings c (was_failed evidence reason) s =
      map-append (λ (f : MainFinding). f.criterion_id) s.findings _
  one-findings c (was_unverified reason evidence) s =
      ap (map (λ (f : MainFinding). f.criterion_id))
        (cause-others (unverified_cause reason) c.id reason s).0
      ∙ sym (append-nil (finding_ids s))

  pub one-recovered :
      (c : CriterionResult) (f : Finding) (s : SortedCriteria)
      → (sort_one sha256 json_text entries here last_proven c f s).recovered
        ≡ s.recovered ++ id_if (proven_test f) c.id
  unfolding sort_one
  one-recovered c (was_proven evidence) s = refl
  one-recovered c (was_failed evidence reason) s = sym (append-nil s.recovered)
  one-recovered c (was_unverified reason evidence) s =
      (cause-others (unverified_cause reason) c.id reason s).1 ∙ sym (append-nil s.recovered)

  pub one-flaky :
      (c : CriterionResult) (f : Finding) (s : SortedCriteria)
      → (sort_one sha256 json_text entries here last_proven c f s).flaky
        ≡ s.flaky ++ id_if (flaky_test f) c.id
  unfolding sort_one
  one-flaky c (was_proven evidence) s = sym (append-nil s.flaky)
  one-flaky c (was_failed evidence reason) s = sym (append-nil s.flaky)
  one-flaky c (was_unverified reason evidence) s =
      cause-flaky (unverified_cause reason) c.id reason s

  pub one-down :
      (c : CriterionResult) (f : Finding) (s : SortedCriteria)
      → down_ids (sort_one sha256 json_text entries here last_proven c f s)
        ≡ down_ids s ++ id_if (down_test f) c.id
  unfolding sort_one
  one-down c (was_proven evidence) s = sym (append-nil (down_ids s))
  one-down c (was_failed evidence reason) s = sym (append-nil (down_ids s))
  one-down c (was_unverified reason evidence) s = cause-down (unverified_cause reason) c.id reason s

  pub one-unplanned :
      (c : CriterionResult) (f : Finding) (s : SortedCriteria)
      → (sort_one sha256 json_text entries here last_proven c f s).unplanned_count
        ≡ s.unplanned_count + length (id_if (unplanned_test f) c.id)
  unfolding sort_one
  one-unplanned c (was_proven evidence) s = omega arith
  one-unplanned c (was_failed evidence reason) s = omega arith
  one-unplanned c (was_unverified reason evidence) s =
      (cause-others (unverified_cause reason) c.id reason s).2

  pub sort_all-unplanned :
      (cs : List CriterionResult) (s : SortedCriteria)
      → (sort_all sha256 json_text entries here last_proven cs s).unplanned_count
        ≡ s.unplanned_count + length (ids_where unplanned_test cs)
  unfolding sort_all
  sort_all-unplanned [] s = omega arith
  sort_all-unplanned (c ∷ cs) s =
      let t = sort_one sha256 json_text entries here last_proven c c.finding s in
      omega (
        arith,
        sort_all-unplanned cs t,
        one-unplanned c c.finding s,
        ap length (ids_where-cons unplanned_test c cs),
        length-append (id_if (unplanned_test c.finding) c.id) (ids_where unplanned_test cs),
      )

-- A criterion that is unverified neither for the environment's sake nor as nothing was planned for it.
abbrev pub has_other_cause : Finding → Bool
has_other_cause f = not (down_test f) && not (unplanned_test f)

pub one_cause : (u : UnverifiedCause) → (is_down (some u) && is_unplanned (some u)) ≡ false
one_cause quarantine = refl
one_cause waived = refl
one_cause verifier = refl
one_cause held = refl
one_cause refused = refl
one_cause not_selected = refl
one_cause unplanned = refl
one_cause environment = refl

pub one_test : (f : Finding) → (down_test f && unplanned_test f) ≡ false
one_test (was_proven evidence) = refl
one_test (was_failed evidence reason) = refl
one_test (was_unverified reason evidence) = one_cause (unverified_cause reason)

pub causes_count :
    (cs : List CriterionResult)
    → length (ids_where down_test cs)
        + length (ids_where unplanned_test cs)
        + length (ids_where has_other_cause cs)
      ≡ length cs
causes_count [] = refl
causes_count (c ∷ cs) = ground (arith, causes_count cs, one_test c.finding)
