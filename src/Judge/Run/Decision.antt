-- ===== src/Judge/Run/Decision.antt =====
-- When a run passes, fails, or is refused, from the outcomes of both sides alone (`judgeRun`).
use qare.Prelude.{
  String, Bool, true, false, ◌||◌, ◌&&◌, none, some, List, [], ◌∷◌, ◌++◌, map, filter, filter_map,
  any, all, is_empty, not, has, arith, ◌≡◌, ◌↔◌, refl, last_with, lookup-index, any-append, ap₂,
  ◌∙◌,
}
use qare.Result.{is_failed, is_proven, is_unverified}
use qare.Result.Verdict.{RunVerdict, passed, refused, merge_verdicts}
use qare.Judge.Sides.{SideResult, Regression, detect_regressions}
use qare.Judge.Run.{
  CriterionVerdict, verdict_of, criteria_of, judge_run, ids_of, regressed_ids, head_verdict,
  base_verdict,
}

-- Whether the base proved the criterion: the last side recorded under its id says so.
abbrev pub base_proves : List SideResult → String → Bool
base_proves base id = elim (last_with (λ (s : SideResult). s.criterion_id) (λ s. s) id base none) [
  | none ↦ false
  | some s ↦ is_proven s.outcome
]

-- A head side that makes the run fail: it failed, and nobody waived it or the base proved it.
abbrev pub fails_run : List SideResult → List String → SideResult → Bool
fails_run base waived_ids h =
    is_failed h.outcome && (not (has waived_ids h.criterion_id) || base_proves base h.criterion_id)

has_regression : (base head : List SideResult) → Bool
has_regression base head = any (λ h. base_proves base h.criterion_id && is_failed h.outcome) head

is_empty-detect_regressions :
    (base head : List SideResult)
    → not (is_empty (detect_regressions base head)) ≡ has_regression base head
unfolding detect_regressions has_regression
is_empty-detect_regressions base [] = refl
is_empty-detect_regressions base (h ∷ head) = ground (
  arith,
  lookup-index (λ (s : SideResult). s.criterion_id) (λ s. s) h.criterion_id base,
  is_empty-detect_regressions base head,
)

any-failed-head :
    (w : List String) (head : List SideResult)
    → any (λ (c : CriterionVerdict). is_failed c.outcome) (map (head_verdict w []) head)
      ≡ any (λ h. not (has w h.criterion_id) && is_failed h.outcome) head
unfolding head_verdict has
any-failed-head w [] = refl
any-failed-head w (h ∷ head) = ground (arith, any-failed-head w head)

any-failed-base :
    (ids w : List String) (base : List SideResult)
    → any (λ (c : CriterionVerdict). is_failed c.outcome) (filter_map (base_verdict ids w) base)
      ≡ false
unfolding base_verdict
any-failed-base ids w [] = refl
any-failed-base ids w (b ∷ base) = ground (arith, any-failed-base ids w base)

any-fails_run :
    (base head : List SideResult) (w : List String)
    → any (fails_run base w) head ≡ (
        has_regression base head
        || any (λ h. not (has w h.criterion_id) && is_failed h.outcome) head)
unfolding has_regression
any-fails_run base [] w = refl
any-fails_run base (h ∷ head) w = ground (arith, any-fails_run base head w)

pub verdict_of-failed :
    (cs : List CriterionVerdict) (rs : List Regression) (w : List String)
    → (verdict_of cs rs w ≡ RunVerdict.failed)
      ↔ ((not (is_empty rs) || any (λ c. is_failed c.outcome) cs) ≡ true)
unfolding verdict_of
verdict_of-failed cs rs w = ground arith

-- A criterion or a regression that fails the run.
fails : (base head : List SideResult) (w : List String) → Bool
fails base head w =
    let rs = detect_regressions base head in
    not (is_empty rs)
    || any (λ (c : CriterionVerdict). is_failed c.outcome)
        (criteria_of base head w (regressed_ids rs))

fails-eq :
    (base head : List SideResult) (w : List String)
    → fails base head w ≡ any (fails_run base w) head
unfolding fails criteria_of
fails-eq base head w = go (detect_regressions base head) refl
  where
    go :
        (rs : List Regression)
        → detect_regressions base head ≡ rs
        → fails base head w ≡ any (fails_run base w) head
    go [] e = rw e (
        ground (
          arith,
          e,
          any-append (λ (c : CriterionVerdict). is_failed c.outcome) (map (head_verdict w []) head)
              (filter_map (base_verdict (ids_of head) w) base),
          any-failed-head w head,
          any-failed-base (ids_of head) w base,
          any-fails_run base head w,
          is_empty-detect_regressions base head,
        ))
    go (r ∷ rs) e =
        rw e (ground (arith, e, any-fails_run base head w, is_empty-detect_regressions base head))

-- The run fails exactly when the network was not refused and some head side failed that nobody
-- waived or that the base had proven: a waiver never hides a regression.
pub judge_run-failed_iff :
    (base head : List SideResult) (w : List String) (egress_refused : Bool)
    → ((judge_run base head w egress_refused).verdict ≡ RunVerdict.failed)
      ↔ ((egress_refused ≡ false) × (any (fails_run base w) head ≡ true))
unfolding judge_run merge_verdicts has fails
judge_run-failed_iff base head w true = ground arith
judge_run-failed_iff base head w false = ground (
  arith,
  fails-eq base head w,
  verdict_of-failed (criteria_of base head w (regressed_ids (detect_regressions base head)))
      (detect_regressions base head) w,
)

all-proven-criteria :
    (cs : List CriterionVerdict)
    → (((any (λ c. is_failed c.outcome) cs ≡ false)
        × (is_empty (filter (λ (c : CriterionVerdict). is_unverified c.outcome) cs) ≡ true)))
      ↔ (all (λ c. is_proven c.outcome) cs ≡ true)
all-proven-criteria [] = ground arith
all-proven-criteria (c ∷ cs) = grind (arith, all-proven-criteria cs)

all-append-criteria :
    (xs ys : List CriterionVerdict)
    → all (λ c. is_proven c.outcome) (xs ++ ys)
      ≡ (all (λ c. is_proven c.outcome) xs && all (λ c. is_proven c.outcome) ys)
all-append-criteria [] ys = refl
all-append-criteria (x ∷ xs) ys = ground (arith, all-append-criteria xs ys)

-- A head side that lets the run pass: it was proven, and is not waived.
abbrev pub passes_run : List String → SideResult → Bool
passes_run waived_ids h = is_proven h.outcome && not (has waived_ids h.criterion_id)

all-proven-head :
    (w : List String) (head : List SideResult)
    → all (λ (c : CriterionVerdict). is_proven c.outcome) (map (head_verdict w []) head)
      ≡ all (passes_run w) head
unfolding head_verdict has
all-proven-head w [] = refl
all-proven-head w (h ∷ head) = ground (arith, all-proven-head w head)

all-proven-base :
    (ids w : List String) (base : List SideResult)
    → all (λ (c : CriterionVerdict). is_proven c.outcome) (filter_map (base_verdict ids w) base)
      ≡ all (λ b. has ids b.criterion_id) base
unfolding base_verdict
all-proven-base ids w [] = refl
all-proven-base ids w (b ∷ base) = ground (arith, all-proven-base ids w base)

-- With no regression, when every proven head side passes: none failed.
all-passes-no-regression :
    (base head : List SideResult) (w : List String)
    → all (passes_run w) head ≡ true
    → has_regression base head ≡ false
unfolding has_regression
all-passes-no-regression base [] w h = refl
all-passes-no-regression base (x ∷ head) w h = ground (arith, all-passes-no-regression base head w)

pub verdict_of-passed :
    (cs : List CriterionVerdict) (rs : List Regression) (w : List String)
    → (verdict_of cs rs w ≡ passed)
      ↔ ((is_empty rs ≡ true) × (is_empty cs ≡ false) × (all (λ c. is_proven c.outcome) cs ≡ true))
unfolding verdict_of
verdict_of-passed cs rs w = ground (arith, all-proven-criteria cs)

-- The criteria that pass are those that the head proved, where the base has no others.
criteria-pass :
    (base head : List SideResult) (w : List String)
    → all (λ (c : CriterionVerdict). is_proven c.outcome) (criteria_of base head w [])
      ≡ (all (passes_run w) head && all (λ b. has (ids_of head) b.criterion_id) base)
unfolding criteria_of
criteria-pass base head w =
    all-append-criteria (map (head_verdict w []) head)
      (filter_map (base_verdict (ids_of head) w) base)
    ∙ ap₂ ◌&&◌ (all-proven-head w head) (all-proven-base (ids_of head) w base)

criteria-nonempty :
    (base head : List SideResult) (w regressed : List String)
    → all (λ b. has (ids_of head) b.criterion_id) base ≡ true
    → is_empty (criteria_of base head w regressed) ≡ is_empty head
unfolding criteria_of base_verdict has
criteria-nonempty base (h ∷ head) w regressed e = refl
criteria-nonempty [] [] w regressed e = refl
criteria-nonempty (b ∷ base) [] w regressed e = ground arith

decided-passed :
    (base head : List SideResult) (w : List String)
    → (let rs = detect_regressions base head in
        verdict_of (criteria_of base head w (regressed_ids rs)) rs w ≡ passed)
      ↔ ((is_empty head ≡ false)
          × (all (passes_run w) head ≡ true)
          × (all (λ b. has (ids_of head) b.criterion_id) base ≡ true))
decided-passed base head w = go (detect_regressions base head) refl
  where
    go :
        (rs : List Regression)
        → detect_regressions base head ≡ rs
        → (verdict_of (criteria_of base head w (regressed_ids rs)) rs w ≡ passed) ↔ (
            (is_empty head ≡ false)
            × (all (passes_run w) head ≡ true)
            × (all (λ b. has (ids_of head) b.criterion_id) base ≡ true))
    go [] e = ground (
      arith,
      verdict_of-passed (criteria_of base head w []) [] w,
      criteria-pass base head w,
      criteria-nonempty base head w [],
    )
    go (r ∷ rs) e = ground (
      arith,
      e,
      verdict_of-passed (criteria_of base head w (regressed_ids (r ∷ rs))) (r ∷ rs) w,
      all-passes-no-regression base head w,
      is_empty-detect_regressions base head,
    )

-- The run passes exactly when the network was not refused, the head has a side, every head side was
-- proven and not waived, and the base has no criterion that the head lacks.
pub judge_run-passed_iff :
    (base head : List SideResult) (w : List String) (egress_refused : Bool)
    → ((judge_run base head w egress_refused).verdict ≡ passed) ↔ (
        (egress_refused ≡ false)
        × (is_empty head ≡ false)
        × (all (passes_run w) head ≡ true)
        × (all (λ b. has (ids_of head) b.criterion_id) base ≡ true))
unfolding judge_run merge_verdicts has
judge_run-passed_iff base head w true = ground arith
judge_run-passed_iff base head w false = ground (arith, decided-passed base head w)

-- A refused network is never hidden by another verdict, and no other run is refused.
pub judge_run-refused_iff :
    (base head : List SideResult) (w : List String) (egress_refused : Bool)
    → ((judge_run base head w egress_refused).verdict ≡ refused) ↔ (egress_refused ≡ true)
unfolding judge_run merge_verdicts has verdict_of
judge_run-refused_iff base head w true = ground arith
judge_run-refused_iff base head w false = ground arith
