-- ===== src/Questions/Held.antt =====
-- What an open question does to a run (`holdForQuestions`).
use qare.Prelude.{
  String, Bool, true, false, ◌&&◌, ◌||◌, not, Option, none, some, List, [], ◌∷◌, map, any, all,
  is_empty, has, get_or, is_some, lookup, insert, lookup-insert, Option-cases, ◌≡◌, ◌↔◌, ◌⊎◌, inl,
  inr, refl, arith, ap, sym, ◌∙◌,
}
use qare.Result.{
  Finding, was_proven, was_failed, was_unverified, outcome_of, is_proven, is_failed,
  CriterionResult, RunResult, Waiver,
}
use qare.Result.Verdict.{RunVerdict, passed, is_refused}
use qare.Judge.Run.{CriterionVerdict}
use qare.Judge.Run.Decision.{verdict_of-failed, verdict_of-passed}
use qare.Questions.{
  ResolutionQuestion, affected_by, held_by, hold_each, hold_one, hold_finding, verdicts_of,
  hold_for_questions,
}

-- A question names the criterion.
abbrev pub is_affected : List ResolutionQuestion → String → Bool
is_affected qs id = any (λ q. has (affected_by q) id) qs

hold_each-lookup :
    (q : ResolutionQuestion) (ids : List String) (held : List (String × ResolutionQuestion))
    (id : String)
    → is_some (lookup id (hold_each q ids held)) ≡ (has ids id || is_some (lookup id held))
unfolding hold_each has
hold_each-lookup q [] held id = refl
hold_each-lookup q (i ∷ ids) held id =
    ground (arith, hold_each-lookup q ids (insert i q held) id, lookup-insert i id q held)

held_by-lookup :
    (qs : List ResolutionQuestion) (held : List (String × ResolutionQuestion)) (id : String)
    → is_some (lookup id (held_by qs held)) ≡ (is_affected qs id || is_some (lookup id held))
unfolding held_by
held_by-lookup [] held id = refl
held_by-lookup (q ∷ qs) held id = ground (
  arith,
  held_by-lookup qs (hold_each q (affected_by q) held) id,
  hold_each-lookup q (affected_by q) held id,
)

held_by-affected :
    (qs : List ResolutionQuestion) (id : String) (q : ResolutionQuestion)
    → lookup id (held_by qs []) ≡ some q
    → is_affected qs id ≡ true
unfolding lookup
held_by-affected qs id q e = ground (arith, held_by-lookup qs [] id, e)

-- A failure that still fails the run: no question is about it.
abbrev pub fails_unasked : List ResolutionQuestion → CriterionResult → Bool
fails_unasked qs c = is_failed (outcome_of c.finding) && not (is_affected qs c.id)

any-failed :
    (qs : List ResolutionQuestion) (cs : List CriterionResult)
    → any
        (λ (v : CriterionVerdict). is_failed v.outcome)
        (verdicts_of (map (hold_one (held_by qs [])) cs))
      ≡ any (fails_unasked qs) cs
unfolding hold_one hold_finding verdicts_of lookup
any-failed qs [] = refl
any-failed qs (c ∷ cs) = ground (arith, any-failed qs cs, held_by-lookup qs [] c.id)

all-proven :
    (qs : List ResolutionQuestion) (cs : List CriterionResult)
    → all
        (λ (v : CriterionVerdict). is_proven v.outcome)
        (verdicts_of (map (hold_one (held_by qs [])) cs))
      ≡ all (λ (c : CriterionResult). is_proven (outcome_of c.finding)) cs
unfolding hold_one hold_finding verdicts_of
all-proven qs [] = refl
all-proven qs (c ∷ cs) = ground (arith, all-proven qs cs)

same_empty :
    (qs : List ResolutionQuestion) (cs : List CriterionResult)
    → is_empty (verdicts_of (map (hold_one (held_by qs [])) cs)) ≡ is_empty cs
unfolding verdicts_of
same_empty qs [] = refl
same_empty qs (c ∷ cs) = refl

module _ (result : RunResult) (questions : List ResolutionQuestion)
    (runs : is_refused result.verdict ≡ false) (asked : is_empty questions ≡ false) where
  -- With open questions, a run that was not refused fails exactly when a criterion failed that no
  -- question is about, and passes exactly when it has criteria and all of them were proven.
  pub hold_for_questions-verdict :
      (((hold_for_questions result questions).verdict ≡ RunVerdict.failed)
        ↔ (any (fails_unasked questions) result.criteria ≡ true))
      × (((hold_for_questions result questions).verdict ≡ passed) ↔ (
          (is_empty result.criteria ≡ false)
          × (all (λ (c : CriterionResult). is_proven (outcome_of c.finding)) result.criteria
              ≡ true)))
  unfolding hold_for_questions verdicts_of
  hold_for_questions-verdict =
      let cs = map (hold_one (held_by questions [])) result.criteria in
      let w = map (λ (x : Waiver). x.criterion_id) (get_or result.waived []) in
      let f = verdict_of-failed (verdicts_of cs) [] w in
      let p = verdict_of-passed (verdicts_of cs) [] w in
      let e : is_empty (verdicts_of cs) ≡ is_empty result.criteria =
        same_empty questions result.criteria in
      let a = any-failed questions result.criteria in
      let b = all-proven questions result.criteria in
      rw (runs, asked) (ground (arith, f, p, e, a, b))

-- Open questions leave a criterion as it is, or one of them is about it, it was not proven, and it is
-- unverified then.
pub hold_one-IsHeld :
    (questions : List ResolutionQuestion) (c : CriterionResult)
    → (hold_one (held_by questions []) c ≡ c)
      ⊎ ((is_affected questions c.id ≡ true)
          × (is_proven (outcome_of c.finding) ≡ false)
          × (outcome_of (hold_one (held_by questions []) c).finding ≡ qare.Result.unverified))
unfolding hold_one hold_finding
hold_one-IsHeld questions c = elim (Option-cases (lookup c.id (held_by questions []))) [
  | inl n ↦ inl (ground (arith, n))
  | inr (q, p) ↦ held q p c.finding refl
]
  where
    hold_eq :
        (q : ResolutionQuestion)
        → lookup c.id (held_by questions []) ≡ some q
        → hold_one (held_by questions []) c ≡ record c { finding = hold_finding q c.finding }
    hold_eq q p =
        ap
          (λ (o : Option ResolutionQuestion). elim o [
            | none ↦ c
            | some q ↦ record c { finding = hold_finding q c.finding }
          ])
          p

    held :
        (q : ResolutionQuestion)
        → lookup c.id (held_by questions []) ≡ some q
        → (f : Finding) → c.finding ≡ f
        → (hold_one (held_by questions []) c ≡ c)
          ⊎ ((is_affected questions c.id ≡ true)
              × (is_proven (outcome_of c.finding) ≡ false)
              × (outcome_of (hold_one (held_by questions []) c).finding ≡ qare.Result.unverified))
    held q p (was_proven evidence) e = inl (
        hold_eq q p
        ∙ ap (λ f. record c { finding = hold_finding q f }) e
        ∙ ap (λ f. record c { finding = f }) (sym e))
    held q p (was_failed evidence reason) e =
        inr (held_by-affected questions c.id q p, rw e refl, ground (arith, p, e))
    held q p (was_unverified reason evidence) e =
        inr (held_by-affected questions c.id q p, rw e refl, ground (arith, p, e))
