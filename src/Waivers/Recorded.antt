-- ===== src/Waivers/Recorded.antt =====
-- What recording a waiver does to a result (`recordWaiver`).
use qare.Prelude.{
  String, Bool, true, false, ◌&&◌, ◌||◌, not, some, List, [], ◌∷◌, ◌++◌, map, filter, any, all, has,
  get_or, is_empty, distinct, ◌==◌, ◌≡◌, ◌≢◌, ◌↔◌, ◌∙◌, inl, inr, refl, arith, has-append,
  has-distinct, has-filter, distinct-filter, eq_refl, Bool-cases, ap,
}
use qare.Result.{is_failed, is_unverified, outcome_of, CriterionResult, Waiver, RunResult}
use qare.Result.Verdict.{RunVerdict, passed, waived, is_refused}
use qare.Waivers.{derive_waived_verdict, waive_one, named_on_run, record_waiver, sanitize_actor}

waived_all :
    (named earlier : List String) (by : String) (cs : List CriterionResult)
    → all
        (λ (c : CriterionResult). has (named ++ earlier) c.id)
        (filter
          (λ (c : CriterionResult). is_unverified (outcome_of c.finding))
          (map (waive_one named by) cs))
      ≡ all
          (λ (c : CriterionResult).
            has named c.id || has earlier c.id || not (is_unverified (outcome_of c.finding)))
          cs
unfolding waive_one
waived_all named earlier by [] = refl
waived_all named earlier by (c ∷ cs) =
    ground (arith, waived_all named earlier by cs, has-append named earlier c.id)

failed_after :
    (named : List String) (by : String) (cs : List CriterionResult)
    → any (λ (c : CriterionResult). is_failed (outcome_of c.finding)) (map (waive_one named by) cs)
      ≡ any (λ (c : CriterionResult). is_failed (outcome_of c.finding) && not (has named c.id)) cs
unfolding waive_one
failed_after named by [] = refl
failed_after named by (c ∷ cs) = ground (arith, failed_after named by cs)

abbrev pub earlier_ids : RunResult → List String
earlier_ids result = map (λ (w : Waiver). w.criterion_id) (get_or result.waived [])

-- A criterion that fails the run after a waiver of `ids`: it failed, and the waiver does not name it.
abbrev pub still_fails : List String → CriterionResult → Bool
still_fails ids c = is_failed (outcome_of c.finding) && not (has ids c.id)

-- A criterion that does not block: the waiver or an earlier one names it, or it was verified.
abbrev pub is_settled : List String → List String → CriterionResult → Bool
is_settled ids earlier c =
    has ids c.id || has earlier c.id || not (is_unverified (outcome_of c.finding))

ids-of-waivers :
    (by : String) (named : List String)
    → map (λ (w : Waiver). w.criterion_id) (map (λ id. record { criterion_id = id; by = by }) named)
      ≡ named
ids-of-waivers by [] = refl
ids-of-waivers by (id ∷ named) = ap (λ t. id ∷ t) (ids-of-waivers by named)

-- The ids of the criteria of a run, each once.
abbrev pub run_ids : RunResult → List String
run_ids result = distinct (map (λ (c : CriterionResult). c.id) result.criteria)

map-filter :
    (p : String → Bool) (cs : List CriterionResult)
    → map (λ (c : CriterionResult). c.id) (filter (λ (c : CriterionResult). p c.id) cs)
      ≡ filter p (map (λ (c : CriterionResult). c.id) cs)
map-filter p [] = refl
map-filter p (c ∷ cs) = ground (arith, map-filter p cs)

named_on_run-eq :
    (result : RunResult) (ids : List String)
    → named_on_run result.criteria ids ≡ filter (has ids) (run_ids result)
unfolding named_on_run
named_on_run-eq result ids =
    ap distinct (map-filter (has ids) result.criteria)
    ∙ distinct-filter (has ids) (map (λ (c : CriterionResult). c.id) result.criteria)

-- Each criterion of the list is one of the run.
AreOn : List String → List CriterionResult → Type 0
AreOn on [] = Unit
AreOn on (c ∷ cs) = (has on c.id ≡ true) × AreOn on cs

AreOn-more :
    (id : String) (on : List String) (cs : List CriterionResult) → AreOn on cs → AreOn (id ∷ on) cs
unfolding AreOn has
AreOn-more id on [] h = tt
AreOn-more id on (c ∷ cs) (a, h) = (ground (arith, a), AreOn-more id on cs h)

AreOn-own : (cs : List CriterionResult) → AreOn (map (λ (c : CriterionResult). c.id) cs) cs
unfolding AreOn has
AreOn-own [] = tt
AreOn-own (c ∷ cs) = (
  ground (arith, eq_refl c.id),
  AreOn-more c.id (map (λ (c : CriterionResult). c.id) cs) cs (AreOn-own cs),
)

not_empty : (xs : List String) (k : String) → has xs k ≡ true → is_empty xs ≡ false
unfolding has
not_empty [] k h = absurd (ground (arith, h))
not_empty (x ∷ xs) k h = refl

named_as :
    (named ids on : List String)
    → ((k : String) → has named k ≡ (has ids k && has on k))
    → (earlier : List String) (cs : List CriterionResult) → AreOn on cs
    → (any (still_fails named) cs ≡ any (still_fails ids) cs)
      × (all (is_settled named earlier) cs ≡ all (is_settled ids earlier) cs)
      × (any (λ (c : CriterionResult). has ids c.id) cs ≡ true → is_empty named ≡ false)
unfolding AreOn has
named_as named ids on h earlier [] k = (refl, refl, λ e. absurd (ground (arith, e)))
named_as named ids on h earlier (c ∷ cs) (a, k) =
    let (f, s, n) = named_as named ids on h earlier cs k in
    let i = h c.id in
    (
      ground (arith, f, i, a),
      ground (arith, s, i, a),
      λ e. elim (Bool-cases (has ids c.id)) [
        | inl y ↦ not_empty named c.id (ground (arith, i, a, y))
        | inr m ↦ n (ground (arith, e, m))
      ],
    )

module _ (result : RunResult) (ids : List String) (actor : String)
    (runs : is_refused result.verdict ≡ false)
    (names : any (λ (c : CriterionResult). has ids c.id) result.criteria ≡ true)
    (signed : (sanitize_actor actor == "") ≡ false) where
  abbrev named : List String
  named = named_on_run result.criteria ids

  named_are :
      (any (still_fails named) result.criteria ≡ any (still_fails ids) result.criteria)
      × (all (is_settled named (earlier_ids result)) result.criteria
          ≡ all (is_settled ids (earlier_ids result)) result.criteria)
      × (any (λ (c : CriterionResult). has ids c.id) result.criteria ≡ true
          → is_empty named ≡ false)
  named_are =
      let on = map (λ (c : CriterionResult). c.id) result.criteria in
      named_as named ids on
        (λ k.
          ap (λ xs. has xs k) (named_on_run-eq result ids)
          ∙ has-filter (has ids) (run_ids result) k
          ∙ ap (λ b. has ids k && b) (has-distinct on k))
        (earlier_ids result) result.criteria (AreOn-own result.criteria)

  effective : record_waiver result ids actor ≡ record result {
    verdict =
        derive_waived_verdict
          (map (waive_one named (sanitize_actor actor)) result.criteria)
          (named ++ earlier_ids result);
    criteria = map (waive_one named (sanitize_actor actor)) result.criteria;
    waived = some (map (λ id. record { criterion_id = id; by = sanitize_actor actor }) named);
  }
  unfolding record_waiver
  effective = let n : is_empty named ≡ false = named_are.2 names in rw (runs, n, signed)

  -- After a waiver of a run that was not refused, which names a criterion of the run and an actor, the
  -- verdict is failed exactly when a criterion failed that it does not name, waived exactly when none
  -- did and every unverified criterion is named by it or by an earlier waiver, and never passed; and
  -- the record of waivers holds the ids of the run that it names, each once and in the order of the
  -- run, and no others.
  pub record_waiver-verdict :
      (((record_waiver result ids actor).verdict ≡ RunVerdict.failed)
        ↔ (any (still_fails ids) result.criteria ≡ true))
      × (((record_waiver result ids actor).verdict ≡ waived) ↔ (
          (any (still_fails ids) result.criteria ≡ false)
          × (all (is_settled ids (earlier_ids result)) result.criteria ≡ true)))
      × ((record_waiver result ids actor).verdict ≢ passed)
      × (earlier_ids (record_waiver result ids actor) ≡ filter (has ids) (run_ids result))
  unfolding derive_waived_verdict
  record_waiver-verdict =
      let f = failed_after named (sanitize_actor actor) result.criteria in
      let w = waived_all named (earlier_ids result) (sanitize_actor actor) result.criteria in
      let (a, b, n) = named_are in
      rw effective (
        ground (arith, f, w, a, b),
        ground (arith, f, w, a, b),
        ground (arith, f, w, a, b),
        ids-of-waivers (sanitize_actor actor) named ∙ named_on_run-eq result ids,
      )
