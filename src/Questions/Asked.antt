-- ===== src/Questions/Asked.antt =====
-- Which questions the resolution order asks (`resolveContradictions`).
use qare.Prelude.{
  ℕ, ◌+◌, String, Bool, true, false, ◌&&◌, ◌||◌, not, List, [], ◌∷◌, map, any, is_some, lookup,
  insert, lookup-insert, if◌then◌else◌, ◌==◌, ◌≡◌, refl, arith, eq_iff, ◌∙◌, total,
}
use qare.Json.{Json}
use qare.Ledger.Types.{LedgerEntry}
use qare.Questions.{
  Contradiction, Basis, executed_evidence, model, ResolutionQuestion, Resolving, recorded_answer,
  question_id_for, resolve_one, resolve_each, resolve_contradictions, ask, consult, settle,
}

is_model : Basis → Bool
is_model model = true
is_model executed_evidence = false

module _ (sha256 : String → String) (ledger : List LedgerEntry) (source : Json) where
  -- Neither executed evidence nor a recorded answer settles the conflict.
  unfoldable pub is_open : Contradiction → Bool
  unfolding is_model
  is_open c =
      is_model c.basis
      && not (is_some (recorded_answer ledger (question_id_for sha256 c.criterion c.replacement)))

  -- The conflict has this question.
  unfoldable pub asks : String → Contradiction → Bool
  asks id c = is_open c && question_id_for sha256 c.criterion c.replacement == id

  abbrev one : String → (String × ResolutionQuestion) → ℕ
  one id p = if p.1.id == id then 1 else 0

  abbrev is_there : String → Resolving → Bool
  is_there id state = is_some (lookup id state.questions)

  total-insert :
      (f : (String × ResolutionQuestion) → ℕ) (k : String) (q : ResolutionQuestion)
      (m : List (String × ResolutionQuestion))
      → is_some (lookup k m) ≡ false
      → total f (insert k q m) ≡ total f m + f (k, q)
  unfolding insert lookup
  total-insert f k q [] h = omega arith
  total-insert f k q ((j, r) ∷ m) h = ground (arith, total-insert f k q m)

  resolve_one-there :
      (c : Contradiction) (state : Resolving) (id : String)
      → is_there id (resolve_one sha256 ledger source c state) ≡ (is_there id state || asks id c)
  unfolding resolve_one consult ask settle is_open asks is_model
  resolve_one-there c state id =
      let k = question_id_for sha256 c.criterion c.replacement in
      let q : ResolutionQuestion = record {
        id = k;
        criterion = c.criterion;
        replacement = c.replacement;
        recommendation = c.classification;
        reason = c.reason;
        source = source;
      } in
      ground (arith, lookup-insert k id q state.questions, eq_iff k id)

  resolve_one-once :
      (c : Contradiction) (state : Resolving) (id : String)
      → total (one id) state.questions ≡ (if is_there id state then 1 else 0)
      → total (one id) (resolve_one sha256 ledger source c state).questions
        ≡ (if is_there id state || asks id c then 1 else 0)
  unfolding resolve_one consult ask settle is_open asks is_model
  resolve_one-once c state id h =
      let k = question_id_for sha256 c.criterion c.replacement in
      let q : ResolutionQuestion = record {
        id = k;
        criterion = c.criterion;
        replacement = c.replacement;
        recommendation = c.classification;
        reason = c.reason;
        source = source;
      } in
      ground (arith, total-insert (one id) k q state.questions, eq_iff k id)

  resolve_each-once :
      (cs : List Contradiction) (state : Resolving) (id : String)
      → total (one id) state.questions ≡ (if is_there id state then 1 else 0)
      → total (one id) (resolve_each sha256 ledger source cs state).questions
        ≡ (if is_there id state || any (asks id) cs then 1 else 0)
  unfolding resolve_each
  resolve_each-once [] state id h = ground (arith, h)
  resolve_each-once (c ∷ cs) state id h =
      let next = resolve_one sha256 ledger source c state in
      ground (
        arith,
        resolve_each-once cs next id,
        resolve_one-once c state id h,
        resolve_one-there c state id,
      )

  total-map :
      (id : String) (m : List (String × ResolutionQuestion))
      → total
          (λ (q : ResolutionQuestion). if q.id == id then 1 else 0)
          (map (λ (p : String × ResolutionQuestion). p.1) m)
        ≡ total (one id) m
  total-map id [] = refl
  total-map id (p ∷ m) = omega (arith, total-map id m)

  -- There is one question for each id of a conflict that is open, however many conflicts have that
  -- id, and no other question: none for a conflict that evidence or a recorded answer settles.
  pub resolve_contradictions-once :
      (cs : List Contradiction) (id : String)
      → total
          (λ (q : ResolutionQuestion). if q.id == id then 1 else 0)
          (resolve_contradictions sha256 ledger source cs).questions
        ≡ (if any (asks id) cs then 1 else 0)
  unfolding resolve_contradictions lookup
  resolve_contradictions-once cs id =
      let s : Resolving = record { settled = []; questions = [] } in
      total-map id (resolve_each sha256 ledger source cs s).questions
      ∙ resolve_each-once cs s id refl
