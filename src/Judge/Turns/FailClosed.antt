-- ===== src/Judge/Turns/FailClosed.antt =====
-- The verifier fails closed (`runVerifier`): what it does is a downgrade whatever the model answers,
-- and a claim stays proven only on an answer.
use qare.Prelude.{
  ℕ, zero, suc, ◌+◌, ◌≤◌, String, true, Option, none, some, List, [], ◌∷◌, ◌++◌, map, has, length,
  take, drop, filter, if◌then◌else◌, ◌≡◌, inl, inr, refl, sym, ap, arith, All, get_elem?,
  All-get_elem?, All-map, All-intro, All-imp, ◌∙◌, Bool-cases, Option-cases, has-append, eq_iff,
  leb, ◌&&◌, max_safe_integer, take-append-drop, length-drop-cons, map-append, append_assoc,
  append-nil, subst,
}
use qare.Json.{Json}
use qare.Result.{is_proven}
use qare.Judge.Run.{CriterionVerdict}
use qare.Judge.Claims.{
  VerifierClaim, VerifierInputs, Setting, set_to, unreadable, output_budget, verify_batch_size,
}
use qare.Judge.Findings.{
  VerifierFinding, Trusted, parse_verifier_findings, consume_verifier_findings, consume_one,
  first_finding, downgraded,
}
use qare.Judge.Findings.Downgrade.{
  IsDowngrade, AreDowngrades, AreDowngrades-refl, AreDowngrades-trans, AreDowngrades-map,
  consume_verifier_findings-AreDowngrades,
}
use qare.Judge.Turns.{
  Reply, Turn, threw, replied, Progress, Environment, unavailable, batch_unavailable, asked_ids,
  verify_batch, verify_loop, with_size, with_budget, with_claims, all_unavailable, run_verifier,
  given_or, checked_size,
}

unavailable-IsDowngrade : (why : String) (c : CriterionVerdict) → IsDowngrade c (unavailable why c)
unfolding unavailable
unavailable-IsDowngrade why c = elim (Bool-cases (is_proven c.outcome)) [
  | inl p ↦ inr (p, ground arith, ground arith, ground arith)
  | inr n ↦ inl (ground arith)
]

batch_unavailable-AreDowngrades :
    (claims : List VerifierClaim) (why : String) (cs : List CriterionVerdict)
    → AreDowngrades cs (batch_unavailable claims why cs)
unfolding batch_unavailable
batch_unavailable-AreDowngrades claims why = AreDowngrades-map _ λ c.
    elim (Bool-cases (has (asked_ids claims) c.criterion_id)) [
      | inl y ↦ rw y (unavailable-IsDowngrade why c)
      | inr n ↦ rw n (inl refl)
    ]

module _ (json_parse : String → Option Json) (diff : String) (budget : ℕ) where
  verify_batch-AreDowngrades :
      (claims : List VerifierClaim) (turn : Turn) (p : Progress)
      → AreDowngrades p.verdicts (verify_batch json_parse diff budget claims turn p).verdicts
  unfolding verify_batch
  verify_batch-AreDowngrades claims (threw why) p = batch_unavailable-AreDowngrades claims why _
  verify_batch-AreDowngrades claims (replied r) p = elim (Bool-cases r.is_completed) [
    | inr n ↦ rw n (batch_unavailable-AreDowngrades claims _ _)
    | inl y ↦ rw y (elim (Option-cases (parse_verifier_findings json_parse r.output)) [
      | inl e ↦ rw (e, verify_batch) (batch_unavailable-AreDowngrades claims _ _)
      | inr (fs, e) ↦ rw (e, verify_batch) (consume_verifier_findings-AreDowngrades _ _ _)
    ])
  ]

  verify_loop-AreDowngrades :
      (ask : ℕ → List VerifierClaim → Turn) (size fuel turn : ℕ) (claims : List VerifierClaim)
      (p : Progress)
      → AreDowngrades p.verdicts
          (verify_loop json_parse diff budget ask size fuel turn claims p).verdicts
  unfolding verify_loop
  verify_loop-AreDowngrades ask size zero turn claims p = AreDowngrades-refl p.verdicts
  verify_loop-AreDowngrades ask size (suc fuel) turn [] p = AreDowngrades-refl p.verdicts
  verify_loop-AreDowngrades ask size (suc fuel) turn (c ∷ claims) p =
      let batch = take size (c ∷ claims) in
      let next = verify_batch json_parse diff budget batch (ask turn batch) p in
      AreDowngrades-trans _ _ _ (verify_batch-AreDowngrades batch (ask turn batch) p)
        (verify_loop-AreDowngrades ask size fuel (turn + 1) (drop size (c ∷ claims)) next)

module _ (json_parse : String → Option Json) (ask : ℕ → List VerifierClaim → Turn)
    (env : Environment) (inputs : VerifierInputs) where
  with_size-AreDowngrades :
      (budget : ℕ) (size : Setting)
      → AreDowngrades inputs.criteria (with_size json_parse ask env inputs budget size).verdicts
  unfolding with_size all_unavailable
  with_size-AreDowngrades budget (unreadable why) =
      AreDowngrades-map _ (unavailable-IsDowngrade why) inputs.criteria
  with_size-AreDowngrades budget (set_to size) =
      verify_loop-AreDowngrades json_parse inputs.diff budget ask size _ 0 inputs.claims _

  with_budget-AreDowngrades :
      (budget : Setting)
      → AreDowngrades inputs.criteria (with_budget json_parse ask env inputs budget).verdicts
  unfolding with_budget all_unavailable
  with_budget-AreDowngrades (unreadable why) =
      AreDowngrades-map _ (unavailable-IsDowngrade why) inputs.criteria
  with_budget-AreDowngrades (set_to budget) = with_size-AreDowngrades budget _

  with_claims-AreDowngrades :
      (claims : List VerifierClaim) (budget_asked : Option ℕ)
      → AreDowngrades inputs.criteria
          (with_claims json_parse ask env inputs claims budget_asked).verdicts
  unfolding with_claims
  with_claims-AreDowngrades [] budget_asked = AreDowngrades-refl inputs.criteria
  with_claims-AreDowngrades (c ∷ cs) budget_asked = with_budget-AreDowngrades _

-- Whatever the model answers, throws or leaves out, and whatever the environment holds, the verifier
-- returns the same criteria in the same order, and each either stays as it was or loses its pass.
pub run_verifier-AreDowngrades :
    (json_parse : String → Option Json) (ask : ℕ → List VerifierClaim → Turn) (env : Environment)
    (inputs : VerifierInputs) (budget_asked : Option ℕ)
    → AreDowngrades inputs.criteria (run_verifier json_parse ask env inputs budget_asked).verdicts
unfolding run_verifier
run_verifier-AreDowngrades json_parse ask env inputs budget_asked =
    with_claims-AreDowngrades json_parse ask env inputs inputs.claims budget_asked

first_finding-asked :
    (ids : List String) (id : String) (fs : List VerifierFinding)
    → has ids id ≡ true
    → first_finding (filter (λ f. has ids f.criterion_id) fs) id ≡ first_finding fs id
first_finding-asked ids id [] h = refl
first_finding-asked ids id (f ∷ fs) h =
    ground (arith, eq_iff f.criterion_id id, first_finding-asked ids id fs)

module _ (json_parse : String → Option Json) (ask : ℕ → List VerifierClaim → Turn) where
  -- A turn that was asked about the criterion completed with a list of findings, and none names it.
  pub record IsAnswered (id : String) : Type 0 where
    pub turn : ℕ
    pub claims : List VerifierClaim
    pub reply : Reply
    pub findings : List VerifierFinding
    pub was_asked : has (asked_ids claims) id ≡ true
    pub said : ask turn claims ≡ replied reply
    pub is_completed : reply.is_completed ≡ true
    pub is_read : parse_verifier_findings json_parse reply.output ≡ some findings
    pub is_silent : first_finding findings id ≡ none

  -- Of the ids that were asked about, what is still proven was answered for.
  abbrev IsKept : List String → CriterionVerdict → Type 0
  IsKept ids c =
      has ids c.criterion_id ≡ true → is_proven c.outcome ≡ true → IsAnswered c.criterion_id

  unavailable-IsKept :
      (ids : List String) (claims : List VerifierClaim) (why : String) (c : CriterionVerdict)
      → IsKept ids c
      → IsKept
          (ids ++ asked_ids claims)
          (if has (asked_ids claims) c.criterion_id then unavailable why c else c)
  unfolding unavailable
  unavailable-IsKept ids claims why c h =
      elim (Bool-cases (has (asked_ids claims) c.criterion_id)) [
        | inl y ↦ rw y (λ a p. absurd (ground arith))
        | inr n ↦
            rw n (λ a p. h (ground (arith, has-append ids (asked_ids claims) c.criterion_id)) p)
      ]

  consume_one-IsKept :
      (ids : List String) (turn : ℕ) (claims : List VerifierClaim) (reply : Reply)
      (fs : List VerifierFinding) (t : Trusted) (c : CriterionVerdict)
      → ask turn claims ≡ replied reply
      → reply.is_completed ≡ true
      → parse_verifier_findings json_parse reply.output ≡ some fs
      → IsKept ids c
      → IsKept
          (ids ++ asked_ids claims)
          (consume_one (filter (λ f. has (asked_ids claims) f.criterion_id) fs) t c)
  unfolding consume_one downgraded
  consume_one-IsKept ids turn claims reply fs t c said done read h =
      let named = filter (λ (f : VerifierFinding). has (asked_ids claims) f.criterion_id) fs in
      elim (Option-cases (first_finding named c.criterion_id)) [
        | inr (f, e) ↦ λ a p. absurd (ground arith)
        | inl e ↦
            rw (e, consume_one)
              (λ a p. elim (Bool-cases (has (asked_ids claims) c.criterion_id)) [
                | inl y ↦ record {
                  turn = turn;
                  claims = claims;
                  reply = reply;
                  findings = fs;
                  was_asked = y;
                  said = said;
                  is_completed = done;
                  is_read = read;
                  is_silent = sym (first_finding-asked (asked_ids claims) c.criterion_id fs y) ∙ e;
                }
                | inr n ↦ h (ground (arith, has-append ids (asked_ids claims) c.criterion_id)) p
              ])
      ]

  -- One round adds the batch to what was asked about.
  verify_batch-IsKept :
      (diff : String) (budget : ℕ) (ids : List String) (turn : ℕ) (claims : List VerifierClaim)
      (result : Turn) (p : Progress)
      → ask turn claims ≡ result
      → All (IsKept ids) p.verdicts
      → All
          (IsKept (ids ++ asked_ids claims))
          (verify_batch json_parse diff budget claims result p).verdicts
  unfolding verify_batch batch_unavailable consume_verifier_findings
  verify_batch-IsKept diff budget ids turn claims (threw why) p said h =
      All-map _ _ p.verdicts (All-imp _ _ p.verdicts (unavailable-IsKept ids claims why) h)
  verify_batch-IsKept diff budget ids turn claims (replied r) p said h =
      elim (Bool-cases r.is_completed) [
        | inr n ↦
            rw n
              (All-map _ _ p.verdicts (All-imp _ _ p.verdicts (unavailable-IsKept ids claims _) h))
        | inl y ↦ rw y (elim (Option-cases (parse_verifier_findings json_parse r.output)) [
          | inl e ↦
              rw (e, verify_batch)
                (All-map _ _ p.verdicts (
                  All-imp _ _ p.verdicts
                    (unavailable-IsKept ids claims "its answer was not a findings list") h))
          | inr (fs, e) ↦
              rw (e, verify_batch)
                (All-map _ _ p.verdicts (
                  All-imp _ _ p.verdicts
                    (λ c k.
                      consume_one-IsKept ids turn claims r fs
                        (record { claims = claims; diff = diff }) c said y e k)
                    h))
        ])
      ]

  asked_ids-take-drop :
      (ids : List String) (n : ℕ) (claims : List VerifierClaim)
      → (ids ++ asked_ids (take n claims)) ++ asked_ids (drop n claims) ≡ ids ++ asked_ids claims
  asked_ids-take-drop ids n claims =
      append_assoc ids _ _
      ∙ ap (λ t. ids ++ t) (sym (map-append (λ (c : VerifierClaim). c.criterion_id) _ _))
      ∙ ap (λ t. ids ++ asked_ids t) (take-append-drop n claims)

  verify_loop-IsKept :
      (diff : String) (budget size fuel turn : ℕ) (ids : List String) (claims : List VerifierClaim)
      (p : Progress)
      → length claims ≤ fuel
      → 1 ≤ size
      → All (IsKept ids) p.verdicts
      → All
          (IsKept (ids ++ asked_ids claims))
          (verify_loop json_parse diff budget ask size fuel turn claims p).verdicts
  unfolding verify_loop
  verify_loop-IsKept diff budget size zero turn ids [] p e s h = rw (append-nil ids) h
  verify_loop-IsKept diff budget size zero turn ids (c ∷ claims) p e s h = absurd (omega arith)
  verify_loop-IsKept diff budget size (suc fuel) turn ids [] p e s h = rw (append-nil ids) h
  verify_loop-IsKept diff budget zero (suc fuel) turn ids (c ∷ claims) p e s h =
      absurd (omega arith)
  verify_loop-IsKept diff budget (suc size) (suc fuel) turn ids (c ∷ claims) p e s h =
      let batch = take (suc size) (c ∷ claims) in
      let next = verify_batch json_parse diff budget batch (ask turn batch) p in
      let rest = drop (suc size) (c ∷ claims) in
      subst
        (λ t.
          All (IsKept t)
            (verify_loop json_parse diff budget ask (suc size) fuel (turn + 1) rest next).verdicts)
        (asked_ids-take-drop ids (suc size) (c ∷ claims))
        (verify_loop-IsKept diff budget (suc size) fuel (turn + 1) (ids ++ asked_ids batch) rest
          next (omega (arith, length-drop-cons size c claims)) s
          (verify_batch-IsKept diff budget ids turn batch (ask turn batch) p refl h))

  unavailable-IsAnswered :
      (ids : List String) (why : String) (cs : List CriterionVerdict)
      → All (IsKept ids) (map (unavailable why) cs)
  unfolding unavailable
  unavailable-IsAnswered ids why [] = tt
  unavailable-IsAnswered ids why (c ∷ cs) =
      ((λ a p. absurd (ground arith)), unavailable-IsAnswered ids why cs)

  module _ (env : Environment) (inputs : VerifierInputs) where
    with_size-IsKept :
        (budget : ℕ) (size : Setting)
        → ((n : ℕ) → size ≡ set_to n → 1 ≤ n)
        → All
            (IsKept (asked_ids inputs.claims))
            (with_size json_parse ask env inputs budget size).verdicts
    unfolding with_size all_unavailable has
    with_size-IsKept budget (unreadable why) h = unavailable-IsAnswered _ why inputs.criteria
    with_size-IsKept budget (set_to size) h =
        verify_loop-IsKept inputs.diff budget size (length inputs.claims) 0 [] inputs.claims
          (record { verdicts = inputs.criteria; usage = none }) (omega arith) (h size refl)
          (All-intro _ inputs.criteria (λ c a p. cc))

    checked_size-pos : (s : Setting) (n : ℕ) → checked_size s ≡ set_to n → 1 ≤ n
    unfolding checked_size
    checked_size-pos (unreadable why) n h = absurd (ground arith)
    checked_size-pos (set_to m) n h = elim (Bool-cases (leb 1 m && leb m max_safe_integer)) [
      | inl y ↦ ground arith
      | inr e ↦ absurd (ground arith)
    ]

    with_budget-IsKept :
        (budget : Setting)
        → All
            (IsKept (asked_ids inputs.claims))
            (with_budget json_parse ask env inputs budget).verdicts
    unfolding with_budget all_unavailable
    with_budget-IsKept (unreadable why) = unavailable-IsAnswered _ why inputs.criteria
    with_budget-IsKept (set_to budget) =
        with_size-IsKept budget _
          (checked_size-pos (given_or inputs.batch_size (verify_batch_size env.verify_batch_size)))

    with_claims-IsKept :
        (claims : List VerifierClaim) (budget_asked : Option ℕ)
        → inputs.claims ≡ claims
        → All
            (IsKept (asked_ids claims))
            (with_claims json_parse ask env inputs claims budget_asked).verdicts
    unfolding with_claims has
    with_claims-IsKept [] budget_asked e = All-intro _ inputs.criteria (λ c a p. cc)
    with_claims-IsKept (c ∷ cs) budget_asked e =
        subst
          (λ t.
            All (IsKept (asked_ids t))
              (with_claims json_parse ask env inputs (c ∷ cs) budget_asked).verdicts)
          e (with_budget-IsKept (given_or budget_asked (output_budget env.max_output_tokens)))

-- A criterion that the verifier was to check and that is still proven afterwards was put to the model
-- in some turn, that turn completed with a readable list of findings, and none of them names it: a
-- turn that throws, stops or cannot be read, and a setting that cannot be read, leave nothing proven.
pub run_verifier-IsAnswered :
    (json_parse : String → Option Json) (ask : ℕ → List VerifierClaim → Turn) (env : Environment)
    (inputs : VerifierInputs) (budget_asked : Option ℕ) (i : ℕ) (c : CriterionVerdict)
    → get_elem? (run_verifier json_parse ask env inputs budget_asked).verdicts i ≡ some c
    → has (asked_ids inputs.claims) c.criterion_id ≡ true
    → is_proven c.outcome ≡ true
    → IsAnswered json_parse ask c.criterion_id
unfolding run_verifier
run_verifier-IsAnswered json_parse ask env inputs budget_asked i c e =
    All-get_elem? _ _ i c e
      (with_claims-IsKept json_parse ask env inputs inputs.claims budget_asked refl)
