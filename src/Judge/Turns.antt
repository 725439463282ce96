-- ===== src/Judge/Turns.antt =====
-- The verifier's turns (`runVerifier` of packages/core/src/judge.ts): the claims are put to a model in
-- batches, one turn a batch, and what a turn does not answer is no longer proven.
pub mod FailClosed
use qare.Prelude.{
  ℕ, zero, suc, ◌+◌, String, Bool, true, false, Option, none, some, List, [], ◌∷◌, map, has, length,
  take, drop, filter, template, decimal, max_safe_integer, leb, ltb, ◌&&◌, if◌then◌else◌, ◌==◌,
}
use qare.Json.{Json}
use qare.Result.{CriterionOutcome, unverified, is_proven, ModelUsage}
use qare.Judge.Run.{CriterionVerdict}
use qare.Judge.Claims.{
  VerifierClaim, VerifierInputs, Setting, set_to, unreadable, verify_batch_size, output_budget,
}
use qare.Judge.Findings.{VerifierFinding, parse_verifier_findings, consume_verifier_findings}

-- `sumUsage` of packages/core/src/metrics.ts.
unfoldable pub sum_usage : Option ModelUsage → Option ModelUsage → Option ModelUsage
sum_usage none b = b
sum_usage (some a) none = some a
sum_usage (some a) (some b) = some (record {
  input_tokens = a.input_tokens + b.input_tokens;
  output_tokens = a.output_tokens + b.output_tokens;
})

-- `stopDetail` of packages/core/src/runner.ts.
stop_detail : String → ℕ → String
unfolding decimal
stop_detail stop_reason budget =
    if stop_reason == "max_tokens"
    then template (
        "max_tokens, the turn was cut off at its budget of "
        ∷ decimal budget
        ∷ " output tokens, which QARE_MAX_OUTPUT_TOKENS raises (max-output-tokens in the pipeline)"
        ∷ [])
    else stop_reason

-- `AgentRunResult`. An output that is not a string is `none`.
pub record Reply : Type 0 where
  pub is_completed : Bool
  pub stop_reason : String
  pub usage : ModelUsage
  pub output : Option String
  pub error : Option String

-- What one call of the runner comes to: it throws, or it returns a result.
pub data Turn : Type 0 where
  threw : String → Turn
  replied : Reply → Turn

-- `verifierUnavailable` of one criterion.
unfoldable pub unavailable : String → CriterionVerdict → CriterionVerdict
unavailable why c =
    if is_proven c.outcome
    then record c {
      outcome = unverified;
      reason = template ("verifier did not answer: " ∷ why ∷ []);
    }
    else c

abbrev pub asked_ids : List VerifierClaim → List String
asked_ids = map (λ claim. claim.criterion_id)

-- The `unavailable` of one batch: only what the turn was asked about changes.
unfoldable pub batch_unavailable :
    List VerifierClaim → String → List CriterionVerdict → List CriterionVerdict
unfolding unavailable
batch_unavailable claims why =
    map (λ c. if has (asked_ids claims) c.criterion_id then unavailable why c else c)

pub record Progress : Type 0 where
  pub verdicts : List CriterionVerdict
  pub usage : Option ModelUsage

stopped_detail : ℕ → List VerifierClaim → Reply → String
unfolding stop_detail decimal
stopped_detail budget claims reply = template (
    "the run stopped ("
    ∷ stop_detail reply.stop_reason budget
    ∷ ")"
    ∷ (if reply.stop_reason == "max_tokens" && ltb 1 (length claims)
        then template (
            "; the turn was asked about "
            ∷ decimal (length claims)
            ∷ " criteria, and a smaller QARE_VERIFY_BATCH_SIZE (verify-batch-size in the pipeline)"
            ∷ " asks each turn about fewer"
            ∷ [])
        else "")
    ∷ elim reply.error [ none ↦ "" | some e ↦ template (": " ∷ e ∷ []) ]
    ∷ [])

module _ (json_parse : String → Option Json) (diff : String) (budget : ℕ) where
  -- One round of the loop, with what the runner's call came to.
  unfoldable pub verify_batch : List VerifierClaim → Turn → Progress → Progress
  unfolding stopped_detail
  verify_batch claims (threw why) p = record p {
    verdicts = batch_unavailable claims why p.verdicts;
  }
  verify_batch claims (replied reply) p =
      let usage = sum_usage p.usage (some reply.usage) in
      if reply.is_completed
      then elim (parse_verifier_findings json_parse reply.output) [
        | none ↦ record {
          verdicts = batch_unavailable claims "its answer was not a findings list" p.verdicts;
          usage = usage;
        }
        | some findings ↦ record {
          verdicts =
              consume_verifier_findings p.verdicts
                (filter (λ (f : VerifierFinding). has (asked_ids claims) f.criterion_id) findings)
                (record { claims = claims; diff = diff });
          usage = usage;
        }
      ]
      else record {
        verdicts = batch_unavailable claims (stopped_detail budget claims reply) p.verdicts;
        usage = usage;
      }

  -- `ask n claims` is what the runner's n-th call comes to, when it is asked about the claims.
  module _ (ask : ℕ → List VerifierClaim → Turn) (size : ℕ) where
    -- The loop, on fuel: a round takes at least one claim, so as many rounds as claims are enough.
    unfoldable pub verify_loop : ℕ → ℕ → List VerifierClaim → Progress → Progress
    verify_loop zero turn claims p = p
    verify_loop (suc fuel) turn [] p = p
    verify_loop (suc fuel) turn (claim ∷ claims) p =
        let batch = take size (claim ∷ claims) in
        verify_loop fuel (turn + 1) (drop size (claim ∷ claims))
          (verify_batch batch (ask turn batch) p)

-- `request.budget ?? outputBudget()` and `inputs.batchSize ?? verifyBatchSize()`.
abbrev given_or : Option ℕ → Setting → Setting
given_or (some n) s = set_to n
given_or none s = s

-- The batch size, held to a whole number of criteria above zero.
checked_size : Setting → Setting
unfolding decimal
checked_size (unreadable why) = unreadable why
checked_size (set_to n) =
    if leb 1 n && leb n max_safe_integer
    then set_to n
    else unreadable (
        template (
          "the verifier batch size is "
          ∷ decimal n
          ∷ ", and it is a whole number of criteria above zero"
          ∷ []))

-- The two environment variables that the verifier reads.
pub record Environment : Type 0 where
  pub max_output_tokens : Option String
  pub verify_batch_size : Option String

module _ (json_parse : String → Option Json) (ask : ℕ → List VerifierClaim → Turn)
    (env : Environment) (inputs : VerifierInputs) where
  -- `verifierUnavailable` of every criterion.
  all_unavailable : String → Progress
  unfolding unavailable
  all_unavailable why = record { verdicts = map (unavailable why) inputs.criteria; usage = none }

  with_size : ℕ → Setting → Progress
  with_size budget (unreadable why) = all_unavailable why
  with_size budget (set_to size) =
      verify_loop json_parse inputs.diff budget ask size (length inputs.claims) 0 inputs.claims
        (record { verdicts = inputs.criteria; usage = none })

  with_budget : Setting → Progress
  unfolding checked_size
  with_budget (unreadable why) = all_unavailable why
  with_budget (set_to budget) =
      with_size budget
        (checked_size (given_or inputs.batch_size (verify_batch_size env.verify_batch_size)))

  with_claims : List VerifierClaim → Option ℕ → Progress
  with_claims [] budget_asked = record { verdicts = inputs.criteria; usage = none }
  with_claims (claim ∷ claims) budget_asked =
      with_budget (given_or budget_asked (output_budget env.max_output_tokens))

  unfoldable pub run_verifier : Option ℕ → Progress
  unfolding with_claims with_budget with_size all_unavailable
  run_verifier budget_asked = with_claims inputs.claims budget_asked
