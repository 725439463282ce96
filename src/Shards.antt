-- ===== src/Shards.antt =====
-- packages/core/src/shards.ts: how a run's criteria divide over its workers. A check is the JSON object
-- that the job carries for it, `json_text` is `JSON.stringify`, and a set of suites is the test of it.
pub mod Partition
use Prim.Native.String
use qare.Prelude.{
  strip_prefix, skip_spaces, is_some, ℕ, zero, suc, ◌+◌, ◌%◌, max, String, Bool, true, false, ◌&&◌,
  ◌||◌, not, Option, none, some, List, [], ◌∷◌, ◌++◌, any, length, codes, is_space, nat_eq, ltb,
  get_or, if◌then◌else◌, ◌==◌, has_prefix,
}
use qare.Fallible.{Fallible, ok, threw, ◌>>=◌}
use qare.Json.{Json, obj, Fields, get, as_text, is_text}

pub record JobCriterion : Type 0 where
  pub id : String
  pub text : String
  pub isolated : Bool
  pub checks : List Fields

pub record SequentialPlace : Type 0 where
  pub index : ℕ
  pub own_boot : Bool

pub record LanePlan : Type 0 where
  pub sequential : List SequentialPlace
  pub shared : List (List ℕ)

-- `check.kind === 'flow' && check.suite !== undefined && isolatedSuites.has(check.suite)`.
names_isolated : (String → Bool) → Fields → Bool
names_isolated isolated_suites check =
    is_text "flow" (get "kind" check)
    && elim (as_text (get "suite" check)) [ none ↦ false | some suite ↦ isolated_suites suite ]

unfoldable pub criterion_own_boot : JobCriterion → (String → Bool) → Bool
unfolding names_isolated
criterion_own_boot criterion isolated_suites =
    criterion.isolated || any (names_isolated isolated_suites) criterion.checks

-- `/\{\{\s*mail\./.test(text)`.
abbrev names_artefact : String → Bool
names_artefact String.[] = false
names_artefact (String.◌∷◌ c s) =
    is_some (elim (strip_prefix "{{" (String.◌∷◌ c s)) [
      | none ↦ none
      | some rest ↦ strip_prefix "mail." (skip_spaces rest)
    ])
    || names_artefact s

module _ (json_text : Json → String) where
  hands_off_check : Fields → Bool
  hands_off_check check =
      is_text "mail" (get "kind" check) || names_artefact (json_text (obj check))

  unfoldable pub criterion_hands_off : JobCriterion → Bool
  unfolding hands_off_check
  criterion_hands_off criterion = any hands_off_check criterion.checks

-- `plan.shared[i].push(index)`, where there is such a slice.
unfoldable pub push_in : ℕ → ℕ → List (List ℕ) → Fallible (List (List ℕ))
push_in i index [] = threw "sharding: no worker slice to place a criterion in"
push_in zero index (slice ∷ slices) = ok ((slice ++ index ∷ []) ∷ slices)
push_in (suc i) index (slice ∷ slices) = do rest ← push_in i index slices; ok (slice ∷ rest)

-- `n` empty slices.
abbrev pub slices_of : ℕ → List (List ℕ)
slices_of zero = []
slices_of (suc n) = [] ∷ slices_of n

module _ (json_text : Json → String) (isolated_suites : String → Bool) where
  -- The criterion keeps its place in the plan's order.
  unfoldable pub is_sequential : JobCriterion → Bool
  is_sequential criterion =
      criterion_hands_off json_text criterion || criterion_own_boot criterion isolated_suites

  -- The loop's body, at one index.
  unfoldable pub place : ℕ → JobCriterion → LanePlan → Fallible LanePlan
  place index criterion plan =
      if not (is_sequential criterion)
      then (do
        slices ← push_in (index % length plan.shared) index plan.shared
        ok (record plan { shared = slices }))
      else ok (record plan {
        sequential =
            plan.sequential
            ++ record { index = index; own_boot = criterion_own_boot criterion isolated_suites }
              ∷ [];
      })

  unfoldable pub place_all : ℕ → List JobCriterion → LanePlan → Fallible LanePlan
  place_all index [] plan = ok plan
  place_all index (c ∷ cs) plan = do next ← place index c plan; place_all (index + 1) cs next

  unfoldable pub shard_criteria : List JobCriterion → ℕ → Fallible LanePlan
  shard_criteria criteria workers =
      place_all 0 criteria (record { sequential = []; shared = slices_of (max 1 workers) })
