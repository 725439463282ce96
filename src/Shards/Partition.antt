-- ===== src/Shards/Partition.antt =====
-- Where sharding places the criteria (`shardCriteria`).
use qare.Prelude.{
  ℕ, zero, suc, ◌+◌, ◌%◌, ◌<◌, max, String, Bool, ◌&&◌, List, [], ◌∷◌, ◌++◌, length, nat_eq, ltb,
  leb, if◌then◌else◌, ◌≡◌, inl, inr, refl, ap, ◌∙◌, arith, Bool-cases,
}
use qare.Fallible.{ok}
use qare.Json.{Json}
use qare.Shards.{
  JobCriterion, SequentialPlace, LanePlan, criterion_own_boot, push_in, slices_of, is_sequential,
  place, place_all, shard_criteria,
}

-- How often an index stands in a list.
abbrev pub count : ℕ → List ℕ → ℕ
count i [] = 0
count i (j ∷ js) = (if nat_eq i j then 1 else 0) + count i js

abbrev pub count_slices : ℕ → List (List ℕ) → ℕ
count_slices i [] = 0
count_slices i (s ∷ ss) = count i s + count_slices i ss

abbrev pub count_sequential : ℕ → List SequentialPlace → ℕ
count_sequential i [] = 0
count_sequential i (p ∷ ps) = (if nat_eq i p.index then 1 else 0) + count_sequential i ps

-- How often a plan places an index, over both kinds of lane.
abbrev pub placed : ℕ → LanePlan → ℕ
placed i plan = count_sequential i plan.sequential + count_slices i plan.shared

count-append : (i : ℕ) (xs ys : List ℕ) → count i (xs ++ ys) ≡ count i xs + count i ys
count-append i [] ys = omega arith
count-append i (x ∷ xs) ys = omega (arith, count-append i xs ys)

count_sequential-append :
    (i : ℕ) (xs ys : List SequentialPlace)
    → count_sequential i (xs ++ ys) ≡ count_sequential i xs + count_sequential i ys
count_sequential-append i [] ys = omega arith
count_sequential-append i (x ∷ xs) ys = omega (arith, count_sequential-append i xs ys)

-- A push where there is a slice.
push_in-eq :
    (k index : ℕ) (ss : List (List ℕ))
    → k < length ss
    → (ts : List (List ℕ)) × (push_in k index ss ≡ ok ts)
      × (length ts ≡ length ss)
      × ((i : ℕ) → count_slices i ts ≡ count_slices i ss + (if nat_eq i index then 1 else 0))
unfolding push_in
push_in-eq k index [] h = absurd (ground arith)
push_in-eq zero index (s ∷ ss) h =
    (_, refl, refl, λ i. omega (arith, count-append i s (index ∷ [])))
push_in-eq (suc k) index (s ∷ ss) h =
    let (ts, e, n, c) = push_in-eq k index ss (ground arith) in
    (s ∷ ts, rw e, ground arith, λ i. omega (arith, c i))

module _ (json_text : Json → String) (isolated_suites : String → Bool) where
  place-eq :
      (index : ℕ) (c : JobCriterion) (plan : LanePlan)
      → 0 < length plan.shared
      → (next : LanePlan) × (place json_text isolated_suites index c plan ≡ ok next)
        × (length next.shared ≡ length plan.shared)
        × ((i : ℕ) → placed i next ≡ placed i plan + (if nat_eq i index then 1 else 0))
  unfolding place
  place-eq index c plan h = elim (Bool-cases (is_sequential json_text isolated_suites c)) [
    | inl y ↦ (
      record plan {
        sequential =
            plan.sequential
            ++ record { index = index; own_boot = criterion_own_boot c isolated_suites } ∷ [];
      },
      rw y refl,
      refl,
      λ i. omega (
        arith,
        count_sequential-append i plan.sequential
            (record { index = index; own_boot = criterion_own_boot c isolated_suites } ∷ []),
      ),
    )
    | inr n ↦
        let (ts, e, l, f) =
          push_in-eq (index % length plan.shared) index plan.shared (omega arith) in
        (record plan { shared = ts }, rw (n, e) refl, l, λ i. omega (arith, f i))
  ]

  place_all-eq :
      (index : ℕ) (cs : List JobCriterion) (plan : LanePlan)
      → 0 < length plan.shared
      → (next : LanePlan) × (place_all json_text isolated_suites index cs plan ≡ ok next)
        × (length next.shared ≡ length plan.shared)
        × ((i : ℕ)
            → placed i next
              ≡ placed i plan + (if leb index i && ltb i (index + length cs) then 1 else 0))
  unfolding place_all
  place_all-eq index [] plan h = (plan, refl, refl, λ i. ground arith)
  place_all-eq index (c ∷ cs) plan h =
      let (mid, e, l, f) = place-eq index c plan h in
      let (last, e', l', f') = place_all-eq (index + 1) cs mid (omega (arith, l, h)) in
      (last, rw (e, e') refl, l' ∙ l, λ i. ground (arith, f i, f' i))

  placed_none : (i n : ℕ) → count_slices i (slices_of n) ≡ 0
  placed_none i zero = refl
  placed_none i (suc n) = omega (arith, placed_none i n)

  length-slices_of : (n : ℕ) → length (slices_of n) ≡ n
  length-slices_of zero = refl
  length-slices_of (suc n) = ap suc (length-slices_of n)

  -- Sharding never fails: it makes at least one slice and one for each worker, and places each of the
  -- job's criteria exactly once, in the sequential lane or in one slice, and nothing else.
  pub shard_criteria-IsPartition :
      (criteria : List JobCriterion) (workers : ℕ)
      → (plan : LanePlan) × (shard_criteria json_text isolated_suites criteria workers ≡ ok plan)
        × (length plan.shared ≡ max 1 workers)
        × ((i : ℕ) → placed i plan ≡ (if ltb i (length criteria) then 1 else 0))
  unfolding shard_criteria
  shard_criteria-IsPartition criteria workers =
      let start : LanePlan = record { sequential = []; shared = slices_of (max 1 workers) } in
      let (plan, e, l, f) =
        place_all-eq 0 criteria start (omega (arith, length-slices_of (max 1 workers))) in
      (
        plan,
        e,
        l ∙ length-slices_of (max 1 workers),
        λ i. ground (arith, f i, placed_none i (max 1 workers)),
      )
