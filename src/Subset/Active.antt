-- ===== src/Subset/Active.antt =====
-- The plan of a run on the default branch (`ledgerActivePlan`).
use qare.Prelude.{
  ℕ, ◌≤◌, String, Bool, true, ◌&&◌, none, some, List, [], ◌∷◌, map, filter, is_empty, has, all, any,
  if◌then◌else◌, ◌==◌, ◌≡◌, ◌⊎◌, inl, inr, refl, ap, ◌∙◌, arith, eq_iff, eq_refl, Bool-cases, total,
  total-sort_by, all-sort_by, not, false, sort_by, put_sorted, are_in_order, in_order-sort_by,
}
use qare.Fallible.{ok}
use qare.Ledger.Types.{LedgerEntry, is_active}
use qare.Subset.{
  ResolvedCriterion, PlanCriterion, plan_of, criteria_subset_plan, active_ids, ledger_active_plan,
}
use qare.Subset.Served.{are_fresh, is_served, served_iff, served_ids}

abbrev pub is_id : String → String → ℕ
is_id id s = if s == id then 1 else 0

fresh-total :
    (seen xs : List String) (id : String)
    → are_fresh seen xs ≡ true
    → total (is_id id) xs ≤ (if has seen id then 0 else 1)
unfolding has
fresh-total seen [] id h = ground arith
fresh-total seen (x ∷ xs) id h = ground (arith, eq_iff x id, fresh-total (x ∷ seen) xs id)

total-fresh :
    (seen xs : List String)
    → ((id : String) → total (is_id id) xs ≤ (if has seen id then 0 else 1))
    → are_fresh seen xs ≡ true
unfolding has
total-fresh seen [] h = refl
total-fresh seen (x ∷ xs) h =
    let rest =
      total-fresh (x ∷ seen) xs (λ id. ground (arith, eq_iff x id, eq_refl x, h x, h id)) in
    ground (arith, rest, eq_refl x, h x)

abbrev pub ids : List LedgerEntry → List String
ids es = map (λ (e : LedgerEntry). e.criterion) es

abbrev actives : List LedgerEntry → List LedgerEntry
actives es = filter (λ (e : LedgerEntry). is_active e.status) es

total-actives :
    (id : String) (es : List LedgerEntry)
    → total (is_id id) (ids (actives es)) ≤ total (is_id id) (ids es)
total-actives id [] = omega arith
total-actives id (e ∷ es) = ground (arith, total-actives id es)

abbrev pub has_active : String → List LedgerEntry → Bool
has_active id es = any (λ (e : LedgerEntry). e.criterion == id && is_active e.status) es

has_active-total :
    (id : String) (es : List LedgerEntry) → has_active id es ≡ true → 1 ≤ total (is_id id) (ids es)
has_active-total id [] h = absurd (ground (arith, h))
has_active-total id (e ∷ es) h = ground (arith, has_active-total id es)

served_one :
    (id : String) (es : List LedgerEntry)
    → total (is_id id) (ids es) ≤ 1
    → has_active id es ≡ true
    → is_served es id ≡ true
served_one id [] h k = absurd (ground (arith, k))
served_one id (e ∷ es) h k = ground (arith, served_one id es, has_active-total id es)

all_served :
    (entries es : List LedgerEntry)
    → ((id : String) → total (is_id id) (ids entries) ≤ 1)
    → ((id : String) → has_active id es ≡ true → has_active id entries ≡ true)
    → all (is_served entries) (ids (actives es)) ≡ true
all_served entries [] h k = refl
all_served entries (e ∷ es) h k =
    let rest = all_served entries es h (λ id a. k id (ground (arith, a))) in
    ground (
      arith,
      rest,
      served_one e.criterion entries (h e.criterion),
      k e.criterion,
      eq_refl e.criterion,
    )

plan_ids :
    (rs : List ResolvedCriterion)
    → map (λ (c : PlanCriterion). c.id) (map plan_of rs) ≡ map (λ (r : ResolvedCriterion). r.id) rs
unfolding plan_of
plan_ids [] = refl
plan_ids (r ∷ rs) = ap (λ t. r.id ∷ t) (plan_ids rs)

active_ids-fresh :
    (entries : List LedgerEntry)
    → ((id : String) → total (is_id id) (ids entries) ≤ 1)
    → are_fresh [] (active_ids entries) ≡ true
unfolding active_ids has
active_ids-fresh entries h = total-fresh [] (active_ids entries) (λ id. omega (
  arith,
  total-sort_by (is_id id) (λ s. s) (ids (actives entries)),
  total-actives id entries,
  h id,
))

active_ids-served :
    (entries : List LedgerEntry)
    → ((id : String) → total (is_id id) (ids entries) ≤ 1)
    → all (is_served entries) (active_ids entries) ≡ true
unfolding active_ids
active_ids-served entries h =
    all-sort_by (is_served entries) (λ s. s) (ids (actives entries))
    ∙ all_served entries entries h (λ id a. a)

actives_count :
    (id : String) (es : List LedgerEntry)
    → (has_active id es ≡ true → 1 ≤ total (is_id id) (ids (actives es)))
      × (has_active id es ≡ false → total (is_id id) (ids (actives es)) ≡ 0)
actives_count id [] = (λ h. absurd (ground (arith, h)), λ h. refl)
actives_count id (e ∷ es) =
    let (a, b) = actives_count id es in (λ h. ground (arith, h, a), λ h. ground (arith, h, b))

-- Each active criterion stands once in the plan, and nothing else does.
active_ids-total :
    (entries : List LedgerEntry) (id : String)
    → total (is_id id) (ids entries) ≤ 1
    → total (is_id id) (active_ids entries) ≡ (if has_active id entries then 1 else 0)
unfolding active_ids
active_ids-total entries id h =
    let s = total-sort_by (is_id id) (λ s. s) (ids (actives entries)) in
    let l = total-actives id entries in
    let (a, b) = actives_count id entries in
    elim (Bool-cases (has_active id entries)) [
      | inl y ↦ let n = a y in rw y (omega (arith, s, l, n, h))
      | inr m ↦ let n = b m in rw m (omega (arith, s, n))
    ]

actives-is_empty :
    (es : List LedgerEntry)
    → is_empty (ids (actives es)) ≡ not (any (λ (e : LedgerEntry). is_active e.status) es)
actives-is_empty [] = refl
actives-is_empty (e ∷ es) = ground (arith, actives-is_empty es)

put_is_empty : (x : String) (xs : List String) → is_empty (put_sorted (λ s. s) x xs) ≡ false
unfolding put_sorted
put_is_empty x [] = refl
put_is_empty x (y ∷ ys) = ground arith

sort_is_empty : (xs : List String) → is_empty (sort_by (λ s. s) xs) ≡ is_empty xs
unfolding sort_by
sort_is_empty [] = refl
sort_is_empty (x ∷ xs) = put_is_empty x (sort_by (λ s. s) xs)

active_ids-is_empty :
    (es : List LedgerEntry)
    → is_empty (active_ids es) ≡ not (any (λ (e : LedgerEntry). is_active e.status) es)
unfolding active_ids
active_ids-is_empty es = sort_is_empty (ids (actives es)) ∙ actives-is_empty es

-- The plan runs the criteria of the active entries: each once, no others, and in the order of their ids.
abbrev pub RunsActive : List LedgerEntry → List PlanCriterion → Type 0
RunsActive entries plan =
    (are_in_order (map (λ (c : PlanCriterion). c.id) plan) ≡ true)
    × ((id : String)
        → total (is_id id) (map (λ (c : PlanCriterion). c.id) plan)
          ≡ (if has_active id entries then 1 else 0))

-- On a ledger that holds no criterion twice, the plan of a run on the default branch is made: there is
-- none exactly where no entry is active, and otherwise it has the criterion of each active entry once,
-- no others, and they are in order.
pub ledger_active_plan-IsMade :
    (entries : List LedgerEntry)
    → are_fresh [] (ids entries) ≡ true
    → ((any (λ (e : LedgerEntry). is_active e.status) entries ≡ false)
        × (ledger_active_plan entries ≡ ok none))
      ⊎ ((any (λ (e : LedgerEntry). is_active e.status) entries ≡ true)
          × ((plan : List PlanCriterion) × (ledger_active_plan entries ≡ ok (some plan))
              × RunsActive entries plan))
unfolding ledger_active_plan criteria_subset_plan active_ids has
ledger_active_plan-IsMade entries h = elim (Bool-cases (is_empty (active_ids entries))) [
  | inl y ↦ inl (ground (arith, y, active_ids-is_empty entries), rw y refl)
  | inr n ↦
      let once = λ (id : String). fresh-total [] (ids entries) id h in
      let fresh : are_fresh [] (active_ids entries) ≡ true = active_ids-fresh entries once in
      let ok_all : all (is_served entries) (active_ids entries) ≡ true =
        active_ids-served entries once in
      let (rs, e) =
        (served_iff entries (active_ids entries)).1 (ground (arith, n, fresh, ok_all)) in
      let made : ledger_active_plan entries ≡ ok (some (map plan_of rs)) = rw (n, e) refl in
      let same = plan_ids rs ∙ served_ids entries (active_ids entries) rs e in
      inr (
        ground (arith, n, active_ids-is_empty entries),
        (
          map plan_of rs,
          made,
          (
            ap are_in_order same ∙ in_order-sort_by (ids (actives entries)),
            λ id. ap (total (is_id id)) same ∙ active_ids-total entries id (once id),
          ),
        ),
      )
]
