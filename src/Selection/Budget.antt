-- ===== src/Selection/Budget.antt =====
-- How the estimate of a selection stands to the budget (`selectCriteria`).
use qare.Prelude.{
  ℕ, ◌+◌, ◌≤◌, String, Bool, true, false, List, [], ◌∷◌, get_or, sort_by, if◌then◌else◌, ◌≡◌, refl,
  arith, total, total-append, total-sort_by,
}
use qare.Ledger.Types.{LedgerStatus, LedgerEntry, proposed, active, superseded, retired}
use qare.Selection.{
  SelectionOptions, Candidate, Buckets, Filled, is_smoke, cost_of, sort_live, sort_entry,
  sort_entries, fill_one, fill, no_buckets, select_criteria, left, candidate, impact, smoke,
  unmapped,
}

abbrev pub is_live : LedgerStatus → Bool
is_live superseded = false
is_live retired = false
is_live _ = true

abbrev standing_cost : List Candidate → ℕ
standing_cost cs = total (λ (c : Candidate). if c.standing then c.cost else 0) cs

-- What an entry that names the smoke suite costs, and nothing for any other.
abbrev pub smoke_cost : SelectionOptions → LedgerEntry → ℕ
smoke_cost options e =
    if is_live e.status
    then (if is_smoke (get_or options.smoke_suite "smoke") e
        then cost_of (get_or options.check_cost_ms 60000) e
        else 0)
    else 0

fill-spent :
    (b s : ℕ) (cs : List Candidate) (f : Filled)
    → f.spent ≤ b + s
    → (fill b cs f).spent ≤ b + s + standing_cost cs
unfolding fill fill_one
fill-spent b s [] f h = omega (arith, h)
fill-spent b s (c ∷ cs) f h =
    ground (arith, fill-spent b (s + (if c.standing then c.cost else 0)) cs (fill_one b c f))

abbrev waiting : Buckets → ℕ
waiting b = standing_cost b.smoke_set + standing_cost b.impact_set + standing_cost b.unmapped_set

module _ (touched : List String) (smoke_suite : String) (k : ℕ) where
  smoke_or : LedgerEntry → ℕ
  smoke_or e = if is_smoke smoke_suite e then cost_of k e else 0

  sort_live-waiting :
      (e : LedgerEntry) (b : Buckets)
      → waiting (sort_live touched smoke_suite k e b) ≡ waiting b + smoke_or e
  unfolding sort_live left candidate smoke_or
  sort_live-waiting e b =
      let f = λ (c : Candidate). if c.standing then c.cost else 0 in
      let i : Candidate = candidate k e impact (is_smoke smoke_suite e) in
      let s : Candidate = candidate k e smoke true in
      let u : Candidate = candidate k e unmapped false in
      ground (
        arith,
        total-append f b.impact_set (i ∷ []),
        total-append f b.smoke_set (s ∷ []),
        total-append f b.unmapped_set (u ∷ []),
      )

  sort_entry-waiting :
      (e : LedgerEntry) (b : Buckets)
      → waiting (sort_entry touched smoke_suite k e b)
        ≡ waiting b + (if is_live e.status then smoke_or e else 0)
  unfolding sort_entry left smoke_or
  sort_entry-waiting e b = go e.status refl
    where
      go :
          (s : LedgerStatus)
          → e.status ≡ s
          → waiting (sort_entry touched smoke_suite k e b)
            ≡ waiting b + (if is_live e.status then smoke_or e else 0)
      go proposed h = rw h (sort_live-waiting e b)
      go active h = rw h (sort_live-waiting e b)
      go superseded h = rw h (omega arith)
      go retired h = rw h (omega arith)

  sort_entries-waiting :
      (es : List LedgerEntry) (b : Buckets)
      → waiting (sort_entries touched smoke_suite k es b)
        ≡ waiting b + total (λ (e : LedgerEntry). if is_live e.status then smoke_or e else 0) es
  unfolding sort_entries
  sort_entries-waiting [] b = omega arith
  sort_entries-waiting (e ∷ es) b = omega (
    arith,
    sort_entry-waiting e b,
    sort_entries-waiting es (sort_entry touched smoke_suite k e b),
  )

-- The estimate is at most the budget and what the live entries that name the smoke suite cost.
pub select_criteria-estimated :
    (entries : List LedgerEntry) (options : SelectionOptions)
    → (select_criteria entries options).estimated_ms
      ≤ (select_criteria entries options).budget_ms + total (smoke_cost options) entries
unfolding select_criteria smoke_or
select_criteria-estimated entries options =
    let touched = sort_by (λ t. t) options.touched in
    let suite = get_or options.smoke_suite "smoke" in
    let k = get_or options.check_cost_ms 60000 in
    let b = get_or options.budget_ms 900000 in
    let sorted = sort_by (λ (e : LedgerEntry). e.criterion) entries in
    let bs = sort_entries touched suite k sorted no_buckets in
    let f0 : Filled = record { chosen = []; cut = bs.left_out; spent = 0 } in
    let f1 = fill b bs.smoke_set f0 in
    let f2 = fill b bs.impact_set f1 in
    let h1 = fill-spent b 0 bs.smoke_set f0 (omega arith) in
    let s1 = standing_cost bs.smoke_set in
    let h2 = fill-spent b s1 bs.impact_set f1 (omega (arith, h1)) in
    let h3 =
      fill-spent b (s1 + standing_cost bs.impact_set) bs.unmapped_set f2 (omega (arith, h2)) in
    omega (
      arith,
      h3,
      sort_entries-waiting touched suite k sorted no_buckets,
      total-sort_by (smoke_cost options) (λ (e : LedgerEntry). e.criterion) entries,
    )
