-- ===== src/Selection/Report.antt =====
-- Selection reports every criterion of the ledger (`selectCriteria`).
use qare.Prelude.{
  ℕ, ◌+◌, String, true, false, List, [], ◌∷◌, get_or, sort_by, if◌then◌else◌, ◌==◌, ◌≡◌, refl,
  arith, total, total-append, total-sort_by,
}
use qare.Ledger.Types.{LedgerStatus, LedgerEntry, proposed, active, superseded, retired}
use qare.Selection.{
  SelectedCriterion, UnselectedCriterion, SelectionOptions, Candidate, Buckets, Filled, is_smoke,
  sort_live, sort_entry, sort_entries, fill_one, fill, no_buckets, select_criteria, left, candidate,
  impact, smoke, unmapped, UnselectedReason, unaffected, budget, by_status,
}

module _ (m : String → ℕ) where
  abbrev in_selected : List SelectedCriterion → ℕ
  in_selected xs = total (λ (x : SelectedCriterion). m x.criterion) xs

  abbrev in_unselected : List UnselectedCriterion → ℕ
  in_unselected xs = total (λ (x : UnselectedCriterion). m x.criterion) xs

  abbrev in_candidates : List Candidate → ℕ
  in_candidates xs = total (λ (x : Candidate). m x.item.criterion) xs

  abbrev in_entries : List LedgerEntry → ℕ
  in_entries es = total (λ (e : LedgerEntry). m e.criterion) es

  abbrev in_buckets : Buckets → ℕ
  in_buckets b =
      in_candidates b.smoke_set
      + in_candidates b.impact_set
      + in_candidates b.unmapped_set
      + in_unselected b.left_out

  abbrev in_filled : Filled → ℕ
  in_filled f = in_selected f.chosen + in_unselected f.cut

  fill_one-total :
      (b : ℕ) (c : Candidate) (f : Filled)
      → in_filled (fill_one b c f) ≡ in_filled f + m c.item.criterion
  unfolding fill_one
  fill_one-total b c f = ground (
    arith,
    total-append (λ (x : SelectedCriterion). m x.criterion) f.chosen (c.item ∷ []),
    total-append (λ (x : UnselectedCriterion). m x.criterion) f.cut
        (record { criterion = c.item.criterion; text = c.item.text; reason = budget } ∷ []),
  )

  fill-total :
      (b : ℕ) (cs : List Candidate) (f : Filled)
      → in_filled (fill b cs f) ≡ in_filled f + in_candidates cs
  unfolding fill
  fill-total b [] f = omega arith
  fill-total b (c ∷ cs) f = omega (arith, fill_one-total b c f, fill-total b cs (fill_one b c f))

  left-total :
      (e : LedgerEntry) (why : UnselectedReason) (b : Buckets)
      → in_buckets (left e why b) ≡ in_buckets b + m e.criterion
  unfolding left
  left-total e why b = omega (
    arith,
    total-append (λ (x : UnselectedCriterion). m x.criterion) b.left_out
        (record { criterion = e.criterion; text = e.text; reason = why } ∷ []),
  )

  module _ (touched : List String) (suite : String) (k : ℕ) where
    sort_live-total :
        (e : LedgerEntry) (b : Buckets)
        → in_buckets (sort_live touched suite k e b) ≡ in_buckets b + m e.criterion
    unfolding sort_live candidate
    sort_live-total e b =
        let f = λ (c : Candidate). m c.item.criterion in
        ground (
          arith,
          left-total e unaffected b,
          total-append f b.impact_set (candidate k e impact (is_smoke suite e) ∷ []),
          total-append f b.smoke_set (candidate k e smoke true ∷ []),
          total-append f b.unmapped_set (candidate k e unmapped false ∷ []),
        )

    sort_entry-total :
        (e : LedgerEntry) (b : Buckets)
        → in_buckets (sort_entry touched suite k e b) ≡ in_buckets b + m e.criterion
    unfolding sort_entry
    sort_entry-total e b = go e.status refl
      where
        go :
            (s : LedgerStatus)
            → e.status ≡ s
            → in_buckets (sort_entry touched suite k e b) ≡ in_buckets b + m e.criterion
        go proposed h = rw h (sort_live-total e b)
        go active h = rw h (sort_live-total e b)
        go superseded h = rw h (left-total e (by_status "superseded") b)
        go retired h = rw h (left-total e (by_status "retired") b)

    sort_entries-total :
        (es : List LedgerEntry) (b : Buckets)
        → in_buckets (sort_entries touched suite k es b) ≡ in_buckets b + in_entries es
    unfolding sort_entries
    sort_entries-total [] b = omega arith
    sort_entries-total (e ∷ es) b =
        omega (arith, sort_entry-total e b, sort_entries-total es (sort_entry touched suite k e b))

-- Every criterion is reported as often as the ledger has it, selected or not.
pub select_criteria-IsComplete :
    (entries : List LedgerEntry) (options : SelectionOptions) (id : String)
    → total
          (λ (s : SelectedCriterion). if s.criterion == id then 1 else 0)
          (select_criteria entries options).selected
        + total
            (λ (u : UnselectedCriterion). if u.criterion == id then 1 else 0)
            (select_criteria entries options).not_selected
      ≡ total (λ (e : LedgerEntry). if e.criterion == id then 1 else 0) entries
unfolding select_criteria
select_criteria-IsComplete entries options id =
    let m : String → ℕ = λ s. if s == id then 1 else 0 in
    let touched = sort_by (λ t. t) options.touched in
    let suite = get_or options.smoke_suite "smoke" in
    let k = get_or options.check_cost_ms 60000 in
    let b = get_or options.budget_ms 900000 in
    let sorted = sort_by (λ (e : LedgerEntry). e.criterion) entries in
    let bs = sort_entries touched suite k sorted no_buckets in
    let f0 : Filled = record { chosen = []; cut = bs.left_out; spent = 0 } in
    let f1 = fill b bs.smoke_set f0 in
    let f2 = fill b bs.impact_set f1 in
    omega (
      arith,
      fill-total m b bs.smoke_set f0,
      fill-total m b bs.impact_set f1,
      fill-total m b bs.unmapped_set f2,
      sort_entries-total m touched suite k sorted no_buckets,
      total-sort_by (λ (e : LedgerEntry). m e.criterion) (λ (e : LedgerEntry). e.criterion) entries,
    )
