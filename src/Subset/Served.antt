-- ===== src/Subset/Served.antt =====
-- When a subset run is served (`resolveCriteriaSubset`).
use qare.Prelude.{
  String, Bool, true, false, ◌&&◌, not, none, some, List, [], ◌∷◌, map, filter_map, is_empty, has,
  all, ◌≡◌, ◌↔◌, ◌⊎◌, Bool-cases, refl, arith, inl, inr, ap, sym, ◌∙◌, Option-cases,
}
use qare.Fallible.{Fallible, ok, threw, ensure, >>=-eq-ok, ensure-eq-ok}
use qare.Ledger.Types.{LedgerEntry}
use qare.Selection.Budget.{is_live}
use qare.Subset.{
  ResolvedCriterion, entry_of, check_named, offence, resolve_all, resolve_criteria_subset, resolved,
}

-- No id is named twice, and none is one of `seen`.
abbrev pub are_fresh : List String → List String → Bool
are_fresh seen [] = true
are_fresh seen (id ∷ ids) = not (has seen id) && are_fresh (id ∷ seen) ids

-- The ledger carries the id, as proposed or active.
abbrev pub is_served : List LedgerEntry → String → Bool
is_served entries id = elim (entry_of entries id) [ none ↦ false | some e ↦ is_live e.status ]

check_named-eq : (seen ids : List String) → are_fresh seen ids ≡ true → check_named seen ids ≡ ok tt
unfolding check_named
check_named-eq seen [] h = refl
check_named-eq seen (id ∷ ids) h = ground (arith, check_named-eq (id ∷ seen) ids)

check_named-fresh :
    (seen ids : List String) → check_named seen ids ≡ ok tt → are_fresh seen ids ≡ true
unfolding check_named
check_named-fresh seen [] h = refl
check_named-fresh seen (id ∷ ids) h = ground (arith, check_named-fresh (id ∷ seen) ids)

offence-eq :
    (entries : List LedgerEntry) (ids : List String)
    → is_empty (filter_map (offence entries) ids) ≡ all (is_served entries) ids
unfolding offence
offence-eq entries [] = refl
offence-eq entries (id ∷ ids) = ground (arith, offence-eq entries ids)

resolve_all-eq :
    (entries : List LedgerEntry) (ids : List String)
    → all (is_served entries) ids ≡ true
    → (rs : List ResolvedCriterion) × (resolve_all entries ids ≡ ok rs)
      × (map (λ (r : ResolvedCriterion). r.id) rs ≡ ids)
unfolding resolve_all resolved
resolve_all-eq entries [] h = ([], refl, refl)
resolve_all-eq entries (id ∷ ids) h = elim (Option-cases (entry_of entries id)) [
  | inl n ↦ absurd (ground (arith, n, h))
  | inr (e, p) ↦
      let (rs, q, m) = resolve_all-eq entries ids (ground (arith, h)) in
      (resolved e id ∷ rs, ground (arith, p, q), ap (λ t. id ∷ t) m)
]

-- What a call that is served went through.
steps :
    (entries : List LedgerEntry) (ids : List String) (rs : List ResolvedCriterion)
    → resolve_criteria_subset entries ids ≡ ok rs
    → ((not (is_empty ids) && are_fresh [] ids && all (is_served entries) ids) ≡ true)
      × (resolve_all entries ids ≡ ok rs)
unfolding resolve_criteria_subset
steps entries ids rs h =
    let a = >>=-eq-ok (ensure (not (is_empty ids)) _) _ h in
    let b = >>=-eq-ok (check_named [] ids) _ a.2 in
    let c = >>=-eq-ok (ensure (is_empty (filter_map (offence entries) ids)) _) _ b.2 in
    let x = ensure-eq-ok _ _ a.1 in
    let y = check_named-fresh [] ids b.1 in
    let z = ensure-eq-ok _ _ c.1 in (ground (arith, x, y, z, offence-eq entries ids), c.2)

pub served_iff :
    (entries : List LedgerEntry) (ids : List String)
    → ((rs : List ResolvedCriterion) × (resolve_criteria_subset entries ids ≡ ok rs))
      ↔ ((not (is_empty ids) && are_fresh [] ids && all (is_served entries) ids) ≡ true)
unfolding resolve_criteria_subset
served_iff entries ids = (
  λ (rs, h). (steps entries ids rs h).0,
  λ h.
      let (rs, e, m) = resolve_all-eq entries ids (ground (arith, h)) in
      let n : is_empty ids ≡ false = ground (arith, h) in
      let f = check_named-eq [] ids (ground (arith, h)) in
      let o : is_empty (filter_map (offence entries) ids) ≡ true =
        ground (arith, h, offence-eq entries ids) in
      (rs, rw (n, f, o) e),
)

pub served_ids :
    (entries : List LedgerEntry) (ids : List String) (rs : List ResolvedCriterion)
    → resolve_criteria_subset entries ids ≡ ok rs
    → map (λ (r : ResolvedCriterion). r.id) rs ≡ ids
served_ids entries ids rs h =
    let (g, e) = steps entries ids rs h in
    let (qs, q, m) = resolve_all-eq entries ids (ground (arith, g)) in
    let same : qs ≡ rs = ap (λ r. elim r [ ok xs ↦ xs | threw _ ↦ qs ]) (sym q ∙ e) in
    ap (λ xs. map (λ (r : ResolvedCriterion). r.id) xs) (sym same) ∙ m

Fallible-cases :
    (m : Fallible (List ResolvedCriterion))
    → ((rs : List ResolvedCriterion) × (m ≡ ok rs)) ⊎ ((why : String) × (m ≡ threw why))
Fallible-cases (ok rs) = inl (rs, refl)
Fallible-cases (threw why) = inr (why, refl)

threw-ok : (why : String) (rs : List ResolvedCriterion) → Fallible.threw why ≡ ok rs → ⊥
threw-ok why rs h = absurd (ground arith)

-- A subset run is served, with what was named in the order it was named, exactly when it names an id,
-- none twice, and each is one that the ledger carries as proposed or active; otherwise it throws.
pub resolve_criteria_subset-served :
    (entries : List LedgerEntry) (ids : List String)
    → ((rs : List ResolvedCriterion) × (resolve_criteria_subset entries ids ≡ ok rs)
        × (map (λ (r : ResolvedCriterion). r.id) rs ≡ ids)
        × ((not (is_empty ids) && are_fresh [] ids && all (is_served entries) ids) ≡ true))
      ⊎ ((why : String) × (resolve_criteria_subset entries ids ≡ threw why)
          × ((not (is_empty ids) && are_fresh [] ids && all (is_served entries) ids) ≡ false))
resolve_criteria_subset-served entries ids =
    let is_fit = not (is_empty ids) && are_fresh [] ids && all (is_served entries) ids in
    elim (Fallible-cases (resolve_criteria_subset entries ids)) [
      | inl (rs, e) ↦ inl (rs, e, served_ids entries ids rs e, (served_iff entries ids).0 (rs, e))
      | inr (why, e) ↦ elim (Bool-cases is_fit) [
        | inr n ↦ inr (why, e, n)
        | inl y ↦ let (rs, f) = (served_iff entries ids).1 y in absurd (threw-ok why rs (sym e ∙ f))
      ]
    ]
