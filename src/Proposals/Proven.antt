-- ===== src/Proposals/Proven.antt =====
-- What a verification record proves: the entries that it promotes, and the criteria that are recorded.
use qare.Prelude.{
  String, Bool, true, false, ◌&&◌, Option, none, some, List, [], ◌∷◌, map, filter_map, any, has,
  lookup, lookup-index, last_with, has-append, has-filter, ◌||◌, not, filter, if◌then◌else◌, ◌==◌,
  ◌≡◌, refl, sym, ap, ◌∙◌, ◌⊎◌, inl, inr, arith, eq_iff, Bool-cases, Option-cases, ap₂, get_or,
}
use qare.Ledger.Types.{LedgerEntry, active, is_active, is_proposed}
use qare.Proposals.{
  VerificationCriterion, VerificationRecord, is_pass, LedgerProposalChange, by_criterion,
  proposed_change, same_changes, promoted_ids, promote, is_active_in, proven_ids,
}

-- The record proved the criterion and the ledger has it as proposed.
abbrev pub is_promoted : VerificationRecord → List LedgerEntry → String → Bool
is_promoted r current id =
    any (λ (c : VerificationCriterion). c.criterion_id == id && is_pass c.outcome) r.criteria
    && elim (lookup id (by_criterion current)) [ none ↦ false | some e ↦ is_proposed e.status ]

last_with-key :
    (k : String) (es : List LedgerEntry) (o : Option LedgerEntry) (e : LedgerEntry)
    → last_with (λ (e : LedgerEntry). e.criterion) (λ e. e) k es o ≡ some e
    → (o ≡ some e) ⊎ ((e.criterion == k) ≡ true)
last_with-key k [] o e h = inl h
last_with-key k (x ∷ es) o e h =
    elim (last_with-key k es (if x.criterion == k then some x else o) e h) [
      | inr r ↦ inr r
      | inl p ↦ elim (Bool-cases (x.criterion == k)) [
        | inl y ↦
            let q : some x ≡ some e = sym (rw y refl) ∙ p in
            inr (sym (ap (λ o. (get_or o x).criterion == k) q) ∙ y)
        | inr n ↦ inl (sym (rw n refl) ∙ p)
      ]
    ]

-- What the map of the entries holds under an id has that id.
by_criterion-key :
    (current : List LedgerEntry) (k : String) (e : LedgerEntry)
    → lookup k (by_criterion current) ≡ some e
    → (e.criterion == k) ≡ true
by_criterion-key current k e h =
    elim (last_with-key k current none e
      (sym (lookup-index (λ (e : LedgerEntry). e.criterion) (λ e. e) k current) ∙ h)) [
        | inl p ↦ absurd (ground (arith, p))
        | inr r ↦ r
      ]

pub has-proposed :
    (run_id : String) (current : List LedgerEntry) (cs : List VerificationCriterion) (id : String)
    → has (promoted_ids (filter_map (proposed_change run_id (by_criterion current)) cs)) id ≡ (
        any (λ (c : VerificationCriterion). c.criterion_id == id && is_pass c.outcome) cs
        && elim (lookup id (by_criterion current)) [ none ↦ false | some e ↦ is_proposed e.status ])
unfolding has proposed_change
has-proposed run_id current [] id = refl
has-proposed run_id current (c ∷ cs) id =
    elim (Option-cases (lookup c.criterion_id (by_criterion current))) [
      | inl n ↦ ground (arith, has-proposed run_id current cs id, n, eq_iff c.criterion_id id)
      | inr (e, p) ↦ ground (
        arith,
        has-proposed run_id current cs id,
        p,
        eq_iff c.criterion_id id,
        eq_iff e.criterion c.criterion_id,
        by_criterion-key current c.criterion_id e p,
      )
    ]

pub same_changes-ids :
    (xs bs : List LedgerProposalChange)
    → same_changes xs bs ≡ true
    → promoted_ids xs ≡ promoted_ids bs
unfolding same_changes
same_changes-ids [] [] h = refl
same_changes-ids [] (b ∷ bs) h = absurd (ground (arith, h))
same_changes-ids (a ∷ xs) [] h = absurd (ground (arith, h))
same_changes-ids (a ∷ xs) (b ∷ bs) h =
    ground (arith, eq_iff a.criterion b.criterion, same_changes-ids xs bs)

pub map-is_promoted :
    (xs : List String) (r : VerificationRecord) (current : List LedgerEntry)
    → ((id : String) → has xs id ≡ is_promoted r current id)
    → (es : List LedgerEntry)
    → map (promote xs) es
      ≡ map
          (λ (e : LedgerEntry).
            if is_promoted r current e.criterion then record e { status = active } else e)
          es
unfolding promote
map-is_promoted xs r current h [] = refl
map-is_promoted xs r current h (e ∷ es) =
    ap₂ (λ (y : LedgerEntry) t. y ∷ t)
      (ap (λ b. if b then record e { status = active } else e) (h e.criterion))
      (map-is_promoted xs r current h es)

-- The first entry with the id is active.
abbrev pub ends_active : List LedgerEntry → String → Bool
ends_active [] id = false
ends_active (e ∷ es) id = if e.criterion == id then is_active e.status else ends_active es id

-- The run passed the criterion, and the ledger has it as active afterwards.
abbrev pub was_proven : VerificationRecord → List LedgerEntry → String → Bool
was_proven r next id =
    any (λ (c : VerificationCriterion). c.criterion_id == id && is_pass c.outcome) r.criteria
    && ends_active next id

ends_active-eq :
    (next : List LedgerEntry) (id : String) → is_active_in next id ≡ ends_active next id
ends_active-eq [] id = refl
ends_active-eq (e ∷ es) id = ground (arith, ends_active-eq es id)

has-passed :
    (promoted : List String) (cs : List VerificationCriterion) (id : String)
    → has
        (map
          (λ (c : VerificationCriterion). c.criterion_id)
          (filter
            (λ (c : VerificationCriterion). is_pass c.outcome && not (has promoted c.criterion_id))
            cs))
        id
      ≡ (any (λ (c : VerificationCriterion). c.criterion_id == id && is_pass c.outcome) cs
          && not (has promoted id))
unfolding has
has-passed promoted [] id = refl
has-passed promoted (c ∷ cs) id =
    ground (arith, has-passed promoted cs id, eq_iff c.criterion_id id)

last_with-none :
    (k : String) (es : List LedgerEntry) (o : Option LedgerEntry)
    → any (λ (e : LedgerEntry). e.criterion == k) es ≡ false
    → last_with (λ (e : LedgerEntry). e.criterion) (λ e. e) k es o ≡ o
last_with-none k [] o h = refl
last_with-none k (e ∷ es) o h = ground (arith, h, last_with-none k es o)

promote-ends_active :
    (promoted : List String) (id : String) (es : List LedgerEntry)
    → has promoted id ≡ true
    → any (λ (e : LedgerEntry). e.criterion == id) es ≡ true
    → ends_active (map (promote promoted) es) id ≡ true
unfolding promote
promote-ends_active promoted id [] h k = absurd (ground (arith, k))
promote-ends_active promoted id (e ∷ es) h k =
    ground (arith, h, k, eq_iff e.criterion id, promote-ends_active promoted id es)

-- What is promoted was passed, and is active afterwards.
promoted-was_proven :
    (promoted : List String) (r : VerificationRecord) (current : List LedgerEntry) (id : String)
    → has promoted id ≡ is_promoted r current id
    → has promoted id ≡ true
    → was_proven r (map (promote promoted) current) id ≡ true
promoted-was_proven promoted r current id e h =
    elim (Bool-cases (any (λ (e : LedgerEntry). e.criterion == id) current)) [
      | inl y ↦ ground (arith, e, h, promote-ends_active promoted id current h y)
      | inr n ↦
          let o : lookup id (by_criterion current) ≡ none =
            lookup-index (λ (e : LedgerEntry). e.criterion) (λ e. e) id current
            ∙ last_with-none id current none n in
          absurd (ground (arith, e, h, o))
    ]

-- The criteria that the code records are those.
pub has-proven_ids :
    (promoted : List String) (r : VerificationRecord) (current : List LedgerEntry)
    → ((id : String) → has promoted id ≡ is_promoted r current id)
    → (id : String)
    → has (proven_ids promoted r (map (promote promoted) current)) id
      ≡ was_proven r (map (promote promoted) current) id
unfolding proven_ids
has-proven_ids promoted r current h id =
    let next = map (promote promoted) current in
    let passed =
      map (λ (c : VerificationCriterion). c.criterion_id)
        (filter
          (λ (c : VerificationCriterion). is_pass c.outcome && not (has promoted c.criterion_id))
          r.criteria) in
    let a = has-append promoted (filter (is_active_in next) passed) id in
    let b = has-filter (is_active_in next) passed id in
    let c = has-passed promoted r.criteria id in
    let d = ends_active-eq next id in
    elim (Bool-cases (has promoted id)) [
      | inl y ↦
          a
          ∙ ap (λ x. x || has (filter (is_active_in next) passed) id) y
          ∙ sym (promoted-was_proven promoted r current id (h id) y)
      | inr n ↦ ground (arith, a, b, c, d, n)
    ]
