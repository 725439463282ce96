-- ===== src/Triggers/Once.antt =====
-- The runs that a sequence of triggers starts (`handleTrigger`, `SetSeenShas`).
use qare.Prelude.{
  String, true, false, Option, none, some, List, [], ◌∷◌, has, ◌≡◌, ◌⊎◌, inl, inr, refl, arith,
  Bool-cases, eq_iff, eq_refl, ℕ, zero, suc, get_elem?, get_or, ap, ◌∙◌, ◌||◌,
}
use qare.Triggers.{
  TriggerEvent, sha_of, TriggerDecision, run, TriggerInput, ParsedTrigger, accepted, rejected,
  parse_trigger, handle_trigger,
}

-- The revision that a decision starts a run for.
abbrev started_sha : ParsedTrigger → TriggerDecision → Option String
started_sha (accepted event) run = some (sha_of event)
started_sha _ _ = none

abbrev put : Option String → List String → List String
put none shas = shas
put (some sha) shas = sha ∷ shas

-- The revisions that a sequence of triggers starts runs for, in order.
unfoldable pub started : List TriggerInput → List String → List String
started [] memory = []
started (raw ∷ rest) memory =
    let (handled, memory') = handle_trigger raw memory in
    put (started_sha (parse_trigger raw) handled.decision) (started rest memory')

-- One trigger starts the run of a revision that was not remembered, or leaves the memory alone.
abbrev Outcome : TriggerInput → List String → Type 0
Outcome raw memory =
    ((event : TriggerEvent) × (parse_trigger raw ≡ accepted event)
      × (has memory (sha_of event) ≡ false)
      × (started_sha (parse_trigger raw) (handle_trigger raw memory).0.decision
          ≡ some (sha_of event))
      × ((handle_trigger raw memory).1 ≡ sha_of event ∷ memory))
    ⊎ ((started_sha (parse_trigger raw) (handle_trigger raw memory).0.decision ≡ none)
        × ((handle_trigger raw memory).1 ≡ memory))

outcome : (raw : TriggerInput) (memory : List String) → Outcome raw memory
unfolding handle_trigger
outcome raw memory = go (parse_trigger raw) refl
  where
    go : (p : ParsedTrigger) → parse_trigger raw ≡ p → Outcome raw memory
    go (rejected reason) e = inr (ground arith, ground arith)
    go (accepted event) e = elim (Bool-cases (has memory (sha_of event))) [
      | inl y ↦ inr (ground arith, ground arith)
      | inr n ↦ inl (event, e, n, ground arith, ground arith)
    ]

-- No revision stands twice.
abbrev pub AreDistinct : List String → Type 0
AreDistinct [] = Unit
AreDistinct (x ∷ xs) = (has xs x ≡ false) × AreDistinct xs

-- A revision that is remembered is not started again.
started-fresh :
    (raws : List TriggerInput) (memory : List String) (sha : String)
    → has memory sha ≡ true
    → has (started raws memory) sha ≡ false
unfolding started has
started-fresh [] memory sha h = refl
started-fresh (raw ∷ rest) memory sha h = elim (outcome raw memory) [
  | inr (e, m) ↦ rw (e, m) (started-fresh rest memory sha h)
  | inl (event, p, n, e, m) ↦
      rw (e, m)
        (ground (arith, eq_iff (sha_of event) sha, started-fresh rest (sha_of event ∷ memory) sha))
]

-- Whatever triggers arrive in whatever order, each revision starts at most one run.
pub started-AreDistinct :
    (raws : List TriggerInput) (memory : List String) → AreDistinct (started raws memory)
unfolding started has
started-AreDistinct [] memory = tt
started-AreDistinct (raw ∷ rest) memory = elim (outcome raw memory) [
  | inr (e, m) ↦ rw (e, m) (started-AreDistinct rest memory)
  | inl (event, p, n, e, m) ↦
      rw (e, m)
        (
          started-fresh rest (sha_of event ∷ memory) (sha_of event)
              (unfold has in rw (eq_refl (sha_of event)) refl),
          started-AreDistinct rest (sha_of event ∷ memory),
        )
]

module _ (event : TriggerEvent) where
  started-after-one :
      (raw : TriggerInput) (rest : List TriggerInput) (memory : List String)
      → parse_trigger raw ≡ accepted event
      → (has memory (sha_of event) || has (started (raw ∷ rest) memory) (sha_of event)) ≡ true
  unfolding started handle_trigger has
  started-after-one raw rest memory e = elim (Bool-cases (has memory (sha_of event))) [
    | inl y ↦ rw y
    | inr n ↦ ground (arith, e, n, eq_refl (sha_of event))
  ]

  -- Every revision that a trigger parses to was remembered before or starts a run: none is lost.
  pub has-started :
      (raws : List TriggerInput) (memory : List String) (i : ℕ) (raw : TriggerInput)
      → get_elem? raws i ≡ some raw
      → parse_trigger raw ≡ accepted event
      → (has memory (sha_of event) || has (started raws memory) (sha_of event)) ≡ true
  unfolding started has
  has-started [] memory i raw g e = absurd (ground arith)
  has-started (r ∷ rest) memory zero raw g e =
      started-after-one r rest memory (ap (λ o. parse_trigger (get_or o r)) g ∙ e)
  has-started (r ∷ rest) memory (suc i) raw g e = elim (outcome r memory) [
    | inr (s, m) ↦ rw (s, m) (has-started rest memory i raw g e)
    | inl (ev, p, n, s, m) ↦
        rw (s, m) (ground (arith, has-started rest (sha_of ev ∷ memory) i raw g e))
  ]
