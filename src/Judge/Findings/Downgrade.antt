-- ===== src/Judge/Findings/Downgrade.antt =====
-- What a verifier's findings can do to criteria (`consumeVerifierFindings`): the relation between the
-- criteria before and after, and what a failure rests on.
use qare.Prelude.{
  String, true, false, some, List, [], ◌∷◌, map, find, has, is_blank, get_or, ◌==◌, ◌≡◌, ◌↔◌, ◌⊎◌,
  inl, inr, refl, arith, Option-cases, Bool-cases, eq_iff, trim, ◌∙◌,
}
use qare.Json.{is_text, as_text}
use qare.Result.{is_proven, is_failed}
use qare.Judge.Run.{CriterionVerdict}
use qare.Judge.Claims.{VerifierClaim}
use qare.Judge.Findings.{
  VerifierFinding, Trusted, saved_for, cites, downgraded, first_finding, consume_one,
  consume_verifier_findings,
}

-- `d` is `c`, or `c` was proven and `d` is the same criterion with its pass taken away.
abbrev pub IsDowngrade : CriterionVerdict → CriterionVerdict → Type 0
IsDowngrade c d =
    (d ≡ c)
    ⊎ ((is_proven c.outcome ≡ true)
        × (is_proven d.outcome ≡ false)
        × (d.criterion_id ≡ c.criterion_id)
        × (d.regression ≡ c.regression))

-- The same criteria in the same order, each a downgrade of the one before.
abbrev pub AreDowngrades : List CriterionVerdict → List CriterionVerdict → Type 0
AreDowngrades [] [] = Unit
AreDowngrades [] (d ∷ ds) = ⊥
AreDowngrades (c ∷ cs) [] = ⊥
AreDowngrades (c ∷ cs) (d ∷ ds) = IsDowngrade c d × AreDowngrades cs ds

IsDowngrade-trans : (c d e : CriterionVerdict) → IsDowngrade c d → IsDowngrade d e → IsDowngrade c e
IsDowngrade-trans c d e (inl p) (inl q) = inl (q ∙ p)
IsDowngrade-trans c d e (inl p) (inr (a, b, i, r)) =
    inr (ground arith, b, ground arith, ground arith)
IsDowngrade-trans c d e (inr (a, b, i, r)) (inl q) =
    inr (a, ground arith, ground arith, ground arith)
IsDowngrade-trans c d e (inr (a, b, i, r)) (inr (a', b', i', r')) = inr (a, b', i' ∙ i, r' ∙ r)

pub AreDowngrades-refl : (cs : List CriterionVerdict) → AreDowngrades cs cs
AreDowngrades-refl [] = tt
AreDowngrades-refl (c ∷ cs) = (inl refl, AreDowngrades-refl cs)

pub AreDowngrades-trans :
    (cs ds es : List CriterionVerdict)
    → AreDowngrades cs ds
    → AreDowngrades ds es
    → AreDowngrades cs es
AreDowngrades-trans [] [] [] h k = tt
AreDowngrades-trans [] [] (e ∷ es) h k = k
AreDowngrades-trans [] (d ∷ ds) es h k = absurd h
AreDowngrades-trans (c ∷ cs) [] es h k = absurd h
AreDowngrades-trans (c ∷ cs) (d ∷ ds) [] h k = absurd k
AreDowngrades-trans (c ∷ cs) (d ∷ ds) (e ∷ es) (p, h) (q, k) =
    (IsDowngrade-trans c d e p q, AreDowngrades-trans cs ds es h k)

-- A function that downgrades each criterion downgrades a list of them.
pub AreDowngrades-map :
    (f : CriterionVerdict → CriterionVerdict)
    → ((c : CriterionVerdict) → IsDowngrade c (f c))
    → (cs : List CriterionVerdict) → AreDowngrades cs (map f cs)
AreDowngrades-map f h [] = tt
AreDowngrades-map f h (c ∷ cs) = (h c, AreDowngrades-map f h cs)

pub consume_one-IsDowngrade :
    (fs : List VerifierFinding) (t : Trusted) (c : CriterionVerdict)
    → IsDowngrade c (consume_one fs t c)
unfolding consume_one downgraded
consume_one-IsDowngrade fs t c = elim (Option-cases (first_finding fs c.criterion_id)) [
  | inl e ↦ inl (ground arith)
  | inr (f, e) ↦ elim (Bool-cases (is_proven c.outcome)) [
    | inl p ↦ inr (p, ground arith, ground arith, ground arith)
    | inr n ↦ inl (ground arith)
  ]
]

-- Whatever the findings say, the criteria stay the same criteria in the same order, and each either
-- stays as it was or was proven and no longer is.
pub consume_verifier_findings-AreDowngrades :
    (cs : List CriterionVerdict) (fs : List VerifierFinding) (t : Trusted)
    → AreDowngrades cs (consume_verifier_findings cs fs t)
unfolding consume_verifier_findings
consume_verifier_findings-AreDowngrades cs fs t =
    AreDowngrades-map (consume_one fs t) (consume_one-IsDowngrade fs t) cs

-- A finding is a contradiction and its evidence is a text that, trimmed, is `shown_by`, which is not
-- empty: it is the word `diff`, and the diff is not blank, or a file saved for the criterion.
abbrev pub IsCitation : Trusted → VerifierFinding → String → Type 0
IsCitation t f shown_by =
    (is_text "contradicted" f.kind ≡ true)
    × (trim (get_or (as_text f.evidence) "") ≡ shown_by)
    × ((shown_by == "") ≡ false)
    × (((shown_by ≡ "diff") × (is_blank t.diff ≡ false))
        ⊎ (((shown_by == "diff") ≡ false)
            × (has
                  (saved_for (
                    find (λ (claim : VerifierClaim). claim.criterion_id == f.criterion_id)
                      t.claims))
                  shown_by
                ≡ true)))

cites-IsCitation :
    (t : Trusted) (f : VerifierFinding) (shown_by : String)
    → cites t f ≡ some shown_by
    → IsCitation t f shown_by
unfolding cites
cites-IsCitation t f shown_by h =
    ground (arith, eq_iff (trim (get_or (as_text f.evidence) "")) "diff")

IsCitation-cites :
    (t : Trusted) (f : VerifierFinding) (shown_by : String)
    → IsCitation t f shown_by
    → cites t f ≡ some shown_by
unfolding cites
IsCitation-cites t f shown_by (k, e, n, inl (d, b)) =
    rw e (ground (arith, k, n, d, b, eq_iff shown_by "diff"))
IsCitation-cites t f shown_by (k, e, n, inr (d, b)) = rw e (ground (arith, k, n, d, b))

failed_by :
    (fs : List VerifierFinding) (t : Trusted) (c : CriterionVerdict)
    → is_failed c.outcome ≡ false
    → is_failed (consume_one fs t c).outcome ≡ true
    → (f : VerifierFinding) × (shown_by : String) × (first_finding fs c.criterion_id ≡ some f)
      × (is_proven c.outcome ≡ true)
      × IsCitation t f shown_by
unfolding consume_one downgraded
failed_by fs t c before after = elim (Option-cases (first_finding fs c.criterion_id)) [
  | inl e ↦ absurd (ground arith)
  | inr (f, e) ↦ elim (Option-cases (cites t f)) [
    | inl n ↦ absurd (ground arith)
    | inr (shown_by, s) ↦ (f, shown_by, e, ground arith, cites-IsCitation t f shown_by s)
  ]
]

-- The findings fail a criterion that had not failed exactly when it was proven, and its first finding
-- is a contradiction whose evidence, trimmed, is the word `diff` where the diff of the run is not
-- blank, or else the name of a file that was saved for that criterion.
pub consume_one-failed :
    (fs : List VerifierFinding) (t : Trusted) (c : CriterionVerdict)
    → is_failed c.outcome ≡ false
    → (is_failed (consume_one fs t c).outcome ≡ true) ↔ (
        (f : VerifierFinding) × (shown_by : String) × (first_finding fs c.criterion_id ≡ some f)
        × (is_proven c.outcome ≡ true)
        × IsCitation t f shown_by)
unfolding consume_one downgraded
consume_one-failed fs t c before = (
  failed_by fs t c before,
  λ (f, shown_by, e, p, i). let s = IsCitation-cites t f shown_by i in ground (arith, e, p, s),
)
