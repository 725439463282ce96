-- ===== src/Ledger/History/Kept.antt =====
-- The chain of the history: what `parseChanges` takes is a chain, `appendChange` keeps one, and what
-- the last digest of a chain says of the whole of it.
use qare.Prelude.{
  ℕ, suc, ◌+◌, String, Bool, true, false, ◌&&◌, some, List, [], ◌∷◌, ◌++◌, length, template, nat_eq,
  ◌==◌, ◌≡◌, ◌≢◌, ◌⊎◌, inl, inr, refl, sym, ap, ◌∙◌, arith, ap₂, eq_iff, eq_refl, subst, Bool-cases,
  get_or, all_chars, not, is_blank, has_newline,
}
use qare.Fallible.{Fallible, ok, threw, ensure, >>=-eq-ok, ensure-eq-ok, ok_inj}
use qare.Json.{Json}
use qare.Ledger.Types.{
  LedgerChangeKind, kind_text, kind_of, at_index, ingest, verify, supersede, regression, retire,
  import_,
}
use qare.Ledger.History.{
  ChangeBody, LedgerChange, NewChange, digest_input, last_digest, parse_change, change_digest_of,
  append_change, check_criteria, check_link, parse_chain, parse_changes, text_items,
}
use text.Mathlib.TextLemmas.{append_cancel_left, append_cancel_right, append-eq-nil_iff}

-- Two JSON values whose texts have one hash.
unfoldable pub Collision : (String → String) → (Json → String) → Type 0
Collision sha256 json_text = (i j : Json) × (i ≢ j) × (sha256 (json_text i) ≡ sha256 (json_text j))

kind_of-kind_text : (k : LedgerChangeKind) → kind_of (kind_text k) ≡ some k
kind_of-kind_text ingest = refl
kind_of-kind_text verify = refl
kind_of-kind_text supersede = refl
kind_of-kind_text regression = refl
kind_of-kind_text retire = refl
kind_of-kind_text import_ = refl

kind_text_inj : (j k : LedgerChangeKind) → kind_text j ≡ kind_text k → j ≡ k
kind_text_inj j k e =
    ap (λ o. get_or o j) (sym (kind_of-kind_text j) ∙ ap kind_of e ∙ kind_of-kind_text k)

text_items_inj : (ss ts : List String) → text_items ss ≡ text_items ts → ss ≡ ts
text_items_inj [] [] e = refl
text_items_inj [] (t ∷ ts) e = absurd (ground arith)
text_items_inj (s ∷ ss) [] e = absurd (ground arith)
text_items_inj (s ∷ ss) (t ∷ ts) e = ground (arith, text_items_inj ss ts)

-- The digest's input names everything it is taken over.
digest_input_inj :
    (p q : String) (b c : ChangeBody) → digest_input p b ≡ digest_input q c → (p ≡ q) × (b ≡ c)
unfolding digest_input
digest_input_inj p q b c e =
    ground (arith, kind_text_inj b.kind c.kind, text_items_inj b.criteria c.criteria)

same_texts : List String → List String → Bool
same_texts [] [] = true
same_texts (s ∷ ss) (t ∷ ts) = s == t && same_texts ss ts
same_texts _ _ = false

same_texts-eq : (ss ts : List String) → same_texts ss ts ≡ true → ss ≡ ts
unfolding same_texts
same_texts-eq [] [] h = refl
same_texts-eq [] (t ∷ ts) h = absurd (ground arith)
same_texts-eq (s ∷ ss) [] h = absurd (ground arith)
same_texts-eq (s ∷ ss) (t ∷ ts) h = ground (arith, eq_iff s t, same_texts-eq ss ts)

same_texts_refl : (ss : List String) → same_texts ss ss ≡ true
unfolding same_texts
same_texts_refl [] = refl
same_texts_refl (s ∷ ss) = rw (eq_refl s) (same_texts_refl ss)

-- Whether two digests are taken over the same.
is_same : String → String → ChangeBody → ChangeBody → Bool
unfolding same_texts
is_same p q b c =
    p == q
    && nat_eq b.seq c.seq
    && kind_text b.kind == kind_text c.kind
    && b.actor == c.actor
    && b.timestamp == c.timestamp
    && b.reason == c.reason
    && same_texts b.criteria c.criteria

is_same-eq : (p q : String) (b c : ChangeBody) → is_same p q b c ≡ true → (p ≡ q) × (b ≡ c)
unfolding is_same
is_same-eq p q b c h = ground (
  arith,
  eq_iff p q,
  eq_iff (kind_text b.kind) (kind_text c.kind),
  eq_iff b.actor c.actor,
  eq_iff b.timestamp c.timestamp,
  eq_iff b.reason c.reason,
  kind_text_inj b.kind c.kind,
  same_texts-eq b.criteria c.criteria,
)

is_same_refl : (p : String) (b : ChangeBody) → is_same p p b b ≡ true
unfolding is_same
is_same_refl p b = ground (
  arith,
  eq_refl p,
  eq_refl (kind_text b.kind),
  eq_refl b.actor,
  eq_refl b.timestamp,
  eq_refl b.reason,
  same_texts_refl b.criteria,
)

digest_input-is_same :
    (p q : String) (b c : ChangeBody) → digest_input p b ≡ digest_input q c → is_same p q b c ≡ true
digest_input-is_same p q b c e =
    let (x, y) = digest_input_inj p q b c e in
    subst (λ (q : String). is_same p q b c ≡ true) x
      (subst (λ (c : ChangeBody). is_same p p b c ≡ true) y (is_same_refl p b))

true≢false : (true ≡ false) → ⊥
true≢false e = cc

hash_part : (h k : String) → template ("sha256:" ∷ h ∷ []) ≡ template ("sha256:" ∷ k ∷ []) → h ≡ k
hash_part h k e =
    append_cancel_right h k ""
      (append_cancel_left "sha256:" (template (h ∷ [])) (template (k ∷ [])) e)

nil_text : ◌≡◌ {A = String} "sha256:" "" → ⊥
nil_text e = let f : false ≡ true = ap (λ s. all_chars (λ c. false) s) e in cc

digest_is_text : (h : String) → ("" ≡ template ("sha256:" ∷ h ∷ [])) → ⊥
digest_is_text h e =
    nil_text ((append-eq-nil_iff {p = "sha256:"} {q = template (h ∷ [])}).0 (sym e)).0

module _ (sha256 : String → String) (json_text : Json → String) where
  -- Each record carries its place and the digest of its body after the record before it.
  abbrev pub IsChain : String → ℕ → List LedgerChange → Type 0
  IsChain previous index [] = Unit {0}
  IsChain previous index (c ∷ cs) =
      (c.seq ≡ index + 1)
      × (c.digest ≡ change_digest_of sha256 json_text previous c.body)
      × IsChain c.digest (index + 1) cs

  parsed :
      (previous : String) (index : ℕ) (ds cs : List LedgerChange)
      → Fallible.ok ds ≡ ok cs
      → IsChain previous index ds
      → IsChain previous index cs
  parsed previous index ds cs e h =
      subst (λ m. elim m [ ok es ↦ IsChain previous index es | threw _ ↦ Unit {0} ]) e h

  pub parse_chain-IsChain :
      (previous : String) (index : ℕ) (js : List Json) (cs : List LedgerChange)
      → parse_chain sha256 json_text previous index js ≡ ok cs
      → IsChain previous index cs
  unfolding parse_chain check_link
  parse_chain-IsChain previous index [] cs h = parsed previous index [] cs h tt
  parse_chain-IsChain previous index (j ∷ js) cs h =
      let c = >>=-eq-ok (parse_change j index) _ h in
      let l = >>=-eq-ok (check_link sha256 json_text previous index c.0) _ c.2 in
      let r = >>=-eq-ok (parse_chain sha256 json_text c.0.digest (index + 1) js) _ l.2 in
      let s =
        >>=-eq-ok (ensure (nat_eq c.0.seq (index + 1)) (at_index "document.changes" index)) _ l.1 in
      parsed previous index (c.0 ∷ r.0) cs r.2 (
        ground (arith, s.1),
        (eq_iff c.0.digest (change_digest_of sha256 json_text previous c.0.body)).0
            (ensure-eq-ok _ _ s.2),
        parse_chain-IsChain c.0.digest (index + 1) js r.0 r.1,
      )

module _ (sha256 : String → String) (json_text : Json → String) where
  -- One digest is that of one record after one digest, or two JSON texts have one hash.
  same_digest :
      (p q : String) (b c : ChangeBody)
      → change_digest_of sha256 json_text p b ≡ change_digest_of sha256 json_text q c
      → Collision sha256 json_text ⊎ ((p ≡ q) × (b ≡ c))
  unfolding change_digest_of Collision
  same_digest p q b c e = elim (Bool-cases (is_same p q b c)) [
    | inl y ↦ inr (is_same-eq p q b c y)
    | inr n ↦ inl (
      digest_input p b,
      digest_input q c,
      λ e. true≢false (sym (digest_input-is_same p q b c e) ∙ n),
      hash_part (sha256 (json_text (digest_input p b))) (sha256 (json_text (digest_input q c))) e,
    )
  ]

  -- The digest at the end of a chain that is not empty is that of a body with the last place.
  last_of :
      (previous : String) (index : ℕ) (c : LedgerChange) (cs : List LedgerChange)
      → IsChain sha256 json_text previous index (c ∷ cs)
      → (q : String) × (b : ChangeBody) × (last_digest previous (c ∷ cs)
          ≡ change_digest_of sha256 json_text q b)
        × (b.seq ≡ index + suc (length cs))
  last_of previous index c [] h = (previous, c.body, h.1, ground (arith, h.0))
  last_of previous index c (d ∷ cs) h =
      let r = last_of c.digest (index + 1) d cs h.2 in (r.0, r.1, r.2, ground (arith, r.3))

  digest_is_new : (p : String) (b : ChangeBody) → "" ≢ change_digest_of sha256 json_text p b
  unfolding change_digest_of
  digest_is_new p b e = digest_is_text (sha256 (json_text (digest_input p b))) e

  same_length :
      (xs ys : List LedgerChange)
      → IsChain sha256 json_text "" 0 xs
      → IsChain sha256 json_text "" 0 ys
      → last_digest "" xs ≡ last_digest "" ys
      → Collision sha256 json_text ⊎ (length xs ≡ length ys)
  same_length [] [] h k e = inr refl
  same_length [] (y ∷ ys) h k e =
      let a = last_of "" 0 y ys k in absurd (digest_is_new a.0 a.1 (e ∙ a.2))
  same_length (x ∷ xs) [] h k e =
      let a = last_of "" 0 x xs h in absurd (digest_is_new a.0 a.1 (sym e ∙ a.2))
  same_length (x ∷ xs) (y ∷ ys) h k e =
      let a = last_of "" 0 x xs h in
      let b = last_of "" 0 y ys k in
      elim (same_digest a.0 b.0 a.1 b.1 (sym a.2 ∙ e ∙ b.2)) [
        | inl c ↦ inl c
        | inr r ↦ inr (ground (arith, a.3, b.3, ap (λ (b : ChangeBody). b.seq) r.1))
      ]

  same_chain :
      (p q : String) (i : ℕ) (xs ys : List LedgerChange)
      → IsChain sha256 json_text p i xs
      → IsChain sha256 json_text q i ys
      → length xs ≡ length ys
      → last_digest p xs ≡ last_digest q ys
      → Collision sha256 json_text ⊎ ((p ≡ q) × (xs ≡ ys))
  same_chain p q i [] [] h k n e = inr (e, refl)
  same_chain p q i [] (y ∷ ys) h k n e = absurd (ground arith)
  same_chain p q i (x ∷ xs) [] h k n e = absurd (ground arith)
  same_chain p q i (x ∷ xs) (y ∷ ys) h k n e =
      elim (same_chain x.digest y.digest (i + 1) xs ys h.2 k.2 (ground arith) e) [
        | inl c ↦ inl c
        | inr r ↦ elim (same_digest p q x.body y.body (sym h.1 ∙ r.0 ∙ k.1)) [
          | inl c ↦ inl c
          | inr s ↦
              inr
                (s.0, ap₂ (λ a t. a ∷ t) (ap₂ (λ b d. record { body = b; digest = d }) s.1 r.0) r.1)
        ]
      ]

  -- Two documents whose histories load and end in one digest hold the same history, record by
  -- record, or there are two JSON values whose texts have one hash.
  pub parse_changes-kept :
      (v w : Json) (xs ys : List LedgerChange)
      → parse_changes sha256 json_text v ≡ ok xs
      → parse_changes sha256 json_text w ≡ ok ys
      → last_digest "" xs ≡ last_digest "" ys
      → Collision sha256 json_text ⊎ (xs ≡ ys)
  unfolding parse_changes
  parse_changes-kept v w xs ys h k e =
      let a = >>=-eq-ok _ (λ js. parse_chain sha256 json_text "" 0 js) h in
      let b = >>=-eq-ok _ (λ js. parse_chain sha256 json_text "" 0 js) k in
      let ha = parse_chain-IsChain sha256 json_text "" 0 a.0 xs a.2 in
      let hb = parse_chain-IsChain sha256 json_text "" 0 b.0 ys b.2 in
      elim (same_length xs ys ha hb e) [
        | inl c ↦ inl c
        | inr n ↦ elim (same_chain "" "" 0 xs ys ha hb n e) [ inl c ↦ inl c | inr r ↦ inr r.1 ]
      ]

module _ (sha256 : String → String) (json_text : Json → String) where
  IsChain-append :
      (previous : String) (index : ℕ) (cs : List LedgerChange) (b : ChangeBody)
      → IsChain sha256 json_text previous index cs
      → b.seq ≡ index + length cs + 1
      → IsChain sha256 json_text previous index (
          cs
          ++ record {
            body = b;
            digest = change_digest_of sha256 json_text (last_digest previous cs) b;
          }
            ∷ [])
  IsChain-append previous index [] b h e = (ground (arith, e), refl, tt)
  IsChain-append previous index (c ∷ cs) b h e =
      (h.0, h.1, IsChain-append c.digest (index + 1) cs b h.2 (ground (arith, e)))

  -- What is recorded is put after what was there, with the digest that follows.
  pub append_change-appends :
      (cs ds : List LedgerChange) (r : NewChange)
      → append_change sha256 json_text cs r ≡ ok ds
      → (b : ChangeBody) × (ds
          ≡ cs
            ++ record { body = b; digest = change_digest_of sha256 json_text (last_digest "" cs) b }
              ∷ [])
        × (b.criteria ≡ r.criteria)
        × (b.seq ≡ length cs + 1)
  unfolding append_change
  append_change-appends cs ds r h =
      let h1 = (>>=-eq-ok (ensure (not (is_blank r.actor)) _) _ h).2 in
      let h2 = (>>=-eq-ok (ensure (not (has_newline r.actor)) _) _ h1).2 in
      let h3 = (>>=-eq-ok (ensure (not (is_blank r.reason)) _) _ h2).2 in
      let h4 = (>>=-eq-ok (ensure (not (has_newline r.reason)) _) _ h3).2 in
      let h5 = (>>=-eq-ok (ensure (not (has_newline r.timestamp)) _) _ h4).2 in
      let h6 = (>>=-eq-ok (check_criteria [] r.criteria) _ h5).2 in (_, sym (ok_inj h6), refl, refl)

  -- A change that is recorded on a chain comes after the changes that were there, of which none is
  -- altered, names the criteria it was given, and the result is a chain.
  pub append_change-IsChain :
      (cs ds : List LedgerChange) (r : NewChange)
      → append_change sha256 json_text cs r ≡ ok ds
      → IsChain sha256 json_text "" 0 cs
      → ((c : LedgerChange) × (ds ≡ cs ++ c ∷ []) × (c.criteria ≡ r.criteria))
        × IsChain sha256 json_text "" 0 ds
  append_change-IsChain cs ds r h k =
      let (b, e, c, n) = append_change-appends cs ds r h in
      (
        (_, e, c),
        subst (λ es. IsChain sha256 json_text "" 0 es) (sym e)
            (IsChain-append "" 0 cs b k (ground (arith, n))),
      )
