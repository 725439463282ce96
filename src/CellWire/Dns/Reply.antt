-- ===== src/CellWire/Dns/Reply.antt =====
-- What a reply carries of the message that asked (`readDnsQuestion`, `dnsReply`).
use qare.Prelude.{
  ℕ, ◌+◌, ◌*◌, ◌/◌, ◌%◌, ◌<◌, Bool, true, false, Option, none, some, List, [], ◌∷◌, ◌++◌, zero, suc,
  length, take, drop, ◌≡◌, refl, ap, ap₂, sym, ◌∙◌, arith, inl, inr, ◌-◌, ◌≤◌, String, append_assoc,
  take-append-drop, length-append, Bool-cases, Option-cases, nat_eq,
}
use qare.Png.Bytes.{AreBytes, nth-lt, length-take, length-drop}
use qare.CellWire.{u16_at, host_name}
use qare.CellWire.Dns.{
  join_labels, DnsQuestion, DnsAnswer, address, empty, nxdomain, read_labels, question_of, is_query,
  read_dns_question, reply_flags, answer_record, dns_reply,
}

reply_is_no_query : (b : Bool) (answer : DnsAnswer) → is_query (reply_flags b answer) ≡ false
reply_is_no_query true (address dotted) = refl
reply_is_no_query true empty = refl
reply_is_no_query true nxdomain = refl
reply_is_no_query false (address dotted) = refl
reply_is_no_query false empty = refl
reply_is_no_query false nxdomain = refl

flags_fit : (b : Bool) (answer : DnsAnswer) → reply_flags b answer < 0x10000
flags_fit true (address dotted) = omega arith
flags_fit true empty = omega arith
flags_fit true nxdomain = omega arith
flags_fit false (address dotted) = omega arith
flags_fit false empty = omega arith
flags_fit false nxdomain = omega arith

flags-back : (n : ℕ) → n < 0x10000 → n / 256 % 256 * 256 + n % 256 ≡ n
flags-back n l = omega arith

-- A name as a message holds it: each label after its length.
abbrev pub wire_labels : List (List ℕ) → List ℕ
wire_labels [] = []
wire_labels (label ∷ labels) = length label ∷ (label ++ wire_labels labels)

-- The bytes of a question: its labels, the zero that ends them, and its type and class.
abbrev pub wire_question : List (List ℕ) → List ℕ → List ℕ
wire_question labels type_class = wire_labels labels ++ 0 ∷ type_class

-- What a query reads: the labels and the four bytes of type and class that stand after the header of
-- the message, and the name and the type of the query are those.
abbrev pub Asks : List ℕ → DnsQuestion → List (List ℕ) → List ℕ → List ℕ → Type 0
Asks message query labels type_class after =
    (drop 12 message ≡ wire_question labels type_class ++ after)
    × (length type_class ≡ 4)
    × (query.name ≡ host_name (join_labels labels))
    × (query.type_ ≡ u16_at 0 type_class)

read_labels-wire :
    (n : ℕ) (bytes : List ℕ) (labels : List (List ℕ)) (after : List ℕ)
    → read_labels n bytes ≡ some (labels, after)
    → (tail : List ℕ) × (after ≡ 0 ∷ tail) × (bytes ≡ wire_labels labels ++ after)
unfolding read_labels
read_labels-wire zero bytes labels after h = absurd (ground (arith, h))
read_labels-wire (suc n) [] labels after h = absurd (ground (arith, h))
read_labels-wire (suc n) (size ∷ rest) labels after h = elim (Bool-cases (nat_eq size 0)) [
  | inl y ↦
      let e : labels ≡ [] = ground (arith, h, y) in
      let a : after ≡ size ∷ rest = ground (arith, h, y) in
      let z : size ≡ 0 = ground (arith, y) in
      (rest, a ∙ ap (λ k. k ∷ rest) z, sym a ∙ sym (ap (λ ls. wire_labels ls ++ after) e))
  | inr m ↦ elim (Option-cases (read_labels n (drop size rest))) [
    | inl o ↦ absurd (ground (arith, h, m, o))
    | inr ((ls, aft), o) ↦
        let l : size ≤ length rest = ground (arith, h, m) in
        let e : labels ≡ take size rest ∷ ls = ground (arith, h, m, o) in
        let a : after ≡ aft = ground (arith, h, m, o) in
        let (tail, b, w) = read_labels-wire n (drop size rest) ls aft o in
        let c : rest ≡ (take size rest ++ wire_labels ls) ++ after =
          sym (take-append-drop size rest)
          ∙ ap (λ r. take size rest ++ r) (w ∙ ap (λ r. wire_labels ls ++ r) (sym a))
          ∙ sym (append_assoc (take size rest) (wire_labels ls) after) in
        (
          tail,
          a ∙ b,
          ap₂ (λ (k : ℕ) t. k ∷ t) (sym (length-take size rest l)) c
              ∙ sym (ap (λ ls. wire_labels ls ++ after) e),
        )
  ]
]

take-append-more :
    (xs ys : List ℕ) (n k : ℕ) → n ≡ length xs + k → take n (xs ++ ys) ≡ xs ++ take k ys
take-append-more [] ys n k e = ap (λ n. take n ys) (omega (arith, e))
take-append-more (x ∷ xs) ys zero k e = absurd (omega (arith, e))
take-append-more (x ∷ xs) ys (suc n) k e =
    ap (λ t. x ∷ t) (take-append-more xs ys n k (omega (arith, e)))

first_two : (tail : List ℕ) → 4 ≤ length tail → u16_at 1 (0 ∷ tail) ≡ u16_at 0 (take 4 tail)
first_two [] h = refl
first_two (a ∷ []) h = refl
first_two (a ∷ b ∷ tail) h = refl

-- A question is cut from the message just after its class.
cut :
    (message : List ℕ) (labels : List (List ℕ)) (tail : List ℕ)
    → 12 ≤ length message
    → drop 12 message ≡ wire_labels labels ++ 0 ∷ tail
    → take (length message - 12 - length (0 ∷ tail) + 5) (drop 12 message)
      ≡ wire_question labels (take 4 tail)
cut message labels tail l e =
    let n : length message - 12 - length (0 ∷ tail) + 5 ≡ length (wire_labels labels) + 5 = omega (
      arith,
      length-drop 12 message,
      ap length e,
      length-append (wire_labels labels) (0 ∷ tail),
      l,
    ) in
    ap (λ xs. take (length message - 12 - length (0 ∷ tail) + 5) xs) e
    ∙ take-append-more (wire_labels labels) (0 ∷ tail) _ 5 n

question_of-Asks :
    (message : List ℕ) (query : DnsQuestion)
    → 12 ≤ length message
    → question_of message (read_labels (length message) (drop 12 message)) ≡ some query
    → (labels : List (List ℕ)) × (type_class : List ℕ) × (after : List ℕ) × (query.question
        ≡ wire_question labels type_class)
      × Asks message query labels type_class after
unfolding question_of
question_of-Asks message query l h =
    elim (Option-cases (read_labels (length message) (drop 12 message))) [
      | inl n ↦ absurd (ground (arith, h, n))
      | inr ((labels, rest), o) ↦
          let (tail, z, w) = read_labels-wire (length message) (drop 12 message) labels rest o in
          let e : drop 12 message ≡ wire_labels labels ++ 0 ∷ tail =
            w ∙ ap (λ r. wire_labels labels ++ r) z in
          let k : 4 ≤ length tail = ground (arith, h, o, z) in
          let q : query.question ≡ take (length message - 12 - length rest + 5) (drop 12 message) =
            ground (arith, h, o) in
          let t : query.type_ ≡ u16_at 1 rest = ground (arith, h, o) in
          (
            labels,
            take 4 tail,
            drop 4 tail,
            q
                ∙ ap (λ r. take (length message - 12 - length r + 5) (drop 12 message)) z
                ∙ cut message labels tail l e,
            (
              e
                  ∙ ap (λ r. wire_labels labels ++ 0 ∷ r) (sym (take-append-drop 4 tail))
                  ∙ sym (append_assoc (wire_labels labels) (0 ∷ take 4 tail) (drop 4 tail)),
              length-take 4 tail k,
              ground (arith, h, o),
              t ∙ ap (λ r. u16_at 1 r) z ∙ first_two tail k,
            ),
          )
    ]

question_of-id :
    (message : List ℕ) (o : Option (List (List ℕ) × List ℕ)) (query : DnsQuestion)
    → question_of message o ≡ some query
    → query.id ≡ u16_at 0 message
unfolding question_of
question_of-id message none query h = absurd (ground arith)
question_of-id message (some (labels, rest)) query h = ground (arith, h)

-- A question that was read from a message of bytes is the one that stands after its header: the labels
-- of the name, the zero that ends them, and the four bytes of the type and the class. The reply, for
-- whatever answer, carries the message's id, that question and then the answer, and is not read as a
-- question itself.
pub dns_reply-echoes :
    (to_byte : String → ℕ) (message : List ℕ) (query : DnsQuestion) (answer : DnsAnswer)
    → AreBytes message
    → read_dns_question message ≡ some query
    → (u16_at 0 (dns_reply to_byte query answer) ≡ u16_at 0 message)
      × (read_dns_question (dns_reply to_byte query answer) ≡ none)
      × ((labels : List (List ℕ)) × (type_class : List ℕ) × (after : List ℕ) × Asks message query
            labels type_class after
          × (drop 12 (dns_reply to_byte query answer)
              ≡ wire_question labels type_class ++ answer_record to_byte answer))
unfolding read_dns_question dns_reply
dns_reply-echoes to_byte message query answer b h =
    let q : question_of message (read_labels (length message) (drop 12 message)) ≡ some query =
      ground (arith, h) in
    let l : 12 ≤ length message = ground (arith, h) in
    let i : query.id ≡ u16_at 0 message =
      question_of-id message (read_labels (length message) (drop 12 message)) query q in
    let f : is_query (u16_at 2 (dns_reply to_byte query answer)) ≡ false =
      ap is_query
        (flags-back (reply_flags query.is_recursive answer) (flags_fit query.is_recursive answer))
      ∙ reply_is_no_query query.is_recursive answer in
    let (labels, type_class, after, w, a) = question_of-Asks message query l q in
    (
      omega (arith, i, nth-lt message 0 b, nth-lt message 1 b),
      ground (arith, f),
      (labels, type_class, after, a, ap (λ xs. xs ++ answer_record to_byte answer) w),
    )
