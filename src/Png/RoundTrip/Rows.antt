-- ===== src/Png/RoundTrip/Rows.antt =====
-- The rows that `encodePng` writes are the rows that `decodePng` undoes and expands.
use qare.Prelude.{
  ℕ, zero, suc, ◌+◌, ◌*◌, ◌%◌, true, List, [], ◌∷◌, ◌++◌, length, take, drop, leb, ◌≡◌, refl, ◌∙◌,
  sym, ap, ap₂, arith, append-nil, append_assoc, length-append, take-append-drop,
}
use qare.Fallible.{ok}
use qare.Png.Bytes.{
  nth, AreBytes, AreBytes-take, AreBytes-drop, nth-append, drop-drop, length-take, length-drop,
  padded-take, suc_mul,
}
use qare.Png.Filter.{predicted, undo_row, undo_rows, pixel_at, expand}
use qare.Png.Encode.{raw_rows}

-- The rows of the raw data: a zero for no filter, and the bytes.
abbrev pub plain_rows : ℕ → ℕ → List ℕ → List ℕ
plain_rows stride zero ps = []
plain_rows stride (suc n) ps = 0 ∷ (take stride ps ++ plain_rows stride n (drop stride ps))

pub raw_rows-ok :
    (pixels : List ℕ) (stride n y : ℕ)
    → length pixels ≡ y * stride + n * stride
    → raw_rows pixels stride n y ≡ ok (plain_rows stride n (drop (y * stride) pixels))
unfolding raw_rows
raw_rows-ok pixels stride zero y h = refl
raw_rows-ok pixels stride (suc n) y h =
    let m : suc n * stride ≡ n * stride + stride = grind arith in
    let e : leb (y * stride) (length pixels) ≡ true = ground arith in
    let k = raw_rows-ok pixels stride n (y + 1) (omega (arith, suc_mul y stride)) in
    let f : drop ((y + 1) * stride) pixels ≡ drop stride (drop (y * stride) pixels) =
      ap (λ k. drop k pixels) (suc_mul y stride) ∙ sym (drop-drop (y * stride) stride pixels) in
    let p =
      padded-take stride (drop (y * stride) pixels)
        (omega (arith, length-drop (y * stride) pixels)) in
    rw e (rw k (rw p (rw f refl)))

module _ (raw : List ℕ) (channels stride : ℕ) where
  undo_row-plain :
      (y x : ℕ) (row before after lines : List ℕ)
      → raw ≡ before ++ (row ++ after)
      → length before ≡ y * (stride + 1) + 1 + x
      → AreBytes row
      → undo_row raw channels stride y 0 (length row) x lines ≡ ok (lines ++ row)
  unfolding undo_row predicted
  undo_row-plain y x [] before after lines e n b = ap ok (sym (append-nil lines))
  undo_row-plain y x (c ∷ row) before after lines e n (h, b) =
      let at : nth raw (y * (stride + 1) + 1 + x) ≡ c =
        ap (λ r. nth r (y * (stride + 1) + 1 + x)) e
        ∙ nth-append before (c ∷ (row ++ after)) 0 (y * (stride + 1) + 1 + x) (omega arith) in
      let byte : (nth raw (y * (stride + 1) + 1 + x) + 0) % 256 ≡ c = omega arith in
      let moved : raw ≡ (before ++ c ∷ []) ++ (row ++ after) =
        e ∙ sym (append_assoc before (c ∷ []) (row ++ after)) in
      let ih =
        undo_row-plain y (x + 1) row (before ++ c ∷ []) after (lines ++ c ∷ []) moved
          (omega (arith, length-append before (c ∷ []))) b in
      rw byte (ih ∙ ap ok (append_assoc lines (c ∷ []) row))

  pub undo_rows-plain :
      (n y : ℕ) (ps before lines : List ℕ)
      → raw ≡ before ++ plain_rows stride n ps
      → length before ≡ y * (stride + 1)
      → length ps ≡ n * stride
      → AreBytes ps
      → undo_rows raw channels stride n y lines ≡ ok (lines ++ ps)
  unfolding undo_rows
  undo_rows-plain zero y [] before lines e k l b = ap ok (sym (append-nil lines))
  undo_rows-plain zero y (p ∷ ps) before lines e k l b = absurd (omega arith)
  undo_rows-plain (suc n) y ps before lines e k l b =
      let row = take stride ps in
      let rest = plain_rows stride n (drop stride ps) in
      let m : suc n * stride ≡ n * stride + stride = grind arith in
      let z : nth raw (y * (stride + 1)) ≡ 0 =
        ap (λ r. nth r (y * (stride + 1))) e
        ∙ nth-append before (0 ∷ (row ++ rest)) 0 (y * (stride + 1)) (omega arith) in
      let moved : raw ≡ (before ++ 0 ∷ []) ++ (row ++ rest) =
        e ∙ sym (append_assoc before (0 ∷ []) (row ++ rest)) in
      let w : length row ≡ stride = length-take stride ps (omega arith) in
      let one : undo_row raw channels stride y 0 (length row) 0 lines ≡ ok (lines ++ row) =
        undo_row-plain y 0 row (before ++ 0 ∷ []) rest lines moved
          (omega (arith, length-append before (0 ∷ []))) (AreBytes-take stride ps b) in
      let ih =
        undo_rows-plain n (y + 1) (drop stride ps) ((before ++ 0 ∷ []) ++ row) (lines ++ row)
          (moved ∙ sym (append_assoc (before ++ 0 ∷ []) row rest))
          (omega (
            arith,
            length-append (before ++ 0 ∷ []) row,
            length-append before (0 ∷ []),
            suc_mul y (stride + 1),
          ))
          (omega (arith, length-drop stride ps)) (AreBytes-drop stride ps b) in
      let first : undo_row raw channels stride y (nth raw (y * (stride + 1))) stride 0 lines
          ≡ ok (lines ++ row) =
        ap₂ (λ f s. undo_row raw channels stride y f s 0 lines) z (sym w) ∙ one in
      rw first (
        ih
        ∙ ap ok (
            append_assoc lines row (drop stride ps)
            ∙ ap (λ t. lines ++ t) (take-append-drop stride ps)))

pub expand-plain :
    (lines : List ℕ) (n index : ℕ) (before ps : List ℕ)
    → lines ≡ before ++ ps
    → length before ≡ index * 4
    → length ps ≡ n * 4
    → expand lines 4 n index ≡ ps
unfolding expand pixel_at
expand-plain lines zero index before [] e k l = refl
expand-plain lines zero index before (a ∷ ps) e k l = absurd (omega arith)
expand-plain lines (suc n) index before [] e k l = absurd (omega arith)
expand-plain lines (suc n) index before (a ∷ []) e k l = absurd (omega arith)
expand-plain lines (suc n) index before (a ∷ b ∷ []) e k l = absurd (omega arith)
expand-plain lines (suc n) index before (a ∷ b ∷ c ∷ []) e k l = absurd (omega arith)
expand-plain lines (suc n) index before (a ∷ b ∷ c ∷ d ∷ ps) e k l =
    let four : List ℕ = a ∷ b ∷ c ∷ d ∷ [] in
    let at : (i j : ℕ) → j ≡ index * 4 + i → nth lines j ≡ nth (a ∷ b ∷ c ∷ d ∷ ps) i =
      λ i j h. ap (λ r. nth r j) e ∙ nth-append before (a ∷ b ∷ c ∷ d ∷ ps) i j (omega arith) in
    let ih =
      expand-plain lines n (index + 1) (before ++ four) ps (e ∙ sym (append_assoc before four ps))
        (omega (arith, length-append before four)) (omega arith) in
    rw (at 0 (index * 4) (omega arith)) (
      rw (at 1 (index * 4 + 1) refl)
        (rw (at 2 (index * 4 + 2) refl) (rw (at 3 (index * 4 + 3) refl) (rw ih refl))))

pub length-plain_rows :
    (stride n : ℕ) (ps : List ℕ)
    → length ps ≡ n * stride
    → length (plain_rows stride n ps) ≡ n * (stride + 1)
length-plain_rows stride zero ps h = omega arith
length-plain_rows stride (suc n) ps h =
    let m : suc n * stride ≡ n * stride + stride = grind arith in
    let k : suc n * (stride + 1) ≡ n * (stride + 1) + stride + 1 = grind arith in
    omega (
      arith,
      length-append (take stride ps) (plain_rows stride n (drop stride ps)),
      length-take stride ps (omega arith),
      length-plain_rows stride n (drop stride ps) (omega (arith, length-drop stride ps)),
    )
