-- ===== src/Png/RoundTrip.antt =====
-- What `decodePng` reads of what `encodePng` wrote.
pub mod Rows
use qare.Prelude.{
  ℕ, zero, suc, ◌+◌, ◌*◌, ◌%◌, ◌-◌, ◌≤◌, ◌<◌, Bool, true, false, ◌&&◌, Option, none, some, List, [],
  ◌∷◌, ◌++◌, length, take, drop, leb, nat_eq, ltb, ◌≡◌, refl, ◌∙◌, sym, ap, ap₂, arith, subst,
  append-nil, append_assoc, length-append, if◌then◌else◌, take-append-drop,
}
use qare.Fallible.{Fallible, ok, threw, ◌>>=◌, ◌>>◌, ensure, >>=-eq-ok, ok_inj}
use qare.Png.Bytes.{
  nth, u32, write_u32, read_u32, padded, same_bytes, AreBytes, AreBytes-take, AreBytes-drop,
  nth-append, drop-append, drop-drop, length-take, length-drop, padded-take, suc_mul, write_u32-ok,
  read_u32-u32,
}
use qare.Png.Chunk.{
  png_signature, header_kind, data_kind, end_kind, png_chunk, Chunk, read_chunk, after_chunk,
}
use qare.Png.Chunk.Walk.{chunk_bytes, png_chunk-ok, read_chunk-chunk_bytes, after_chunk-chunk_bytes}
use qare.Png.Filter.{predicted, undo_row, undo_rows, pixel_at, expand}
use qare.Png.Decode.{
  PngImage, PngScan, Round, done, more, scan_round, scan_chunk, go_on, take_chunk, scan, scan_png,
  nothing_scanned, usable, read_header, decode_png, inflated,
}
use qare.Png.Encode.{raw_rows, encode_png}
use qare.Png.RoundTrip.Rows.{
  plain_rows, raw_rows-ok, undo_rows-plain, expand-plain, length-plain_rows,
}

scan_round-chunk :
    (a b c d : ℕ) (body rest : List ℕ) (s : PngScan)
    → length body < 0x100000000
    → scan_round (chunk_bytes (a ∷ b ∷ c ∷ d ∷ []) body ++ rest) s ≡ (
        if same_bytes (a ∷ b ∷ c ∷ d ∷ []) end_kind
        then done (ok s)
        else go_on rest (take_chunk (record { kind = a ∷ b ∷ c ∷ d ∷ []; body = body }) s))
unfolding scan_round scan_chunk
scan_round-chunk a b c d body rest s h =
    let all = chunk_bytes (a ∷ b ∷ c ∷ d ∷ []) body ++ rest in
    let n : leb 8 (length all) ≡ true = ground arith in
    rw n (
      rw (read_chunk-chunk_bytes a b c d body rest h)
        (rw (after_chunk-chunk_bytes a b c d body rest) refl))

abbrev header_body : ℕ → ℕ → List ℕ
header_body width height = u32 width ++ (u32 height ++ 8 ∷ 6 ∷ 0 ∷ 0 ∷ 0 ∷ [])

abbrev written : ℕ → ℕ → List ℕ → List ℕ
written width height packed =
    png_signature
    ++ (chunk_bytes header_kind (header_body width height)
        ++ (chunk_bytes data_kind packed ++ chunk_bytes end_kind []))

abbrev scanned : ℕ → ℕ → List ℕ → PngScan
scanned width height packed = record {
  width = width;
  height = height;
  color_type = some 6;
  packed = packed;
}

read_header-body :
    (width height : ℕ)
    → width < 0x100000000
    → height < 0x100000000
    → read_header (header_body width height) nothing_scanned ≡ ok (scanned width height [])
unfolding read_header
read_header-body width height w h =
    ap₂ (λ x y. ok (scanned x y [])) (read_u32-u32 width (u32 height ++ 8 ∷ 6 ∷ 0 ∷ 0 ∷ 0 ∷ []) w)
      (read_u32-u32 height (8 ∷ 6 ∷ 0 ∷ 0 ∷ 0 ∷ []) h)

scan_step :
    (n : ℕ) (rest left : List ℕ) (s taken : PngScan)
    → scan_round rest s ≡ more left taken
    → scan (suc n) rest s ≡ scan n left taken
unfolding scan
scan_step n rest left s taken e =
    ap (λ r. elim r [ done r ↦ some r | more left taken ↦ scan n left taken ]) e

scan_last :
    (n : ℕ) (rest : List ℕ) (s : PngScan)
    → scan_round rest s ≡ done (ok s)
    → scan (suc n) rest s ≡ some (ok s)
unfolding scan
scan_last n rest s e = ap (λ r. elim r [ done r ↦ some r | more left taken ↦ scan n left taken ]) e

scan-written :
    (n width height : ℕ) (packed : List ℕ)
    → width < 0x100000000
    → height < 0x100000000
    → length packed < 0x100000000
    → scan (suc (suc (suc n))) (drop 8 (written width height packed)) nothing_scanned
      ≡ some (ok (scanned width height packed))
unfolding go_on take_chunk
scan-written n width height packed w h k =
    let hb = header_body width height in
    let last = chunk_bytes end_kind [] in
    let second = chunk_bytes data_kind packed ++ last in
    let r1 =
      scan_round-chunk 73 72 68 82 hb second nothing_scanned (omega arith)
      ∙ ap (go_on second) (read_header-body width height w h) in
    let r2 = scan_round-chunk 73 68 65 84 packed last (scanned width height []) k in
    let r3 = scan_round-chunk 73 69 78 68 [] [] (scanned width height packed) (omega arith) in
    scan_step (suc (suc n)) _ second nothing_scanned (scanned width height []) r1
    ∙ scan_step (suc n) _ last (scanned width height []) (scanned width height packed) r2
    ∙ scan_last n last (scanned width height packed) r3

scan_png-written :
    (width height : ℕ) (packed : List ℕ)
    → width < 0x100000000
    → height < 0x100000000
    → length packed < 0x100000000
    → scan_png (written width height packed) ≡ ok (scanned width height packed)
unfolding scan_png
scan_png-written width height packed w h k =
    ap (λ o. elim o [ none ↦ threw "too few rounds" | some r ↦ r ])
      (scan-written _ width height packed w h k)

module _ (inflate : List ℕ → Option (List ℕ)) (deflate : List ℕ → List ℕ) (width height : ℕ)
    (pixels : List ℕ) (packs : (raw : List ℕ) → inflate (deflate raw) ≡ some raw) (w0 : 0 < width)
    (h0 : 0 < height) (w : width < 0x100000000) (h : height < 0x100000000)
    (sized : length pixels ≡ width * height * 4) (bytes : AreBytes pixels)
    (packed_fits : length (deflate (plain_rows (width * 4) height pixels)) < 0x100000000) where
  raw : List ℕ
  raw = plain_rows (width * 4) height pixels

  sized_rows : length pixels ≡ height * (width * 4)
  sized_rows = grind arith

  none_before : 0 * (width * 4) ≡ 0
  none_before = omega arith

  encodes :
      encode_png deflate (record { width = width; height = height; pixels = pixels })
      ≡ ok (written width height (deflate raw))
  unfolding encode_png raw
  encodes =
      let r : raw_rows pixels (width * 4) height 0 ≡ ok raw =
        raw_rows-ok pixels (width * 4) height 0 (omega (arith, sized_rows))
        ∙ ap (λ k. ok (plain_rows (width * 4) height (drop k pixels))) none_before in
      rw (write_u32-ok width w) (
        rw (write_u32-ok height h) (
          rw r (
            rw (png_chunk-ok header_kind (header_body width height) (omega arith)) (
              rw (png_chunk-ok data_kind (deflate raw) packed_fits)
                (rw (png_chunk-ok end_kind [] (omega arith)) refl)))))

  decodes :
      decode_png inflate (written width height (deflate raw))
      ≡ ok (record { width = width; height = height; pixels = pixels })
  unfolding decode_png usable inflated raw
  decodes =
      let long : leb 8 (length (written width height (deflate raw))) ≡ true = ground arith in
      let z : nat_eq width 0 ≡ false = ground arith in
      let y : nat_eq height 0 ≡ false = ground arith in
      let n : leb ((width * 4 + 1) * height) (length raw) ≡ true =
        let l = length-plain_rows (width * 4) height pixels sized_rows in grind arith in
      let u : undo_rows raw 4 (width * 4) height 0 [] ≡ ok pixels =
        undo_rows-plain raw 4 (width * 4) height 0 pixels [] [] refl (omega arith) sized_rows
          bytes in
      let x : expand pixels 4 (width * height) 0 ≡ pixels =
        expand-plain pixels (width * height) 0 [] pixels refl (omega arith) sized in
      rw long (
        rw (scan_png-written width height (deflate raw) w h packed_fits)
          (rw z (rw y (rw (packs raw) (rw n (rw u (rw x refl)))))))

  -- Where `inflateSync` undoes `deflateSync`, an image of at least one pixel whose width, height and
  -- deflated rows are below 2 ^ 32, with four bytes for each pixel, is encoded, and what is encoded is
  -- decoded to the same image.
  pub decode_png-encode_png :
      (png : List ℕ) × (encode_png deflate
          (record { width = width; height = height; pixels = pixels })
        ≡ ok png)
      × (decode_png inflate png ≡ ok (record { width = width; height = height; pixels = pixels }))
  decode_png-encode_png = (written width height (deflate raw), encodes, decodes)
