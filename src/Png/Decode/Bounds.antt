-- ===== src/Png/Decode/Bounds.antt =====
-- How much `decodePng` returns, and that it is bytes.
use qare.Prelude.{
  ℕ, zero, suc, ◌+◌, ◌*◌, ◌<◌, ◌&&◌, Option, none, some, List, [], length, take, leb, ◌≡◌, refl,
  arith, subst, All-append, length-append,
}
use qare.Fallible.{ok, ensure, >>=-eq-ok, ok_inj}
use qare.Png.Bytes.{nth, same_bytes, AreBytes, nth-lt}
use qare.Png.Chunk.{png_signature}
use qare.Png.Filter.{predicted, undo_row, undo_rows, pixel_at, expand}
use qare.Png.Decode.{
  PngImage, scan_png, usable, known_channels, usable_channels, inflated, decode_png,
}

module _ (raw : List ℕ) (channels stride : ℕ) where
  undo_row-AreBytes :
      (y filter n x : ℕ) (lines out : List ℕ)
      → AreBytes lines
      → undo_row raw channels stride y filter n x lines ≡ ok out
      → AreBytes out
  unfolding undo_row
  undo_row-AreBytes y filter zero x lines out b h = subst AreBytes (ok_inj h) b
  undo_row-AreBytes y filter (suc n) x lines out b h =
      let p = >>=-eq-ok (predicted filter _ _ _) _ h in
      undo_row-AreBytes y filter n (x + 1) _ out
        (All-append (λ b. b < 256) lines _ b (omega arith, tt)) p.2

  undo_rows-AreBytes :
      (n y : ℕ) (lines out : List ℕ)
      → AreBytes lines
      → undo_rows raw channels stride n y lines ≡ ok out
      → AreBytes out
  unfolding undo_rows
  undo_rows-AreBytes zero y lines out b h = subst AreBytes (ok_inj h) b
  undo_rows-AreBytes (suc n) y lines out b h =
      let p =
        >>=-eq-ok (undo_row raw channels stride y (nth raw (y * (stride + 1))) stride 0 lines) _
          h in
      undo_rows-AreBytes n (y + 1) p.0 out
        (undo_row-AreBytes y (nth raw (y * (stride + 1))) stride 0 lines p.0 b p.1) p.2

module _ (lines : List ℕ) (channels : ℕ) where
  pixel_at-AreBytes : (index : ℕ) → AreBytes lines → AreBytes (pixel_at lines channels index)
  unfolding pixel_at
  pixel_at-AreBytes index b = (
    nth-lt lines _ b,
    (
      nth-lt lines _ b,
      (
        nth-lt lines _ b,
        (
          ground
              (arith, nth-lt lines (index * channels + 3) b, nth-lt lines (index * channels + 1) b),
          tt,
        ),
      ),
    ),
  )

  expand-AreBytes : (n index : ℕ) → AreBytes lines → AreBytes (expand lines channels n index)
  unfolding expand
  expand-AreBytes zero index b = tt
  expand-AreBytes (suc n) index b =
      All-append (λ b. b < 256) (pixel_at lines channels index) _ (pixel_at-AreBytes index b)
        (expand-AreBytes n (index + 1) b)

  length-pixel_at : (index : ℕ) → length (pixel_at lines channels index) ≡ 4
  unfolding pixel_at
  length-pixel_at index = refl

  length-expand : (n index : ℕ) → length (expand lines channels n index) ≡ n * 4
  unfolding expand
  length-expand zero index = refl
  length-expand (suc n) index = omega (
    arith,
    length-append (pixel_at lines channels index) (expand lines channels n (index + 1)),
    length-pixel_at index,
    length-expand n (index + 1),
  )

usable-ok :
    (o : Option ℕ) (width height n : ℕ) → usable o width height ≡ ok n → (0 < width) × (0 < height)
unfolding usable
usable-ok none width height n h = absurd (ground arith)
usable-ok (some c) width height n h = ground arith

-- What `decodePng` returns for any file has a width and a height above 0, four bytes for each pixel,
-- and no byte above 255, whatever the inflated data is.
pub decode_png_sized :
    (inflate : List ℕ → Option (List ℕ)) (png : List ℕ) (image : PngImage)
    → decode_png inflate png ≡ ok image
    → (0 < image.width)
      × (0 < image.height)
      × (length image.pixels ≡ image.width * image.height * 4)
      × AreBytes image.pixels
unfolding decode_png
decode_png_sized inflate png image h =
    let h1 =
      (>>=-eq-ok
        (ensure (leb 8 (length png) && same_bytes (take 8 png) png_signature)
          "the file is not a PNG")
        _ h).2 in
    let (s, e2, h2) = >>=-eq-ok (scan_png png) _ h1 in
    let (c, e3, h3) = >>=-eq-ok (usable_channels s) _ h2 in
    let (raw, e4, h4) = >>=-eq-ok (inflated (inflate s.packed)) _ h3 in
    let h5 =
      (>>=-eq-ok (ensure (leb ((s.width * c + 1) * s.height) (length raw)) "the PNG is truncated") _
        h4).2 in
    let (lines, e6, h6) = >>=-eq-ok (undo_rows raw c (s.width * c) s.height 0 []) _ h5 in
    let b = undo_rows-AreBytes raw c (s.width * c) s.height 0 [] lines tt e6 in
    let sized = usable-ok (known_channels s.color_type) s.width s.height c e3 in
    subst
      (λ (image : PngImage).
        (0 < image.width)
        × (0 < image.height)
        × (length image.pixels ≡ image.width * image.height * 4)
        × AreBytes image.pixels)
      (ok_inj h6)
      (
        sized.0,
        sized.1,
        length-expand lines c (s.width * s.height) 0,
        expand-AreBytes lines c (s.width * s.height) 0 b,
      )
