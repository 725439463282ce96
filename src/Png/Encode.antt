-- ===== src/Png/Encode.antt =====
-- `encodePng` of packages/core/src/png.ts.
use qare.Prelude.{ℕ, zero, suc, ◌+◌, ◌*◌, List, [], ◌∷◌, ◌++◌, length, drop, leb}
use qare.Fallible.{Fallible, ok, ◌>>=◌, ◌>>◌, ensure}
use qare.Png.Bytes.{write_u32, padded}
use qare.Png.Chunk.{png_signature, header_kind, data_kind, end_kind, png_chunk}
use qare.Png.Decode.{PngImage}

-- The rows from `y` on, of which `n` are left: a zero, for no filter, and the row's bytes. `copy`
-- throws for a start after the end of the pixels.
unfoldable pub raw_rows : List ℕ → ℕ → ℕ → ℕ → Fallible (List ℕ)
raw_rows pixels stride zero y = ok []
raw_rows pixels stride (suc n) y = do
  ensure (leb (y * stride) (length pixels)) "ERR_OUT_OF_RANGE"
  rest ← raw_rows pixels stride n (y + 1)
  ok (0 ∷ (padded stride (drop (y * stride) pixels) ++ rest))

unfoldable pub encode_png : (List ℕ → List ℕ) → PngImage → Fallible (List ℕ)
encode_png deflate image = do
  width ← write_u32 image.width
  height ← write_u32 image.height
  raw ← raw_rows image.pixels (image.width * 4) image.height 0
  head ← png_chunk header_kind (width ++ (height ++ 8 ∷ 6 ∷ 0 ∷ 0 ∷ 0 ∷ []))
  body ← png_chunk data_kind (deflate raw)
  last ← png_chunk end_kind []
  ok (png_signature ++ (head ++ (body ++ last)))
