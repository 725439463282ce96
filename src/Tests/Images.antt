-- ===== src/Tests/Images.antt =====
-- A PNG of two pixels, with a compression that leaves the bytes as they are.
use qare.Prelude.{ℕ, ◌<◌, ◌*◌, some, List, [], ◌∷◌, ◌≡◌, refl, arith}
use qare.Fallible.{Fallible, ok}
use qare.Png.Bytes.{AreBytes}
use qare.Png.Decode.{PngImage, PngScan, nothing_scanned, scan, decode_png}
use qare.Png.Decode.Total.{scan_ends}
use qare.Png.Decode.Bounds.{decode_png_sized}
use qare.Png.Encode.{encode_png}
use qare.Png.RoundTrip.{decode_png-encode_png}

abbrev two_pixels : List ℕ
two_pixels = 255 ∷ 0 ∷ 7 ∷ 255 ∷ 1 ∷ 2 ∷ 3 ∷ 4 ∷ []

abbrev image : PngImage
image = record { width = 2; height = 1; pixels = two_pixels }

abbrev kept : List ℕ → List ℕ
kept raw = raw

decode_png-encode_png_example :
    (png : List ℕ) × (encode_png kept image ≡ ok png) × (decode_png some png ≡ ok image)
decode_png-encode_png_example =
    decode_png-encode_png some kept 2 1 two_pixels (λ raw. refl) (omega arith) (omega arith)
      (omega arith) (omega arith) refl (omega arith) (omega arith)

scan_ends_example : (r : Fallible PngScan) × (scan 4 (0 ∷ 0 ∷ 1 ∷ []) nothing_scanned ≡ some r)
scan_ends_example = scan_ends 4 (0 ∷ 0 ∷ 1 ∷ []) nothing_scanned (omega arith)

abbrev grey_png : List ℕ
grey_png =
    0x89 ∷ 0x50 ∷ 0x4e ∷ 0x47 ∷ 0x0d ∷ 0x0a ∷ 0x1a ∷ 0x0a ∷ 0 ∷ 0 ∷ 0 ∷ 13 ∷ 73 ∷ 72 ∷ 68 ∷ 82 ∷ 0
    ∷ 0 ∷ 0 ∷ 2 ∷ 0 ∷ 0 ∷ 0 ∷ 1 ∷ 8 ∷ 0 ∷ 0 ∷ 0 ∷ 0 ∷ 0 ∷ 0 ∷ 0 ∷ 0 ∷ 0 ∷ 0 ∷ 0 ∷ 3 ∷ 73 ∷ 68 ∷ 65
    ∷ 84 ∷ 1 ∷ 9 ∷ 5 ∷ 0 ∷ 0 ∷ 0 ∷ 0 ∷ []

decoded_grey :
    decode_png some grey_png
    ≡ ok (record { width = 2; height = 1; pixels = 9 ∷ 9 ∷ 9 ∷ 255 ∷ 14 ∷ 14 ∷ 14 ∷ 255 ∷ [] })
unfolding decode_png qare.Png.Decode.scan_png scan qare.Png.Decode.scan_round
    qare.Png.Decode.scan_chunk qare.Png.Chunk.read_chunk qare.Png.Bytes.read_u32
    qare.Png.Decode.go_on qare.Png.Decode.take_chunk qare.Png.Decode.read_header
    qare.Png.Chunk.after_chunk qare.Png.Decode.usable qare.Png.Decode.inflated
    qare.Png.Filter.undo_rows qare.Png.Filter.undo_row qare.Png.Filter.predicted
    qare.Png.Filter.expand qare.Png.Filter.pixel_at
decoded_grey = refl

decode_png_sized_example :
    (0 < 2)
    × (0 < 1)
    × (◌≡◌ {A = ℕ} 8 (2 * 1 * 4))
    × AreBytes (9 ∷ 9 ∷ 9 ∷ 255 ∷ 14 ∷ 14 ∷ 14 ∷ 255 ∷ [])
decode_png_sized_example =
    decode_png_sized some grey_png
      (record { width = 2; height = 1; pixels = 9 ∷ 9 ∷ 9 ∷ 255 ∷ 14 ∷ 14 ∷ 14 ∷ 255 ∷ [] })
      decoded_grey
