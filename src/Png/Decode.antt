-- ===== src/Png/Decode.antt =====
-- `decodePng` of packages/core/src/png.ts.
pub mod Total
pub mod Bounds
use qare.Prelude.{
  ℕ, zero, suc, ◌+◌, ◌*◌, Bool, true, false, ◌&&◌, ◌||◌, not, Option, none, some, List, [], ◌∷◌,
  ◌++◌, length, take, drop, leb, ltb, nat_eq, is_some, if◌then◌else◌,
}
use qare.Fallible.{Fallible, ok, threw, ◌>>=◌, ◌>>◌, ensure}
use qare.Png.Bytes.{nth, same_bytes, read_u32}
use qare.Png.Chunk.{png_signature, header_kind, data_kind, end_kind, Chunk, read_chunk, after_chunk}
use qare.Png.Filter.{undo_rows, expand}

pub record PngImage : Type 0 where
  pub width : ℕ
  pub height : ℕ
  pub pixels : List ℕ

-- `CHANNELS`.
abbrev pub channels_of : ℕ → Option ℕ
channels_of color_type =
    if nat_eq color_type 0
    then some 1
    else if nat_eq color_type 2
    then some 3
    else if nat_eq color_type 4
    then some 2
    else if nat_eq color_type 6
    then some 4
    else none

-- What the loop over the chunks has read: no colour type is -1 in the source.
pub record PngScan : Type 0 where
  pub width : ℕ
  pub height : ℕ
  pub color_type : Option ℕ
  pub packed : List ℕ

unfoldable pub read_header : List ℕ → PngScan → Fallible PngScan
read_header body s = do
  ensure (leb 13 (length body)) "the PNG header is truncated"
  ensure (nat_eq (nth body 8) 8) "a PNG of another bit depth is not read here, only 8"
  ensure (is_some (channels_of (nth body 9))) "a PNG of this colour type is not read here"
  ensure (nat_eq (nth body 12) 0) "an interlaced PNG is not read here"
  ok (record {
    width = read_u32 body;
    height = read_u32 (drop 4 body);
    color_type = some (nth body 9);
    packed = s.packed;
  })

unfoldable pub take_chunk : Chunk → PngScan → Fallible PngScan
take_chunk c s =
    if same_bytes c.kind header_kind
    then read_header c.body s
    else if same_bytes c.kind data_kind
    then ok (record {
      width = s.width;
      height = s.height;
      color_type = s.color_type;
      packed = s.packed ++ c.body;
    })
    else ok s

-- How one round of the loop over the chunks ends: the loop ends, or it goes on with what is left of the
-- file at the next offset.
pub data Round : Type 0 where
  done : Fallible PngScan → Round
  more : List ℕ → PngScan → Round

unfoldable pub go_on : List ℕ → Fallible PngScan → Round
go_on rest (threw why) = done (threw why)
go_on rest (ok s) = more rest s

unfoldable pub scan_chunk : List ℕ → PngScan → Fallible Chunk → Round
scan_chunk rest s (threw why) = done (threw why)
scan_chunk rest s (ok c) =
    if same_bytes c.kind end_kind then done (ok s) else go_on (after_chunk c rest) (take_chunk c s)

unfoldable pub scan_round : List ℕ → PngScan → Round
scan_round rest s = if leb 8 (length rest) then scan_chunk rest s (read_chunk rest) else done (ok s)

-- It runs out of rounds, `none`, only where they are no more than the bytes.
unfoldable pub scan : ℕ → List ℕ → PngScan → Option (Fallible PngScan)
scan zero rest s = none
scan (suc n) rest s = elim (scan_round rest s) [
  | done r ↦ some r
  | more left taken ↦ scan n left taken
]

abbrev pub nothing_scanned : PngScan
nothing_scanned = record { width = 0; height = 0; color_type = none; packed = [] }

unfoldable pub scan_png : List ℕ → Fallible PngScan
scan_png png = elim (scan (suc (length png)) (drop 8 png) nothing_scanned) [
  | none ↦ threw "too few rounds"
  | some r ↦ r
]

abbrev pub known_channels : Option ℕ → Option ℕ
known_channels none = none
known_channels (some color_type) = channels_of color_type

-- `CHANNELS[colorType]`, where the header is usable.
unfoldable pub usable : Option ℕ → ℕ → ℕ → Fallible ℕ
usable none width height = threw "the PNG carries no usable header"
usable (some channels) width height = do
  ensure (not (nat_eq width 0 || nat_eq height 0)) "the PNG carries no usable header"
  ok channels

abbrev pub usable_channels : PngScan → Fallible ℕ
usable_channels s = usable (known_channels s.color_type) s.width s.height

unfoldable pub inflated : Option (List ℕ) → Fallible (List ℕ)
inflated none = threw "the PNG's pixel data could not be read"
inflated (some raw) = ok raw

unfoldable pub decode_png : (List ℕ → Option (List ℕ)) → List ℕ → Fallible PngImage
decode_png inflate png = do
  ensure (leb 8 (length png) && same_bytes (take 8 png) png_signature) "the file is not a PNG"
  s ← scan_png png
  channels ← usable_channels s
  raw ← inflated (inflate s.packed)
  ensure (leb ((s.width * channels + 1) * s.height) (length raw)) "the PNG is truncated"
  lines ← undo_rows raw channels (s.width * channels) s.height 0 []
  ok (record {
    width = s.width;
    height = s.height;
    pixels = expand lines channels (s.width * s.height) 0;
  })
