-- ===== src/Png/Decode/Total.antt =====
-- The loop over the chunks of `decodePng` ends.
use qare.Prelude.{ℕ, zero, suc, ◌+◌, ◌≤◌, ◌<◌, some, List, length, ◌≡◌, refl, arith}
use qare.Fallible.{Fallible, ok, threw}
use qare.Png.Bytes.{length-drop}
use qare.Png.Chunk.{Chunk, read_chunk, after_chunk}
use qare.Png.Decode.{PngScan, Round, done, more, go_on, scan_chunk, scan_round, take_chunk, scan}

length-after_chunk :
    (c : Chunk) (rest : List ℕ) → 8 ≤ length rest → length (after_chunk c rest) < length rest
unfolding after_chunk
length-after_chunk c rest h = omega (arith, length-drop (12 + length c.body) rest)

go_on-more :
    (rest left : List ℕ) (m : Fallible PngScan) (taken : PngScan)
    → go_on rest m ≡ more left taken
    → left ≡ rest
unfolding go_on
go_on-more rest left (threw why) taken e = absurd (ground arith)
go_on-more rest left (ok s) taken e = ground arith

scan_chunk-more :
    (rest left : List ℕ) (s taken : PngScan) (m : Fallible Chunk)
    → 8 ≤ length rest
    → scan_chunk rest s m ≡ more left taken
    → length left < length rest
unfolding scan_chunk
scan_chunk-more rest left s taken (threw why) h e = absurd (ground arith)
scan_chunk-more rest left s taken (ok c) h e = ground (
  arith,
  go_on-more (after_chunk c rest) left (take_chunk c s) taken,
  length-after_chunk c rest h,
)

scan_round-more :
    (rest left : List ℕ) (s taken : PngScan)
    → scan_round rest s ≡ more left taken
    → length left < length rest
unfolding scan_round
scan_round-more rest left s taken e =
    ground (arith, scan_chunk-more rest left s taken (read_chunk rest))

round_ends :
    (n : ℕ) (r : Round)
    → ((left : List ℕ) (taken : PngScan)
        → r ≡ more left taken
        → (o : Fallible PngScan) × (scan n left taken ≡ some o))
    → (o : Fallible PngScan) × (elim r [ done o ↦ some o | more left taken ↦ scan n left taken ]
        ≡ some o)
round_ends n (done o) f = (o, refl)
round_ends n (more left taken) f = f left taken refl

-- The loop over the chunks of a file ends, with an error or with what was read, within as many rounds
-- as there are bytes and one more.
pub scan_ends :
    (n : ℕ) (rest : List ℕ) (s : PngScan)
    → length rest < n
    → (r : Fallible PngScan) × (scan n rest s ≡ some r)
unfolding scan
scan_ends zero rest s h = absurd (omega arith)
scan_ends (suc n) rest s h =
    round_ends n (scan_round rest s)
      (λ left taken e. scan_ends n left taken (omega (arith, scan_round-more rest left s taken e)))
