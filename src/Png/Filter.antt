-- ===== src/Png/Filter.antt =====
-- The scanline filters that `decodePng` of packages/core/src/png.ts undoes.
use qare.Prelude.{
  ℕ, zero, suc, ◌+◌, ◌-◌, ◌*◌, ◌/◌, ◌%◌, ◌&&◌, List, [], ◌∷◌, ◌++◌, nat_eq, leb, ltb, if◌then◌else◌,
  ◌≡◌, refl,
}
use qare.Fallible.{Fallible, ok, threw, ◌>>=◌}
use qare.Png.Bytes.{nth}

-- `Math.abs(a - b)`.
abbrev distance : ℕ → ℕ → ℕ
distance a b = (a - b) + (b - a)

-- The estimate `left + up - upLeft` may be negative: both sides of a difference have `upLeft` added.
unfoldable pub paeth : ℕ → ℕ → ℕ → ℕ
paeth left up up_left =
    let by_left = distance (left + up) (left + up_left) in
    let by_up = distance (left + up) (up + up_left) in
    let by_up_left = distance (left + up) (up_left + up_left) in
    if leb by_left by_up && leb by_left by_up_left
    then left
    else if leb by_up by_up_left
    then up
    else up_left

unfoldable pub predicted : ℕ → ℕ → ℕ → ℕ → Fallible ℕ
predicted filter left up up_left =
    if nat_eq filter 0
    then ok 0
    else if nat_eq filter 1
    then ok left
    else if nat_eq filter 2
    then ok up
    else if nat_eq filter 3
    then ok ((left + up) / 2)
    else if nat_eq filter 4
    then ok (paeth left up up_left)
    else threw "the PNG names a scanline filter which does not exist"

module _ (raw : List ℕ) (channels stride : ℕ) where
  -- The bytes of row `y` from `x` on, of which `n` are left, put after the ones undone so far.
  unfoldable pub undo_row : ℕ → ℕ → ℕ → ℕ → List ℕ → Fallible (List ℕ)
  undo_row y filter zero x lines = ok lines
  undo_row y filter (suc n) x lines =
      let from = y * (stride + 1) + 1 in
      let to = y * stride in
      let left = if leb channels x then nth lines (to + x - channels) else 0 in
      let up = if ltb 0 y then nth lines (to + x - stride) else 0 in
      let up_left =
        if ltb 0 y && leb channels x then nth lines (to + x - stride - channels) else 0 in
      predicted filter left up up_left >>= λ p.
      undo_row y filter n (x + 1) (lines ++ ((nth raw (from + x) + p) % 256) ∷ [])

  -- The rows from `y` on, of which `n` are left.
  unfoldable pub undo_rows : ℕ → ℕ → List ℕ → Fallible (List ℕ)
  undo_rows zero y lines = ok lines
  undo_rows (suc n) y lines =
      undo_row y (nth raw (y * (stride + 1))) stride 0 lines >>= λ done. undo_rows n (y + 1) done

module _ (lines : List ℕ) (channels : ℕ) where
  -- Four bytes of the pixel at `index`: red, green, blue and alpha.
  unfoldable pub pixel_at : ℕ → List ℕ
  pixel_at index =
      let at = index * channels in
      let grey = leb channels 2 in
      nth lines at
      ∷ nth lines (if grey then at else at + 1)
      ∷ nth lines (if grey then at else at + 2)
      ∷ (if nat_eq channels 4
          then nth lines (at + 3)
          else if nat_eq channels 2
          then nth lines (at + 1)
          else 255)
      ∷ []

  unfoldable pub expand : ℕ → ℕ → List ℕ
  expand zero index = []
  expand (suc n) index = pixel_at index ++ expand n (index + 1)

paeth_runs : paeth 100 50 120 ≡ 50
unfolding paeth
paeth_runs = refl
