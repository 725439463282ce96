-- ===== src/Totp/Window.antt =====
-- The windows of time-based codes.
use qare.Prelude.{ℕ, ◌+◌, ◌-◌, ◌*◌, ◌/◌, ◌%◌, ◌<◌, ◌≤◌, ◌≡◌, arith}
use native.Mathlib.Nat.{mod-add-div', mod-lt, div-eq_of_lt-le}
use qare.Png.Bytes.{suc_mul}
use qare.Totp.{totp_window, window_remaining}

-- The time that is left of a window is above 0 and no more than a period, and the next window begins
-- when it has passed, and not a millisecond before, for a period above 0.
pub totp_window-window_remaining :
    (period at : ℕ)
    → 0 < period
    → (0 < window_remaining period at)
      × (window_remaining period at ≤ period * 1000)
      × (totp_window period (at + window_remaining period at) ≡ totp_window period at + 1)
      × (totp_window period (at + window_remaining period at - 1) ≡ totp_window period at)
unfolding totp_window window_remaining
totp_window-window_remaining period at h =
    let m = period * 1000 in
    let q = at / m in
    let r : at % m + q * m ≡ at = mod-add-div' at m in
    let pos : 0 < m = omega arith in
    let lt : at % m < m = mod-lt at pos in
    let one : (q + 1) * m ≡ q * m + m = suc_mul q m in
    let two : (q + 1 + 1) * m ≡ (q + 1) * m + m = suc_mul (q + 1) m in
    (
      omega (arith, lt),
      omega (arith, lt),
      div-eq_of_lt-le {k = q + 1} m (omega (arith, r, lt, one, two))
          (omega (arith, r, lt, one, two)),
      div-eq_of_lt-le {k = q} m (omega (arith, r, lt, one)) (omega (arith, r, lt, one)),
    )
