-- ===== src/Tests/Totp.antt =====
-- The base32 of a secret as it is shown, and a window.
use qare.Prelude.{◌<◌, ◌≤◌, ◌+◌, ◌-◌, ◌*◌, arith, String, [], ◌∷◌, ◌≡◌, refl}
use qare.Fallible.{ok}
use qare.Totp.{indexes, decode_base32, totp_window, window_remaining}
use qare.Totp.Window.{totp_window-window_remaining}
use qare.Totp.Base32.{decode_base32-octets}

abbrev as_it_is : String → String
as_it_is s = s

known : indexes "NBSWY3DP" ≡ ok (13 ∷ 1 ∷ 18 ∷ 22 ∷ 24 ∷ 27 ∷ 3 ∷ 15 ∷ [])
unfolding indexes qare.Totp.known_index
known = refl

decode_base32-octets_example :
    decode_base32 as_it_is "NBSW Y3DP==" ≡ ok (104 ∷ 101 ∷ 108 ∷ 108 ∷ 111 ∷ [])
decode_base32-octets_example =
    decode_base32-octets as_it_is "NBSW Y3DP==" (13 ∷ 1 ∷ 18 ∷ 22 ∷ 24 ∷ 27 ∷ 3 ∷ 15 ∷ []) refl
      known

totp_window-window_remaining_example :
    (0 < window_remaining 30 59001)
    × (window_remaining 30 59001 ≤ 30 * 1000)
    × (totp_window 30 (59001 + window_remaining 30 59001) ≡ totp_window 30 59001 + 1)
    × (totp_window 30 (59001 + window_remaining 30 59001 - 1) ≡ totp_window 30 59001)
totp_window-window_remaining_example = totp_window-window_remaining 30 59001 (omega arith)
