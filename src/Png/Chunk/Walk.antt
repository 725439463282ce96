-- ===== src/Png/Chunk/Walk.antt =====
-- A reader takes a written chunk back, and stands at what follows it.
use qare.Prelude.{
  ℕ, ◌+◌, ◌<◌, ◌≤◌, true, List, [], ◌∷◌, ◌++◌, length, take, drop, leb, ◌≡◌, refl, sym, ap, ◌∙◌,
  arith, append_assoc,
}
use qare.Fallible.{ok}
use qare.Png.Bytes.{read_u32, u32, read_u32-u32, write_u32-ok, take-append, drop-append, drop-drop}
use qare.Png.Chunk.{crc32, png_chunk, read_chunk, after_chunk}

-- The bytes of a chunk.
abbrev pub chunk_bytes : List ℕ → List ℕ → List ℕ
chunk_bytes kind body = u32 (length body) ++ (kind ++ (body ++ u32 (crc32 (kind ++ body))))

crc32-lt : (bs : List ℕ) → crc32 bs < 0x100000000
unfolding crc32
crc32-lt bs = omega arith

pub png_chunk-ok :
    (kind body : List ℕ)
    → length body < 0x100000000
    → png_chunk kind body ≡ ok (chunk_bytes kind body)
unfolding png_chunk
png_chunk-ok kind body h =
    rw (write_u32-ok (length body) h)
      (rw (write_u32-ok (crc32 (kind ++ body)) (crc32-lt (kind ++ body))) refl)

pub read_chunk-as :
    (rest : List ℕ) (size : ℕ) (kind body : List ℕ)
    → read_u32 rest ≡ size
    → take 4 (drop 4 rest) ≡ kind
    → take size (drop 8 rest) ≡ body
    → size ≤ length body
    → read_chunk rest ≡ ok (record { kind = kind; body = body })
unfolding read_chunk
read_chunk-as rest size kind body p q r h =
    let t : leb size (length body) ≡ true = ground arith in rw p (rw q (rw r (rw t refl)))

module _ (a b c d : ℕ) (body rest : List ℕ) where
  sum : List ℕ
  sum = u32 (crc32 (a ∷ b ∷ c ∷ d ∷ body))

  pub read_chunk-chunk_bytes :
      length body < 0x100000000
      → read_chunk (chunk_bytes (a ∷ b ∷ c ∷ d ∷ []) body ++ rest)
        ≡ ok (record { kind = a ∷ b ∷ c ∷ d ∷ []; body = body })
  unfolding sum
  read_chunk-chunk_bytes h =
      read_chunk-as (chunk_bytes (a ∷ b ∷ c ∷ d ∷ []) body ++ rest) (length body)
        (a ∷ b ∷ c ∷ d ∷ []) body
        (read_u32-u32 (length body) (a ∷ b ∷ c ∷ d ∷ ((body ++ sum) ++ rest)) h) refl
        (ap (take (length body)) (append_assoc body sum rest) ∙ take-append body (sum ++ rest))
        (omega arith)

  pub after_chunk-chunk_bytes :
      after_chunk
        (record { kind = a ∷ b ∷ c ∷ d ∷ []; body = body })
        (chunk_bytes (a ∷ b ∷ c ∷ d ∷ []) body ++ rest)
      ≡ rest
  unfolding after_chunk sum
  after_chunk-chunk_bytes =
      let all = chunk_bytes (a ∷ b ∷ c ∷ d ∷ []) body ++ rest in
      let n : 12 + length body ≡ 8 + (length body + 4) = omega arith in
      ap (λ k. drop k all) n
      ∙ sym (drop-drop 8 (length body + 4) all)
      ∙ sym (drop-drop (length body) 4 ((body ++ sum) ++ rest))
      ∙ ap (λ t. drop 4 (drop (length body) t)) (append_assoc body sum rest)
      ∙ ap (drop 4) (drop-append body (sum ++ rest))
