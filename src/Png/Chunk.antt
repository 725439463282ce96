-- ===== src/Png/Chunk.antt =====
-- The chunks of packages/core/src/png.ts: the checksum, `pngChunk`, and how a reader takes the next.
pub mod Walk
use Prim.Native.Nat.{bit_xor}
use qare.Prelude.{
  ℕ, zero, suc, ◌+◌, ◌*◌, ◌/◌, ◌%◌, Bool, true, false, List, [], ◌∷◌, ◌++◌, length, take, drop, leb,
  codes, nat_eq, if◌then◌else◌, ◌≡◌, refl,
}
use qare.Fallible.{Fallible, ok, threw, ◌>>=◌, ◌>>◌, ensure}
use qare.Png.Bytes.{read_u32, write_u32, same_bytes}

abbrev pub png_signature : List ℕ
png_signature = 0x89 ∷ 0x50 ∷ 0x4e ∷ 0x47 ∷ 0x0d ∷ 0x0a ∷ 0x1a ∷ 0x0a ∷ []

abbrev pub header_kind : List ℕ
header_kind = codes "IHDR"

abbrev pub data_kind : List ℕ
data_kind = codes "IDAT"

abbrev pub end_kind : List ℕ
end_kind = codes "IEND"

-- `CRC_TABLE[index]`, after some of its eight rounds.
unfoldable pub crc_rounds : ℕ → ℕ → ℕ
crc_rounds zero value = value
crc_rounds (suc bits) value =
    crc_rounds bits (if nat_eq (value % 2) 1 then bit_xor 0xedb88320 (value / 2) else value / 2)

unfoldable pub crc_loop : ℕ → List ℕ → ℕ
crc_loop crc [] = crc
crc_loop crc (byte ∷ bytes) =
    crc_loop (bit_xor (crc_rounds 8 (bit_xor crc byte % 256)) (crc / 256)) bytes

unfoldable pub crc32 : List ℕ → ℕ
crc32 bytes = bit_xor (crc_loop 0xffffffff bytes) 0xffffffff % 0x100000000

unfoldable pub png_chunk : List ℕ → List ℕ → Fallible (List ℕ)
png_chunk kind body = do
  size ← write_u32 (length body)
  checksum ← write_u32 (crc32 (kind ++ body))
  ok (size ++ (kind ++ (body ++ checksum)))

pub record Chunk : Type 0 where
  pub kind : List ℕ
  pub body : List ℕ

-- The chunk at an offset: what is left of the file there, of which there are at least eight bytes.
unfoldable pub read_chunk : List ℕ → Fallible Chunk
read_chunk rest = do
  let size = read_u32 rest
  let body = take size (drop 8 rest)
  ensure (leb size (length body)) "the PNG is truncated inside its chunk"
  ok (record { kind = take 4 (drop 4 rest); body = body })

-- `offset += 12 + length`.
unfoldable pub after_chunk : Chunk → List ℕ → List ℕ
after_chunk c rest = drop (12 + length c.body) rest

end_checksum : crc32 end_kind ≡ 0xae426082
unfolding crc32 crc_loop crc_rounds
end_checksum = refl
