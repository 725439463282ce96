-- ===== src/CellWire/Dns.antt =====
-- `readDnsQuestion` and `dnsReply` of packages/core/src/cell-wire.ts. A name and a buffer
-- are lists of bytes, and an address is a string.
pub mod Reply
use Prim.Native.Char.{code}
use Prim.Native.String
use qare.Prelude.{
  ℕ, String, zero, suc, ◌+◌, ◌-◌, ◌*◌, ◌/◌, ◌%◌, Bool, true, false, ◌&&◌, ◌||◌, not, Option, none,
  some, List, [], ◌∷◌, ◌++◌, length, map, take, drop, leb, ltb, nat_eq, if◌then◌else◌,
}
use qare.Png.Bytes.{nth}
use qare.CellWire.{host_name, u16_at}

pub record DnsQuestion : Type 0 where
  pub id : ℕ
  pub name : Option (List ℕ)
  pub type_ : ℕ
  pub question : List ℕ
  pub is_recursive : Bool

-- `answer`: the text of an address, an empty answer, or no such name.
pub data DnsAnswer : Type 0 where
  address : String → DnsAnswer
  empty nxdomain : DnsAnswer

-- The labels, and what is left of the message at the byte that ends them. Each round takes a byte.
unfoldable pub read_labels : ℕ → List ℕ → Option (List (List ℕ) × List ℕ)
read_labels zero rest = none
read_labels (suc n) [] = none
read_labels (suc n) (size ∷ rest) =
    let later = read_labels n (drop size rest) in
    if nat_eq size 0
    then some ([], size ∷ rest)
    else if leb size 63 && leb size (length rest)
    then (elim later [ none ↦ none | some (labels, after) ↦ some (take size rest ∷ labels, after) ])
    else none

-- `labels.join('.')`.
unfoldable pub join_labels : List (List ℕ) → List ℕ
join_labels [] = []
join_labels (label ∷ []) = label
join_labels (label ∷ next ∷ labels) = label ++ 46 ∷ join_labels (next ∷ labels)

unfoldable pub question_of : List ℕ → Option (List (List ℕ) × List ℕ) → Option DnsQuestion
question_of message none = none
question_of message (some (labels, rest)) =
    if leb 5 (length rest)
    then some (record {
      id = u16_at 0 message;
      name = host_name (join_labels labels);
      type_ = u16_at 1 rest;
      question = take (length message - 12 - length rest + 5) (drop 12 message);
      is_recursive = nat_eq (u16_at 2 message / 0x100 % 2) 1;
    })
    else none

-- No response, and the opcode of a standard query.
abbrev pub is_query : ℕ → Bool
is_query flags = ltb flags 0x8000 && nat_eq (flags / 0x800 % 16) 0

unfoldable pub read_dns_question : List ℕ → Option DnsQuestion
read_dns_question message =
    if leb 12 (length message) && is_query (u16_at 2 message) && nat_eq (u16_at 4 message) 1
    then question_of message (read_labels (length message) (drop 12 message))
    else none

-- `writeUInt16BE` of a number of 16 bits.
abbrev pub u16 : ℕ → List ℕ
u16 n = (n / 256 % 256) ∷ (n % 256) ∷ []

abbrev is_nxdomain : DnsAnswer → Bool
is_nxdomain nxdomain = true
is_nxdomain _ = false

-- The bits stand apart, so `|` adds them.
abbrev pub reply_flags : Bool → DnsAnswer → ℕ
reply_flags is_recursive answer =
    0x8080 + (if is_recursive then 0x100 else 0) + (if is_nxdomain answer then 3 else 0)

abbrev pub answers : DnsAnswer → ℕ
answers (address dotted) = 1
answers _ = 0

-- `text.split('.')`, with the part that is being read.
split_dots : String → String → List String
split_dots cur String.[] = cur ∷ []
split_dots cur (String.◌∷◌ c s) =
    let next = split_dots "" s in
    let longer = split_dots (String.◌++◌ cur (String.◌∷◌ c "")) s in
    if nat_eq (code c) 46 then cur ∷ next else longer

-- `to_byte` is the byte that `Buffer.from` keeps of what `Number` makes of a text.
module _ (to_byte : String → ℕ) where
  unfoldable pub answer_record : DnsAnswer → List ℕ
  unfolding split_dots
  answer_record (address dotted) =
      0xc0 ∷ 0x0c ∷ 0 ∷ 1 ∷ 0 ∷ 1 ∷ 0 ∷ 0 ∷ 0 ∷ 0 ∷ 0 ∷ 4 ∷ map to_byte (split_dots "" dotted)
  answer_record _ = []

  unfoldable pub dns_reply : DnsQuestion → DnsAnswer → List ℕ
  dns_reply query answer =
      (u16 query.id
        ++ (u16 (reply_flags query.is_recursive answer)
            ++ (u16 1 ++ (u16 (answers answer) ++ 0 ∷ 0 ∷ 0 ∷ 0 ∷ []))))
      ++ (query.question ++ answer_record answer)
