-- ===== src/Oobclient/Cid.antt =====
-- `generateCorrelationID` of oobclient/client.go. For a byte, `b & 0x1F` and `b & 0x0F` are the
-- remainders by 32 and 16, and `b & 0xF0` is `b / 16 * 16`.
use Prim.Native.Nat.{bit_or}
use interactsh_lite.Correlation.{cid_alphabet}
use mathlib.Core.Option
use interactsh_lite.Prelude.{
  ℕ, zero, suc, ◌+◌, ◌-◌, ◌*◌, ◌/◌, ◌%◌, ◌^◌, min, Option, none, some, [], ◌∷◌, ◌++◌, ltb, leb,
  if◌then◌else◌, Bytes,
}

-- What `generateCorrelationID` does: an ID, the error of a read, or a panic of an index.
pub data CidResult : Type 0 where
  cid : Bytes → CidResult
  unread : CidResult
  out_of_range : CidResult

-- The item at an index; none is the panic.
abbrev pub item_at : ℕ → Bytes → Option ℕ
item_at i [] = none
item_at zero (c ∷ s) = some c
item_at (suc i) (c ∷ s) = item_at i s

abbrev pub encode : ℕ → Option ℕ
encode k = item_at k cid_alphabet

-- The 13 bytes: the time in the first 20 bits, then what was read, then a zero.
unfoldable pub stamp : ℕ → Bytes → Bytes
stamp ts (r0 ∷ r1 ∷ r2 ∷ rs) =
    (ts / 2 ^ 24) % 256
    ∷ (ts / 2 ^ 16) % 256
    ∷ bit_or (r2 % 16) ((ts / 2 ^ 8) % 256 / 16 * 16)
    ∷ (rs ++ (0 ∷ []))
stamp ts raw = raw ++ (0 ∷ [])

-- The five bits of character i.
unfoldable pub five_bits : Bytes → ℕ → Option ℕ
five_bits raw i =
    let byte = i * 5 / 8 in
    let bit = i * 5 % 8 in
    if leb bit 3
    then Option.map (λ b. b / 2 ^ (3 - bit) % 32) (item_at byte raw)
    else elim (item_at byte raw) [
      | none ↦ none
      | some b ↦
          Option.map (λ b'. bit_or (b * 2 ^ (bit - 3) % 256) (b' / 2 ^ (11 - bit)) % 32)
            (item_at (byte + 1) raw)
    ]

-- A character in front of others.
abbrev pub prepend : Option ℕ → Option Bytes → Option Bytes
prepend (some c) (some s) = some (c ∷ s)
prepend _ _ = none

abbrev pub character : Option ℕ → Option ℕ
character none = none
character (some k) = encode k

-- The loop: the characters from i on.
unfoldable pub characters : Bytes → ℕ → ℕ → Option Bytes
unfolding five_bits
characters raw i zero = some []
characters raw i (suc n) = prepend (character (five_bits raw i)) (characters raw (suc i) n)

-- The loop over the further random bytes.
unfoldable pub further : Bytes → Option Bytes
further [] = some []
further (b ∷ rb) = prepend (encode (b % 32)) (further rb)

-- `random` and `more` are what the two reads return, `now` is the Unix time.
unfoldable pub generate_correlation_id : Option Bytes → Option Bytes → ℕ → ℕ → CidResult
unfolding stamp characters further
generate_correlation_id none more now length = unread
generate_correlation_id (some random) more now length =
    elim (characters (stamp (now % 2 ^ 32) random) 0 (min length 20)) [
      | none ↦ out_of_range
      | some front ↦
          if ltb 20 length
          then elim more [
            | none ↦ unread
            | some rb ↦ elim (further rb) [ none ↦ out_of_range | some back ↦ cid (front ++ back) ]
          ]
          else cid front
    ]
