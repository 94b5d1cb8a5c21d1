-- ===== src/Oobclient/Digits.antt =====
-- The characters of `generateCorrelationID` of oobclient/client.go, where no index is out of range.
use Prim.Native.Nat.{bit_or}
use interactsh_lite.Correlation.{cid_alphabet, table}
use interactsh_lite.Oobclient.Cid.{
  item_at, encode, stamp, five_bits, prepend, character, characters, further,
}
use interactsh_lite.Prelude.Bits.{bit_or_shift_two, bit_or_shift_four, bit_or_low_four}
use interactsh_lite.Prelude.{
  ℕ, zero, suc, ◌+◌, ◌*◌, ◌/◌, ◌%◌, ◌^◌, ◌-◌, ◌<◌, ◌≤◌, Bool, true, false, ◌&&◌, ◌==◌, ==_iff,
  Option, none, some, [], ◌∷◌, ◌++◌, map, leb, get_or, if◌then◌else◌, Bytes, length, take, every,
  length-append, ◌≡◌, refl, ap, ◌∙◌, arith, Bool-cases, inl, inr,
}

all_below : ℕ → (ℕ → Bool) → Bool
all_below zero p = true
all_below (suc n) p = p n && all_below n p

all_below-lt : (n : ℕ) (p : ℕ → Bool) (x : ℕ) → all_below n p ≡ true → x < n → p x ≡ true
unfolding all_below
all_below-lt zero p x h lt = absurd (omega arith)
all_below-lt (suc n) p x h lt = ground (arith, h, all_below-lt n p x)

-- The character for five bits.
unfoldable pub digit : ℕ → ℕ
digit k = get_or 0 (encode k)

is_char : Option ℕ → ℕ → Bool
is_char none d = false
is_char (some c) d = c == d && table cid_alphabet d

is_char_lem :
    (o : Option ℕ) (d : ℕ) → is_char o d ≡ true → (o ≡ some d) × (table cid_alphabet d ≡ true)
unfolding is_char
is_char_lem none d h = absurd (ground (arith, h))
is_char_lem (some c) d h = (ap some ((==_iff c d).0 (ground (arith, h))), ground (arith, h))

digits : all_below 32 (λ k. is_char (encode k) (digit k)) ≡ true
unfolding all_below digit is_char
digits = refl

encode-lt : (k : ℕ) → k < 32 → (encode k ≡ some (digit k)) × (table cid_alphabet (digit k) ≡ true)
encode-lt k h =
    is_char_lem (encode k) (digit k)
      (all_below-lt 32 (λ k. is_char (encode k) (digit k)) k digits h)

abbrev byte_at : Bytes → ℕ → ℕ
byte_at raw i = get_or 0 (item_at i raw)

-- The five bits of character i, of bytes that reach that far.
unfoldable bits : Bytes → ℕ → ℕ
bits raw i =
    let byte = i * 5 / 8 in
    let bit = i * 5 % 8 in
    if leb bit 3
    then byte_at raw byte / 2 ^ (3 - bit) % 32
    else bit_or (byte_at raw byte * 2 ^ (bit - 3) % 256) (byte_at raw (byte + 1) / 2 ^ (11 - bit))
      % 32

unfoldable pub text : Bytes → ℕ → ℕ → Bytes
unfolding bits digit
text raw i zero = []
text raw i (suc n) = digit (bits raw i) ∷ text raw (suc i) n

item_at-lt : (i : ℕ) (raw : Bytes) → i < length raw → item_at i raw ≡ some (byte_at raw i)
item_at-lt i [] h = absurd (omega arith)
item_at-lt zero (c ∷ s) h = refl
item_at-lt (suc i) (c ∷ s) h = item_at-lt i s (omega arith)

five_bits-bits :
    (raw : Bytes) (i : ℕ) → i * 5 / 8 + 1 < length raw → five_bits raw i ≡ some (bits raw i)
unfolding five_bits bits
five_bits-bits raw i h =
    let one = item_at-lt (i * 5 / 8) raw (omega (arith, h)) in
    let two = item_at-lt (i * 5 / 8 + 1) raw h in
    elim (Bool-cases (leb (i * 5 % 8) 3)) [
      | inl e ↦ rw (e, one) refl
      | inr e ↦ rw (e, one, two) refl
    ]

bits-lt : (raw : Bytes) (i : ℕ) → bits raw i < 32
unfolding bits
bits-lt raw i = elim (Bool-cases (leb (i * 5 % 8) 3)) [
  | inl e ↦ rw e (omega arith)
  | inr e ↦ rw e (omega arith)
]

-- The 13 bytes reach as far as 20 characters.
pub characters-text :
    (raw : Bytes) (i n : ℕ)
    → length raw ≡ 13
    → i + n ≤ 20
    → characters raw i n ≡ some (text raw i n)
unfolding characters text
characters-text raw i zero l h = refl
characters-text raw i (suc n) l h =
    let five = five_bits-bits raw i (omega (arith, l, h)) in
    let one = (encode-lt (bits raw i) (bits-lt raw i)).0 in
    let rest = characters-text raw (suc i) n l (omega (arith, h)) in
    ap (λ o. prepend (character o) (characters raw (suc i) n)) five
    ∙ ap (λ o. prepend o (characters raw (suc i) n)) one
    ∙ ap (prepend (some (digit (bits raw i)))) rest

pub text-table :
    (raw : Bytes) (i n : ℕ)
    → (length (text raw i n) ≡ n) × (every (table cid_alphabet) (text raw i n) ≡ true)
unfolding text
text-table raw i zero = (refl, refl)
text-table raw i (suc n) =
    let c = (encode-lt (bits raw i) (bits-lt raw i)).1 in
    let rest = text-table raw (suc i) n in (omega (arith, rest.0), rw (c, rest.1))

abbrev pub further_text : Bytes → Bytes
further_text rb = map (λ b. digit (b % 32)) rb

pub further-text :
    (rb : Bytes)
    → (further rb ≡ some (further_text rb))
      × (length (further_text rb) ≡ length rb)
      × (every (table cid_alphabet) (further_text rb) ≡ true)
unfolding further
further-text [] = (refl, refl, refl)
further-text (b ∷ rb) =
    let c = encode-lt (b % 32) (omega arith) in
    let rest = further-text rb in
    (
      ap (λ o. prepend o (further rb)) c.0 ∙ ap (prepend (some (digit (b % 32)))) rest.0,
      omega (arith, rest.1),
      rw (c.1, rest.2),
    )

pub length-stamp : (ts : ℕ) (random : Bytes) → length random ≡ 12 → length (stamp ts random) ≡ 13
unfolding stamp
length-stamp ts (r0 ∷ r1 ∷ r2 ∷ rs) l = omega (arith, l, length-append rs (0 ∷ []))
length-stamp ts [] l = absurd (omega (arith, l))
length-stamp ts (r0 ∷ []) l = absurd (omega (arith, l))
length-stamp ts (r0 ∷ r1 ∷ []) l = absurd (omega (arith, l))

-- The four digits, of a stamped time.
module _ (ts r2 : ℕ) (rest : Bytes) (h : ts < 2 ^ 32) where
  abbrev pub stamped : Bytes
  stamped =
      (ts / 2 ^ 24) % 256
      ∷ (ts / 2 ^ 16) % 256
      ∷ bit_or (r2 % 16) ((ts / 2 ^ 8) % 256 / 16 * 16)
      ∷ rest

  digit_zero : bits stamped 0 ≡ ts / 2 ^ 12 / 2 ^ 15
  unfolding bits
  digit_zero = omega (arith, h)

  digit_one : bits stamped 1 ≡ ts / 2 ^ 12 / 2 ^ 10 % 32
  unfolding bits
  digit_one =
      let a = (ts / 2 ^ 24) % 256 in
      let b = (ts / 2 ^ 16) % 256 in
      let e : a * 4 % 256 ≡ a % 64 * 4 = omega arith in
      ap (λ k. bit_or k (b / 64) % 32) e
      ∙ omega (arith, h, bit_or_shift_two (a % 64) (b / 64) (omega arith))

  digit_two : bits stamped 2 ≡ ts / 2 ^ 12 / 2 ^ 5 % 32
  unfolding bits
  digit_two = omega (arith, h)

  digit_three : bits stamped 3 ≡ ts / 2 ^ 12 % 32
  unfolding bits
  digit_three =
      let b = (ts / 2 ^ 16) % 256 in
      let c = (ts / 2 ^ 8) % 256 / 16 in
      let e : b * 16 % 256 ≡ b % 16 * 16 = omega arith in
      let low : bit_or (r2 % 16) (c * 16) / 16 ≡ c =
        omega (arith, bit_or_low_four (r2 % 16) c (omega arith)) in
      ap (λ k. bit_or k (bit_or (r2 % 16) (c * 16) / 16) % 32) e
      ∙ ap (λ k. bit_or (b % 16 * 16) k % 32) low
      ∙ omega (arith, h, bit_or_shift_four (b % 16) c (omega arith))

  pub four_digits :
      (back : Bytes) (k : ℕ)
      → let t = ts / 2 ^ 12 in
        take 4 (text stamped 0 (suc (suc (suc (suc k)))) ++ back)
        ≡ digit (t / 2 ^ 15)
          ∷ digit (t / 2 ^ 10 % 32)
          ∷ digit (t / 2 ^ 5 % 32)
          ∷ digit (t % 32)
          ∷ []
  unfolding text
  four_digits back k = rw (← digit_zero, ← digit_one, ← digit_two, ← digit_three) refl
