-- ===== src/Oobclient/Generated.antt =====
-- The form of an ID of `generateCorrelationID` of oobclient/client.go.
use interactsh_lite.Correlation.{cid_alphabet, is_cid_base32, table}
use interactsh_lite.Oobclient.Cid.{
  CidResult, cid, stamp, five_bits, character, prepend, characters, generate_correlation_id,
}
use interactsh_lite.Oobclient.Digits.{
  digit, text, further_text, characters-text, text-table, further-text, length-stamp, stamped,
  four_digits,
}
use mathlib.Core.List.{append-nil}
use interactsh_lite.Prelude.{
  every-append, every-nonempty, ℕ, zero, suc, ◌-◌, ◌/◌, ◌%◌, ◌^◌, ◌≤◌, ◌<◌, min, true, false,
  Option, none, some, [], ◌∷◌, ◌++◌, ltb, Bytes, length, take, length-append, ◌≡◌, refl, sym, ap,
  ◌∙◌, arith, Bool-cases, Option-cases, inl, inr,
}

-- The four digits of a time in units of 2 ^ 12 seconds, the highest first.
abbrev pub time_digits : ℕ → Bytes
time_digits ts =
    let t = ts / 2 ^ 12 in
    digit (t / 2 ^ 15) ∷ digit (t / 2 ^ 10 % 32) ∷ digit (t / 2 ^ 5 % 32) ∷ digit (t % 32) ∷ []

-- An ID of this length over the alphabet that begins with this time.
abbrev pub IsGenerated : ℕ → ℕ → CidResult → Type 0
IsGenerated ts n (cid id) =
    (length id ≡ n) × (is_cid_base32 id ≡ true) × (take 4 id ≡ time_digits ts)
IsGenerated ts n _ = ⊥

time-text :
    (ts n : ℕ) (random back : Bytes)
    → ts < 2 ^ 32
    → 4 ≤ n
    → length random ≡ 12
    → take 4 (text (stamp ts random) 0 n ++ back) ≡ time_digits ts
unfolding stamp
time-text ts n [] back t h l = absurd (omega (arith, l))
time-text ts n (r0 ∷ []) back t h l = absurd (omega (arith, l))
time-text ts n (r0 ∷ r1 ∷ []) back t h l = absurd (omega (arith, l))
time-text ts n (r0 ∷ r1 ∷ r2 ∷ rs) back t h l =
    let raw = stamped ts r2 (rs ++ (0 ∷ [])) t in
    let k = n - 4 in
    let e : n ≡ suc (suc (suc (suc k))) = omega (arith, h) in
    ap (λ j. take 4 (text raw 0 j ++ back)) e ∙ four_digits ts r2 (rs ++ (0 ∷ [])) t back k

-- `generateCorrelationID`, asked for a length of at least 4, if it reads 12 random bytes and those
-- for the characters beyond 20: no index is out of range, and it returns an ID of that length over
-- the base-32 alphabet, whose first four characters are the Unix time (its low 32 bits) in units of
-- 2 ^ 12 seconds, as base-32 digits with the highest first.
pub generate_correlation_id-IsGenerated :
    (random rb : Bytes) (now n : ℕ)
    → 4 ≤ n
    → length random ≡ 12
    → length rb ≡ n - 20
    → IsGenerated (now % 2 ^ 32) n (generate_correlation_id (some random) (some rb) now n)
unfolding generate_correlation_id is_cid_base32
generate_correlation_id-IsGenerated random rb now n pos l h =
    let ts = now % 2 ^ 32 in
    let raw = stamp ts random in
    let front = text raw 0 (min n 20) in
    let back = further_text rb in
    let c = characters-text raw 0 (min n 20) (length-stamp ts random l) (omega arith) in
    let f = text-table raw 0 (min n 20) in
    let b = further-text rb in
    let time = time-text ts (min n 20) random in
    elim (Bool-cases (ltb 20 n)) [
      | inl e ↦
          let size : length (front ++ back) ≡ n =
            length-append front back ∙ ground (arith, f.0, b.1, h, e) in
          rw (generate_correlation_id, c, e, b.0)
            (
              size,
              every-nonempty (table cid_alphabet) (front ++ back) (omega (arith, size, pos))
                  (every-append _ front back f.1 b.2),
              time back (omega arith) (omega (arith, pos)) l,
            )
      | inr e ↦
          let size : length front ≡ n = ground (arith, f.0, e) in
          rw (generate_correlation_id, c, e)
            (
              size,
              every-nonempty (table cid_alphabet) front (omega (arith, size, pos)) f.1,
              ap (take 4) (sym (append-nil front)) ∙ time [] (omega arith) (omega (arith, pos)) l,
            )
    ]

length-prepend :
    (n : ℕ) (c : Option ℕ) (o : Option Bytes) (s : Bytes)
    → ((t : Bytes) → o ≡ some t → length t ≡ n)
    → prepend c o ≡ some s
    → length s ≡ suc n
length-prepend n (some c) (some t) s h e = ground (arith, h t refl, e)
length-prepend n none o s h e = absurd (ground (arith, e))
length-prepend n (some c) none s h e = absurd (ground (arith, e))

length-characters : (raw : Bytes) (i n : ℕ) (s : Bytes) → characters raw i n ≡ some s → length s ≡ n
unfolding characters
length-characters raw i zero s e = ground (arith, e)
length-characters raw i (suc n) s e =
    length-prepend n (character (five_bits raw i)) (characters raw (suc i) n) s
      (length-characters raw (suc i) n) e

-- An ID of at most 20 characters has the length asked for.
pub length-generate_correlation_id :
    (random more : Option Bytes) (now n : ℕ) (id : Bytes)
    → n ≤ 20
    → generate_correlation_id random more now n ≡ cid id
    → length id ≡ n
unfolding generate_correlation_id
length-generate_correlation_id none more now n id l e = absurd (ground (arith, e))
length-generate_correlation_id (some r) more now n id l e =
    let short : ltb 20 n ≡ false = ground (arith, l) in
    let cs = characters (stamp (now % 2 ^ 32) r) 0 (min n 20) in
    elim (Option-cases cs) [
      | inl x ↦ absurd (ground (arith, e, short, x))
      | inr (front, x) ↦
          ground
            (arith, e, short, l, x, length-characters (stamp (now % 2 ^ 32) r) 0 (min n 20) front x)
    ]
