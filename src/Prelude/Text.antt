-- ===== src/Prelude/Text.antt =====
-- What the program uses of Go's `strings`, on byte strings. Where Go's result depends on the
-- Unicode tables, for text with a byte of 0x80 or more, it comes from the record `Unicode`.
use Prim.Native.Char.{code}
use Prim.Native.Nat.{ℕ, ◌+◌, ◌-◌}
use Prim.Native.String.{String}
use mathlib.Core.Bool.{Bool, true, false, ◌&&◌, ◌||◌}
use mathlib.Core.List.{List, [], ◌∷◌, ◌++◌, map, reverse}
use mathlib.Core.Option.{Option, none, some}
use interactsh_lite.Prelude.Lists.{Bytes, equal, length, take, drop, every}
use interactsh_lite.Prelude.Tests.{◌==◌, leb, ltb, if◌then◌else◌}

-- A text literal as bytes.
abbrev pub codes : String → Bytes
codes String.[] = []
codes (String.◌∷◌ c s) = code c ∷ codes s

-- `strings.ToLower`, `strings.ToUpper` and `strings.TrimSpace` of text that is not all ASCII.
pub record Unicode : Type 0 where
  pub lower : Bytes → Bytes
  pub upper : Bytes → Bytes
  pub trim : Bytes → Bytes

abbrev pub no_unicode : Unicode
no_unicode = record { lower = λ s. s; upper = λ s. s; trim = λ s. s }

unfoldable pub is_ascii : Bytes → Bool
is_ascii s = every (λ c. ltb c 0x80) s

unfoldable pub lower_byte : ℕ → ℕ
lower_byte c = if leb b'A' c && leb c b'Z' then c + 32 else c

pub upper_byte : ℕ → ℕ
upper_byte c = if leb b'a' c && leb c b'z' then c - 32 else c

unfoldable pub to_lower : Unicode → Bytes → Bytes
unfolding is_ascii lower_byte
to_lower u s = if is_ascii s then map lower_byte s else u.lower s

unfoldable pub to_upper : Unicode → Bytes → Bytes
unfolding is_ascii upper_byte
to_upper u s = if is_ascii s then map upper_byte s else u.upper s

abbrev is_space : ℕ → Bool
is_space c = (leb 9 c && leb c 13) || c == b' '

unfoldable pub trim_left : (ℕ → Bool) → Bytes → Bytes
trim_left p [] = []
trim_left p (c ∷ s) = if p c then trim_left p s else c ∷ s

-- `strings.TrimRight` with a cutset.
unfoldable pub trim_right : (ℕ → Bool) → Bytes → Bytes
unfolding trim_left
trim_right p s = reverse (trim_left p (reverse s))

unfoldable pub trim_space : Unicode → Bytes → Bytes
unfolding trim_left is_ascii
trim_space u s = if is_ascii s then trim_right is_space (trim_left is_space s) else u.trim s

-- `strings.Cut` at a byte: the text before and after the first `sep`, and whether it was there.
unfoldable pub cut : ℕ → Bytes → Bytes × Bytes × Bool
cut sep [] = ([], [], false)
cut sep (c ∷ s) =
    let (before, after, found) = cut sep s in
    if c == sep then ([], s, true) else (c ∷ before, after, found)

-- `strings.CutSuffix`: the text before the suffix, if it is there.
unfoldable pub cut_suffix : Bytes → Bytes → Option Bytes
cut_suffix s suffix =
    let n = length s - length suffix in
    if leb (length suffix) (length s) && equal (drop n s) suffix then some (take n s) else none

-- `strings.HasSuffix`.
unfoldable pub ends_with : Bytes → Bytes → Bool
ends_with s suffix =
    leb (length suffix) (length s) && equal (drop (length s - length suffix) s) suffix

-- `strings.FieldsFunc`: the maximal runs of bytes that are no delimiter; `run` is the run read so far.
pub fields_from : (ℕ → Bool) → Bytes → Bytes → List Bytes
fields_from p run [] = if equal run [] then [] else reverse run ∷ []
fields_from p run (c ∷ s) =
    let rest = fields_from p (if p c then [] else c ∷ run) s in
    if p c then (if equal run [] then rest else reverse run ∷ rest) else rest

unfoldable pub fields : (ℕ → Bool) → Bytes → List Bytes
unfolding fields_from equal
fields p s = fields_from p [] s

-- `strings.Split` at a byte.
unfoldable pub split : ℕ → Bytes → List Bytes
split sep [] = [] ∷ []
split sep (c ∷ s) =
    let rest = split sep s in
    if c == sep then [] ∷ rest else elim rest [ [] ↦ (c ∷ []) ∷ [] | w ∷ ws ↦ (c ∷ w) ∷ ws ]

-- `strings.Join`.
unfoldable pub join : Bytes → List Bytes → Bytes
join sep [] = []
join sep (x ∷ []) = x
join sep (x ∷ y ∷ ys) = x ++ (sep ++ join sep (y ∷ ys))

-- `strings.EqualFold` of a text and an ASCII word with no k or s: no other letter folds to one
-- of the others.
unfoldable pub equal_fold : Bytes → Bytes → Bool
unfolding lower_byte
equal_fold s word = equal (map lower_byte s) (map lower_byte word)
