-- ===== src/Correlation.antt =====
-- interactsh-srv/oobsrv/correlation.go: the search for registered correlation IDs in text. The
-- closures `lookup` and `onMatch` of the source act on variables around them; here those are a state.
pub mod Labels
pub mod Scan
pub mod Finds
pub mod Matches
pub mod Everywhere
pub mod BaseDn
mod Tests
use interactsh_lite.Prelude.Text.{Unicode, codes, to_lower, trim_space, cut, cut_suffix, fields}
use interactsh_lite.Prelude.{
  ℕ, zero, suc, ◌+◌, Bool, true, false, not, ◌&&◌, ◌||◌, Option, none, some, List, [], ◌∷◌, ◌++◌,
  map, ltb, ◌==◌, if◌then◌else◌, Bytes, equal, length, take, drop, any, every,
}

-- `oobclient.CIDEncodingAlphabet`.
abbrev pub cid_alphabet : Bytes
cid_alphabet = codes "0123456789abcdefghijklmnopqrstuv"

abbrev pub alphanumeric : Bytes
alphanumeric = codes "abcdefghijklmnopqrstuvwxyz0123456789"

-- The tables that `init` fills.
abbrev pub table : Bytes → ℕ → Bool
table cs c = any (λ a. a == c) cs

unfoldable pub is_cid_base32 : Bytes → Bool
is_cid_base32 s = not (equal s []) && every (table cid_alphabet) s

unfoldable pub is_alphanumeric : Bytes → Bool
is_alphanumeric s = not (equal s []) && every (table alphanumeric) s

abbrev pub min_nonce_length : ℕ
min_nonce_length = 3

pub record Match : Type 0 where
  pub unique_id : Bytes
  pub full_id : Bytes

-- The labels of `for remaining := input; remaining != "";`, with the rounds left.
unfoldable pub labels_from : ℕ → Bytes → List Bytes
labels_from zero remaining = []
labels_from (suc f) remaining =
    let (label, rest, _) = cut b'.' remaining in
    let others = labels_from f rest in if equal remaining [] then [] else label ∷ others

-- Each round takes a byte at least.
unfoldable pub labels : Bytes → List Bytes
unfolding labels_from
labels input = labels_from (length input) input

-- What follows a step is done unless the step returned.
abbrev pub go_on : {S : Type 0} → S × Bool → (S → S × Bool) → S × Bool
go_on r next = if r.1 then next r.0 else (r.0, false)

module _ {S : Type 0} (lookup : S → Bytes → Bool) (on_match : S → Bytes → Bytes → S × Bool) where
  -- `if lookup(candidate) { if !onMatch(candidate, label) { return } }`; false is the return.
  unfoldable pub visit : S → Bytes → Bytes → S × Bool
  visit s candidate label = if lookup s candidate then on_match s candidate label else (s, true)

  -- One round of the inner loop: the candidate and the nonce of a window.
  unfoldable pub try_window : ℕ → Bytes → Bytes → S → S × Bool
  unfolding visit
  try_window n window label s =
      let candidate = take n window in
      if not (is_cid_base32 candidate) || not (is_alphanumeric (drop n window))
      then (s, true)
      else visit s candidate label

  -- The windows of a label, from the position where `suffix` begins.
  unfoldable pub scan_windows : ℕ → Bytes → Bytes → S → S × Bool
  unfolding try_window
  scan_windows n label [] s = (s, true)
  scan_windows n label (c ∷ rest) s =
      if ltb (length (c ∷ rest)) (n + min_nonce_length)
      then (s, true)
      else go_on (try_window n (take (n + min_nonce_length) (c ∷ rest)) label s)
          (λ s'. scan_windows n label rest s')

  -- The first loop of `scanLabels`.
  unfoldable pub scan_long : ℕ → List Bytes → S → S × Bool
  unfolding scan_windows
  scan_long n [] s = (s, true)
  scan_long n (label ∷ ls) s =
      go_on
        (if ltb (length label) (n + min_nonce_length)
          then (s, true)
          else scan_windows n label label s)
        (λ s'. scan_long n ls s')

  -- The fallback to bare IDs.
  unfoldable pub scan_bare : ℕ → List Bytes → S → S × Bool
  unfolding visit
  scan_bare n [] s = (s, true)
  scan_bare n (label ∷ ls) s =
      go_on
        (if not (length label == n) || not (is_cid_base32 label)
          then (s, true)
          else visit s label label)
        (λ s'. scan_bare n ls s')

  unfoldable pub scan_labels : ℕ → Bytes → S → S
  unfolding scan_long scan_bare
  scan_labels n input s =
      (go_on (scan_long n (labels input) s) (λ s'. scan_bare n (labels input) s')).0

unfoldable pub matches_contain : List Match → Bytes → Bool
matches_contain ms id = any (λ m. equal m.unique_id id) ms

unfoldable pub extract_full_id : Bytes → List Bytes → Bytes
extract_full_id input [] = input
extract_full_id input (d ∷ ds) = elim (cut_suffix input (b'.' ∷ d)) [
  | none ↦ extract_full_id input ds
  | some rest ↦ rest
]

abbrev pub set_full_id : Bytes → List Match → List Match
set_full_id full [] = []
set_full_id full (m ∷ ms) = record m { full_id = full } ∷ set_full_id full ms

-- The `onMatch` of `MatchCorrelationID`.
unfoldable pub add_match : List Match → Bytes → Bytes → List Match × Bool
unfolding matches_contain
add_match ms candidate _ =
    if matches_contain ms candidate
    then (ms, true)
    else (ms ++ (record { unique_id = candidate; full_id = [] } ∷ []), true)

unfoldable pub match_correlation_id : Unicode → Bytes → ℕ → List Bytes → (Bytes → Bool) → List Match
unfolding scan_labels add_match extract_full_id
match_correlation_id u input n domains lookup =
    let lowered = to_lower u input in
    set_full_id (extract_full_id lowered domains)
      (scan_labels (λ _ c. lookup c) add_match n lowered [])

-- The window loop of `MatchCorrelationIDEverywhere`; `seen` holds the IDs of `matches`.
unfoldable pub scan_chunk : (Bytes → Bool) → ℕ → Bytes → List Match → List Match
unfolding matches_contain
scan_chunk lookup n [] ms = ms
scan_chunk lookup n (c ∷ rest) ms =
    let window = take (n + min_nonce_length) (c ∷ rest) in
    let candidate = take n window in
    let valid = is_cid_base32 candidate && is_alphanumeric (drop n window) in
    let others = scan_chunk lookup n rest (
      if valid && not (matches_contain ms candidate) && lookup candidate
      then ms ++ (record { unique_id = candidate; full_id = window } ∷ [])
      else ms) in
    if ltb (length (c ∷ rest)) (n + min_nonce_length) then ms else others

abbrev pub everywhere_delimiter : ℕ → Bool
everywhere_delimiter c = any (λ d. d == c) (b'.' ∷ b'\n' ∷ b'\t' ∷ b'"' ∷ b'\'' ∷ [])

abbrev pub scan_chunks : (Bytes → Bool) → ℕ → List Bytes → List Match → List Match
scan_chunks lookup n [] ms = ms
scan_chunks lookup n (c ∷ cs) ms = scan_chunks lookup n cs (scan_chunk lookup n c ms)

unfoldable pub match_correlation_id_everywhere : Unicode → Bytes → ℕ → (Bytes → Bool) → List Match
unfolding scan_chunk
match_correlation_id_everywhere u input n lookup =
    scan_chunks lookup n (fields everywhere_delimiter (to_lower u input)) []

-- The `lookup` and `onMatch` of one part of `MatchLDAPCorrelationID`.
unfoldable pub ldap_lookup : (Bytes → Bool) → List Match → List Match → Bytes → Bool
unfolding matches_contain
ldap_lookup lookup matches parts candidate =
    not (matches_contain matches candidate)
    && not (matches_contain parts candidate)
    && lookup candidate

unfoldable pub ldap_add : List Match → Bytes → Bytes → List Match × Bool
ldap_add parts candidate _ = (parts ++ (record { unique_id = candidate; full_id = [] } ∷ []), true)

abbrev pub ldap_delimiter : ℕ → Bool
ldap_delimiter c = c == b'=' || c == b','

-- The loop over the parts of a base DN.
unfoldable pub ldap_parts :
    Unicode → ℕ → List Bytes → (Bytes → Bool) → List Bytes → List Match → List Match
unfolding scan_labels ldap_lookup ldap_add extract_full_id
ldap_parts u n domains lookup [] ms = ms
ldap_parts u n domains lookup (p ∷ ps) ms =
    let part = to_lower u (trim_space u p) in
    let found = scan_labels (ldap_lookup lookup ms) ldap_add n part [] in
    ldap_parts u n domains lookup ps
      (if equal part [] then ms else ms ++ set_full_id (extract_full_id part domains) found)

unfoldable pub match_ldap_correlation_id :
    Unicode → Bytes → ℕ → List Bytes → (Bytes → Bool) → List Match
unfolding ldap_parts
match_ldap_correlation_id u base_dn n domains lookup =
    ldap_parts u n domains lookup (fields ldap_delimiter base_dn) []
