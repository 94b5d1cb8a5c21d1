-- ===== src/Correlation/Everywhere.antt =====
-- What `MatchCorrelationIDEverywhere` reports.
use interactsh_lite.Correlation.Matches.{IsReport, IsDistinct, IsDistinct-append}
use interactsh_lite.Correlation.Scan.{length-take_lt}
use interactsh_lite.Correlation.{
  Match, is_cid_base32, is_alphanumeric, min_nonce_length, matches_contain, scan_chunk, scan_chunks,
  everywhere_delimiter, match_correlation_id_everywhere,
}
use interactsh_lite.Prelude.Text.{Unicode, to_lower, fields}
use interactsh_lite.Prelude.{
  ℕ, ◌+◌, Bool, true, not, ◌&&◌, List, [], ◌∷◌, ◌++◌, Bytes, length, take, drop, ltb, ◌≡◌, refl,
  arith, inl, inr, Bool-cases, All, All-append, length-take,
}

-- The full ID is a window of the text: the ID and three alphanumeric bytes.
abbrev pub IsWindow : ℕ → Match → Type 0
IsWindow n m =
    (m.unique_id ≡ take n m.full_id)
    × (length m.full_id ≡ n + min_nonce_length)
    × (is_alphanumeric (drop n m.full_id) ≡ true)

abbrev pub ReportsWindows : ℕ → (Bytes → Bool) → List Match → Type 0
ReportsWindows n lookup ms = All (λ m. IsReport n lookup m × IsWindow n m) ms × IsDistinct ms

module _ (lookup : Bytes → Bool) (n : ℕ) where
  scan_chunk-ReportsWindows :
      (s : Bytes) (ms : List Match)
      → ReportsWindows n lookup ms
      → ReportsWindows n lookup (scan_chunk lookup n s ms)
  unfolding scan_chunk
  scan_chunk-ReportsWindows [] ms h = h
  scan_chunk-ReportsWindows (c ∷ rest) ms h =
      let window = take (n + min_nonce_length) (c ∷ rest) in
      let id = take n window in
      let m : Match = record { unique_id = id; full_id = window } in
      let valid = is_cid_base32 id && is_alphanumeric (drop n window) in
      let adds = valid && not (matches_contain ms id) && lookup id in
      elim (Bool-cases (ltb (length (c ∷ rest)) (n + min_nonce_length))) [
        | inl short ↦ rw short h
        | inr long ↦ rw long (elim (Bool-cases adds) [
          | inr e ↦ rw e (scan_chunk-ReportsWindows rest ms h)
          | inl e ↦ rw e (
              scan_chunk-ReportsWindows rest (ms ++ (m ∷ [])) (
                All-append (λ x. IsReport n lookup x × IsWindow n x) ms (m ∷ []) h.0
                    (
                      (
                        record {
                          length-id = length-take_lt n min_nonce_length (c ∷ rest) long;
                          valid = ground (arith, e);
                          registered = ground (arith, e);
                        },
                        (
                          refl,
                          ground (arith, long, length-take (n + min_nonce_length) (c ∷ rest)),
                          ground (arith, e),
                        ),
                      ),
                      tt,
                    ),
                IsDistinct-append ms m h.1 (ground (arith, e)),
              ))
        ])
      ]

  scan_chunks-ReportsWindows :
      (cs : List Bytes) (ms : List Match)
      → ReportsWindows n lookup ms
      → ReportsWindows n lookup (scan_chunks lookup n cs ms)
  scan_chunks-ReportsWindows [] ms h = h
  scan_chunks-ReportsWindows (c ∷ cs) ms h =
      scan_chunks-ReportsWindows cs (scan_chunk lookup n c ms) (scan_chunk-ReportsWindows c ms h)

-- The scan of a whole text reports registered IDs of the given length over the base-32
-- alphabet only, each once, with a window of the text as the full ID: the ID and three
-- alphanumeric bytes.
pub match_correlation_id_everywhere-ReportsWindows :
    (u : Unicode) (input : Bytes) (n : ℕ) (lookup : Bytes → Bool)
    → ReportsWindows n lookup (match_correlation_id_everywhere u input n lookup)
unfolding match_correlation_id_everywhere
match_correlation_id_everywhere-ReportsWindows u input n lookup =
    scan_chunks-ReportsWindows lookup n (fields everywhere_delimiter (to_lower u input)) [] (tt, tt)
