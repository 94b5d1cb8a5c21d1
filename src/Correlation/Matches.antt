-- ===== src/Correlation/Matches.antt =====
-- What the three matchers report.
use interactsh_lite.Correlation.Finds.{HasWindow, scan_labels_finds}
use interactsh_lite.Correlation.Scan.{In, scan_labels_inv}
use interactsh_lite.Correlation.{
  Match, is_cid_base32, labels, visit, matches_contain, extract_full_id, set_full_id, add_match,
  match_correlation_id,
}
use interactsh_lite.Prelude.Text.{Unicode, to_lower}
use interactsh_lite.Prelude.{
  ℕ, Bool, true, false, ◌||◌, List, [], ◌∷◌, ◌++◌, Bytes, equal, length, ◌≡◌, refl, ◌∙◌, arith, ◌⊎◌,
  inl, inr, Bool-cases, equal_iff, equal_refl, All, All-append,
}

-- A reported ID is a registered correlation ID.
pub record IsReport (n : ℕ) (lookup : Bytes → Bool) (m : Match) : Type 0 where
  pub length-id : length m.unique_id ≡ n
  pub valid : is_cid_base32 m.unique_id ≡ true
  pub registered : lookup m.unique_id ≡ true

-- No ID is reported twice.
abbrev pub IsDistinct : List Match → Type 0
IsDistinct [] = Unit {0}
IsDistinct (m ∷ ms) = (matches_contain ms m.unique_id ≡ false) × IsDistinct ms

pub contain-append :
    (ms : List Match) (m : Match) (id : Bytes)
    → matches_contain (ms ++ (m ∷ [])) id ≡ (matches_contain ms id || equal m.unique_id id)
unfolding matches_contain
contain-append [] m id = ground arith
contain-append (x ∷ ms) m id = ground (arith, contain-append ms m id)

pub IsDistinct-append :
    (ms : List Match) (m : Match)
    → IsDistinct ms
    → matches_contain ms m.unique_id ≡ false
    → IsDistinct (ms ++ (m ∷ []))
unfolding matches_contain
IsDistinct-append [] m d h = (refl, tt)
IsDistinct-append (x ∷ ms) m d h = (
  ground (
    arith,
    d.0,
    contain-append ms m x.unique_id,
    equal_iff x.unique_id m.unique_id,
    equal_iff m.unique_id x.unique_id,
  ),
  IsDistinct-append ms m d.1 (ground arith),
)

abbrev pub Reported : ℕ → (Bytes → Bool) → List Match → Type 0
Reported n lookup ms = All (IsReport n lookup) ms × IsDistinct ms

add_match-Reported :
    (n : ℕ) (lookup : Bytes → Bool) (ms : List Match) (c label : Bytes)
    → length c ≡ n
    → is_cid_base32 c ≡ true
    → lookup c ≡ true
    → Reported n lookup ms
    → Reported n lookup (add_match ms c label).0
unfolding add_match
add_match-Reported n lookup ms c label l v r p = elim (Bool-cases (matches_contain ms c)) [
  | inl e ↦ rw e p
  | inr e ↦
      let m : Match = record { unique_id = c; full_id = [] } in
      rw e (
        All-append (IsReport n lookup) ms (m ∷ []) p.0
            (record { length-id = l; valid = v; registered = r }, tt),
        IsDistinct-append ms m p.1 e,
      )
]

add_match_on : (ms : List Match) (c label : Bytes) → (add_match ms c label).1 ≡ true
unfolding add_match
add_match_on ms c label = ground arith

add_match_keeps :
    (id : Bytes) (ms : List Match) (c label : Bytes)
    → matches_contain ms id ≡ true
    → matches_contain (add_match ms c label).0 id ≡ true
unfolding add_match
add_match_keeps id ms c label h =
    ground (arith, contain-append ms (record { unique_id = c; full_id = [] }) id)

add_match_has :
    (lookup : Bytes → Bool) (id : Bytes) (r : lookup id ≡ true) (ms : List Match) (label : Bytes)
    → matches_contain (visit (λ _ c. lookup c) add_match ms id label).0 id ≡ true
unfolding visit add_match
add_match_has lookup id r ms label =
    ground (arith, contain-append ms (record { unique_id = id; full_id = [] }) id, equal_refl id)

pub set_full_id-contain :
    (full id : Bytes) (ms : List Match)
    → matches_contain (set_full_id full ms) id ≡ matches_contain ms id
unfolding matches_contain
set_full_id-contain full id [] = refl
set_full_id-contain full id (m ∷ ms) = ground (arith, set_full_id-contain full id ms)

-- Each match is a report, carries this full ID, and is the only one of its ID.
abbrev pub Reports : ℕ → (Bytes → Bool) → Bytes → List Match → Type 0
Reports n lookup full ms = All (λ m. IsReport n lookup m × (m.full_id ≡ full)) ms × IsDistinct ms

pub set_full_id-Reports :
    (n : ℕ) (lookup : Bytes → Bool) (full : Bytes) (ms : List Match)
    → Reported n lookup ms
    → Reports n lookup full (set_full_id full ms)
set_full_id-Reports n lookup full [] p = (tt, tt)
set_full_id-Reports n lookup full (m ∷ ms) ((h, hs), (d, ds)) =
    let (rs, es) = set_full_id-Reports n lookup full ms (hs, ds) in
    (
      ((record { length-id = h.length-id; valid = h.valid; registered = h.registered }, refl), rs),
      (set_full_id-contain full m.unique_id ms ∙ d, es),
    )

-- `MatchCorrelationID` reports registered IDs of the given length over the base-32 alphabet only,
-- each once, all with the full ID of the lowered input.
pub match_correlation_id-Reports :
    (u : Unicode) (input : Bytes) (n : ℕ) (domains : List Bytes) (lookup : Bytes → Bool)
    → Reports n lookup
        (extract_full_id (to_lower u input) domains)
        (match_correlation_id u input n domains lookup)
unfolding match_correlation_id
match_correlation_id-Reports u input n domains lookup = set_full_id-Reports n lookup _ _ (
    scan_labels_inv (λ _ c. lookup c) add_match n (Reported n lookup) (add_match-Reported n lookup)
      (to_lower u input) [] (tt, tt))

-- It misses none: a registered ID is reported if some label of the lowered input is the ID, or
-- holds it with three alphanumeric bytes behind it.
pub match_correlation_id_complete :
    (u : Unicode) (input label id : Bytes) (n : ℕ) (domains : List Bytes) (lookup : Bytes → Bool)
    → lookup id ≡ true
    → In label (labels (to_lower u input))
    → HasWindow n label id ⊎ ((label ≡ id) × (length id ≡ n) × (is_cid_base32 id ≡ true))
    → matches_contain (match_correlation_id u input n domains lookup) id ≡ true
unfolding match_correlation_id
match_correlation_id_complete u input label id n domains lookup r i h =
    set_full_id-contain _ id _
    ∙ (scan_labels_finds (λ _ c. lookup c) add_match n (λ ms. matches_contain ms id ≡ true) id
        add_match_on (add_match_keeps id) (add_match_has lookup id r) (to_lower u input) label [] i
        h)
