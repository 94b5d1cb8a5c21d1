-- ===== src/Correlation/BaseDn.antt =====
-- What `MatchLDAPCorrelationID` reports of a base DN.
use interactsh_lite.Correlation.Finds.{HasWindow, scan_labels_finds}
use interactsh_lite.Correlation.Matches.{
  IsReport, IsDistinct-append, Reported, contain-append, set_full_id-contain,
}
use interactsh_lite.Correlation.Scan.{In, scan_labels_inv}
use interactsh_lite.Correlation.{
  Match, is_cid_base32, labels, visit, scan_labels, matches_contain, extract_full_id, set_full_id,
  ldap_lookup, ldap_add, ldap_delimiter, ldap_parts, match_ldap_correlation_id,
}
use mathlib.Core.List.{append_assoc, append-nil}
use interactsh_lite.Prelude.Text.{Unicode, to_lower, trim_space, fields}
use interactsh_lite.Prelude.{
  ℕ, Bool, true, false, ◌||◌, List, [], ◌∷◌, ◌++◌, Bytes, equal, length, ◌≡◌, refl, ◌∙◌, subst,
  arith, ◌⊎◌, inl, inr, Bool-cases, equal_iff, equal_refl, All-append,
}

contain-append_all :
    (ms ps : List Match) (id : Bytes)
    → matches_contain (ms ++ ps) id ≡ (matches_contain ms id || matches_contain ps id)
unfolding matches_contain
contain-append_all [] ps id = refl
contain-append_all (m ∷ ms) ps id = ground (arith, contain-append_all ms ps id)

relabel_contain :
    (full id : Bytes) (ms ps : List Match)
    → matches_contain (ms ++ set_full_id full ps) id ≡ matches_contain (ms ++ ps) id
relabel_contain full id ms ps = ground (
  arith,
  contain-append_all ms ps id,
  contain-append_all ms (set_full_id full ps) id,
  set_full_id-contain full id ps,
)

-- The full ID is no part of a report.
relabel :
    (n : ℕ) (lookup : Bytes → Bool) (full : Bytes) (ms ps : List Match)
    → Reported n lookup (ms ++ ps)
    → Reported n lookup (ms ++ set_full_id full ps)
relabel n lookup full [] [] r = r
relabel n lookup full [] (p ∷ ps) ((h, hs), (d, ds)) =
    let (rs, es) = relabel n lookup full [] ps (hs, ds) in
    (
      (record { length-id = h.length-id; valid = h.valid; registered = h.registered }, rs),
      (set_full_id-contain full p.unique_id ps ∙ d, es),
    )
relabel n lookup full (m ∷ ms) ps ((h, hs), (d, ds)) =
    let (rs, es) = relabel n lookup full ms ps (hs, ds) in
    ((h, rs), (relabel_contain full m.unique_id ms ps ∙ d, es))

module _ (n : ℕ) (lookup : Bytes → Bool) (ms : List Match) where
  -- The matches so far and those of the part are no ID twice.
  abbrev Fresh : List Match → Type 0
  Fresh parts = Reported n lookup (ms ++ parts)

  ldap_add-Fresh :
      (parts : List Match) (c label : Bytes)
      → length c ≡ n
      → is_cid_base32 c ≡ true
      → ldap_lookup lookup ms parts c ≡ true
      → Fresh parts
      → Fresh (ldap_add parts c label).0
  unfolding ldap_add ldap_lookup
  ldap_add-Fresh parts c label l v k (a, d) =
      let m : Match = record { unique_id = c; full_id = [] } in
      let is : IsReport n lookup m = record {
        length-id = l;
        valid = v;
        registered = ground (arith, k);
      } in
      let new : matches_contain (ms ++ parts) c ≡ false =
        ground (arith, k, contain-append_all ms parts c) in
      subst (Reported n lookup) (append_assoc ms parts (m ∷ [])) (
        All-append (IsReport n lookup) (ms ++ parts) (m ∷ []) a (is, tt),
        IsDistinct-append (ms ++ parts) m d new,
      )

  Has : Bytes → List Match → Type 0
  Has id parts = matches_contain (ms ++ parts) id ≡ true

  ldap_add-Has_kept :
      (id : Bytes) (parts : List Match) (c label : Bytes)
      → Has id parts
      → Has id (ldap_add parts c label).0
  unfolding ldap_add Has
  ldap_add-Has_kept id parts c label h = ground (
    arith,
    h,
    contain-append_all ms parts id,
    contain-append_all ms (parts ++ (record { unique_id = c; full_id = [] } ∷ [])) id,
    contain-append parts (record { unique_id = c; full_id = [] }) id,
  )

  ldap_add-Has :
      (id : Bytes) (r : lookup id ≡ true) (parts : List Match) (label : Bytes)
      → Has id (visit (ldap_lookup lookup ms) ldap_add parts id label).0
  unfolding visit ldap_add ldap_lookup Has
  ldap_add-Has id r parts label = ground (
    arith,
    r,
    contain-append_all ms parts id,
    contain-append_all ms (parts ++ (record { unique_id = id; full_id = [] } ∷ [])) id,
    contain-append parts (record { unique_id = id; full_id = [] }) id,
    equal_refl id,
  )

  abbrev found_in : Unicode → List Bytes → Bytes → List Match
  found_in u domains part =
      ms
      ++ set_full_id (extract_full_id part domains)
          (scan_labels (ldap_lookup lookup ms) ldap_add n part [])

  found_in-Reported :
      (u : Unicode) (domains : List Bytes) (part : Bytes)
      → Reported n lookup ms
      → Reported n lookup (found_in u domains part)
  found_in-Reported u domains part r = relabel n lookup (extract_full_id part domains) ms _ (
      scan_labels_inv (ldap_lookup lookup ms) ldap_add n Fresh ldap_add-Fresh part []
        (rw append-nil r))

  found_in_kept :
      (u : Unicode) (domains : List Bytes) (part id : Bytes)
      → matches_contain ms id ≡ true
      → matches_contain (found_in u domains part) id ≡ true
  found_in_kept u domains part id h = ground (
    arith,
    h,
    contain-append_all ms
        (set_full_id (extract_full_id part domains)
          (scan_labels (ldap_lookup lookup ms) ldap_add n part []))
        id,
  )

  found_in_finds :
      (u : Unicode) (domains : List Bytes) (part label id : Bytes)
      → lookup id ≡ true
      → In label (labels part)
      → HasWindow n label id ⊎ ((label ≡ id) × (length id ≡ n) × (is_cid_base32 id ≡ true))
      → matches_contain (found_in u domains part) id ≡ true
  unfolding Has ldap_add
  found_in_finds u domains part label id r i h =
      relabel_contain (extract_full_id part domains) id ms _
      ∙ (scan_labels_finds (ldap_lookup lookup ms) ldap_add n (Has id) id (λ s c l. refl)
          (ldap_add-Has_kept id) (ldap_add-Has id r) part label [] i h)

module _ (u : Unicode) (n : ℕ) (domains : List Bytes) (lookup : Bytes → Bool) where
  ldap_parts-Reported :
      (ps : List Bytes) (ms : List Match)
      → Reported n lookup ms
      → Reported n lookup (ldap_parts u n domains lookup ps ms)
  unfolding ldap_parts
  ldap_parts-Reported [] ms r = r
  ldap_parts-Reported (p ∷ ps) ms r =
      let part = to_lower u (trim_space u p) in
      elim (Bool-cases (equal part [])) [
        | inl e ↦ rw e (ldap_parts-Reported ps ms r)
        | inr e ↦ rw e (
            ldap_parts-Reported ps (found_in n lookup ms u domains part)
              (found_in-Reported n lookup ms u domains part r))
      ]

  ldap_parts_kept :
      (ps : List Bytes) (ms : List Match) (id : Bytes)
      → matches_contain ms id ≡ true
      → matches_contain (ldap_parts u n domains lookup ps ms) id ≡ true
  unfolding ldap_parts
  ldap_parts_kept [] ms id h = h
  ldap_parts_kept (p ∷ ps) ms id h =
      let part = to_lower u (trim_space u p) in
      elim (Bool-cases (equal part [])) [
        | inl e ↦ rw e (ldap_parts_kept ps ms id h)
        | inr e ↦ rw e (
            ldap_parts_kept ps (found_in n lookup ms u domains part) id
              (found_in_kept n lookup ms u domains part id h))
      ]

  no_label : (part label : Bytes) → equal part [] ≡ true → In label (labels part) → ⊥
  unfolding labels
  no_label [] label e i = i
  no_label (c ∷ part) label e i = ground (arith, e, equal_iff (c ∷ part) [])

  ldap_parts_finds :
      (ps : List Bytes) (ms : List Match) (p label id : Bytes)
      → lookup id ≡ true
      → In p ps
      → In label (labels (to_lower u (trim_space u p)))
      → HasWindow n label id ⊎ ((label ≡ id) × (length id ≡ n) × (is_cid_base32 id ≡ true))
      → matches_contain (ldap_parts u n domains lookup ps ms) id ≡ true
  unfolding ldap_parts
  ldap_parts_finds [] ms p label id r i l h = absurd i
  ldap_parts_finds (q ∷ ps) ms p label id r (inl same) l h =
      let part = to_lower u (trim_space u q) in
      let l' : In label (labels part) =
        subst (λ x. In label (labels (to_lower u (trim_space u x)))) same l in
      elim (Bool-cases (equal part [])) [
        | inl e ↦ absurd (no_label part label e l')
        | inr e ↦ rw e (
            ldap_parts_kept ps (found_in n lookup ms u domains part) id
              (found_in_finds n lookup ms u domains part label id r l' h))
      ]
  ldap_parts_finds (q ∷ ps) ms p label id r (inr i) l h =
      let part = to_lower u (trim_space u q) in
      elim (Bool-cases (equal part [])) [
        | inl e ↦ rw e (ldap_parts_finds ps ms p label id r i l h)
        | inr e ↦
            rw e (ldap_parts_finds ps (found_in n lookup ms u domains part) p label id r i l h)
      ]

  -- `MatchLDAPCorrelationID` reports registered IDs of the given length over the base-32 alphabet
  -- only, each once, however many parts of the base DN hold it.
  pub match_ldap_correlation_id-Reported :
      (base_dn : Bytes) → Reported n lookup (match_ldap_correlation_id u base_dn n domains lookup)
  unfolding match_ldap_correlation_id
  match_ldap_correlation_id-Reported base_dn =
      ldap_parts-Reported (fields ldap_delimiter base_dn) [] (tt, tt)

  -- It misses none: a registered ID is reported if a part of the base DN, trimmed and lowered, has
  -- a label that is the ID, or holds it with three alphanumeric bytes behind it.
  pub match_ldap_correlation_id_complete :
      (base_dn part label id : Bytes)
      → lookup id ≡ true
      → In part (fields ldap_delimiter base_dn)
      → In label (labels (to_lower u (trim_space u part)))
      → HasWindow n label id ⊎ ((label ≡ id) × (length id ≡ n) × (is_cid_base32 id ≡ true))
      → matches_contain (match_ldap_correlation_id u base_dn n domains lookup) id ≡ true
  unfolding match_ldap_correlation_id
  match_ldap_correlation_id_complete base_dn part label id r i l h =
      ldap_parts_finds (fields ldap_delimiter base_dn) [] part label id r i l h
