-- ===== src/Correlation/Tests.antt =====
-- A host name with a registered ID of four characters.
use interactsh_lite.Correlation.Matches.{
  Reports, match_correlation_id-Reports, match_correlation_id_complete,
}
use interactsh_lite.Correlation.BaseDn.{match_ldap_correlation_id_complete}
use interactsh_lite.Correlation.Labels.{without_last_empty, labels_from-split}
use interactsh_lite.Correlation.{
  labels_from, match_ldap_correlation_id, is_cid_base32, is_alphanumeric, labels,
  match_correlation_id, matches_contain, extract_full_id,
}
use interactsh_lite.Prelude.Text.{
  codes, no_unicode, to_lower, cut, fields, split, trim_space, trim_right,
}
use interactsh_lite.Prelude.{arith, Bool, true, ◌≡◌, refl, List, [], ◌∷◌, Bytes, equal, inl, inr}

abbrev registered : Bytes → Bool
registered id = equal id (codes "c0de")

abbrev host : Bytes
host = codes "a.C0DExyz1.oob.test"

abbrev domains : List Bytes
domains = codes "oob.test" ∷ []

match_correlation_id-Reports_example :
    Reports 4 registered
      (extract_full_id (to_lower no_unicode host) domains)
      (match_correlation_id no_unicode host 4 domains registered)
match_correlation_id-Reports_example =
    match_correlation_id-Reports no_unicode host 4 domains registered

match_correlation_id_complete_example :
    matches_contain (match_correlation_id no_unicode host 4 domains registered) (codes "c0de")
    ≡ true
unfolding labels to_lower cut equal is_cid_base32 is_alphanumeric
match_correlation_id_complete_example =
    match_correlation_id_complete no_unicode host (codes "c0dexyz1") (codes "c0de") 4 domains
      registered refl (inr (inl refl))
      (inl (record {
        before = [];
        nonce = codes "xyz";
        after = codes "1";
        splits = refl;
        length-candidate = refl;
        length-nonce = refl;
        valid_candidate = refl;
        valid_nonce = refl;
      }))

match_ldap_correlation_id_complete_example :
    matches_contain
      (match_ldap_correlation_id no_unicode (codes "dc=test, dc=C0DE.oob") 4 domains registered)
      (codes "c0de")
    ≡ true
unfolding labels to_lower cut equal is_cid_base32 is_alphanumeric fields trim_space trim_right
match_ldap_correlation_id_complete_example =
    match_ldap_correlation_id_complete no_unicode 4 domains registered
      (codes "dc=test, dc=C0DE.oob") (codes "C0DE.oob") (codes "c0de") (codes "c0de") refl
      (inr (inr (inr (inl refl)))) (inl refl) (inr (refl, refl, refl))

labels_from-split_example :
    labels_from 8 (codes "a..b.") ≡ without_last_empty (split b'.' (codes "a..b."))
labels_from-split_example = labels_from-split 8 (codes "a..b.") (omega arith)
