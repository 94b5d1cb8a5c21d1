-- ===== src/Server/Capture.antt =====
-- What a capture stores.
use interactsh_lite.Correlation.{Match, matches_contain}
use interactsh_lite.Correlation.Matches.{IsDistinct, match_correlation_id-Reports}
use interactsh_lite.Correlation.Everywhere.{match_correlation_id_everywhere-ReportsWindows}
use interactsh_lite.SharedBucket.{append}
use mathlib.Core.Option
use interactsh_lite.Crypto.{Ctr, encrypt_interaction_block}
use interactsh_lite.Server.{
  Server, tld_bucket, capture_wildcard, capture_matches, capture_interaction, Interaction, Library,
  Meets, with_match, store_match, store_matched_interactions,
}
use interactsh_lite.Storage.{MemoryStorage, touch_if_sliding}
use interactsh_lite.Storage.Access.{append_interaction}
use interactsh_lite.Storage.Consistent.{IsConsistent, IsValid}
use mathlib.Core.List.{append-nil, append_assoc}
use interactsh_lite.Prelude.{
  ℕ, true, false, not, ◌&&◌, Option, none, some, List, [], ◌∷◌, ◌++◌, if◌then◌else◌, Bytes, equal,
  equal_iff, lookup, lookup-insert, ◌↔◌, ltb, length, ◌≡◌, ◌≢◌, refl, sym, subst, ap, ◌∙◌, arith,
  Bool-cases, Option-cases, inl, inr, ==_iff,
}

-- What is stored for a match in the session with the key block: the encrypted interaction, if it
-- can be marshalled and encrypted.
abbrev pub stored_for : {H : Type 0} → Library → Meets H → Interaction → Match → Bytes → List Bytes
stored_for lib meets interaction match block = elim (lib.marshal (with_match match interaction)) [
  | none ↦ []
  | some encoded ↦
      elim (encrypt_interaction_block lib.ctr (meets.iv match.unique_id) encoded block) [
        | none ↦ []
        | some e ↦ e ∷ []
      ]
]

-- What the matches bring to the session of an ID.
abbrev pub delivery :
    {H : Type 0} → Library → Meets H → Interaction → List Match → Bytes → Bytes → List Bytes
delivery lib meets interaction [] id block = []
delivery lib meets interaction (m ∷ ms) id block =
    if equal m.unique_id id
    then stored_for lib meets interaction m block
    else delivery lib meets interaction ms id block

module _ {H : Type 0} (ctr : Ctr) where
  append_own :
      (id encoded : Bytes) (random : Option Bytes) (now p : ℕ) (m : MemoryStorage H)
      → lookup id m.sessions ≡ some p
      → let m' = append_interaction ctr id encoded random now m in
        (m'.index ≡ m.index)
        × (m'.next_session ≡ m.next_session)
        × ((m'.heap p).aes_block ≡ (m.heap p).aes_block)
        × ((m'.heap p).interactions
            ≡ (m.heap p).interactions
              ++ elim (encrypt_interaction_block ctr random encoded (m.heap p).aes_block) [
                | none ↦ []
                | some e ↦ e ∷ []
              ])
  unfolding append_interaction touch_if_sliding
  append_own id encoded random now p m e = ground (arith, e, append-nil (m.heap p).interactions)

  append_other :
      (id encoded : Bytes) (random : Option Bytes) (now q : ℕ) (m : MemoryStorage H)
      → lookup id m.sessions ≢ some q
      → let m' = append_interaction ctr id encoded random now m in
        (m'.index ≡ m.index)
        × (m'.next_session ≡ m.next_session)
        × ((m'.heap q).aes_block ≡ (m.heap q).aes_block)
        × ((m'.heap q).interactions ≡ (m.heap q).interactions)
  unfolding append_interaction touch_if_sliding
  append_other id encoded random now q m ne = elim (Option-cases (lookup id m.sessions)) [
    | inl n ↦ ground (arith, n)
    | inr (p, e) ↦ ground (arith, e, ne, ==_iff q p)
  ]

module _ {H : Type 0} (lib : Library) (meets : Meets H) (interaction : Interaction) where
  -- One round, as the session p of the ID sees it.
  store_match_lem :
      (x : Match) (id : Bytes) (p : ℕ) (m : MemoryStorage H)
      → IsValid m
      → lookup id m.sessions ≡ some p
      → let m' = store_match lib meets interaction x m in
        (m'.index ≡ m.index)
        × (m'.next_session ≡ m.next_session)
        × ((m'.heap p).aes_block ≡ (m.heap p).aes_block)
        × ((m'.heap p).interactions
            ≡ (m.heap p).interactions
              ++ (if equal x.unique_id id
                  then stored_for lib meets interaction x (m.heap p).aes_block
                  else []))
  unfolding store_match
  store_match_lem x id p m v e =
      let i = x.unique_id in
      elim (Option-cases (lib.marshal (with_match x interaction))) [
        | inl n ↦ ground (arith, n, append-nil (m.heap p).interactions)
        | inr (c, n) ↦ elim (Bool-cases (equal i id)) [
          | inl same ↦ ground (
            arith,
            n,
            same,
            (equal_iff i id).0 same,
            append_own lib.ctr i c (meets.iv i) (meets.clock i) p m,
            e,
          )
          | inr differ ↦ ground (
            arith,
            n,
            differ,
            append_other lib.ctr i c (meets.iv i) (meets.clock i) p m
                (λ o. ground (arith, differ, v.separate i id p o e, equal_iff i id)),
            append-nil (m.heap p).interactions,
          )
        ]
      ]

  delivery-absent :
      (ms : List Match) (id block : Bytes)
      → matches_contain ms id ≡ false
      → delivery lib meets interaction ms id block ≡ []
  unfolding matches_contain
  delivery-absent [] id block h = refl
  delivery-absent (x ∷ ms) id block h = ground (arith, h, delivery-absent ms id block)

  delivery-cons :
      (x : Match) (ms : List Match) (id block : Bytes)
      → matches_contain ms x.unique_id ≡ false
      → delivery lib meets interaction (x ∷ ms) id block
        ≡ (if equal x.unique_id id then stored_for lib meets interaction x block else [])
          ++ delivery lib meets interaction ms id block
  delivery-cons x ms id block h = elim (Bool-cases (equal x.unique_id id)) [
    | inl e ↦ ground (
      arith,
      e,
      h,
      equal_iff x.unique_id id,
      delivery-absent ms id block,
      append-nil (stored_for lib meets interaction x block),
    )
    | inr e ↦ ground (arith, e)
  ]

  -- The interactions of a session after the matches of an interaction are stored, of which none has
  -- an ID twice, are those before it and what the match of the session's ID brings.
  pub store_matched_interactions_lem :
      (ms : List Match) (id : Bytes) (p : ℕ) (m : MemoryStorage H)
      → IsDistinct ms
      → IsValid m
      → lookup id m.sessions ≡ some p
      → ((store_matched_interactions lib meets ms interaction m).heap p).interactions
        ≡ (m.heap p).interactions ++ delivery lib meets interaction ms id (m.heap p).aes_block
  unfolding store_matched_interactions
  store_matched_interactions_lem [] id p m d v e = sym (append-nil (m.heap p).interactions)
  store_matched_interactions_lem (x ∷ ms) id p m d v e =
      let m' = store_match lib meets interaction x m in
      let block = (m.heap p).aes_block in
      let one = store_match_lem x id p m v e in
      let v' : IsValid m' =
        subst (λ i. IsConsistent i m'.next_session) (sym one.0)
          (subst (λ n. IsConsistent m.index n) (sym one.1) v) in
      let rest = store_matched_interactions_lem ms id p m' d.1 v' (ground (arith, one.0, e)) in
      let here = if equal x.unique_id id then stored_for lib meets interaction x block else [] in
      rest
      ∙ ap (λ b. (m'.heap p).interactions ++ delivery lib meets interaction ms id b) one.2
      ∙ ap (λ is. is ++ delivery lib meets interaction ms id block) one.3
      ∙ append_assoc (m.heap p).interactions here (delivery lib meets interaction ms id block)
      ∙ ap (λ l. (m.heap p).interactions ++ l) (sym (delivery-cons x ms id block d.0))

matched_iff : (ms : List Match) → (ltb 0 (length ms) ≡ true) ↔ (ms ≢ [])
matched_iff [] = ground arith
matched_iff (m ∷ ms) = ((λ h e. ground (arith, e)), (λ h. ground arith))

module _ {H : Type 0} (lib : Library) (meets : Meets H) where
  capture_matches-IsDistinct :
      (match_input scan_input : Bytes) (s : Server H)
      → IsDistinct (capture_matches lib meets match_input scan_input s)
  unfolding capture_matches
  capture_matches-IsDistinct match_input scan_input s =
      let n = s.cfg.correlation_id_length in
      elim (Bool-cases (not (equal scan_input []) && s.cfg.scan_everywhere)) [
        | inl e ↦
            rw e
              (match_correlation_id_everywhere-ReportsWindows lib.unicode scan_input n
                meets.has_correlation_id).1
        | inr e ↦
            rw e
              (match_correlation_id-Reports lib.unicode match_input n s.cfg.domains
                meets.has_correlation_id).1
      ]

  pub capture_wildcard_storage :
      (domain : Bytes) (i : Interaction) (s : Server H)
      → let s' = capture_wildcard lib domain i s in (s'.storage ≡ s.storage) × (s'.cfg ≡ s.cfg)
  unfolding capture_wildcard
  capture_wildcard_storage domain i s = ground arith

  capture_matches-wildcard :
      (domain match_input scan_input : Bytes) (i : Interaction) (s : Server H)
      → capture_matches lib meets match_input scan_input (capture_wildcard lib domain i s)
        ≡ capture_matches lib meets match_input scan_input s
  unfolding capture_matches
  capture_matches-wildcard domain match_input scan_input i s =
      rw (capture_wildcard_storage domain i s).1 refl

  -- With wildcards on, an interaction that can be marshalled is appended to the bucket of the
  -- domain, if it has one; no other domain's bucket changes.
  capture_wildcard_lem :
      (domain other encoded : Bytes) (i : Interaction) (s : Server H)
      → s.cfg.wildcard ≡ true
      → lib.marshal i ≡ some encoded
      → tld_bucket lib other (capture_wildcard lib domain i s) ≡ (
          if equal domain other
          then Option.map (append encoded) (tld_bucket lib other s)
          else tld_bucket lib other s)
  unfolding capture_wildcard
  capture_wildcard_lem domain other encoded i s w e = elim (Option-cases s.tld_buckets) [
    | inl n ↦ ground (arith, w, e, n)
    | inr (buckets, b) ↦ elim (Option-cases (lookup domain buckets)) [
      | inl n ↦ ground (arith, w, e, b, n, equal_iff domain other)
      | inr (bucket, n) ↦ ground (
        arith,
        w,
        e,
        b,
        n,
        equal_iff domain other,
        lookup-insert domain other (append encoded bucket) buckets,
      )
    ]
  ]

  -- A capture adds to the interactions of every session what the match of its ID brings, and
  -- nothing else; it tells whether there was a match.
  pub capture_interaction_lem :
      (domain match_input scan_input : Bytes) (wildcard_i store_i : Interaction) (s : Server H)
      (id : Bytes) (p : ℕ)
      → IsValid (meets.others s.storage)
      → lookup id (meets.others s.storage).sessions ≡ some p
      → let (matched, s') =
          capture_interaction lib meets domain match_input scan_input wildcard_i store_i s in
        let matches = capture_matches lib meets match_input scan_input s in
        let session = (meets.others s.storage).heap p in
        ((matched ≡ true) ↔ (matches ≢ []))
        × ((s'.storage.heap p).interactions
            ≡ session.interactions ++ delivery lib meets store_i matches id session.aes_block)
  unfolding capture_interaction
  capture_interaction_lem domain match_input scan_input wildcard_i store_i s id p v e =
      let s' = capture_wildcard lib domain wildcard_i s in
      let w = capture_wildcard_storage domain wildcard_i s in
      let ms = capture_matches lib meets match_input scan_input s in
      let same : capture_matches lib meets match_input scan_input s' ≡ ms =
        capture_matches-wildcard domain match_input scan_input wildcard_i s in
      let d = capture_matches-IsDistinct match_input scan_input s in
      (
        rw same (matched_iff ms),
        rw (same, w.0)
            (store_matched_interactions_lem lib meets store_i ms id p (meets.others s.storage) d v
              e),
      )
