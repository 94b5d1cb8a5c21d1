-- ===== src/Oobclient/Domain.antt =====
-- `Domain` of oobclient/client.go, and that the server finds the client's ID in its domains.
use interactsh_lite.Correlation.{
  cid_alphabet, alphanumeric, table, is_cid_base32, is_alphanumeric, labels, labels_from,
  matches_contain, match_correlation_id,
}
use interactsh_lite.Correlation.Matches.{match_correlation_id_complete}
use interactsh_lite.Correlation.Scan.{In}
use mathlib.Core.List.{append_assoc}
use interactsh_lite.Prelude.Text.{Unicode, is_ascii, lower_byte, to_lower, cut}
use interactsh_lite.Prelude.{
  ℕ, ◌≤◌, ◌<◌, Bool, true, false, not, ◌&&◌, List, [], ◌∷◌, ◌++◌, map, ltb, ◌==◌, ==_iff,
  if◌then◌else◌, Bytes, equal, length, take, drop, every, every-append, every-nonempty, every-take,
  &&_parts, if-elim, length-append, length-take, take-append-drop, ◌≡◌, refl, sym, subst, ap, ◌∙◌,
  arith, inl, inr, Bool-cases,
}

-- `encode` is the `EncodeToString` of the z-base-32 encoding, `random` what `rand.Read` gives.
unfoldable pub domain : (encode : Bytes → Bytes) → Bytes → ℕ → Bytes → Bytes → Bytes
domain encode random nonce_length correlation_id host =
    let nonce = encode random in
    let cut_nonce = if ltb nonce_length (length nonce) then take nonce_length nonce else nonce in
    correlation_id ++ (cut_nonce ++ (b'.' ∷ host))

-- A byte of a label in lower case.
abbrev plain : ℕ → Bool
plain c = ltb c 0x80 && not (c == b'.') && lower_byte c == c

table-every :
    (p : ℕ → Bool) (cs : Bytes) (c : ℕ) → every p cs ≡ true → table cs c ≡ true → p c ≡ true
table-every p [] c h t = absurd (ground (arith, t))
table-every p (a ∷ cs) c h t = elim (Bool-cases (a == c)) [
  | inl e ↦ subst (λ x. p x ≡ true) ((==_iff a c).0 e) (ground (arith, h))
  | inr e ↦ table-every p cs c (ground (arith, h)) (ground (arith, t, e))
]

every_table :
    (p : ℕ → Bool) (cs s : Bytes) → every p cs ≡ true → every (table cs) s ≡ true → every p s ≡ true
every_table p cs [] h t = refl
every_table p cs (c ∷ s) h t =
    let here = table-every p cs c h (ground (arith, t)) in
    let rest = every_table p cs s h (ground (arith, t)) in rw (here, rest) refl

alphanumeric-plain : every plain alphanumeric ≡ true
unfolding lower_byte
alphanumeric-plain = refl

cid_plain : every plain cid_alphabet ≡ true
unfolding lower_byte
cid_plain = refl

plain_ascii : (s : Bytes) → every plain s ≡ true → every (λ c. ltb c 0x80) s ≡ true
plain_ascii [] h = refl
plain_ascii (c ∷ s) h = ground (arith, h, plain_ascii s)

id_plain : (id : Bytes) → is_cid_base32 id ≡ true → every plain id ≡ true
unfolding is_cid_base32
id_plain id v = every_table plain cid_alphabet id cid_plain (&&_parts _ _ v).1

three_alphanumeric :
    (nonce : Bytes)
    → every (table alphanumeric) nonce ≡ true
    → 3 ≤ length nonce
    → is_alphanumeric (take 3 nonce) ≡ true
unfolding is_alphanumeric
three_alphanumeric nonce over long =
    every-nonempty (table alphanumeric) (take 3 nonce) (omega (arith, length-take 3 nonce, long))
      (every-take (table alphanumeric) 3 nonce over)

module _ (rest : Bytes) where
  map-lower :
      (s : Bytes) → every plain s ≡ true → map lower_byte (s ++ rest) ≡ s ++ map lower_byte rest
  map-lower [] h = refl
  map-lower (c ∷ s) h =
      let e : (lower_byte c == c) ≡ true = ground (arith, h) in
      ap (λ x. x ∷ map lower_byte (s ++ rest)) ((==_iff (lower_byte c) c).0 e)
      ∙ ap (◌∷◌ c) (map-lower s (ground (arith, h)))

  cut_label : (s : Bytes) → every plain s ≡ true → cut b'.' (s ++ (b'.' ∷ rest)) ≡ (s, rest, true)
  unfolding cut
  cut_label [] h = refl
  cut_label (c ∷ s) h =
      let e : (c == b'.') ≡ false = ground (arith, h) in
      rw (cut_label s (ground (arith, h)), e) refl

  -- A label in front of a dot is the first.
  labels_first :
      (c : ℕ) (s : Bytes)
      → every plain (c ∷ s) ≡ true
      → In (c ∷ s) (labels ((c ∷ s) ++ (b'.' ∷ rest)))
  unfolding labels labels_from equal
  labels_first c s h = rw (cut_label (c ∷ s) h) (inl refl)

  labels-head :
      (l : Bytes) → 0 < length l → every plain l ≡ true → In l (labels (l ++ (b'.' ∷ rest)))
  labels-head [] n h = absurd (omega arith)
  labels-head (c ∷ s) n h = labels_first c s h

-- The parts of a domain that was lowered.
lowered :
    (u : Unicode) (label host : Bytes)
    → every plain label ≡ true
    → is_ascii host ≡ true
    → to_lower u (label ++ (b'.' ∷ host)) ≡ label ++ (b'.' ∷ map lower_byte host)
unfolding to_lower is_ascii lower_byte
lowered u label host p a =
    let ascii : is_ascii (label ++ (b'.' ∷ host)) ≡ true =
      every-append (λ c. ltb c 0x80) label (b'.' ∷ host) (plain_ascii label p) a in
    rw (to_lower, ascii) (map-lower (b'.' ∷ host) label p)

-- The server's search finds the client's ID in each of its domains, if the ID is registered there
-- with the length that the server is configured with. The host is ASCII; the nonce, which is
-- encoded over lower-case letters and digits, has three bytes at least.
pub match_correlation_id-domain :
    (u : Unicode) (encode : Bytes → Bytes) (random id host : Bytes) (nonce_length n : ℕ)
    (domains : List Bytes) (lookup : Bytes → Bool)
    → is_cid_base32 id ≡ true
    → length id ≡ n
    → every (table alphanumeric) (encode random) ≡ true
    → 3 ≤ nonce_length
    → 3 ≤ length (encode random)
    → is_ascii host ≡ true
    → lookup id ≡ true
    → matches_contain
        (match_correlation_id u (domain encode random nonce_length id host) n domains lookup)
        id
      ≡ true
unfolding domain
match_correlation_id-domain u encode random id host nonce_length n domains lookup v l a k m h r =
    let all = encode random in
    let nonce = if ltb nonce_length (length all) then take nonce_length all else all in
    let over : every (table alphanumeric) nonce ≡ true =
      if-elim (λ s. every (table alphanumeric) s ≡ true) (ltb nonce_length (length all))
        (take nonce_length all) all (λ _. every-take (table alphanumeric) nonce_length all a)
        (λ _. a) in
    let long : 3 ≤ length nonce =
      if-elim (λ s. 3 ≤ length s) (ltb nonce_length (length all)) (take nonce_length all) all
        (λ _. omega (arith, length-take nonce_length all, k, m)) (λ _. m) in
    let label = id ++ nonce in
    let label_plain =
      every-append plain id nonce (id_plain id v)
        (every_table plain alphanumeric nonce alphanumeric-plain over) in
    let same : to_lower u (id ++ (nonce ++ (b'.' ∷ host))) ≡ label ++ (b'.' ∷ map lower_byte host) =
      ap (to_lower u) (sym (append_assoc id nonce (b'.' ∷ host)))
      ∙ lowered u label host label_plain h in
    let first =
      labels-head (map lower_byte host) label (omega (arith, length-append id nonce, long))
        label_plain in
    match_correlation_id_complete u (id ++ (nonce ++ (b'.' ∷ host))) label id n domains lookup r
      (subst (λ t. In label (labels t)) (sym same) first)
      (inl (record {
        before = [];
        nonce = take 3 nonce;
        after = drop 3 nonce;
        splits = ap (λ t. id ++ t) (sym (take-append-drop 3 nonce));
        length-candidate = l;
        length-nonce = omega (arith, length-take 3 nonce, long);
        valid_candidate = v;
        valid_nonce = three_alphanumeric nonce over long;
      }))
