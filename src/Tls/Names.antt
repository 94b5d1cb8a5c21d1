-- ===== src/Tls/Names.antt =====
-- The names for which certificates are looked up.
use interactsh_lite.Dns.Zone.{IsMatch, matched_domain, matched_domain-IsMatch, extract_subdomain}
use interactsh_lite.Prelude.Text.{Unicode, codes, to_lower}
use interactsh_lite.Tls.{count_byte, wildcard_fallback}
use interactsh_lite.Prelude.{
  ℕ, ◌+◌, true, ◌||◌, none, some, List, [], ◌∷◌, ◌++◌, leb, leb→le, Bytes, equal, equal_iff, any,
  ◌≡◌, ◌≢◌, ◌⊎◌, inl, inr, refl, ap, ◌∙◌, subst, arith, Bool-cases, Option-cases,
}

count-append : (c : ℕ) (s t : Bytes) → count_byte c (s ++ t) ≡ count_byte c s + count_byte c t
unfolding count_byte
count-append c [] t = omega arith
count-append c (x ∷ s) t = ground (arith, count-append c s t)

-- A certificate of a domain with its wildcard covers the name: it is the domain, or has one label
-- in front of it.
abbrev pub IsCovered : List Bytes → Bytes → Type 0
IsCovered domains name =
    (d : Bytes) × (any (λ e. equal e d) domains ≡ true)
    × ((name ≡ d) ⊎ ((label : Bytes) × (count_byte b'.' label ≡ 0) × (name ≡ label ++ (b'.' ∷ d))))

IsCovered-match :
    (domains : List Bytes) (name domain : Bytes)
    → IsMatch domains name (some domain)
    → (equal name domain || leb (count_byte b'.' name) (count_byte b'.' domain + 1)) ≡ true
    → IsCovered domains name
unfolding count_byte
IsCovered-match domains name domain (found, inl same) h = (domain, found, inl same)
IsCovered-match domains name domain (found, inr splits) h = elim (Bool-cases (equal name domain)) [
  | inl e ↦ (domain, found, inl ((equal_iff name domain).0 e))
  | inr e ↦
      let label = extract_subdomain name domain in
      let few : leb (count_byte b'.' name) (count_byte b'.' domain + 1) ≡ true =
        ground (arith, h, e) in
      let n : count_byte b'.' name ≡ count_byte b'.' label + count_byte b'.' (b'.' ∷ domain) =
        ap (count_byte b'.') splits ∙ count-append b'.' label (b'.' ∷ domain) in
      (domain, found, inr (label, omega (arith, n, leb→le _ _ few), splits))
]

wild_label : count_byte b'.' (codes "wild") ≡ 0
unfolding count_byte
wild_label = refl

any-head : (d : Bytes) (ds : List Bytes) → any (λ e. equal e d) (d ∷ ds) ≡ true
any-head d ds = ground (arith, equal_iff d d)

-- Whatever name a client asks for, if there is a domain, the getter is asked for that name
-- itself, and then its lower case is a configured domain or one label below one, or for a
-- configured domain with the label "wild" in front.
pub wildcard_fallback-IsCovered :
    (u : Unicode) (domains : List Bytes) (server_name : Bytes)
    → domains ≢ []
    → let asked = wildcard_fallback u domains server_name in
      ((asked ≡ server_name) × IsCovered domains (to_lower u server_name))
      ⊎ ((d : Bytes) × (any (λ e. equal e d) domains ≡ true) × (asked ≡ codes "wild." ++ d))
unfolding wildcard_fallback
wildcard_fallback-IsCovered u domains server_name ne =
    let name = to_lower u server_name in
    let m = matched_domain-IsMatch domains name in
    elim (Option-cases (matched_domain domains name)) [
      | inl none_found ↦
          elim domains
              as (λ (l : List Bytes).
                l ≢ []
                → matched_domain l name ≡ none
                → ((wildcard_fallback u l server_name ≡ server_name) × IsCovered l name)
                  ⊎ ((d : Bytes) × (any (λ e. equal e d) l ≡ true)
                      × (wildcard_fallback u l server_name ≡ codes "wild." ++ d))) [
                        | [] ↦ λ f e. absurd (f refl)
                        | d ∷ ds ↦ λ f e. inr (d, any-head d ds, ground (arith, e))
                      ]
            ne none_found
      | inr (domain, e) ↦
          let match = subst (IsMatch domains name) e m in
          elim (Bool-cases
            (equal name domain || leb (count_byte b'.' name) (count_byte b'.' domain + 1))) [
              | inl few ↦
                  inl (ground (arith, e, few), IsCovered-match domains name domain match few)
              | inr many ↦ inr (domain, match.0, ground (arith, e, many))
            ]
    ]
