-- ===== src/Dns/Zone.antt =====
-- `matchedDomain`, `extractSubdomain` and `ensureTrailingDot` of interactsh-srv/oobsrv/dns.go.
use interactsh_lite.Prelude.Text.{ends_with}
use interactsh_lite.Prelude.{
  ◌-◌, ◌≤◌, Bool, true, false, not, ◌||◌, Option, none, some, List, [], ◌∷◌, ◌++◌, if◌then◌else◌,
  Bytes, equal, equal_iff, equal_refl, All, any, length, take, drop, take-append-drop, leb, ◌≡◌,
  sym, ap, ◌∙◌, arith, Bool-cases, ◌⊎◌, inl, inr,
}

-- The domain itself, or a name below it.
abbrev pub in_zone : Bytes → Bytes → Bool
in_zone qname domain = equal qname domain || ends_with qname (b'.' ∷ domain)

unfoldable pub matched_domain : List Bytes → Bytes → Option Bytes
matched_domain [] qname = none
matched_domain (d ∷ ds) qname = if in_zone qname d then some d else matched_domain ds qname

unfoldable pub extract_subdomain : Bytes → Bytes → Bytes
unfolding equal ends_with
extract_subdomain qname domain =
    if equal qname domain
    then []
    else if ends_with qname (b'.' ∷ domain)
    then take (length qname - length (b'.' ∷ domain)) qname
    else []

unfoldable pub ensure_trailing_dot : Bytes → Bytes
unfolding ends_with
ensure_trailing_dot name = if not (ends_with name (b'.' ∷ [])) then name ++ (b'.' ∷ []) else name

pub ends_with_splits :
    (s suffix : Bytes) → ends_with s suffix ≡ true → s ≡ take (length s - length suffix) s ++ suffix
unfolding ends_with
ends_with_splits s suffix h =
    let n = length s - length suffix in
    sym (take-append-drop n s)
    ∙ ap (λ t. take n s ++ t) ((equal_iff (drop n s) suffix).0 (ground arith))

-- What a domain is to the name that it matches.
abbrev pub IsMatch : List Bytes → Bytes → Option Bytes → Type 0
IsMatch domains qname none = All (λ d. in_zone qname d ≡ false) domains
IsMatch domains qname (some d) =
    (any (λ e. equal e d) domains ≡ true)
    × ((qname ≡ d) ⊎ (qname ≡ extract_subdomain qname d ++ (b'.' ∷ d)))

-- The domains are listed by length, the longest first.
abbrev pub IsSorted : List Bytes → Type 0
IsSorted [] = Unit
IsSorted (d ∷ ds) = All (λ e. length e ≤ length d) ds × IsSorted ds

-- No domain of the list that the name lies in is longer.
abbrev pub IsLongest : List Bytes → Bytes → Option Bytes → Type 0
IsLongest domains qname none = Unit
IsLongest domains qname (some d) =
    All (λ e. (leb (length e) (length d) || not (in_zone qname e)) ≡ true) domains

in_zone_splits :
    (qname d : Bytes)
    → in_zone qname d ≡ true
    → (qname ≡ d) ⊎ (qname ≡ extract_subdomain qname d ++ (b'.' ∷ d))
unfolding extract_subdomain
in_zone_splits qname d h = elim (Bool-cases (equal qname d)) [
  | inl e ↦ inl ((equal_iff qname d).0 e)
  | inr e ↦
      let f : ends_with qname (b'.' ∷ d) ≡ true = ground (arith, h, e) in
      inr (rw (e, f) (ends_with_splits qname (b'.' ∷ d) f))
]

IsMatch-later :
    (d : Bytes) (ds : List Bytes) (qname : Bytes) (o : Option Bytes)
    → in_zone qname d ≡ false
    → IsMatch ds qname o
    → IsMatch (d ∷ ds) qname o
IsMatch-later d ds qname none e m = (e, m)
IsMatch-later d ds qname (some c) e m = (ground (arith, m.0), m.1)

-- `matchedDomain` finds a configured domain that is the name or that the name lies below, with
-- the subdomain in front of it; if it finds none, there is none.
pub matched_domain-IsMatch :
    (domains : List Bytes) (qname : Bytes) → IsMatch domains qname (matched_domain domains qname)
unfolding matched_domain
matched_domain-IsMatch [] qname = tt
matched_domain-IsMatch (d ∷ ds) qname = elim (Bool-cases (in_zone qname d)) [
  | inl e ↦ rw e (ground (arith, equal_refl d), in_zone_splits qname d e)
  | inr e ↦
      rw e (IsMatch-later d ds qname (matched_domain ds qname) e (matched_domain-IsMatch ds qname))
]

IsLongest-here :
    (ds : List Bytes) (qname d : Bytes)
    → All (λ e. length e ≤ length d) ds
    → All (λ e. (leb (length e) (length d) || not (in_zone qname e)) ≡ true) ds
IsLongest-here [] qname d h = tt
IsLongest-here (e ∷ ds) qname d h = (ground (arith, h.0), IsLongest-here ds qname d h.1)

IsLongest-later :
    (d : Bytes) (ds : List Bytes) (qname : Bytes) (o : Option Bytes)
    → in_zone qname d ≡ false
    → IsLongest ds qname o
    → IsLongest (d ∷ ds) qname o
IsLongest-later d ds qname none e m = tt
IsLongest-later d ds qname (some c) e m = (ground (arith, e), m)

-- With the domains sorted by length, the longest first, no configured domain that the name lies in
-- is longer than the one found.
pub matched_domain-IsLongest :
    (domains : List Bytes) (qname : Bytes)
    → IsSorted domains
    → IsLongest domains qname (matched_domain domains qname)
unfolding matched_domain
matched_domain-IsLongest [] qname s = tt
matched_domain-IsLongest (d ∷ ds) qname s = elim (Bool-cases (in_zone qname d)) [
  | inl e ↦ rw e (ground arith, IsLongest-here ds qname d s.0)
  | inr e ↦ rw e (
      IsLongest-later d ds qname (matched_domain ds qname) e
        (matched_domain-IsLongest ds qname s.1))
]
