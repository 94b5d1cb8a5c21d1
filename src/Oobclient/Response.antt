-- ===== src/Oobclient/Response.antt =====
-- The response configuration of oobclient/options.go, shared by client and server.
use interactsh_lite.Prelude.Int.{ℤ, pos, negsuc, is_nat}
use interactsh_lite.Prelude.Text.{Unicode, codes, trim_space, cut, equal_fold}
use interactsh_lite.Prelude.{
  Bool, true, false, not, ◌&&◌, Option, none, some, List, [], ◌∷◌, if◌then◌else◌, Bytes, equal, ◌≡◌,
  arith, ◌⊎◌, ℕ, All, ◌≢◌, refl, equal_iff, ◌↔◌,
}

pub record ResponseConfig : Type 0 where
  pub status_code : ℤ
  pub headers : List Bytes
  pub body : Bytes

abbrev is_location : Unicode → Bytes → Bool
is_location u name = equal_fold (trim_space u name) (codes "location")

-- The loop over the headers; `has_location` is the flag of the same name.
unfoldable pub location_headers : Unicode → Bool → List Bytes → Bool
location_headers u has_location [] = has_location
location_headers u has_location (h ∷ hs) =
    let (name, _, found) = cut b':' h in
    let rest = location_headers u true hs in
    if not found then false else if not (is_location u name) then false else rest

unfoldable pub is_allowed_unauthenticated : Unicode → Option ResponseConfig → Bool
unfolding location_headers
is_allowed_unauthenticated u none = true
is_allowed_unauthenticated u (some c) =
    if not (is_nat c.status_code 302) && not (is_nat c.status_code 307)
    then false
    else if not (equal c.body [])
    then false
    else location_headers u false c.headers

-- A header line `name: value` whose name is Location.
abbrev pub IsLocation : Unicode → Bytes → Type 0
IsLocation u h =
    ((cut b':' h).2 ≡ true) × (equal_fold (trim_space u (cut b':' h).0) (codes "location") ≡ true)

location_headers-true :
    (u : Unicode) (hs : List Bytes) → (location_headers u true hs ≡ true) ↔ All (IsLocation u) hs
unfolding location_headers
location_headers-true u [] = ((λ h. tt), (λ h. refl))
location_headers-true u (x ∷ hs) = ground (arith, location_headers-true u hs)

location_headers-false :
    (u : Unicode) (hs : List Bytes)
    → (location_headers u false hs ≡ true) ↔ ((hs ≢ []) × All (IsLocation u) hs)
unfolding location_headers
location_headers-false u [] = ((λ h. cc), (λ h. absurd (h.0 refl)))
location_headers-false u (x ∷ hs) = ground (arith, location_headers-true u hs)

-- What an unauthenticated server serves: a 302 or 307 with no body and at least one header, every
-- header a Location.
abbrev pub IsRedirect : Unicode → ResponseConfig → Type 0
IsRedirect u c =
    ((c.status_code ≡ pos 302) ⊎ (c.status_code ≡ pos 307))
    × (c.body ≡ [])
    × (c.headers ≢ [])
    × All (IsLocation u) c.headers

is_nat_iff : (z : ℤ) (n : ℕ) → (is_nat z n ≡ true) ↔ (z ≡ pos n)
is_nat_iff (pos m) n = ground arith
is_nat_iff (negsuc m) n = ground arith

-- `IsAllowedUnauthenticated` accepts a response configuration exactly if it is a 302 or 307, its
-- body is empty, it has a header, and each header has a colon and the name Location.
pub is_allowed_unauthenticated_iff :
    (u : Unicode) (c : ResponseConfig)
    → (is_allowed_unauthenticated u (some c) ≡ true) ↔ IsRedirect u c
unfolding is_allowed_unauthenticated
is_allowed_unauthenticated_iff u c = ground (
  arith,
  is_nat_iff c.status_code 302,
  is_nat_iff c.status_code 307,
  equal_iff c.body [],
  location_headers-false u c.headers,
)
