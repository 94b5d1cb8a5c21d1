-- ===== src/Tls/Evict.antt =====
-- The eviction of certificates that expire.
use interactsh_lite.Prelude.Text.{codes}
use interactsh_lite.Prelude.{
  ℕ, zero, suc, ◌-◌, ◌*◌, ◌<◌, Bool, ◌&&◌, Option, none, some, List, [], ◌∷◌, ltb, if◌then◌else◌,
  Bytes, equal, equal_iff, length, Map, lookup, remove, ◌≡◌, ◌≢◌, refl, arith, Bool-cases, inl, inr,
}

-- Times are seconds; only their differences are used.
pub record Leaf : Type 0 where
  pub not_before : ℕ
  pub not_after : ℕ

-- What `loadLeaf` returns.
pub data Loaded : Type 0 where
  leaf : Leaf → Loaded
  not_exist : Loaded
  load_error : Loaded

-- `pem.Decode`: the block's type and bytes, if there is one, and the rest; and
-- `x509.ParseCertificate`.
pub record PemLibrary : Type 0 where
  pub decode : Bytes → Option (Bytes × Bytes) × Bytes
  pub parse_certificate : Bytes → Option Leaf

abbrev parsed : PemLibrary → Bytes → Loaded
parsed pem b = elim (pem.parse_certificate b) [ none ↦ load_error | some l ↦ leaf l ]

-- The loop of `loadLeaf`, with the rounds left; none if they do not suffice.
unfoldable pub find_certificate : PemLibrary → ℕ → Bytes → Option Loaded
unfolding equal
find_certificate pem zero pem_bytes = none
find_certificate pem (suc f) pem_bytes =
    let (block, rest) = pem.decode pem_bytes in
    let again = find_certificate pem f rest in
    if equal pem_bytes [] then some load_error else elim block [
      | none ↦ again
      | some (type, b) ↦ if equal type (codes "CERTIFICATE") then some (parsed pem b) else again
    ]

-- The storage, by subject, as far as the evictor uses it.
unfoldable pub load_leaf : PemLibrary → ℕ → Bytes → Map Bytes → Option Loaded
unfolding find_certificate
load_leaf pem f subject stored = elim (lookup subject stored) [
  | none ↦ some not_exist
  | some pem_bytes ↦ find_certificate pem f pem_bytes
]

-- More than a quarter of the lifetime is left. The code divides in floating point.
unfoldable pub is_comfortable : ℕ → Leaf → Bool
is_comfortable now l =
    ltb l.not_before l.not_after
    && ltb now l.not_after
    && ltb (l.not_after - l.not_before) (4 * (l.not_after - now))

-- The result of `checkAndEvict`: whether a certificate was removed, or an error.
pub data Checked : Type 0 where
  kept evicted eviction_failed : Checked

-- `delete_works` tells whether `storage.Delete` succeeds. A leaf that is nil, which it is with any
-- error of `loadLeaf`, counts as not provisioned.
unfoldable pub check_and_evict :
    PemLibrary → ℕ → ℕ → Bool → Bytes → Map Bytes → Option (Checked × Map Bytes)
unfolding load_leaf is_comfortable remove
check_and_evict pem f now delete_works subject stored = elim (load_leaf pem f subject stored) [
  | none ↦ none
  | some not_exist ↦ some (kept, stored)
  | some load_error ↦ some (kept, stored)
  | some (leaf l) ↦
      if is_comfortable now l
      then some (kept, stored)
      else if delete_works
      then some (evicted, remove subject stored)
      else some (eviction_failed, stored)
]

-- `evictExpiring`: `manage_sync` is what `ManageSync` leaves of the storage.
unfoldable pub evict_expiring :
    PemLibrary
    → ℕ
    → ℕ
    → (Bytes → Bool)
    → (Bytes → Map Bytes → Map Bytes)
    → List Bytes
    → Map Bytes
    → Option (Map Bytes)
unfolding check_and_evict
evict_expiring pem f now delete_works manage_sync [] stored = some stored
evict_expiring pem f now delete_works manage_sync (s ∷ ss) stored =
    elim (check_and_evict pem f now (delete_works s) s stored) [
      | none ↦ none
      | some (evicted, stored') ↦
          evict_expiring pem f now delete_works manage_sync ss (manage_sync s stored')
      | some (kept, stored') ↦ evict_expiring pem f now delete_works manage_sync ss stored'
      | some (eviction_failed, stored') ↦
          evict_expiring pem f now delete_works manage_sync ss stored'
    ]

-- PEM blocks up to the end of the data; `pem.Decode` consumes what it returns.
pub data Blocks (pem : PemLibrary) : Bytes → Type 0 where
  no_block : Blocks pem []
  a_block :
      (d type b rest : Bytes)
      → pem.decode d ≡ (some (type, b), rest)
      → length rest < length d
      → Blocks pem rest
      → Blocks pem d

module _ (pem : PemLibrary) where
  find_certificate-Blocks :
      (f : ℕ) (d : Bytes) → Blocks pem d → length d < f → find_certificate pem f d ≢ none
  unfolding find_certificate equal
  find_certificate-Blocks zero d bs h = absurd (omega (arith, h))
  find_certificate-Blocks (suc f) _ no_block h = λ e. ground (arith, e)
  find_certificate-Blocks (suc f) _ (a_block d type b rest e l bs) h =
      let ih = find_certificate-Blocks f rest bs (omega (arith, h, l)) in
      elim (Bool-cases (equal d [])) [
        | inl z ↦ rw (find_certificate, z) (λ n. ground (arith, n))
        | inr z ↦ elim (Bool-cases (equal type (codes "CERTIFICATE"))) [
          | inl c ↦ λ n. ground (arith, n, z, e, c)
          | inr c ↦ λ n. ih (ground (arith, n, z, e, c))
        ]
      ]

  find_certificate_stuck :
      (f : ℕ) (d : Bytes) → d ≢ [] → pem.decode d ≡ (none, d) → find_certificate pem f d ≡ none
  unfolding find_certificate
  find_certificate_stuck zero d n e = refl
  find_certificate_stuck (suc f) d n e =
      ground (arith, equal_iff d [], n, e, find_certificate_stuck f d n e)

  -- On PEM blocks `loadLeaf` returns, after at most one round for each byte and one more. On text
  -- that has no block it never does, in no number of rounds: `pem.Decode` then returns the text
  -- itself as the rest, and the loop goes on with it.
  pub find_certificate_returns :
      (d : Bytes)
      → (Blocks pem d → find_certificate pem (suc (length d)) d ≢ none)
        × (d ≢ [] → pem.decode d ≡ (none, d) → (f : ℕ) → find_certificate pem f d ≡ none)
  find_certificate_returns d = (
    λ bs. find_certificate-Blocks (suc (length d)) d bs (omega arith),
    λ n e f. find_certificate_stuck f d n e,
  )
