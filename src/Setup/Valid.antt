-- ===== src/Setup/Valid.antt =====
-- What `Validate` accepts.
use interactsh_lite.Prelude.Int.{ℤ, pos, negsuc, lt_nat, to_nat}
use interactsh_lite.Setup.{SetupConfig, validate, eviction_sliding, eviction_fixed}
use interactsh_lite.Prelude.{
  ◌≤◌, true, false, ◌||◌, none, List, [], ◌∷◌, ◌==◌, Bytes, equal_iff, length, ◌≡◌, ◌≢◌, ◌⊎◌, refl,
  arith,
}

-- A configuration that a server can run with.
pub record IsValidConfig (c : SetupConfig) : Type 0 where
  pub domain : c.domains ≢ []
  pub id_length : 3 ≤ to_nat c.correlation_id_length
  pub disk_path : c.disk ≡ true → c.disk_path ≢ []
  pub guarded : (c.ftp || c.ldap || c.wildcard) ≡ true → c.auth ≡ true
  pub token : c.auth ≡ true → c.token ≢ []
  pub strategy : (c.eviction_strategy ≡ eviction_sliding) ⊎ (c.eviction_strategy ≡ eviction_fixed)

length-three : (z : ℤ) → lt_nat z 3 ≡ false → 3 ≤ to_nat z
length-three (pos n) h = ground (arith, h)
length-three (negsuc n) h = absurd (ground (arith, h))

some_domain : (ds : List Bytes) → (length ds == 0) ≡ false → ds ≢ []
some_domain [] h e = absurd (ground (arith, h))
some_domain (d ∷ ds) h e = ground (arith, e)

-- A configuration that `Validate` accepts is valid.
pub validate-IsValidConfig : (c : SetupConfig) → validate c ≡ none → IsValidConfig c
unfolding validate
validate-IsValidConfig c h = record {
  domain = some_domain c.domains (ground (arith, h));
  id_length = length-three c.correlation_id_length (ground (arith, h));
  disk_path = λ d. ground (arith, h, d, equal_iff c.disk_path []);
  guarded = λ g. ground (arith, h, g);
  token = λ a. ground (arith, h, a, equal_iff c.token []);
  strategy = ground (
    arith,
    h,
    equal_iff c.eviction_strategy eviction_sliding,
    equal_iff c.eviction_strategy eviction_fixed,
  );
}

three_length : (z : ℤ) → 3 ≤ to_nat z → lt_nat z 3 ≡ false
three_length (pos n) h = ground (arith, h)
three_length (negsuc n) h = absurd (omega (arith, h))

has_length : (ds : List Bytes) → ds ≢ [] → (length ds == 0) ≡ false
has_length [] h = absurd (h refl)
has_length (d ∷ ds) h = ground arith

-- `Validate` accepts a valid configuration.
pub IsValidConfig-validate : (c : SetupConfig) → IsValidConfig c → validate c ≡ none
unfolding validate
IsValidConfig-validate c v = ground (
  arith,
  has_length c.domains v.domain,
  three_length c.correlation_id_length v.id_length,
  v.disk_path,
  v.guarded,
  v.token,
  v.strategy,
  equal_iff c.disk_path [],
  equal_iff c.token [],
  equal_iff c.eviction_strategy eviction_sliding,
  equal_iff c.eviction_strategy eviction_fixed,
)
