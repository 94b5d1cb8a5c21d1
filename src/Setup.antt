-- ===== src/Setup.antt =====
-- interactsh-srv/oobsrv/config.go, and `New` of server.go: the checks of a configuration, and the
-- server that it sets up. Days of eviction and the buffer size are not negative.
pub mod Valid
pub mod Ready
pub mod Routes
pub mod Files
mod Tests
use interactsh_lite.Dns.Answer.{CustomRecord, ServerIps}
use interactsh_lite.Dns.Zone.{IsSorted}
use interactsh_lite.Prelude.Int.{ℤ, pos, negsuc, is_positive, lt_nat, to_nat}
use interactsh_lite.Prelude.Text.{Unicode, codes, to_lower}
use interactsh_lite.Server.{Config, Server}
use interactsh_lite.SharedBucket.{SharedBucket, new_shared_bucket}
use interactsh_lite.Storage.{MemoryStorage, new_memory_storage, nanos_per_day}
use interactsh_lite.Prelude.{
  ℕ, ◌+◌, ◌-◌, ◌*◌, ◌^◌, ◌%◌, Bool, true, false, not, ◌&&◌, ◌||◌, Option, none, some, List, [], ◌∷◌,
  map, ltb, leb, ◌==◌, if◌then◌else◌, Bytes, equal, any, All, length, Map, insert, ◌≡◌,
}

-- `Config`, without the names of files, ports and addresses that listeners use.
pub record SetupConfig : Type 0 where
  pub domains : List Bytes
  pub eviction : ℕ
  pub no_eviction : Bool
  pub eviction_strategy : Bytes
  pub auth : Bool
  pub token : Bytes
  pub acao_url : Bytes
  pub scan_everywhere : Bool
  pub correlation_id_length : ℤ
  pub origin_ip_header : Bytes
  pub max_body_size : ℤ
  pub dynamic_resp : Bool
  pub disk : Bool
  pub disk_path : Bytes
  pub server_header : Bytes
  pub disable_version : Bool
  pub ldap : Bool
  pub wildcard : Bool
  pub ftp : Bool
  pub metrics : Bool
  pub version : Bytes
  pub max_shared_interactions : ℕ

abbrev pub eviction_sliding : Bytes
eviction_sliding = codes "sliding"

abbrev pub eviction_fixed : Bytes
eviction_fixed = codes "fixed"

unfoldable pub default_config : SetupConfig
default_config = record {
  domains = [];
  eviction = 30;
  no_eviction = false;
  eviction_strategy = eviction_sliding;
  auth = false;
  token = [];
  acao_url = codes "*";
  scan_everywhere = false;
  correlation_id_length = pos 20;
  origin_ip_header = [];
  max_body_size = pos 8;
  dynamic_resp = false;
  disk = false;
  disk_path = [];
  server_header = [];
  disable_version = false;
  ldap = false;
  wildcard = false;
  ftp = false;
  metrics = false;
  version = [];
  max_shared_interactions = 10_000;
}

-- The errors of `Validate`.
pub data ConfigError : Type 0 where
  no_domain id_too_short no_disk_path ftp_without_auth ldap_without_auth : ConfigError
  wildcard_without_auth no_token bad_strategy : ConfigError

unfoldable pub validate : SetupConfig → Option ConfigError
unfolding equal
validate c =
    if length c.domains == 0
    then some no_domain
    else if lt_nat c.correlation_id_length 3
    then some id_too_short
    else if c.disk && equal c.disk_path []
    then some no_disk_path
    else if c.ftp && not c.auth
    then some ftp_without_auth
    else if c.ldap && not c.auth
    then some ldap_without_auth
    else if c.wildcard && not c.auth
    then some wildcard_without_auth
    else if c.auth && equal c.token []
    then some no_token
    else if not (equal c.eviction_strategy eviction_sliding)
        && not (equal c.eviction_strategy eviction_fixed)
    then some bad_strategy
    else none

-- `maxBodyBytes`, an int64: a size that is not positive is the default. The product may wrap; it
-- is given as the number modulo 2 ^ 64.
unfoldable pub max_body_bytes : SetupConfig → ℕ
max_body_bytes c = elim c.max_body_size [
  | negsuc n ↦ 8 * 1024 * 1024
  | pos n ↦ if n == 0 then 8 * 1024 * 1024 else (n * 1024 * 1024) % 2 ^ 64
]

-- `len(b) - len(a)`.
abbrev pub compare_length : Bytes → Bytes → ℤ
compare_length a b =
    if leb (length a) (length b)
    then pos (length b - length a)
    else negsuc (length a - length b - 1)

-- `slices.SortFunc`.
abbrev pub SortFunc : Type 0
SortFunc = (Bytes → Bytes → ℤ) → List Bytes → List Bytes

-- What else `New` calls: `loadCustomRecords`, `NewDiskStorage`, the clock.
pub record Startup (H : Type 0) : Type 0 where
  pub unicode : Unicode
  pub sort_func : SortFunc
  pub custom_records : Option (Map (List CustomRecord))
  pub disk_storage : Option (MemoryStorage H)
  pub memory_hook : H
  pub now : ℕ

pub data NewServer (H : Type 0) : Type 0 where
  invalid_config : ConfigError → NewServer H
  bad_records : NewServer H
  bad_disk : NewServer H
  new_server : Server H → NewServer H

-- The loop that makes a bucket for every domain.
abbrev pub make_buckets : SharedBucket → List Bytes → Map SharedBucket → Map SharedBucket
make_buckets bucket [] buckets = buckets
make_buckets bucket (d ∷ ds) buckets = make_buckets bucket ds (insert d bucket buckets)

abbrev pub sorted_domains : {H : Type 0} → Startup H → SetupConfig → List Bytes
sorted_domains env c = env.sort_func compare_length (map (to_lower env.unicode) c.domains)

module _ {H : Type 0} (env : Startup H) (c : SetupConfig) where
  abbrev server_config : Config
  server_config = record {
    domains = sorted_domains env c;
    correlation_id_length = to_nat c.correlation_id_length;
    wildcard = c.wildcard;
    scan_everywhere = c.scan_everywhere;
    auth = c.auth;
    dynamic_resp = c.dynamic_resp;
    ldap = c.ldap;
  }

  -- A bucket as `New` makes it, with the TTL of the configuration.
  abbrev pub fresh_bucket : SharedBucket
  fresh_bucket = new_shared_bucket c.max_shared_interactions (c.eviction * nanos_per_day) env.now

  unfoldable pub server_with : Map (List CustomRecord) → MemoryStorage H → Server H
  unfolding new_shared_bucket
  server_with records storage = record {
    cfg = server_config;
    storage = storage;
    dns_count = 0;
    dns_matched = 0;
    http_count = 0;
    http_matched = 0;
    smtp_count = 0;
    smtp_matched = 0;
    ftp_count = 0;
    ldap_count = 0;
    tld_buckets =
        if c.wildcard then some (make_buckets fresh_bucket (sorted_domains env c) []) else none;
    extra_bucket = if c.auth && (c.ftp || c.ldap) then some fresh_bucket else none;
    ips = record { ipv4 = []; ipv6 = [] };
    custom_records = records;
    acme_store = [];
    user_agents = [];
    tls_config = false;
  }

  unfoldable pub memory_storage : MemoryStorage H
  unfolding new_memory_storage equal
  memory_storage =
      new_memory_storage env.memory_hook c.eviction c.no_eviction
        (equal c.eviction_strategy eviction_sliding)

  -- `New`, up to the handlers.
  unfoldable pub new : NewServer H
  unfolding validate
  new = elim (validate c) [
    | some e ↦ invalid_config e
    | none ↦ elim env.custom_records [
      | none ↦ bad_records
      | some records ↦
          if c.disk
          then elim env.disk_storage [
            | none ↦ bad_disk
            | some storage ↦ new_server (server_with records storage)
          ]
          else new_server (server_with records memory_storage)
    ]
  ]
