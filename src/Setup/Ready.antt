-- ===== src/Setup/Ready.antt =====
-- The server that `New` sets up.
use interactsh_lite.Dns.Answer.{CustomRecord}
use interactsh_lite.Storage.{MemoryStorage}
use interactsh_lite.Dns.Zone.{IsSorted, IsLongest, matched_domain, matched_domain-IsLongest}
use interactsh_lite.Prelude.Int.{ℤ, is_positive}
use interactsh_lite.Prelude.Text.{to_lower}
use interactsh_lite.Server.{Server}
use interactsh_lite.Setup.{
  SetupConfig, ConfigError, validate, compare_length, Startup, NewServer, invalid_config,
  bad_records, bad_disk, new_server, make_buckets, sorted_domains, fresh_bucket, server_with,
  memory_storage, new,
}
use interactsh_lite.Setup.Valid.{IsValidConfig, validate-IsValidConfig, IsValidConfig-validate}
use interactsh_lite.SharedBucket.{SharedBucket}
use interactsh_lite.Prelude.{
  ◌≤◌, true, false, ◌||◌, Option, none, some, List, [], ◌∷◌, map, if◌then◌else◌, Bytes, equal,
  equal_iff, any, All, length, Map, lookup, insert, lookup-insert, if-elim, is_some, ◌≡◌, refl,
  arith,
}

abbrev pub Ordered : (Bytes → Bytes → ℤ) → List Bytes → Type 0
Ordered cmp [] = Unit
Ordered cmp (d ∷ ds) = All (λ e. is_positive (cmp d e) ≡ false) ds × Ordered cmp ds

-- What `slices.SortFunc` promises of one call: no item is after one that it should be before, and
-- the items are the same.
pub record Sorts (cmp : Bytes → Bytes → ℤ) (given got : List Bytes) : Type 0 where
  pub ordered : Ordered cmp got
  pub members : (d : Bytes) → any (λ e. equal e d) got ≡ any (λ e. equal e d) given
  pub size : length got ≡ length given

lookup-make_buckets :
    (bucket : SharedBucket) (ds : List Bytes) (buckets : Map SharedBucket) (d : Bytes)
    → lookup d (make_buckets bucket ds buckets)
      ≡ (if any (λ e. equal e d) ds then some bucket else lookup d buckets)
lookup-make_buckets bucket [] buckets d = refl
lookup-make_buckets bucket (x ∷ ds) buckets d = ground (
  arith,
  lookup-make_buckets bucket ds (insert x bucket buckets) d,
  lookup-insert x d bucket buckets,
  equal_iff x d,
)

compare-length : (a b : Bytes) → is_positive (compare_length a b) ≡ false → length b ≤ length a
compare-length a b h = ground (arith, h)

All-length :
    (d : Bytes) (ds : List Bytes)
    → All (λ e. is_positive (compare_length d e) ≡ false) ds
    → All (λ e. length e ≤ length d) ds
All-length d [] h = tt
All-length d (e ∷ ds) h = (compare-length d e h.0, All-length d ds h.1)

Ordered-IsSorted : (ds : List Bytes) → Ordered compare_length ds → IsSorted ds
Ordered-IsSorted [] h = tt
Ordered-IsSorted (d ∷ ds) h = (All-length d ds h.0, Ordered-IsSorted ds h.1)

module _ {H : Type 0} (env : Startup H) (c : SetupConfig) where
  -- A server that is set up from a configuration.
  pub record IsReady (s : Server H) : Type 0 where
    pub valid : IsValidConfig c
    pub sorted : IsSorted s.cfg.domains
    pub domains :
        (d : Bytes)
        → any (λ e. equal e d) s.cfg.domains
          ≡ any (λ e. equal e d) (map (to_lower env.unicode) c.domains)
    pub buckets : is_some s.tld_buckets ≡ c.wildcard
    pub bucket :
        (buckets : Map SharedBucket) (d : Bytes)
        → s.tld_buckets ≡ some buckets
        → lookup d buckets
          ≡ (if any (λ e. equal e d) s.cfg.domains then some (fresh_bucket env c) else none)
    pub extra : is_some s.extra_bucket ≡ (c.ftp || c.ldap)
    pub id_length : 3 ≤ s.cfg.correlation_id_length

  -- What `New` returns.
  abbrev pub Outcome : NewServer H → Type 0
  Outcome (invalid_config e) = validate c ≡ some e
  Outcome bad_records = env.custom_records ≡ none
  Outcome bad_disk = (c.disk ≡ true) × (env.disk_storage ≡ none)
  Outcome (new_server s) = IsReady s

  server_with-IsReady :
      (records : Map (List CustomRecord)) (storage : MemoryStorage H)
      → Sorts compare_length (map (to_lower env.unicode) c.domains) (sorted_domains env c)
      → validate c ≡ none
      → IsReady (server_with env c records storage)
  unfolding server_with lookup
  server_with-IsReady records storage sorts h =
      let v = validate-IsValidConfig c h in
      record {
        valid = v;
        sorted = Ordered-IsSorted (sorted_domains env c) sorts.ordered;
        domains = sorts.members;
        buckets = ground arith;
        bucket = λ buckets d e.
            ground (arith, e, lookup-make_buckets (fresh_bucket env c) (sorted_domains env c) [] d);
        extra = ground (arith, v.guarded);
        id_length = v.id_length;
      }

  stored-Outcome :
      (records : Map (List CustomRecord)) (o : Option (MemoryStorage H))
      → Sorts compare_length (map (to_lower env.unicode) c.domains) (sorted_domains env c)
      → validate c ≡ none
      → c.disk ≡ true
      → env.disk_storage ≡ o
      → Outcome (elim o [
        | none ↦ bad_disk
        | some storage ↦ new_server (server_with env c records storage)
      ])
  stored-Outcome records none sorts h d e = (d, e)
  stored-Outcome records (some m) sorts h d e = server_with-IsReady records m sorts h

  records-Outcome :
      (o : Option (Map (List CustomRecord)))
      → Sorts compare_length (map (to_lower env.unicode) c.domains) (sorted_domains env c)
      → validate c ≡ none
      → env.custom_records ≡ o
      → Outcome (elim o [
        | none ↦ bad_records
        | some records ↦
            if c.disk
            then elim env.disk_storage [
              | none ↦ bad_disk
              | some storage ↦ new_server (server_with env c records storage)
            ]
            else new_server (server_with env c records (memory_storage env c))
      ])
  records-Outcome none sorts h e = e
  records-Outcome (some records) sorts h e =
      if-elim Outcome c.disk
        (elim env.disk_storage [
          | none ↦ bad_disk
          | some storage ↦ new_server (server_with env c records storage)
        ])
        (new_server (server_with env c records (memory_storage env c)))
        (λ d. stored-Outcome records env.disk_storage sorts h d refl)
        (λ d. server_with-IsReady records (memory_storage env c) sorts h)

  checked-Outcome :
      (o : Option ConfigError)
      → Sorts compare_length (map (to_lower env.unicode) c.domains) (sorted_domains env c)
      → validate c ≡ o
      → Outcome (elim o [
        | some e ↦ invalid_config e
        | none ↦ elim env.custom_records [
          | none ↦ bad_records
          | some records ↦
              if c.disk
              then elim env.disk_storage [
                | none ↦ bad_disk
                | some storage ↦ new_server (server_with env c records storage)
              ]
              else new_server (server_with env c records (memory_storage env c))
        ]
      ])
  checked-Outcome none sorts h = records-Outcome env.custom_records sorts h refl
  checked-Outcome (some e) sorts h = h

  -- If the sort does what it promises, a server that `New` sets up has a valid configuration: a
  -- domain, IDs of three characters at least, authentication for the logging services and
  -- wildcards, a token for authentication, a known eviction strategy, a path for a disk storage.
  -- Its domains are those of the configuration in lower case, sorted by length, the longest
  -- first. With wildcards every domain, and nothing else, has an empty bucket; there is an extra
  -- bucket exactly if FTP or LDAP is logged. A failure is that of the step that failed.
  pub new-Outcome :
      Sorts compare_length (map (to_lower env.unicode) c.domains) (sorted_domains env c)
      → Outcome (new env c)
  unfolding new
  new-Outcome sorts = checked-Outcome (validate c) sorts refl

  -- With a valid configuration that keeps sessions in memory, custom records that load, and a
  -- sort that does what it promises, `New` succeeds, and no domain of the server that a name lies
  -- in is longer than the one that it is matched to.
  pub new_matches :
      (records : Map (List CustomRecord)) (qname : Bytes)
      → Sorts compare_length (map (to_lower env.unicode) c.domains) (sorted_domains env c)
      → IsValidConfig c
      → env.custom_records ≡ some records
      → c.disk ≡ false
      → (s : Server H) × (new env c ≡ new_server s)
        × IsLongest s.cfg.domains qname (matched_domain s.cfg.domains qname)
  unfolding new server_with
  new_matches records qname sorts v r d =
      let s = server_with env c records (memory_storage env c) in
      let n = IsValidConfig-validate c v in
      (
        s,
        ground (arith, n, r, d),
        matched_domain-IsLongest (sorted_domains env c) qname
            (server_with-IsReady records (memory_storage env c) sorts n).sorted,
      )
