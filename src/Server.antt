-- ===== src/Server.antt =====
-- interactsh-srv/oobsrv/server.go: the server's state, as far as the protocol handlers use it, and
-- the capture of interactions. `Interaction` is that of oobclient/interaction.go.
pub mod Capture
pub mod Tests
use interactsh_lite.Crypto.{Ctr}
use interactsh_lite.Correlation.{Match, match_correlation_id, match_correlation_id_everywhere}
use interactsh_lite.Dns.Acme.{AcmeStore}
use interactsh_lite.Dns.Answer.{ServerIps, CustomRecord}
use interactsh_lite.Prelude.Text.{Unicode}
use interactsh_lite.SharedBucket.{SharedBucket, append}
use interactsh_lite.Storage.{MemoryStorage}
use interactsh_lite.Storage.Access.{append_interaction}
use interactsh_lite.Prelude.{
  ℕ, Bool, true, false, not, ◌&&◌, ◌||◌, Option, none, some, List, [], ◌∷◌, if◌then◌else◌, Bytes,
  equal, Map, lookup, insert, length, ltb,
}

pub record Interaction : Type 0 where
  pub protocol : Bytes
  pub unique_id : Bytes
  pub full_id : Bytes
  pub q_type : Bytes
  pub raw_request : Bytes
  pub raw_response : Bytes
  pub smtp_from : Bytes
  pub smtp_to : Bytes
  pub remote_address : Bytes
  pub timestamp : ℕ

pub record Config : Type 0 where
  pub domains : List Bytes
  pub correlation_id_length : ℕ
  pub wildcard : Bool
  pub scan_everywhere : Bool
  pub auth : Bool
  pub dynamic_resp : Bool
  pub ldap : Bool

-- `tls_config` tells whether there is one.
pub record Server (H : Type 0) : Type 0 where
  pub cfg : Config
  pub storage : MemoryStorage H
  pub dns_count : ℕ
  pub dns_matched : ℕ
  pub http_count : ℕ
  pub http_matched : ℕ
  pub smtp_count : ℕ
  pub smtp_matched : ℕ
  pub ftp_count : ℕ
  pub ldap_count : ℕ
  pub tld_buckets : Option (Map SharedBucket)
  pub extra_bucket : Option SharedBucket
  pub ips : ServerIps
  pub custom_records : Map (List CustomRecord)
  pub acme_store : AcmeStore
  pub user_agents : Map ℕ
  pub tls_config : Bool

-- What the handlers call: `json.Marshal` of an interaction, and the libraries behind the others.
pub record Library : Type 0 where
  pub unicode : Unicode
  pub ctr : Ctr
  pub marshal : Interaction → Option Bytes

-- What a capture meets: the answers of `HasCorrelationID` while the text is scanned, what these
-- calls and other goroutines do to the storage meanwhile, and the IV and the clock when the
-- interaction of a match is stored. A match list has an ID once.
pub record Meets (H : Type 0) : Type 0 where
  pub has_correlation_id : Bytes → Bool
  pub others : MemoryStorage H → MemoryStorage H
  pub iv : Bytes → Option Bytes
  pub clock : Bytes → ℕ

-- `interaction.UniqueID = match.UniqueID; interaction.FullId = match.FullID`
abbrev pub with_match : Match → Interaction → Interaction
with_match match i = record i { unique_id = match.unique_id; full_id = match.full_id }

module _ {H : Type 0} (lib : Library) where
  -- One round of the loop. Failures are logged.
  unfoldable pub store_match : Meets H → Interaction → Match → MemoryStorage H → MemoryStorage H
  unfolding append_interaction
  store_match meets interaction match m = elim (lib.marshal (with_match match interaction)) [
    | none ↦ m
    | some encoded ↦
        append_interaction lib.ctr match.unique_id encoded (meets.iv match.unique_id)
          (meets.clock match.unique_id) m
  ]

  unfoldable pub store_matched_interactions :
      Meets H → List Match → Interaction → MemoryStorage H → MemoryStorage H
  unfolding store_match
  store_matched_interactions meets [] interaction m = m
  store_matched_interactions meets (match ∷ matches) interaction m =
      store_matched_interactions meets matches interaction (store_match meets interaction match m)

  -- `s.tldBuckets[domain]`, of a map that is nil unless wildcards are on.
  abbrev pub tld_bucket : Bytes → Server H → Option SharedBucket
  tld_bucket domain s = elim s.tld_buckets [ none ↦ none | some buckets ↦ lookup domain buckets ]

  abbrev set_bucket : Bytes → SharedBucket → Server H → Server H
  set_bucket domain b s = elim s.tld_buckets [
    | none ↦ s
    | some buckets ↦ record s { tld_buckets = some (insert domain b buckets) }
  ]

  unfoldable pub capture_wildcard : Bytes → Interaction → Server H → Server H
  unfolding append
  capture_wildcard domain interaction s =
      if not s.cfg.wildcard then s else elim (tld_bucket domain s) [
        | none ↦ s
        | some bucket ↦ elim (lib.marshal interaction) [
          | none ↦ s
          | some encoded ↦ set_bucket domain (append encoded bucket) s
        ]
      ]

  -- The matches of `captureInteraction`.
  unfoldable pub capture_matches : Meets H → Bytes → Bytes → Server H → List Match
  unfolding equal
  capture_matches meets match_input scan_input s =
      if not (equal scan_input []) && s.cfg.scan_everywhere
      then (match_correlation_id_everywhere lib.unicode scan_input s.cfg.correlation_id_length
          meets.has_correlation_id)
      else (match_correlation_id lib.unicode match_input s.cfg.correlation_id_length s.cfg.domains
          meets.has_correlation_id)

  unfoldable pub capture_interaction :
      Meets H → Bytes → Bytes → Bytes → Interaction → Interaction → Server H → Bool × Server H
  unfolding capture_wildcard capture_matches store_matched_interactions
  capture_interaction meets domain match_input scan_input wildcard_interaction store_interaction s =
      let s' = capture_wildcard domain wildcard_interaction s in
      let matches = capture_matches meets match_input scan_input s' in
      (
        ltb 0 (length matches),
        record s' {
          storage =
              store_matched_interactions meets matches store_interaction (meets.others s'.storage);
        },
      )
