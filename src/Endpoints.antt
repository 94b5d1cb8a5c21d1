-- ===== src/Endpoints.antt =====
-- interactsh-srv/oobsrv/endpoints.go: the API handlers. A request body is what the JSON decoder
-- makes of it, `none` if it fails; a reply is named by its branch, with the data that it carries. The
-- storage is the memory storage, whose `GetAndClearInteractions` never fails.
pub mod Calls
mod Tests
use interactsh_lite.Correlation.{is_cid_base32}
use interactsh_lite.Oobclient.Response.{ResponseConfig, is_allowed_unauthenticated}
use interactsh_lite.Server.{Server, Library}
use interactsh_lite.SharedBucket.{SharedBucket, read_from}
use interactsh_lite.Storage.Access.{get_session, get_and_clear_interactions, delete_session}
use interactsh_lite.Storage.Register.{register}
use interactsh_lite.Storage.{MemoryStorage, Hooks, StorageError, Result, ok, err}
use interactsh_lite.UserAgents.{record_agent}
use interactsh_lite.Prelude.{
  ℕ, Bool, true, false, not, ◌&&◌, Option, none, some, List, [], ◌∷◌, ◌++◌, map, ltb, if◌then◌else◌,
  Bytes, equal, Map, lookup, insert, length, take, is_some,
}

pub record RegisterRequest : Type 0 where
  pub public_key : Bytes
  pub secret_key : Bytes
  pub correlation_id : Bytes
  pub response : Option ResponseConfig

pub record DeregisterRequest : Type 0 where
  pub correlation_id : Bytes
  pub secret_key : Bytes

pub record PollResponse : Type 0 where
  pub encoded : List Bytes
  pub aes_key : Bytes
  pub extra : List Bytes
  pub tld_data : List Bytes

-- The reasons of a 400.
pub data Refusal : Type 0 where
  bad_json : Refusal
  empty_secret : Refusal
  short_id : Refusal
  bad_characters : Refusal
  bad_public_key : Refusal
  no_dynamic_resp : Refusal
  no_redirect : Refusal
  storage_refuses : StorageError → Refusal

pub data Reply : Type 0 where
  bad_request : Refusal → Reply
  encryption_failed : Reply
  registered : Reply
  deregistered : Reply
  polled : PollResponse → Reply

-- `ParsePublicKey` (its argument is what it accepts), `EncryptAESKey` of a key for a public key,
-- and base64.
pub record KeyLibrary : Type 0 where
  pub parse_public_key : Bytes → Option Bytes
  pub encrypt_aes_key : Bytes → Bytes → Option Bytes
  pub base64 : Bytes → Bytes

-- `if len(id) > s.cfg.CorrelationIdLength { id = id[:s.cfg.CorrelationIdLength] }`
abbrev pub truncate : ℕ → Bytes → Bytes
truncate n id = if ltb n (length id) then take n id else id

-- The check of a response configuration.
unfoldable pub check_response :
    {H : Type 0} → Library → Option ResponseConfig → Server H → Option Refusal
check_response lib none s = none
check_response lib (some response) s =
    if not s.cfg.dynamic_resp
    then some no_dynamic_resp
    else if not s.cfg.auth && not (is_allowed_unauthenticated lib.unicode (some response))
    then some no_redirect
    else none

-- What comes before the storage: the refusal, or the truncated ID and the parsed key.
unfoldable pub check_register :
    {H : Type 0}
    → Library
    → KeyLibrary
    → RegisterRequest
    → Server H
    → (Bytes × Bytes → Reply × Server H)
    → Reply × Server H
unfolding equal is_cid_base32 check_response
check_register lib keys req s accept =
    if equal req.secret_key []
    then (bad_request empty_secret, s)
    else if ltb (length req.correlation_id) s.cfg.correlation_id_length
    then (bad_request short_id, s)
    else let id = truncate s.cfg.correlation_id_length req.correlation_id in
      if not (is_cid_base32 id)
      then (bad_request bad_characters, s)
      else elim (keys.parse_public_key req.public_key) [
        | none ↦ (bad_request bad_public_key, s)
        | some key ↦ elim (check_response lib req.response s) [
          | some refusal ↦ (bad_request refusal, s)
          | none ↦ accept (id, key)
        ]
      ]

module _ {H : Type 0} (hooks : Hooks H) (lib : Library) (keys : KeyLibrary) where
  -- `s.storage.Register`, and what follows it.
  unfoldable pub store_registration :
      RegisterRequest → Bytes → Option Bytes → ℕ → Server H → Bytes × Bytes → Reply × Server H
  unfolding register record_agent
  store_registration req agent random now s (id, key) =
      let (result, storage) =
        register hooks
          (record {
            correlation_id = id;
            public_key = key;
            secret_key = req.secret_key;
            response = req.response;
            random = random;
          })
          now s.storage in
      elim result [
        | err e ↦ (bad_request (storage_refuses e), record s { storage = storage })
        | ok _ ↦ (
          registered,
          record s { storage = storage; user_agents = record_agent agent s.user_agents },
        )
      ]

  unfoldable pub handle_register :
      Option RegisterRequest → Bytes → Option Bytes → ℕ → Server H → Reply × Server H
  unfolding check_register store_registration
  handle_register none agent random now s = (bad_request bad_json, s)
  handle_register (some req) agent random now s =
      check_register lib keys req s (store_registration req agent random now s)

  unfoldable pub handle_deregister : Option DeregisterRequest → Server H → Reply × Server H
  unfolding delete_session
  handle_deregister none s = (bad_request bad_json, s)
  handle_deregister (some req) s =
      if ltb (length req.correlation_id) s.cfg.correlation_id_length
      then (bad_request short_id, s)
      else let (result, storage) =
          delete_session hooks (truncate s.cfg.correlation_id_length req.correlation_id)
            req.secret_key s.storage in
        let s' = record s { storage = storage } in
        elim result [ err e ↦ (bad_request (storage_refuses e), s') | ok _ ↦ (deregistered, s') ]

-- What other goroutines do to the storage while `GetSession` is without its lock, and between it
-- and the reading of the interactions.
pub record Others (H : Type 0) : Type 0 where
  pub during : MemoryStorage H → MemoryStorage H
  pub between : MemoryStorage H → MemoryStorage H

-- The loop over the domains: what is read, and the buckets afterwards.
unfoldable pub read_tlds : Bytes → ℕ → List Bytes → Map SharedBucket → List Bytes × Map SharedBucket
unfolding read_from
read_tlds id now [] buckets = ([], buckets)
read_tlds id now (domain ∷ domains) buckets =
    let rest = read_tlds id now domains in
    elim (lookup domain buckets) [
      | none ↦ rest buckets
      | some bucket ↦
          let (raw, bucket') = read_from id now bucket in
          let (others, buckets') = rest (insert domain bucket' buckets) in (raw ++ others, buckets')
    ]

module _ {H : Type 0} where
  unfoldable pub read_extra : Bytes → ℕ → Server H → List Bytes × Server H
  unfolding read_from
  read_extra id now s = elim s.extra_bucket [
    | none ↦ ([], s)
    | some bucket ↦
        let (raw, bucket') = read_from id now bucket in
        (raw, record s { extra_bucket = some bucket' })
  ]

  unfoldable pub read_tld_data : Bytes → ℕ → Server H → List Bytes × Server H
  unfolding read_tlds
  read_tld_data id now s = elim s.tld_buckets [
    | none ↦ ([], s)
    | some buckets ↦
        let (raw, buckets') = read_tlds id now s.cfg.domains buckets in
        if s.cfg.wildcard then (raw, record s { tld_buckets = some buckets' }) else ([], s)
  ]

  -- The reply once the interactions are encoded and the key encrypted.
  unfoldable pub poll_shared : Bytes → ℕ → List Bytes → Bytes → Server H → Reply × Server H
  unfolding read_extra read_tld_data
  poll_shared id now encoded aes_key s =
      let (extra, s') = read_extra id now s in
      let (tld_data, s'') = read_tld_data id now s' in
      (
        polled
            (record { encoded = encoded; aes_key = aes_key; extra = extra; tld_data = tld_data }),
        s'',
      )

module _ {H : Type 0} (hooks : Hooks H) (keys : KeyLibrary) (others : Others H) where
  -- What follows the reading of the interactions of the session p.
  unfoldable pub poll_stored : Bytes → ℕ → ℕ → List Bytes → Server H → Reply × Server H
  unfolding poll_shared
  poll_stored id p now [] s = poll_shared id now [] [] s
  poll_stored id p now (i ∷ is) s =
      let session = s.storage.heap p in
      elim (keys.encrypt_aes_key session.aes_key session.public_key) [
        | none ↦ (encryption_failed, s)
        | some aes_key ↦ poll_shared id now (map keys.base64 (i ∷ is)) aes_key s
      ]

  -- Behind `GetSession`: p is the session of the handle.
  unfoldable pub poll_session : Bytes → ℕ → ℕ → Server H → Reply × Server H
  unfolding get_and_clear_interactions poll_stored
  poll_session id p now s =
      let (interactions, storage) = get_and_clear_interactions p (others.between s.storage) in
      poll_stored id p now interactions (record s { storage = storage })

  -- What follows `GetSession`, with its result and the storage that it leaves.
  unfoldable pub poll_found : Bytes → ℕ → Result ℕ × MemoryStorage H → Server H → Reply × Server H
  unfolding poll_session
  poll_found id now (err e, m) s = (bad_request (storage_refuses e), record s { storage = m })
  poll_found id now (ok p, m) s = poll_session id p now (record s { storage = m })

  unfoldable pub handle_poll : Bytes → Bytes → ℕ → ℕ → Server H → Reply × Server H
  unfolding poll_found
  handle_poll id secret now now' s =
      let short = truncate s.cfg.correlation_id_length id in
      if ltb (length id) s.cfg.correlation_id_length
      then (bad_request short_id, s)
      else poll_found short now' (get_session hooks others.during short secret now now' s.storage) s
