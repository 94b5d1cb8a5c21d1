-- ===== src/Endpoints/Calls.antt =====
-- What the API calls do.
use interactsh_lite.Correlation.{is_cid_base32}
use interactsh_lite.Endpoints.{
  RegisterRequest, PollResponse, Reply, registered, polled, bad_request, encryption_failed,
  KeyLibrary, Others, truncate, check_response, check_register, handle_register, poll_shared,
  poll_session, poll_stored, poll_found, short_id, handle_poll, read_extra, read_tld_data,
}
use interactsh_lite.Oobclient.Response.{ResponseConfig, is_allowed_unauthenticated}
use interactsh_lite.Server.{Server, Library}
use interactsh_lite.Storage.Access.{get_session, get_and_clear_interactions}
use interactsh_lite.Storage.{MemoryStorage, Hooks, ok}
use interactsh_lite.Prelude.{
  ℕ, ap, subst, sym, ◌∙◌, Bool, true, false, ◌&&◌, ◌||◌, Option, none, some, List, [], ◌∷◌, map,
  ltb, if◌then◌else◌, Bytes, length, length-take, take, take_all, is_some, ◌≡◌, ◌≢◌, refl, arith,
  ==_iff,
}

truncate-take : (n : ℕ) (id : Bytes) → ltb (length id) n ≡ false → truncate n id ≡ take n id
truncate-take n id h = ground (arith, h, take_all n id)

-- The server takes the response configuration of a registration: none, or any if dynamic responses
-- are on and either clients authenticate or it is a mere redirect.
abbrev pub takes_response : {H : Type 0} → Library → Server H → Option ResponseConfig → Bool
takes_response lib s none = true
takes_response lib s (some r) =
    s.cfg.dynamic_resp && (s.cfg.auth || is_allowed_unauthenticated lib.unicode (some r))

-- A request that may be registered under the ID.
pub record IsAccepted {H : Type 0} (lib : Library) (keys : KeyLibrary) (s : Server H)
    (req : RegisterRequest) (id : Bytes) : Type 0 where
  pub length-id : length id ≡ s.cfg.correlation_id_length
  pub prefix : id ≡ take s.cfg.correlation_id_length req.correlation_id
  pub valid : is_cid_base32 id ≡ true
  pub secret : req.secret_key ≢ []
  pub parses : is_some (keys.parse_public_key req.public_key) ≡ true
  pub response : takes_response lib s req.response ≡ true

module _ {H : Type 0} (hooks : Hooks H) (lib : Library) (keys : KeyLibrary) where
  -- A registration that is answered with success was acceptable: its ID is the prefix of the
  -- configured length, of base-32 characters, its secret is not empty, its public key parses and
  -- the server takes its response configuration.
  handle_register_ok :
      (req : RegisterRequest) (agent : Bytes) (random : Option Bytes) (now : ℕ) (s : Server H)
      → (handle_register hooks lib keys (some req) agent random now s).0 ≡ registered
      → let id = take s.cfg.correlation_id_length req.correlation_id in IsAccepted lib keys s req id
  unfolding handle_register check_register check_response
  handle_register_ok req agent random now s h =
      let n = s.cfg.correlation_id_length in
      let cid = req.correlation_id in
      record {
        length-id = ground (arith, h, length-take n cid);
        prefix = refl;
        valid =
            subst (λ i. is_cid_base32 i ≡ true) (truncate-take n cid (ground (arith, h)))
              (ground (arith, h));
        secret = λ e. ground (arith, h, e);
        parses = ground (arith, h);
        response = ground (arith, h);
      }

-- A reply that hands out these interactions with this key.
abbrev pub HandsOut : Reply → List Bytes → Bytes → Type 0
HandsOut reply encoded aes_key =
    (r : PollResponse) × (reply ≡ polled r) × (r.encoded ≡ encoded) × (r.aes_key ≡ aes_key)

-- The key that goes with the interactions: none if there are no interactions.
abbrev pub key_for : List Bytes → Bytes → Bytes
key_for [] aes_key = []
key_for (i ∷ is) aes_key = aes_key

cleared :
    {H : Type 0} (p : ℕ) (m : MemoryStorage H)
    → let m' = (get_and_clear_interactions p m).1 in
      ((m'.heap p).interactions ≡ [])
      × ((m'.heap p).aes_key ≡ (m.heap p).aes_key)
      × ((m'.heap p).public_key ≡ (m.heap p).public_key)
unfolding get_and_clear_interactions
cleared p m = ground (arith, ==_iff p p)

module _ {H : Type 0} where
  read_extra_storage :
      (id : Bytes) (now : ℕ) (s : Server H) → (read_extra id now s).1.storage ≡ s.storage
  unfolding read_extra
  read_extra_storage id now s = ground arith

  read_tld_data_storage :
      (id : Bytes) (now : ℕ) (s : Server H) → (read_tld_data id now s).1.storage ≡ s.storage
  unfolding read_tld_data
  read_tld_data_storage id now s = ground arith

  poll_shared_lem :
      (id : Bytes) (now : ℕ) (encoded : List Bytes) (aes_key : Bytes) (s : Server H)
      → HandsOut (poll_shared id now encoded aes_key s).0 encoded aes_key
        × ((poll_shared id now encoded aes_key s).1.storage ≡ s.storage)
  unfolding poll_shared
  poll_shared_lem id now encoded aes_key s = (
    (_, refl, refl, refl),
    read_tld_data_storage id now (read_extra id now s).1 ∙ read_extra_storage id now s,
  )

module _ {H : Type 0} (hooks : Hooks H) (keys : KeyLibrary) (others : Others H) where
  poll_stored_lem :
      (id aes_key : Bytes) (p now : ℕ) (is : List Bytes) (s : Server H)
      → keys.encrypt_aes_key (s.storage.heap p).aes_key (s.storage.heap p).public_key ≡ some aes_key
      → let result = poll_stored hooks keys others id p now is s in
        HandsOut result.0 (map keys.base64 is) (key_for is aes_key) × (result.1.storage ≡ s.storage)
  unfolding poll_stored
  poll_stored_lem id aes_key p now [] s e = poll_shared_lem id now [] [] s
  poll_stored_lem id aes_key p now (i ∷ is) s e =
      rw (poll_stored, e) (poll_shared_lem id now (map keys.base64 (i ∷ is)) aes_key s)

  poll_session_lem :
      (id aes_key : Bytes) (p now : ℕ) (s : Server H)
      → let session = (others.between s.storage).heap p in
        let result = poll_session hooks keys others id p now s in
        keys.encrypt_aes_key session.aes_key session.public_key ≡ some aes_key
        → HandsOut result.0
            (map keys.base64 session.interactions)
            (key_for session.interactions aes_key)
          × ((result.1.storage.heap p).interactions ≡ [])
  unfolding poll_session get_and_clear_interactions
  poll_session_lem id aes_key p now s e =
      let m = others.between s.storage in
      let m' = (get_and_clear_interactions p m).1 in
      let c = cleared p m in
      let t =
        poll_stored_lem id aes_key p now (m.heap p).interactions (record s { storage = m' })
          (ground (arith, c, e)) in
      (t.0, ap (λ (st : MemoryStorage H). (st.heap p).interactions) t.1 ∙ c.0)

  poll_stored_lost :
      (id : Bytes) (p now : ℕ) (is : List Bytes) (s : Server H)
      → is ≢ []
      → keys.encrypt_aes_key (s.storage.heap p).aes_key (s.storage.heap p).public_key ≡ none
      → poll_stored hooks keys others id p now is s ≡ (encryption_failed, s)
  unfolding poll_stored
  poll_stored_lost id p now [] s n e = absurd (n refl)
  poll_stored_lost id p now (i ∷ is) s n e = rw (poll_stored, e) refl

  poll_session_lost :
      (id : Bytes) (p now : ℕ) (s : Server H)
      → ((others.between s.storage).heap p).interactions ≢ []
      → keys.encrypt_aes_key
          ((others.between s.storage).heap p).aes_key
          ((others.between s.storage).heap p).public_key
        ≡ none
      → let result = poll_session hooks keys others id p now s in
        (result.0 ≡ encryption_failed) × ((result.1.storage.heap p).interactions ≡ [])
  unfolding poll_session get_and_clear_interactions
  poll_session_lost id p now s n e =
      let m = others.between s.storage in
      let c = cleared p m in
      let t =
        poll_stored_lost id p now (m.heap p).interactions
          (record s { storage = (get_and_clear_interactions p m).1 }) n (ground (arith, c, e)) in
      (ap (λ x. x.0) t, ap (λ x. (x.1.storage.heap p).interactions) t ∙ c.0)

  handle_poll-poll_session :
      (id secret : Bytes) (p now now' : ℕ) (s : Server H) (m : MemoryStorage H)
      → let short = take s.cfg.correlation_id_length id in
        ltb (length id) s.cfg.correlation_id_length ≡ false
        → get_session hooks others.during short secret now now' s.storage ≡ (ok p, m)
        → handle_poll hooks keys others id secret now now' s
          ≡ poll_session hooks keys others short p now' (record s { storage = m })
  unfolding handle_poll poll_found
  handle_poll-poll_session id secret p now now' s m l g =
      let n = s.cfg.correlation_id_length in
      let found : Bytes → Reply × Server H = λ i.
        poll_found hooks keys others i now'
          (get_session hooks others.during i secret now now' s.storage) s in
      ap (λ (b : Bool). if b then (bad_request short_id, s) else found (truncate n id)) l
      ∙ ap found (truncate-take n id l)
      ∙ ap (λ r. poll_found hooks keys others (take n id) now' r s) g

  -- A poll with the credentials of a session is answered with all its interactions in base64, and
  -- with its key encrypted if there are any; the session is left without interactions.
  pub handle_poll_ok :
      (id secret aes_key : Bytes) (p now now' : ℕ) (s : Server H) (m : MemoryStorage H)
      → ltb (length id) s.cfg.correlation_id_length ≡ false
      → get_session hooks others.during
          (take s.cfg.correlation_id_length id)
          secret
          now
          now'
          s.storage
        ≡ (ok p, m)
      → keys.encrypt_aes_key
          ((others.between m).heap p).aes_key
          ((others.between m).heap p).public_key
        ≡ some aes_key
      → let interactions = ((others.between m).heap p).interactions in
        let result = handle_poll hooks keys others id secret now now' s in
        HandsOut result.0 (map keys.base64 interactions) (key_for interactions aes_key)
        × ((result.1.storage.heap p).interactions ≡ [])
  handle_poll_ok id secret aes_key p now now' s m l g e =
      let interactions = ((others.between m).heap p).interactions in
      subst
        (λ (x : Reply × Server H).
          HandsOut x.0 (map keys.base64 interactions) (key_for interactions aes_key)
          × ((x.1.storage.heap p).interactions ≡ []))
        (sym (handle_poll-poll_session id secret p now now' s m l g))
        (poll_session_lem (take s.cfg.correlation_id_length id) aes_key p now'
          (record s { storage = m }) e)

  -- If the key cannot be encrypted, the poll fails with the interactions gone: the session is left
  -- without them.
  pub handle_poll_lost :
      (id secret : Bytes) (p now now' : ℕ) (s : Server H) (m : MemoryStorage H)
      → ltb (length id) s.cfg.correlation_id_length ≡ false
      → get_session hooks others.during
          (take s.cfg.correlation_id_length id)
          secret
          now
          now'
          s.storage
        ≡ (ok p, m)
      → ((others.between m).heap p).interactions ≢ []
      → keys.encrypt_aes_key
          ((others.between m).heap p).aes_key
          ((others.between m).heap p).public_key
        ≡ none
      → let result = handle_poll hooks keys others id secret now now' s in
        (result.0 ≡ encryption_failed) × ((result.1.storage.heap p).interactions ≡ [])
  handle_poll_lost id secret p now now' s m l g n e =
      subst
        (λ (x : Reply × Server H).
          (x.0 ≡ encryption_failed) × ((x.1.storage.heap p).interactions ≡ []))
        (sym (handle_poll-poll_session id secret p now now' s m l g))
        (poll_session_lost (take s.cfg.correlation_id_length id) p now' (record s { storage = m }) n
          e)
