-- ===== src/Oobclient/Session.antt =====
-- `SaveSession` and `LoadSession` of oobclient/client.go, with `decodePublicKey`. YAML, the encodings
-- of keys and `url.URL.String` are the record `SessionLibrary`; the private key is of its type.
use interactsh_lite.Oobclient.Options.{Options, Client, default_options}
use interactsh_lite.Oobclient.Registration.{
  Url, RegisterError, Network, Registrant, perform_registration,
}
use interactsh_lite.Oobclient.Response.{ResponseConfig}
use interactsh_lite.Prelude.Int.{ℤ, pos, is_positive, to_nat}
use interactsh_lite.Prelude.{
  ◌<◌, Bool, true, false, Option, none, some, if◌then◌else◌, Bytes, ◌≡◌, refl, sym, subst, arith,
}

-- `sessionInfo`, the content of the file.
pub record SessionInfo : Type 0 where
  pub server_url : Bytes
  pub token : Bytes
  pub private_key : Bytes
  pub correlation_id : Bytes
  pub secret_key : Bytes
  pub public_key : Bytes
  pub response : Option ResponseConfig
  pub correlation_nonce_length : ℤ

pub record SessionLibrary (Key : Type 0) : Type 0 where
  pub marshal : SessionInfo → Option Bytes
  pub unmarshal : Bytes → Option SessionInfo
  pub marshal_key : Key → Bytes
  pub parse_key : Bytes → Option Key
  pub decode_base64 : Bytes → Option Bytes
  pub decode_pem : Bytes → Option Bytes
  -- A key, and whether it is an RSA key.
  pub parse_public_key : Bytes → Option (Bytes × Bool)
  pub url_string : Url → Bytes

pub data SaveError : Type 0 where
  marshal_failed write_failed : SaveError

pub data LoadError : Type 0 where
  unreadable bad_yaml bad_private_key bad_public_key bad_server_url : LoadError
  re_registration : RegisterError → LoadError

pub data LoadResult (Key : Type 0) : Type 0 where
  not_loaded : LoadError → LoadResult Key
  loaded : Client → Key → LoadResult Key

module _ {Key : Type 0} (lib : SessionLibrary Key) where
  abbrev pub info_of : Client → Key → SessionInfo
  info_of c key = record {
    server_url = lib.url_string c.server_url;
    token = c.token;
    private_key = lib.marshal_key key;
    correlation_id = c.request.correlation_id;
    secret_key = c.request.secret_key;
    public_key = c.request.public_key;
    response = c.request.response;
    correlation_nonce_length = pos c.nonce_length;
  }

  -- `SaveSession`: the error and the file, before and after; `writes` says that it can be written.
  unfoldable pub save_session :
      (writes : Bool) → Client → Key → Option Bytes → Option SaveError × Option Bytes
  save_session writes c key file = elim (lib.marshal (info_of c key)) [
    | none ↦ (some marshal_failed, file)
    | some d ↦ if writes then (none, some d) else (some write_failed, file)
  ]

  unfoldable pub decode_public_key : Bytes → Option Bytes
  decode_public_key s = elim (lib.decode_base64 s) [
    | none ↦ none
    | some decoded ↦ elim (lib.decode_pem decoded) [
      | none ↦ none
      | some block ↦ elim (lib.parse_public_key block) [
        | none ↦ none
        | some (key, is_rsa) ↦ if is_rsa then some key else none
      ]
    ]
  ]

-- What the options change.
unfoldable pub keep_alive_of : Option Options → ℤ
keep_alive_of none = default_options.keep_alive_interval
keep_alive_of (some o) =
    if o.disable_keep_alive
    then pos 0
    else if is_positive o.keep_alive_interval
    then o.keep_alive_interval
    else default_options.keep_alive_interval

abbrev pub saved_nonce_length : ℤ → ℤ
saved_nonce_length saved =
    if is_positive saved then saved else default_options.correlation_id_nonce_length

unfoldable pub loaded_nonce_length : Option Options → ℤ → ℤ
loaded_nonce_length none saved = saved_nonce_length saved
loaded_nonce_length (some o) saved =
    if is_positive o.correlation_id_nonce_length
    then o.correlation_id_nonce_length
    else saved_nonce_length saved

abbrev pub fallback_disabled : Option Options → Bool
fallback_disabled none = false
fallback_disabled (some o) = o.disable_http_fallback

unfoldable pub client_from : Option Options → SessionInfo → Url → Client
unfolding keep_alive_of loaded_nonce_length
client_from opts i url = record {
  request = record {
    public_key = i.public_key;
    secret_key = i.secret_key;
    correlation_id = i.correlation_id;
    response = i.response;
  };
  server_url = url;
  token = i.token;
  nonce_length = to_nat (loaded_nonce_length opts i.correlation_nonce_length);
  keep_alive = is_positive (keep_alive_of opts);
  disable_http_fallback = fallback_disabled opts;
}

abbrev pub registrant : Client → Registrant
registrant c = record {
  request = c.request;
  token = c.token;
  disable_http_fallback = c.disable_http_fallback;
}

module _ {Key : Type 0} (lib : SessionLibrary Key) (net : Network) where
  -- The registration of the loaded client, at the URL that was saved.
  unfoldable pub re_registered : Client → Key → LoadResult Key
  unfolding perform_registration
  re_registered c key = elim (perform_registration net (registrant c) c.server_url) [
    | some e ↦ not_loaded (re_registration e)
    | none ↦ loaded c key
  ]

  unfoldable pub load_info : Option Options → SessionInfo → LoadResult Key
  unfolding re_registered decode_public_key client_from
  load_info opts i = elim (lib.parse_key i.private_key) [
    | none ↦ not_loaded bad_private_key
    | some key ↦ elim (decode_public_key lib i.public_key) [
      | none ↦ not_loaded bad_public_key
      | some public ↦ elim (net.parse_url i.server_url) [
        | none ↦ not_loaded bad_server_url
        | some url ↦ re_registered (client_from opts i url) key
      ]
    ]
  ]

  -- `LoadSession`, of a file that may not be there.
  unfoldable pub load_session : Option Bytes → Option Options → LoadResult Key
  unfolding load_info
  load_session none opts = not_loaded unreadable
  load_session (some d) opts = elim (lib.unmarshal d) [
    | none ↦ not_loaded bad_yaml
    | some i ↦ load_info opts i
  ]

  re_registered-loaded :
      (c : Client) (key : Key)
      → perform_registration net (registrant c) c.server_url ≡ none
      → re_registered c key ≡ loaded c key
  unfolding re_registered
  re_registered-loaded c key r = rw (re_registered, r) refl

-- The client that is loaded, apart from what options change.
abbrev pub IsRestored : {Key : Type 0} → Client → Key → LoadResult Key → Type 0
IsRestored c key (not_loaded e) = ⊥
IsRestored c key (loaded c' key') =
    (c'.request ≡ c.request)
    × (c'.server_url ≡ c.server_url)
    × (c'.token ≡ c.token)
    × (c'.nonce_length ≡ c.nonce_length)
    × (key' ≡ key)

module _ {Key : Type 0} (lib : SessionLibrary Key) (net : Network) where
  -- A session that was saved is loaded, without options, as the client that it was: the same ID,
  -- secret, keys, server, token and nonce length. This needs YAML, the key and the URL to be read
  -- back, a nonce length that is not 0, and a server that registers the client again.
  pub load_session-save_session :
      (c : Client) (key : Key) (file : Option Bytes) (d public : Bytes)
      → lib.marshal (info_of lib c key) ≡ some d
      → lib.unmarshal d ≡ some (info_of lib c key)
      → lib.parse_key (lib.marshal_key key) ≡ some key
      → decode_public_key lib c.request.public_key ≡ some public
      → net.parse_url (lib.url_string c.server_url) ≡ some c.server_url
      → 0 < c.nonce_length
      → perform_registration net
          (record { request = c.request; token = c.token; disable_http_fallback = false })
          c.server_url
        ≡ none
      → IsRestored c key (load_session lib net (save_session lib true c key file).1 none)
  unfolding load_session save_session load_info re_registered client_from loaded_nonce_length
      keep_alive_of
  load_session-save_session c key file d public m y k p u n r =
      let c' = client_from none (info_of lib c key) c.server_url in
      rw (load_session, m, y, load_info, k, p, u)
        (subst (IsRestored c key) (sym (re_registered-loaded lib net c' key r))
          (refl, refl, refl, ground (arith, n), refl))
