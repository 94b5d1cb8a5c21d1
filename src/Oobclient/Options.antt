-- ===== src/Oobclient/Options.antt =====
-- The options of oobclient/options.go, and `New` of oobclient/client.go, which resolves them. Durations are nanoseconds. The RSA keys are in the registration request.
use interactsh_lite.Endpoints.{RegisterRequest}
use interactsh_lite.Oobclient.Cid.{CidResult, cid, unread, out_of_range, generate_correlation_id}
use interactsh_lite.Oobclient.Registration.{
  Url, RegisterError, refused, accepted, Network, Registrant, try_register_servers,
}
use interactsh_lite.Oobclient.Response.{ResponseConfig}
use interactsh_lite.Prelude.Int.{ℤ, pos, is_nat, is_positive, lt_nat, to_nat}
use interactsh_lite.Prelude.Text.{codes}
use interactsh_lite.Prelude.{
  ℕ, ◌+◌, ◌*◌, Bool, true, false, not, ◌&&◌, ◌||◌, Option, none, some, List, [], ◌∷◌, ltb, ◌==◌,
  if◌then◌else◌, Bytes, equal, length,
}

pub record Options : Type 0 where
  pub server_urls : List Bytes
  pub token : Bytes
  pub own_http_client : Bool
  pub http_timeout : ℤ
  pub keep_alive_interval : ℤ
  pub disable_keep_alive : Bool
  pub disable_http_fallback : Bool
  pub response : Option ResponseConfig
  pub correlation_id_length : ℤ
  pub correlation_id_nonce_length : ℤ

abbrev pub second : ℕ
second = 1_000_000_000

unfoldable pub default_servers : List Bytes
default_servers =
    codes "oscar.oastsrv.net"
    ∷ codes "alpha.oastsrv.net"
    ∷ codes "sierra.oastsrv.net"
    ∷ codes "tango.oastsrv.net"
    ∷ []

-- `DefaultOptions`.
abbrev pub default_options : Options
default_options = record {
  server_urls = default_servers;
  token = [];
  own_http_client = false;
  http_timeout = pos (10 * second);
  keep_alive_interval = pos (60 * second);
  disable_keep_alive = false;
  disable_http_fallback = false;
  response = none;
  correlation_id_length = pos 20;
  correlation_id_nonce_length = pos 13;
}

-- The zero value, for a call without options.
abbrev pub no_options : Options
no_options = record {
  server_urls = [];
  token = [];
  own_http_client = false;
  http_timeout = pos 0;
  keep_alive_interval = pos 0;
  disable_keep_alive = false;
  disable_http_fallback = false;
  response = none;
  correlation_id_length = pos 0;
  correlation_id_nonce_length = pos 0;
}

unfoldable pub fallback_servers : List Bytes
fallback_servers =
    codes "oast.pro"
    ∷ codes "oast.live"
    ∷ codes "oast.site"
    ∷ codes "oast.online"
    ∷ codes "oast.fun"
    ∷ codes "oast.me"
    ∷ []

abbrev pub default_server_id_length : ℕ
default_server_id_length = 16

abbrev pub default_server_nonce_length : ℕ
default_server_nonce_length = 4

abbrev pub fallback_id_length : ℕ
fallback_id_length = 20

abbrev pub fallback_min_nonce_length : ℕ
fallback_min_nonce_length = 13

-- `slices.Equal`.
unfoldable pub equal_lists : List Bytes → List Bytes → Bool
unfolding equal
equal_lists [] [] = true
equal_lists (x ∷ xs) (y ∷ ys) = equal x y && equal_lists xs ys
equal_lists _ _ = false

-- What `New` works with.
pub record Settings : Type 0 where
  pub servers : List Bytes
  pub user_provided : Bool
  pub http_timeout : Option ℤ
  pub id_length : ℕ
  pub nonce_length : ℕ
  pub keep_alive : ℤ

pub data OptionError : Type 0 where
  fixed_id_length short_id_length short_nonce_length : OptionError

pub data Resolved : Type 0 where
  invalid : OptionError → Resolved
  settings : Settings → Resolved

abbrev pub provides_servers : Options → Bool
provides_servers o = ltb 0 (length o.server_urls) && not (equal_lists o.server_urls default_servers)

-- A length that is 0 in the options: the default, for servers of the user's or for the others.
abbrev pub length_or : ℤ → Bool → ℕ → ℕ → ℤ
length_or z user own other = if is_nat z 0 then (if user then pos own else pos other) else z

abbrev pub id_length_of : Options → ℤ
id_length_of o = length_or o.correlation_id_length (provides_servers o) 20 default_server_id_length

abbrev pub nonce_length_of : Options → ℤ
nonce_length_of o =
    length_or o.correlation_id_nonce_length (provides_servers o) 13 default_server_nonce_length

-- The settings, if no check refuses the options.
abbrev pub settled : Options → Settings
settled o =
    let timeout =
      if is_nat o.http_timeout 0 then default_options.http_timeout else o.http_timeout in
    record {
      servers = if provides_servers o then o.server_urls else default_servers;
      user_provided = provides_servers o;
      http_timeout = if o.own_http_client then none else some timeout;
      id_length = to_nat (id_length_of o);
      nonce_length = to_nat (nonce_length_of o);
      keep_alive =
          if o.disable_keep_alive
          then pos 0
          else if is_nat o.keep_alive_interval 0
          then default_options.keep_alive_interval
          else o.keep_alive_interval;
    }

unfoldable pub resolve_options : Options → Resolved
unfolding equal_lists
resolve_options o =
    let user = provides_servers o in
    if not user
      && not (is_nat o.correlation_id_length 0)
      && not (is_nat (id_length_of o) default_server_id_length)
    then invalid fixed_id_length
    else if user && lt_nat (id_length_of o) 4
    then invalid short_id_length
    else if lt_nat (nonce_length_of o) 4
    then invalid short_nonce_length
    else settings (settled o)

-- The client, as far as it is settled by then; `keep_alive` says that the goroutine is started.
pub record Client : Type 0 where
  pub request : RegisterRequest
  pub server_url : Url
  pub token : Bytes
  pub nonce_length : ℕ
  pub keep_alive : Bool
  pub disable_http_fallback : Bool

-- What `New` returns, or `panicked`. The errors of `not_registered` are joined.
pub data NewResult : Type 0 where
  bad_options : OptionError → NewResult
  no_id : NewResult
  panicked : NewResult
  not_registered : List RegisterError → NewResult
  created : Client → NewResult

-- The random bytes that `generateCorrelationID` reads, in two parts, and the time.
pub record Reading : Type 0 where
  pub random : Option Bytes
  pub more : Option Bytes
  pub now : ℕ

abbrev pub generate : Reading → ℕ → CidResult
generate r n = generate_correlation_id r.random r.more r.now n

abbrev pub registrant_of : Options → RegisterRequest → Registrant
registrant_of o request = record {
  request = request;
  token = o.token;
  disable_http_fallback = o.disable_http_fallback;
}

abbrev pub client_of : Options → Settings → RegisterRequest → ℕ → Url → Client
client_of o s request nonce_length url = record {
  request = request;
  server_url = url;
  token = o.token;
  nonce_length = nonce_length;
  keep_alive = is_positive s.keep_alive;
  disable_http_fallback = o.disable_http_fallback;
}

module _ (net : Network) (o : Options) (s : Settings) (index : ℕ) where
  -- The fallback servers, with the ID and the nonce length that they need, after the error of the
  -- others.
  unfoldable pub try_fallback : RegisterError → RegisterRequest → Reading → NewResult
  unfolding try_register_servers generate_correlation_id
  try_fallback first request again =
      let nonce_length =
        if ltb s.nonce_length fallback_min_nonce_length
        then fallback_min_nonce_length
        else s.nonce_length in
      let id =
        if ltb (length request.correlation_id) fallback_id_length
        then generate again fallback_id_length
        else cid request.correlation_id in
      elim id [
        | unread ↦ no_id
        | out_of_range ↦ panicked
        | cid c ↦
            let request' = record request { correlation_id = c } in
            elim (try_register_servers net (registrant_of o request') (index + 1)
              fallback_servers) [
                | refused e ↦ not_registered (first ∷ e ∷ [])
                | accepted url ↦ created (client_of o s request' nonce_length url)
              ]
      ]

  unfoldable pub connect : RegisterRequest → Reading → NewResult
  unfolding try_register_servers try_fallback
  connect request again =
      elim (try_register_servers net (registrant_of o request) index s.servers) [
        | accepted url ↦ created (client_of o s request s.nonce_length url)
        | refused e ↦
            if s.user_provided || length fallback_servers == 0
            then not_registered (e ∷ [])
            else try_fallback e request again
      ]

-- `New`, with the keys and the secret in the request, and the reading for each ID.
unfoldable pub new_client : Network → Options → ℕ → RegisterRequest → Reading → Reading → NewResult
unfolding resolve_options connect generate_correlation_id
new_client net o index request first again = elim (resolve_options o) [
  | invalid e ↦ bad_options e
  | settings s ↦ elim (generate first s.id_length) [
    | unread ↦ no_id
    | out_of_range ↦ panicked
    | cid c ↦
        connect net o s index (record request { correlation_id = c; response = o.response }) again
  ]
]
