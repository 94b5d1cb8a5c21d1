-- ===== src/Cli/Settings.antt =====
-- config.go, and the flags and the options of main.go. Durations are nanoseconds.
use interactsh_lite.Oobclient.Options.{Options, second}
use interactsh_lite.Oobclient.Response.{ResponseConfig}
use interactsh_lite.Prelude.Int.{ℤ, pos, negsuc, is_nat, is_positive, lt_nat}
use interactsh_lite.Prelude.Text.{Unicode, codes, trim_space, split}
use interactsh_lite.Prelude.{
  ℕ, ◌*◌, Bool, true, false, not, ◌&&◌, ◌||◌, Option, none, some, List, [], ◌∷◌, ◌++◌, ltb,
  if◌then◌else◌, Bytes, equal, length, get_or,
}

pub record CliConfig : Type 0 where
  pub server : Bytes
  pub token : Bytes
  pub number : ℤ
  pub poll_interval : ℤ
  pub no_http_fallback : Bool
  pub correlation_id_length : ℤ
  pub correlation_id_nonce_length : ℤ
  pub keep_alive_interval : ℤ
  pub dns_only : Bool
  pub http_only : Bool
  pub smtp_only : Bool
  pub ftp_only : Bool
  pub ldap_only : Bool
  pub json : Bool
  pub verbose : Bool
  pub timeout : ℤ
  pub count : ℤ
  pub redirect : Bytes
  pub response_status : ℤ
  pub response_headers : List Bytes
  pub response_body : Bytes

-- What `LoadConfig` begins with.
abbrev pub initial_config : CliConfig
initial_config = record {
  server = [];
  token = [];
  number = pos 1;
  poll_interval = pos 2;
  no_http_fallback = false;
  correlation_id_length = pos 0;
  correlation_id_nonce_length = pos 0;
  keep_alive_interval = pos (60 * second);
  dns_only = false;
  http_only = false;
  smtp_only = false;
  ftp_only = false;
  ldap_only = false;
  json = false;
  verbose = false;
  timeout = pos 0;
  count = pos 0;
  redirect = [];
  response_status = pos 0;
  response_headers = [];
  response_body = [];
}

-- `os.ReadFile`.
pub data FileRead : Type 0 where
  no_file unreadable : FileRead
  contents : Bytes → FileRead

-- The configuration and whether there was an error; `unmarshal` is YAML over the defaults.
unfoldable pub load_config : (Bytes → CliConfig → CliConfig × Bool) → FileRead → CliConfig × Bool
load_config unmarshal no_file = (initial_config, false)
load_config unmarshal unreadable = (initial_config, true)
load_config unmarshal (contents d) = unmarshal d initial_config

-- The flags that are given.
pub record FlagValues : Type 0 where
  pub server : Option Bytes
  pub token : Option Bytes
  pub number : Option ℤ
  pub poll_interval : Option ℤ
  pub no_http_fallback : Option Bool
  pub correlation_id_length : Option ℤ
  pub correlation_id_nonce_length : Option ℤ
  pub keep_alive_interval : Option ℤ
  pub dns_only : Option Bool
  pub http_only : Option Bool
  pub smtp_only : Option Bool
  pub ftp_only : Option Bool
  pub ldap_only : Option Bool
  pub json : Option Bool
  pub verbose : Option Bool
  pub timeout : Option ℤ
  pub count : Option ℤ
  pub redirect : Option Bytes
  pub response_status : Option ℤ
  pub response_headers : Option (List Bytes)
  pub response_body : Option Bytes

unfoldable pub apply_flags : FlagValues → CliConfig → CliConfig
apply_flags f cfg = record {
  server = get_or cfg.server f.server;
  token = get_or cfg.token f.token;
  number = get_or cfg.number f.number;
  poll_interval = get_or cfg.poll_interval f.poll_interval;
  no_http_fallback = get_or cfg.no_http_fallback f.no_http_fallback;
  correlation_id_length = get_or cfg.correlation_id_length f.correlation_id_length;
  correlation_id_nonce_length =
      get_or cfg.correlation_id_nonce_length f.correlation_id_nonce_length;
  keep_alive_interval = get_or cfg.keep_alive_interval f.keep_alive_interval;
  dns_only = get_or cfg.dns_only f.dns_only;
  http_only = get_or cfg.http_only f.http_only;
  smtp_only = get_or cfg.smtp_only f.smtp_only;
  ftp_only = get_or cfg.ftp_only f.ftp_only;
  ldap_only = get_or cfg.ldap_only f.ldap_only;
  json = get_or cfg.json f.json;
  verbose = get_or cfg.verbose f.verbose;
  timeout = get_or cfg.timeout f.timeout;
  count = get_or cfg.count f.count;
  redirect = get_or cfg.redirect f.redirect;
  response_status = get_or cfg.response_status f.response_status;
  response_headers = get_or cfg.response_headers f.response_headers;
  response_body = get_or cfg.response_body f.response_body;
}

pub data SettingsError : Type 0 where
  negative_timeout negative_count combined_redirect : SettingsError

unfoldable pub check_limits : CliConfig → Option SettingsError
check_limits cfg =
    if lt_nat cfg.timeout 0
    then some negative_timeout
    else if lt_nat cfg.count 0
    then some negative_count
    else none

pub data ResponseResult : Type 0 where
  built : Option ResponseConfig → ResponseResult
  failed : SettingsError → ResponseResult

abbrev pub response_set : CliConfig → Bool
response_set cfg =
    not (is_nat cfg.response_status 0)
    || ltb 0 (length cfg.response_headers)
    || not (equal cfg.response_body [])

unfoldable pub build_response_config : CliConfig → ResponseResult
unfolding equal
build_response_config cfg =
    let redirect_set = not (equal cfg.redirect []) in
    if redirect_set && response_set cfg
    then failed combined_redirect
    else if redirect_set
    then built (
        some (record {
          status_code = pos 307;
          headers = (codes "Location: " ++ cfg.redirect) ∷ [];
          body = [];
        }))
    else if response_set cfg
    then built (
        some (record {
          status_code = if is_nat cfg.response_status 0 then pos 200 else cfg.response_status;
          headers = cfg.response_headers;
          body = cfg.response_body;
        }))
    else built none

-- The loop over the parts: trimmed, and kept unless empty.
abbrev pub trimmed_parts : Unicode → List Bytes → List Bytes
trimmed_parts u [] = []
trimmed_parts u (p ∷ ps) =
    let rest = trimmed_parts u ps in
    let part = trim_space u p in if equal part [] then rest else part ∷ rest

unfoldable pub parse_comma_separated : Unicode → Bytes → List Bytes
unfolding split
parse_comma_separated u input = if equal input [] then [] else trimmed_parts u (split b',' input)

-- The options that main gives to `New` and `LoadSession`.
unfoldable pub client_options : Unicode → CliConfig → Option ResponseConfig → Options
unfolding parse_comma_separated
client_options u cfg response = record {
  server_urls = parse_comma_separated u cfg.server;
  token = cfg.token;
  own_http_client = false;
  http_timeout = pos 0;
  keep_alive_interval = cfg.keep_alive_interval;
  disable_keep_alive = not (is_positive cfg.keep_alive_interval);
  disable_http_fallback = cfg.no_http_fallback;
  response = response;
  correlation_id_length = cfg.correlation_id_length;
  correlation_id_nonce_length = cfg.correlation_id_nonce_length;
}

-- `payloadCount`.
unfoldable pub payload_count : CliConfig → ℕ
payload_count cfg = elim cfg.number [ pos n ↦ if ltb n 1 then 1 else n | negsuc n ↦ 1 ]
