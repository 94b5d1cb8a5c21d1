-- ===== src/Oobclient/Tests.antt =====
-- A redirect, a network with one server, a client's life and a poll, at concrete values.
use interactsh_lite.Correlation.{is_cid_base32, matches_contain, match_correlation_id}
use interactsh_lite.Crypto.{encrypt_interaction_block, new_cipher}
use interactsh_lite.Endpoints.{RegisterRequest, KeyLibrary, Others, handle_poll}
use interactsh_lite.Oobclient.Cid.{generate_correlation_id}
use interactsh_lite.Oobclient.Connected.{IsConnected, connect-IsConnected}
use interactsh_lite.Oobclient.Decrypt.{decrypt_bytes, decrypt_bytes-encrypt_interaction_block}
use interactsh_lite.Oobclient.Delivery.{Agrees, IsHanded, handle_poll-IsHanded}
use interactsh_lite.Oobclient.Domain.{domain, match_correlation_id-domain}
use interactsh_lite.Oobclient.Generated.{IsGenerated, generate_correlation_id-IsGenerated}
use interactsh_lite.Oobclient.Ends.{close_ends}
use interactsh_lite.Oobclient.Lifecycle.{
  Life, Run, new_life, start_polling, close, mark_closed, cancel_poll, deregistration, here, next,
  starts, closes,
}
use interactsh_lite.Oobclient.Once.{IsGood, Run-IsGood}
use interactsh_lite.Oobclient.Options.{
  Settings, default_options, connect, Reading, registrant_of, Client,
}
use interactsh_lite.Oobclient.Poll.{PollLibrary}
use interactsh_lite.Oobclient.Registration.{
  Network, perform_registration, check_answer, try_register_servers,
}
use interactsh_lite.Oobclient.Response.{ResponseConfig}
use interactsh_lite.Oobclient.Session.{
  SessionLibrary, decode_public_key, save_session, load_session, IsRestored,
  load_session-save_session,
}
use interactsh_lite.Oobclient.Servers.{Explains, try_register_servers-Explains}
use interactsh_lite.Prelude.Int.{pos}
use interactsh_lite.Prelude.Text.{codes, no_unicode, is_ascii}
use interactsh_lite.Server.Tests.{server}
use interactsh_lite.Server.{Interaction, Library}
use interactsh_lite.Storage.Access.{get_session, append_interaction}
use interactsh_lite.Storage.Tables.{promote}
use interactsh_lite.Storage.Tests.{Memory, no_hooks, plain, zeros, stored}
use interactsh_lite.Prelude.{
  ◌≡◌, refl, true, false, none, some, List, [], ◌∷◌, ◌++◌, if◌then◌else◌, Bytes, equal, drop, arith,
}

abbrev redirect : ResponseConfig
redirect = record { status_code = pos 302; headers = codes "Location: //x" ∷ []; body = [] }

decrypt_bytes-encrypt_interaction_block_example :
    decrypt_bytes plain (zeros 32) (zeros 16 ++ codes "hi") ≡ some (codes "hi")
unfolding encrypt_interaction_block new_cipher
decrypt_bytes-encrypt_interaction_block_example =
    decrypt_bytes-encrypt_interaction_block plain (zeros 16) (zeros 32) (zeros 32) (codes "hi")
      (zeros 16 ++ codes "hi") refl refl refl

abbrev random : Bytes
random = 7 ∷ 200 ∷ 33 ∷ 9 ∷ 0 ∷ 0 ∷ 0 ∷ 0 ∷ 0 ∷ 0 ∷ 0 ∷ 255 ∷ []

generate_correlation_id-IsGenerated_example :
    IsGenerated 1_700_000_000 16 (generate_correlation_id (some random) (some []) 1_700_000_000 16)
generate_correlation_id-IsGenerated_example =
    generate_correlation_id-IsGenerated random [] 1_700_000_000 16 (omega arith) refl refl

-- A server that answers over HTTP only.
abbrev network : Network
network = record {
  marshal_register = λ r. some r.correlation_id;
  parse_url = λ s. some (record { scheme = codes "https"; host = drop 8 s });
  post = λ url token body.
      if equal url.scheme (codes "http")
      then some (record { status_code = 200; body = [] })
      else none;
  decode_message = λ b. some (some (codes "registration successful"));
  lookup_host = λ s. some (s ∷ []);
}

abbrev request : RegisterRequest
request = record {
  public_key = codes "p";
  secret_key = codes "s";
  correlation_id = codes "abcdefghijklmnop";
  response = none;
}

abbrev two_servers : List Bytes
two_servers = codes "a.test" ∷ codes "b.test" ∷ []

try_register_servers-Explains_example :
    Explains network
      (registrant_of default_options request)
      two_servers
      (try_register_servers network (registrant_of default_options request) 4 two_servers)
try_register_servers-Explains_example =
    try_register_servers-Explains network (registrant_of default_options request) 4 two_servers
      (omega arith)

abbrev reading : Reading
reading = record { random = some random; more = some []; now = 1_700_000_000 }

abbrev chosen : Settings
chosen = record {
  servers = two_servers;
  user_provided = false;
  http_timeout = none;
  id_length = 16;
  nonce_length = 4;
  keep_alive = pos 60;
}

connect-IsConnected_example :
    IsConnected network default_options chosen request
      (connect network default_options chosen 4 request reading)
connect-IsConnected_example =
    connect-IsConnected network default_options chosen 4 request reading (omega arith)

Run-IsGood_example : IsGood (close (start_polling (new_life true)).1)
Run-IsGood_example =
    Run-IsGood true
      (next (next here (starts (new_life true))) (closes (start_polling (new_life true)).1))

-- An interaction, and libraries that know the JSON of this one.
abbrev sample : Interaction
sample = record {
  protocol = codes "dns";
  unique_id = codes "abc";
  full_id = codes "abcxyz";
  q_type = codes "A";
  raw_request = [];
  raw_response = [];
  smtp_from = [];
  smtp_to = [];
  remote_address = codes "10.0.0.2";
  timestamp = 150;
}

abbrev json : Bytes
json = codes "{}"

abbrev marshaller : Library
marshaller = record { unicode = no_unicode; ctr = plain; marshal = λ i. some json }

abbrev sealing : KeyLibrary
sealing = record {
  parse_public_key = λ s. some s;
  encrypt_aes_key = λ key public. some key;
  base64 = λ s. s;
}

abbrev poller : PollLibrary
poller = record {
  ctr = plain;
  opener = record { decode_base64 = λ s. some s; decrypt_oaep = λ c. some c };
  decode_poll = λ b. none;
  unmarshal = λ b. some sample;
}

agrees : Agrees marshaller sealing poller
agrees = record { same_stream = refl; decodes = λ s. refl }

abbrev others : Others (Unit {0})
others = record {
  during = λ m. m;
  between = λ m. append_interaction plain (codes "abc") json (some (zeros 16)) 205 m;
}

abbrev got : Memory
got = (get_session no_hooks (λ m. m) (codes "abc") (codes "s") 200 201 server.storage).1

handle_poll-IsHanded_example :
    IsHanded poller
      (sample ∷ [])
      (handle_poll no_hooks sealing others (codes "abcxyz") (codes "s") 200 201 server).0
unfolding server stored append_interaction encrypt_interaction_block promote new_cipher
handle_poll-IsHanded_example =
    handle_poll-IsHanded marshaller sealing poller agrees no_hooks others (codes "abcxyz")
      (codes "s") (zeros 32) 0 200 201 server got (sample ∷ []) refl refl refl refl refl
      ((zeros 16, json, refl, (refl, refl, (codes "{", refl)), refl), tt)

-- A client, and libraries that know its session file.
abbrev saved : Client
saved = record {
  request = request;
  server_url = record { scheme = codes "http"; host = codes "a.test" };
  token = codes "t";
  nonce_length = 4;
  keep_alive = true;
  disable_http_fallback = true;
}

abbrev session_library : SessionLibrary Bytes
session_library = record {
  marshal = λ i. some i.secret_key;
  unmarshal = λ d. some (record {
    server_url = codes "http://a.test";
    token = codes "t";
    private_key = codes "k";
    correlation_id = request.correlation_id;
    secret_key = codes "s";
    public_key = codes "p";
    response = none;
    correlation_nonce_length = pos 4;
  });
  marshal_key = λ k. k;
  parse_key = λ k. some k;
  decode_base64 = λ s. some s;
  decode_pem = λ s. some s;
  parse_public_key = λ s. some (s, true);
  url_string = λ u. u.scheme ++ (codes "://" ++ u.host);
}

abbrev plain_network : Network
plain_network = record network { parse_url = λ s. some saved.server_url }

load_session-save_session_example : IsRestored saved (codes "k") (
    load_session session_library plain_network
      (save_session session_library true saved (codes "k") none).1
      none)
unfolding perform_registration decode_public_key check_answer
load_session-save_session_example =
    load_session-save_session session_library plain_network saved (codes "k") none (codes "s")
      (codes "p") refl refl refl refl refl (omega arith) refl

-- A nonce of four letters.
match_correlation_id-domain_example :
    matches_contain
      (match_correlation_id no_unicode
        (domain (λ random. codes "ybndrfg8") [] 4 (codes "abcdefghijklmnop") (codes "oob.test"))
        16
        []
        (λ id. true))
      (codes "abcdefghijklmnop")
    ≡ true
unfolding is_cid_base32 is_ascii equal
match_correlation_id-domain_example =
    match_correlation_id-domain no_unicode (λ random. codes "ybndrfg8") []
      (codes "abcdefghijklmnop") (codes "oob.test") 4 16 [] (λ id. true) refl refl refl
      (omega arith) (omega arith) refl refl

-- While the client of above is being closed, its goroutine is idle.
close_ends_example :
    (d : Life) × Run (new_life true) d × (d.closing ≡ false) × (d.requests ≡ deregistration ∷ [])
unfolding close mark_closed new_life start_polling cancel_poll
close_ends_example =
    close_ends true
      (next (next here (starts (new_life true))) (closes (start_polling (new_life true)).1)) refl
