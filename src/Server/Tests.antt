-- ===== src/Server/Tests.antt =====
-- A concrete server, and the theorems at it.
use interactsh_lite.Correlation.{Match, matches_contain}
use interactsh_lite.Server.Capture.{
  delivery, store_matched_interactions_lem, capture_interaction_lem,
}
use interactsh_lite.Server.{
  Interaction, Config, Server, Library, Meets, store_matched_interactions, capture_interaction,
  capture_matches,
}
use interactsh_lite.SharedBucket.{new_shared_bucket}
use interactsh_lite.Storage.Tests.{plain, zeros, stored, stored-IsValid, stored_abc}
use interactsh_lite.Prelude.Text.{codes, no_unicode}
use interactsh_lite.Prelude.{true, false, none, some, List, [], ◌∷◌, ◌++◌, Bytes, equal, ◌≡◌, refl}

-- An interaction is marshalled to its ID.
abbrev pub library : Library
library = record { unicode = no_unicode; ctr = plain; marshal = λ i. some i.unique_id }

-- Only "abc" is registered, and nothing else goes on.
abbrev pub meets : Meets (Unit {0})
meets = record {
  has_correlation_id = λ id. equal id (codes "abc");
  others = λ m. m;
  iv = λ id. some (zeros 16);
  clock = λ id. 150;
}

abbrev pub config : Config
config = record {
  domains = codes "oob.test" ∷ [];
  correlation_id_length = 3;
  wildcard = true;
  scan_everywhere = false;
  auth = true;
  dynamic_resp = true;
  ldap = true;
}

unfoldable pub server : Server (Unit {0})
unfolding stored new_shared_bucket
server = record {
  cfg = config;
  storage = stored;
  dns_count = 0;
  dns_matched = 0;
  http_count = 0;
  http_matched = 0;
  smtp_count = 0;
  smtp_matched = 0;
  ftp_count = 0;
  ldap_count = 0;
  tld_buckets = some ((codes "oob.test", new_shared_bucket 10 100 0) ∷ []);
  extra_bucket = none;
  ips = record { ipv4 = (10 ∷ 0 ∷ 0 ∷ 1 ∷ []) ∷ []; ipv6 = [] };
  custom_records = [];
  acme_store = [];
  user_agents = [];
  tls_config = true;
}

abbrev pub interaction : Bytes → Interaction
interaction name = record {
  protocol = codes "dns";
  unique_id = name;
  full_id = name;
  q_type = codes "A";
  raw_request = [];
  raw_response = [];
  smtp_from = [];
  smtp_to = [];
  remote_address = codes "10.0.0.2";
  timestamp = 150;
}

abbrev found : List Match
found = record { unique_id = codes "abc"; full_id = codes "abcxyz" } ∷ []

store_matched_interactions_lem_example :
    ((store_matched_interactions library meets found (interaction []) stored).heap 0).interactions
    ≡ (stored.heap 0).interactions
      ++ delivery library meets (interaction []) found (codes "abc") (stored.heap 0).aes_block
unfolding matches_contain stored
store_matched_interactions_lem_example =
    store_matched_interactions_lem library meets (interaction []) found (codes "abc") 0 stored
      (refl, tt) stored-IsValid stored_abc

capture_interaction_lem_example :
    ((capture_interaction library meets
        (codes "oob.test")
        (codes "abcxyz")
        []
        (interaction (codes "x"))
        (interaction [])
        server).1.storage.heap
      0).interactions
    ≡ (server.storage.heap 0).interactions
      ++ delivery library meets
          (interaction [])
          (capture_matches library meets (codes "abcxyz") [] server)
          (codes "abc")
          (server.storage.heap 0).aes_block
unfolding server
capture_interaction_lem_example =
    (capture_interaction_lem library meets (codes "oob.test") (codes "abcxyz") []
      (interaction (codes "x")) (interaction []) server (codes "abc") 0 stored-IsValid stored_abc).1
