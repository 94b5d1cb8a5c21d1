-- ===== src/Dns/Tests.antt =====
-- The theorems at concrete names and queries.
use interactsh_lite.Dns.Acme.{normalize_fqdn}
use interactsh_lite.Dns.Answer.{
  CustomRecord, ParseIp, empty_msg, type_a, type_txt, build_acme_response,
}
use interactsh_lite.Dns.Content.{Answers, build_acme_response-Answers}
use interactsh_lite.Dns.Delivery.{handle_dns_delivers}
use interactsh_lite.Dns.Handle.{Query, DnsLibrary, dns_interaction, handle_dns}
use interactsh_lite.Dns.Zone.{matched_domain, ensure_trailing_dot, extract_subdomain}
use interactsh_lite.Server.Capture.{delivery}
use interactsh_lite.Server.Tests.{library, meets, server}
use interactsh_lite.Server.{capture_matches}
use interactsh_lite.Storage.Tests.{stored-IsValid, stored_abc}
use interactsh_lite.Prelude.Text.{codes, no_unicode, to_lower, ends_with, cut_suffix}
use interactsh_lite.Prelude.{
  none, some, List, [], ◌∷◌, ◌++◌, Bytes, equal, starts_with, All, ◌≡◌, refl,
}

abbrev challenge : Bytes
challenge = codes "_acme-challenge.oob.test."

abbrev domains : List Bytes
domains = codes "x.oob.test" ∷ codes "oob.test" ∷ []

abbrev name : Bytes
name = codes "abcxyz.oob.test."

build_acme_response-Answers_example :
    All
      (Answers (ensure_trailing_dot challenge) type_txt)
      (build_acme_response no_unicode server.ips [] empty_msg challenge type_txt
        (codes "oob.test")).answer
build_acme_response-Answers_example =
    build_acme_response-Answers no_unicode server.ips [] challenge type_txt (codes "oob.test")

abbrev parse : ParseIp
parse = record { parse_ip = λ s. some s; to4 = λ a. some a }

abbrev records : List CustomRecord
records = record { type = codes "A"; value = codes "1.2.3.4"; ttl = 60; priority = 0 } ∷ []

abbrev dns_library : DnsLibrary
dns_library = record {
  parse = parse;
  msg_text = λ m. [];
  type_text = λ t. [];
  split_host = λ a. none;
}

abbrev query : Bytes → Query
query n = record {
  questions = record { name = n; qtype = type_a } ∷ [];
  text = [];
  remote_addr = codes "10.0.0.2";
  now = 150;
}

handle_dns_delivers_example :
    ((handle_dns library dns_library meets (query name) server).1.storage.heap 0).interactions
    ≡ (server.storage.heap 0).interactions
      ++ delivery library meets
          (dns_interaction dns_library (query name) [] type_a [])
          (capture_matches library meets (codes "abcxyz") [] server)
          (codes "abc")
          (server.storage.heap 0).aes_block
unfolding normalize_fqdn server equal matched_domain extract_subdomain to_lower cut_suffix ends_with
    starts_with
handle_dns_delivers_example =
    (handle_dns_delivers library dns_library meets (query name)
      (record { name = name; qtype = type_a }) [] (codes "oob.test") (codes "abc") 0 server refl
      refl refl stored-IsValid stored_abc).1
