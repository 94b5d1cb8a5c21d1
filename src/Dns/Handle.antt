-- ===== src/Dns/Handle.antt =====
-- `handleDNS` and `captureDNSInteraction` of interactsh-srv/oobsrv/dns.go. The texts of messages
-- and types come from the DNS library, as does the base of a reply: its ID, question and flags are
-- not modelled. A reply is `none` when none is written.
use interactsh_lite.Dns.Acme.{normalize_fqdn}
use interactsh_lite.Dns.Answer.{
  Msg, ParseIp, empty_msg, build_default_response, build_custom_response, build_acme_response,
}
use interactsh_lite.Dns.Zone.{matched_domain, extract_subdomain}
use interactsh_lite.Prelude.Text.{codes}
use interactsh_lite.Server.{Server, Interaction, Library, Meets, capture_interaction}
use interactsh_lite.Prelude.{
  ℕ, ◌+◌, Bool, ◌||◌, Option, none, some, List, [], ◌∷◌, if◌then◌else◌, Bytes, equal, starts_with,
  lookup, get_or,
}

pub record Question : Type 0 where
  pub name : Bytes
  pub qtype : ℕ

-- A query as the handler sees it: `r.String()`, `w.RemoteAddr().String()` and the time besides.
pub record Query : Type 0 where
  pub questions : List Question
  pub text : Bytes
  pub remote_addr : Bytes
  pub now : ℕ

-- `String` of a reply and of a type, and the host of `net.SplitHostPort`.
pub record DnsLibrary : Type 0 where
  pub parse : ParseIp
  pub msg_text : Msg → Bytes
  pub type_text : ℕ → Bytes
  pub split_host : Bytes → Option Bytes

-- `_acme-challenge` or a name below it.
abbrev pub is_acme : Bytes → Bool
is_acme subdomain =
    equal subdomain (codes "_acme-challenge") || starts_with subdomain (codes "_acme-challenge.")

abbrev pub dns_interaction : DnsLibrary → Query → Bytes → ℕ → Bytes → Interaction
dns_interaction dns r raw_response qtype name = record {
  protocol = codes "dns";
  unique_id = name;
  full_id = name;
  q_type = dns.type_text qtype;
  raw_request = r.text;
  raw_response = raw_response;
  smtp_from = [];
  smtp_to = [];
  remote_address = get_or r.remote_addr (dns.split_host r.remote_addr);
  timestamp = r.now;
}

-- Custom records or the default response.
unfoldable pub build_response :
    {H : Type 0} → Library → DnsLibrary → Question → Bytes → Bytes → Server H → Msg
unfolding build_custom_response build_default_response
build_response lib dns q domain subdomain s = elim (lookup subdomain s.custom_records) [
  | some records ↦ build_custom_response lib.unicode dns.parse empty_msg q.name q.qtype records
  | none ↦ build_default_response s.ips empty_msg q.name q.qtype domain
]

module _ {H : Type 0} (lib : Library) (dns : DnsLibrary) (meets : Meets H) where
  -- `qname` is the name of the first question.
  unfoldable pub capture_dns_interaction :
      Query → Bytes → Bytes → ℕ → Bytes → Bytes → Server H → Server H
  unfolding capture_interaction normalize_fqdn
  capture_dns_interaction r qname raw_response qtype domain subdomain s =
      let (matched, s') =
        capture_interaction lib meets domain subdomain r.text
          (dns_interaction dns r raw_response qtype (normalize_fqdn lib.unicode qname))
          (dns_interaction dns r raw_response qtype []) s in
      if matched then record s' { dns_matched = s'.dns_matched + 1 } else s'

  unfoldable pub answer_question : Query → Question → Server H → Msg × Server H
  unfolding normalize_fqdn matched_domain extract_subdomain build_acme_response build_response
      capture_dns_interaction
  answer_question r q s =
      let qname = normalize_fqdn lib.unicode q.name in
      elim (matched_domain s.cfg.domains qname) [
        | none ↦ (empty_msg, s)
        | some domain ↦
            let subdomain = extract_subdomain qname domain in
            if is_acme subdomain
            then (
              build_acme_response lib.unicode s.ips s.acme_store empty_msg q.name q.qtype domain,
              s,
            )
            else let m = build_response lib dns q domain subdomain s in
              (m, capture_dns_interaction r q.name (dns.msg_text m) q.qtype domain subdomain s)
      ]

  unfoldable pub handle_dns : Query → Server H → Option Msg × Server H
  unfolding answer_question
  handle_dns r s = elim r.questions [
    | [] ↦ (none, s)
    | q ∷ _ ↦
        let (m, s') = answer_question r q (record s { dns_count = s.dns_count + 1 }) in (some m, s')
  ]
