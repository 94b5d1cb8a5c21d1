-- ===== src/Dns/Answer.antt =====
-- The answers of interactsh-srv/oobsrv/dns.go: resource records, custom records and what
-- `buildDefaultResponse`, `buildCustomResponse` and `buildACMEResponse` put into a reply. Types and
-- classes are the numbers that RFC 1035 and RFC 3596 assign.
use interactsh_lite.Dns.Acme.{AcmeStore, acme_get, normalize_fqdn}
use interactsh_lite.Dns.Zone.{ensure_trailing_dot}
use Prim.Native.String.{String}
use interactsh_lite.Prelude.Text.{Unicode, codes, to_upper}
use interactsh_lite.Prelude.{
  ℕ, not, ◌&&◌, Option, none, some, List, [], ◌∷◌, ◌++◌, map, if◌then◌else◌, ◌==◌, ltb, Bytes,
  equal, length,
}

-- The uint16 of a query or record type.
abbrev pub type_none : ℕ
type_none = 0

abbrev pub type_a : ℕ
type_a = 1

abbrev pub type_ns : ℕ
type_ns = 2

abbrev pub type_cname : ℕ
type_cname = 5

abbrev pub type_soa : ℕ
type_soa = 6

abbrev pub type_mx : ℕ
type_mx = 15

abbrev pub type_txt : ℕ
type_txt = 16

abbrev pub type_aaaa : ℕ
type_aaaa = 28

abbrev pub type_any : ℕ
type_any = 255

abbrev pub class_inet : ℕ
class_inet = 1

abbrev pub default_ttl : ℕ
default_ttl = 3600

-- `dns.RR_Header`, as far as the code fills it.
pub record RrHeader : Type 0 where
  pub name : Bytes
  pub rrtype : ℕ
  pub class : ℕ
  pub ttl : ℕ

pub record Soa : Type 0 where
  pub ns : Bytes
  pub mbox : Bytes
  pub serial : ℕ
  pub refresh : ℕ
  pub retry : ℕ
  pub expire : ℕ
  pub minttl : ℕ

-- The types of `dns.RR` that the code builds. An address is its bytes.
pub data Rr : Type 0 where
  rr_a : RrHeader → Bytes → Rr
  rr_aaaa : RrHeader → Bytes → Rr
  rr_cname : RrHeader → Bytes → Rr
  rr_mx : RrHeader → ℕ → Bytes → Rr
  rr_txt : RrHeader → List Bytes → Rr
  rr_ns : RrHeader → Bytes → Rr
  rr_soa : RrHeader → Soa → Rr

-- The sections of a reply that the code fills.
pub record Msg : Type 0 where
  pub answer : List Rr
  pub ns : List Rr
  pub extra : List Rr

abbrev pub empty_msg : Msg
empty_msg = record { answer = []; ns = []; extra = [] }

pub record ServerIps : Type 0 where
  pub ipv4 : List Bytes
  pub ipv6 : List Bytes

pub record CustomRecord : Type 0 where
  pub type : Bytes
  pub value : Bytes
  pub ttl : ℕ
  pub priority : ℕ

-- `net.ParseIP`, and `To4` of an address.
pub record ParseIp : Type 0 where
  pub parse_ip : Bytes → Option Bytes
  pub to4 : Bytes → Option Bytes

abbrev pub header : Bytes → ℕ → ℕ → RrHeader
header name rrtype ttl = record { name = name; rrtype = rrtype; class = class_inet; ttl = ttl }

abbrev pub add_answers : Msg → List Rr → Msg
add_answers m rrs = record m { answer = m.answer ++ rrs }

abbrev pub ns_name : String → Bytes → Bytes
ns_name host domain_dot = codes host ++ domain_dot

unfoldable pub soa_record : Bytes → Bytes → Rr
soa_record fqdn domain_dot = rr_soa (header fqdn type_soa 0) (record {
  ns = ns_name "ns1." domain_dot;
  mbox = codes "letsencrypt.org.";
  serial = 1;
  refresh = 0;
  retry = 0;
  expire = 60;
  minttl = 60;
})

-- The two name servers under a name.
abbrev pub ns_records : Bytes → Bytes → List Rr
ns_records name domain_dot =
    rr_ns (header name type_ns default_ttl) (ns_name "ns1." domain_dot)
    ∷ rr_ns (header name type_ns default_ttl) (ns_name "ns2." domain_dot)
    ∷ []

abbrev pub a_records : Bytes → List Bytes → List Rr
a_records name ips = map (λ ip. rr_a (header name type_a default_ttl) ip) ips

abbrev pub aaaa_records : Bytes → List Bytes → List Rr
aaaa_records name ips = map (λ ip. rr_aaaa (header name type_aaaa default_ttl) ip) ips

unfoldable pub add_ns_authority : Msg → Bytes → Msg
add_ns_authority m domain_dot = record m { ns = m.ns ++ ns_records domain_dot domain_dot }

abbrev pub glue : ServerIps → Bytes → List Rr
glue ips ns = a_records ns ips.ipv4 ++ aaaa_records ns ips.ipv6

unfoldable pub add_glue_records : ServerIps → Msg → Bytes → Msg
add_glue_records ips m domain_dot =
    let added = glue ips (ns_name "ns1." domain_dot) ++ glue ips (ns_name "ns2." domain_dot) in
    record m { extra = m.extra ++ added }

unfoldable pub add_nodata_authority : Msg → Bytes → Msg
unfolding soa_record
add_nodata_authority m domain_dot = record m {
  ns = m.ns ++ (soa_record domain_dot domain_dot ∷ []);
}

-- `if len(m.Answer) > 0 { ... } else { ... }` after the addresses.
unfoldable pub add_authority : ServerIps → Msg → Bytes → Msg
unfolding add_ns_authority add_glue_records add_nodata_authority
add_authority ips m domain_dot =
    if ltb 0 (length m.answer)
    then add_glue_records ips (add_ns_authority m domain_dot) domain_dot
    else add_nodata_authority m domain_dot

unfoldable pub build_default_response : ServerIps → Msg → Bytes → ℕ → Bytes → Msg
unfolding ensure_trailing_dot add_authority soa_record
build_default_response ips m qname qtype domain =
    let fqdn = ensure_trailing_dot qname in
    let domain_dot = ensure_trailing_dot domain in
    if qtype == type_a
    then add_authority ips (add_answers m (a_records fqdn ips.ipv4)) domain_dot
    else if qtype == type_aaaa
    then add_authority ips (add_answers m (aaaa_records fqdn ips.ipv6)) domain_dot
    else if qtype == type_mx
    then add_answers m (rr_mx (header fqdn type_mx default_ttl) 1 (ns_name "mail." domain_dot) ∷ [])
    else if qtype == type_ns
    then add_answers m (ns_records fqdn domain_dot)
    else if qtype == type_soa
    then add_answers m (soa_record fqdn domain_dot ∷ [])
    else if qtype == type_txt
    then add_answers m (rr_txt (header fqdn type_txt 0) ([] ∷ []) ∷ [])
    else if qtype == type_any
    then (add_authority ips (add_answers m (a_records fqdn ips.ipv4 ++ aaaa_records fqdn ips.ipv6))
        domain_dot)
    else m

unfoldable pub dns_string_to_type : Unicode → Bytes → ℕ
unfolding to_upper equal
dns_string_to_type u s =
    let t = to_upper u s in
    if equal t (codes "A")
    then type_a
    else if equal t (codes "AAAA")
    then type_aaaa
    else if equal t (codes "CNAME")
    then type_cname
    else if equal t (codes "MX")
    then type_mx
    else if equal t (codes "TXT")
    then type_txt
    else if equal t (codes "NS")
    then type_ns
    else type_none

module _ (u : Unicode) (ip : ParseIp) where
  unfoldable pub custom_record_to_rr : Bytes → CustomRecord → Option Rr
  unfolding to_upper equal ensure_trailing_dot
  custom_record_to_rr fqdn rec =
      let t = to_upper u rec.type in
      if equal t (codes "A")
      then elim (ip.parse_ip rec.value) [
        | none ↦ none
        | some addr ↦ elim (ip.to4 addr) [
          | none ↦ none
          | some ip4 ↦ some (rr_a (header fqdn type_a rec.ttl) ip4)
        ]
      ]
      else if equal t (codes "AAAA")
      then elim (ip.parse_ip rec.value) [
        | none ↦ none
        | some addr ↦ elim (ip.to4 addr) [
          | none ↦ some (rr_aaaa (header fqdn type_aaaa rec.ttl) addr)
          | some _ ↦ none
        ]
      ]
      else if equal t (codes "CNAME")
      then some (rr_cname (header fqdn type_cname rec.ttl) (ensure_trailing_dot rec.value))
      else if equal t (codes "MX")
      then some (rr_mx (header fqdn type_mx rec.ttl) rec.priority (ensure_trailing_dot rec.value))
      else if equal t (codes "TXT")
      then some (rr_txt (header fqdn type_txt rec.ttl) (rec.value ∷ []))
      else if equal t (codes "NS")
      then some (rr_ns (header fqdn type_ns rec.ttl) (ensure_trailing_dot rec.value))
      else none

  -- The answers of the loop over the custom records.
  unfoldable pub custom_answers : Bytes → ℕ → List CustomRecord → List Rr
  unfolding dns_string_to_type custom_record_to_rr
  custom_answers fqdn qtype [] = []
  custom_answers fqdn qtype (rec ∷ records) =
      let rest = custom_answers fqdn qtype records in
      if not (qtype == type_any) && not (qtype == dns_string_to_type u rec.type)
      then rest
      else elim (custom_record_to_rr fqdn rec) [ none ↦ rest | some rr ↦ rr ∷ rest ]

  unfoldable pub build_custom_response : Msg → Bytes → ℕ → List CustomRecord → Msg
  unfolding ensure_trailing_dot custom_answers
  build_custom_response m qname qtype records =
      add_answers m (custom_answers (ensure_trailing_dot qname) qtype records)

unfoldable pub build_acme_response : Unicode → ServerIps → AcmeStore → Msg → Bytes → ℕ → Bytes → Msg
unfolding ensure_trailing_dot soa_record acme_get normalize_fqdn
build_acme_response u ips store m qname qtype domain =
    let fqdn = ensure_trailing_dot qname in
    let domain_dot = ensure_trailing_dot domain in
    if qtype == type_txt
    then (add_answers m (
        map (λ value. rr_txt (header fqdn type_txt 0) (value ∷ []))
          (acme_get u (normalize_fqdn u qname) store)))
    else if qtype == type_soa
    then add_answers m (soa_record fqdn domain_dot ∷ [])
    else if qtype == type_ns
    then add_answers m (ns_records fqdn domain_dot)
    else if qtype == type_a
    then add_answers m (a_records fqdn ips.ipv4)
    else if qtype == type_aaaa
    then add_answers m (aaaa_records fqdn ips.ipv6)
    else m
