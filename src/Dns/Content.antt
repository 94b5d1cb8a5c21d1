-- ===== src/Dns/Content.antt =====
-- What the answers hold.
use interactsh_lite.Dns.Answer.{
  Rr, RrHeader, Msg, ServerIps, CustomRecord, ParseIp, empty_msg, rr_a, rr_aaaa, rr_cname, rr_mx,
  rr_txt, rr_ns, rr_soa, type_a, type_ns, type_cname, type_soa, type_mx, type_txt, type_aaaa,
  type_any, default_ttl, header, soa_record, ns_records, a_records, aaaa_records,
  build_default_response, dns_string_to_type, custom_record_to_rr, custom_answers,
  build_custom_response, build_acme_response, add_authority, add_glue_records, add_ns_authority,
  add_nodata_authority, add_answers, glue, ns_name,
}
use interactsh_lite.Dns.Acme.{AcmeStore, acme_get, normalize_fqdn}
use interactsh_lite.Dns.Zone.{ensure_trailing_dot}
use interactsh_lite.Prelude.Text.{Unicode}
use interactsh_lite.Prelude.{
  ℕ, ◌+◌, ◌*◌, length-append, true, not, ◌&&◌, ◌||◌, some, List, [], ◌∷◌, ◌++◌, map, ◌==◌, ltb,
  Bytes, length, All, All-append, if-elim, ◌≡◌, ◌≢◌, refl, arith, Bool-cases, Option-cases, ◌⊎◌,
  inl, inr, ==_iff, subst, sym,
}

abbrev pub rr_header : Rr → RrHeader
rr_header (rr_a h _) = h
rr_header (rr_aaaa h _) = h
rr_header (rr_cname h _) = h
rr_header (rr_mx h _ _) = h
rr_header (rr_txt h _) = h
rr_header (rr_ns h _) = h
rr_header (rr_soa h _) = h

-- The type that the record's data has.
abbrev pub data_type : Rr → ℕ
data_type (rr_a _ _) = type_a
data_type (rr_aaaa _ _) = type_aaaa
data_type (rr_cname _ _) = type_cname
data_type (rr_mx _ _ _) = type_mx
data_type (rr_txt _ _) = type_txt
data_type (rr_ns _ _) = type_ns
data_type (rr_soa _ _) = type_soa

-- The record answers a query of the name and type: its header agrees with its data, and the query
-- asked for that type or for any.
abbrev pub Answers : Bytes → ℕ → Rr → Type 0
Answers fqdn qtype rr =
    ((rr_header rr).name ≡ fqdn)
    × ((rr_header rr).rrtype ≡ data_type rr)
    × ((qtype ≡ type_any) ⊎ (qtype ≡ data_type rr))

a_records-Answers :
    (fqdn : Bytes) (qtype : ℕ) (ips : List Bytes)
    → (qtype ≡ type_any) ⊎ (qtype ≡ type_a)
    → All (Answers fqdn qtype) (a_records fqdn ips)
a_records-Answers fqdn qtype [] h = tt
a_records-Answers fqdn qtype (i ∷ ips) h = ((refl, refl, h), a_records-Answers fqdn qtype ips h)

aaaa_records-Answers :
    (fqdn : Bytes) (qtype : ℕ) (ips : List Bytes)
    → (qtype ≡ type_any) ⊎ (qtype ≡ type_aaaa)
    → All (Answers fqdn qtype) (aaaa_records fqdn ips)
aaaa_records-Answers fqdn qtype [] h = tt
aaaa_records-Answers fqdn qtype (i ∷ ips) h =
    ((refl, refl, h), aaaa_records-Answers fqdn qtype ips h)

ns_records-Answers :
    (fqdn domain_dot : Bytes) (qtype : ℕ)
    → qtype ≡ type_ns
    → All (Answers fqdn qtype) (ns_records fqdn domain_dot)
ns_records-Answers fqdn domain_dot qtype e = ((refl, refl, inr e), ((refl, refl, inr e), tt))

txt_records-Answers :
    (fqdn : Bytes) (qtype : ℕ) (values : List Bytes)
    → qtype ≡ type_txt
    → All (Answers fqdn qtype) (map (λ v. rr_txt (header fqdn type_txt 0) (v ∷ [])) values)
txt_records-Answers fqdn qtype [] h = tt
txt_records-Answers fqdn qtype (v ∷ vs) h =
    ((refl, refl, inr h), txt_records-Answers fqdn qtype vs h)

add_authority-answer :
    (ips : ServerIps) (m : Msg) (d : Bytes) → (add_authority ips m d).answer ≡ m.answer
unfolding add_authority add_glue_records add_ns_authority add_nodata_authority
add_authority-answer ips m d = ground arith

-- Every answer of `buildDefaultResponse` has the name of the query, and the type asked for unless
-- the query is for any type.
build_default_response-Answers :
    (ips : ServerIps) (qname : Bytes) (qtype : ℕ) (domain : Bytes)
    → All
        (Answers (ensure_trailing_dot qname) qtype)
        (build_default_response ips empty_msg qname qtype domain).answer
unfolding build_default_response soa_record
build_default_response-Answers ips qname qtype domain =
    let f = ensure_trailing_dot qname in
    let d = ensure_trailing_dot domain in
    let P : Msg → Type 0 = λ m. All (Answers f qtype) m.answer in
    let authority : (rrs : List Rr)
        → All (Answers f qtype) rrs
        → P (add_authority ips (add_answers empty_msg rrs) d) =
      λ rrs h.
        subst (All (Answers f qtype)) (sym (add_authority-answer ips (add_answers empty_msg rrs) d))
          h in
    if-elim P (qtype == type_a) _ _
      (λ e.
        authority (a_records f ips.ipv4)
          (a_records-Answers f qtype ips.ipv4 (inr ((==_iff qtype type_a).0 e))))
      λ _.
        if-elim P (qtype == type_aaaa) _ _
          (λ e.
            authority (aaaa_records f ips.ipv6)
              (aaaa_records-Answers f qtype ips.ipv6 (inr ((==_iff qtype type_aaaa).0 e))))
          λ _.
            if-elim P (qtype == type_mx) _ _
              (λ e. ((refl, refl, inr ((==_iff qtype type_mx).0 e)), tt))
              λ _.
                if-elim P (qtype == type_ns) _ _
                  (λ e. ns_records-Answers f d qtype ((==_iff qtype type_ns).0 e))
                  λ _.
                    if-elim P (qtype == type_soa) _ _
                      (λ e. ((refl, refl, inr ((==_iff qtype type_soa).0 e)), tt))
                      λ _.
                        if-elim P (qtype == type_txt) _ _
                          (λ e. ((refl, refl, inr ((==_iff qtype type_txt).0 e)), tt))
                          λ _.
                            if-elim P (qtype == type_any) _ _
                              (λ e. authority (a_records f ips.ipv4 ++ aaaa_records f ips.ipv6) (
                                All-append (Answers f qtype) (a_records f ips.ipv4)
                                  (aaaa_records f ips.ipv6)
                                  (a_records-Answers f qtype ips.ipv4
                                    (inl ((==_iff qtype type_any).0 e)))
                                  (aaaa_records-Answers f qtype ips.ipv6
                                    (inl ((==_iff qtype type_any).0 e)))))
                              (λ _. tt)

-- Every answer of `buildACMEResponse` has the name of the query and the type asked for.
pub build_acme_response-Answers :
    (u : Unicode) (ips : ServerIps) (store : AcmeStore) (qname : Bytes) (qtype : ℕ) (domain : Bytes)
    → All
        (Answers (ensure_trailing_dot qname) qtype)
        (build_acme_response u ips store empty_msg qname qtype domain).answer
unfolding build_acme_response soa_record
build_acme_response-Answers u ips store qname qtype domain =
    let f = ensure_trailing_dot qname in
    let d = ensure_trailing_dot domain in
    let P : Msg → Type 0 = λ m. All (Answers f qtype) m.answer in
    if-elim P (qtype == type_txt) _ _
      (λ e.
        txt_records-Answers f qtype (acme_get u (normalize_fqdn u qname) store)
          ((==_iff qtype type_txt).0 e))
      λ _.
        if-elim P (qtype == type_soa) _ _
          (λ e. ((refl, refl, inr ((==_iff qtype type_soa).0 e)), tt))
          λ _.
            if-elim P (qtype == type_ns) _ _
              (λ e. ns_records-Answers f d qtype ((==_iff qtype type_ns).0 e))
              λ _.
                if-elim P (qtype == type_a) _ _
                  (λ e. a_records-Answers f qtype ips.ipv4 (inr ((==_iff qtype type_a).0 e)))
                  λ _.
                    if-elim P (qtype == type_aaaa) _ _
                      (λ e.
                        aaaa_records-Answers f qtype ips.ipv6 (inr ((==_iff qtype type_aaaa).0 e)))
                      (λ _. tt)

module _ (u : Unicode) (ip : ParseIp) where
  custom_record_to_rr_type :
      (fqdn : Bytes) (rec : CustomRecord) (rr : Rr)
      → custom_record_to_rr u ip fqdn rec ≡ some rr
      → ((rr_header rr).name ≡ fqdn)
        × ((rr_header rr).rrtype ≡ data_type rr)
        × (data_type rr ≡ dns_string_to_type u rec.type)
  unfolding custom_record_to_rr dns_string_to_type
  custom_record_to_rr_type fqdn rec rr e = ground (arith, e)

  custom_answers-Answers :
      (fqdn : Bytes) (qtype : ℕ) (rs : List CustomRecord)
      → All (Answers fqdn qtype) (custom_answers u ip fqdn qtype rs)
  unfolding custom_answers
  custom_answers-Answers fqdn qtype [] = tt
  custom_answers-Answers fqdn qtype (r ∷ rs) =
      let rest = custom_answers u ip fqdn qtype rs in
      let h = custom_answers-Answers fqdn qtype rs in
      if-elim (All (Answers fqdn qtype))
        (not (qtype == type_any) && not (qtype == dns_string_to_type u r.type)) rest _ (λ _. h)
        λ e. elim (Option-cases (custom_record_to_rr u ip fqdn r)) [
          | inl n ↦ rw n h
          | inr (rr, n) ↦
              let t = custom_record_to_rr_type fqdn r rr n in
              rw n ((t.0, t.1, ground (arith, e, t.2)), h)
        ]

  -- Every answer of `buildCustomResponse` has the name of the query, and the type asked for unless
  -- the query is for any type.
  build_custom_response-Answers :
      (qname : Bytes) (qtype : ℕ) (records : List CustomRecord)
      → All
          (Answers (ensure_trailing_dot qname) qtype)
          (build_custom_response u ip empty_msg qname qtype records).answer
  unfolding build_custom_response
  build_custom_response-Answers qname qtype records =
      custom_answers-Answers (ensure_trailing_dot qname) qtype records

length-map : (f : Bytes → Rr) (xs : List Bytes) → length (map f xs) ≡ length xs
length-map f [] = refl
length-map f (x ∷ xs) = omega (arith, length-map f xs)

length-glue :
    (ips : ServerIps) (name : Bytes) → length (glue ips name) ≡ length ips.ipv4 + length ips.ipv6
length-glue ips name = omega (
  arith,
  length-append (a_records name ips.ipv4) (aaaa_records name ips.ipv6),
  length-map (λ ip. rr_a (header name type_a default_ttl) ip) ips.ipv4,
  length-map (λ ip. rr_aaaa (header name type_aaaa default_ttl) ip) ips.ipv6,
)

-- The sections besides the answer, for a domain with a trailing dot.
abbrev pub Authority : ServerIps → Bytes → Msg → Type 0
Authority ips d m =
    ((m.answer ≡ []) × (m.ns ≡ soa_record d d ∷ []) × (m.extra ≡ []))
    ⊎ ((m.answer ≢ [])
        × (m.ns ≡ ns_records d d)
        × (length m.extra ≡ 2 * (length ips.ipv4 + length ips.ipv6)))

add_authority-Authority :
    (ips : ServerIps) (d : Bytes) (rrs : List Rr)
    → Authority ips d (add_authority ips (add_answers empty_msg rrs) d)
unfolding add_authority add_glue_records add_ns_authority add_nodata_authority
add_authority-Authority ips d [] = inl (refl, refl, refl)
add_authority-Authority ips d (rr ∷ rrs) =
    let one = ns_name "ns1." d in
    let two = ns_name "ns2." d in
    let some_answer : ltb 0 (length (rr ∷ rrs)) ≡ true = ground arith in
    rw some_answer (
      inr (
        (λ e. ground (arith, e)),
        refl,
        omega (
          arith,
          length-append (glue ips one) (glue ips two),
          length-glue ips one,
          length-glue ips two,
        ),
      ))

-- What comes with the addresses of an answer to a query for them: the zone's SOA record if there
-- are none, else the two name servers, and as many glue records as both have addresses.
build_default_response-Authority :
    (ips : ServerIps) (qname : Bytes) (qtype : ℕ) (domain : Bytes)
    → ((qtype == type_a) || (qtype == type_aaaa) || (qtype == type_any)) ≡ true
    → let m = build_default_response ips empty_msg qname qtype domain in
      Authority ips (ensure_trailing_dot domain) m
unfolding build_default_response
build_default_response-Authority ips qname qtype domain h =
    let f = ensure_trailing_dot qname in
    let d = ensure_trailing_dot domain in
    elim (Bool-cases (qtype == type_a)) [
      | inl a ↦ rw a (add_authority-Authority ips d (a_records f ips.ipv4))
      | inr a ↦ elim (Bool-cases (qtype == type_aaaa)) [
        | inl b ↦ rw (a, b) (add_authority-Authority ips d (aaaa_records f ips.ipv6))
        | inr b ↦
            let e : qtype ≡ type_any = ground (arith, a, b, h) in
            subst (λ q. Authority ips d (build_default_response ips empty_msg qname q domain))
              (sym e)
              (add_authority-Authority ips d (a_records f ips.ipv4 ++ aaaa_records f ips.ipv6))
      ]
    ]
