-- ===== src/Dns/Delivery.antt =====
-- What a query brings to the sessions.
use interactsh_lite.Dns.Acme.{normalize_fqdn}
use interactsh_lite.Dns.Handle.{
  Question, Query, DnsLibrary, is_acme, dns_interaction, capture_dns_interaction, build_response,
  answer_question, handle_dns,
}
use interactsh_lite.Dns.Zone.{matched_domain, extract_subdomain}
use interactsh_lite.Server.{Server, Library, Meets, capture_matches, capture_interaction}
use interactsh_lite.Server.Capture.{delivery, capture_interaction_lem}
use interactsh_lite.Storage.Consistent.{IsValid}
use interactsh_lite.Prelude.{
  ℕ, ◌+◌, false, none, some, List, [], ◌∷◌, ◌++◌, Bytes, lookup, ◌≡◌, refl, arith, ap, ◌∙◌,
}

module _ {H : Type 0} (lib : Library) (dns : DnsLibrary) (meets : Meets H) where
  handle_dns_question :
      (r : Query) (q : Question) (qs : List Question) (s : Server H)
      → r.questions ≡ q ∷ qs
      → let a = answer_question lib dns meets r q (record s { dns_count = s.dns_count + 1 }) in
        handle_dns lib dns meets r s ≡ (some a.0, a.1)
  unfolding handle_dns
  handle_dns_question r q qs s e =
      let counted = record s { dns_count = s.dns_count + 1 } in
      ap
        (λ (l : List Question). elim l [
          | [] ↦ (none, s)
          | x ∷ _ ↦ let (m, s') = answer_question lib dns meets r x counted in (some m, s')
        ])
        e

  answer_question_captures :
      (r : Query) (q : Question) (domain : Bytes) (s : Server H)
      → matched_domain s.cfg.domains (normalize_fqdn lib.unicode q.name) ≡ some domain
      → is_acme (extract_subdomain (normalize_fqdn lib.unicode q.name) domain) ≡ false
      → let subdomain = extract_subdomain (normalize_fqdn lib.unicode q.name) domain in
        let m = build_response lib dns q domain subdomain s in
        answer_question lib dns meets r q s ≡ (
          m,
          capture_dns_interaction lib dns meets r q.name
              (dns.msg_text m)
              q.qtype
              domain
              subdomain
              s,
        )
  unfolding answer_question
  answer_question_captures r q domain s n a = rw (answer_question, n, a) refl

  capture_dns_interaction_storage :
      (r : Query) (qname raw domain subdomain : Bytes) (qtype : ℕ) (s : Server H)
      → (capture_dns_interaction lib dns meets r qname raw qtype domain subdomain s).storage
        ≡ (capture_interaction lib meets domain subdomain r.text
            (dns_interaction dns r raw qtype (normalize_fqdn lib.unicode qname))
            (dns_interaction dns r raw qtype [])
            s).1.storage
  unfolding capture_dns_interaction
  capture_dns_interaction_storage r qname raw domain subdomain qtype s = ground arith

  -- A query for a name in a configured domain that is not of an ACME challenge is answered by the
  -- custom records of its subdomain or by default. Its interaction goes to the sessions of the IDs
  -- matched in the subdomain (in the whole text of the query, if everything is scanned): a
  -- session's interactions grow by that of its ID alone.
  pub handle_dns_delivers :
      (r : Query) (q : Question) (qs : List Question) (domain id : Bytes) (p : ℕ) (s : Server H)
      → r.questions ≡ q ∷ qs
      → matched_domain s.cfg.domains (normalize_fqdn lib.unicode q.name) ≡ some domain
      → is_acme (extract_subdomain (normalize_fqdn lib.unicode q.name) domain) ≡ false
      → IsValid (meets.others s.storage)
      → lookup id (meets.others s.storage).sessions ≡ some p
      → let subdomain = extract_subdomain (normalize_fqdn lib.unicode q.name) domain in
        let m = build_response lib dns q domain subdomain s in
        let i = dns_interaction dns r (dns.msg_text m) q.qtype [] in
        let matches = capture_matches lib meets subdomain r.text s in
        let session = (meets.others s.storage).heap p in
        let s' = (handle_dns lib dns meets r s).1 in
        ((handle_dns lib dns meets r s).0 ≡ some m)
        × ((s'.storage.heap p).interactions
            ≡ session.interactions ++ delivery lib meets i matches id session.aes_block)
  unfolding build_response capture_matches
  handle_dns_delivers r q qs domain id p s e n a v l =
      let counted = record s { dns_count = s.dns_count + 1 } in
      let subdomain = extract_subdomain (normalize_fqdn lib.unicode q.name) domain in
      let m = build_response lib dns q domain subdomain counted in
      let raw = dns.msg_text m in
      let x =
        handle_dns_question r q qs s e
        ∙ ap (λ y. (some y.0, y.1)) (answer_question_captures r q domain counted n a) in
      (
        ap (λ y. y.0) x,
        ap (λ y. (y.1.storage.heap p).interactions) x
            ∙ ap (λ st. (st.heap p).interactions)
                (capture_dns_interaction_storage r q.name raw domain subdomain q.qtype counted)
            ∙ (capture_interaction_lem lib meets domain subdomain r.text
                (dns_interaction dns r raw q.qtype (normalize_fqdn lib.unicode q.name))
                (dns_interaction dns r raw q.qtype []) counted id p v l).1,
      )
