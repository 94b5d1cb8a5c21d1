-- ===== src/Http/Delivery.antt =====
-- From a request to the sessions of the IDs in its host.
use interactsh_lite.Dns.Zone.{matched_domain}
use interactsh_lite.Http.Middleware.{
  http_interaction, on_http_interaction, logger_middleware, hostname_middleware, response_text,
  extract_remote_addr,
}
use interactsh_lite.Http.{
  HttpLibrary, HttpRequest, ResponseRecorder, new_response_recorder, Handler, strip_host_port,
}
use interactsh_lite.Prelude.Text.{to_lower}
use interactsh_lite.Server.Capture.{delivery, capture_interaction_lem}
use interactsh_lite.Server.{Server, Library, Meets, capture_interaction, capture_matches}
use interactsh_lite.Storage.Consistent.{IsValid}
use interactsh_lite.Prelude.{
  ℕ, ◌+◌, false, not, ◌&&◌, some, [], ◌++◌, Bytes, equal, lookup, ◌≡◌, refl, ap, ◌∙◌, arith,
}

module _ {H : Type 0} (lib : Library) (meets : Meets H) (now : ℕ) where
  on_http_interaction_storage :
      (req : HttpRequest) (raw_response remote_addr hostname domain : Bytes) (s : Server H)
      → (equal domain [] && not s.cfg.scan_everywhere) ≡ false
      → (on_http_interaction lib meets now req raw_response remote_addr hostname domain s).storage
        ≡ (capture_interaction lib meets domain hostname req.raw
            (http_interaction req raw_response remote_addr now hostname)
            (http_interaction req raw_response remote_addr now [])
            (record s { http_count = s.http_count + 1 })).1.storage
  unfolding on_http_interaction
  on_http_interaction_storage req raw_response remote_addr hostname domain s h = ground (arith, h)

  on_http_interaction_delivers :
      (req : HttpRequest) (raw_response remote_addr hostname domain id : Bytes) (p : ℕ)
      (s : Server H)
      → (equal domain [] && not s.cfg.scan_everywhere) ≡ false
      → IsValid (meets.others s.storage)
      → lookup id (meets.others s.storage).sessions ≡ some p
      → let i = http_interaction req raw_response remote_addr now [] in
        let matches = capture_matches lib meets hostname req.raw s in
        let session = (meets.others s.storage).heap p in
        let s' = on_http_interaction lib meets now req raw_response remote_addr hostname domain s in
        (s'.storage.heap p).interactions
        ≡ session.interactions ++ delivery lib meets i matches id session.aes_block
  unfolding capture_matches
  on_http_interaction_delivers req raw_response remote_addr hostname domain id p s h v e =
      ap (λ st. (st.heap p).interactions)
        (on_http_interaction_storage req raw_response remote_addr hostname domain s h)
      ∙ (capture_interaction_lem lib meets domain hostname req.raw
          (http_interaction req raw_response remote_addr now hostname)
          (http_interaction req raw_response remote_addr now [])
          (record s { http_count = s.http_count + 1 }) id p v e).1

  hostname_middleware_found :
      (http : HttpLibrary) (next : Handler (Server H)) (req : HttpRequest) (domain : Bytes)
      (s : Server H)
      → let hostname = to_lower http.unicode (strip_host_port http req.host) in
        matched_domain s.cfg.domains hostname ≡ some domain
        → hostname_middleware http next req (s, new_response_recorder)
          ≡ next req (s, record new_response_recorder { hostname = hostname; domain = domain })
  unfolding hostname_middleware
  hostname_middleware_found http next req domain s m = rw (hostname_middleware, m) refl

  -- A request for a name below a configured domain, through `LoggerMiddleware` and
  -- `hostnameMiddleware`: a session grows by the interaction of its ID alone, with the text of the
  -- answer that the handler gave, if the host holds the ID (or the text of the request, if
  -- everything is scanned). The handler must leave the recorder's name and domain.
  pub logger_middleware_delivers :
      (http : HttpLibrary) (header : Bytes) (next : Handler (Server H)) (req : HttpRequest)
      (domain id : Bytes) (p : ℕ) (s : Server H) (w : ResponseRecorder)
      → let hostname = to_lower http.unicode (strip_host_port http req.host) in
        let begun = record new_response_recorder { hostname = hostname; domain = domain } in
        let (s1, rec) = next req (s, begun) in
        matched_domain s.cfg.domains hostname ≡ some domain
        → (equal domain [] && not s1.cfg.scan_everywhere) ≡ false
        → rec.hostname ≡ hostname
        → rec.domain ≡ domain
        → IsValid (meets.others s1.storage)
        → lookup id (meets.others s1.storage).sessions ≡ some p
        → let i =
            http_interaction req
              (response_text http rec)
              (extract_remote_addr http req header)
              now
              [] in
          let matches = capture_matches lib meets hostname req.raw s1 in
          let session = (meets.others s1.storage).heap p in
          let s' =
            (logger_middleware http header
              (on_http_interaction lib meets now)
              (hostname_middleware http next)
              req
              (s, w)).0 in
          (s'.storage.heap p).interactions
          ≡ session.interactions ++ delivery lib meets i matches id session.aes_block
  unfolding logger_middleware hostname_middleware
  logger_middleware_delivers http header next req domain id p s w m h n d v e =
      let hostname = to_lower http.unicode (strip_host_port http req.host) in
      let begun = record new_response_recorder { hostname = hostname; domain = domain } in
      let x = next req (s, begun) in
      let raw = response_text http x.1 in
      let addr = extract_remote_addr http req header in
      let after = λ (y : Server H × ResponseRecorder).
        ((on_http_interaction lib meets now req (response_text http y.1) addr y.1.hostname
            y.1.domain y.0).storage.heap
          p).interactions in
      let named = λ (name : Bytes) (zone : Bytes).
        ((on_http_interaction lib meets now req raw addr name zone x.0).storage.heap
          p).interactions in
      ap after (hostname_middleware_found http next req domain s m)
      ∙ ap (λ a. named a x.1.domain) n
      ∙ ap (named hostname) d
      ∙ on_http_interaction_delivers req raw addr hostname domain id p x.0 h v e
