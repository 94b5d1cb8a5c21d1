-- ===== src/Http/Unauthenticated.antt =====
-- What `serveResponse` of interactsh-srv/oobsrv/httpapi.go answers on a server without
-- authentication.
use interactsh_lite.Http.{
  HttpLibrary, HttpRequest, ResponseRecorder, clamp_status_code, write_header, write, header_add,
}
use interactsh_lite.Http.Respond.{
  add_header_line, add_headers, status_of, path_body, has_param, has_any_body, has_non_delay,
  asked_config, apply_dynamic_params, write_dynamic_body, serve_dynamic_response,
  write_response_config, serve_response,
}
use interactsh_lite.Oobclient.Response.{
  ResponseConfig, IsLocation, IsRedirect, is_allowed_unauthenticated,
  is_allowed_unauthenticated_iff,
}
use interactsh_lite.Prelude.Int.{pos}
use interactsh_lite.Prelude.Text.{codes, cut}
use interactsh_lite.Prelude.{
  ℕ, Bool, true, false, not, ◌&&◌, Option, none, some, List, [], ◌∷◌, ◌++◌, if◌then◌else◌, Bytes,
  All, lookup, get_or, ◌≡◌, ◌≢◌, refl, sym, subst, ap, ◌∙◌, arith, ◌⊎◌, inl, inr, Bool-cases,
  Option-cases, if-elim,
}

module _ (lib : HttpLibrary) (req : HttpRequest) where
  -- The headers of a list were added to those of a recorder, each a Location, with a redirect.
  pub record IsRedirected (hs : List Bytes) (r r' : ResponseRecorder) : Type 0 where
    pub status : (r'.status_code ≡ 302) ⊎ (r'.status_code ≡ 307)
    pub headers : r'.header ≡ (add_headers lib true req.tls hs r).header
    pub some_header : hs ≢ []
    pub locations : All (IsLocation lib.unicode) hs

  abbrev pub IsPlain : ResponseRecorder → ResponseRecorder → Type 0
  IsPlain r r' = (r'.status_code ≡ 200) × (r'.header ≡ r.header)

  -- The body is the reflection, whatever was asked for; the rest is a redirect or nothing.
  abbrev pub IsHarmless : Bytes → ResponseRecorder → Option (ℕ × ResponseRecorder) → Type 0
  IsHarmless reflection r none = Unit
  IsHarmless reflection r (some (delay, r')) =
      (r'.body ≡ r.body ++ reflection) × (IsPlain r r' ⊎ ((hs : List Bytes) × IsRedirected hs r r'))

  add_header_line_rest :
      (b : Bool) (h : Bytes) (r : ResponseRecorder)
      → let r' = add_header_line lib b req.tls h r in
        (r'.wrote_header ≡ r.wrote_header) × (r'.body ≡ r.body)
  unfolding add_header_line header_add
  add_header_line_rest b h r = elim (Bool-cases (cut b':' h).2) [
    | inl e ↦ rw (add_header_line, e) (refl, refl)
    | inr e ↦ rw (add_header_line, e) (refl, refl)
  ]

  add_headers_rest :
      (b : Bool) (hs : List Bytes) (r : ResponseRecorder)
      → let r' = add_headers lib b req.tls hs r in
        (r'.wrote_header ≡ r.wrote_header) × (r'.body ≡ r.body)
  unfolding add_headers
  add_headers_rest b [] r = (refl, refl)
  add_headers_rest b (h ∷ hs) r =
      let r' = add_header_line lib b req.tls h r in
      let here = add_header_line_rest b h r in
      let rest = add_headers_rest b hs r' in (rest.0 ∙ here.0, rest.1 ∙ here.1)

  write-IsPlain :
      (reflection : Bytes) (r : ResponseRecorder)
      → r.wrote_header ≡ false
      → ((write reflection r).body ≡ r.body ++ reflection) × IsPlain r (write reflection r)
  unfolding write write_header clamp_status_code
  write-IsPlain reflection r w = rw (write, w) (refl, (refl, refl))

  write_status :
      (code : ℕ) (reflection : Bytes) (r : ResponseRecorder)
      → (code ≡ 302) ⊎ (code ≡ 307)
      → r.wrote_header ≡ false
      → let r' = write reflection (write_header (pos code) r) in
        (r'.body ≡ r.body ++ reflection) × (r'.status_code ≡ code) × (r'.header ≡ r.header)
  unfolding write write_header clamp_status_code
  write_status code reflection r (inl c) w = rw (write, w, c) (refl, refl, refl)
  write_status code reflection r (inr c) w = rw (write, w, c) (refl, refl, refl)

  -- A redirect of these headers with the reflection as its body.
  redirect_answer :
      (code : ℕ) (hs : List Bytes) (reflection : Bytes) (r : ResponseRecorder)
      → (code ≡ 302) ⊎ (code ≡ 307)
      → hs ≢ []
      → All (IsLocation lib.unicode) hs
      → r.wrote_header ≡ false
      → let r' = write reflection (write_header (pos code) (add_headers lib true req.tls hs r)) in
        (r'.body ≡ r.body ++ reflection) × IsRedirected hs r r'
  redirect_answer code hs reflection r c ne l w =
      let (w', b) = add_headers_rest true hs r in
      let (body, status, header) =
        write_status code reflection (add_headers lib true req.tls hs r) c (w' ∙ w) in
      (
        body ∙ ap (λ x. x ++ reflection) b,
        record {
          status = elim c [ inl e ↦ inl (status ∙ e) | inr e ↦ inr (status ∙ e) ];
          headers = header;
          some_header = ne;
          locations = l;
        },
      )

  no_body : (asked_config lib req).body ≡ [] → has_any_body lib req ≡ false
  no_body h = elim (Bool-cases (has_any_body lib req)) [
    | inl e ↦ absurd (ground (arith, ap (λ (b : Bool). if b then codes "-" else []) (sym e) ∙ h))
    | inr e ↦ e
  ]

  written :
      (reflection : Bytes) (r : ResponseRecorder)
      → has_any_body lib req ≡ false
      → write_dynamic_body lib req reflection r ≡ write reflection r
  unfolding write_dynamic_body
  written reflection r h = elim (Option-cases (path_body lib req.path)) [
    | inr (body, e) ↦ absurd (ground (arith, h, e))
    | inl e ↦
        let x : has_param req.query (codes "b64_body") ≡ false = ground (arith, h) in
        let y : has_param req.query (codes "body") ≡ false = ground (arith, h) in
        rw (write_dynamic_body, e, x, y) refl
  ]

  abbrev asked_headers : List Bytes
  asked_headers = get_or [] (lookup (codes "header") req.query)

  applied :
      (code : ℕ) (r : ResponseRecorder)
      → (code ≡ 302) ⊎ (code ≡ 307)
      → status_of lib req.query ≡ pos code
      → (apply_dynamic_params lib req r).1
        ≡ write_header (pos code) (add_headers lib true req.tls asked_headers r)
  unfolding apply_dynamic_params clamp_status_code
  applied code r (inl c) e = rw (apply_dynamic_params, e, c) refl
  applied code r (inr c) e = rw (apply_dynamic_params, e, c) refl

  -- The asked configuration is accepted.
  dynamic_redirect :
      (code : ℕ) (reflection : Bytes) (r : ResponseRecorder)
      → (code ≡ 302) ⊎ (code ≡ 307)
      → status_of lib req.query ≡ pos code
      → (asked_config lib req).body ≡ []
      → asked_headers ≢ []
      → All (IsLocation lib.unicode) asked_headers
      → r.wrote_header ≡ false
      → let r' = write_dynamic_body lib req reflection (apply_dynamic_params lib req r).1 in
        (r'.body ≡ r.body ++ reflection) × IsRedirected asked_headers r r'
  dynamic_redirect code reflection r c s b ne l w =
      let r' = write_header (pos code) (add_headers lib true req.tls asked_headers r) in
      let P = λ (x : ResponseRecorder).
        (x.body ≡ r.body ++ reflection) × IsRedirected asked_headers r x in
      subst P
        (sym (
          ap (write_dynamic_body lib req reflection) (applied code r c s)
          ∙ written reflection r' (no_body b)))
        (redirect_answer code asked_headers reflection r c ne l w)

  dynamic_allowed :
      (reflection : Bytes) (r : ResponseRecorder)
      → IsRedirect lib.unicode (asked_config lib req)
      → r.wrote_header ≡ false
      → IsHarmless reflection r (
          some (
            (apply_dynamic_params lib req r).0,
            write_dynamic_body lib req reflection (apply_dynamic_params lib req r).1,
          ))
  dynamic_allowed reflection r (inl s, b, ne, l) w =
      let a = dynamic_redirect 302 reflection r (inl refl) s b ne l w in
      (a.0, inr (asked_headers, a.1))
  dynamic_allowed reflection r (inr s, b, ne, l) w =
      let a = dynamic_redirect 307 reflection r (inr refl) s b ne l w in
      (a.0, inr (asked_headers, a.1))

  no_param : (name : Bytes) → has_param req.query name ≡ false → lookup name req.query ≡ none
  no_param name h = elim (Option-cases (lookup name req.query)) [
    | inl e ↦ e
    | inr (v, e) ↦ absurd (ground (arith, h, e))
  ]

  -- Only a delay is asked for.
  dynamic_delay :
      (reflection : Bytes) (r : ResponseRecorder)
      → has_non_delay lib req ≡ false
      → r.wrote_header ≡ false
      → IsHarmless reflection r (
          some (
            (apply_dynamic_params lib req r).0,
            write_dynamic_body lib req reflection (apply_dynamic_params lib req r).1,
          ))
  unfolding apply_dynamic_params status_of
  dynamic_delay reflection r h w =
      let s = no_param (codes "status") (ground (arith, h)) in
      let hs = no_param (codes "header") (ground (arith, h)) in
      let same : (apply_dynamic_params lib req r).1 ≡ r =
        rw (apply_dynamic_params, status_of, s, hs) refl in
      let P = λ (x : ResponseRecorder). (x.body ≡ r.body ++ reflection) × IsPlain r x in
      let a =
        subst P
          (sym (
            ap (write_dynamic_body lib req reflection) same
            ∙ written reflection r (ground (arith, h))))
          (write-IsPlain reflection r w) in
      (a.0, inl a.1)

  serve_dynamic_response-IsHarmless :
      (reflection : Bytes) (r : ResponseRecorder)
      → r.wrote_header ≡ false
      → IsHarmless reflection r (serve_dynamic_response lib false req reflection r)
  unfolding serve_dynamic_response
  serve_dynamic_response-IsHarmless reflection r w =
      let asked = is_allowed_unauthenticated lib.unicode (some (asked_config lib req)) in
      let answer =
        (some (
          (apply_dynamic_params lib req r).0,
          write_dynamic_body lib req reflection (apply_dynamic_params lib req r).1,
        )) in
      let P = IsHarmless reflection r in
      if-elim P (not (has_non_delay lib req) && not (has_param req.query (codes "delay"))) none
        (if has_non_delay lib req && not asked then none else answer) (λ _. tt)
        λ _.
          if-elim P (has_non_delay lib req && not asked) none answer (λ _. tt)
            λ h. elim (Bool-cases (has_non_delay lib req)) [
              | inr e ↦ dynamic_delay reflection r e w
              | inl e ↦
                  dynamic_allowed reflection r
                    ((is_allowed_unauthenticated_iff lib.unicode (asked_config lib req)).0
                      (ground (arith, h, e)))
                    w
            ]

  config_redirect :
      (cfg : ResponseConfig) (reflection : Bytes) (r : ResponseRecorder)
      → IsRedirect lib.unicode cfg
      → r.wrote_header ≡ false
      → IsHarmless reflection r (some (0, write_response_config lib req cfg reflection r))
  unfolding write_response_config clamp_status_code
  config_redirect cfg reflection r (inl s, b, ne, l) w =
      let a = redirect_answer 302 cfg.headers reflection r (inl refl) ne l w in
      rw (write_response_config, s, b) (a.0, inr (cfg.headers, a.1))
  config_redirect cfg reflection r (inr s, b, ne, l) w =
      let a = redirect_answer 307 cfg.headers reflection r (inr refl) ne l w in
      rw (write_response_config, s, b) (a.0, inr (cfg.headers, a.1))

  -- Without authentication, if `serveResponse` answers a request at all, on a response whose header is
  -- not written, it writes the reflection that it is given as the body and nothing else, whatever
  -- the query and the stored configuration ask for; and unless status and headers are left alone,
  -- the answer is a 302 or 307 whose headers are all a Location. Files and the default answers are not answers of `serveResponse`.
  pub serve_response-IsHarmless :
      (dynamic_resp : Bool) (stored : Option ResponseConfig) (reflection : Bytes)
      (r : ResponseRecorder)
      → r.wrote_header ≡ false
      → IsHarmless reflection r (serve_response lib false dynamic_resp stored req reflection r)
  unfolding serve_response
  serve_response-IsHarmless dynamic_resp stored reflection r w =
      let P = IsHarmless reflection r in
      let dynamic =
        if dynamic_resp then serve_dynamic_response lib false req reflection r else none in
      let harmless : P dynamic =
        if-elim P dynamic_resp (serve_dynamic_response lib false req reflection r) none
          (λ _. serve_dynamic_response-IsHarmless reflection r w) (λ _. tt) in
      elim (Option-cases dynamic) [
        | inr (answer, e) ↦ rw (serve_response, e) (subst P e harmless)
        | inl e ↦ elim (Option-cases stored) [
          | inl n ↦ rw (serve_response, e, n) tt
          | inr (cfg, n) ↦
              let answer = some (0, write_response_config lib req cfg reflection r) in
              rw (serve_response, e, n)
                (if-elim P (is_allowed_unauthenticated lib.unicode (some cfg)) answer none
                  (λ a.
                    config_redirect cfg reflection r
                      ((is_allowed_unauthenticated_iff lib.unicode cfg).0 a) w)
                  (λ _. tt))
        ]
      ]
