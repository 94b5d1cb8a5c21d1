-- ===== src/Oobclient/Connected.antt =====
-- What the options may be, and where a new client is registered.
use interactsh_lite.Endpoints.{RegisterRequest}
use interactsh_lite.Oobclient.Cid.{CidResult, cid, unread, out_of_range}
use interactsh_lite.Oobclient.Generated.{length-generate_correlation_id}
use interactsh_lite.Oobclient.Options.{
  fixed_id_length, short_id_length, nonce_length_of, id_length_of, Options, Settings, Resolved,
  invalid, settings, resolve_options, provides_servers, settled, short_nonce_length,
  default_servers, fallback_servers, NewResult, not_registered, created, Reading, generate,
  registrant_of, try_fallback, connect, fallback_id_length, fallback_min_nonce_length,
  default_server_id_length,
}
use interactsh_lite.Oobclient.Registration.{Network, RegisterError, try_register_servers}
use interactsh_lite.Oobclient.Servers.{
  Any, Explains, IsRegistered, Attempt-cases, try_register_servers-Explains,
}
use interactsh_lite.Prelude.Int.{is_nat, lt_nat}
use interactsh_lite.Prelude.{
  ℕ, ◌+◌, ◌≤◌, ◌<◌, Bool, true, false, not, ◌&&◌, ◌||◌, [], ◌∷◌, ltb, if◌then◌else◌, Bytes, length,
  ◌==◌, ◌≡◌, refl, sym, subst, ap, ◌∙◌, arith, Bool-cases, ◌⊎◌, inl, inr, if-elim,
}

default_servers_some : 0 < length default_servers
unfolding default_servers
default_servers_some = omega arith

fallback_servers_some : 0 < length fallback_servers
unfolding fallback_servers
fallback_servers_some = omega arith

-- What settings are: servers to try, and lengths that these accept.
abbrev pub IsResolved : Resolved → Type 0
IsResolved (invalid e) = Unit
IsResolved (settings s) =
    (0 < length s.servers)
    × (4 ≤ s.id_length)
    × (4 ≤ s.nonce_length)
    × ((s.user_provided ≡ true)
        ⊎ ((s.servers ≡ default_servers) × (s.id_length ≡ default_server_id_length)))

-- Options that are not refused give at least one server, lengths of at least 4, and the ID length
-- of the default servers if these are used.
resolve_options-IsResolved : (o : Options) → IsResolved (resolve_options o)
unfolding resolve_options
resolve_options-IsResolved o =
    let user = provides_servers o in
    let last =
      if lt_nat (nonce_length_of o) 4 then invalid short_nonce_length else settings (settled o) in
    let middle = if user && lt_nat (id_length_of o) 4 then invalid short_id_length else last in
    if-elim IsResolved
      (not user
        && not (is_nat o.correlation_id_length 0)
        && not (is_nat (id_length_of o) default_server_id_length))
      (invalid fixed_id_length) middle (λ _. tt)
      λ fixed.
        if-elim IsResolved (user && lt_nat (id_length_of o) 4) (invalid short_id_length) last
          (λ _. tt)
          λ long.
            if-elim IsResolved (lt_nat (nonce_length_of o) 4) (invalid short_nonce_length)
              (settings (settled o)) (λ _. tt)
              λ nonce. (
                ground (arith, default_servers_some),
                ground (arith, long, fixed),
                ground (arith, nonce),
                ground (arith, fixed),
              )

CidResult-cases :
    (r : CidResult) → ((r ≡ unread) ⊎ (r ≡ out_of_range)) ⊎ ((c : Bytes) × (r ≡ cid c))
CidResult-cases (cid c) = inr (c, refl)
CidResult-cases unread = inl (inl refl)
CidResult-cases out_of_range = inl (inr refl)

-- Where a client that `New` returns is registered, and for what: with the servers tried first as
-- they were asked for, with the fallback servers with lengths that these accept.
module _ (net : Network) (o : Options) (s : Settings) where
  abbrev pub IsConnected : RegisterRequest → NewResult → Type 0
  IsConnected request (created c) =
      (Any (IsRegistered net (registrant_of o c.request) c.server_url) s.servers
        × (c.request ≡ request)
        × (c.nonce_length ≡ s.nonce_length))
      ⊎ (Any (IsRegistered net (registrant_of o c.request) c.server_url) fallback_servers
          × (s.user_provided ≡ false)
          × (fallback_id_length ≤ length c.request.correlation_id)
          × (fallback_min_nonce_length ≤ c.nonce_length)
          × (s.nonce_length ≤ c.nonce_length))
  IsConnected request _ = Unit

  fallback_size :
      (request : RegisterRequest) (again : Reading) (c : Bytes)
      → (if ltb (length request.correlation_id) fallback_id_length
          then generate again fallback_id_length
          else cid request.correlation_id)
        ≡ cid c
      → fallback_id_length ≤ length c
  fallback_size request again c n =
      elim (Bool-cases (ltb (length request.correlation_id) fallback_id_length)) [
        | inl t ↦ ground (
          arith,
          length-generate_correlation_id again.random again.more again.now 20 c (omega arith) (
              ap
                (λ (b : Bool).
                  if b then generate again fallback_id_length else cid request.correlation_id)
                (sym t)
              ∙ n),
        )
        | inr t ↦ ground (arith, n, t)
      ]

  try_fallback-IsConnected :
      (index : ℕ) (first : RegisterError) (request : RegisterRequest) (again : Reading)
      → s.user_provided ≡ false
      → IsConnected request (try_fallback net o s index first request again)
  unfolding try_fallback
  try_fallback-IsConnected index first request again u =
      let short = ltb (length request.correlation_id) fallback_id_length in
      let id = if short then generate again fallback_id_length else cid request.correlation_id in
      elim (CidResult-cases id) [
        | inl (inl n) ↦ rw (try_fallback, n) tt
        | inl (inr n) ↦ rw (try_fallback, n) tt
        | inr (c, n) ↦
            let r = registrant_of o (record request { correlation_id = c }) in
            let size = fallback_size request again c n in
            elim (Attempt-cases net r (try_register_servers net r (index + 1) fallback_servers)) [
              | inr (e, a) ↦ rw (try_fallback, n, a) tt
              | inl (url, a) ↦
                  rw (try_fallback, n, a)
                    (inr (
                      subst (Explains net r fallback_servers) a (
                          try_register_servers-Explains net r (index + 1) fallback_servers
                            fallback_servers_some),
                      u,
                      size,
                      ground arith,
                      ground arith,
                    ))
            ]
      ]

  -- A client that `New` returns is registered, at the URL that it keeps, with one of the servers
  -- tried first; or with a fallback server, which is tried only if the servers are not the user's,
  -- and then its ID has at least 20 characters and its nonces at least 13.
  pub connect-IsConnected :
      (index : ℕ) (request : RegisterRequest) (again : Reading)
      → 0 < length s.servers
      → IsConnected request (connect net o s index request again)
  unfolding connect
  connect-IsConnected index request again h =
      let r = registrant_of o request in
      elim (Attempt-cases net r (try_register_servers net r index s.servers)) [
        | inl (url, a) ↦
            rw (connect, a)
              (inl (
                subst (Explains net r s.servers) a
                    (try_register_servers-Explains net r index s.servers h),
                refl,
                refl,
              ))
        | inr (e, a) ↦
            rw (connect, a)
              (if-elim (IsConnected request) (s.user_provided || length fallback_servers == 0)
                (not_registered (e ∷ [])) (try_fallback net o s index e request again) (λ _. tt)
                λ u. try_fallback-IsConnected index e request again (ground (arith, u)))
      ]
