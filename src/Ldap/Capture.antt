-- ===== src/Ldap/Capture.antt =====
-- What a search brings to the sessions.
use interactsh_lite.Correlation.{Match, match_ldap_correlation_id}
use interactsh_lite.Correlation.BaseDn.{match_ldap_correlation_id-Reported}
use interactsh_lite.Ldap.{
  LdapConn, Request, ldap_interaction, request_text, capture_ldap_extra,
  capture_ldap_search_interaction, handle_ldap,
}
use interactsh_lite.Ldap.StartTls.{LdapMessage}
use interactsh_lite.Server.{Library, Meets, Server, store_matched_interactions}
use interactsh_lite.Server.Capture.{delivery, store_matched_interactions_lem}
use interactsh_lite.Storage.Consistent.{IsValid}
use interactsh_lite.Prelude.{
  ℕ, ◌+◌, ◌&&◌, some, List, ◌++◌, Bytes, lookup, is_some, ◌≡◌, refl, arith, Bool-cases, inl, inr,
  ap, ◌∙◌,
}

module _ {H : Type 0} (lib : Library) (itoa : ℕ → Bytes) where
  -- The matches of a search's base DN.
  abbrev pub search_matches : Meets H → Bytes → Server H → List Match
  search_matches meets base_dn s =
      match_ldap_correlation_id lib.unicode base_dn s.cfg.correlation_id_length s.cfg.domains
        meets.has_correlation_id

  pub capture_ldap_extra_kept :
      (raw remote_addr : Bytes) (now : ℕ) (s : Server H)
      → let s' = capture_ldap_extra lib itoa raw remote_addr now s in
        (s'.storage ≡ s.storage) × (s'.cfg ≡ s.cfg)
  unfolding capture_ldap_extra
  capture_ldap_extra_kept raw remote_addr now s = ground arith

  handle_ldap_search :
      (m : LdapMessage H) (base_dn filter : Bytes) (attrs : List Bytes) (conn : LdapConn)
      (s : Server H)
      → let r = Request.search base_dn filter attrs in
        (handle_ldap lib itoa m.meets m.ctx r (conn, s)).2.storage
        ≡ store_matched_interactions lib m.meets
            (search_matches m.meets base_dn s)
            (ldap_interaction (request_text itoa r) m.ctx.remote_addr m.ctx.search_now)
            (m.meets.others s.storage)
  unfolding handle_ldap capture_ldap_search_interaction
  handle_ldap_search m base_dn filter attrs conn s =
      let counted = record s { ldap_count = s.ldap_count + 1 } in
      let kept =
        capture_ldap_extra_kept (request_text itoa (Request.search base_dn filter attrs))
          m.ctx.remote_addr m.ctx.now counted in
      elim (Bool-cases (s.cfg.ldap && is_some s.extra_bucket)) [
        | inl e ↦ rw (e, kept.0, kept.1) refl
        | inr e ↦ rw e refl
      ]

  -- In a consistent storage, as other goroutines leave it, a search adds to the interactions of
  -- every session what the match of its ID in the base DN brings, and nothing else, whether or
  -- not all LDAP requests are logged.
  pub handle_ldap_delivers :
      (m : LdapMessage H) (base_dn filter : Bytes) (attrs : List Bytes) (conn : LdapConn)
      (s : Server H) (id : Bytes) (p : ℕ)
      → IsValid (m.meets.others s.storage)
      → lookup id (m.meets.others s.storage).sessions ≡ some p
      → let r = Request.search base_dn filter attrs in
        let i = ldap_interaction (request_text itoa r) m.ctx.remote_addr m.ctx.search_now in
        let session = (m.meets.others s.storage).heap p in
        ((handle_ldap lib itoa m.meets m.ctx r (conn, s)).2.storage.heap p).interactions
        ≡ session.interactions
          ++ delivery lib m.meets i (search_matches m.meets base_dn s) id session.aes_block
  handle_ldap_delivers m base_dn filter attrs conn s id p v e =
      let r = Request.search base_dn filter attrs in
      let i = ldap_interaction (request_text itoa r) m.ctx.remote_addr m.ctx.search_now in
      let distinct =
        (match_ldap_correlation_id-Reported lib.unicode s.cfg.correlation_id_length s.cfg.domains
          m.meets.has_correlation_id base_dn).1 in
      ap (λ st. (st.heap p).interactions) (handle_ldap_search m base_dn filter attrs conn s)
      ∙ store_matched_interactions_lem lib m.meets i (search_matches m.meets base_dn s) id p
          (m.meets.others s.storage) distinct v e
