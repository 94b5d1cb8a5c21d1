-- ===== src/Ldap/StartTls.antt =====
-- The TLS state of a connection, over the messages of a client.
use interactsh_lite.Ldap.{
  LdapConn, LdapContext, Request, new_ldap_conn, negotiate_tls, respond, capture_ldap_extra,
  capture_ldap_search_interaction, handle_ldap,
}
use interactsh_lite.Server.{Library, Meets, Server}
use interactsh_lite.Prelude.{
  ℕ, ◌≤◌, ◌↔◌, Bool, true, false, List, [], ◌∷◌, if◌then◌else◌, Bytes, ◌≡◌, refl, arith, subst, sym,
}

-- A message with what it meets.
pub record LdapMessage (H : Type 0) : Type 0 where
  pub meets : Meets H
  pub ctx : LdapContext
  pub request : Request

-- The mark stands for the one TLS layer, which takes a TLS configuration.
pub record IsSound (tls_config : Bool) (conn : LdapConn) : Type 0 where
  pub marked : conn.layers ≡ (if conn.start_tls_done then 1 else 0)
  pub configured : tls_config ≡ false → conn.layers ≡ 0

negotiate_tls-IsSound :
    (tls_config : Bool) (ctx : LdapContext) (conn : LdapConn)
    → IsSound tls_config conn
    → IsSound tls_config (negotiate_tls tls_config ctx conn).1
unfolding negotiate_tls
negotiate_tls-IsSound tls_config ctx conn h = record {
  marked = ground (arith, h.marked);
  configured = λ f. ground (arith, f, h.configured f);
}

respond-IsSound :
    (tls_config : Bool) (ctx : LdapContext) (r : Request) (conn : LdapConn)
    → IsSound tls_config conn
    → IsSound tls_config (respond tls_config ctx r conn).1
unfolding respond
respond-IsSound tls_config ctx (Request.bind a b c) conn h = h
respond-IsSound tls_config ctx (Request.search a b c) conn h = h
respond-IsSound tls_config ctx (Request.add a b) conn h = h
respond-IsSound tls_config ctx (Request.delete a) conn h = h
respond-IsSound tls_config ctx (Request.modify a b) conn h = h
respond-IsSound tls_config ctx (Request.compare a b c) conn h = h
respond-IsSound tls_config ctx (Request.abandon a) conn h = h
respond-IsSound tls_config ctx Request.start_tls conn h =
    negotiate_tls-IsSound tls_config ctx conn h
respond-IsSound tls_config ctx Request.who_am_i conn h = h
respond-IsSound tls_config ctx (Request.extended a b) conn h = h
respond-IsSound tls_config ctx (Request.other a) conn h = h

module _ {H : Type 0} (lib : Library) (itoa : ℕ → Bytes) where
  -- The messages of one client, in order.
  unfoldable pub converse : List (LdapMessage H) → LdapConn × Server H → LdapConn × Server H
  unfolding handle_ldap
  converse [] (conn, s) = (conn, s)
  converse (m ∷ ms) (conn, s) =
      let (_, conn', s') = handle_ldap lib itoa m.meets m.ctx m.request (conn, s) in
      converse ms (conn', s')

  search_tls_config :
      (meets : Meets H) (ctx : LdapContext) (r : Request) (s : Server H)
      → (capture_ldap_search_interaction lib itoa meets ctx r s).tls_config ≡ s.tls_config
  unfolding capture_ldap_search_interaction
  search_tls_config meets ctx r s = ground arith

  handle_ldap_tls_config :
      (m : LdapMessage H) (conn : LdapConn) (s : Server H)
      → (handle_ldap lib itoa m.meets m.ctx m.request (conn, s)).2.tls_config ≡ s.tls_config
  unfolding handle_ldap capture_ldap_extra
  handle_ldap_tls_config m conn s = ground arith

  handle_ldap_conn :
      (m : LdapMessage H) (conn : LdapConn) (s : Server H)
      → (handle_ldap lib itoa m.meets m.ctx m.request (conn, s)).1
        ≡ (respond s.tls_config m.ctx m.request conn).1
  unfolding handle_ldap
  handle_ldap_conn m conn s = refl

  converse-IsSound :
      (ms : List (LdapMessage H)) (conn : LdapConn) (s : Server H)
      → IsSound s.tls_config conn
      → IsSound s.tls_config (converse ms (conn, s)).0
  unfolding converse
  converse-IsSound [] conn s h = h
  converse-IsSound (m ∷ ms) conn s h =
      let (_, conn', s') = handle_ldap lib itoa m.meets m.ctx m.request (conn, s) in
      let same : s'.tls_config ≡ s.tls_config = handle_ldap_tls_config m conn s in
      let h' : IsSound s.tls_config conn' =
        subst (IsSound s.tls_config) (sym (handle_ldap_conn m conn s))
          (respond-IsSound s.tls_config m.ctx m.request conn h) in
      subst (λ t. IsSound t (converse ms (conn', s')).0) same
        (converse-IsSound ms conn' s' (subst (λ t. IsSound t conn') (sym same) h'))

  -- Whatever a client sends, and whichever handshakes fail, its connection has at most one TLS
  -- layer, has the mark exactly when it has the layer, and has none on a server without a TLS
  -- configuration.
  pub converse_tls :
      (ms : List (LdapMessage H)) (s : Server H)
      → let conn = (converse ms (new_ldap_conn, s)).0 in
        (conn.layers ≤ 1)
        × ((conn.start_tls_done ≡ true) ↔ (conn.layers ≡ 1))
        × (s.tls_config ≡ false → conn.layers ≡ 0)
  converse_tls ms s =
      let conn = (converse ms (new_ldap_conn, s)).0 in
      let h : IsSound s.tls_config conn =
        converse-IsSound ms new_ldap_conn s (record { marked = refl; configured = λ e. refl }) in
      (ground (arith, h.marked), ground (arith, h.marked), h.configured)
