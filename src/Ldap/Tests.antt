-- ===== src/Ldap/Tests.antt =====
-- A search and an FTP login at the concrete server.
use interactsh_lite.Ftp.{Notification}
use interactsh_lite.Ldap.{Request, new_ldap_conn, ldap_interaction, request_text, handle_ldap}
use interactsh_lite.Ldap.Capture.{search_matches, handle_ldap_delivers}
use interactsh_lite.Ldap.Extra.{Event, serve_events, all_captured, read_extra-serve_events}
use interactsh_lite.Ldap.StartTls.{LdapMessage, converse, converse_tls}
use interactsh_lite.Endpoints.{read_extra}
use interactsh_lite.Server.{Server, Library}
use interactsh_lite.Server.Capture.{delivery}
use interactsh_lite.Server.Tests.{library, meets, server}
use interactsh_lite.SharedBucket.{SharedBucket, new_shared_bucket}
use interactsh_lite.SharedBucket.Refinement.{new_shared_bucket-Refines}
use interactsh_lite.SharedBucket.Waiting.{appended, IsOther}
use interactsh_lite.Storage.Tests.{stored-IsValid, stored_abc}
use interactsh_lite.Prelude.Text.{codes}
use interactsh_lite.Prelude.{ℕ, ◌≤◌, true, some, List, [], ◌∷◌, ◌++◌, All, Bytes, ◌≡◌, refl, arith}

abbrev itoa : ℕ → Bytes
itoa n = n ∷ []

abbrev message : Request → LdapMessage (Unit {0})
message r = record {
  meets = meets;
  ctx = record { remote_addr = codes "10.0.0.2"; now = 150; search_now = 151; handshake = true };
  request = r;
}

abbrev base_dn : Bytes
base_dn = codes "dc=abcxyz.oob.test,dc=test"

abbrev searches : LdapMessage (Unit {0})
searches = message (Request.search base_dn [] [])

converse_tls_example :
    (converse library itoa
      (message Request.start_tls ∷ message Request.start_tls ∷ [])
      (new_ldap_conn, server)).0.layers
    ≤ 1
converse_tls_example =
    (converse_tls library itoa (message Request.start_tls ∷ message Request.start_tls ∷ [])
      server).0

handle_ldap_delivers_example :
    ((handle_ldap library itoa meets searches.ctx
        (Request.search base_dn [] [])
        (new_ldap_conn, server)).2.storage.heap
      0).interactions
    ≡ (server.storage.heap 0).interactions
      ++ delivery library meets
          (ldap_interaction
            (request_text itoa (Request.search base_dn [] []))
            (codes "10.0.0.2")
            151)
          (search_matches library itoa meets base_dn server)
          (codes "abc")
          (server.storage.heap 0).aes_block
unfolding server
handle_ldap_delivers_example =
    handle_ldap_delivers library itoa searches base_dn [] [] new_ldap_conn server (codes "abc") 0
      stored-IsValid stored_abc

-- A server that logs, whose interactions are marshalled to their text.
abbrev recorder : Library
recorder = record library { marshal = λ i. some i.raw_request }

abbrev bucket : SharedBucket
bucket = new_shared_bucket 10 100 0

abbrev logging : Server (Unit {0})
logging = record server { extra_bucket = some bucket }

abbrev events : List (Event (Unit {0}))
events =
    Event.ldap (message (Request.delete (codes "cn=a"))) new_ldap_conn
    ∷ Event.ftp (record { cmd = codes "USER"; param = codes "eve"; remote_addr = []; now = 152 })
        (Notification.before_login_user (codes "eve"))
    ∷ Event.poll (codes "d") 153
    ∷ []

others_only : All (IsOther (codes "c") 140 100) (all_captured recorder itoa logging.cfg.ldap events)
unfolding server
others_only = (tt, (tt, ((λ e. ground (arith, e), omega arith), tt)))

read_extra-serve_events_example :
    (read_extra
      (codes "c")
      160
      (serve_events recorder itoa events (read_extra (codes "c") 140 logging).1)).0
    ≡ appended (all_captured recorder itoa true events)
unfolding server
read_extra-serve_events_example =
    read_extra-serve_events recorder itoa (codes "c") 140 160 events logging bucket [] 0 (λ c. 0)
      refl (new_shared_bucket-Refines 10 100 0) others_only (omega arith)
