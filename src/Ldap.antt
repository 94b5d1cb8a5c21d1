-- ===== src/Ldap.antt =====
-- interactsh-srv/oobsrv/ldap.go: the handlers, by the request as the library routes it and its
-- accessors give it. The LDAP library, the listener and the TLS handshake are not under this code.
pub mod Capture
pub mod Extra
pub mod StartTls
mod Tests
use interactsh_lite.Correlation.{match_ldap_correlation_id}
use interactsh_lite.Prelude.Text.{codes, join}
use interactsh_lite.Server.{Interaction, Server, Library, Meets, store_matched_interactions}
use interactsh_lite.SharedBucket.{append}
use interactsh_lite.Prelude.{
  ℕ, ◌+◌, Bool, true, false, not, ◌&&◌, Option, none, some, List, [], ◌∷◌, ◌++◌, map, if◌then◌else◌,
  Bytes, equal, is_some,
}

pub record Attribute : Type 0 where
  pub type_ : Bytes
  pub vals : List Bytes

pub data Operation : Type 0 where
  add_values delete_values replace_values : Operation
  unknown_operation : ℕ → Operation

pub record Change : Type 0 where
  pub operation : Operation
  pub modification : Attribute

-- `bind` has the authentication choice, the name and the simple password; `search` the base DN, the
-- filter and the attributes; `compare` the entry, the attribute and the value; `extended` the name
-- and the value of an operation that no route takes, and `other` the name of any other.
pub data Request : Type 0 where
  bind : Bytes → Bytes → Bytes → Request
  search : Bytes → Bytes → List Bytes → Request
  add : Bytes → List Attribute → Request
  delete : Bytes → Request
  modify : Bytes → List Change → Request
  compare : Bytes → Bytes → Bytes → Request
  abandon : ℕ → Request
  start_tls who_am_i : Request
  extended : Bytes → Bytes → Request
  other : Bytes → Request

-- A line of a raw request.
abbrev line : Bytes → Bytes → Bytes
line name value = name ++ (codes "=" ++ (value ++ codes "\n"))

abbrev value_lines : Bytes → List Bytes → Bytes
value_lines name [] = []
value_lines name (v ∷ vs) =
    codes "Attribute Name=" ++ (name ++ line (codes " Attribute Value") v) ++ value_lines name vs

abbrev attribute_lines : List Attribute → Bytes
attribute_lines [] = []
attribute_lines (a ∷ rest) = value_lines a.type_ a.vals ++ attribute_lines rest

module _ (itoa : ℕ → Bytes) where
  abbrev op_name : Operation → Bytes
  op_name add_values = codes "Add"
  op_name delete_values = codes "Delete"
  op_name replace_values = codes "Replace"
  op_name (unknown_operation k) = codes "Unknown(" ++ (itoa k ++ codes ")")

  abbrev change_lines : List Change → Bytes
  unfolding join
  change_lines [] = []
  change_lines (c ∷ rest) =
      (codes "Operation="
        ++ (op_name c.operation
            ++ (codes " Attribute="
                ++ (c.modification.type_
                    ++ (codes " Values=["
                        ++ (join (codes " - ") c.modification.vals ++ codes "]\n"))))))
      ++ change_lines rest

  -- The text that a handler records.
  unfoldable pub request_text : Request → Bytes
  unfolding join equal
  request_text (bind choice name simple) =
      codes "Type=Bind\n"
      ++ (line (codes "AuthenticationChoice") choice
          ++ (line (codes "User") name
              ++ line (codes "Pass") (if equal choice (codes "simple") then simple else [])))
  request_text (search base_dn filter attrs) =
      codes "Type=Search\n"
      ++ (line (codes "BaseDn") base_dn
          ++ (line (codes "Filter") filter ++ line (codes "Attributes") (join (codes ", ") attrs)))
  request_text (add entry attrs) =
      codes "Type=Add\n" ++ (line (codes "Entity") entry ++ attribute_lines attrs)
  request_text (delete entry) = codes "Type=Delete\n" ++ line (codes "Entity") entry
  request_text (modify object changes) =
      codes "Type=Modify\n" ++ (line (codes "Entity") object ++ change_lines changes)
  request_text (compare entry attribute value) =
      codes "Type=Compare\n"
      ++ (line (codes "Entity") entry
          ++ (line (codes "Attribute name to compare") attribute
              ++ line (codes "Attribute value expected") value))
  request_text (abandon id) = codes "Type=Abandon\n" ++ line (codes "MessageID") (itoa id)
  request_text start_tls = codes "Type=Extended\nName=StartTLS\n"
  request_text who_am_i = codes "Type=Extended\nName=WhoAmI\n"
  request_text (extended name value) =
      codes "Type=Extended\n" ++ (line (codes "Name") name ++ line (codes "Value") value)
  request_text (other op) = line (codes "Type") op

abbrev pub ldap_interaction : Bytes → Bytes → ℕ → Interaction
ldap_interaction raw_request remote_addr now = record {
  protocol = codes "ldap";
  unique_id = [];
  full_id = [];
  q_type = [];
  raw_request = raw_request;
  raw_response = [];
  smtp_from = [];
  smtp_to = [];
  remote_address = remote_addr;
  timestamp = now;
}

-- The result codes, and the entry of a search: its name and its attributes.
pub data Response : Type 0 where
  bind_success add_success delete_success modify_success compare_true search_done : Response
  extended_success : Response
  start_tls_success : Response
  operations_error : Bytes → Response
  unwilling_to_perform : Response
  search_entry : Bytes → List Attribute → Response

-- A client's connection: the mark `startTLSDone`, the TLS layers put on it, and whether the handler
-- closed it.
pub record LdapConn : Type 0 where
  pub start_tls_done : Bool
  pub layers : ℕ
  pub closed : Bool

abbrev pub new_ldap_conn : LdapConn
new_ldap_conn = record { start_tls_done = false; layers = 0; closed = false }

-- What a message meets: the remote address, the clock of the extra capture and that of the search's,
-- and whether a handshake succeeds in time.
pub record LdapContext : Type 0 where
  pub remote_addr : Bytes
  pub now : ℕ
  pub search_now : ℕ
  pub handshake : Bool

abbrev fake_attributes : List Attribute
fake_attributes =
    record { type_ = codes "mail"; vals = codes "interact@s.h" ∷ codes "interact@s.h" ∷ [] }
    ∷ record { type_ = codes "company"; vals = codes "aaa" ∷ [] }
    ∷ record { type_ = codes "department"; vals = codes "bbbb" ∷ [] }
    ∷ record { type_ = codes "l"; vals = codes "cccc" ∷ [] }
    ∷ record { type_ = codes "mobile"; vals = codes "123456789" ∷ [] }
    ∷ record { type_ = codes "telephoneNumber"; vals = codes "123456789" ∷ [] }
    ∷ record { type_ = codes "cn"; vals = codes "interact" ∷ [] }
    ∷ []

-- `handleLDAPStartTLS` behind its capture.
unfoldable pub negotiate_tls : Bool → LdapContext → LdapConn → List Response × LdapConn
negotiate_tls tls_config ctx conn =
    if conn.start_tls_done
    then (operations_error (codes "StartTLS not allowed on an established TLS session") ∷ [], conn)
    else if not tls_config
    then (operations_error (codes "TLS not available") ∷ [], conn)
    else if not ctx.handshake
    then (start_tls_success ∷ [], record conn { closed = true })
    else (start_tls_success ∷ [], record conn { start_tls_done = true; layers = conn.layers + 1 })

unfoldable pub respond : Bool → LdapContext → Request → LdapConn → List Response × LdapConn
unfolding negotiate_tls
respond tls_config ctx (bind choice name simple) conn = (bind_success ∷ [], conn)
respond tls_config ctx (search base_dn filter attrs) conn =
    (search_entry (codes "cn=interactsh," ++ base_dn) fake_attributes ∷ search_done ∷ [], conn)
respond tls_config ctx (add entry attrs) conn = (add_success ∷ [], conn)
respond tls_config ctx (delete entry) conn = (delete_success ∷ [], conn)
respond tls_config ctx (modify object changes) conn = (modify_success ∷ [], conn)
respond tls_config ctx (compare entry attribute value) conn = (compare_true ∷ [], conn)
respond tls_config ctx (abandon id) conn = ([], conn)
respond tls_config ctx start_tls conn = negotiate_tls tls_config ctx conn
respond tls_config ctx who_am_i conn = (extended_success ∷ [], conn)
respond tls_config ctx (extended name value) conn = (extended_success ∷ [], conn)
respond tls_config ctx (other op) conn = (unwilling_to_perform ∷ [], conn)

module _ {H : Type 0} (lib : Library) (itoa : ℕ → Bytes) where
  unfoldable pub capture_ldap_extra : Bytes → Bytes → ℕ → Server H → Server H
  unfolding append
  capture_ldap_extra raw remote_addr now s = elim s.extra_bucket [
    | none ↦ s
    | some bucket ↦ elim (lib.marshal (ldap_interaction raw remote_addr now)) [
      | none ↦ s
      | some encoded ↦ record s { extra_bucket = some (append encoded bucket) }
    ]
  ]

  -- Only a search has a base DN.
  unfoldable pub capture_ldap_search_interaction :
      Meets H → LdapContext → Request → Server H → Server H
  unfolding match_ldap_correlation_id store_matched_interactions request_text
  capture_ldap_search_interaction meets ctx (search base_dn filter attrs) s =
      let matches =
        match_ldap_correlation_id lib.unicode base_dn s.cfg.correlation_id_length s.cfg.domains
          meets.has_correlation_id in
      let raw = request_text itoa (search base_dn filter attrs) in
      record s {
        storage =
            store_matched_interactions lib meets matches
              (ldap_interaction raw ctx.remote_addr ctx.search_now) (meets.others s.storage);
      }
  capture_ldap_search_interaction meets ctx _ s = s

  -- A handler: the count, the captures, the responses.
  unfoldable pub handle_ldap :
      Meets H → LdapContext → Request → LdapConn × Server H → List Response × LdapConn × Server H
  unfolding capture_ldap_extra capture_ldap_search_interaction respond request_text
  handle_ldap meets ctx r (conn, s) =
      let counted = record s { ldap_count = s.ldap_count + 1 } in
      let captured =
        if s.cfg.ldap && is_some s.extra_bucket
        then capture_ldap_extra (request_text itoa r) ctx.remote_addr ctx.now counted
        else counted in
      let (responses, conn') = respond s.tls_config ctx r conn in
      (responses, conn', capture_ldap_search_interaction meets ctx r captured)
