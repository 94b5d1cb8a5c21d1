-- ===== src/Endpoints/Tests.antt =====
-- A registration and polls at the concrete server.
use interactsh_lite.Endpoints.Calls.{handle_poll_ok, handle_poll_lost}
use interactsh_lite.Endpoints.{RegisterRequest, KeyLibrary, Others, handle_poll, encryption_failed}
use interactsh_lite.Crypto.{encrypt_interaction_block}
use interactsh_lite.Server.Tests.{server}
use interactsh_lite.Storage.Access.{get_session, append_interaction}
use interactsh_lite.Storage.Tables.{promote}
use interactsh_lite.Storage.Tests.{Memory, no_hooks, plain, zeros, stored}
use interactsh_lite.Prelude.Text.{codes}
use interactsh_lite.Prelude.{none, some, Option, List, [], ◌∷◌, ◌++◌, Bytes, ◌≡◌, ◌≢◌, refl, arith}

abbrev keys : (Bytes → Bytes → Option Bytes) → KeyLibrary
keys encrypt = record { parse_public_key = λ s. some s; encrypt_aes_key = encrypt; base64 = λ s. s }

abbrev working : KeyLibrary
working = keys (λ key public. some (codes "k"))

abbrev broken : KeyLibrary
broken = keys (λ key public. none)

abbrev request : RegisterRequest
request = record {
  public_key = codes "p";
  secret_key = codes "s";
  correlation_id = codes "uv9xxx";
  response = none;
}

-- An interaction arrives between the two calls of the storage.
abbrev others : Others (Unit {0})
others = record {
  during = λ m. m;
  between = λ m. append_interaction plain (codes "abc") (codes "x") (some (zeros 16)) 205 m;
}

abbrev got : Memory
got = (get_session no_hooks (λ m. m) (codes "abc") (codes "s") 200 201 server.storage).1

handle_poll_ok_example :
    ((handle_poll no_hooks working others
        (codes "abcxyz")
        (codes "s")
        200
        201
        server).1.storage.heap
      0).interactions
    ≡ []
unfolding server stored append_interaction encrypt_interaction_block promote
handle_poll_ok_example =
    (handle_poll_ok no_hooks working others (codes "abcxyz") (codes "s") (codes "k") 0 200 201
      server got refl refl refl).1

arrived : ◌≢◌ {A = List Bytes} ((zeros 16 ++ codes "x") ∷ []) []
arrived e = ground (arith, e)

handle_poll_lost_example :
    (handle_poll no_hooks broken others (codes "abcxyz") (codes "s") 200 201 server).0
    ≡ encryption_failed
unfolding server stored append_interaction encrypt_interaction_block promote
handle_poll_lost_example =
    (handle_poll_lost no_hooks broken others (codes "abcxyz") (codes "s") 0 200 201 server got refl
      refl arrived refl).0
