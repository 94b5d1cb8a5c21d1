-- ===== src/Tls/Tests.antt =====
-- A deep name, a reload, and a stored certificate that is no PEM.
use interactsh_lite.Prelude.Text.{codes, no_unicode, to_lower}
use interactsh_lite.Tls.Evict.{PemLibrary, find_certificate, find_certificate_returns}
use interactsh_lite.Tls.Names.{IsCovered, wildcard_fallback-IsCovered}
use interactsh_lite.Tls.Reload.{CertFiles, CertReloader, reloads, reloads-LoadedAt}
use interactsh_lite.Tls.{wildcard_fallback}
use interactsh_lite.Prelude.{
  ℕ, ◌≤◌, true, none, some, List, [], ◌∷◌, ◌++◌, Bytes, equal, any, ◌≡◌, ◌≢◌, ◌⊎◌, refl, arith,
}

abbrev domains : List Bytes
domains = codes "oob.test" ∷ []

some_domains : domains ≢ []
some_domains e = ground (arith, e)

abbrev deep : Bytes
deep = codes "a.B.oob.test"

wildcard_fallback-IsCovered_example :
    ((wildcard_fallback no_unicode domains deep ≡ deep)
      × IsCovered domains (to_lower no_unicode deep))
    ⊎ ((d : Bytes) × (any (λ e. equal e d) domains ≡ true)
        × (wildcard_fallback no_unicode domains deep ≡ codes "wild." ++ d))
wildcard_fallback-IsCovered_example =
    wildcard_fallback-IsCovered no_unicode domains deep some_domains

abbrev files : ℕ → CertFiles ℕ
files t = record { cert_time = some t; key_time = some t; pair = some t }

abbrev reloader : CertReloader ℕ
reloader = record { cert = 5; mod_time = 5 }

reloads-LoadedAt_example : reloader.mod_time ≤ (reloads ((files 7, files 7) ∷ []) reloader).mod_time
reloads-LoadedAt_example = (reloads-LoadedAt ((files 7, files 7) ∷ []) reloader).0

-- There is never a block.
abbrev no_pem : PemLibrary
no_pem = record { decode = λ d. (none, d); parse_certificate = λ b. none }

garbage : codes "x" ≢ []
garbage e = ground (arith, e)

find_certificate_returns_example : find_certificate no_pem 3 (codes "x") ≡ none
find_certificate_returns_example = (find_certificate_returns no_pem (codes "x")).1 garbage refl 3
