-- ===== src/Tls.antt =====
-- interactsh-srv/oobsrv/tls.go: the names that certificates are chosen and made for, the records of
-- DNS challenges, the reload of a certificate and the eviction of those that expire. Certificates,
-- ACME, files and logs are libraries.
pub mod Names
pub mod Reload
pub mod Evict
mod Tests
use interactsh_lite.Dns.Acme.{AcmeStore, normalize_fqdn, acme_add, acme_delete}
use interactsh_lite.Dns.Zone.{matched_domain}
use interactsh_lite.Prelude.Text.{Unicode, codes, to_lower}
use interactsh_lite.Prelude.{
  ℕ, ◌+◌, Bool, true, false, not, ◌&&◌, ◌||◌, Option, none, some, List, [], ◌∷◌, ◌++◌, leb, ◌==◌,
  if◌then◌else◌, Bytes, equal, starts_with,
}

-- `strings.Count` of a byte.
unfoldable pub count_byte : ℕ → Bytes → ℕ
count_byte c [] = 0
count_byte c (x ∷ s) = let n = count_byte c s in if x == c then 1 + n else n

-- The name that `wildcardFallbackCertGetter` hands to the inner getter; the name of the client
-- stays as it is, not lowered.
unfoldable pub wildcard_fallback : Unicode → List Bytes → Bytes → Bytes
unfolding to_lower matched_domain count_byte equal
wildcard_fallback u domains server_name =
    let name = to_lower u server_name in
    elim (matched_domain domains name) [
      | some domain ↦
          if equal name domain || leb (count_byte b'.' name) (count_byte b'.' domain + 1)
          then server_name
          else codes "wild." ++ domain
      | none ↦ elim domains [ [] ↦ server_name | d ∷ ds ↦ codes "wild." ++ d ]
    ]

-- The domains with their wildcards: `subjects` of the evictor.
unfoldable pub subjects : List Bytes → List Bytes
subjects [] = []
subjects (d ∷ ds) = d ∷ (codes "*." ++ d) ∷ subjects ds

-- The names of the self-signed certificate.
unfoldable pub self_signed_names : List Bytes → List Bytes
unfolding subjects
self_signed_names domains = codes "localhost" ∷ subjects domains

-- A record as libdns gives it.
pub record DnsRecord : Type 0 where
  pub type_ : Bytes
  pub name : Bytes
  pub text : Bytes

module _ (u : Unicode) (absolute_name : Bytes → Bytes → Bytes) where
  unfoldable pub to_fqdn : Bytes → Bytes → Bytes
  unfolding normalize_fqdn
  to_fqdn name zone = normalize_fqdn u (absolute_name name zone)

  -- The loops of the two calls: the store, and the records that are reported back.
  unfoldable pub append_records : Bytes → List DnsRecord → AcmeStore → List DnsRecord × AcmeStore
  unfolding to_fqdn acme_add equal
  append_records zone [] store = ([], store)
  append_records zone (rec ∷ recs) store =
      let txt = equal rec.type_ (codes "TXT") in
      let (done, store') =
        append_records zone recs
          (if txt then acme_add u (to_fqdn rec.name zone) rec.text store else store) in
      (if txt then rec ∷ done else done, store')

  unfoldable pub delete_records : Bytes → List DnsRecord → AcmeStore → List DnsRecord × AcmeStore
  unfolding to_fqdn acme_delete equal
  delete_records zone [] store = ([], store)
  delete_records zone (rec ∷ recs) store =
      let txt = equal rec.type_ (codes "TXT") in
      let (done, store') =
        delete_records zone recs
          (if txt then acme_delete u (to_fqdn rec.name zone) rec.text store else store) in
      (if txt then rec ∷ done else done, store')
