-- ===== src/Tls/Reload.antt =====
-- `provisionTLS`, and the reload of a custom certificate.
use interactsh_lite.Prelude.{
  ℕ, ◌≤◌, Bool, not, ◌&&◌, Option, none, some, List, [], ◌∷◌, leb, if◌then◌else◌, Bytes, equal, ltb,
  ◌≡◌, ◌⊎◌, inl, inr, refl, arith, ◌∙◌, sym, subst, Bool-cases,
}

-- What the two files are at a moment: their modification times, if they can be had, and the
-- certificate that they make, if it loads.
pub record CertFiles (C : Type 0) : Type 0 where
  pub cert_time : Option ℕ
  pub key_time : Option ℕ
  pub pair : Option C

pub record CertReloader (C : Type 0) : Type 0 where
  pub cert : C
  pub mod_time : ℕ

module _ {C : Type 0} where
  unfoldable pub latest_mod_time : CertFiles C → Option ℕ
  latest_mod_time f = elim f.cert_time [
    | none ↦ none
    | some t1 ↦ elim f.key_time [ none ↦ none | some t2 ↦ some (if ltb t1 t2 then t2 else t1) ]
  ]

  unfoldable pub new_cert_reloader : CertFiles C → Option (CertReloader C)
  unfolding latest_mod_time
  new_cert_reloader f = elim f.pair [
    | none ↦ none
    | some cert ↦ elim (latest_mod_time f) [
      | none ↦ none
      | some t ↦ some (record { cert = cert; mod_time = t })
    ]
  ]

  -- The time of the files, and the certificate that they make.
  unfoldable pub reload_with : Option ℕ → Option C → CertReloader C → CertReloader C
  reload_with none pair r = r
  reload_with (some t) none r = r
  reload_with (some t) (some cert) r =
      if leb t r.mod_time then r else record { cert = cert; mod_time = t }

  -- The files when their times are read, and when they are loaded.
  unfoldable pub try_reload : CertFiles C → CertFiles C → CertReloader C → CertReloader C
  unfolding latest_mod_time reload_with
  try_reload f loaded r = reload_with (latest_mod_time f) loaded.pair r

  -- The ticks of `run`.
  unfoldable pub reloads : List (CertFiles C × CertFiles C) → CertReloader C → CertReloader C
  unfolding try_reload
  reloads [] r = r
  reloads ((f, loaded) ∷ fs) r = reloads fs (try_reload f loaded r)

  -- The certificate of the reloader was loaded at one of the ticks.
  abbrev pub LoadedAt : List (CertFiles C × CertFiles C) → CertReloader C → Type 0
  LoadedAt [] r = ⊥
  LoadedAt ((f, loaded) ∷ fs) r =
      ((loaded.pair ≡ some r.cert) × (latest_mod_time f ≡ some r.mod_time)) ⊎ LoadedAt fs r

  reload_with_lem :
      (o : Option ℕ) (p : Option C) (r : CertReloader C)
      → let r' = reload_with o p r in
        (r.mod_time ≤ r'.mod_time) × ((r' ≡ r) ⊎ ((p ≡ some r'.cert) × (o ≡ some r'.mod_time)))
  unfolding reload_with
  reload_with_lem none p r = (omega arith, inl refl)
  reload_with_lem (some t) none r = (omega arith, inl refl)
  reload_with_lem (some t) (some c) r = elim (Bool-cases (leb t r.mod_time)) [
    | inl old ↦ rw old (omega arith, inl refl)
    | inr new ↦ rw new (ground (arith, new), inr (refl, refl))
  ]

  try_reload_lem :
      (f loaded : CertFiles C) (r : CertReloader C)
      → let r' = try_reload f loaded r in
        (r.mod_time ≤ r'.mod_time)
        × ((r' ≡ r) ⊎ ((loaded.pair ≡ some r'.cert) × (latest_mod_time f ≡ some r'.mod_time)))
  unfolding try_reload
  try_reload_lem f loaded r = reload_with_lem (latest_mod_time f) loaded.pair r

  -- Through any ticks the time of the certificate never goes back, and the certificate is the first
  -- one or was loaded at a tick, with the time that its files had there: a failure keeps what is
  -- served.
  pub reloads-LoadedAt :
      (fs : List (CertFiles C × CertFiles C)) (r : CertReloader C)
      → (r.mod_time ≤ (reloads fs r).mod_time) × ((reloads fs r ≡ r) ⊎ LoadedAt fs (reloads fs r))
  unfolding reloads
  reloads-LoadedAt [] r = (omega arith, inl refl)
  reloads-LoadedAt ((f, loaded) ∷ fs) r =
      let r1 = try_reload f loaded r in
      let here = try_reload_lem f loaded r in
      let (later, rest) = reloads-LoadedAt fs r1 in
      (
        omega (arith, here.0, later),
        elim rest [
          | inr l ↦ inr (inr l)
          | inl same ↦ elim here.1 [
            | inl kept ↦ inl (same ∙ kept)
            | inr l ↦ inr (
                inl (
                  subst (λ (x : CertReloader C). loaded.pair ≡ some x.cert) (sym same) l.0,
                  subst (λ (x : CertReloader C). latest_mod_time f ≡ some x.mod_time) (sym same)
                      l.1,
                ))
          ]
        ],
      )

-- The configuration that `provisionTLS` leaves.
pub data TlsChoice : Type 0 where
  no_tls custom_cert from_acme self_signed : TlsChoice

-- What it calls: the reloader, ACME, and the self-signed certificate, by whether they work.
pub record Provision : Type 0 where
  pub cert_file : Bytes
  pub priv_key_file : Bytes
  pub skip_acme : Bool
  pub reloader_works : Bool
  pub acme_works : Bool
  pub self_signed_works : Bool

unfoldable pub provision_tls : Provision → TlsChoice
unfolding equal
provision_tls p =
    if not (equal p.cert_file []) && not (equal p.priv_key_file [])
    then (if p.reloader_works then custom_cert else no_tls)
    else if p.skip_acme
    then no_tls
    else if p.acme_works
    then from_acme
    else if p.self_signed_works
    then self_signed
    else no_tls
