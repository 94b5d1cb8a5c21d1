-- ===== src/Cli/Filter.antt =====
-- Which interactions are shown.
use interactsh_lite.Cli.Output.{ProtocolFilter, protocol_shown, matches_interaction, should_display}
use interactsh_lite.Prelude.Text.{Unicode, codes, to_lower}
use interactsh_lite.Server.{Interaction}
use interactsh_lite.Prelude.{
  Bool, true, false, not, ◌&&◌, List, [], ◌∷◌, ltb, if◌then◌else◌, Bytes, equal_iff, length, any,
  All, ◌≡◌, ◌↔◌, ◌⊎◌, inl, inr, refl, arith,
}

-- No flag is on, or the flag of the protocol is.
abbrev pub Selects : ProtocolFilter → Bytes → Type 0
Selects f p =
    ((f.dns_only ≡ false)
      × (f.http_only ≡ false)
      × (f.smtp_only ≡ false)
      × (f.ftp_only ≡ false)
      × (f.ldap_only ≡ false))
    ⊎ (((f.dns_only ≡ true) × (p ≡ codes "dns"))
        ⊎ (((f.http_only ≡ true) × ((p ≡ codes "http") ⊎ (p ≡ codes "https")))
            ⊎ (((f.smtp_only ≡ true) × (p ≡ codes "smtp"))
                ⊎ (((f.ftp_only ≡ true) × (p ≡ codes "ftp"))
                    ⊎ ((f.ldap_only ≡ true) × (p ≡ codes "ldap"))))))

protocol_shown_iff : (f : ProtocolFilter) (p : Bytes) → (protocol_shown f p ≡ true) ↔ Selects f p
unfolding protocol_shown
protocol_shown_iff f p = ground (
  arith,
  equal_iff p (codes "dns"),
  equal_iff p (codes "http"),
  equal_iff p (codes "https"),
  equal_iff p (codes "smtp"),
  equal_iff p (codes "ftp"),
  equal_iff p (codes "ldap"),
)

-- Some pattern of the list fits.
abbrev pub SomeOf {ℓ} : {A : Type ℓ} → (A → Bool) → List A → Type 0
SomeOf p [] = ⊥
SomeOf p (x ∷ xs) = (p x ≡ true) ⊎ SomeOf p xs

any_iff {ℓ} : {A : Type ℓ} (p : A → Bool) (xs : List A) → (any p xs ≡ true) ↔ SomeOf p xs
any_iff p [] = ground arith
any_iff p (x ∷ xs) = ground (arith, any_iff p xs)

none_iff {ℓ} :
    {A : Type ℓ} (p : A → Bool) (xs : List A) → (any p xs ≡ false) ↔ All (λ x. p x ≡ false) xs
none_iff p [] = ((λ h. tt), (λ h. refl))
none_iff p (x ∷ xs) = ground (arith, none_iff p xs)

nonempty_iff {ℓ} : {A : Type ℓ} (xs : List A) → (ltb 0 (length xs) ≡ false) ↔ (xs ≡ [])
nonempty_iff [] = ((λ h. refl), (λ h. refl))
nonempty_iff (x ∷ xs) = ground arith

combine :
    {A N M X : Type 0} (a n m x : Bool)
    → (a ≡ true) ↔ A
    → (n ≡ false) ↔ N
    → (m ≡ true) ↔ M
    → (x ≡ false) ↔ X
    → ((if not a then false else if n && not m then false else not x) ≡ true) ↔ (A × (N ⊎ M) × X)
combine false n m x p q r s = ((λ h. absurd (cc)), (λ h. p.1 h.0))
combine true false m x p q r s =
    ((λ h. (p.0 refl, inl (q.0 refl), s.0 (ground (arith, h)))), (λ h. ground (arith, s.1 h.2)))
combine true true true x p q r s =
    ((λ h. (p.0 refl, inr (r.0 refl), s.0 (ground (arith, h)))), (λ h. ground (arith, s.1 h.2)))
combine true true false x p q r s =
    ((λ h. absurd (cc)), (λ h. elim h.1 [ inl e ↦ absurd (let z = q.1 e in cc) | inr e ↦ r.1 e ]))

module _ {Re : Type 0} (match_string : Re → Bytes → Bool) where
  -- `shouldDisplay` shows an interaction exactly if no protocol flag is on or that of its protocol
  -- is, there is no match pattern or one of them fits, and no filter pattern fits.
  pub should_display_iff :
      (u : Unicode) (f : ProtocolFilter) (matches filters : List Re) (i : Interaction)
      → let fits = λ (re : Re). matches_interaction match_string re i in
        (should_display match_string u f matches filters i ≡ true) ↔ (
          Selects f (to_lower u i.protocol)
          × ((matches ≡ []) ⊎ SomeOf fits matches)
          × All (λ re. fits re ≡ false) filters)
  unfolding should_display
  should_display_iff u f matches filters i =
      let fits = λ (re : Re). matches_interaction match_string re i in
      combine (protocol_shown f (to_lower u i.protocol)) (ltb 0 (length matches)) (any fits matches)
        (any fits filters) (protocol_shown_iff f (to_lower u i.protocol)) (nonempty_iff matches)
        (any_iff fits matches) (none_iff fits filters)
