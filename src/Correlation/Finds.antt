-- ===== src/Correlation/Finds.antt =====
-- What `scanLabels` does not pass over.
use interactsh_lite.Correlation.{
  is_cid_base32, is_alphanumeric, min_nonce_length, labels, visit, try_window, scan_windows,
  scan_long, scan_bare, scan_labels,
}
use interactsh_lite.Correlation.Scan.{
  In, go_on_inv, go_on-true, scan_windows_inv, scan_long_inv, scan_bare_inv,
}
use mathlib.Core.List.{append_assoc}
use interactsh_lite.Prelude.{
  ℕ, ◌+◌, Bool, true, false, not, ◌||◌, List, [], ◌∷◌, ◌++◌, ltb, ◌==◌, Bytes, length, take, drop,
  ◌≡◌, refl, sym, ap, ◌∙◌, arith, ◌⊎◌, inl, inr, Bool-cases, length-append, take-length-append,
  subst, drop-length-append,
}

take_front :
    (n k : ℕ) (a b c : Bytes) → length a ≡ n → length b ≡ k → take (n + k) (a ++ (b ++ c)) ≡ a ++ b
take_front n k a b c p q =
    ap (λ m. take m (a ++ (b ++ c))) (omega (arith, length-append a b))
    ∙ ap (take (length (a ++ b))) (sym (append_assoc a b c))
    ∙ take-length-append (a ++ b) c

take_exact : (n : ℕ) (a b : Bytes) → length a ≡ n → take n (a ++ b) ≡ a
take_exact n a b p = ap (λ m. take m (a ++ b)) (sym p) ∙ take-length-append a b

drop_exact : (n : ℕ) (a b : Bytes) → length a ≡ n → drop n (a ++ b) ≡ b
drop_exact n a b p = ap (λ m. drop m (a ++ b)) (sym p) ∙ drop-length-append a b

-- A window of the label: the candidate and, behind it, the nonce.
pub record HasWindow (n : ℕ) (label candidate : Bytes) : Type 0 where
  pub before : Bytes
  pub nonce : Bytes
  pub after : Bytes
  pub splits : label ≡ before ++ (candidate ++ (nonce ++ after))
  pub length-candidate : length candidate ≡ n
  pub length-nonce : length nonce ≡ min_nonce_length
  pub valid_candidate : is_cid_base32 candidate ≡ true
  pub valid_nonce : is_alphanumeric nonce ≡ true

-- A scan whose matches never return visits every window and every bare ID.
module _ {S : Type 0} (lookup : S → Bytes → Bool) (on_match : S → Bytes → Bytes → S × Bool) (n : ℕ)
    (Q : S → Type 0) (id : Bytes)
    (goes_on : (s : S) (c label : Bytes) → (on_match s c label).1 ≡ true)
    (stays : (s : S) (c label : Bytes) → Q s → Q (on_match s c label).0)
    (found : (s : S) (label : Bytes) → Q (visit lookup on_match s id label).0) where
  visit_on : (s : S) (c label : Bytes) → (visit lookup on_match s c label).1 ≡ true
  unfolding visit
  visit_on s c label = ground (arith, goes_on s c label)

  try_window_on :
      (window label : Bytes) (s : S) → (try_window lookup on_match n window label s).1 ≡ true
  unfolding try_window
  try_window_on window label s = ground (arith, visit_on s (take n window) label)

  scan_windows_on :
      (label suffix : Bytes) (s : S) → (scan_windows lookup on_match n label suffix s).1 ≡ true
  unfolding scan_windows
  scan_windows_on label [] s = refl
  scan_windows_on label (c ∷ rest) s =
      let r = try_window lookup on_match n (take (n + min_nonce_length) (c ∷ rest)) label s in
      ground (
        arith,
        try_window_on (take (n + min_nonce_length) (c ∷ rest)) label s,
        scan_windows_on label rest r.0,
      )

  found_here :
      (label nonce : Bytes) (s : S)
      → length id ≡ n
      → is_cid_base32 id ≡ true
      → is_alphanumeric nonce ≡ true
      → Q (try_window lookup on_match n (id ++ nonce) label s).0
  unfolding try_window
  found_here label nonce s a v w =
      rw (take_exact n id nonce a, drop_exact n id nonce a, v, w) (found s label)

  scan_windows_here :
      (label suffix : Bytes) (s : S)
      → ltb (length suffix) (n + min_nonce_length) ≡ false
      → Q (try_window lookup on_match n (take (n + min_nonce_length) suffix) label s).0
      → Q (scan_windows lookup on_match n label suffix s).0
  unfolding scan_windows
  scan_windows_here label [] s e q = absurd (ground (arith, e))
  scan_windows_here label (c ∷ rest) s e q =
      let r = try_window lookup on_match n (take (n + min_nonce_length) (c ∷ rest)) label s in
      rw e (
        go_on_inv Q r (scan_windows lookup on_match n label rest) q
          (scan_windows_inv lookup on_match n Q (λ t x l _ _ _ h. stays t x l h) label rest))

  scan_windows_later :
      (label : Bytes) (c : ℕ) (rest : Bytes) (s : S)
      → ltb (length (c ∷ rest)) (n + min_nonce_length) ≡ false
      → ((t : S) → Q (scan_windows lookup on_match n label rest t).0)
      → Q (scan_windows lookup on_match n label (c ∷ rest) s).0
  unfolding scan_windows
  scan_windows_later label c rest s e h =
      let r = try_window lookup on_match n (take (n + min_nonce_length) (c ∷ rest)) label s in
      rw (e, go_on-true r (scan_windows lookup on_match n label rest) (try_window_on _ label s))
        (h r.0)

  -- The window is visited, whatever stands before it.
  scan_windows_finds :
      (label before nonce after : Bytes) (s : S)
      → length id ≡ n
      → length nonce ≡ min_nonce_length
      → is_cid_base32 id ≡ true
      → is_alphanumeric nonce ≡ true
      → Q (scan_windows lookup on_match n label (before ++ (id ++ (nonce ++ after))) s).0
  scan_windows_finds label [] nonce after s a b v w =
      scan_windows_here label (id ++ (nonce ++ after)) s
        (ground (arith, length-append id (nonce ++ after), length-append nonce after))
        (rw (take_front n min_nonce_length id nonce after a b) (found_here label nonce s a v w))
  scan_windows_finds label (c ∷ before) nonce after s a b v w =
      scan_windows_later label c (before ++ (id ++ (nonce ++ after))) s
        (ground (
          arith,
          length-append before (id ++ (nonce ++ after)),
          length-append id (nonce ++ after),
          length-append nonce after,
        ))
        (λ t. scan_windows_finds label before nonce after t a b v w)

  HasWindow-found :
      (label : Bytes) (s : S)
      → HasWindow n label id
      → Q (scan_windows lookup on_match n label label s).0
  HasWindow-found label s h =
      subst (λ l. Q (scan_windows lookup on_match n label l s).0) (sym h.splits)
        (scan_windows_finds label h.before h.nonce h.after s h.length-candidate h.length-nonce
          h.valid_candidate h.valid_nonce)

  HasWindow-long :
      (label : Bytes) → HasWindow n label id → ltb (length label) (n + min_nonce_length) ≡ false
  HasWindow-long label h = ground (
    arith,
    ap length h.splits,
    h.length-candidate,
    h.length-nonce,
    length-append h.before (id ++ (h.nonce ++ h.after)),
    length-append id (h.nonce ++ h.after),
    length-append h.nonce h.after,
  )

  kept_on :
      (s : S) (c label : Bytes)
      → length c ≡ n
      → is_cid_base32 c ≡ true
      → lookup s c ≡ true
      → Q s
      → Q (on_match s c label).0
  kept_on s c label _ _ _ q = stays s c label q

  scan_long_on : (ls : List Bytes) (s : S) → (scan_long lookup on_match n ls s).1 ≡ true
  unfolding scan_long
  scan_long_on [] s = refl
  scan_long_on (label ∷ ls) s = ground (
    arith,
    scan_windows_on label label s,
    scan_long_on ls s,
    scan_long_on ls (scan_windows lookup on_match n label label s).0,
  )

  scan_long_finds :
      (label : Bytes) (ls : List Bytes) (s : S)
      → In label ls
      → HasWindow n label id
      → Q (scan_long lookup on_match n ls s).0
  unfolding scan_long
  scan_long_finds label [] s i h = absurd i
  scan_long_finds label (l ∷ ls) s (inl e) h =
      let h' = subst (λ x. HasWindow n x id) e h in
      let r = scan_windows lookup on_match n l l s in
      rw (HasWindow-long l h') (
        go_on_inv Q r (scan_long lookup on_match n ls) (HasWindow-found l s h')
          (scan_long_inv lookup on_match n Q kept_on ls))
  scan_long_finds label (l ∷ ls) s (inr i) h =
      elim (Bool-cases (ltb (length l) (n + min_nonce_length))) [
        | inl e ↦ rw e (scan_long_finds label ls s i h)
        | inr e ↦
            let r = scan_windows lookup on_match n l l s in
            rw (e, go_on-true r (scan_long lookup on_match n ls) (scan_windows_on l l s))
              (scan_long_finds label ls r.0 i h)
      ]

  scan_bare_finds :
      (ls : List Bytes) (s : S)
      → In id ls
      → length id ≡ n
      → is_cid_base32 id ≡ true
      → Q (scan_bare lookup on_match n ls s).0
  unfolding scan_bare
  scan_bare_finds [] s i a v = absurd i
  scan_bare_finds (l ∷ ls) s (inl e) a v =
      let is_id : (not (length l == n) || not (is_cid_base32 l)) ≡ false =
        rw (← e) (ground (arith, a, v)) in
      rw is_id (
        go_on_inv Q (visit lookup on_match s l l) (scan_bare lookup on_match n ls)
          (subst (λ x. Q (visit lookup on_match s x l).0) e (found s l))
          (scan_bare_inv lookup on_match n Q kept_on ls))
  scan_bare_finds (l ∷ ls) s (inr i) a v =
      elim (Bool-cases (not (length l == n) || not (is_cid_base32 l))) [
        | inl e ↦ rw e (scan_bare_finds ls s i a v)
        | inr e ↦
            rw
              (
                e,
                go_on-true (visit lookup on_match s l l) (scan_bare lookup on_match n ls)
                    (visit_on s l l),
              )
              (scan_bare_finds ls (visit lookup on_match s l l).0 i a v)
      ]

  -- Either tier finds the ID.
  pub scan_labels_finds :
      (input label : Bytes) (s : S)
      → In label (labels input)
      → HasWindow n label id ⊎ ((label ≡ id) × (length id ≡ n) × (is_cid_base32 id ≡ true))
      → Q (scan_labels lookup on_match n input s)
  unfolding scan_labels
  scan_labels_finds input label s i (inl h) =
      go_on_inv Q (scan_long lookup on_match n (labels input) s)
        (scan_bare lookup on_match n (labels input)) (scan_long_finds label (labels input) s i h)
        (scan_bare_inv lookup on_match n Q kept_on (labels input))
  scan_labels_finds input label s i (inr (e, a, v)) =
      let r = scan_long lookup on_match n (labels input) s in
      let f = scan_bare lookup on_match n (labels input) in
      subst (λ x. Q x.0) (sym (go_on-true r f (scan_long_on (labels input) s)))
        (scan_bare_finds (labels input) r.0 (subst (λ x. In x (labels input)) e i) a v)
