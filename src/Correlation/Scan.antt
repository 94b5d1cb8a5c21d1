-- ===== src/Correlation/Scan.antt =====
-- What `scanLabels` visits.
use interactsh_lite.Correlation.{
  is_cid_base32, is_alphanumeric, min_nonce_length, labels, go_on, visit, try_window, scan_windows,
  scan_long, scan_bare, scan_labels,
}
use interactsh_lite.Prelude.{
  ℕ, ◌+◌, Bool, true, false, not, ◌||◌, List, [], ◌∷◌, ltb, ◌==◌, if◌then◌else◌, Bytes, length,
  take, drop, ◌≡◌, refl, arith, ◌⊎◌, inl, inr, Bool-cases, length-take,
}

-- The item is in the list.
abbrev pub In : Bytes → List Bytes → Type 0
In x [] = ⊥
In x (y ∷ ys) = (x ≡ y) ⊎ In x ys

pub go_on_inv :
    {S : Type 0} (P : S → Type 0) (r : S × Bool) (f : S → S × Bool)
    → P r.0
    → ((s : S) → P s → P (f s).0)
    → P (go_on r f).0
go_on_inv P (s, true) f p h = h s p
go_on_inv P (s, false) f p h = p

pub go_on-true : {S : Type 0} (r : S × Bool) (f : S → S × Bool) → r.1 ≡ true → go_on r f ≡ f r.0
go_on-true r f e = rw e

skip_inv :
    {S : Type 0} (P : S → Type 0) (b : Bool) (s : S) (r : S × Bool)
    → P s
    → (b ≡ false → P r.0)
    → P (if b then (s, true) else r).0
skip_inv P true s r p h = p
skip_inv P false s r p h = h refl

pub length-take_lt :
    (n k : ℕ) (s : Bytes) → ltb (length s) (n + k) ≡ false → length (take n (take (n + k) s)) ≡ n
length-take_lt n k s h = ground (arith, length-take n (take (n + k) s), length-take (n + k) s)

module _ {S : Type 0} (lookup : S → Bytes → Bool) (on_match : S → Bytes → Bytes → S × Bool) (n : ℕ)
    (P : S → Type 0)
    (kept : (s : S) (c label : Bytes)
      → length c ≡ n
      → is_cid_base32 c ≡ true
      → lookup s c ≡ true
      → P s
      → P (on_match s c label).0) where
  visit_inv :
      (s : S) (c label : Bytes)
      → length c ≡ n
      → is_cid_base32 c ≡ true
      → P s
      → P (visit lookup on_match s c label).0
  visit_inv s c label l v p = elim (Bool-cases (lookup s c)) [
    | inl e ↦ unfold visit in rw e (kept s c label l v e p)
    | inr e ↦ unfold visit in rw e p
  ]

  try_window_inv :
      (window label : Bytes) (s : S)
      → length (take n window) ≡ n
      → P s
      → P (try_window lookup on_match n window label s).0
  unfolding try_window
  try_window_inv window label s l p =
      let c = take n window in
      skip_inv P (not (is_cid_base32 c) || not (is_alphanumeric (drop n window))) s
        (visit lookup on_match s c label) p (λ e. visit_inv s c label l (ground (arith, e)) p)

  pub scan_windows_inv :
      (label suffix : Bytes) (s : S) → P s → P (scan_windows lookup on_match n label suffix s).0
  unfolding scan_windows
  scan_windows_inv label [] s p = p
  scan_windows_inv label (c ∷ rest) s p =
      let r = try_window lookup on_match n (take (n + min_nonce_length) (c ∷ rest)) label s in
      let f = scan_windows lookup on_match n label rest in
      skip_inv P (ltb (length (c ∷ rest)) (n + min_nonce_length)) s (go_on r f) p λ e.
        go_on_inv P r f
          (try_window_inv _ label s (length-take_lt n min_nonce_length (c ∷ rest) e) p)
          (scan_windows_inv label rest)

  pub scan_long_inv : (ls : List Bytes) (s : S) → P s → P (scan_long lookup on_match n ls s).0
  unfolding scan_long
  scan_long_inv [] s p = p
  scan_long_inv (label ∷ ls) s p =
      let short = ltb (length label) (n + min_nonce_length) in
      let r = scan_windows lookup on_match n label label s in
      go_on_inv P (if short then (s, true) else r) (scan_long lookup on_match n ls)
        (skip_inv P short s r p (λ e. scan_windows_inv label label s p)) (scan_long_inv ls)

  pub scan_bare_inv : (ls : List Bytes) (s : S) → P s → P (scan_bare lookup on_match n ls s).0
  unfolding scan_bare
  scan_bare_inv [] s p = p
  scan_bare_inv (label ∷ ls) s p =
      let no_id = not (length label == n) || not (is_cid_base32 label) in
      let r = visit lookup on_match s label label in
      go_on_inv P (if no_id then (s, true) else r) (scan_bare lookup on_match n ls)
        (skip_inv P no_id s r p
          λ e. visit_inv s label label (ground (arith, e)) (ground (arith, e)) p)
        (scan_bare_inv ls)

  -- What holds before the scan and is kept by every match holds after it.
  pub scan_labels_inv : (input : Bytes) (s : S) → P s → P (scan_labels lookup on_match n input s)
  unfolding scan_labels
  scan_labels_inv input s p =
      go_on_inv P (scan_long lookup on_match n (labels input) s)
        (scan_bare lookup on_match n (labels input)) (scan_long_inv (labels input) s p)
        (scan_bare_inv (labels input))
