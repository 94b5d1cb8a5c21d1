-- ===== src/Correlation/Labels.antt =====
-- The labels that `scanLabels` goes through, against a split of the text.
use interactsh_lite.Correlation.{labels_from}
use interactsh_lite.Prelude.Text.{cut, split}
use interactsh_lite.Prelude.{
  ℕ, zero, suc, ◌≤◌, Bool, true, false, List, [], ◌∷◌, ◌==◌, if◌then◌else◌, Bytes, equal, length,
  ◌≡◌, refl, ap, ◌∙◌, sym, arith, Bool-cases, inl, inr,
}

-- The words but for an empty one at the end.
abbrev pub without_last_empty : List Bytes → List Bytes
without_last_empty [] = []
without_last_empty (w ∷ []) = if equal w [] then [] else w ∷ []
without_last_empty (w ∷ v ∷ vs) = w ∷ without_last_empty (v ∷ vs)

abbrev parts : Bytes × Bytes × Bool → ℕ → List Bytes
parts (before, after, found) sep = if found then before ∷ split sep after else before ∷ []

split-cut : (sep : ℕ) (s : Bytes) → split sep s ≡ parts (cut sep s) sep
unfolding split cut
split-cut sep [] = refl
split-cut sep (c ∷ s) = elim (Bool-cases (c == sep)) [
  | inl e ↦ ground (arith, e)
  | inr e ↦ elim (Bool-cases (cut sep s).2) [
    | inl f ↦ ground (arith, e, f, split-cut sep s)
    | inr f ↦ ground (arith, e, f, split-cut sep s)
  ]
]

cut_shorter : (sep c : ℕ) (s : Bytes) → length (cut sep (c ∷ s)).1 ≤ length s
unfolding cut
cut_shorter sep c [] = ground arith
cut_shorter sep c (x ∷ s) = ground (arith, cut_shorter sep x s)

cut-not_found :
    (sep : ℕ) (s : Bytes) → (cut sep s).2 ≡ false → ((cut sep s).0 ≡ s) × ((cut sep s).1 ≡ [])
unfolding cut
cut-not_found sep [] h = (refl, refl)
cut-not_found sep (c ∷ s) h = ground (arith, h, cut-not_found sep s)

nonempty_split : (sep : ℕ) (s : Bytes) → (w : Bytes) × (ws : List Bytes) × (split sep s ≡ w ∷ ws)
unfolding split
nonempty_split sep [] = ([], [], refl)
nonempty_split sep (c ∷ s) =
    let (w, ws, e) = nonempty_split sep s in
    elim (Bool-cases (c == sep)) [
      | inl k ↦ ([], split sep s, ground (arith, k))
      | inr k ↦ (c ∷ w, ws, ground (arith, k, e))
    ]

labels_nil : (f : ℕ) → labels_from f [] ≡ []
unfolding labels_from equal split
labels_nil zero = refl
labels_nil (suc f) = refl

without_last_empty-split :
    (sep : ℕ) (w t : Bytes)
    → without_last_empty (w ∷ split sep t) ≡ w ∷ without_last_empty (split sep t)
without_last_empty-split sep w t = let (v, vs, e) = nonempty_split sep t in rw e refl

split_found :
    (sep : ℕ) (s : Bytes)
    → (cut sep s).2 ≡ true
    → split sep s ≡ (cut sep s).0 ∷ split sep (cut sep s).1
split_found sep s h = split-cut sep s ∙ ground (arith, h)

split_missing : (sep : ℕ) (s : Bytes) → (cut sep s).2 ≡ false → split sep s ≡ s ∷ []
split_missing sep s h = split-cut sep s ∙ ground (arith, h, cut-not_found sep s h)

-- With as many rounds as the text has bytes, or more, the loop of `scanLabels` goes through the
-- parts of the text between dots, in order, but for an empty one at the end.
pub labels_from-split :
    (f : ℕ) (s : Bytes) → length s ≤ f → labels_from f s ≡ without_last_empty (split b'.' s)
unfolding labels_from equal split
labels_from-split f [] h = labels_nil f
labels_from-split zero (c ∷ s) h = absurd (omega (arith, h))
labels_from-split (suc f) (c ∷ s) h =
    let r = cut b'.' (c ∷ s) in
    let ih = labels_from-split f r.1 (omega (arith, h, cut_shorter b'.' c s)) in
    elim (Bool-cases r.2) [
      | inl found ↦
          ap (◌∷◌ r.0) ih
          ∙ sym (without_last_empty-split b'.' r.0 r.1)
          ∙ ap without_last_empty (sym (split_found b'.' (c ∷ s) found))
      | inr missing ↦
          let whole = cut-not_found b'.' (c ∷ s) missing in
          ap (λ x. r.0 ∷ labels_from f x) whole.1
          ∙ ap (λ (x : Bytes). x ∷ labels_from f []) whole.0
          ∙ ap (◌∷◌ (c ∷ s)) (labels_nil f)
          ∙ ap without_last_empty (sym (split_missing b'.' (c ∷ s) missing))
    ]
