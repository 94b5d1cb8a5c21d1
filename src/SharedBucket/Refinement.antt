-- ===== src/SharedBucket/Refinement.antt =====
-- The bucket against the whole history of what was appended.
use interactsh_lite.SharedBucket.{
  SharedBucket, new_shared_bucket, is_full, discard, append, stale_at, keys, remove_stale,
  cleanup_stale, mark_read, read_from, cleanup_interval,
}
use mathlib.Core.Option.{Option}
use mathlib.Core.Option
use interactsh_lite.Prelude.{
  ℕ, zero, suc, ◌+◌, ◌-◌, ◌*◌, ◌≤◌, ◌<◌, max, Bool, false, ◌&&◌, not, List, [], ◌∷◌, ◌++◌, ltb, leb,
  if◌then◌else◌, Bytes, Map, lookup, insert, remove, length, drop, get_or, any, equal, ◌≡◌, refl,
  sym, ap, ◌∙◌, ◌⊎◌, inl, inr, arith, length-append, length-drop, lookup-map_values, lookup-insert,
  lookup-insert_self, lookup-remove, equal_iff, Bool-cases, subst, leb→le, drop-length-append, none,
  some,
}

drop-append {ℓ} :
    {A : Type ℓ} (n : ℕ) (xs ys : List A) → n ≤ length xs → drop n (xs ++ ys) ≡ drop n xs ++ ys
drop-append zero xs ys h = refl
drop-append (suc n) [] ys h = absurd (omega arith)
drop-append (suc n) (x ∷ xs) ys h = drop-append n xs ys (omega arith)

pub drop_eq {ℓ} : {A : Type ℓ} {m n : ℕ} (xs : List A) → m ≡ n → drop m xs ≡ drop n xs
drop_eq xs e = ap (λ k. drop k xs) e

drop-nil {ℓ} : {A : Type ℓ} (n : ℕ) → ◌≡◌ {A = List A} (drop n []) []
drop-nil zero = refl
drop-nil (suc n) = refl

drop-drop {ℓ} : {A : Type ℓ} (m n : ℕ) (xs : List A) → drop m (drop n xs) ≡ drop (n + m) xs
drop-drop m zero xs = drop_eq xs (omega arith)
drop-drop m (suc n) [] = drop-nil m ∙ sym (drop-nil (suc n + m))
drop-drop m (suc n) (x ∷ xs) =
    drop-drop m n xs ∙ drop_eq {m = suc (n + m)} {n = suc n + m} (x ∷ xs) (omega arith)

drop-all {ℓ} : {A : Type ℓ} (n : ℕ) (xs : List A) → length xs ≤ n → drop n xs ≡ []
drop-all n [] h = drop-nil n
drop-all zero (x ∷ xs) h = absurd (omega arith)
drop-all (suc n) (x ∷ xs) h = drop-all n xs (omega arith)

-- The bucket holds what was appended but for the first `d`, and each consumer's offset is its
-- position in the history less what was discarded.
pub record Refines (b : SharedBucket) (history : List Bytes) (d : ℕ) (pos : Bytes → ℕ)
    : Type 0 where
  pub kept : b.interactions ≡ drop d history
  pub within : d ≤ length history
  pub retained : (d ≡ 0) ⊎ (d + b.max_buffer ≤ length history)
  pub offset : (c : Bytes) → get_or 0 (lookup c b.offsets) ≡ pos c - d

pub new_shared_bucket-Refines :
    (max_buffer ttl now : ℕ) → Refines (new_shared_bucket max_buffer ttl now) [] 0 (λ c. 0)
unfolding new_shared_bucket lookup
new_shared_bucket-Refines max_buffer ttl now = record {
  kept = refl;
  within = omega arith;
  retained = inl refl;
  offset = λ c. omega arith;
}

-- What is discarded after an append.
abbrev pub discarded : SharedBucket → Bytes → ℕ → ℕ
discarded b x d =
    if is_full (record b { interactions = b.interactions ++ (x ∷ []) }) then d + b.max_buffer else d

get_or-map_sub :
    (k : ℕ) (o : Option ℕ) → get_or 0 (Option.map (λ offset. offset - k) o) ≡ get_or 0 o - k
get_or-map_sub k none = omega arith
get_or-map_sub k (some x) = refl

-- An append adds to the history, and discards the oldest `maxBuffer` interactions if it fills the
-- buffer; no consumer's position changes.
pub append-Refines :
    (x : Bytes) (b : SharedBucket) (history : List Bytes) (d : ℕ) (pos : Bytes → ℕ)
    → Refines b history d pos
    → Refines (append x b) (history ++ (x ∷ [])) (discarded b x d) pos
unfolding append discard
append-Refines x b history d pos r =
    let xs = x ∷ [] in
    let kept : b.interactions ++ xs ≡ drop d (history ++ xs) =
      ap (λ l. l ++ xs) r.kept ∙ sym (drop-append d history xs r.within) in
    let n = length-append history xs in
    let size : length (b.interactions ++ xs) ≡ length history + 1 - d =
      ap length kept ∙ length-drop d (history ++ xs) ∙ omega (arith, n) in
    elim (Bool-cases (is_full (record b { interactions = b.interactions ++ xs }))) [
      | inl full ↦
          let big : 2 * b.max_buffer ≤ length (b.interactions ++ xs) = ground (arith, full) in
          rw full (record {
            kept = ap (drop b.max_buffer) kept ∙ drop-drop b.max_buffer d (history ++ xs);
            within = omega (arith, n, size, big);
            retained = inr (omega (arith, n, size, big));
            offset = λ c.
                ap (get_or 0) (lookup-map_values (λ offset. offset - b.max_buffer) c b.offsets)
                ∙ get_or-map_sub b.max_buffer (lookup c b.offsets)
                ∙ omega (arith, r.offset c);
          })
      | inr small ↦ rw small (record {
        kept = kept;
        within = omega (arith, n);
        retained = elim r.retained [ inl z ↦ inl z | inr z ↦ inr (omega (arith, n)) ];
        offset = r.offset;
      })
    ]

abbrev pub is_key : Map ℕ → Bytes → Bool
is_key m c = any (λ k. equal k c) (keys m)

lookup-remove_stale :
    (ttl now : ℕ) (c : Bytes) (ks : List Bytes) (offsets seen : Map ℕ)
    → lookup c (remove_stale ttl now ks offsets seen).0 ≡ (
        if any (λ k. equal k c) ks && stale_at ttl now (lookup c seen)
        then none
        else lookup c offsets)
unfolding remove_stale
lookup-remove_stale ttl now c [] offsets seen = refl
lookup-remove_stale ttl now c (k ∷ ks) offsets seen = ground (
  arith,
  lookup-remove_stale ttl now c ks (remove k offsets) (remove k seen),
  lookup-remove_stale ttl now c ks offsets seen,
  lookup-remove k c offsets,
  lookup-remove k c seen,
  equal_iff k c,
)

-- The consumers whose offsets a call of `ReadFrom` by `consumer` forgets.
abbrev pub forgets : SharedBucket → Bytes → ℕ → Bytes → Bool
forgets b consumer now c =
    not (ltb (now - b.last_cleanup) cleanup_interval)
    && is_key (insert consumer now b.last_seen) c
    && stale_at b.eviction_ttl now (lookup c (insert consumer now b.last_seen))

-- The positions after it: the reader is at the end, and a forgotten consumer at the beginning.
abbrev pub position : SharedBucket → List Bytes → Bytes → ℕ → (Bytes → ℕ) → Bytes → ℕ
position b history consumer now pos c =
    if forgets b consumer now c then 0 else if equal consumer c then length history else pos c

cleanup_kept :
    (now : ℕ) (b : SharedBucket)
    → ((cleanup_stale now b).interactions ≡ b.interactions)
      × ((cleanup_stale now b).max_buffer ≡ b.max_buffer)
unfolding cleanup_stale
cleanup_kept now b = ground arith

cleanup_offset :
    (now : ℕ) (b : SharedBucket) (c : Bytes)
    → lookup c (cleanup_stale now b).offsets ≡ (
        if not (ltb (now - b.last_cleanup) cleanup_interval)
          && is_key b.last_seen c
          && stale_at b.eviction_ttl now (lookup c b.last_seen)
        then none
        else lookup c b.offsets)
unfolding cleanup_stale
cleanup_offset now b c =
    ground
      (arith, lookup-remove_stale b.eviction_ttl now c (keys b.last_seen) b.offsets b.last_seen)

pub read_from_parts :
    (consumer : Bytes) (now : ℕ) (b : SharedBucket)
    → ((read_from consumer now b).0 ≡ drop (get_or 0 (lookup consumer b.offsets)) b.interactions)
      × ((read_from consumer now b).1 ≡ cleanup_stale now (mark_read consumer now b))
unfolding read_from
read_from_parts consumer now b =
    let offset = get_or 0 (lookup consumer b.offsets) in
    elim (Bool-cases (leb (length b.interactions) offset)) [
      | inl e ↦ rw e (sym (drop-all offset b.interactions (leb→le _ _ e)), refl)
      | inr e ↦ rw e (refl, refl)
    ]

cleanup-Refines :
    (consumer : Bytes) (now : ℕ) (b : SharedBucket) (history : List Bytes) (d : ℕ) (pos : Bytes → ℕ)
    → Refines b history d pos
    → Refines
        (cleanup_stale now (mark_read consumer now b))
        history
        d
        (position b history consumer now pos)
cleanup-Refines consumer now b history d pos r =
    let marked = mark_read consumer now b in
    let e = cleanup_kept now marked in
    let n : length b.interactions ≡ length history - d = ap length r.kept ∙ length-drop d history in
    record {
      kept = e.0 ∙ r.kept;
      within = r.within;
      retained = rw (e.1) r.retained;
      offset = λ c. ground (
        arith,
        n,
        r.offset c,
        cleanup_offset now marked c,
        lookup-insert consumer c (length b.interactions) b.offsets,
      );
    }

-- `ReadFrom` hands out what was appended behind the consumer's position and is not discarded. The
-- reader is then at the end; another consumer stays where it was, unless it is forgotten.
pub read_from-Refines :
    (consumer : Bytes) (now : ℕ) (b : SharedBucket) (history : List Bytes) (d : ℕ) (pos : Bytes → ℕ)
    → Refines b history d pos
    → ((read_from consumer now b).0 ≡ drop (max (pos consumer) d) history)
      × Refines (read_from consumer now b).1 history d (position b history consumer now pos)
read_from-Refines consumer now b history d pos r =
    let e = read_from_parts consumer now b in
    (
      e.0
          ∙ ap (λ k. drop k b.interactions) (r.offset consumer)
          ∙ ap (drop (pos consumer - d)) r.kept
          ∙ drop-drop (pos consumer - d) d history
          ∙ drop_eq history (omega arith),
      subst (λ s. Refines s history d (position b history consumer now pos)) (sym e.1)
          (cleanup-Refines consumer now b history d pos r),
    )

-- The reader itself is not forgotten.
pub reader_kept :
    (b : SharedBucket) (consumer : Bytes) (now : ℕ) → forgets b consumer now consumer ≡ false
reader_kept b consumer now = ground (arith, lookup-insert_self consumer now b.last_seen)

pub drop_end :
    (history xs : List Bytes) (d : ℕ)
    → d ≤ length history
    → drop (max (length history) d) (history ++ xs) ≡ xs
drop_end history xs d h =
    drop_eq {m = max (length history) d} {n = length history} (history ++ xs) (omega arith)
    ∙ drop-length-append history xs

-- A bounded buffer never holds twice its size.
append_bound :
    (x : Bytes) (b : SharedBucket)
    → 0 < b.max_buffer
    → length b.interactions < 2 * b.max_buffer
    → length (append x b).interactions < 2 * b.max_buffer
unfolding append discard
append_bound x b p h = ground (
  arith,
  length-append b.interactions (x ∷ []),
  length-drop b.max_buffer (b.interactions ++ (x ∷ [])),
)
