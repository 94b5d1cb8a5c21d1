-- ===== src/SharedBucket/Waiting.antt =====
-- `ReadFrom` of interactsh-srv/oobsrv/storage.go: a consumer between two of its reads, while others
-- append and read.
use interactsh_lite.SharedBucket.{
  SharedBucket, discard, append, stale_at, is_stale, keys, remove_stale, cleanup_stale, mark_read,
  read_from,
}
use interactsh_lite.SharedBucket.Refinement.{
  Refines, discarded, append-Refines, position, read_from_parts, reader_kept, read_from-Refines,
  drop_end, drop_eq,
}
use mathlib.Core.List.{append-nil, append_assoc}
use interactsh_lite.Prelude.{
  ℕ, ◌-◌, ◌≤◌, max, false, some, List, [], ◌∷◌, ◌++◌, if◌then◌else◌, Bytes, Map, All, Bool-cases,
  subst, lookup, remove, insert, length, equal, ◌≡◌, ◌≢◌, refl, sym, ap, ◌∙◌, inl, inr, arith,
  length-append, lookup-insert, lookup-insert_self, lookup-remove, equal_iff, equal_refl,
}

-- A call on the bucket: an append, or a read by a consumer at a time.
pub data Call : Type 0 where
  appends : Bytes → Call
  reads : Bytes → ℕ → Call

unfoldable pub call : Call → SharedBucket → SharedBucket
call (appends x) b = append x b
call (reads c t) b = (read_from c t b).1

unfoldable pub calls : List Call → SharedBucket → SharedBucket
unfolding call
calls [] b = b
calls (x ∷ xs) b = calls xs (call x b)

abbrev pub appended : List Call → List Bytes
appended [] = []
appended (appends x ∷ xs) = x ∷ appended xs
appended (reads c t ∷ xs) = appended xs

-- Reads by others, none later than the TTL after the time.
abbrev pub IsOther : Bytes → ℕ → ℕ → Call → Type 0
IsOther id now ttl (appends x) = Unit
IsOther id now ttl (reads c t) = (c ≢ id) × (t - now ≤ ttl)

-- The bucket refines the history, the consumer was last seen at the time, and has position `start`.
abbrev pub IsWaiting : Bytes → ℕ → ℕ → SharedBucket → List Bytes → Type 0
IsWaiting id now start b history =
    (d : ℕ) × (pos : Bytes → ℕ) × Refines b history d pos
    × (pos id ≡ start)
    × (lookup id b.last_seen ≡ some now)

seen-remove :
    (ttl t now : ℕ) (c k : Bytes) (seen : Map ℕ)
    → lookup c seen ≡ some now
    → is_stale ttl t now ≡ false
    → lookup c (if stale_at ttl t (lookup k seen) then remove k seen else seen) ≡ some now
seen-remove ttl t now c k seen e f = elim (Bool-cases (equal k c)) [
  | inl same ↦
      let at : lookup k seen ≡ some now = ap (λ x. lookup x seen) ((equal_iff k c).0 same) ∙ e in
      ground (arith, at, e, f)
  | inr other ↦ ground (arith, e, other, lookup-remove k c seen)
]

seen-remove_stale :
    (ttl t now : ℕ) (c : Bytes) (ks : List Bytes) (offsets seen : Map ℕ)
    → lookup c seen ≡ some now
    → is_stale ttl t now ≡ false
    → lookup c (remove_stale ttl t ks offsets seen).1 ≡ some now
unfolding remove_stale
seen-remove_stale ttl t now c [] offsets seen e f = e
seen-remove_stale ttl t now c (k ∷ ks) offsets seen e f =
    let stale = stale_at ttl t (lookup k seen) in
    seen-remove_stale ttl t now c ks (if stale then remove k offsets else offsets)
      (if stale then remove k seen else seen) (seen-remove ttl t now c k seen e f) f

append_settings :
    (x : Bytes) (b : SharedBucket)
    → ((append x b).last_seen ≡ b.last_seen)
      × ((append x b).max_buffer ≡ b.max_buffer)
      × ((append x b).eviction_ttl ≡ b.eviction_ttl)
unfolding append discard
append_settings x b = ground arith

cleanup_settings :
    (t : ℕ) (b : SharedBucket)
    → ((cleanup_stale t b).max_buffer ≡ b.max_buffer)
      × ((cleanup_stale t b).eviction_ttl ≡ b.eviction_ttl)
unfolding cleanup_stale
cleanup_settings t b = ground arith

cleanup_seen :
    (id : Bytes) (t now : ℕ) (b : SharedBucket)
    → lookup id b.last_seen ≡ some now
    → is_stale b.eviction_ttl t now ≡ false
    → lookup id (cleanup_stale t b).last_seen ≡ some now
unfolding cleanup_stale
cleanup_seen id t now b e f = ground (
  arith,
  e,
  seen-remove_stale b.eviction_ttl t now id (keys b.last_seen) b.offsets b.last_seen e f,
)

append-IsWaiting :
    (id x : Bytes) (now start : ℕ) (b : SharedBucket) (history : List Bytes)
    → IsWaiting id now start b history
    → IsWaiting id now start (append x b) (history ++ (x ∷ []))
append-IsWaiting id x now start b history (d, pos, r, p, e) = (
  discarded b x d,
  pos,
  append-Refines x b history d pos r,
  p,
  ap (lookup id) (append_settings x b).0 ∙ e,
)

read_settings :
    (c : Bytes) (t : ℕ) (b : SharedBucket)
    → ((read_from c t b).1.max_buffer ≡ b.max_buffer)
      × ((read_from c t b).1.eviction_ttl ≡ b.eviction_ttl)
read_settings c t b =
    let e = (read_from_parts c t b).1 in
    let s = cleanup_settings t (mark_read c t b) in
    (
      ap (λ (x : SharedBucket). x.max_buffer) e ∙ s.0,
      ap (λ (x : SharedBucket). x.eviction_ttl) e ∙ s.1,
    )

-- Another's read in time leaves the consumer where it was.
read_from-IsWaiting :
    (id c : Bytes) (t now start : ℕ) (b : SharedBucket) (history : List Bytes)
    → c ≢ id
    → t - now ≤ b.eviction_ttl
    → IsWaiting id now start b history
    → IsWaiting id now start (read_from c t b).1 history
read_from-IsWaiting id c t now start b history n l (d, pos, r, p, e) =
    let marked : lookup id (insert c t b.last_seen) ≡ some now =
      ground (arith, lookup-insert c id t b.last_seen, equal_iff c id, n, e) in
    let fresh : is_stale b.eviction_ttl t now ≡ false = ground (arith, l) in
    let stays : position b history c t pos id ≡ start =
      ground (arith, marked, fresh, p, equal_iff c id, n) in
    (
      d,
      position b history c t pos,
      (read_from-Refines c t b history d pos r).1,
      stays,
      ap (λ (x : SharedBucket). lookup id x.last_seen) (read_from_parts c t b).1
          ∙ cleanup_seen id t now (mark_read c t b) marked fresh,
    )

-- The consumer's own read.
own-IsWaiting :
    (id : Bytes) (now : ℕ) (b : SharedBucket) (history : List Bytes) (d : ℕ) (pos : Bytes → ℕ)
    → Refines b history d pos
    → IsWaiting id now (length history) (read_from id now b).1 history
own-IsWaiting id now b history d pos r =
    let marked = lookup-insert_self id now b.last_seen in
    let fresh : is_stale b.eviction_ttl now now ≡ false = ground arith in
    (
      d,
      position b history id now pos,
      (read_from-Refines id now b history d pos r).1,
      ground (arith, reader_kept b id now, equal_refl id),
      ap (λ (x : SharedBucket). lookup id x.last_seen) (read_from_parts id now b).1
          ∙ cleanup_seen id now now (mark_read id now b) marked fresh,
    )

call_settings :
    (x : Call) (b : SharedBucket)
    → ((call x b).max_buffer ≡ b.max_buffer) × ((call x b).eviction_ttl ≡ b.eviction_ttl)
unfolding call
call_settings (appends x) b = let s = append_settings x b in (s.1, s.2)
call_settings (reads c t) b = read_settings c t b

call-IsWaiting :
    (id : Bytes) (now start : ℕ) (x : Call) (b : SharedBucket) (history : List Bytes)
    → IsOther id now b.eviction_ttl x
    → IsWaiting id now start b history
    → IsWaiting id now start (call x b) (history ++ appended (x ∷ []))
unfolding call
call-IsWaiting id now start (appends x) b history o w = append-IsWaiting id x now start b history w
call-IsWaiting id now start (reads c t) b history (n, l) w =
    subst (IsWaiting id now start (read_from c t b).1) (sym (append-nil history))
      (read_from-IsWaiting id c t now start b history n l w)

appended-cons : (x : Call) (xs : List Call) → appended (x ∷ xs) ≡ appended (x ∷ []) ++ appended xs
appended-cons (appends x) xs = refl
appended-cons (reads c t) xs = refl

calls-IsWaiting :
    (id : Bytes) (now start ttl : ℕ) (xs : List Call) (b : SharedBucket) (history : List Bytes)
    → b.eviction_ttl ≡ ttl
    → All (IsOther id now ttl) xs
    → IsWaiting id now start b history
    → IsWaiting id now start (calls xs b) (history ++ appended xs)
      × ((calls xs b).max_buffer ≡ b.max_buffer)
unfolding calls
calls-IsWaiting id now start ttl [] b history t o w =
    (subst (IsWaiting id now start b) (sym (append-nil history)) w, refl)
calls-IsWaiting id now start ttl (x ∷ xs) b history t o w =
    let s = call_settings x b in
    let one =
      call-IsWaiting id now start x b history (subst (λ l. IsOther id now l x) (sym t) o.0) w in
    let rest =
      calls-IsWaiting id now start ttl xs (call x b) (history ++ appended (x ∷ [])) (s.1 ∙ t) o.1
        one in
    (
      subst (IsWaiting id now start (calls xs (call x b)))
          (append_assoc history (appended (x ∷ [])) (appended xs)
            ∙ ap (λ l. history ++ l) (sym (appended-cons x xs)))
          rest.0,
      rest.1 ∙ s.0,
    )

-- A consumer that reads, and reads again after at most `maxBuffer` appends, gets exactly these, all
-- of them, once and in order, if every other read between is another's and no later than the TTL
-- after its own.
pub read_from-calls :
    (id : Bytes) (now later : ℕ) (xs : List Call) (b : SharedBucket) (history : List Bytes) (d : ℕ)
    (pos : Bytes → ℕ)
    → Refines b history d pos
    → All (IsOther id now b.eviction_ttl) xs
    → length (appended xs) ≤ b.max_buffer
    → (read_from id later (calls xs (read_from id now b).1)).0 ≡ appended xs
read_from-calls id now later xs b history d pos r o h =
    let b' = (read_from id now b).1 in
    let s = read_settings id now b in
    let ((d', pos', second, at_end, _), size) =
      calls-IsWaiting id now (length history) b.eviction_ttl xs b' history s.1 o
        (own-IsWaiting id now b history d pos r) in
    let n = length-append history (appended xs) in
    let early : d' ≤ length history = elim second.retained [
      | inl z ↦ omega (arith, z)
      | inr z ↦ omega (arith, z, n, size, s.0, h)
    ] in
    (read_from-Refines id later (calls xs b') (history ++ appended xs) d' pos' second).0
    ∙ drop_eq (history ++ appended xs) (ap (λ k. max k d') at_end)
    ∙ drop_end history (appended xs) d' early
