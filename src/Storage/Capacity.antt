-- ===== src/Storage/Capacity.antt =====
-- The bound on the number of sessions.
use interactsh_lite.Storage.Tables.{Index, Inv, link, unlink, unlink-Inv}
use interactsh_lite.Storage.Lru.{LruEntry, find}
use interactsh_lite.Storage.Evict.{evict_lru, probe, no_victim, max_probe}
use interactsh_lite.Storage.Oldest.{NoYounger, Found, Inv-Found, evict_lru_oldest}
use interactsh_lite.Storage.Consistent.{lookup-unlink, unlink_sessions, promote_sessions}
use interactsh_lite.Storage.Register.{
  Registration, make_room, register_new, add_session, keep_alive, register_internal, register,
}
use interactsh_lite.Storage.Access.{session_count}
use interactsh_lite.Storage.{
  Session, MemoryStorage, Hooks, max_int64, max_cache_capacity, miss, evicted, remove_locked,
  touch_if_sliding,
}
use interactsh_lite.Prelude.{
  ℕ, ◌≤◌, ◌<◌, ◌≡◌, ◌≢◌, refl, subst, All, take, true, none, some, List, [], ◌∷◌, Bytes, equal_iff,
  equal_refl, length, lookup, arith, is_some, inl, inr, ◌⊎◌, Option-cases, Map, length-insert-le,
  length-remove-lt, length-remove-le,
}

list_cases {ℓ} : {A : Type ℓ} (xs : List A) → (xs ≡ []) ⊎ ((y : A) × (ys : List A) × (xs ≡ y ∷ ys))
list_cases [] = inl refl
list_cases (y ∷ ys) = inr (y, ys, refl)

-- Every session has a non-empty ID and was last used before the largest time.
pub record IsNamed (heap : ℕ → Session) (x : Index) : Type 0 where
  pub named : lookup [] x.sessions ≡ none
  pub timed :
      (id : Bytes) (p : ℕ) → lookup id x.sessions ≡ some p → (heap p).last_access < max_int64

first_key : {V : Type 0} (m : Map V) → 0 < length m → (k : Bytes) × (is_some (lookup k m) ≡ true)
unfolding lookup
first_key [] h = absurd (omega arith)
first_key ((k, v) ∷ m) h = (k, ground (arith, equal_refl k))

nonempty-find : (ns : List LruEntry) (k : Bytes) → is_some (find k ns) ≡ true → ns ≢ []
unfolding find
nonempty-find [] k h = ground arith
nonempty-find (n ∷ ns) k h = ground arith

module _ {H : Type 0} (hooks : Hooks H) where
  -- A full storage has a victim, and it is a session.
  victim_found :
      (m : MemoryStorage H) (n : LruEntry) (ns : List LruEntry)
      → Inv m.index
      → IsNamed m.heap m.index
      → m.lru_list ≡ n ∷ ns
      → let v = (probe m.heap max_probe m.lru_list m.index no_victim).1 in
        (v.id ≢ []) × (is_some (lookup v.id m.sessions) ≡ true)
  victim_found m n ns i t e =
      let v = (probe m.heap max_probe m.lru_list m.index no_victim).1 in
      let o = evict_lru_oldest m i in
      let young = subst (λ l. All (NoYounger m.heap m.index v) (take max_probe l)) e o.2 in
      let found = subst (Found m.index) e (Inv-Found m.index i) in
      elim (Option-cases (lookup n.correlation_id m.sessions)) [
        | inl q ↦ absurd (ground (arith, found.0, q))
        | inr (p, q) ↦
            let early = t.timed n.correlation_id p q in
            let least = young.0 p q in
            elim o.1.is_session [
              | inl same ↦ absurd (ground (arith, early, least, same))
              | inr (w, x, _, _) ↦ ((λ z. ground (arith, x, z, t.named)), ground (arith, x))
            ]
      ]

  -- So an eviction at the bound takes a session away.
  evict_lru_shrinks :
      (m : MemoryStorage H)
      → Inv m.index
      → IsNamed m.heap m.index
      → 0 < length m.sessions
      → length (evict_lru hooks m).sessions < length m.sessions
  unfolding evict_lru remove_locked
  evict_lru_shrinks m i t h =
      let (k, in_map) = first_key m.sessions h in
      elim (list_cases m.lru_list) [
        | inl e ↦ absurd (nonempty-find m.lru_list k (ground (arith, in_map, i.same k)) e)
        | inr (n, ns, e) ↦
            let (ne, found) = victim_found m n ns i t e in
            let v = (probe m.heap max_probe m.lru_list m.index no_victim).1 in
            ground (
              arith,
              (evict_lru_oldest m i).0,
              ne,
              equal_iff v.id [],
              unlink_sessions v.id m.index,
              length-remove-lt v.id m.sessions found,
            )
      ]

  room_bound :
      (m : MemoryStorage H)
      → Inv m.index
      → IsNamed m.heap m.index
      → length m.sessions ≤ max_cache_capacity
      → length (make_room hooks m).sessions < max_cache_capacity
  room_bound m i t h = ground (arith, evict_lru_shrinks m i t)

  register_new_bound :
      (r : Registration) (now : ℕ) (m : MemoryStorage H)
      → Inv m.index
      → IsNamed m.heap m.index
      → length m.sessions ≤ max_cache_capacity
      → length (register_new hooks r now m).1.sessions ≤ max_cache_capacity
  unfolding register_new add_session link
  register_new_bound r now m i t h = ground (
    arith,
    room_bound (miss m) i t h,
    length-insert-le r.correlation_id m.next_session (make_room hooks (miss m)).sessions,
    length-insert-le r.correlation_id (make_room hooks (miss m)).next_session
        (make_room hooks (miss m)).sessions,
  )

  unlink-IsNamed :
      (heap : ℕ → Session) (id : Bytes) (x : Index) → IsNamed heap x → IsNamed heap (unlink id x)
  unlink-IsNamed heap id x t = record {
    named = ground (arith, t.named, lookup-unlink id [] x);
    timed = λ j p h. t.timed j p (ground (arith, h, lookup-unlink id j x));
  }

  -- A registration leaves at most 2,500,000 sessions, if there were no more before, every session has
  -- a non-empty ID and no session was used at the largest time that an int64 holds.
  pub register_capacity :
      (r : Registration) (now : ℕ) (m : MemoryStorage H)
      → Inv m.index
      → IsNamed m.heap m.index
      → session_count m ≤ max_cache_capacity
      → session_count (register hooks r now m).1 ≤ max_cache_capacity
  unfolding register register_internal keep_alive touch_if_sliding remove_locked session_count
  register_capacity r now m i t h =
      let gone = evicted (remove_locked hooks r.correlation_id m) in
      ground (
        arith,
        register_new_bound r now m i t,
        register_new_bound r now gone (unlink-Inv r.correlation_id m.index i)
            (unlink-IsNamed m.heap r.correlation_id m.index t),
        unlink_sessions r.correlation_id m.index,
        promote_sessions r.correlation_id m.index,
        length-remove-le r.correlation_id m.sessions,
      )
