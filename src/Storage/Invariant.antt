-- ===== src/Storage/Invariant.antt =====
-- The invariant of `memoryStorage`, kept by every method.
use interactsh_lite.Storage.Consistent.{
  IsConsistent, IsValid, lookup-unlink, unlink-IsConsistent, promote-IsConsistent,
  link-IsConsistent,
}
use interactsh_lite.Crypto.{Ctr, generate_aes_key, new_cipher}
use interactsh_lite.Storage.Tables.{Inv, unlink}
use interactsh_lite.Storage.Evict.{evict_lru, probe, no_victim, max_probe}
use interactsh_lite.Storage.Oldest.{evict_lru_oldest}
use interactsh_lite.Storage.Register.{
  Registration, register_new, keep_alive, make_room, register_internal, register,
}
use interactsh_lite.Storage.Access.{
  get_session, accept_session, recheck_session, delete_session, has_correlation_id,
  append_interaction,
}
use interactsh_lite.Storage.{
  MemoryStorage, Hooks, remove_locked, is_expired, miss, touch_if_sliding, max_cache_capacity,
}
use interactsh_lite.Prelude.{
  ℕ, ◌≡◌, sym, subst, Option, none, [], Bytes, equal, equal_refl, leb, ◌∙◌, length, lookup, arith,
  inl, inr, ◌⊎◌, Option-cases, Bool-cases,
}

module _ {H : Type 0} (hooks : Hooks H) where
  -- What an eviction does to the index.
  pub evict_lru_index :
      (m : MemoryStorage H)
      → Inv m.index
      → ((evict_lru hooks m).index ≡ m.index)
        ⊎ ((id : Bytes) × ((evict_lru hooks m).index ≡ unlink id m.index))
  unfolding evict_lru remove_locked
  evict_lru_index m i =
      let same = (evict_lru_oldest m i).0 in
      elim (Bool-cases (equal (probe m.heap max_probe m.lru_list m.index no_victim).1.id [])) [
        | inl e ↦ inl (rw e same)
        | inr e ↦ inr ((probe m.heap max_probe m.lru_list m.index no_victim).1.id, rw (e, same))
      ]

  pub evict_lru_next : (m : MemoryStorage H) → (evict_lru hooks m).next_session ≡ m.next_session
  unfolding evict_lru remove_locked
  evict_lru_next m = ground arith

  evict_lru-IsValid : (m : MemoryStorage H) → IsValid m → IsValid (evict_lru hooks m)
  evict_lru-IsValid m v = rw evict_lru_next (elim (evict_lru_index m v.inv) [
    | inl e ↦ rw e v
    | inr (id, e) ↦ rw e (unlink-IsConsistent id m.index m.next_session v)
  ])

  pub evict_lru-none :
      (m : MemoryStorage H) (id : Bytes)
      → Inv m.index
      → lookup id m.sessions ≡ none
      → lookup id (evict_lru hooks m).sessions ≡ none
  evict_lru-none m id i h = elim (evict_lru_index m i) [
    | inl e ↦ rw e h
    | inr (j, e) ↦ rw (e, lookup-unlink) (ground (arith, h))
  ]

  -- The storage after the capacity check of a registration.
  room-IsValid :
      (m : MemoryStorage H) (id : Bytes)
      → lookup id m.sessions ≡ none
      → IsValid m
      → IsValid (make_room hooks m) × (lookup id (make_room hooks m).sessions ≡ none)
  room-IsValid m id e v = elim (Bool-cases (leb max_cache_capacity (length m.sessions))) [
    | inl full ↦ rw full (evict_lru-IsValid m v, evict_lru-none m id v.inv e)
    | inr few ↦ rw few (v, e)
  ]

  register_new-IsValid :
      (r : Registration) (now : ℕ) (m : MemoryStorage H)
      → lookup r.correlation_id m.sessions ≡ none
      → IsValid m
      → IsValid (register_new hooks r now m).1
  unfolding register_new
  register_new-IsValid r now m e v =
      let (w, f) = room-IsValid (miss m) r.correlation_id e v in
      elim (Option-cases (generate_aes_key r.random)) [
        | inl a ↦ rw (a, register_new) w
        | inr (key, a) ↦ elim (Option-cases (new_cipher key)) [
          | inl b ↦ rw (a, register_new) (rw (b, register_new) w)
          | inr (block, b) ↦
              rw (a, register_new)
                (rw (b, register_new)
                  (link-IsConsistent r.correlation_id (make_room hooks (miss m)).index _ f w))
        ]
      ]

  keep_alive-IsValid :
      (r : Registration) (p now : ℕ) (m : MemoryStorage H)
      → IsValid m
      → IsValid (keep_alive r p now m).1
  unfolding keep_alive touch_if_sliding
  keep_alive-IsValid r p now m v = elim (Bool-cases (equal (m.heap p).secret_key r.secret_key)) [
    | inl e ↦ rw e (elim (Bool-cases m.sliding_ttl) [
      | inl s ↦ rw s (promote-IsConsistent r.correlation_id m.index m.next_session v)
      | inr s ↦ rw s (promote-IsConsistent r.correlation_id m.index m.next_session v)
    ])
    | inr e ↦ rw e v
  ]

  pub register-IsValid :
      (r : Registration) (now : ℕ) (m : MemoryStorage H)
      → IsValid m
      → IsValid (register hooks r now m).1
  unfolding register register_internal remove_locked
  register-IsValid r now m v = elim (Option-cases (lookup r.correlation_id m.sessions)) [
    | inl e ↦ rw (e, register_internal) (register_new-IsValid r now m e v)
    | inr (p, e) ↦
        rw (e, register_internal)
          (elim (Bool-cases (is_expired m (m.heap p) now)) [
            | inl x ↦ rw x (
                register_new-IsValid r now _
                  (lookup-unlink r.correlation_id r.correlation_id m.index ∙ rw equal_refl)
                  (unlink-IsConsistent r.correlation_id m.index m.next_session v))
            | inr x ↦ rw x (keep_alive-IsValid r p now m v)
          ])
  ]

  accept_session-IsValid :
      (id : Bytes) (p now : ℕ) (m : MemoryStorage H)
      → IsValid m
      → IsValid (accept_session id p now m).1
  unfolding accept_session touch_if_sliding
  accept_session-IsValid id p now m v = elim (Bool-cases m.sliding_ttl) [
    | inl s ↦ rw s (promote-IsConsistent id m.index m.next_session v)
    | inr s ↦ rw s (promote-IsConsistent id m.index m.next_session v)
  ]

  recheck_session-IsValid :
      (id secret : Bytes) (now : ℕ) (m : MemoryStorage H)
      → IsValid m
      → IsValid (recheck_session hooks id secret now m).1
  unfolding recheck_session remove_locked
  recheck_session-IsValid id secret now m v = elim (Option-cases (lookup id m.sessions)) [
    | inl e ↦ rw (e, recheck_session) v
    | inr (p, e) ↦
        rw (e, recheck_session)
          (elim (Bool-cases (is_expired m (m.heap p) now)) [
            | inl x ↦ rw x (unlink-IsConsistent id m.index m.next_session v)
            | inr x ↦ rw x (elim (Bool-cases (equal (m.heap p).secret_key secret)) [
              | inl s ↦ rw s (accept_session-IsValid id p now m v)
              | inr s ↦ rw s v
            ])
          ])
  ]

  pub get_session-IsValid :
      (others : MemoryStorage H → MemoryStorage H) (id secret : Bytes) (now now' : ℕ)
      (m : MemoryStorage H)
      → IsValid m
      → IsValid (others m)
      → IsValid (get_session hooks others id secret now now' m).1
  unfolding get_session
  get_session-IsValid others id secret now now' m v w = elim (Option-cases (lookup id m.sessions)) [
    | inl e ↦ rw (e, get_session) v
    | inr (p, e) ↦
        rw (e, get_session)
          (elim (Bool-cases (is_expired m (m.heap p) now)) [
            | inl x ↦ rw x (recheck_session-IsValid id secret now' (others m) w)
            | inr x ↦ rw x (elim (Bool-cases (equal (m.heap p).secret_key secret)) [
              | inl s ↦ rw s (accept_session-IsValid id p now' (others m) w)
              | inr s ↦ rw s v
            ])
          ])
  ]

  pub delete_session-IsValid :
      (id secret : Bytes) (m : MemoryStorage H)
      → IsValid m
      → IsValid (delete_session hooks id secret m).1
  unfolding delete_session remove_locked
  delete_session-IsValid id secret m v = elim (Option-cases (lookup id m.sessions)) [
    | inl e ↦ rw (e, delete_session) v
    | inr (p, e) ↦
        rw (e, delete_session)
          (elim (Bool-cases (equal (m.heap p).secret_key secret)) [
            | inl s ↦ rw s (unlink-IsConsistent id m.index m.next_session v)
            | inr s ↦ rw s v
          ])
  ]

  pub has_correlation_id-IsValid :
      (others : MemoryStorage H → MemoryStorage H) (id : Bytes) (now now' : ℕ) (m : MemoryStorage H)
      → IsValid m
      → IsValid (others m)
      → IsValid (has_correlation_id hooks others id now now' m).1
  unfolding has_correlation_id remove_locked
  has_correlation_id-IsValid others id now now' m v w = elim (Option-cases (lookup id m.sessions)) [
    | inl e ↦ rw (e, has_correlation_id) v
    | inr (p, e) ↦
        rw (e, has_correlation_id)
          (elim (Bool-cases (is_expired m (m.heap p) now)) [
            | inl x ↦ rw x (elim (Option-cases (lookup id (others m).sessions)) [
              | inl f ↦ rw (f, has_correlation_id) w
              | inr (q, f) ↦
                  rw (f, has_correlation_id)
                    (elim (Bool-cases (is_expired (others m) ((others m).heap q) now')) [
                      | inl y ↦
                          rw y (unlink-IsConsistent id (others m).index (others m).next_session w)
                      | inr y ↦ rw y w
                    ])
            ])
            | inr x ↦ rw x v
          ])
  ]

append_interaction_index :
    {H : Type 0} (ctr : Ctr) (id interaction : Bytes) (random : Option Bytes) (now : ℕ)
    (m : MemoryStorage H)
    → ((append_interaction ctr id interaction random now m).index ≡ m.index)
      × ((append_interaction ctr id interaction random now m).next_session ≡ m.next_session)
unfolding append_interaction touch_if_sliding
append_interaction_index ctr id interaction random now m = ground arith

pub append_interaction-IsValid :
    {H : Type 0} (ctr : Ctr) (id interaction : Bytes) (random : Option Bytes) (now : ℕ)
    (m : MemoryStorage H)
    → IsValid m
    → IsValid (append_interaction ctr id interaction random now m)
append_interaction-IsValid ctr id interaction random now m v =
    let e = append_interaction_index ctr id interaction random now m in
    let n = (append_interaction ctr id interaction random now m).next_session in
    subst (λ x. IsConsistent x n) (sym e.0) (subst (IsConsistent m.index) (sym e.1) v)
