-- ===== src/Storage/Oldest.antt =====
-- What `evictLRU` removes.
use interactsh_lite.Storage.Tables.{Index, Inv}
use interactsh_lite.Storage.Lru.{LruEntry, find}
use interactsh_lite.Storage.Evict.{Victim, probe, closer, max_probe, no_victim}
use interactsh_lite.Storage.{Session, MemoryStorage}
use interactsh_lite.Prelude.{
  ℕ, zero, suc, ◌≤◌, ◌<◌, ◌≡◌, refl, sym, subst, true, some, List, [], ◌∷◌, ltb, Bytes, lookup,
  arith, is_some, All, take, inl, inr, ◌⊎◌, Option-cases, Bool-cases, equal_iff,
}

-- Every element of the list has a session.
abbrev pub Found : Index → List LruEntry → Type 0
Found x = All (λ n. is_some (lookup n.correlation_id x.sessions) ≡ true)

found_weaken :
    (n : LruEntry) (ns ms : List LruEntry)
    → All (λ m. is_some (find m.correlation_id ns) ≡ true) ms
    → All (λ m. is_some (find m.correlation_id (n ∷ ns)) ≡ true) ms
unfolding find
found_weaken n ns [] h = tt
found_weaken n ns (m ∷ ms) h = (ground (arith, h.0), found_weaken n ns ms h.1)

found_self : (ns : List LruEntry) → All (λ m. is_some (find m.correlation_id ns) ≡ true) ns
unfolding find
found_self [] = tt
found_self (n ∷ ns) = (
  ground (arith, equal_iff n.correlation_id n.correlation_id),
  found_weaken n ns ns (found_self ns),
)

Found-sessions :
    (x : Index) (ns : List LruEntry)
    → Inv x
    → All (λ m. is_some (find m.correlation_id x.lru_list) ≡ true) ns
    → Found x ns
Found-sessions x [] v h = tt
Found-sessions x (n ∷ ns) v h =
    (ground (arith, v.same n.correlation_id, h.0), Found-sessions x ns v h.1)

pub Inv-Found : (x : Index) → Inv x → Found x x.lru_list
Inv-Found x v = Found-sessions x x.lru_list v (found_self x.lru_list)

-- `v` was reached from `v₀`: it is no younger, and if it is another it is a session's own time.
pub record Candidate (heap : ℕ → Session) (x : Index) (start v : Victim) : Type 0 where
  pub older : v.time ≤ start.time
  pub is_session :
      (v ≡ start)
      ⊎ ((p : ℕ) × (lookup v.id x.sessions ≡ some p)
          × ((heap p).last_access ≡ v.time)
          × (v.time < start.time))

abbrev pub NoYounger : (ℕ → Session) → Index → Victim → LruEntry → Type 0
NoYounger heap x v n =
    (p : ℕ) → lookup n.correlation_id x.sessions ≡ some p → v.time ≤ (heap p).last_access

abbrev Least : (ℕ → Session) → ℕ → List LruEntry → Index → Victim → Index × Victim → Type 0
Least heap k ns x v (x', w) = (x' ≡ x) × Candidate heap x v w × All (NoYounger heap x w) (take k ns)

closer-Candidate :
    (heap : ℕ → Session) (x : Index) (v w : Victim) (id : Bytes) (p : ℕ)
    → lookup id x.sessions ≡ some p
    → ltb (heap p).last_access v.time ≡ true
    → Candidate heap x (record { id = id; time = (heap p).last_access }) w
    → Candidate heap x v w
closer-Candidate heap x v w id p e t c = record {
  older = ground (arith, c.older);
  is_session = inr (elim c.is_session [
    | inl same ↦ (p, cc (same, e), cc same, ground (arith, same))
    | inr (q, a, b, l) ↦ (q, a, b, ground arith)
  ]);
}

closer-le : (t : ℕ) (id : Bytes) (v : Victim) → (closer t id v).time ≤ t
closer-le t id v = ground arith

probe-some :
    (heap : ℕ → Session) (k : ℕ) (n : LruEntry) (ns : List LruEntry) (x : Index) (v : Victim)
    {p : ℕ}
    → lookup n.correlation_id x.sessions ≡ some p
    → probe heap (suc k) (n ∷ ns) x v
      ≡ probe heap k ns x (closer (heap p).last_access n.correlation_id v)
unfolding probe
probe-some heap k n ns x v e = rw (e, probe)

Least-cons :
    (heap : ℕ → Session) (k : ℕ) (n : LruEntry) (ns : List LruEntry) (x : Index) (v : Victim)
    (p : ℕ) (r : Index × Victim)
    → lookup n.correlation_id x.sessions ≡ some p
    → Least heap k ns x (closer (heap p).last_access n.correlation_id v) r
    → Least heap (suc k) (n ∷ ns) x v r
Least-cons heap k n ns x v p (x', w) e ih = (
  ih.0,
  elim (Bool-cases (ltb (heap p).last_access v.time)) [
    | inl t ↦ closer-Candidate heap x v w n.correlation_id p e t (rw t at ih.1)
    | inr t ↦ rw t at ih.1
  ],
  (
    (λ q h. ground (arith, ih.1.older, e, h, closer-le (heap p).last_access n.correlation_id v)),
    ih.2,
  ),
)

probe-Least :
    (heap : ℕ → Session) (k : ℕ) (ns : List LruEntry) (x : Index) (v : Victim)
    → Found x ns
    → Least heap k ns x v (probe heap k ns x v)
probe-Least heap zero ns x v f =
    unfold probe in (refl, record { older = omega arith; is_session = inl refl }, tt)
probe-Least heap (suc k) [] x v f =
    unfold probe in (refl, record { older = omega arith; is_session = inl refl }, tt)
probe-Least heap (suc k) (n ∷ ns) x v f = elim (Option-cases (lookup n.correlation_id x.sessions)) [
  | inl e ↦ absurd (ground (arith, f.0))
  | inr (p, e) ↦ subst (Least heap (suc k) (n ∷ ns) x v) (sym (probe-some heap k n ns x v e)) (
      Least-cons heap k n ns x v p _ e
        (probe-Least heap k ns x (closer (heap p).last_access n.correlation_id v) f.1))
]

-- In a consistent storage `evictLRU` meets no stale element, and its victim, if it has one, is the
-- ID of a session that was used no later than those of the first eight elements. It has none only
-- if none of these was used before the largest time.
pub evict_lru_oldest :
    {H : Type 0} (m : MemoryStorage H)
    → Inv m.index
    → let (x, v) = probe m.heap max_probe m.lru_list m.index no_victim in
      (x ≡ m.index)
      × Candidate m.heap m.index no_victim v
      × All (NoYounger m.heap m.index v) (take max_probe m.lru_list)
evict_lru_oldest m i =
    probe-Least m.heap max_probe m.lru_list m.index no_victim (Inv-Found m.index i)
