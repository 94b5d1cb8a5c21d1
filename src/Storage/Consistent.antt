-- ===== src/Storage/Consistent.antt =====
-- The invariant of `memoryStorage`, and that it is kept by the changes of the index.
use interactsh_lite.Storage.Tables.{
  Index, Inv, unlink, promote, link, unlink-Inv, promote-Inv, link-Inv,
}
use interactsh_lite.Storage.{MemoryStorage}
use interactsh_lite.Prelude.{
  ℕ, suc, ◌<◌, ◌≡◌, refl, none, some, Bytes, equal, equal_iff, lookup, remove, lookup-insert,
  lookup-remove, arith, if◌then◌else◌, if◌then◌else◌,
}

-- The index is consistent, its pointers were allocated, and no two IDs share a session.
pub record IsConsistent (x : Index) (next : ℕ) : Type 0 where
  pub inv : Inv x
  pub allocated : (id : Bytes) (p : ℕ) → lookup id x.sessions ≡ some p → p < next
  pub separate :
      (id j : Bytes) (p : ℕ) → lookup id x.sessions ≡ some p → lookup j x.sessions ≡ some p → id ≡ j

abbrev pub IsValid : {H : Type 0} → MemoryStorage H → Type 0
IsValid m = IsConsistent m.index m.next_session

pub unlink_sessions : (id : Bytes) (x : Index) → (unlink id x).sessions ≡ remove id x.sessions
unfolding unlink
unlink_sessions id x = ground arith

pub promote_sessions : (id : Bytes) (x : Index) → (promote id x).sessions ≡ x.sessions
unfolding promote
promote_sessions id x = ground arith

pub lookup-unlink :
    (id j : Bytes) (x : Index)
    → lookup j (unlink id x).sessions ≡ (if equal id j then none else lookup j x.sessions)
lookup-unlink id j x = rw unlink_sessions (lookup-remove id j x.sessions)

pub unlink-IsConsistent :
    (id : Bytes) (x : Index) (n : ℕ) → IsConsistent x n → IsConsistent (unlink id x) n
unlink-IsConsistent id x n v = record {
  inv = unlink-Inv id x v.inv;
  allocated = λ j p h. v.allocated j p (ground (arith, lookup-unlink id j x, h));
  separate = λ i j p h k.
      v.separate i j p (ground (arith, lookup-unlink id i x, h))
        (ground (arith, lookup-unlink id j x, k));
}

pub promote-IsConsistent :
    (id : Bytes) (x : Index) (n : ℕ) → IsConsistent x n → IsConsistent (promote id x) n
promote-IsConsistent id x n v = record {
  inv = promote-Inv id x v.inv;
  allocated = λ j p h. v.allocated j p (rw promote_sessions at h);
  separate = λ i j p h k. v.separate i j p (rw promote_sessions at h) (rw promote_sessions at k);
}

pub link-IsConsistent :
    (id : Bytes) (x : Index) (n : ℕ)
    → lookup id x.sessions ≡ none
    → IsConsistent x n
    → IsConsistent (link id n x) (suc n)
unfolding link
link-IsConsistent id x n e v = record {
  inv = unfold link in link-Inv id n x e v.inv;
  allocated = λ j p h. ground (arith, h, v.allocated j p, lookup-insert id j n x.sessions);
  separate = λ i j p h k. ground (
    arith,
    h,
    k,
    v.separate i j p,
    v.allocated i p,
    v.allocated j p,
    lookup-insert id i n x.sessions,
    lookup-insert id j n x.sessions,
    equal_iff id i,
    equal_iff id j,
  );
}

pub lookup-promote :
    (id j : Bytes) (x : Index) → lookup j (promote id x).sessions ≡ lookup j x.sessions
lookup-promote id j x = rw promote_sessions refl

pub lookup-link :
    (id j : Bytes) (p : ℕ) (x : Index)
    → lookup j (link id p x).sessions ≡ (if equal id j then some p else lookup j x.sessions)
unfolding link
lookup-link id j p x = lookup-insert id j p x.sessions
