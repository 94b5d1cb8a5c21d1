-- ===== src/Storage/Tables.antt =====
-- The maps of `memoryStorage` that name sessions: `sessions`, `lruList` and `lruMap` of storage.go,
-- with the primitive changes that its methods make to them. A session is named by its pointer.
use interactsh_lite.Prelude.{
  ℕ, suc, ◌≡◌, refl, none, some, List, [], ◌∷◌, ◌++◌, arith, Bytes, equal_iff, Map, lookup, insert,
  remove, lookup-insert, lookup-remove, is_some, Option-cases, inl, inr,
}
use interactsh_lite.Storage.Lru.{
  LruEntry, remove_elem, move_to_back, find, IsLinked, Below, find-append, find-remove_elem,
  remove_elem-IsLinked, remove_elem-Below, remove_elem-absent, Below-absent, Below-append,
  Below-suc, find-lt, IsLinked-append,
}

pub record Index : Type 0 where
  pub sessions : Map ℕ
  pub lru_list : List LruEntry
  pub lru_map : Map ℕ
  pub next_elem : ℕ

unfoldable pub empty : Index
empty = record { sessions = []; lru_list = []; lru_map = []; next_elem = 0 }

-- `removeLocked`, as far as the maps go.
unfoldable pub unlink : Bytes → Index → Index
unlink id x = elim (lookup id x.lru_map) [
  | none ↦ record x { sessions = remove id x.sessions }
  | some e ↦ record x {
    sessions = remove id x.sessions;
    lru_list = remove_elem e x.lru_list;
    lru_map = remove id x.lru_map;
  }
]

-- `promoteLRU`.
unfoldable pub promote : Bytes → Index → Index
promote id x = elim (lookup id x.lru_map) [
  | none ↦ x
  | some e ↦ record x { lru_list = move_to_back e id x.lru_list }
]

-- The end of `registerInternal`: the session is stored and pushed to the back.
unfoldable pub link : Bytes → ℕ → Index → Index
link id session x = record x {
  sessions = insert id session x.sessions;
  lru_list = x.lru_list ++ (record { elem = x.next_elem; correlation_id = id } ∷ []);
  lru_map = insert id x.next_elem x.lru_map;
  next_elem = suc x.next_elem;
}

-- The cleanup of a stale entry in `evictLRU`.
unfoldable pub drop_stale : LruEntry → Index → Index
drop_stale n x = record x {
  lru_list = remove_elem n.elem x.lru_list;
  lru_map = remove n.correlation_id x.lru_map;
}

-- The list holds each session's ID once, `lruMap` leads to its element, and no other ID is there.
pub record Inv (x : Index) : Type 0 where
  pub linked : IsLinked x.lru_list
  pub below : Below x.next_elem x.lru_list
  pub table : (id : Bytes) → lookup id x.lru_map ≡ find id x.lru_list
  pub same : (id : Bytes) → is_some (lookup id x.sessions) ≡ is_some (find id x.lru_list)

pub empty-Inv : Inv empty
unfolding empty lookup find
empty-Inv = record { linked = tt; below = tt; table = λ id. refl; same = λ id. refl }

pub unlink-Inv : (id : Bytes) (x : Index) → Inv x → Inv (unlink id x)
unfolding unlink
unlink-Inv id x v = elim (Option-cases (lookup id x.lru_map)) [
  | inl e ↦
      rw (e, unlink)
        (record {
          linked = v.linked;
          below = v.below;
          table = v.table;
          same = λ j.
              ground
                (arith, e, v.table id, v.same j, lookup-remove id j x.sessions, equal_iff id j);
        })
  | inr (n, e) ↦
      rw (e, unlink)
        (record {
          linked = remove_elem-IsLinked n x.lru_list v.linked;
          below = remove_elem-Below x.next_elem n x.lru_list v.below;
          table = λ j. ground (
            arith,
            e,
            v.table id,
            v.table j,
            lookup-remove id j x.lru_map,
            find-remove_elem n id j x.lru_list v.linked,
          );
          same = λ j. ground (
            arith,
            e,
            v.table id,
            v.same j,
            lookup-remove id j x.sessions,
            find-remove_elem n id j x.lru_list v.linked,
          );
        })
]

pub promote-Inv : (id : Bytes) (x : Index) → Inv x → Inv (promote id x)
unfolding promote move_to_back
promote-Inv id x v = elim (Option-cases (lookup id x.lru_map)) [
  | inl e ↦ rw (e, promote) v
  | inr (n, e) ↦
      let gone = find-remove_elem n id id x.lru_list v.linked in
      rw (e, promote)
        (record {
          linked =
              IsLinked-append n id (remove_elem n x.lru_list)
                (remove_elem-IsLinked n x.lru_list v.linked)
                (remove_elem-absent n id x.lru_list v.linked (ground (arith, v.table id)))
                (ground (arith, v.table id, gone, equal_iff id id));
          below =
              Below-append x.next_elem n id (remove_elem n x.lru_list)
                (remove_elem-Below x.next_elem n x.lru_list v.below)
                (find-lt id x.next_elem n x.lru_list v.below (ground (arith, v.table id)));
          table = λ j. ground (
            arith,
            e,
            v.table id,
            v.table j,
            find-append j (remove_elem n x.lru_list) n id,
            equal_iff id j,
            find-remove_elem n id j x.lru_list v.linked,
          );
          same = λ j. ground (
            arith,
            e,
            v.table id,
            v.same j,
            find-append j (remove_elem n x.lru_list) n id,
            equal_iff id j,
            find-remove_elem n id j x.lru_list v.linked,
          );
        })
]

pub link-Inv :
    (id : Bytes) (session : ℕ) (x : Index)
    → lookup id x.sessions ≡ none
    → Inv x
    → Inv (link id session x)
unfolding link
link-Inv id session x h v = record {
  linked =
      IsLinked-append x.next_elem id x.lru_list v.linked
        (Below-absent x.next_elem x.lru_list v.below) (ground (arith, v.same id));
  below =
      Below-append (suc x.next_elem) x.next_elem id x.lru_list
        (Below-suc x.next_elem x.lru_list v.below) (omega arith);
  table = λ j. ground (
    arith,
    v.table j,
    v.same id,
    lookup-insert id j x.next_elem x.lru_map,
    find-append j x.lru_list x.next_elem id,
    equal_iff id j,
  );
  same = λ j. ground (
    arith,
    v.same j,
    v.same id,
    lookup-insert id j session x.sessions,
    find-append j x.lru_list x.next_elem id,
    equal_iff id j,
  );
}
