-- ===== src/Storage/Lru.antt =====
-- The doubly linked list of Go's container/list as storage.go uses it: elements in order, the
-- front first, each with its identity (the `*list.Element`) and its `lruEntry`.
use interactsh_lite.Prelude.{
  ℕ, suc, ◌<◌, ◌≡◌, refl, ◌≢◌, Option, none, some, List, [], ◌∷◌, ◌++◌, arith, ◌==◌, if◌then◌else◌,
  Bytes, equal, equal_iff, All, All-append, sym,
}

pub record LruEntry : Type 0 where
  pub elem : ℕ
  pub correlation_id : Bytes

-- `lruList.Remove(elem)`.
unfoldable pub remove_elem : ℕ → List LruEntry → List LruEntry
remove_elem e [] = []
remove_elem e (n ∷ ns) = if n.elem == e then ns else n ∷ remove_elem e ns

-- `lruList.MoveToBack(elem)`, of an element that holds `id`.
unfoldable pub move_to_back : ℕ → Bytes → List LruEntry → List LruEntry
move_to_back e id ns = remove_elem e ns ++ (record { elem = e; correlation_id = id } ∷ [])

-- The element that holds `id`.
unfoldable pub find : Bytes → List LruEntry → Option ℕ
find id [] = none
find id (n ∷ ns) = if equal n.correlation_id id then some n.elem else find id ns

abbrev IsNot : ℕ → LruEntry → Type 0
IsNot e n = n.elem ≢ e

-- No two elements are one, and no correlation ID is held twice.
abbrev pub IsLinked : List LruEntry → Type 0
IsLinked [] = Unit {0}
IsLinked (n ∷ ns) = All (IsNot n.elem) ns × (find n.correlation_id ns ≡ none) × IsLinked ns

abbrev pub Below : ℕ → List LruEntry → Type 0
Below k = All (λ n. n.elem < k)

pub find-append :
    (id : Bytes) (ns : List LruEntry) (e : ℕ) (j : Bytes)
    → find id (ns ++ (record { elem = e; correlation_id = j } ∷ []))
      ≡ elim (find id ns) [ none ↦ if equal j id then some e else none | some x ↦ some x ]
unfolding find
find-append id [] e j = refl
find-append id (n ∷ ns) e j = ground (arith, find-append id ns e j)

find-ne : (id : Bytes) (e : ℕ) (ns : List LruEntry) → All (IsNot e) ns → find id ns ≢ some e
unfolding find
find-ne id e [] h = ground arith
find-ne id e (n ∷ ns) h = ground (arith, find-ne id e ns h.1)

-- An element is found by its ID, and once it is removed its ID is not.
pub find-remove_elem :
    (e : ℕ) (id j : Bytes) (ns : List LruEntry)
    → IsLinked ns
    → find id ns ≡ some e
    → find j (remove_elem e ns) ≡ (if equal id j then none else find j ns)
unfolding find remove_elem
find-remove_elem e id j [] l h = ground arith
find-remove_elem e id j (n ∷ ns) l h = ground (
  arith,
  find-remove_elem e id j ns l.2,
  find-ne id n.elem ns l.0,
  equal_iff id j,
  equal_iff n.correlation_id id,
  equal_iff n.correlation_id j,
)

remove_elem-All :
    (P : LruEntry → Type 0) (e : ℕ) (ns : List LruEntry) → All P ns → All P (remove_elem e ns)
unfolding remove_elem
remove_elem-All P e [] h = tt
remove_elem-All P e (n ∷ ns) h = ground (arith, h.0, h.1, remove_elem-All P e ns h.1)

find-remove_elem-none :
    (e : ℕ) (id : Bytes) (ns : List LruEntry)
    → find id ns ≡ none
    → find id (remove_elem e ns) ≡ none
unfolding find remove_elem
find-remove_elem-none e id [] h = refl
find-remove_elem-none e id (n ∷ ns) h = ground (arith, find-remove_elem-none e id ns)

pub remove_elem-IsLinked : (e : ℕ) (ns : List LruEntry) → IsLinked ns → IsLinked (remove_elem e ns)
unfolding remove_elem
remove_elem-IsLinked e [] l = tt
remove_elem-IsLinked e (n ∷ ns) l = ground (
  arith,
  l.0,
  l.1,
  l.2,
  remove_elem-IsLinked e ns l.2,
  remove_elem-All (IsNot n.elem) e ns l.0,
  find-remove_elem-none e n.correlation_id ns l.1,
)

pub remove_elem-Below : (k e : ℕ) (ns : List LruEntry) → Below k ns → Below k (remove_elem e ns)
remove_elem-Below k e ns h = remove_elem-All (λ n. n.elem < k) e ns h

-- After the removal of an element it is nowhere in the list.
pub remove_elem-absent :
    (e : ℕ) (id : Bytes) (ns : List LruEntry)
    → IsLinked ns
    → find id ns ≡ some e
    → All (IsNot e) (remove_elem e ns)
unfolding find remove_elem
remove_elem-absent e id [] l h = tt
remove_elem-absent e id (n ∷ ns) l h = ground (arith, l.0, l.1, l.2, remove_elem-absent e id ns l.2)

pub Below-absent : (k : ℕ) (ns : List LruEntry) → Below k ns → All (IsNot k) ns
Below-absent k [] h = tt
Below-absent k (n ∷ ns) h = (omega arith, Below-absent k ns h.1)

pub Below-suc : (k : ℕ) (ns : List LruEntry) → Below k ns → Below (suc k) ns
Below-suc k [] h = tt
Below-suc k (n ∷ ns) h = (omega arith, Below-suc k ns h.1)

pub find-lt : (id : Bytes) (k e : ℕ) (ns : List LruEntry) → Below k ns → find id ns ≡ some e → e < k
unfolding find
find-lt id k e [] b h = ground arith
find-lt id k e (n ∷ ns) b h = ground (arith, find-lt id k e ns b.1)

pub IsLinked-append :
    (e : ℕ) (id : Bytes) (ns : List LruEntry)
    → IsLinked ns
    → All (IsNot e) ns
    → find id ns ≡ none
    → IsLinked (ns ++ (record { elem = e; correlation_id = id } ∷ []))
unfolding find
IsLinked-append e id [] l a h = (tt, refl, tt)
IsLinked-append e id (n ∷ ns) l a h = (
  All-append (IsNot n.elem) ns _ l.0 ((λ p. a.0 (sym p)), tt),
  rw find-append
      (rw l.1 (ground (arith, equal_iff id n.correlation_id, equal_iff n.correlation_id id))),
  IsLinked-append e id ns l.2 a.1 (ground arith),
)

pub Below-append :
    (k e : ℕ) (id : Bytes) (ns : List LruEntry)
    → Below k ns
    → e < k
    → Below k (ns ++ (record { elem = e; correlation_id = id } ∷ []))
Below-append k e id ns b h = All-append (λ n. n.elem < k) ns _ b (h, tt)
