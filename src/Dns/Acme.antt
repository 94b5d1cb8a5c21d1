-- ===== src/Dns/Acme.antt =====
-- `acmeStore` of interactsh-srv/oobsrv/dns.go: the values of pending DNS-01 challenges by name.
use interactsh_lite.Prelude.Text.{Unicode, to_lower, cut_suffix}
use interactsh_lite.Prelude.{
  Bool, true, false, not, ◌&&◌, ◌||◌, some, List, [], ◌∷◌, ◌++◌, if◌then◌else◌, Bytes, equal,
  equal_iff, Map, lookup, insert, remove, lookup-insert, lookup-remove, get_or, any, length, ◌==◌,
  ◌≡◌, ◌≢◌, refl, sym, subst, arith, Bool-cases, inl, inr,
}

-- `strings.TrimSuffix`.
abbrev pub trim_suffix : Bytes → Bytes → Bytes
trim_suffix s suffix = get_or s (cut_suffix s suffix)

unfoldable pub normalize_fqdn : Unicode → Bytes → Bytes
normalize_fqdn u fqdn = trim_suffix (to_lower u fqdn) (b'.' ∷ [])

abbrev pub AcmeStore : Type 0
AcmeStore = Map (List Bytes)

abbrev pub contains : List Bytes → Bytes → Bool
contains values value = any (λ v. equal v value) values

-- `slices.DeleteFunc(values, func(v string) bool { return v == value })`
abbrev pub delete_value : Bytes → List Bytes → List Bytes
delete_value value [] = []
delete_value value (v ∷ vs) =
    let rest = delete_value value vs in if equal v value then rest else v ∷ rest

-- `s.records[fqdn]`: nil without the key.
abbrev pub values_at : Bytes → AcmeStore → List Bytes
values_at name s = get_or [] (lookup name s)

module _ (u : Unicode) where
  unfoldable pub acme_add : Bytes → Bytes → AcmeStore → AcmeStore
  unfolding normalize_fqdn
  acme_add fqdn value s =
      let name = normalize_fqdn u fqdn in
      if not (contains (values_at name s) value)
      then insert name (values_at name s ++ (value ∷ [])) s
      else s

  unfoldable pub acme_get : Bytes → AcmeStore → List Bytes
  unfolding normalize_fqdn
  acme_get fqdn s = values_at (normalize_fqdn u fqdn) s

  unfoldable pub acme_delete : Bytes → Bytes → AcmeStore → AcmeStore
  unfolding normalize_fqdn
  acme_delete fqdn value s =
      let name = normalize_fqdn u fqdn in
      let values = delete_value value (values_at name s) in
      if length values == 0 then remove name s else insert name values s

contains_empty : (vs : List Bytes) (w : Bytes) → (length vs == 0) ≡ true → contains vs w ≡ false
contains_empty [] w e = refl
contains_empty (v ∷ vs) w e = ground (arith, e)

contains-append :
    (vs : List Bytes) (v w : Bytes) → contains (vs ++ (v ∷ [])) w ≡ (contains vs w || equal v w)
contains-append [] v w = ground arith
contains-append (x ∷ vs) v w = ground (arith, contains-append vs v w)

contains-delete_value :
    (vs : List Bytes) (v w : Bytes)
    → contains (delete_value v vs) w ≡ (contains vs w && not (equal v w))
contains-delete_value [] v w = refl
contains-delete_value (x ∷ vs) v w =
    ground (arith, contains-delete_value vs v w, equal_iff x v, equal_iff x w, equal_iff v w)

-- Each value of a name stands once.
abbrev pub IsDistinct : List Bytes → Type 0
IsDistinct [] = Unit
IsDistinct (v ∷ vs) = (contains vs v ≡ false) × IsDistinct vs

IsDistinct-append :
    (vs : List Bytes) (v : Bytes)
    → IsDistinct vs
    → contains vs v ≡ false
    → IsDistinct (vs ++ (v ∷ []))
IsDistinct-append [] v d h = (refl, tt)
IsDistinct-append (x ∷ vs) v d h = (
  ground (arith, contains-append vs v x, equal_iff x v, equal_iff v x, d.0),
  IsDistinct-append vs v d.1 (ground arith),
)

IsDistinct-delete_value :
    (vs : List Bytes) (v : Bytes) → IsDistinct vs → IsDistinct (delete_value v vs)
IsDistinct-delete_value [] v d = tt
IsDistinct-delete_value (x ∷ vs) v d = elim (Bool-cases (equal x v)) [
  | inl e ↦ rw e (IsDistinct-delete_value vs v d.1)
  | inr e ↦
      rw e (ground (arith, contains-delete_value vs v x, d.0), IsDistinct-delete_value vs v d.1)
]

-- No name has a value twice, and no name is left with no value.
pub record IsValid (s : AcmeStore) : Type 0 where
  pub distinct : (name : Bytes) → IsDistinct (values_at name s)
  pub inhabited : (name : Bytes) → lookup name s ≢ some []

values_at-insert :
    (k j : Bytes) (vs : List Bytes) (s : AcmeStore)
    → values_at j (insert k vs s) ≡ (if equal k j then vs else values_at j s)
values_at-insert k j vs s = ground (arith, lookup-insert k j vs s)

values_at-remove :
    (k j : Bytes) (s : AcmeStore)
    → values_at j (remove k s) ≡ (if equal k j then [] else values_at j s)
values_at-remove k j s = ground (arith, lookup-remove k j s)

insert-IsValid :
    (k : Bytes) (vs : List Bytes) (s : AcmeStore)
    → IsDistinct vs
    → vs ≢ []
    → IsValid s
    → IsValid (insert k vs s)
insert-IsValid k vs s d n v = record {
  distinct = λ j.
      subst IsDistinct (sym (values_at-insert k j vs s))
        (elim (Bool-cases (equal k j)) [ inl e ↦ rw e d | inr e ↦ rw e (v.distinct j) ]);
  inhabited = λ j. ground (arith, lookup-insert k j vs s, v.inhabited j, n);
}

remove-IsValid : (k : Bytes) (s : AcmeStore) → IsValid s → IsValid (remove k s)
remove-IsValid k s v = record {
  distinct = λ j.
      subst IsDistinct (sym (values_at-remove k j s))
        (elim (Bool-cases (equal k j)) [ inl e ↦ rw e tt | inr e ↦ rw e (v.distinct j) ]);
  inhabited = λ j. ground (arith, lookup-remove k j s, v.inhabited j);
}

append-inhabited : (vs : List Bytes) (v : Bytes) → (vs ++ (v ∷ [])) ≢ []
append-inhabited [] v = λ e. cc
append-inhabited (x ∷ vs) v = λ e. cc

module _ (u : Unicode) where
  -- After `Add` a name has the value if it had it before, or if name and value are those added.
  acme_add_lem :
      (fqdn other value w : Bytes) (s : AcmeStore)
      → contains (acme_get u other (acme_add u fqdn value s)) w ≡ (
          contains (acme_get u other s) w
          || (equal (normalize_fqdn u fqdn) (normalize_fqdn u other) && equal value w))
  unfolding acme_add acme_get
  acme_add_lem fqdn other value w s =
      let k = normalize_fqdn u fqdn in
      let j = normalize_fqdn u other in
      ground (
        arith,
        values_at-insert k j (values_at k s ++ (value ∷ [])) s,
        contains-append (values_at k s) value w,
        equal_iff k j,
        equal_iff value w,
      )

  -- After `Delete` a name has the values that it had, but for the value deleted from the name.
  acme_delete_lem :
      (fqdn other value w : Bytes) (s : AcmeStore)
      → contains (acme_get u other (acme_delete u fqdn value s)) w ≡ (
          contains (acme_get u other s) w
          && not (equal (normalize_fqdn u fqdn) (normalize_fqdn u other) && equal value w))
  unfolding acme_delete acme_get
  acme_delete_lem fqdn other value w s =
      let k = normalize_fqdn u fqdn in
      let j = normalize_fqdn u other in
      ground (
        arith,
        values_at-insert k j (delete_value value (values_at k s)) s,
        values_at-remove k j s,
        contains-delete_value (values_at k s) value w,
        contains_empty (delete_value value (values_at k s)) w,
        equal_iff k j,
        equal_iff value w,
      )

  pub acme_add-IsValid :
      (fqdn value : Bytes) (s : AcmeStore) → IsValid s → IsValid (acme_add u fqdn value s)
  unfolding acme_add
  acme_add-IsValid fqdn value s v =
      let k = normalize_fqdn u fqdn in
      elim (Bool-cases (contains (values_at k s) value)) [
        | inl e ↦ rw e v
        | inr e ↦ rw e (
            insert-IsValid k (values_at k s ++ (value ∷ [])) s
              (IsDistinct-append (values_at k s) value (v.distinct k) e)
              (append-inhabited (values_at k s) value) v)
      ]

  pub acme_delete-IsValid :
      (fqdn value : Bytes) (s : AcmeStore) → IsValid s → IsValid (acme_delete u fqdn value s)
  unfolding acme_delete
  acme_delete-IsValid fqdn value s v =
      let k = normalize_fqdn u fqdn in
      let vs = delete_value value (values_at k s) in
      elim (Bool-cases (length vs == 0)) [
        | inl e ↦ rw e (remove-IsValid k s v)
        | inr e ↦ rw e (
            insert-IsValid k vs s (IsDistinct-delete_value (values_at k s) value (v.distinct k))
              (λ n. ground (arith, n, e)) v)
      ]

-- A call of the store.
pub data Change : Type 0 where
  adds : Bytes → Bytes → Change
  deletes : Bytes → Bytes → Change

abbrev pub changed : Unicode → List Change → AcmeStore → AcmeStore
changed u [] s = s
changed u (adds fqdn value ∷ cs) s = changed u cs (acme_add u fqdn value s)
changed u (deletes fqdn value ∷ cs) s = changed u cs (acme_delete u fqdn value s)

changed-IsValid :
    (u : Unicode) (cs : List Change) (s : AcmeStore) → IsValid s → IsValid (changed u cs s)
changed-IsValid u [] s v = v
changed-IsValid u (adds fqdn value ∷ cs) s v =
    changed-IsValid u cs (acme_add u fqdn value s) (acme_add-IsValid u fqdn value s v)
changed-IsValid u (deletes fqdn value ∷ cs) s v =
    changed-IsValid u cs (acme_delete u fqdn value s) (acme_delete-IsValid u fqdn value s v)

-- Whatever is added to a new store and deleted from it, no name has a value twice, and a name with
-- no value has no entry.
acme_store-IsValid : (u : Unicode) (cs : List Change) → IsValid (changed u cs [])
unfolding lookup
acme_store-IsValid u cs =
    changed-IsValid u cs [] (record { distinct = λ name. tt; inhabited = λ name. ground arith })
