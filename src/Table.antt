-- ===== src/Table.antt =====
-- Go's `map[string]V` as an association list. A range over a map visits its entries in an order that
-- Go leaves open; here it is the order of the list.
use redis_in_go.Prelude.{◌≡◌, refl, false, List, [], ◌∷◌, Option, none, some, arith, if◌then◌else◌}
use redis_in_go.Text.{Bytes, str_eq, str_eq_iff, str_eq_refl}

abbrev pub Table {ℓ} : Type ℓ → Type ℓ
Table V = List (Bytes × V)

module _ {ℓ} {V : Type ℓ} where
  abbrev pub empty : Table V
  empty = []

  -- v, ok := m[k]
  unfoldable pub get : Table V → Bytes → Option V
  get [] k = none
  get ((j, v) ∷ m) k = if str_eq j k then some v else get m k

  -- m[k] = v
  unfoldable pub put : Table V → Bytes → V → Table V
  put [] k v = (k, v) ∷ []
  put ((j, w) ∷ m) k v = if str_eq j k then (j, v) ∷ m else (j, w) ∷ put m k v

  -- delete(m, k)
  unfoldable pub remove : Table V → Bytes → Table V
  remove [] k = []
  remove ((j, w) ∷ m) k = let rest = remove m k in if str_eq j k then rest else (j, w) ∷ rest

  pub get-put :
      (m : Table V) (k j : Bytes) (v : V)
      → get (put m k v) j ≡ (if str_eq k j then some v else get m j)
  unfolding get put
  get-put [] k j v = refl
  get-put ((i, w) ∷ m) k j v =
      ground (arith, str_eq_iff i k, str_eq_iff i j, str_eq_iff k j, get-put m k j v)

  pub get-remove :
      (m : Table V) (k j : Bytes) → get (remove m k) j ≡ (if str_eq k j then none else get m j)
  unfolding get remove
  get-remove [] k j = ground arith
  get-remove ((i, w) ∷ m) k j =
      ground (arith, str_eq_iff i k, str_eq_iff i j, str_eq_iff k j, get-remove m k j)

  pub get-put_self : (m : Table V) (k : Bytes) (v : V) → get (put m k v) k ≡ some v
  get-put_self m k v = rw (get-put, str_eq_refl)

  pub get-remove_self : (m : Table V) (k : Bytes) → get (remove m k) k ≡ none
  get-remove_self m k = rw (get-remove, str_eq_refl)

  pub get-put_ne :
      (m : Table V) (k j : Bytes) (v : V) → str_eq k j ≡ false → get (put m k v) j ≡ get m j
  get-put_ne m k j v h = rw (get-put, h)

  pub get-remove_ne :
      (m : Table V) (k j : Bytes) → str_eq k j ≡ false → get (remove m k) j ≡ get m j
  get-remove_ne m k j h = rw (get-remove, h)

  -- m[k] where the zero value is `v`
  unfoldable pub get_or : Table V → Bytes → V → V
  get_or m k v = elim (get m k) [ none ↦ v | some w ↦ w ]

module _ {ℓ} {V : Type ℓ} where
  pub get_or-put :
      (m : Table V) (k j : Bytes) (v d : V)
      → get_or (put m k v) j d ≡ (if str_eq k j then v else get_or m j d)
  unfolding get_or
  get_or-put m k j v d = ground (arith, get-put m k j v)

  pub get_or-remove :
      (m : Table V) (k j : Bytes) (d : V)
      → get_or (remove m k) j d ≡ (if str_eq k j then d else get_or m j d)
  unfolding get_or
  get_or-remove m k j d = ground (arith, get-remove m k j)

  pub get_or-put_self : (m : Table V) (k : Bytes) (v d : V) → get_or (put m k v) k d ≡ v
  get_or-put_self m k v d = rw (get_or-put, str_eq_refl)

pub ruleset table_laws = (get-put, get-remove, get-put_self, get-remove_self, str_eq_refl)
