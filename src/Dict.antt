-- ===== src/Dict.antt =====
-- Python's `dict` in insertion order, over any type of keys with an equality test.
use client_py.Prelude.{
  ◌≡◌, refl, ◌≢◌, Bool, true, false, Option, none, some, List, [], ◌∷◌, arith, Eq, ◌==◌, eq_self,
  if◌then◌else◌,
}

abbrev pub Dict {ℓ κ} : Type ℓ → Type κ → Type (ℓ ⊔ κ)
Dict K V = List (K × V)

module _ {ℓ κ} {K : Type ℓ} {V : Type κ} where
  -- `list(d)` and `list(d.values())`
  unfoldable pub keys : Dict K V → List K
  keys [] = []
  keys ((j, v) ∷ d) = j ∷ keys d

  unfoldable pub values : Dict K V → List V
  values [] = []
  values ((j, v) ∷ d) = v ∷ values d

module _ {ℓ κ} {K : Type ℓ} {V : Type κ} ⦃e : Eq K⦄ where
  -- `d.get(k)`
  unfoldable pub get : K → Dict K V → Option V
  get k [] = none
  get k ((j, v) ∷ d) = if j == k then some v else get k d

  -- `d[k] = v`: a known key keeps its place.
  unfoldable pub set : K → V → Dict K V → Dict K V
  set k v [] = (k, v) ∷ []
  set k v ((j, w) ∷ d) = if j == k then (j, v) ∷ d else (j, w) ∷ set k v d

  -- `d.pop(k, None)`
  unfoldable pub remove : K → Dict K V → Dict K V
  remove k [] = []
  remove k ((j, w) ∷ d) = let rest = remove k d in if j == k then rest else (j, w) ∷ rest

  -- `{**d, **other}`, and `d.update(other)`
  unfoldable pub merge : Dict K V → Dict K V → Dict K V
  merge d [] = d
  merge d ((k, v) ∷ other) = merge (set k v d) other

  -- `k in d`
  abbrev pub contains : K → Dict K V → Bool
  contains k d = elim (get k d) [ none ↦ false | some _ ↦ true ]

  pub get-set :
      (k j : K) (v : V) (d : Dict K V) → get j (set k v d) ≡ (if k == j then some v else get j d)
  unfolding get set
  get-set k j v [] = refl
  get-set k j v ((i, w) ∷ d) =
      ground (arith, e.beq_iff k j, e.beq_iff i k, e.beq_iff i j, get-set k j v d)

  pub get-remove :
      (k j : K) (d : Dict K V) → get j (remove k d) ≡ (if k == j then none else get j d)
  unfolding get remove
  get-remove k j [] = ground arith
  get-remove k j ((i, w) ∷ d) =
      ground (arith, e.beq_iff k j, e.beq_iff i k, e.beq_iff i j, get-remove k j d)

  pub get-set_self : (k : K) (v : V) (d : Dict K V) → get k (set k v d) ≡ some v
  get-set_self k v d = simp (get-set, eq_self)

  pub get-set_ne : (k j : K) (v : V) (d : Dict K V) → k ≢ j → get j (set k v d) ≡ get j d
  get-set_ne k j v d h = ground (arith, get-set k j v d, e.beq_iff k j)

  -- A write under a key that is there keeps the order of the keys.
  pub keys-set : (k : K) (v w : V) (d : Dict K V) → get k d ≡ some w → keys (set k v d) ≡ keys d
  unfolding get set keys
  keys-set k v w [] h = cc
  keys-set k v w ((i, u) ∷ d) h = ground (arith, keys-set k v w d)
