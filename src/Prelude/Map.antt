-- ===== src/Prelude/Map.antt =====
-- Go maps as association lists: the list's order stands for the order in which a `range` meets the
-- keys, which Go leaves open, so a theorem about every list is a theorem about every such order.
use mathlib.Core.Path.{◌≡◌, refl}
use mathlib.Core.Option.{Option, none, some}
use mathlib.Core.List.{List, [], ◌∷◌}
use native.Mathlib.Omega.{arith}
use kafka3o_gateway.Prelude.Tests.{Comparable, ◌==◌, if◌then◌else◌, eqb_refl}

abbrev pub Map {ℓ κ} : Type ℓ → Type κ → Type (ℓ ⊔ κ)
Map K V = List (K × V)

-- The keys in the order of a `range`.
abbrev pub keys {ℓ κ} : {K : Type ℓ} {V : Type κ} → Map K V → List K
keys [] = []
keys ((k, v) ∷ rest) = k ∷ keys rest

module _ {ℓ κ} {K : Type ℓ} {V : Type κ} ⦃e : Comparable K⦄ where
  -- `v, ok := m[k]`
  unfoldable pub lookup : K → Map K V → Option V
  lookup key [] = none
  lookup key ((i, v) ∷ rest) = if i == key then some v else lookup key rest

  -- `m[k]`, with the value type's zero where the key is missing
  unfoldable pub get_or : V → K → Map K V → V
  get_or z key [] = z
  get_or z key ((i, v) ∷ rest) = if i == key then v else get_or z key rest

  -- `m[k] = v`
  unfoldable pub insert : K → V → Map K V → Map K V
  insert key v [] = (key, v) ∷ []
  insert key v ((i, old) ∷ rest) =
      if i == key then (key, v) ∷ rest else (i, old) ∷ insert key v rest

  -- The new key has the new value, every other key what it had.
  pub lookup-insert :
      (key asked : K) (v : V) (entries : Map K V)
      → lookup asked (insert key v entries)
        ≡ (if key == asked then some v else lookup asked entries)
  unfolding lookup insert
  lookup-insert key asked v [] = refl
  lookup-insert key asked v ((i, old) ∷ rest) = ground (
    arith,
    lookup-insert key asked v rest,
    e.equal_iff i asked,
    e.equal_iff i key,
    e.equal_iff key asked,
  )

  pub get_or-insert :
      (z : V) (key asked : K) (v : V) (entries : Map K V)
      → get_or z asked (insert key v entries) ≡ (if key == asked then v else get_or z asked entries)
  unfolding get_or insert
  get_or-insert z key asked v [] = refl
  get_or-insert z key asked v ((i, old) ∷ rest) = ground (
    arith,
    get_or-insert z key asked v rest,
    e.equal_iff i asked,
    e.equal_iff i key,
    e.equal_iff key asked,
  )

  pub get_or-insert_self :
      (z : V) (key : K) (v : V) (entries : Map K V) → get_or z key (insert key v entries) ≡ v
  get_or-insert_self z key v entries = rw (get_or-insert z key key v entries, eqb_refl key)

  -- `m[key(x)] = value(x)` for each `x` in turn.
  unfoldable pub insert_each {μ} : {A : Type μ} → (A → K) → (A → V) → List A → Map K V → Map K V
  insert_each key value [] m = m
  insert_each key value (x ∷ xs) m = insert_each key value xs (insert (key x) (value x) m)
