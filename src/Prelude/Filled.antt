-- ===== src/Prelude/Filled.antt =====
-- Maps that a loop over a list fills: what a lookup finds in them afterwards.
use mathlib.Core.Path.{◌≡◌, refl, ◌∙◌}
use mathlib.Core.Bool.{Bool, true, false}
use mathlib.Core.Option.{none, some}
use mathlib.Core.List.{List, [], ◌∷◌, map}
use native.Mathlib.Omega.{arith}
use kafka3o_gateway.Prelude.Tests.{if◌then◌else◌, Comparable, eqb_refl}
use kafka3o_gateway.Prelude.Lists.{All, keep}
use kafka3o_gateway.Prelude.Map.{Map, keys, lookup, get_or, insert, insert_each, lookup-insert}
use kafka3o_gateway.Prelude.Sort.{Order, insert_by, sort_by}
use kafka3o_gateway.Prelude.Sort.Unique.{has}

module _ {K V : Type 0} ⦃o : Order K⦄ ⦃e : Comparable K⦄ where
  -- A lookup finds the keys, with the values that `m[k]` reads.
  pub lookup-keys :
      (z : V) (k : K) (m : Map K V)
      → lookup k m ≡ (if has k (keys m) then some (get_or z k m) else none)
  unfolding lookup get_or has
  lookup-keys z k [] = refl
  lookup-keys z k ((i, v) ∷ rest) = ground (arith, lookup-keys z k rest)

  pub lookup-only_keys :
      (z : V) (k : K) (m : Map K V) → (if has k (keys m) then lookup k m else none) ≡ lookup k m
  lookup-only_keys z k m = ground (arith, lookup-keys z k m)

  pub lookup-some :
      (z : V) (k : K) (m : Map K V) → has k (keys m) ≡ true → lookup k m ≡ some (get_or z k m)
  lookup-some z k m h = ground (arith, lookup-keys z k m)

  -- Where every element writes what `wanted` holds at its key, the filled map holds it at these keys.
  pub insert_each-lookup :
      {A : Type 0} (key : A → K) (value : A → V) (wanted : Map K V) (a : K) (xs : List A)
      (m : Map K V)
      → All (λ x. lookup (key x) wanted ≡ some (value x)) xs
      → lookup a (insert_each key value xs m)
        ≡ (if has a (map key xs) then lookup a wanted else lookup a m)
  unfolding insert_each has
  insert_each-lookup key value wanted a [] m h = refl
  insert_each-lookup key value wanted a (x ∷ xs) m h =
      insert_each-lookup key value wanted a xs (insert (key x) (value x) m) h.1
      ∙ ground (arith, lookup-insert (key x) a (value x) m, h.0, e.equal_iff (key x) a)

module _ {A K : Type 0} ⦃o : Order K⦄ ⦃e : Comparable K⦄ (key : A → K) where
  insert_by-has_key :
      (a : K) (x : A) (xs : List A)
      → has a (map key (insert_by key x xs)) ≡ has a (map key (x ∷ xs))
  unfolding has insert_by
  insert_by-has_key a x [] = refl
  insert_by-has_key a x (y ∷ ys) = ground (arith, insert_by-has_key a x ys)

  pub sort_by-has_key :
      (a : K) (xs : List A) → has a (map key (sort_by key xs)) ≡ has a (map key xs)
  unfolding has sort_by
  sort_by-has_key a [] = refl
  sort_by-has_key a (x ∷ xs) =
      insert_by-has_key a x (sort_by key xs) ∙ ground (arith, sort_by-has_key a xs)

  pub map-inverse : (f : K → A) (ks : List K) → ((k : K) → key (f k) ≡ k) → map key (map f ks) ≡ ks
  map-inverse f [] h = refl
  map-inverse f (k ∷ ks) h = λ i. h k i ∷ map-inverse f ks h i

module _ {K : Type 0} ⦃o : Order K⦄ ⦃e : Comparable K⦄ where
  pub keep-has :
      (p : K → Bool) (a : K) (xs : List K) → has a (keep p xs) ≡ (if p a then has a xs else false)
  unfolding has keep
  keep-has p a [] = ground arith
  keep-has p a (x ∷ xs) = ground (arith, keep-has p a xs, e.equal_iff x a)

  -- A property of every member holds of all.
  pub All-has : (P : K → Type 0) (xs : List K) → ((a : K) → has a xs ≡ true → P a) → All P xs
  unfolding has
  All-has P [] h = tt
  All-has P (x ∷ xs) h =
      (h x (ground (arith, eqb_refl x)), All-has P xs (λ a k. h a (ground (arith, k))))
