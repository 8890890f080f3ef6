-- ===== src/Prelude/Sort/Unique.antt =====
-- Lists without repetition in ascending order stand for sets.
use mathlib.Core.Path.{◌≡◌, refl, sym, ap, ◌∙◌, subst}
use mathlib.Core.Logic.{inl, inr}
use mathlib.Core.Bool.{Bool, true, false, true≢false}
use mathlib.Core.List.{List, [], ◌∷◌}
use native.Mathlib.Omega.{arith}
use kafka3o_gateway.Prelude.Tests.{if◌then◌else◌, Bool-cases, Comparable, ◌==◌, eqb_refl}
use kafka3o_gateway.Prelude.Lists.{All, All-map}
use kafka3o_gateway.Prelude.Sort.{Order, insert_by, sort_by}
use kafka3o_gateway.Prelude.Sort.Laws.{Ascending}

module _ {K : Type 0} ⦃o : Order K⦄ ⦃e : Comparable K⦄ where
  abbrev pub itself : K → K
  itself a = a

  unfoldable pub has : K → List K → Bool
  has a [] = false
  has a (x ∷ xs) = if x == a then true else has a xs

  -- The elements that `seen` does not have, each at its first place.
  unfoldable pub unseen : List K → List K → List K
  unfolding has
  unseen seen [] = []
  unseen seen (x ∷ xs) =
      let skipped = unseen seen xs in
      let kept = unseen (x ∷ seen) xs in if has x seen then skipped else x ∷ kept

  -- The elements that differ from the one before them; `prev` stands before the list.
  pub compact_after : K → List K → List K
  compact_after prev [] = []
  compact_after prev (x ∷ xs) =
      let rest = compact_after x xs in if x == prev then rest else x ∷ rest

  unfoldable pub compact : List K → List K
  unfolding compact_after
  compact [] = []
  compact (x ∷ xs) = x ∷ compact_after x xs

  -- Each element is below all that follow.
  abbrev pub Increasing : List K → Type 0
  Increasing [] = Unit
  Increasing (x ∷ xs) = All (λ y. o.at_most y x ≡ false) xs × Increasing xs

  insert_by-has :
      (a x : K) (xs : List K) → has a (insert_by itself x xs) ≡ (if x == a then true else has a xs)
  unfolding has insert_by
  insert_by-has a x [] = refl
  insert_by-has a x (y ∷ ys) = ground (arith, insert_by-has a x ys)

  pub sort_by-has : (a : K) (xs : List K) → has a (sort_by itself xs) ≡ has a xs
  unfolding has sort_by
  sort_by-has a [] = refl
  sort_by-has a (x ∷ xs) = ground (arith, insert_by-has a x (sort_by itself xs), sort_by-has a xs)

  pub unseen-has :
      (a : K) (seen xs : List K)
      → (if has a seen then true else has a (unseen seen xs))
        ≡ (if has a seen then true else has a xs)
  unfolding has unseen
  unseen-has a seen [] = refl
  unseen-has a seen (x ∷ xs) =
      ground
        (arith, unseen-has a seen xs, unseen-has a (x ∷ seen) xs, e.equal_iff x a, e.equal_iff a x)

  compact_after-has :
      (a prev : K) (xs : List K)
      → (if prev == a then true else has a (compact_after prev xs))
        ≡ (if prev == a then true else has a xs)
  unfolding has compact_after
  compact_after-has a prev [] = refl
  compact_after-has a prev (x ∷ xs) =
      ground
        (arith, compact_after-has a x xs, e.equal_iff x prev, e.equal_iff prev a, e.equal_iff x a)

  pub compact-has : (a : K) (xs : List K) → has a (compact xs) ≡ has a xs
  unfolding has compact
  compact-has a [] = refl
  compact-has a (x ∷ xs) = ground (arith, compact_after-has a x xs)

  -- Each element lies above `a`.
  abbrev Above : K → List K → Type 0
  Above a xs = All (λ y. o.at_most y a ≡ false) xs

  compact_after-Increasing :
      (prev : K) (xs : List K)
      → Ascending itself (prev ∷ xs)
      → Above prev (compact_after prev xs) × Increasing (compact_after prev xs)
  unfolding compact_after
  compact_after-Increasing prev [] h = (tt, tt)
  compact_after-Increasing prev (x ∷ xs) h =
      let rest = compact_after-Increasing x xs h.1 in
      elim (Bool-cases (x == prev)) [
        | inl same ↦ rw (same, sym ((e.equal_iff x prev).0 same)) rest
        | inr differs ↦ rw differs (
          (
            ground (arith, o.antisym x prev, h.0.0, e.equal_iff x prev),
            All-map _ (compact_after x xs)
                (λ z (k : o.at_most z x ≡ false). ground (arith, o.trans z prev x, h.0.0)) rest.0,
          ),
          rest,
        )
      ]

  pub compact-Increasing : (xs : List K) → Ascending itself xs → Increasing (compact xs)
  unfolding compact
  compact-Increasing [] h = tt
  compact-Increasing (x ∷ xs) h = compact_after-Increasing x xs h

  has-All : (P : K → Type 0) (a : K) (xs : List K) → All P xs → has a xs ≡ true → P a
  unfolding has
  has-All P a [] h k = ground arith
  has-All P a (x ∷ xs) h k = elim (Bool-cases (x == a)) [
    | inl same ↦ subst P ((e.equal_iff x a).0 same) h.0
    | inr differs ↦ has-All P a xs h.1 (ground arith)
  ]

  has-head : (x : K) (xs : List K) → has x (x ∷ xs) ≡ true
  unfolding has
  has-head x xs = ground (arith, eqb_refl x)

  Above-has : (a : K) (xs : List K) → Above a xs → has a xs ≡ false
  Above-has a xs h = elim (Bool-cases (has a xs)) [
    | inl there ↦
        let outside = has-All _ a xs h there in
        absurd (true≢false (sym (o.total a a outside) ∙ outside))
    | inr missing ↦ missing
  ]

  head_unique :
      (x y : K) (xs ys : List K)
      → Increasing (x ∷ xs)
      → Increasing (y ∷ ys)
      → has x (y ∷ ys) ≡ true
      → has y (x ∷ xs) ≡ true
      → x ≡ y
  unfolding has
  head_unique x y xs ys hx hy left right = elim (Bool-cases (x == y)) [
    | inl same ↦ (e.equal_iff x y).0 same
    | inr differs ↦
        let x_above = has-All _ x ys hy.0 (ground (arith, e.equal_iff y x, e.equal_iff x y)) in
        let y_above = has-All _ y xs hx.0 (ground arith) in
        absurd (true≢false (sym (o.total y x y_above) ∙ x_above))
  ]

  tail_same :
      (x y : K) (xs ys : List K)
      → Above x xs
      → Above y ys
      → x ≡ y
      → (a : K) → has a (x ∷ xs) ≡ has a (y ∷ ys)
      → has a xs ≡ has a ys
  unfolding has
  tail_same x y xs ys hx hy first a same = elim (Bool-cases (x == a)) [
    | inl at ↦ ground (arith, first, e.equal_iff x a, Above-has x xs hx, Above-has y ys hy)
    | inr off ↦ ground (arith, first, e.equal_iff x a, e.equal_iff y a)
  ]

  -- A set has one increasing list.
  pub Increasing-unique :
      (xs ys : List K) → Increasing xs → Increasing ys → ((a : K) → has a xs ≡ has a ys) → xs ≡ ys
  unfolding has
  Increasing-unique [] [] hx hy same = refl
  Increasing-unique [] (y ∷ ys) hx hy same = ground (arith, same y, has-head y ys)
  Increasing-unique (x ∷ xs) [] hx hy same = ground (arith, same x, has-head x xs)
  Increasing-unique (x ∷ xs) (y ∷ ys) hx hy same =
      let first =
        head_unique x y xs ys hx hy (sym (same x) ∙ has-head x xs) (same y ∙ has-head y ys) in
      ap (λ z. z ∷ xs) first
      ∙ ap (λ zs. y ∷ zs)
          (Increasing-unique xs ys hx.1 hy.1 (λ a. tail_same x y xs ys hx.0 hy.0 first a (same a)))

  -- No element stands twice.
  abbrev pub Distinct : List K → Type 0
  Distinct [] = Unit
  Distinct (x ∷ xs) = (has x xs ≡ false) × Distinct xs

  unseen-seen : (a : K) (seen xs : List K) → has a seen ≡ true → has a (unseen seen xs) ≡ false
  unfolding has unseen
  unseen-seen a seen [] h = refl
  unseen-seen a seen (x ∷ xs) h =
      ground (arith, unseen-seen a seen xs h, unseen-seen a (x ∷ seen) xs, e.equal_iff x a)

  pub unseen-Distinct : (seen xs : List K) → Distinct (unseen seen xs)
  unfolding unseen
  unseen-Distinct seen [] = tt
  unseen-Distinct seen (x ∷ xs) = elim (Bool-cases (has x seen)) [
    | inl old ↦ rw old (unseen-Distinct seen xs)
    | inr new ↦
        rw new (unseen-seen x (x ∷ seen) xs (has-head x seen), unseen-Distinct (x ∷ seen) xs)
  ]

  insert_by-Above :
      (a x : K) (xs : List K) → o.at_most x a ≡ false → Above a xs → Above a (insert_by itself x xs)
  unfolding insert_by
  insert_by-Above a x [] h k = (h, tt)
  insert_by-Above a x (y ∷ ys) h k = elim (Bool-cases (o.at_most x y)) [
    | inl here ↦ rw here (h, k)
    | inr later ↦ rw later (k.0, insert_by-Above a x ys h k.1)
  ]

  insert_by-Increasing :
      (x : K) (xs : List K) → Increasing xs → has x xs ≡ false → Increasing (insert_by itself x xs)
  unfolding insert_by has
  insert_by-Increasing x [] h new = (tt, tt)
  insert_by-Increasing x (y ∷ ys) h new = elim (Bool-cases (o.at_most x y)) [
    | inl here ↦
        let first : o.at_most y x ≡ false =
          ground (arith, o.antisym x y here, e.equal_iff y x, new) in
        rw here (
          (
            first,
            All-map _ ys (λ z (k : o.at_most z y ≡ false). ground (arith, o.trans z x y, here)) h.0,
          ),
          h,
        )
    | inr later ↦
        rw later (insert_by-Above y x ys later h.0, insert_by-Increasing x ys h.1 (ground arith))
  ]

  pub sort_by-Increasing : (xs : List K) → Distinct xs → Increasing (sort_by itself xs)
  unfolding sort_by
  sort_by-Increasing [] h = tt
  sort_by-Increasing (x ∷ xs) h =
      insert_by-Increasing x (sort_by itself xs) (sort_by-Increasing xs h.1)
        (sort_by-has x xs ∙ h.0)
