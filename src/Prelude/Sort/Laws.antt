-- ===== src/Prelude/Sort/Laws.antt =====
-- The sort rearranges its list into ascending order.
use mathlib.Core.Path.{◌≡◌, refl}
use mathlib.Core.Logic.{inl, inr}
use mathlib.Core.Bool.{true}
use mathlib.Core.List.{List, [], ◌∷◌, Permᴰ}
use mathlib.Core.List.Permᴰ
use native.Mathlib.Omega.{arith}
use kafka3o_gateway.Prelude.Tests.{Bool-cases}
use kafka3o_gateway.Prelude.Lists.{All, All-map, length}
use kafka3o_gateway.Prelude.Sort.{Order, insert_by, sort_by}

module _ {ℓ κ} {A : Type ℓ} {K : Type κ} ⦃o : Order K⦄ (key : A → K) where
  abbrev pub Ascending : List A → Type (ℓ ⊔ κ)
  Ascending [] = Unit
  Ascending (x ∷ xs) = All (λ y. o.at_most (key x) (key y) ≡ true) xs × Ascending xs

  insert_by-Permᴰ : (x : A) (xs : List A) → Permᴰ (insert_by key x xs) (x ∷ xs)
  unfolding insert_by
  insert_by-Permᴰ x [] = Permᴰ.refl (x ∷ [])
  insert_by-Permᴰ x (y ∷ ys) = elim (Bool-cases (o.at_most (key x) (key y))) [
    | inl here ↦ rw here (Permᴰ.refl (x ∷ y ∷ ys))
    | inr later ↦
        rw later (Permᴰ.trans (Permᴰ.cons refl (insert_by-Permᴰ x ys)) (Permᴰ.swap refl refl))
  ]

  pub sort_by-Permᴰ : (xs : List A) → Permᴰ (sort_by key xs) xs
  unfolding sort_by
  sort_by-Permᴰ [] = Permᴰ.nil
  sort_by-Permᴰ (x ∷ xs) =
      Permᴰ.trans (insert_by-Permᴰ x (sort_by key xs)) (Permᴰ.cons refl (sort_by-Permᴰ xs))

  insert_by-All {μ} :
      (P : A → Type μ) (x : A) (xs : List A) → P x → All P xs → All P (insert_by key x xs)
  unfolding insert_by
  insert_by-All P x [] h k = (h, tt)
  insert_by-All P x (y ∷ ys) h k = elim (Bool-cases (o.at_most (key x) (key y))) [
    | inl here ↦ rw here (h, k)
    | inr later ↦ rw later (k.0, insert_by-All P x ys h k.1)
  ]

  pub sort_by-All {μ} : (P : A → Type μ) (xs : List A) → All P xs → All P (sort_by key xs)
  unfolding sort_by
  sort_by-All P [] h = tt
  sort_by-All P (x ∷ xs) h = insert_by-All P x (sort_by key xs) h.0 (sort_by-All P xs h.1)

  pub insert_by-length : (x : A) (xs : List A) → length (insert_by key x xs) ≡ length (x ∷ xs)
  unfolding insert_by
  insert_by-length x [] = refl
  insert_by-length x (y ∷ ys) = ground (arith, insert_by-length x ys)

  pub sort_by-length : (xs : List A) → length (sort_by key xs) ≡ length xs
  unfolding sort_by
  sort_by-length [] = refl
  sort_by-length (x ∷ xs) = omega (arith, insert_by-length x (sort_by key xs), sort_by-length xs)

  insert_by-Ascending : (x : A) (xs : List A) → Ascending xs → Ascending (insert_by key x xs)
  unfolding insert_by
  insert_by-Ascending x [] h = (tt, tt)
  insert_by-Ascending x (y ∷ ys) h = elim (Bool-cases (o.at_most (key x) (key y))) [
    | inl here ↦
        rw here ((here, All-map _ ys (λ z k. o.trans (key x) (key y) (key z) here k) h.0), h)
    | inr later ↦
        rw later
          (insert_by-All _ x ys (o.total (key x) (key y) later) h.0, insert_by-Ascending x ys h.1)
  ]

  pub sort_by-Ascending : (xs : List A) → Ascending (sort_by key xs)
  unfolding sort_by
  sort_by-Ascending [] = tt
  sort_by-Ascending (x ∷ xs) = insert_by-Ascending x (sort_by key xs) (sort_by-Ascending xs)
