-- ===== src/Examples/Sorting.antt =====
-- An insertion sort that does what sort.Slice documents.
use mathlib.Core.List.{Permᴰ}
use mathlib.Core.List.Permᴰ
use kafka3o_gateway.Prelude.{
  ◌≡◌, Bool, false, refl, Bool-cases, inl, inr, List, [], ◌∷◌, All, All-map, if◌then◌else◌,
}
use kafka3o_gateway.Scan.Types.{Record}
use kafka3o_gateway.Scan.Run.{SortSlice}
use kafka3o_gateway.Scan.Run.Latest.{IsSortSlice, IsWeakOrder, Sorted}

module _ (less : Record → Record → Bool) where
  insert_sorted : Record → List Record → List Record
  insert_sorted a [] = a ∷ []
  insert_sorted a (b ∷ rs) =
      let rest = insert_sorted a rs in if less b a then b ∷ rest else a ∷ b ∷ rs

  Permᴰ-insert_sorted : (a : Record) (rs : List Record) → Permᴰ (insert_sorted a rs) (a ∷ rs)
  unfolding insert_sorted
  Permᴰ-insert_sorted a [] = Permᴰ.refl (a ∷ [])
  Permᴰ-insert_sorted a (b ∷ rs) = elim (Bool-cases (less b a)) [
    | inl before ↦
        rw before (Permᴰ.trans (Permᴰ.cons refl (Permᴰ-insert_sorted a rs)) (Permᴰ.swap refl refl))
    | inr behind ↦ rw behind (Permᴰ.refl (a ∷ b ∷ rs))
  ]

  All-insert_sorted :
      (P : Record → Type 0) (a : Record) (rs : List Record)
      → P a
      → All P rs
      → All P (insert_sorted a rs)
  unfolding insert_sorted
  All-insert_sorted P a [] h k = (h, tt)
  All-insert_sorted P a (b ∷ rs) h k = elim (Bool-cases (less b a)) [
    | inl before ↦ rw before (k.0, All-insert_sorted P a rs h k.1)
    | inr behind ↦ rw behind (h, k)
  ]

  Sorted-insert_sorted :
      IsWeakOrder less
      → (a : Record) (rs : List Record) → Sorted less rs
      → Sorted less (insert_sorted a rs)
  unfolding insert_sorted
  Sorted-insert_sorted o a [] h = (tt, tt)
  Sorted-insert_sorted o a (b ∷ rs) h = elim (Bool-cases (less b a)) [
    | inl before ↦ rw before (
      All-insert_sorted (λ x. less x b ≡ false) a rs (o.asymmetric b a before) h.0,
      Sorted-insert_sorted o a rs h.1,
    )
    | inr behind ↦ rw behind ((behind, All-map _ rs (λ x k. o.incomparable x b a k behind) h.0), h)
  ]

unfoldable pub insertion_sort : SortSlice
unfolding insert_sorted
insertion_sort less [] = []
insertion_sort less (a ∷ rs) = insert_sorted less a (insertion_sort less rs)

module _ (less : Record → Record → Bool) where
  Permᴰ-insertion_sort : (rs : List Record) → Permᴰ (insertion_sort less rs) rs
  unfolding insertion_sort
  Permᴰ-insertion_sort [] = Permᴰ.nil
  Permᴰ-insertion_sort (a ∷ rs) =
      Permᴰ.trans (Permᴰ-insert_sorted less a (insertion_sort less rs))
        (Permᴰ.cons refl (Permᴰ-insertion_sort rs))

  Sorted-insertion_sort :
      IsWeakOrder less → (rs : List Record) → Sorted less (insertion_sort less rs)
  unfolding insertion_sort
  Sorted-insertion_sort o [] = tt
  Sorted-insertion_sort o (a ∷ rs) =
      Sorted-insert_sorted less o a (insertion_sort less rs) (Sorted-insertion_sort o rs)

pub insertion_sort-IsSortSlice : IsSortSlice insertion_sort
insertion_sort-IsSortSlice = record {
  permutes = λ less o rs. ∣ Permᴰ-insertion_sort less rs ∣₁;
  sorted = Sorted-insertion_sort;
}
