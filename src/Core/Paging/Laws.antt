-- ===== src/Core/Paging/Laws.antt =====
-- Consecutive pages cut the sorted list into consecutive pieces.
use kafka3o_gateway.Prelude.{
  ℕ, zero, suc, ◌+◌, ◌-◌, ◌*◌, ◌≤◌, ◌<◌, ◌≡◌, refl, ap, ◌∙◌, ◌⊎◌, inl, inr, ℤ, pos, negsuc, ◌+ℤ◌,
  ◌-ℤ◌, int_laws, Option, none, some, List, [], ◌∷◌, ◌++◌, length, take, drop, arith,
}
use native.Mathlib.Nat.{zero-add, suc-add, zero-mul}
use kafka3o_gateway.Prelude.Machine.{wrap, half_range, wrap-small, wrap-negative, ◌*ℤ◌}
use kafka3o_gateway.Core.Paging.{page_start, rows_from, page_rows}

pos-minus_one : (p : ℕ) → pos (suc p) -ℤ pos 1 ≡ pos p
pos-minus_one p = grind int_laws

pos-plus : (a b : ℕ) → pos a +ℤ pos b ≡ pos (a + b)
pos-plus a b = grind int_laws

pos-minus : (a b : ℕ) → a ≤ b → pos b -ℤ pos a ≡ pos (b - a)
pos-minus a b h = grind int_laws

le_mul : (p size : ℕ) → 1 ≤ size → p ≤ p * size
le_mul zero size h = omega arith
le_mul (suc p) size h = omega (arith, h, le_mul p size h)

page_start-small :
    (p size : ℕ)
    → 1 ≤ size
    → p * size < half_range
    → page_start (pos (suc p)) (pos size) ≡ pos (p * size)
unfolding page_start ◌*ℤ◌
page_start-small p size positive fits =
    let small : p < half_range = omega (arith, le_mul p size positive, fits) in
    rw (pos-minus_one p, wrap-small p small, wrap-small (p * size) fits) refl

page_start-first : (size : ℕ) → page_start (pos 1) (negsuc size) ≡ pos 0
unfolding page_start ◌*ℤ◌ wrap
page_start-first size = rw (pos-minus_one 0, wrap-small 0 (omega arith), zero-mul (suc size)) refl

zero-plus : (n : ℕ) → pos 0 +ℤ negsuc n ≡ negsuc n
zero-plus n = grind int_laws

add-minus : (a b : ℕ) → a + b - a ≡ b
add-minus a b = omega arith

le_or_lt : (a b : ℕ) → (a ≤ b) ⊎ (b < a)
le_or_lt a b = ground arith

module _ {A : Type 0} where
  drop-all : (n : ℕ) (xs : List A) → length xs ≤ n → drop n xs ≡ []
  drop-all zero [] h = refl
  drop-all zero (x ∷ xs) h = ground arith
  drop-all (suc n) [] h = refl
  drop-all (suc n) (x ∷ xs) h = drop-all n xs (omega (arith, h))

  take-all : (n : ℕ) (xs : List A) → length xs ≤ n → take n xs ≡ xs
  take-all zero [] h = refl
  take-all zero (x ∷ xs) h = ground arith
  take-all (suc n) [] h = refl
  take-all (suc n) (x ∷ xs) h = ap (λ l. x ∷ l) (take-all n xs (omega (arith, h)))

  length-drop : (n : ℕ) (xs : List A) → length (drop n xs) ≡ length xs - n
  length-drop zero xs = omega arith
  length-drop (suc n) [] = omega arith
  length-drop (suc n) (x ∷ xs) = omega (arith, length-drop n xs)

  take-nil : (n : ℕ) → take {A = A} n [] ≡ []
  take-nil zero = refl
  take-nil (suc n) = refl

  take-add : (m n : ℕ) (xs : List A) → take (m + n) xs ≡ take m xs ++ take n (drop m xs)
  take-add zero n xs = rw (zero-add n) refl
  take-add (suc m) n [] = rw (take-nil, take-nil) refl
  take-add (suc m) n (x ∷ xs) = rw (suc-add m n) (ap (λ l. x ∷ l) (take-add m n xs))

  rows_from-slice :
      (a size : ℕ) (rows : List A)
      → a + size < half_range
      → rows_from (pos a) (pos size) rows ≡ some (take size (drop a rows))
  unfolding rows_from
  rows_from-slice a size rows fits =
      rw (pos-plus a size, wrap-small (a + size) fits)
        (elim (le_or_lt (length rows) a) [
          | inl past ↦ ground (arith, drop-all a rows past, take-nil size)
          | inr inside ↦ elim (le_or_lt (length rows) (a + size)) [
            | inl last ↦ ground (
              arith,
              pos-minus a (length rows) (omega (arith, inside)),
              pos-minus a (a + size) (omega arith),
              take-all size (drop a rows) (omega (arith, length-drop a rows, last)),
              take-all (length rows - a) (drop a rows) (omega (arith, length-drop a rows)),
            )
            | inr full ↦ ground (
              arith,
              pos-minus a (a + size) (omega arith),
              ap (λ n. take n (drop a rows)) (add-minus a size),
            )
          ]
        ])

module _ {A : Type 0} where
  -- Page `p + 1` of a positive size within the range of an int holds the next rows.
  pub page_rows-slice :
      (p size : ℕ) (rows : List A)
      → 1 ≤ size
      → p * size + size < half_range
      → page_rows (pos (suc p)) (pos size) rows ≡ some (take size (drop (p * size) rows))
  unfolding page_rows
  page_rows-slice p size rows positive fits =
      rw (page_start-small p size positive (omega (arith, fits)))
        (rows_from-slice (p * size) size rows fits)

  -- The rows of the first pages, one page after the other.
  pub first_pages : ℤ → List A → ℕ → Option (List A)
  first_pages size rows zero = some []
  first_pages size rows (suc n) =
      let before = first_pages size rows n in
      elim before [
        | none ↦ none
        | some shown ↦ elim (page_rows (pos (suc n)) size rows) [
          | none ↦ none
          | some new ↦ some (shown ++ new)
        ]
      ]

  pub first_pages-take :
      (n size : ℕ) (rows : List A)
      → 1 ≤ size
      → n * size < half_range
      → first_pages (pos size) rows n ≡ some (take (n * size) rows)
  unfolding first_pages
  first_pages-take zero size rows positive fits = rw (zero-mul size) refl
  first_pages-take (suc n) size rows positive fits =
      let small : n * size + size < half_range = omega (arith, fits) in
      let ends : suc n * size ≡ n * size + size = omega arith in
      rw
        (
          first_pages-take n size rows positive (omega (arith, small)),
          page_rows-slice n size rows positive small,
          ends,
          take-add,
        )
        refl

  -- Shown one after the other, the pages of a positive size list every row once, in order: none is
  -- skipped or repeated, and no page panics, as long as pages and size stay within the range of an
  -- int and reach the last row.
  pub first_pages-all :
      (n size : ℕ) (rows : List A)
      → 1 ≤ size
      → n * size < half_range
      → length rows ≤ n * size
      → first_pages (pos size) rows n ≡ some rows
  first_pages-all n size rows positive fits enough =
      first_pages-take n size rows positive fits ∙ ap some (take-all (n * size) rows enough)

  -- The first page of a negative size, within the range of an int, panics as soon as there is a row.
  pub page_rows-negative :
      (size : ℕ) (row : A) (rows : List A)
      → size < half_range
      → page_rows (pos 1) (negsuc size) (row ∷ rows) ≡ none
  unfolding page_rows rows_from
  page_rows-negative size row rows fits =
      rw (page_start-first size, zero-plus size, wrap-negative size fits) (ground arith)
