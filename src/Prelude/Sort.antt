-- ===== src/Prelude/Sort.antt =====
-- sort.Strings and sort.Slice: an insertion sort by a key whose type has a total order. Where keys
-- are equal Go's sort.Slice leaves the order open; this one keeps it.
pub mod Laws
pub mod Unique
use Prim.Native.Nat.{ℕ, Ordering, compare as compare_ℕ}
use Prim.Native.Char.{code}
use Prim.Native.String.{String, [] as nil_string, ◌∷◌ as cons_string, compare, then as after}
use Prim.Native.String.compare as compare_lem
use text.Mathlib.TextEquality.{path_by_compare, codes_equal}
use text.Mathlib.TextPositions.{compare_refl}
use mathlib.Core.Path.{◌≡◌, refl, sym, ap, ◌∙◌}
use mathlib.Core.Logic.{inl, inr}
use mathlib.Core.Bool.{Bool, true, false, true≢false}
use mathlib.Core.List.{List, [], ◌∷◌}
use native.Mathlib.Omega.{arith}
use kafka3o_gateway.Prelude.Tests.{if◌then◌else◌, Comparable, ◌==◌, Bool-cases}
use kafka3o_gateway.Prelude.Int.{ℤ, leb_ℤ, eq_of_parts}

-- A total order with its test.
pub record Order {ℓ} (K : Type ℓ) : Type ℓ where
  pub at_most : K → K → Bool
  pub total : (a b : K) → at_most a b ≡ false → at_most b a ≡ true
  pub antisym : (a b : K) → at_most a b ≡ true → at_most b a ≡ true → a ≡ b
  pub trans : (a b c : K) → at_most a b ≡ true → at_most b c ≡ true → at_most a c ≡ true

abbrev pub is_le : Ordering → Bool
is_le Ordering.lt = true
is_le Ordering.eq = true
is_le Ordering.gt = false

abbrev flip : Ordering → Ordering
flip Ordering.lt = Ordering.gt
flip Ordering.eq = Ordering.eq
flip Ordering.gt = Ordering.lt

flip-then : (o r : Ordering) → flip (after o r) ≡ after (flip o) (flip r)
flip-then Ordering.lt r = refl
flip-then Ordering.eq r = refl
flip-then Ordering.gt r = refl

compare_ℕ-flip : (a b : ℕ) → compare_ℕ b a ≡ flip (compare_ℕ a b)
compare_ℕ-flip a b = ground arith

compare-flip : (s t : String) → compare t s ≡ flip (compare s t)
compare-flip nil_string nil_string = rw compare_lem.nil-nil refl
compare-flip nil_string (cons_string d t) = rw (compare_lem.nil-cons, compare_lem.cons-nil) refl
compare-flip (cons_string c s) nil_string = rw (compare_lem.nil-cons, compare_lem.cons-nil) refl
compare-flip (cons_string c s) (cons_string d t) =
    rw
      (
        compare_lem.cons-cons d c t s,
        compare_lem.cons-cons c d s t,
        flip-then,
        compare-flip s t,
        compare_ℕ-flip (code c) (code d),
      )
      refl

compare_ℕ-trans :
    (a b c : ℕ) (r₁ r₂ r₃ : Ordering)
    → (is_le r₁ ≡ true → is_le r₂ ≡ true → is_le r₃ ≡ true)
    → is_le (after (compare_ℕ a b) r₁) ≡ true
    → is_le (after (compare_ℕ b c) r₂) ≡ true
    → is_le (after (compare_ℕ a c) r₃) ≡ true
compare_ℕ-trans a b c r₁ r₂ r₃ f h k = ground arith

abbrev pub string_leb : String → String → Bool
string_leb s t = is_le (compare s t)

pub string_trans :
    (s t u : String) → string_leb s t ≡ true → string_leb t u ≡ true → string_leb s u ≡ true
string_trans nil_string t nil_string h k = refl
string_trans nil_string t (cons_string e u) h k = ap is_le (compare_lem.nil-cons e u)
string_trans (cons_string c s) nil_string u h k =
    absurd (true≢false (sym h ∙ ap is_le (compare_lem.cons-nil c s)))
string_trans (cons_string c s) (cons_string d t) nil_string h k =
    absurd (true≢false (sym k ∙ ap is_le (compare_lem.cons-nil d t)))
string_trans (cons_string c s) (cons_string d t) (cons_string e u) h k =
    ap is_le (compare_lem.cons-cons c e s u)
    ∙ compare_ℕ-trans (code c) (code d) (code e) _ _ _ (string_trans s t u)
        (sym (ap is_le (compare_lem.cons-cons c d s t)) ∙ h)
        (sym (ap is_le (compare_lem.cons-cons d e t u)) ∙ k)

pub string_total : (s t : String) → string_leb s t ≡ false → string_leb t s ≡ true
string_total s t h = ground (arith, compare-flip s t)

pub string_antisym : (s t : String) → string_leb s t ≡ true → string_leb t s ≡ true → s ≡ t
string_antisym s t h k = path_by_compare s t (ground (arith, compare-flip s t))

pub int_antisym : (a b : ℤ) → leb_ℤ a b ≡ true → leb_ℤ b a ≡ true → a ≡ b
int_antisym a b h k = eq_of_parts a b (ground arith)

pub int_total : (a b : ℤ) → leb_ℤ a b ≡ false → leb_ℤ b a ≡ true
int_total a b h = ground arith

pub int_trans : (a b c : ℤ) → leb_ℤ a b ≡ true → leb_ℤ b c ≡ true → leb_ℤ a c ≡ true
int_trans a b c h k = ground arith

instance abbrev pub string_order : Order String
string_order = record {
  at_most = string_leb;
  total = string_total;
  antisym = string_antisym;
  trans = string_trans;
}

instance abbrev pub int_order : Order ℤ
int_order = record { at_most = leb_ℤ; total = int_total; antisym = int_antisym; trans = int_trans }

-- By the first component and, where these are equal, by the second.
module _ {A B : Type 0} ⦃o : Order A⦄ ⦃e : Comparable A⦄ ⦃u : Order B⦄ where
  abbrev pub pair_leb : A × B → A × B → Bool
  pair_leb p q = if p.0 == q.0 then u.at_most p.1 q.1 else o.at_most p.0 q.0

  pub pair_total : (p q : A × B) → pair_leb p q ≡ false → pair_leb q p ≡ true
  pair_total p q h =
      ground (arith, e.equal_iff p.0 q.0, e.equal_iff q.0 p.0, o.total p.0 q.0, u.total p.1 q.1)

  pub pair_antisym : (p q : A × B) → pair_leb p q ≡ true → pair_leb q p ≡ true → p ≡ q
  pair_antisym p q h k = elim (Bool-cases (p.0 == q.0)) [
    | inl same ↦
        let first = (e.equal_iff p.0 q.0).0 same in
        λ i. (
          first i,
          u.antisym p.1 q.1 (ground arith)
              (ground (arith, e.equal_iff p.0 q.0, e.equal_iff q.0 p.0)) i,
        )
    | inr differ ↦ absurd (
        true≢false (
          sym (
            (e.equal_iff p.0 q.0).1 (
              o.antisym p.0 q.0 (ground arith)
                (ground (arith, e.equal_iff p.0 q.0, e.equal_iff q.0 p.0))))
          ∙ differ))
  ]

  pub pair_trans : (p q r : A × B) → pair_leb p q ≡ true → pair_leb q r ≡ true → pair_leb p r ≡ true
  pair_trans p q r h k = ground (
    arith,
    e.equal_iff p.0 q.0,
    e.equal_iff q.0 r.0,
    e.equal_iff p.0 r.0,
    o.antisym p.0 q.0,
    o.trans p.0 q.0 r.0,
    u.trans p.1 q.1 r.1,
  )

  instance abbrev pub pair_order : Order (A × B)
  pair_order = record {
    at_most = pair_leb;
    total = pair_total;
    antisym = pair_antisym;
    trans = pair_trans;
  }

module _ {ℓ κ} {A : Type ℓ} {K : Type κ} ⦃o : Order K⦄ (key : A → K) where
  unfoldable pub insert_by : A → List A → List A
  insert_by x [] = x ∷ []
  insert_by x (y ∷ ys) =
      let rest = insert_by x ys in if o.at_most (key x) (key y) then x ∷ y ∷ ys else y ∷ rest

  unfoldable pub sort_by : List A → List A
  unfolding insert_by
  sort_by [] = []
  sort_by (x ∷ xs) = insert_by x (sort_by xs)
