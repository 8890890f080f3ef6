-- ===== src/Scan/Run/Latest.antt =====
-- A latest scan keeps the newest records: internal/scan/runner.go, emitter.
use mathlib.Core.List.{Perm, append-nil}
use mathlib.Core.Path.{subst}
use kafka3o_gateway.Prelude.{ltb_ℤ, ◌&&◌}
use kafka3o_gateway.Prelude.{
  ℕ, zero, suc, ℤ, pos, pos_part, ◌≤ℤ◌, ◌<ℤ◌, ◌≡◌, ◌⊎◌, refl, sym, Bool, true, false, Bool-cases,
  inl, inr, List, [], ◌∷◌, ◌++◌, All, All-map, All-every, length, take, drop, length-take,
  take-append-drop, eq_of_parts, arith,
}
use kafka3o_gateway.Scan.Types.{Record, Spec}
use kafka3o_gateway.Scan.Runner.{ScanState}
use kafka3o_gateway.Scan.Run.{SortSlice, newer, truncate, drain}

-- Newest first.
abbrev pub Descending : List Record → Type 0
Descending [] = Unit
Descending (a ∷ rs) = All (λ b. b.timestamp ≤ℤ a.timestamp) rs × Descending rs

-- What sort.Slice asks of a `less`: that it is a strict weak order.
pub record IsWeakOrder (less : Record → Record → Bool) : Type 0 where
  pub asymmetric : (a b : Record) → less a b ≡ true → less b a ≡ false
  pub incomparable : (a b c : Record) → less a b ≡ false → less b c ≡ false → less a c ≡ false

-- No element is less than one before it.
abbrev pub Sorted : (Record → Record → Bool) → List Record → Type 0
Sorted less [] = Unit
Sorted less (a ∷ rs) = All (λ b. less b a ≡ false) rs × Sorted less rs

-- What sort.Slice documents: the same elements, sorted by `less`; equal ones in any order.
pub record IsSortSlice (sort : SortSlice) : Type 0 where
  pub permutes :
      (less : Record → Record → Bool)
      → IsWeakOrder less
      → (rs : List Record) → Perm (sort less rs) rs
  pub sorted :
      (less : Record → Record → Bool)
      → IsWeakOrder less
      → (rs : List Record) → Sorted less (sort less rs)

newer-IsWeakOrder : IsWeakOrder newer
newer-IsWeakOrder = record {
  asymmetric = λ a b h. ground arith;
  incomparable = λ a b c h k. ground arith;
}

Sorted-newer : (rs : List Record) → Sorted newer rs → Descending rs
Sorted-newer [] h = tt
Sorted-newer (a ∷ rs) h = (All-map _ rs (λ b older. ground arith) h.0, Sorted-newer rs h.1)

-- A list cut in two, where each record of the first part is at least as new as each of the second.
abbrev pub Dominates : List Record → List Record → Type 0
Dominates kept dropped = All (λ a. All (λ b. b.timestamp ≤ℤ a.timestamp) dropped) kept

pub All-drop : {A : Type 0} (P : A → Type 0) (n : ℕ) (xs : List A) → All P xs → All P (drop n xs)
All-drop P zero xs h = h
All-drop P (suc n) [] h = h
All-drop P (suc n) (x ∷ xs) h = All-drop P n xs h.1

pub All-take : {A : Type 0} (P : A → Type 0) (n : ℕ) (xs : List A) → All P xs → All P (take n xs)
All-take P zero xs h = tt
All-take P (suc n) [] h = tt
All-take P (suc n) (x ∷ xs) h = (h.0, All-take P n xs h.1)

Descending-split :
    (n : ℕ) (rs : List Record)
    → Descending rs
    → Dominates (take n rs) (drop n rs) × Descending (take n rs)
Descending-split zero rs h = (tt, tt)
Descending-split (suc n) [] h = (tt, tt)
Descending-split (suc n) (a ∷ rs) h =
    let rest = Descending-split n rs h.1 in
    ((All-drop _ n rs h.0, rest.0), (All-take _ n rs h.0, rest.1))

-- What a latest scan keeps of its buffer: at most a positive `max`, and everything else only if there
-- are no more than that. `dropped` is the rest.
pub record IsNewest (max : ℤ) (buffer kept : List Record) : Type 0 where
  pub dropped : List Record
  pub same : Perm (kept ++ dropped) buffer
  pub ordered : Descending kept
  pub newest : Dominates kept dropped
  pub limited : pos 0 <ℤ max → pos (length kept) ≤ℤ max
  pub full : (dropped ≡ []) ⊎ ((pos 0 <ℤ max) × (max ≡ pos (length kept)))

module _ (sort : SortSlice) (s : IsSortSlice sort) (max : ℤ) (buffer : List Record) where
  abbrev sorted : List Record
  sorted = sort newer buffer

  sorted-Descending : Descending sorted
  sorted-Descending = Sorted-newer sorted (s.sorted newer newer-IsWeakOrder buffer)

  sorted-Perm : Perm sorted buffer
  sorted-Perm = s.permutes newer newer-IsWeakOrder buffer

  take-IsNewest :
      pos 0 <ℤ max → max <ℤ pos (length sorted) → IsNewest max buffer (take (pos_part max) sorted)
  take-IsNewest positive more =
      let n = pos_part max in
      let halves = Descending-split n sorted sorted-Descending in
      let size = length-take n sorted in
      record {
        dropped = drop n sorted;
        same = subst (λ z. Perm z buffer) (sym (take-append-drop n sorted)) sorted-Perm;
        ordered = halves.1;
        newest = halves.0;
        limited = λ _. ground (arith, size);
        full = inr (positive, eq_of_parts max _ (ground (arith, size)));
      }

  all-IsNewest : (pos 0 <ℤ max → pos (length sorted) ≤ℤ max) → IsNewest max buffer sorted
  all-IsNewest fits = record {
    dropped = [];
    same = subst (λ z. Perm z buffer) (sym (append-nil sorted)) sorted-Perm;
    ordered = sorted-Descending;
    newest = All-every _ sorted (λ a. tt);
    limited = fits;
    full = inl refl;
  }

  truncate-IsNewest : IsNewest max buffer (truncate max sorted)
  unfolding truncate
  truncate-IsNewest = elim (Bool-cases (ltb_ℤ (pos 0) max && ltb_ℤ max (pos (length sorted)))) [
    | inl h ↦ rw h (take-IsNewest (ground arith) (ground arith))
    | inr h ↦ rw h (all-IsNewest (λ positive. ground arith))
  ]

-- What draining a latest scan leaves of the buffer is a newest part of it, newest first: no record
-- that was dropped is newer than one that was kept. With a positive `MaxMessages` that is as many
-- records, or all if there are no more, and without one it is all; `matched` is their number.
pub drain-IsNewest :
    (sort : SortSlice) (spec : Spec) (st : ScanState)
    → IsSortSlice sort
    → spec.latest ≡ true
    → IsNewest spec.max_messages st.emitted (drain sort spec st).emitted
      × ((drain sort spec st).acc.matched ≡ length (drain sort spec st).emitted)
unfolding drain
drain-IsNewest sort spec st s h = rw h (truncate-IsNewest sort s spec.max_messages st.emitted, refl)
