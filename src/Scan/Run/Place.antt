-- ===== src/Scan/Run/Place.antt =====
-- Where the records that a scan returns stand: internal/scan/runner.go, Run and emitter.
use mathlib.Core.Bool.{Bool-set}
use mathlib.Core.Path.{subst}
use mathlib.Core.List.{Perm, Permᴰ}
use mathlib.Core.Logic.{∥∥₁_elim}
use kafka3o_gateway.Prelude.{
  ℤ, ltb_ℤ, leb_ℤ, ◌≡◌, refl, ◌∙◌, Bool, true, false, ◌&&◌, Bool-cases, none, some, Option-cases,
  inl, inr, List, [], ◌∷◌, ◌++◌, All, All-map, int_eq, arith,
}
use kafka3o_gateway.Prelude.Map
use kafka3o_gateway.Prelude.Map.{Map}
use kafka3o_gateway.Errors.{ok}
use kafka3o_gateway.Scan.Types.{Record, PartitionSpec, Spec, Stats, Matcher}
use kafka3o_gateway.Scan.Codec.{Encodings}
use kafka3o_gateway.Scan.Runner.{LoopEnd, poll_loop}
use kafka3o_gateway.Scan.Runner.Resume.{fresh}
use kafka3o_gateway.Scan.Runner.Window.{Increasing, poll_loop-IsInside}
use kafka3o_gateway.Scan.Run.{SortSlice, Consumer, start_offsets, drain, finish_run, RunEnd, run}
use kafka3o_gateway.Scan.Run.Latest.{IsSortSlice, Descending, IsNewest, drain-IsNewest}
use kafka3o_gateway.Scan.Run.Order.{InWindow, InWindow-IsInside, run-IsOrdered}

abbrev every : (Record → Bool) → List Record → Bool
every p [] = true
every p (r ∷ rs) = p r && every p rs

every-append :
    (p : Record → Bool) (xs ys : List Record) → every p (xs ++ ys) ≡ true → every p xs ≡ true
every-append p [] ys h = refl
every-append p (x ∷ xs) ys h = ground (arith, every-append p xs ys)

Permᴰ-every : (p : Record → Bool) {xs ys : List Record} → Permᴰ xs ys → every p xs ≡ every p ys
Permᴰ-every p Permᴰ.nil = refl
Permᴰ-every p (Permᴰ.cons e d) = λ i. p (e i) && Permᴰ-every p d i
Permᴰ-every p (Permᴰ.swap {a = a} {b = b} {l = l} e e') =
    swapped (p a) (p b) (every p l) ∙ λ i. p (e' i) && (p (e i) && every p l)
  where
    swapped : (a b c : Bool) → (a && (b && c)) ≡ (b && (a && c))
    swapped a b c = ground arith
Permᴰ-every p (Permᴰ.trans d d') = Permᴰ-every p d ∙ Permᴰ-every p d'

Perm-every : (p : Record → Bool) (xs ys : List Record) → Perm xs ys → every p xs ≡ every p ys
Perm-every p xs ys h = ∥∥₁_elim h (Bool-set (every p xs) (every p ys)) (λ d. Permᴰ-every p d)

-- InWindow as a test.
in_bounds : Spec → Record → Bool
in_bounds spec r = elim (Map.lookup r.partition spec.partitions) [
  | none ↦ false
  | some w ↦ leb_ℤ w.start r.offset && ltb_ℤ r.offset w.end_
]

InWindow-in_bounds : (spec : Spec) (r : Record) → InWindow spec r → in_bounds spec r ≡ true
unfolding in_bounds
InWindow-in_bounds spec r h = ground (arith, h.scoped, h.from_start, h.before_end)

in_bounds-InWindow : (spec : Spec) (r : Record) → in_bounds spec r ≡ true → InWindow spec r
unfolding in_bounds
in_bounds-InWindow spec r h = elim (Option-cases (Map.lookup r.partition spec.partitions)) [
  | inl missing ↦ ground arith
  | inr (window, found) ↦ record {
    window = window;
    scoped = found;
    from_start = ground arith;
    before_end = ground arith;
  }
]

every-in_bounds :
    (spec : Spec) (rs : List Record) → All (InWindow spec) rs → every (in_bounds spec) rs ≡ true
every-in_bounds spec [] h = refl
every-in_bounds spec (r ∷ rs) h =
    ground (arith, InWindow-in_bounds spec r h.0, every-in_bounds spec rs h.1)

in_bounds-every :
    (spec : Spec) (rs : List Record) → every (in_bounds spec) rs ≡ true → All (InWindow spec) rs
in_bounds-every spec [] h = tt
in_bounds-every spec (r ∷ rs) h =
    (in_bounds-InWindow spec r (ground arith), in_bounds-every spec rs (ground arith))

-- What a scan keeps of gathered records lies where they lie.
kept-InWindow :
    (spec : Spec) (max : ℤ) (buffer kept : List Record)
    → IsNewest max buffer kept
    → All (InWindow spec) buffer
    → All (InWindow spec) kept
kept-InWindow spec max buffer kept n h = in_bounds-every spec kept (
    every-append (in_bounds spec) kept n.dropped (
      Perm-every (in_bounds spec) (kept ++ n.dropped) buffer n.same
      ∙ every-in_bounds spec buffer h))

-- The records of a scan: each in the window that the spec gives its partition, from the window's start
-- on and before its end; a forward scan's in increasing offsets within each partition, a latest one's
-- newest first.
pub record IsPlaced (spec : Spec) (items : List Record) : Type 0 where
  pub placed : All (InWindow spec) items
  pub forward : spec.latest ≡ false → Increasing items
  pub backward : spec.latest ≡ true → Descending items

module _ {P : Type 0} (lib : Encodings) (sort : SortSlice) (spec : Spec) (matcher : Matcher)
    (start finish : ℤ) where
  finish_run-drain :
      (e : LoopEnd P) (stats : Stats) (items : List Record)
      → finish_run lib sort spec matcher start finish e ≡ ok (stats, items)
      → (drain sort spec e.state).emitted ≡ items
  unfolding finish_run
  finish_run-drain e stats items h = ground arith

  latest-IsPlaced :
      (ps : Map ℤ PartitionSpec) (consumer : Consumer P) (r : RunEnd P) (stats : Stats)
      (items : List Record)
      → IsSortSlice sort
      → spec.partitions ≡ ps
      → spec.latest ≡ true
      → run lib sort spec matcher start finish consumer ≡ some r
      → r.outcome ≡ ok (stats, items)
      → All (InWindow spec) items × Descending items
  unfolding run
  latest-IsPlaced [] consumer r stats items s empty backward ran done =
      let none_ : [] ≡ items = ground arith in
      subst (λ rs. All (InWindow spec) rs × Descending rs) none_ (tt, tt)
  latest-IsPlaced (w ∷ ws) consumer r stats items s some_ backward ran done =
      let cursor = start_offsets spec.partitions in
      let polls = consumer.polls spec.topic cursor in
      elim (Option-cases (poll_loop lib spec matcher polls (fresh cursor))) [
        | inl polling ↦ ground arith
        | inr (e, ended) ↦
            let newest = (drain-IsNewest sort spec e.state s backward).0 in
            let gathered =
              All-map _ _ (InWindow-IsInside spec)
                (poll_loop-IsInside lib spec matcher polls cursor e ended) in
            subst (λ rs. All (InWindow spec) rs × Descending rs)
              (finish_run-drain e stats items (ground arith))
              (
                kept-InWindow spec spec.max_messages e.state.emitted _ newest gathered,
                newest.ordered,
              )
      ]

  -- With a sort that does what sort.Slice documents, every record that a scan returns lies in the
  -- window that its spec gives the record's partition, from the window's start on and before its end.
  -- The records of a forward scan strictly increase in offset within each partition, and those of a
  -- latest one come newest first.
  pub run-IsPlaced :
      (consumer : Consumer P) (r : RunEnd P) (stats : Stats) (items : List Record)
      → IsSortSlice sort
      → run lib sort spec matcher start finish consumer ≡ some r
      → r.outcome ≡ ok (stats, items)
      → IsPlaced spec items
  run-IsPlaced consumer r stats items s ran done = elim (Bool-cases spec.latest) [
    | inl backward ↦
        let h = latest-IsPlaced spec.partitions consumer r stats items s refl backward ran done in
        record { placed = h.0; forward = λ e. absurd (cc (e, backward)); backward = λ _. h.1 }
    | inr forward ↦
        let h =
          run-IsOrdered lib sort spec matcher start finish consumer r stats items forward ran
            done in
        record { placed = h.1; forward = λ _. h.0; backward = λ e. absurd (cc (e, forward)) }
  ]
