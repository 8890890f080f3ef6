-- ===== src/Command/Facts.antt =====
-- What the catalog guarantees the gates: internal/command/table.go.
use kafka3o_gateway.Prelude.{
  String, ◌≡◌, sym, ap, ◌∙◌, ◌==◌, true, some, List, [], ◌∷◌, All, arith, eq_iff, string_eq,
  Bool-cases, inl, inr,
}
use mathlib.Core.Path.{subst}
use mathlib.Core.Option.{some-injective}
use kafka3o_gateway.Command.{w, Descriptor, table, find, lookup}
use kafka3o_gateway.Audit.Schema.{high_severity_command}

-- What `find` returns has the id that was asked for, and every property that all rows have.
pub find_sound :
    (P : Descriptor → Type 0) (i : String) (ds : List Descriptor) (d : Descriptor)
    → All P ds
    → find i ds ≡ some d
    → P d × (d.id ≡ i)
unfolding find
find_sound P i [] d h e = cc
find_sound P i (x ∷ ds) d h e = elim (Bool-cases (x.id == i)) [
  | inl same ↦
      let q : some x ≡ some d = rw same at e in
      (
        subst P (some-injective x d q) h.0,
        sym (ap (λ y. y.id) (some-injective x d q)) ∙ (eq_iff x.id i).0 same,
      )
  | inr other ↦ find_sound P i ds d h.1 (rw other at e)
]

abbrev pub IsGuarded : Descriptor → Type 0
IsGuarded d =
    (d.destructive ≡ true → d.access ≡ w)
    × (high_severity_command d.id ≡ true → d.destructive ≡ true)

table-IsGuarded : All IsGuarded table
unfolding table high_severity_command
table-IsGuarded = ground arith

-- Looking an id up gives its row: a destructive row is a write, and a command whose audit events are
-- of high severity is destructive.
pub lookup-IsGuarded : (i : String) (d : Descriptor) → lookup i ≡ some d → IsGuarded d × (d.id ≡ i)
unfolding lookup
lookup-IsGuarded i d e = find_sound IsGuarded i table d table-IsGuarded e

-- The catalog has no two rows of one id: looking up the id of any row gives that row.
pub table-lookup : All (λ d. lookup d.id ≡ some d) table
unfolding table lookup
table-lookup = ground arith
