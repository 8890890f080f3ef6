-- ===== src/Message/Replay/Account.antt =====
-- How far a replay got: internal/service/message/replay.go, ApplyReplay's last loop.
use Prim.Native.Nat.{◌+◌, ◌≤◌}
use kafka3o_gateway.Prelude.{
  ℕ, zero, suc, ℤ, pos, ◌+ℤ◌, ◌≤ℤ◌, ◌≡◌, ◌⊎◌, refl, Bool, none, some, Option-cases, inl, inr, List,
  [], ◌∷◌, length, take, drop, get_elem?, All, arith, int_eq, eqb_ℤ_iff, +ℤ_parts,
}
use kafka3o_gateway.Prelude.Map
use kafka3o_gateway.Prelude.Map.{Map}
use kafka3o_gateway.Errors.{Err, ok, err}
use kafka3o_gateway.Scan.Types.{Record}
use kafka3o_gateway.Scan.Runner.Resume.{at_cursor}
use kafka3o_gateway.Scan.Runner.Window.{Follows, Increasing, Behind}
use kafka3o_gateway.Scan.Run.Latest.{All-take}
use kafka3o_gateway.Message.Service.{ProduceResult}
use kafka3o_gateway.Message.Replay.{returned, account, wrap_replay_failure}

-- The cursors after some records were copied, in order.
abbrev pub advance_past : List Record → Map ℤ ℤ → Map ℤ ℤ
advance_past [] c = c
advance_past (r ∷ rs) c = advance_past rs (Map.insert r.partition (r.offset +ℤ pos 1) c)

-- The result at index `n` is the first that failed.
pub record IsFirstFailure {P : Type 0} (results : List (ProduceResult P)) (n : ℕ) (e : Err P)
    : Type 0 where
  pub result : ProduceResult P
  pub here : get_elem? results n ≡ some result
  pub failed : result.error ≡ some e
  pub before : All (λ r. r.error ≡ none) (take n results)

module _ (P : Type 0) (reached_end : Bool) where
  -- When no result is missing an item, the loop counts every item up to the first failed result and
  -- moves the cursors past exactly these: all of them if none failed; otherwise the error carries the
  -- failure's index as the number copied, with the cursors at that point.
  pub account-IsFirstFailure :
      (results : List (ProduceResult P)) (items : List Record) (copied : ℕ) (c : Map ℤ ℤ)
      → length results ≤ length items
      → (All (λ r. r.error ≡ none) results
          × (account reached_end results items copied c
              ≡ returned (
                  ok (record {
                    copied = copied + length results;
                    cursor = advance_past (take (length results) items) c;
                    reached_end = reached_end;
                  }))))
        ⊎ ((n : ℕ) × (e : Err P) × IsFirstFailure results n e
            × (account reached_end results items copied c
                ≡ returned
                    (err (wrap_replay_failure e (copied + n) (advance_past (take n items) c)))))
  unfolding account
  account-IsFirstFailure [] items copied c h = inl (tt, ground arith)
  account-IsFirstFailure (r ∷ rs) [] copied c h = absurd (omega (arith, h))
  account-IsFirstFailure (r ∷ rs) (item ∷ items) copied c h = elim (Option-cases r.error) [
    | inr (e, failed) ↦
        inr (0, e, record { result = r; here = refl; failed = failed; before = tt }, ground arith)
    | inl fine ↦
        let c' = Map.insert item.partition (item.offset +ℤ pos 1) c in
        elim (account-IsFirstFailure rs items (suc copied) c' (omega (arith, h))) [
          | inl (all, e) ↦ inl ((fine, all), ground arith)
          | inr (n, e, f, same) ↦ inr (
            suc n,
            e,
            record {
              result = f.result;
              here = f.here;
              failed = f.failed;
              before = (fine, f.before);
            },
            ground arith,
          )
        ]
  ]

-- Not read yet: at or after the cursor of its partition.
abbrev pub Ahead : Map ℤ ℤ → Record → Type 0
Ahead c r = at_cursor c r.partition ≤ℤ r.offset

advance_past-Behind :
    (a : Record) (rs : List Record) (c : Map ℤ ℤ)
    → Behind c a
    → All (Follows a) rs
    → Behind (advance_past rs c) a
advance_past-Behind a [] c h later = h
advance_past-Behind a (r ∷ rs) c h later =
    advance_past-Behind a rs _
      (ground (
        arith,
        later.0,
        +ℤ_parts r.offset (pos 1),
        eqb_ℤ_iff r.partition a.partition,
        Map.get_or-insert (pos 0) r.partition a.partition (r.offset +ℤ pos 1) c,
      ))
      later.1

step-Ahead :
    (a b : Record) (c : Map ℤ ℤ)
    → Ahead c b
    → Follows a b
    → Ahead (Map.insert a.partition (a.offset +ℤ pos 1) c) b
step-Ahead a b c h later = ground (
  arith,
  later,
  +ℤ_parts a.offset (pos 1),
  eqb_ℤ_iff a.partition b.partition,
  Map.get_or-insert (pos 0) a.partition b.partition (a.offset +ℤ pos 1) c,
)

step-Ahead-All :
    (a : Record) (rs : List Record) (c : Map ℤ ℤ)
    → All (Ahead c) rs
    → All (Follows a) rs
    → All (Ahead (Map.insert a.partition (a.offset +ℤ pos 1) c)) rs
step-Ahead-All a [] c h later = tt
step-Ahead-All a (b ∷ rs) c h later =
    (step-Ahead a b c h.0 later.0, step-Ahead-All a rs c h.1 later.1)

step-Behind : (a : Record) (c : Map ℤ ℤ) → Behind (Map.insert a.partition (a.offset +ℤ pos 1) c) a
step-Behind a c = ground (
  arith,
  +ℤ_parts a.offset (pos 1),
  Map.get_or-insert_self (pos 0) a.partition (a.offset +ℤ pos 1) c,
)

-- Of records whose offsets increase in each partition, the copied ones are behind the cursors and
-- the others are not.
pub advance_past-split :
    (n : ℕ) (rs : List Record) (c : Map ℤ ℤ)
    → Increasing rs
    → All (Ahead c) rs
    → All (Behind (advance_past (take n rs) c)) (take n rs)
      × All (Ahead (advance_past (take n rs) c)) (drop n rs)
advance_past-split zero rs c inc h = (tt, h)
advance_past-split (suc n) [] c inc h = (tt, tt)
advance_past-split (suc n) (a ∷ rs) c inc h =
    let c' = Map.insert a.partition (a.offset +ℤ pos 1) c in
    let rest = advance_past-split n rs c' inc.1 (step-Ahead-All a rs c h.1 inc.0) in
    (
      (
        advance_past-Behind a (take n rs) c' (step-Behind a c) (All-take (Follows a) n rs inc.0),
        rest.0,
      ),
      rest.1,
    )
