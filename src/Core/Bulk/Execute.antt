-- ===== src/Core/Bulk/Execute.antt =====
-- Independent execution accounts for every item: internal/service/core/bulk.go.
use kafka3o_gateway.Prelude.{
  ℕ, suc, ◌+◌, ◌≡◌, refl, Option, none, some, List, [], ◌∷◌, arith, length, map,
}
use kafka3o_gateway.Errors.{Err, BulkItemResult}
use kafka3o_gateway.Audit.Schema.{succeeded, failed}
use kafka3o_gateway.Audit.{Io}
use kafka3o_gateway.Core.Bulk.{BulkResult, add_item, execute_from, bulk_execute}

-- How many items have an outcome.
abbrev pub count_failed : List BulkItemResult → ℕ
count_failed [] = 0
count_failed (f ∷ fs) = elim f.outcome [ failed ↦ suc (count_failed fs) | _ ↦ count_failed fs ]

abbrev pub count_succeeded : List BulkItemResult → ℕ
count_succeeded [] = 0
count_succeeded (f ∷ fs) = elim f.outcome [
  | succeeded ↦ suc (count_succeeded fs)
  | _ ↦ count_succeeded fs
]

-- i, i + 1, …
abbrev pub range_from : ℕ → ℕ → List ℕ
range_from i ℕ.zero = []
range_from i (suc n) = i ∷ range_from (suc i) n

-- The report is complete: one entry for each item in index order, and counts that agree with it.
pub record IsComplete (total i n : ℕ) (r : BulkResult) : Type 0 where
  pub indexed : map (λ f. f.index) r.items ≡ range_from i n
  pub failures : r.summary.failed ≡ count_failed r.items
  pub successes : r.summary.succeeded ≡ count_succeeded r.items
  pub accounted : r.summary.succeeded + r.summary.failed ≡ n
  pub counted : r.summary.total ≡ total

add_item-IsComplete :
    {P : Type 0} (total i n : ℕ) (e : Option (Err P)) (r : BulkResult)
    → IsComplete total (suc i) n r
    → IsComplete total i (suc n) (add_item i e r)
unfolding add_item
add_item-IsComplete total i n none r h = ground arith
add_item-IsComplete total i n (some e) r h = ground arith

module _ {P T W : Type 0} (execute : T → Io W (Option (Err P))) where
  execute_from-IsComplete :
      (total i : ℕ) (xs : List T) (w : W)
      → IsComplete total i (length xs) (execute_from execute total i xs w).0
  unfolding execute_from
  execute_from-IsComplete total i [] w = ground arith
  execute_from-IsComplete total i (x ∷ xs) w =
      add_item-IsComplete total i (length xs) (execute x w).0 _
        (execute_from-IsComplete total (suc i) xs (execute x w).1)

  -- The report of a bulk operation is complete: an entry for each item in index order, the counts
  -- agree with the entries, and they add up to the number of items.
  pub bulk_execute-IsComplete :
      (xs : List T) (w : W) → IsComplete (length xs) 0 (length xs) (bulk_execute execute xs w).0
  unfolding bulk_execute
  bulk_execute-IsComplete xs w = execute_from-IsComplete (length xs) 0 xs w

  -- Every item executed, in order, whatever the others returned.
  abbrev pub executed : List T → W → W
  executed [] w = w
  executed (x ∷ xs) w = executed xs (execute x w).1

  execute_from-executed :
      (total i : ℕ) (xs : List T) (w : W) → (execute_from execute total i xs w).1 ≡ executed xs w
  unfolding execute_from
  execute_from-executed total i [] w = refl
  execute_from-executed total i (x ∷ xs) w = execute_from-executed total (suc i) xs (execute x w).1

  pub bulk_execute-executed : (xs : List T) (w : W) → (bulk_execute execute xs w).1 ≡ executed xs w
  unfolding bulk_execute
  bulk_execute-executed xs w = execute_from-executed (length xs) 0 xs w
