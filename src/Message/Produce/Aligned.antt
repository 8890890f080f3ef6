-- ===== src/Message/Produce/Aligned.antt =====
-- Each reported item carries the producer's own answer to it, although the answers travel through an
-- array and a counter that the execution closes over: internal/service/message/produce.go.
use kafka3o_gateway.Prelude.{
  ℕ, zero, suc, ◌+◌, ◌≤◌, ◌<◌, ℤ, pos, ◌≡◌, refl, ap, sym, ◌∙◌, String, Option, none, some, All,
  Option-cases, inl, inr, List, [], ◌∷◌, map, length, arith,
}
use kafka3o_gateway.Errors.{Err, Result, ok, err, other}
use kafka3o_gateway.Errors.Text.{error_text}
use kafka3o_gateway.Audit.Schema.{Event, Phase, succeeded, failed}
use kafka3o_gateway.Audit
use kafka3o_gateway.Audit.{Io, Sink}
use kafka3o_gateway.Core.Bulk.Validate.{IsAccepted}
use kafka3o_gateway.Core.Bulk.Outcome.{bulk_run-executed}
use kafka3o_gateway.Core.Bulk.Execute.{executed, bulk_execute-executed}
use kafka3o_gateway.Core.Bulk.{
  BulkSummary, BulkResult, bulk_run, add_item, execute_from, bulk_execute,
}
use kafka3o_gateway.Scan.Codec.{Encodings}
use kafka3o_gateway.Message.Service.{Service, ProduceResult}
use kafka3o_gateway.Message.Events.{result_event}
use kafka3o_gateway.Message.Produce.{
  ProduceItem, ProduceItemResult, Captured, set_at, produced_at, store, item_result, item_results,
  executed_item, produce_item, produce_items, sink_beside, beside, to_produce_result,
  validate_produce_item, to_produce_request, no_results, unix_milli,
}

-- The report of one item, from the producer's answer to it alone.
abbrev pub failed_report : {P : Type 0} → ℕ → Err P → ProduceItemResult
failed_report i e = record {
  index = i;
  outcome = failed;
  partition = pos 0;
  offset = pos 0;
  timestamp_ms = pos 0;
  error = error_text e;
}

unfoldable pub report_of : {P : Type 0} → ℕ → Result P (List (ProduceResult P)) → ProduceItemResult
report_of i (err e) = failed_report i e
report_of {P = P} i (ok []) = failed_report {P = P} i (other "index out of range")
report_of i (ok (r ∷ rs)) = elim r.error [
  | some e ↦ failed_report i e
  | none ↦ record {
    index = i;
    outcome = succeeded;
    partition = r.partition;
    offset = r.offset;
    timestamp_ms = unix_milli r.timestamp;
    error = "";
  }
]

unfoldable pub reports_of :
    {P : Type 0} → ℕ → List (Result P (List (ProduceResult P))) → List ProduceItemResult
unfolding report_of
reports_of i [] = []
reports_of i (a ∷ others) = report_of i a ∷ reports_of (suc i) others

set_at-length : {A : Type 0} (i : ℕ) (r : A) (xs : List A) → length (set_at i r xs) ≡ length xs
unfolding set_at
set_at-length i r [] = refl
set_at-length zero r (x ∷ xs) = refl
set_at-length (suc i) r (x ∷ xs) = ap suc (set_at-length i r xs)

module _ {P : Type 0} where
  store-length :
      (i : ℕ) (slot : Option (ProduceResult P)) (xs : List (ProduceResult P))
      → length (store i slot xs) ≡ length xs
  store-length i none xs = refl
  store-length i (some r) xs = set_at-length i r xs

  produced_at-set :
      (i : ℕ) (r : ProduceResult P) (xs : List (ProduceResult P))
      → i < length xs
      → produced_at i (set_at i r xs) ≡ r
  unfolding produced_at set_at
  produced_at-set i r [] h = ground arith
  produced_at-set zero r (x ∷ xs) h = refl
  produced_at-set (suc i) r (x ∷ xs) h = produced_at-set i r xs (omega (arith, h))

  produced_at-other :
      (i j : ℕ) (r : ProduceResult P) (xs : List (ProduceResult P))
      → j < i
      → produced_at j (set_at i r xs) ≡ produced_at j xs
  unfolding produced_at set_at
  produced_at-other i j r [] h = refl
  produced_at-other zero j r (x ∷ xs) h = ground arith
  produced_at-other (suc i) zero r (x ∷ xs) h = refl
  produced_at-other (suc i) (suc j) r (x ∷ xs) h = produced_at-other i j r xs (omega (arith, h))

  produced_at-store :
      (i j : ℕ) (slot : Option (ProduceResult P)) (xs : List (ProduceResult P))
      → j < i
      → produced_at j (store i slot xs) ≡ produced_at j xs
  produced_at-store i j none xs h = refl
  produced_at-store i j (some r) xs h = produced_at-other i j r xs h

  head_reported :
      (i : ℕ) (answer : Result P (List (ProduceResult P))) (arr produced : List (ProduceResult P))
      (rest : BulkResult)
      → i < length arr
      → produced_at i produced ≡ produced_at i (store i (executed_item answer).1 arr)
      → item_results i produced (add_item i (executed_item answer).0 rest).items
        ≡ report_of i answer ∷ item_results (suc i) produced rest.items
  unfolding item_results item_result add_item executed_item report_of
  head_reported i (err e) arr produced rest h k = refl
  head_reported i (ok []) arr produced rest h k = refl
  head_reported i (ok (r ∷ rs)) arr produced rest h k = elim (Option-cases r.error) [
    | inr (e, bad) ↦ rw bad refl
    | inl fine ↦ rw (fine, k ∙ produced_at-set i r arr h) refl
  ]

module _ {P W : Type 0} (lib : Encodings) (s : Service P W) (topic : String) where
  -- The producer's answers, one call for each item in order.
  unfoldable pub answers : List ProduceItem → Io W (List (Result P (List (ProduceResult P))))
  unfolding to_produce_request
  answers [] w = ([], w)
  answers (x ∷ xs) w =
      let (a, w₁) = s.produce topic (to_produce_request lib x ∷ []) w in
      let (rest, w₂) = answers xs w₁ in (a ∷ rest, w₂)

  -- What an execution from index `i` leaves: the slots below are as they were, its report is that of
  -- the answers, and the state is the one after the last answer.
  record IsAligned (i : ℕ) (before : Captured P) (xs : List ProduceItem) (w : W) (r : BulkResult)
      (after : W × Captured P) : Type 0 where
    pub kept : (j : ℕ) → j < i → produced_at j after.1.produced ≡ produced_at j before.produced
    pub reported : item_results i after.1.produced r.items ≡ reports_of i (answers xs w).0
    pub ended : after.0 ≡ (answers xs w).1

  execute_from-IsAligned :
      (total : ℕ) (xs : List ProduceItem) (w : W) (c : Captured P)
      → c.next + length xs ≤ length c.produced
      → let (r, after) = execute_from (produce_item lib s topic) total c.next xs (w, c) in
        IsAligned c.next c xs w r after
  unfolding execute_from item_results reports_of produce_item answers
  execute_from-IsAligned total [] w c fits = record {
    kept = λ j h. refl;
    reported = refl;
    ended = refl;
  }
  execute_from-IsAligned total (x ∷ xs) w c fits =
      let (answer, w₁) = s.produce topic (to_produce_request lib x ∷ []) w in
      let slot = (executed_item answer).1 in
      let c₁ : Captured P = record { next = suc c.next; produced = store c.next slot c.produced } in
      let rest =
        execute_from-IsAligned total xs w₁ c₁
          (omega (arith, fits, store-length c.next slot c.produced)) in
      record {
        kept = λ j h. rest.kept j (omega (arith, h)) ∙ produced_at-store c.next j slot c.produced h;
        reported =
            head_reported c.next answer c.produced _ _ (omega (arith, fits))
              (rest.kept c.next (omega arith))
            ∙ ap (λ l. report_of c.next answer ∷ l) rest.reported;
        ended = rest.ended;
      }

length-no_results : (P : Type 0) (n : ℕ) → length (no_results {P = P} n) ≡ n
unfolding no_results
length-no_results P zero = refl
length-no_results P (suc n) = ap suc (length-no_results P n)

-- Lifted over the captured variables, an ATTEMPT does what it did.
attempt-beside :
    {P W C : Type 0} (sinks : List (Sink P W)) (ev : Event) (w : W) (c : C)
    → Audit.attempt (map sink_beside sinks) ev (w, c)
      ≡ ((Audit.attempt sinks ev w).0, ((Audit.attempt sinks ev w).1, c))
unfolding Audit.attempt
attempt-beside [] ev w c = refl
attempt-beside (sink ∷ sinks) ev w c =
    elim (Option-cases (sink (record ev { phase = Phase.attempt }) w).0) [
      | inl wrote ↦
          ground (
            arith,
            attempt-beside sinks ev (sink (record ev { phase = Phase.attempt }) w).1 c,
            wrote,
          )
      | inr (e, refused) ↦ ground (arith, refused)
    ]

result-beside :
    {P W C : Type 0} (sinks : List (Sink P W)) (ev : Event) (w : W) (c : C)
    → (Audit.result (map sink_beside sinks) ev (w, c)).1 ≡ c
unfolding Audit.result
result-beside [] ev w c = refl
result-beside (sink ∷ sinks) ev w c =
    result-beside sinks ev (sink (record ev { phase = Phase.result }) w).1 c

-- The report is made of the captured results that the bulk run left.
produce_items-report :
    {P W : Type 0} (lib : Encodings) (quoted : String → String) (s : Service P W) (attempt : Event)
    (count : ℤ) (topic : String) (items : List ProduceItem) (w : W) (r : BulkResult)
    (after : W × Captured P)
    → bulk_run
        (map sink_beside s.sinks)
        attempt
        (λ summary. beside (result_event s attempt summary))
        (validate_produce_item lib quoted count)
        (produce_item lib s topic)
        items
        (w, record { next = 0; produced = no_results (length items) })
      ≡ (ok r, after)
    → (produce_items lib quoted s attempt count topic items w).0
      ≡ ok (to_produce_result after.1.produced r)
unfolding produce_items
produce_items-report lib quoted s attempt count topic items w r after h = ground (arith, h)

module _ {P W : Type 0} (lib : Encodings) (quoted : String → String) (s : Service P W)
    (attempt : Event) (count : ℤ) (topic : String) (items : List ProduceItem) (w : W) where
  -- With valid items, if the sinks accept the ATTEMPT, the report has one entry for each item in
  -- order, with the partition, offset and time that the producer answered for that item, or its error.
  pub produce_items-IsAligned :
      All (IsAccepted (validate_produce_item {P = P} lib quoted count)) items
      → (Audit.attempt s.sinks attempt w).0 ≡ none
      → (summary : BulkSummary) × ((produce_items lib quoted s attempt count topic items w).0
          ≡ ok (record {
            items = reports_of 0 (answers lib s topic items (Audit.attempt s.sinks attempt w).1).0;
            summary = summary;
          }))
  unfolding to_produce_result bulk_execute
  produce_items-IsAligned valid accepted =
      let start : Captured P = record { next = 0; produced = no_results (length items) } in
      let w₁ = (Audit.attempt s.sinks attempt w).1 in
      let lifted = attempt-beside s.sinks attempt w start in
      let ran = bulk_execute execute items (w₁, start) in
      let aligned =
        execute_from-IsAligned lib s topic (length items) items w₁ start
          (omega (arith, length-no_results P (length items))) in
      let final = executed execute items (w₁, start) in
      let (closed, left) = closing ran.0.summary final in
      let captured : (Audit.result sinks closed left).1 ≡ ran.1.1 =
        result-beside s.sinks closed left.0 left.1
        ∙ ap (λ (v : W × Captured P). v.1)
            (sym (bulk_execute-executed execute items (w₁, start))) in
      (
        ran.0.summary,
        produce_items-report lib quoted s attempt count topic items w ran.0 _ (
              bulk_run-executed sinks attempt closing validate execute items (w, start) valid
                ((λ i. (lifted i).0) ∙ accepted)
              ∙ ap answer_from (λ i. (lifted i).1))
            ∙ ap (λ (c : Captured P). ok (to_produce_result c.produced ran.0)) captured
            ∙ ap (λ reports. ok (record { items = reports; summary = ran.0.summary }))
                aligned.reported,
      )
    where
      execute : ProduceItem → Io (W × Captured P) (Option (Err P))
      execute = produce_item lib s topic

      sinks : List (Sink P (W × Captured P))
      sinks = map sink_beside s.sinks

      validate : ProduceItem → Option (Err P)
      validate = validate_produce_item lib quoted count

      closing : BulkSummary → Io (W × Captured P) Event
      closing summary = beside (result_event s attempt summary)

      answer_from : W × Captured P → Result P BulkResult × (W × Captured P)
      answer_from before =
          let r = (bulk_execute execute items before).0 in
          let (event, after) = closing r.summary (executed execute items before) in
          (ok r, Audit.result sinks event after)
