-- ===== src/Core/Bulk/Validate.antt =====
-- Validation decides all items before anything runs: internal/service/core/bulk.go.
use kafka3o_gateway.Prelude.{
  ℕ, suc, ◌+◌, ◌≡◌, ◌↔◌, refl, true, Option, none, some, List, [], ◌∷◌, All, All-map, ap, ◌∙◌,
  get_elem?, Bool-cases, arith, Option-cases, inl, inr,
}
use kafka3o_gateway.Errors.{Err, err, BulkItemResult}
use kafka3o_gateway.Audit.Schema.{Event}
use kafka3o_gateway.Audit.{Io, Sink}
use kafka3o_gateway.Core.Bulk.{
  validate_from, bulk_validate, bulk_run, validation_error, BulkSummary, failed_item,
}

module _ {P T : Type 0} (validate : T → Option (Err P)) where
  abbrev pub IsAccepted : T → Type 0
  IsAccepted x = validate x ≡ none

  validate_from-nil : (i : ℕ) (xs : List T) → All IsAccepted xs → validate_from validate i xs ≡ []
  unfolding validate_from
  validate_from-nil i [] h = refl
  validate_from-nil i (x ∷ xs) h = ground (arith, validate_from-nil (suc i) xs h.1)

  nil-validate_from : (i : ℕ) (xs : List T) → validate_from validate i xs ≡ [] → All IsAccepted xs
  unfolding validate_from
  nil-validate_from i [] h = tt
  nil-validate_from i (x ∷ xs) h = elim (Option-cases (validate x)) [
    | inl fine ↦ (fine, nil-validate_from (suc i) xs (ground arith))
    | inr (e, bad) ↦ ground arith
  ]

  -- A listed failure stands at the index that it names, with the text of that item's error.
  pub record IsFailureOf (i : ℕ) (xs : List T) (f : BulkItemResult) : Type 0 where
    pub place : ℕ
    pub item : T
    pub reason : Err P
    pub at : get_elem? xs place ≡ some item
    pub invalid : validate item ≡ some reason
    pub reported : f ≡ failed_item (i + place) reason

  IsFailureOf-tail :
      (i : ℕ) (x : T) (xs : List T) (f : BulkItemResult)
      → IsFailureOf (suc i) xs f
      → IsFailureOf i (x ∷ xs) f
  IsFailureOf-tail i x xs f h = record {
    place = suc h.place;
    item = h.item;
    reason = h.reason;
    at = h.at;
    invalid = h.invalid;
    reported = h.reported ∙ ap (λ k. failed_item k h.reason) (omega arith);
  }

  validate_from_sound : (i : ℕ) (xs : List T) → All (IsFailureOf i xs) (validate_from validate i xs)
  unfolding validate_from
  validate_from_sound i [] = tt
  validate_from_sound i (x ∷ xs) =
      let rest =
        All-map (IsFailureOf (suc i) xs) (validate_from validate (suc i) xs)
          (IsFailureOf-tail i x xs) (validate_from_sound (suc i) xs) in
      elim (Option-cases (validate x)) [
        | inl fine ↦ rw (fine, validate_from) rest
        | inr (e, bad) ↦
            rw (bad, validate_from)
              (
                record {
                  place = 0;
                  item = x;
                  reason = e;
                  at = refl;
                  invalid = bad;
                  reported = ap (λ k. failed_item k e) (omega arith);
                },
                rest,
              )
      ]

  pub bulk_validate-fst :
      (xs : List T) → (bulk_validate validate xs).0 ≡ validate_from validate 0 xs
  unfolding bulk_validate
  bulk_validate-fst xs = ground arith

  -- Every failure that validation lists is a failing item, named by its index and its error's text.
  pub bulk_validate_sound : (xs : List T) → All (IsFailureOf 0 xs) (bulk_validate validate xs).0
  bulk_validate_sound xs = rw bulk_validate-fst (validate_from_sound 0 xs)

  -- Validation is ok exactly when every item passes, and then it lists no failure.
  pub bulk_validate-ok :
      (xs : List T) → (bulk_validate validate xs ≡ ([], true)) ↔ All IsAccepted xs
  unfolding bulk_validate
  bulk_validate-ok xs = (
    λ h. nil-validate_from 0 xs (ground arith),
    λ h. rw (bulk_validate, validate_from-nil 0 xs h) refl,
  )

pub bulk_validate-valid :
    {P T : Type 0} (validate : T → Option (Err P)) (xs : List T)
    → (bulk_validate validate xs).1 ≡ true
    → bulk_validate validate xs ≡ ([], true)
unfolding bulk_validate
bulk_validate-valid validate xs h = ground arith

module _ {P T W : Type 0} (sinks : List (Sink P W)) (attempt : Event)
    (result_from : BulkSummary → W → Event × W) (validate : T → Option (Err P)) where
  -- If an item fails validation, nothing is executed and nothing is audited: the state is untouched,
  -- and the error lists the failures.
  pub bulk_run-invalid :
      (execute : T → Io W (Option (Err P))) (xs : List T) (w : W)
      → ¬ All (IsAccepted validate) xs
      → bulk_run sinks attempt result_from validate execute xs w
        ≡ (err (validation_error (bulk_validate validate xs).0), w)
  unfolding bulk_run
  bulk_run-invalid execute xs w bad = elim (Bool-cases (bulk_validate validate xs).1) [
    | inl valid ↦
        absurd (bad ((bulk_validate-ok validate xs).0 (bulk_validate-valid validate xs valid)))
    | inr invalid ↦ ground arith
  ]
