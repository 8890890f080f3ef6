-- ===== src/Topic/Delete/Targets.antt =====
-- The targets of a bulk deletion and their token do not depend on how they were listed:
-- internal/service/topic/delete.go, internal/service/core/plantoken.go.
use kafka3o_gateway.Prelude.{◌≡◌, refl, ap, sym, ◌∙◌, String, Bool, List, [], ◌∷◌, string_eq, arith}
use mathlib.Core.Path.{subst}
use kafka3o_gateway.Prelude.Sort.{sort_by, string_order}
use kafka3o_gateway.Prelude.Sort.Unique.{
  itself, has, unseen, unseen-has, unseen-Distinct, sort_by-has, sort_by-Increasing, Increasing,
  Increasing-unique,
}
use kafka3o_gateway.Errors.{Result, ok}
use kafka3o_gateway.Core.Token.{token, token-same}
use kafka3o_gateway.Topic.Service.{TopicService}
use kafka3o_gateway.Topic.Delete.{
  listed_targets, resolve_bulk_delete_targets, plan_bulk_delete, BulkDeletePlan,
}

abbrev once : List String → List String
once topics = sort_by itself (unseen [] topics)

once-has : (a : String) (topics : List String) → has a (once topics) ≡ has a topics
unfolding has
once-has a topics = sort_by-has a (unseen [] topics) ∙ unseen-has a [] topics

once-Increasing : (topics : List String) → Increasing (once topics)
once-Increasing topics = sort_by-Increasing (unseen [] topics) (unseen-Distinct [] topics)

once-same : (xs ys : List String) → ((a : String) → has a xs ≡ has a ys) → once xs ≡ once ys
once-same xs ys same =
    Increasing-unique (once xs) (once ys) (once-Increasing xs) (once-Increasing ys)
      (λ a. once-has a xs ∙ same a ∙ sym (once-has a ys))

module _ {P W : Type 0} (compile : String → Result P (String → Bool)) (digest : String → String)
    (s : TopicService P W) where
  plan-once :
      (t : String) (ts : List String) (w : W)
      → plan_bulk_delete compile digest s (t ∷ ts) "" w ≡ (
        ok (record { topics = once (t ∷ ts); plan_token = token digest "T8" (once (t ∷ ts)) }),
        w,
      )
  unfolding plan_bulk_delete resolve_bulk_delete_targets listed_targets
  plan-once t ts w = refl

  -- Two lists that name the same topics, in any order and with any repetition, give the same plan
  -- and so the same token.
  pub plan_bulk_delete-same :
      (x y : String) (xs ys : List String) (w : W)
      → ((a : String) → has a (x ∷ xs) ≡ has a (y ∷ ys))
      → plan_bulk_delete compile digest s (x ∷ xs) "" w
        ≡ plan_bulk_delete compile digest s (y ∷ ys) "" w
  plan_bulk_delete-same x y xs ys w same =
      plan-once x xs w
      ∙ ap (λ ts. (ok (record { topics = ts; plan_token = token digest "T8" ts }), w))
          (once-same (x ∷ xs) (y ∷ ys) same)
      ∙ sym (plan-once y ys w)

-- What a plan for an explicit list promises.
pub record IsCanonical (digest : String → String) (requested : List String) (plan : BulkDeletePlan)
    : Type 0 where
  pub increasing : Increasing plan.topics
  pub members : (a : String) → has a plan.topics ≡ has a requested
  pub tokened : plan.plan_token ≡ token digest "T8" requested

planned :
    {P W : Type 0} {a b : BulkDeletePlan} {v v' : W}
    → ◌≡◌ {A = Result P BulkDeletePlan × W} (ok a, v) (ok b, v')
    → a ≡ b
planned h = ground arith

-- The plan for an explicit list has each listed topic once, in increasing order, and the token that
-- the list itself has.
pub plan_bulk_delete-IsCanonical :
    {P W : Type 0} (compile : String → Result P (String → Bool)) (digest : String → String)
    (s : TopicService P W) (t : String) (ts : List String) (w w' : W) (plan : BulkDeletePlan)
    → plan_bulk_delete compile digest s (t ∷ ts) "" w ≡ (ok plan, w')
    → IsCanonical digest (t ∷ ts) plan
plan_bulk_delete-IsCanonical compile digest s t ts w w' plan h =
    let xs = t ∷ ts in
    let same : plan ≡ record { topics = once xs; plan_token = token digest "T8" (once xs) } =
      planned (sym h ∙ plan-once compile digest s t ts w) in
    subst (IsCanonical digest xs) (sym same) (record {
      increasing = once-Increasing xs;
      members = λ a. once-has a xs;
      tokened = token-same digest "T8" (once xs) xs (λ a. once-has a xs);
    })
