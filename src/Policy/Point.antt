-- ===== src/Policy/Point.antt =====
-- src/application/policy-decision-point.mjs and policy-batch-evaluator.mjs: one decision, and a
-- sequence of decisions, over the collaborator that finds the candidates.
pub mod Batch
use metaframer_kernel.Base.{
  ℕ, length, ◌==◌, ◌&&◌, require, ◌>>◌ as ◌also◌, Option, none, some, List, [], ◌∷◌, Outcome, ok,
  err, type_error,
}
use metaframer_kernel.Base.Effects.{Eff, pure, throw, lift, ◌>>=◌}
use metaframer_kernel.Text.{codes}
use metaframer_kernel.Js.{Value, ref, Heap, is_enumerable_data, own_property, read}
use metaframer_kernel.Js.Shape.{is_ordinary_object, has_key}
use metaframer_kernel.Clock.Port.{function_of}
use metaframer_kernel.Policy.Types.{PolicyRequest, PolicyDecision, Foreign, genuine, real}
use metaframer_kernel.Policy.Evaluator.{decide}

-- `checkOptions` of the decision point: its one collaborator.
unfoldable pub point_options : Heap → Value → Outcome ℕ
point_options h (ref r) =
    require (is_ordinary_object h (ref r)) type_error
    also require ((length (h r).props == 1) && has_key (h r).props (codes "candidatesFor"))
        type_error
    also require (is_enumerable_data (own_property (codes "candidatesFor") (h r).props)) type_error
    also function_of (read (codes "candidatesFor") (h r).props)
point_options h _ = err type_error

-- What the collaborator `candidatesFor` answers is any value, read in the heap of that moment.
module _ {W : Type 0} (candidates_for : PolicyRequest → Eff W (Heap × Value)) where
  -- `PolicyDecisionPoint.decide`
  unfoldable pub point_decide : Foreign PolicyRequest → Eff W PolicyDecision
  point_decide request = elim (genuine request) [
    | none ↦ throw type_error
    | some r ↦ do answer ← candidates_for r; lift (decide answer.0 (real r) answer.1)
  ]

  -- The loop of `PolicyBatchEvaluator.decideAll`, over the requests left.
  unfoldable pub decide_each : List PolicyRequest → Eff W (List PolicyDecision)
  unfolding point_decide
  decide_each [] = pure []
  decide_each (r ∷ rs) = do
    decision ← point_decide (real r)
    rest ← decide_each rs
    pure (decision ∷ rest)

-- `checkRequests`, over the elements of an array of dense data: each must be a genuine request.
unfoldable pub check_requests : List (Foreign PolicyRequest) → Outcome (List PolicyRequest)
check_requests [] = ok []
check_requests (v ∷ vs) = elim (genuine v) [
  | none ↦ err type_error
  | some r ↦ elim (check_requests vs) [ ok rs ↦ ok (r ∷ rs) | err e ↦ err e ]
]

-- `PolicyBatchEvaluator.decideAll`; `none` is an argument that is no dense array of data.
unfoldable pub decide_all :
    {W : Type 0}
    → (PolicyRequest → Eff W (Heap × Value))
    → Option (List (Foreign PolicyRequest))
    → Eff W (List PolicyDecision)
unfolding decide_each check_requests
decide_all candidates_for none = throw type_error
decide_all candidates_for (some vs) = do
  snapshot ← lift (check_requests vs)
  decide_each candidates_for snapshot
