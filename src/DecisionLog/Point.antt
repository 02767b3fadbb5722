-- ===== src/DecisionLog/Point.antt =====
-- src/application/decision-logging-policy-decision-point.mjs and decision-log-port.mjs: decisions
-- that are answered only after their entry was appended to the log.
use metaframer_kernel.Base.{
  Bool, false, Option, none, some, List, [], ◌∷◌, find, if◌then◌else◌, Outcome, ok, err, type_error,
}
use metaframer_kernel.Base.Effects.{Eff, pure, throw, lift, ◌>>=◌, ◌>>◌}
use metaframer_kernel.Text.{Text, codes, text_eq}
use metaframer_kernel.Js.{Value, string, ref, Heap, own_property, read}
use metaframer_kernel.Js.Shape.{dense_elements}
use metaframer_kernel.Canonical.{Json}
use metaframer_kernel.Clock.Port.{now}
use metaframer_kernel.Policy.Types.{PolicyRequest, PolicyDecision, Foreign, genuine, real}
use metaframer_kernel.Policy.Evaluator.{decide}
use metaframer_kernel.Policy.Point.{check_requests}
use metaframer_kernel.DecisionLog.{LogEntry, decision_log_entry}

-- `candidate.policyId === matchedPolicyId`
unfoldable pub has_policy_id : Heap → Text → Value → Bool
unfolding read
has_policy_id h id (ref r) = elim (read (codes "policyId") (h r).props) [
  | string s ↦ text_eq s id
  | _ ↦ false
]
has_policy_id h id _ = false

-- The winner's own `layer`, or "tenant"; a property of no object is a TypeError.
unfoldable pub own_layer : Heap → Value → Outcome Value
unfolding own_property read
own_layer h (ref r) = elim (own_property (codes "layer") (h r).props) [
  | none ↦ ok (string (codes "tenant"))
  | some _ ↦ ok (read (codes "layer") (h r).props)
]
own_layer h _ = err type_error

-- `layerOf`, over the candidates as the collaborator answered them.
unfoldable pub layer_of : Heap → Value → Option Text → Outcome Value
unfolding has_policy_id own_layer
layer_of h candidates none = ok Value.null
layer_of h candidates (some id) = elim (dense_elements h candidates) [
  | none ↦ err type_error
  | some vs ↦ elim (find (has_policy_id h id) vs) [ none ↦ err type_error | some v ↦ own_layer h v ]
]

-- The collaborators of the constructor. `append` is that of the DecisionLogPort, which hands on
-- every genuine entry; `clock` is what the Clock reads.
pub record Collaborators (W : Type 0) : Type 0 where
  pub candidates_for : PolicyRequest → Eff W (Heap × Value)
  pub append : LogEntry → Eff W (Unit {0})
  pub id_generator : Eff W Value
  pub clock : Eff W Value
  pub chain_head : Text → Eff W Value

abbrev pub tenant_of : PolicyRequest → Text
tenant_of request = request.action.principal.tenant_id

-- The map `heads`, the last `set` first.
abbrev pub Heads : Type 0
Heads = List (Text × Text)

unfoldable pub get_head : Text → Heads → Option Text
get_head t [] = none
get_head t ((k, hash) ∷ heads) = if text_eq k t then some hash else get_head t heads

module _ {W : Type 0} (sha256_of : Json → Text) (port : Collaborators W) where
  -- `#logOne`
  unfoldable pub log_one : PolicyRequest → Eff W Value → Eff W (PolicyDecision × LogEntry)
  log_one request resolve_prev_hash = do
    answer ← port.candidates_for request
    decision ← lift (decide answer.0 (real request) answer.1)
    layer_resolved ← lift (layer_of answer.0 answer.1 decision.matched_policy_id)
    prev_hash ← resolve_prev_hash
    id ← port.id_generator
    ts ← now port.clock
    entry ← lift (
        decision_log_entry sha256_of (record {
          id = id;
          request = real request;
          decision = real decision;
          layer_resolved = layer_resolved;
          ts = string ts;
          prev_hash = prev_hash;
        }))
    port.append entry
    pure (decision, entry)

  -- `decide`
  unfoldable pub decide_logged : Foreign PolicyRequest → Eff W PolicyDecision
  unfolding log_one
  decide_logged request = elim (genuine request) [
    | none ↦ throw type_error
    | some r ↦ do logged ← log_one r (port.chain_head (tenant_of r)); pure logged.0
  ]

  -- `resolvePrevHash` of a batch: the head that the batch itself set, or that of the store.
  unfoldable pub resolve_prev_hash : Heads → PolicyRequest → Eff W Value
  unfolding get_head
  resolve_prev_hash heads r = elim (get_head (tenant_of r) heads) [
    | none ↦ port.chain_head (tenant_of r)
    | some hash ↦ pure (string hash)
  ]

  -- The loop of `decideAll`.
  unfoldable pub decide_each_logged : Heads → List PolicyRequest → Eff W (List PolicyDecision)
  unfolding log_one resolve_prev_hash
  decide_each_logged heads [] = pure []
  decide_each_logged heads (r ∷ rs) = do
    logged ← log_one r (resolve_prev_hash heads r)
    rest ← decide_each_logged ((tenant_of r, logged.1.entry_hash) ∷ heads) rs
    pure (logged.0 ∷ rest)

  -- `decideAll`; `none` is an argument that is no dense array of data.
  unfoldable pub decide_all_logged :
      Option (List (Foreign PolicyRequest)) → Eff W (List PolicyDecision)
  unfolding decide_each_logged check_requests
  decide_all_logged none = throw type_error
  decide_all_logged (some vs) = do
    snapshot ← lift (check_requests vs)
    decide_each_logged [] snapshot
