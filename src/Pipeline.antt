-- ===== src/Pipeline.antt =====
-- src/application/create-customer-pipeline.mjs: the stages that every action passes, in order, and
-- the first of them that refuses. An object's accessors, whose code the caller wrote, read as
-- undefined here.
pub mod Commit
pub mod Stages
pub mod Audited
use metaframer_kernel.Base.{
  ℕ, Bool, true, false, Option, none, some, List, [], ◌∷◌, if◌then◌else◌, not, Outcome, ok, err,
  type_error, ◌>>=◌, ◌>>◌, require,
}
use metaframer_kernel.Base.Effects.{Eff, pure, lift, ◌>>=◌ as ◌then◌, ◌>>◌ as ◌and◌}
use metaframer_kernel.Text.{Text, codes, text_eq}
use metaframer_kernel.Js.{Value, boolean, string, ref, Heap, read}
use metaframer_kernel.Js.Shape.{is_ordinary_object, has_exact_keys}
use metaframer_kernel.Canonical.{Json, obj, str, end, member, canonical_object}
use metaframer_kernel.Policy.Types.{
  Effect, allow, deny, CorrelationId, Principal, Action, PolicyRequest, PolicyDecision,
}
use metaframer_kernel.Identity.{canonical_uuid, canonical_actor, fingerprint_of}

abbrev pub action_spec_keys : List Text
action_spec_keys =
    codes "requestId"
    ∷ codes "actorId"
    ∷ codes "tenantId"
    ∷ codes "payload"
    ∷ codes "idempotencyKey"
    ∷ []

-- What `shapeCheck` answers.
pub record Shaped : Type 0 where
  pub correlation_id : CorrelationId
  pub claimed_actor_id : Text
  pub claimed_tenant_id : Text
  pub fingerprint : Text
  pub payload : Value

-- `address` is where the new CorrelationId stands.
unfoldable pub shape_check : (Text → Text) → ℕ → Heap → Value → Outcome Shaped
shape_check sha256_hex address h (ref r) = do
  require (is_ordinary_object h (ref r)) type_error
  require (has_exact_keys action_spec_keys (h r).props) type_error
  uuid ← canonical_uuid (read (codes "requestId") (h r).props)
  actor ← canonical_actor (read (codes "actorId") (h r).props)
  tenant ← canonical_uuid (read (codes "tenantId") (h r).props)
  fingerprint ← fingerprint_of sha256_hex (read (codes "idempotencyKey") (h r).props)
  ok (record {
    correlation_id = record { address = address; uuid = uuid };
    claimed_actor_id = actor;
    claimed_tenant_id = tenant;
    fingerprint = fingerprint;
    payload = read (codes "payload") (h r).props;
  })
shape_check sha256_hex address h _ = err type_error

unfoldable pub raw_request_id_of : Heap → Value → Text
raw_request_id_of h (ref r) =
    if is_ordinary_object h (ref r)
    then (elim (read (codes "requestId") (h r).props) [ string s ↦ s | _ ↦ [] ])
    else []
raw_request_id_of h _ = []

pub data ErrorCode : Type 0 where
  action_spec_invalid invariant_violation identity_mismatch cross_tenant_deny policy_deny :
      ErrorCode

pub data Kind : Type 0 where
  invalid denied cross_tenant : Kind

-- The four intents of `preparedChangeSetOf`, of which the last three repeat the fields.
pub record ChangeSet : Type 0 where
  pub tenant_id : Text
  pub actor_id : Text
  pub correlation_id : Text
  pub fingerprint : Text
  pub payload : Json

-- A refusal carries its code and the request id; an error is never retryable here.
pub data RunOutcome : Type 0 where
  refused : Kind → ErrorCode → Text → RunOutcome
  allow_commit : Text → ChangeSet → RunOutcome

pub record GuardRefusal : Type 0 where
  pub code : ErrorCode
  pub principal : Principal
  pub correlation_id : CorrelationId
  pub fingerprint : Text

-- The collaborators. What `current` answers stands beside the heap of that moment, in which the
-- payload is read afterwards. `evaluate_invariants` takes in the reading of `ok` that follows it,
-- which may be the caller's code: it answers what `invariants.ok` reads as, or `none` where
-- `invariants` is falsy, and throws what either of them throws.
pub record Stage (W : Type 0) : Type 0 where
  pub current : Eff W (Heap × Principal)
  pub decide : PolicyRequest → Eff W PolicyDecision
  pub evaluate_invariants : Action → Eff W (Option Value)
  pub audit_identity_guard : Option (GuardRefusal → Eff W (Unit {0}))

-- `new Command`: all of its options but the payload are valid by construction.
unfoldable pub command_of : Heap → Principal → Shaped → Outcome Action
command_of h principal shaped = do
  payload ← canonical_object h shaped.payload
  ok (record {
    name = codes "customer.create";
    version = 1;
    principal = principal;
    correlation_id = shaped.correlation_id;
    payload = payload;
  })

-- `new PolicyRequest`: the resource is canonical, so its keys are sorted.
unfoldable pub request_of : Action → PolicyRequest
request_of command = record {
  action = command;
  resource = obj (
      member (codes "tenantId") (str command.principal.tenant_id)
        (member (codes "type") (str (codes "customer")) end));
  context = obj end;
}

unfoldable pub is_allowed : PolicyDecision → Bool
is_allowed d = elim d.effect [ allow ↦ true | deny ↦ false ]

-- `!invariants || invariants.ok !== true`, negated
unfoldable pub invariants_hold : Option Value → Bool
invariants_hold (some (boolean b)) = b
invariants_hold _ = false

unfoldable pub prepared_change_set_of : Action → Text → ChangeSet
prepared_change_set_of command fingerprint = record {
  tenant_id = command.principal.tenant_id;
  actor_id = command.principal.actor_id;
  correlation_id = command.correlation_id.uuid;
  fingerprint = fingerprint;
  payload = command.payload;
}

module _ {W : Type 0} (stage : Stage W) where
  unfoldable pub audit_refusal : GuardRefusal → Eff W (Unit {0})
  audit_refusal refusal = elim stage.audit_identity_guard as (λ _. Eff W (Unit {0})) [
    | none ↦ pure tt
    | some audit ↦ audit refusal
  ]

  -- `#refuseAtGuard`: the auditor comes first, and what it throws is the answer.
  unfoldable pub refuse_at_guard : Kind → ErrorCode → Principal → Shaped → Eff W RunOutcome
  unfolding audit_refusal
  refuse_at_guard kind code principal shaped =
      audit_refusal (record {
        code = code;
        principal = principal;
        correlation_id = shaped.correlation_id;
        fingerprint = shaped.fingerprint;
      })
      and pure (refused kind code shaped.correlation_id.uuid)

  -- The policy and the invariants, for a command that was constructed.
  unfoldable pub decide_stage : Shaped → Action → Eff W RunOutcome
  unfolding is_allowed invariants_hold
  decide_stage shaped command = stage.decide (request_of command) then λ decision.
      if is_allowed decision
      then (stage.evaluate_invariants command then λ ok_value.
          if invariants_hold ok_value
          then pure (
              allow_commit shaped.correlation_id.uuid
                (prepared_change_set_of command shaped.fingerprint))
          else pure (refused invalid invariant_violation shaped.correlation_id.uuid))
      else pure (refused denied policy_deny shaped.correlation_id.uuid)

  unfoldable pub command_stage : Shaped → Heap → Principal → Eff W RunOutcome
  unfolding decide_stage command_of
  command_stage shaped h principal = elim (command_of h principal shaped) [
    | err _ ↦ pure (refused invalid action_spec_invalid shaped.correlation_id.uuid)
    | ok command ↦ decide_stage shaped command
  ]

  -- The guards on the tenant, then on the actor.
  unfoldable pub guard_stage : Shaped → Heap → Principal → Eff W RunOutcome
  unfolding command_stage refuse_at_guard
  guard_stage shaped h principal =
      if text_eq principal.tenant_id shaped.claimed_tenant_id
      then (if text_eq principal.actor_id shaped.claimed_actor_id
          then command_stage shaped h principal
          else refuse_at_guard denied identity_mismatch principal shaped)
      else refuse_at_guard cross_tenant cross_tenant_deny principal shaped

  -- `CreateCustomerPipeline.run`
  unfoldable pub run : (Text → Text) → ℕ → Heap → Value → Eff W RunOutcome
  unfolding guard_stage shape_check
  run sha256_hex address h spec = elim (shape_check sha256_hex address h spec) [
    | err _ ↦ pure (refused invalid action_spec_invalid (raw_request_id_of h spec))
    | ok shaped ↦ stage.current then λ (h, principal). guard_stage shaped h principal
  ]
