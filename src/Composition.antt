-- ===== src/Composition.antt =====
-- src/delivery/create-customer-composition.mjs: the auditor of the identity guard, and the pipeline
-- that the audited composition wires. The adapter of the log and the caller's functions are the
-- collaborators, which are given.
pub mod Audited
use metaframer_kernel.Base.{Option, none, some, type_error}
use metaframer_kernel.Base.Effects.{Eff, throw, lift, ◌>>=◌}
use metaframer_kernel.Text.{Text, codes}
use metaframer_kernel.Js.{Value, string, Heap}
use metaframer_kernel.Canonical.{Json, obj, str, end, member}
use metaframer_kernel.Clock.Port.{now}
use metaframer_kernel.Policy.Types.{
  deny, CorrelationId, Principal, Action, PolicyRequest, PolicyDecision, real,
}
use metaframer_kernel.Policy.Decision.{construct_decision}
use metaframer_kernel.DecisionLog.{decision_log_entry}
use metaframer_kernel.DecisionLog.Point.{Collaborators, decide_logged}
use metaframer_kernel.Pipeline.{
  ErrorCode, action_spec_invalid, invariant_violation, identity_mismatch, cross_tenant_deny,
  policy_deny, GuardRefusal, Stage,
}

abbrev pub identity_guard_stage : Text
identity_guard_stage = codes "identityTenantGuard"

abbrev pub cross_tenant_reason : Text
cross_tenant_reason =
    codes
      "identity guard: the authenticated principal does not hold the tenant this request claimed, so the request was refused at the system layer before any policy was consulted"

abbrev pub mismatch_reason : Text
mismatch_reason =
    codes
      "identity guard: the authenticated principal is not the actor this request claimed, so the request was refused at the system layer before any policy was consulted"

-- The code as the kernel's error spells it.
unfoldable pub code_text : ErrorCode → Text
code_text action_spec_invalid = codes "ACTION_SPEC_INVALID"
code_text invariant_violation = codes "INVARIANT_VIOLATION"
code_text identity_mismatch = codes "IDENTITY_MISMATCH"
code_text cross_tenant_deny = codes "CROSS_TENANT_DENY"
code_text policy_deny = codes "POLICY_DENY"

-- `IDENTITY_GUARD_REASONS[code]`, which has two own keys.
unfoldable pub identity_guard_reason : ErrorCode → Option Text
identity_guard_reason cross_tenant_deny = some cross_tenant_reason
identity_guard_reason identity_mismatch = some mismatch_reason
identity_guard_reason _ = none

-- `new Command` of the authenticated principal alone, over an empty payload.
unfoldable pub guard_command : GuardRefusal → Action
guard_command guard = record {
  name = codes "customer.create";
  version = 1;
  principal = guard.principal;
  correlation_id = guard.correlation_id;
  payload = obj end;
}

-- `new PolicyRequest`: both objects are canonical, so their keys are sorted.
unfoldable pub guard_request : GuardRefusal → PolicyRequest
unfolding guard_command code_text
guard_request guard = record {
  action = guard_command guard;
  resource = obj (
      member (codes "tenantId") (str guard.principal.tenant_id)
        (member (codes "type") (str (codes "customer")) end));
  context = obj (
      member (codes "guard") (str (code_text guard.code))
        (member (codes "stage") (str identity_guard_stage) end));
}

abbrev pub guard_decision : GuardRefusal → Text → PolicyDecision
guard_decision guard reason = record {
  effect = deny;
  reason = reason;
  matched_policy_id = none;
  trace_id = guard.correlation_id;
}

module _ {W : Type 0} (sha256_of : Json → Text) (port : Collaborators W) where
  -- The auditor once its reason is known.
  unfoldable pub audit_with_reason : GuardRefusal → Text → Eff W (Unit {0})
  unfolding guard_request
  audit_with_reason guard reason = do
    decision ← lift (construct_decision (guard_decision guard reason))
    prev_hash ← port.chain_head guard.principal.tenant_id
    id ← port.id_generator
    ts ← now port.clock
    entry ← lift (
        decision_log_entry sha256_of (record {
          id = id;
          request = real (guard_request guard);
          decision = real decision;
          layer_resolved = Value.null;
          ts = string ts;
          prev_hash = prev_hash;
        }))
    port.append entry

  -- The function that `createIdentityGuardAuditor` answers.
  unfoldable pub audit_identity_guard : GuardRefusal → Eff W (Unit {0})
  unfolding audit_with_reason identity_guard_reason
  audit_identity_guard guard = elim (identity_guard_reason guard.code) [
    | none ↦ throw type_error
    | some reason ↦ audit_with_reason guard reason
  ]

  -- The collaborators of the pipeline in `createAuditedCustomerComposition`.
  unfoldable pub audited_stage :
      Eff W (Heap × Principal) → (Action → Eff W (Option Value)) → Stage W
  unfolding decide_logged audit_identity_guard
  audited_stage current evaluate_invariants = record {
    current = current;
    decide = λ r. decide_logged sha256_of port (real r);
    evaluate_invariants = evaluate_invariants;
    audit_identity_guard = some (audit_identity_guard);
  }
