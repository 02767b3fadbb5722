-- ===== src/Tests/Composition.antt =====
-- The audited pipeline with principals that its identity guard refuses, over collaborators that
-- count their calls.
use metaframer_kernel.Base.{◌≡◌, refl, none, [], ◌∷◌, ℕ, ok, err, type_error}
use metaframer_kernel.Base.Effects.{Post-ok}
use metaframer_kernel.Text.{Text, codes, text_eq}
use metaframer_kernel.Canonical.{obj, end}
use metaframer_kernel.Text.Trim.{trim, has_c0_control, has_control}
use metaframer_kernel.Text.Forms.{uuid_form, actor_form, ulid_form, matches_shape, is_digit}
use metaframer_kernel.Js.{ref, read}
use metaframer_kernel.Js.Shape.{is_ordinary_object, has_exact_keys}
use metaframer_kernel.Identity.{canonical_uuid, canonical_actor, fingerprint_of}
use metaframer_kernel.Clock.{names_a_real_instant, is_real_time, length_of_month}
use metaframer_kernel.Clock.Port.{now}
use metaframer_kernel.Policy.Types.{genuine, deny, Principal}
use metaframer_kernel.Policy.Decision.{construct_decision, reason_value}
use metaframer_kernel.DecisionLog.{
  LogEntry, decision_log_entry, ulid_value, layer_resolved_value, timestamp_value, prev_hash_value,
}
use metaframer_kernel.DecisionLog.Audit.{Recorded, recorded, silently}
use metaframer_kernel.Pipeline.{
  Stage, GuardRefusal, refused, run, audit_refusal, cross_tenant, cross_tenant_deny,
  identity_mismatch, policy_deny,
}
use metaframer_kernel.Composition.{
  cross_tenant_reason, mismatch_reason, guard_request, guard_decision, audit_identity_guard,
  audited_stage,
}
use metaframer_kernel.Composition.Audited.{Grown, Witnessed, AtMostOne, run-Witnessed}
use metaframer_kernel.Tests.Creation.{
  acting_as, hex, stranger, trace, spec_heap, log_port, request_id, acme,
}
use metaframer_kernel.Tests.Log.{digest}

abbrev eve : Principal
eve = record { tenant_id = acme; actor_id = codes "eve" }

abbrev composed : Principal → Stage (Recorded ℕ)
unfolding audited_stage
composed p =
    audited_stage digest (recorded log_port) (silently (acting_as p).current)
      (λ c. silently ((acting_as p).evaluate_invariants c))

abbrev across : GuardRefusal
across = record {
  code = cross_tenant_deny;
  principal = stranger;
  correlation_id = trace;
  fingerprint = codes "ff";
}

abbrev posing : GuardRefusal
posing = record {
  code = identity_mismatch;
  principal = eve;
  correlation_id = trace;
  fingerprint = codes "ff";
}

abbrev left_by : GuardRefusal → Text → LogEntry
left_by guard reason = record {
  id = codes "01ARZ3NDEKTSV4RRFFQ69G5FAV";
  request = guard_request guard;
  decision = guard_decision guard reason;
  layer_resolved = none;
  ts = codes "2024-02-29T23:59:59.999Z";
  prev_hash = none;
  entry_hash = digest (obj end);
}

audited_across :
    audit_identity_guard digest (recorded log_port) across (1, [])
    ≡ (ok tt, (5, left_by across cross_tenant_reason ∷ []))
unfolding audit_identity_guard construct_decision reason_value trim has_control text_eq uuid_form
    ulid_form names_a_real_instant timestamp_value matches_shape is_digit is_real_time
    length_of_month now decision_log_entry ulid_value layer_resolved_value prev_hash_value genuine
audited_across = refl

audited_posing :
    audit_identity_guard digest (recorded log_port) posing (1, [])
    ≡ (ok tt, (5, left_by posing mismatch_reason ∷ []))
unfolding audit_identity_guard construct_decision reason_value trim has_control text_eq uuid_form
    ulid_form names_a_real_instant timestamp_value matches_shape is_digit is_real_time
    length_of_month now decision_log_entry ulid_value layer_resolved_value prev_hash_value genuine
audited_posing = refl

-- A code that the guard does not refuse with is not filed.
audited_unknown :
    audit_identity_guard digest (recorded log_port) (record across { code = policy_deny }) (1, [])
    ≡ (err type_error, (1, []))
unfolding audit_identity_guard
audited_unknown = refl

stranger_refused : run (composed stranger) hex 40 spec_heap (ref 0) (0, []) ≡ (
  ok (refused cross_tenant cross_tenant_deny request_id),
  (5, left_by across cross_tenant_reason ∷ []),
)
unfolding run is_ordinary_object has_exact_keys text_eq canonical_uuid read uuid_form
    canonical_actor actor_form fingerprint_of trim has_c0_control audit_refusal audited_stage
stranger_refused = rw (audited_across) refl

run-Witnessed_example :
    Grown {V = ℕ} digest [] deny request_id (5, left_by across cross_tenant_reason ∷ [])
unfolding audited_stage composed
run-Witnessed_example =
    Post-ok (Witnessed digest []) (AtMostOne digest []) _
      (run-Witnessed digest log_port (acting_as stranger).current
        (acting_as stranger).evaluate_invariants hex 40 spec_heap (ref 0) (0, []))
      stranger_refused
