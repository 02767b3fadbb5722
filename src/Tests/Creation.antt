-- ===== src/Tests/Creation.antt =====
-- One action through the pipeline and its commit, over collaborators that count their calls.
use metaframer_kernel.DecisionLog.{prev_hash_value}
use metaframer_kernel.DecisionLog.{layer_resolved_value}
use metaframer_kernel.DecisionLog.{ulid_value}
use metaframer_kernel.DecisionLog.{decision_log_entry}
use metaframer_kernel.Clock.Port.{now}
use metaframer_kernel.Js.Shape.{dense_elements, has_exact_data_keys}
use metaframer_kernel.Text.Forms.{policy_id_form, ulid_form, matches_shape, is_digit}
use metaframer_kernel.Text.Trim.{has_control}
use metaframer_kernel.Clock.{names_a_real_instant, is_real_time, length_of_month}
use metaframer_kernel.Pipeline.{prepared_change_set_of}
use metaframer_kernel.Canonical.{sort_keys}
use metaframer_kernel.Canonical.{is_refused_key}
use metaframer_kernel.Canonical.{admits_member}
use metaframer_kernel.Canonical.{canonical_object}
use metaframer_kernel.Text.Trim.{has_c0_control}
use metaframer_kernel.Text.Trim.{trim}
use metaframer_kernel.Identity.{fingerprint_of}
use metaframer_kernel.Text.Forms.{actor_form}
use metaframer_kernel.Identity.{canonical_actor}
use metaframer_kernel.Text.Forms.{uuid_form}
use metaframer_kernel.Identity.{canonical_uuid}
use metaframer_kernel.Js.Shape.{has_exact_keys}
use metaframer_kernel.Js.Shape.{is_ordinary_object}
use metaframer_kernel.Base.{◌≡◌, refl, none, some, [], ◌∷◌, ◌+◌, ℕ, zero, suc, true, ok}
use metaframer_kernel.Base.Effects.{Eff}
use metaframer_kernel.Text.{Text, codes, text_eq}
use metaframer_kernel.Js.{Value, boolean, string, ref, Heap, array_prototype, read}
use metaframer_kernel.Canonical.{obj, str, end, member}
use metaframer_kernel.Policy.Types.{
  genuine, real, allow, tenant, CorrelationId, Principal, Action, PolicyDecision,
}
use metaframer_kernel.Policy.Evaluator.{
  combined_reason, decide, check_candidate, check_policy_id, check_effect, check_applies,
}
use metaframer_kernel.DecisionLog.{timestamp_value, LogEntry, plain_payload}
use metaframer_kernel.DecisionLog.Point.{Collaborators, decide_logged, layer_of}
use metaframer_kernel.Pipeline.{
  Stage, Shaped, shape_check, ChangeSet, allow_commit, run, prepared_change_set_of, request_of,
}
use metaframer_kernel.Pipeline.Stages.{Passed}
use metaframer_kernel.Pipeline.Commit.{
  CommitContext, committed, handle, handle-committed, captured_idempotency_key,
}
use metaframer_kernel.DecisionLog.Audit.{Recorded, recorded}
use metaframer_kernel.Pipeline.Audited.{audited, run-audited}
use metaframer_kernel.Tests.Policy.{literal, entry, enumerable_data}
use metaframer_kernel.Tests.Log.{digest}

abbrev pub acme : Text
acme = codes "0f8fad5b-d9cb-469f-a165-70867728950e"

abbrev pub request_id : Text
request_id = codes "7c9e6679-7425-40de-944b-e07fc1f90ae7"

abbrev pub spec_heap : Heap
spec_heap zero = literal (
    entry (codes "requestId") (string request_id)
    ∷ entry (codes "actorId") (string (codes "ada"))
    ∷ entry (codes "tenantId") (string acme)
    ∷ entry (codes "payload") (ref 1)
    ∷ entry (codes "idempotencyKey") (string (codes "k1"))
    ∷ [])
spec_heap (suc zero) = literal (entry (codes "name") (string (codes "Ann")) ∷ [])
spec_heap (suc (suc n)) = literal (entry (codes "ok") (boolean true) ∷ [])

-- One candidate, which allows.
abbrev open_heap : Heap
open_heap zero = record {
  proto = array_prototype;
  elements = some (some (enumerable_data (ref 1)) ∷ []);
  props = [];
}
open_heap (suc n) = literal (
    entry (codes "policyId") (string (codes "open"))
    ∷ entry (codes "effect") (string (codes "allow"))
    ∷ entry (codes "applies") (boolean true)
    ∷ [])

abbrev pub ada : Principal
ada = record { tenant_id = acme; actor_id = codes "ada" }

abbrev pub stranger : Principal
stranger = record { tenant_id = request_id; actor_id = codes "ada" }

abbrev pub trace : CorrelationId
trace = record { address = 40; uuid = request_id }

abbrev pub hex : Text → Text
hex s = codes "ff"

abbrev shaped : Shaped
shaped = record {
  correlation_id = trace;
  claimed_actor_id = codes "ada";
  claimed_tenant_id = acme;
  fingerprint = codes "ff";
  payload = ref 1;
}

abbrev create : Action
create = record {
  name = codes "customer.create";
  version = 1;
  principal = ada;
  correlation_id = trace;
  payload = obj (member (codes "name") (str (codes "Ann")) end);
}

abbrev allowed : PolicyDecision
allowed = record {
  effect = allow;
  reason = combined_reason;
  matched_policy_id = some (codes "open");
  trace_id = trace;
}

abbrev changes : ChangeSet
changes = record {
  tenant_id = acme;
  actor_id = codes "ada";
  correlation_id = request_id;
  fingerprint = codes "ff";
  payload = obj (member (codes "name") (str (codes "Ann")) end);
}

abbrev pub acting_as : Principal → Stage ℕ
acting_as p = record {
  current = λ w. (ok (spec_heap, p), w + 1);
  decide = λ r w. (ok allowed, w + 1);
  evaluate_invariants = λ c w. (ok (some (boolean true)), w + 1);
  audit_identity_guard = some (λ r w. (ok tt, w + 10));
}

abbrev pub commit : ChangeSet → CommitContext → Eff ℕ Value
commit cs ctx w = (ok (string ctx.tenant_id), w + 100)

spec_shaped : shape_check hex 40 spec_heap (ref 0) ≡ ok shaped
unfolding shape_check is_ordinary_object has_exact_keys text_eq canonical_uuid read uuid_form
    canonical_actor actor_form fingerprint_of trim has_c0_control
spec_shaped = refl

ada_passes :
    run (acting_as ada) hex 40 spec_heap (ref 0) 0 ≡ (ok (allow_commit request_id changes), 3)
unfolding run is_ordinary_object has_exact_keys text_eq canonical_uuid read uuid_form
    canonical_actor actor_form fingerprint_of trim has_c0_control canonical_object admits_member
    is_refused_key sort_keys prepared_change_set_of
ada_passes = refl

ada_commits :
    handle (acting_as ada) commit hex 40 spec_heap (ref 0) 0
    ≡ (ok (committed request_id (string acme)), 103)
unfolding handle
ada_commits = rw (ada_passes) refl

handle-committed_example :
    (s : Shaped) × (cs : ChangeSet) × (u : ℕ) × (shape_check hex 40 spec_heap (ref 0) ≡ ok s)
    × Passed (acting_as ada) s 0 u cs
    × (commit cs
          (record {
            request_id = request_id;
            tenant_id = s.claimed_tenant_id;
            idempotency_key = captured_idempotency_key spec_heap (ref 0);
          })
          u
        ≡ (ok (string acme), 103))
handle-committed_example =
    handle-committed (acting_as ada) commit hex 40 spec_heap (ref 0) 0 103 request_id (string acme)
      ada_commits

abbrev pub log_port : Collaborators ℕ
log_port = record {
  candidates_for = λ r w. (ok (open_heap, ref 0), w + 1);
  append = λ e w. (ok tt, w + 1);
  id_generator = λ w. (ok (string (codes "01ARZ3NDEKTSV4RRFFQ69G5FAV")), w + 1);
  clock = λ w. (ok (string (codes "2024-02-29T23:59:59.999Z")), w + 1);
  chain_head = λ t w. (ok Value.null, w + 1);
}

abbrev log_entry : LogEntry
log_entry = record {
  id = codes "01ARZ3NDEKTSV4RRFFQ69G5FAV";
  request = request_of create;
  decision = allowed;
  layer_resolved = some tenant;
  ts = codes "2024-02-29T23:59:59.999Z";
  prev_hash = none;
  entry_hash = digest (obj end);
}

abbrev audited_ada : Stage (Recorded ℕ)
audited_ada =
    audited digest log_port (acting_as ada).current (acting_as ada).evaluate_invariants none

logged :
    decide_logged digest (recorded log_port) (real (request_of create)) (1, [])
    ≡ (ok allowed, (6, log_entry ∷ []))
unfolding decide_logged genuine request_of decide dense_elements check_candidate is_ordinary_object
    has_exact_data_keys read text_eq check_policy_id policy_id_form check_effect check_applies
    uuid_form layer_of ulid_form has_control names_a_real_instant timestamp_value matches_shape
    is_digit is_real_time length_of_month now decision_log_entry ulid_value layer_resolved_value
    prev_hash_value
logged = refl

ada_passes_audited :
    run audited_ada hex 40 spec_heap (ref 0) (0, [])
    ≡ (ok (allow_commit request_id changes), (7, log_entry ∷ []))
unfolding run is_ordinary_object has_exact_keys text_eq canonical_uuid read uuid_form
    canonical_actor actor_form fingerprint_of trim has_c0_control canonical_object admits_member
    is_refused_key sort_keys prepared_change_set_of request_of
ada_passes_audited = rw (logged) refl

run-audited_example :
    (e : LogEntry) × (log_entry ∷ [] ≡ e ∷ [])
    × (e.decision.effect ≡ allow)
    × (e.request.action.principal.tenant_id ≡ changes.tenant_id)
    × (e.request.action.payload ≡ changes.payload)
    × (e.entry_hash ≡ digest (plain_payload e))
run-audited_example =
    run-audited digest log_port (acting_as ada).current (acting_as ada).evaluate_invariants none hex
      40 spec_heap (ref 0) (0, []) (7, log_entry ∷ []) request_id changes ada_passes_audited
