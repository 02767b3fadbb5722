-- ===== src/Tests/Policy.antt =====
-- The policy protocol on a heap with two candidates and a set of two statements.

use metaframer_kernel.Base.{
  ◌≡◌, refl, ◌↔◌, true, none, some, List, [], ◌∷◌, zero, suc, pos, ok, All, inl, inr,
}
use metaframer_kernel.Text.{Text, codes, text_eq}
use metaframer_kernel.Text.Forms.{uuid_form, policy_id_form}
use metaframer_kernel.Js.{
  Value, boolean, string, number, ref, integer, object_prototype, array_prototype, name, holds,
  Property, Object, Heap, read, is_safe_integer, as_integer, Key,
}
use metaframer_kernel.Js.Shape.{is_ordinary_object, has_exact_data_keys, dense_elements}
use metaframer_kernel.Canonical.{obj, str, end, member}
use metaframer_kernel.Policy.Types.{
  allow, deny, system, tenant, CorrelationId, PolicyRequest, PolicyDecision, real,
}
use metaframer_kernel.Policy.Statement.{PolicyStatement}
use metaframer_kernel.Policy.Evaluator.{
  Candidate, beats, check_candidates, check_candidate, combine, decide, check_policy_id,
  check_effect, check_applies, check_priority, check_layer,
}
use metaframer_kernel.Policy.Evaluator.Combining.{Decides, combine-Decides}
use metaframer_kernel.Policy.Evaluator.Unique.{SameMembers, combine_same}
use metaframer_kernel.Policy.Evaluator.Admission.{
  IsPolicyId, IdsDistinct, check_candidates-Admitted, decide_total, decide-Decides,
}
use metaframer_kernel.Policy.Resolver.{
  statement_applies, candidate_for, get_member, resource_type_is, target_actor_matches,
  condition_matches,
}
use metaframer_kernel.Policy.Resolver.Scope.{
  Speaks, authorize, authorize-allow_iff, AppliesTo-tenant,
}

abbrev pub enumerable_data : Value → Property
enumerable_data v = record { content = holds v; enumerable = true }

abbrev pub entry : Text → Value → Key × Property
entry k v = (name k, enumerable_data v)

abbrev pub literal : List (Key × Property) → Object
literal ps = record { proto = object_prototype; elements = none; props = ps }

abbrev pub two_candidates : Heap
two_candidates zero = record {
  proto = array_prototype;
  elements = some (some (enumerable_data (ref 1)) ∷ some (enumerable_data (ref 2)) ∷ []);
  props = [];
}
two_candidates (suc zero) = literal (
    entry (codes "policyId") (string (codes "open"))
    ∷ entry (codes "effect") (string (codes "allow"))
    ∷ entry (codes "applies") (boolean true)
    ∷ [])
two_candidates (suc (suc n)) = literal (
    entry (codes "layer") (string (codes "system"))
    ∷ entry (codes "policyId") (string (codes "closed.night"))
    ∷ entry (codes "effect") (string (codes "deny"))
    ∷ entry (codes "applies") (boolean true)
    ∷ entry (codes "priority") (number (integer (pos 5)))
    ∷ [])

abbrev open_candidate : Candidate
open_candidate = record {
  policy_id = codes "open";
  effect = allow;
  applies = true;
  priority = pos 0;
  layer = tenant;
}

abbrev closed_candidate : Candidate
closed_candidate = record {
  policy_id = codes "closed.night";
  effect = deny;
  applies = true;
  priority = pos 5;
  layer = system;
}

abbrev both_candidates : List Candidate
both_candidates = open_candidate ∷ closed_candidate ∷ []

abbrev trace : CorrelationId
trace = record { address = 7; uuid = codes "0f8fad5b-d9cb-469f-a165-70867728950e" }

abbrev pub request : PolicyRequest
request = record {
  action = record {
    name = codes "customer.create";
    version = 1;
    principal = record { tenant_id = codes "t1"; actor_id = codes "ada" };
    correlation_id = trace;
    payload = obj end;
  };
  resource = obj (member (codes "type") (str (codes "customer")) end);
  context = obj end;
}

abbrev pub denied_by_night : PolicyDecision
denied_by_night = record {
  effect = deny;
  reason = codes "authorization decision combined from the given candidate outcomes";
  matched_policy_id = some (codes "closed.night");
  trace_id = trace;
}

check_two : check_candidates two_candidates (ref 0) ≡ ok both_candidates
unfolding check_candidates check_candidate check_policy_id policy_id_form as_integer check_effect
    check_applies check_priority check_layer is_ordinary_object has_exact_data_keys dense_elements
    read text_eq is_safe_integer
check_two = refl

combine_two : combine trace both_candidates ≡ denied_by_night
unfolding combine beats
combine_two = refl

combine_none : (combine trace []).effect ≡ deny
unfolding combine
combine_none = refl

combine-Decides_example :
    Decides both_candidates
      (combine trace both_candidates).effect
      (combine trace both_candidates).matched_policy_id
combine-Decides_example = combine-Decides trace both_candidates

swapped : SameMembers both_candidates (closed_candidate ∷ open_candidate ∷ [])
swapped c = (
  (λ m. elim m [ inl e ↦ inr (inl e) | inr k ↦ elim k [ inl e ↦ inl e | inr x ↦ absurd x ] ]),
  (λ m. elim m [ inl e ↦ inr (inl e) | inr k ↦ elim k [ inl e ↦ inl e | inr x ↦ absurd x ] ]),
)

combine_same_example :
    combine trace both_candidates ≡ combine trace (closed_candidate ∷ open_candidate ∷ [])
combine_same_example =
    combine_same trace both_candidates (closed_candidate ∷ open_candidate ∷ []) swapped

trace_form : uuid_form trace.uuid ≡ true
unfolding uuid_form
trace_form = refl

decide_total_example :
    decide two_candidates (real request) (ref 0) ≡ ok (combine trace both_candidates)
decide_total_example =
    decide_total two_candidates request (ref 0) both_candidates trace_form check_two

pub decide_two : decide two_candidates (real request) (ref 0) ≡ ok denied_by_night
unfolding combine beats
decide_two = decide_total two_candidates request (ref 0) both_candidates trace_form check_two

decide-Decides_example :
    (cs : List Candidate) × (check_candidates two_candidates (ref 0) ≡ ok cs)
    × Decides cs deny (some (codes "closed.night"))
    × (trace ≡ trace)
decide-Decides_example = decide-Decides two_candidates request (ref 0) denied_by_night decide_two

check_candidates-Admitted_example :
    All (λ c. IsPolicyId c.policy_id) both_candidates × IdsDistinct [] both_candidates
check_candidates-Admitted_example = check_candidates-Admitted two_candidates (ref 0) check_two

abbrev grant : PolicyStatement
grant = record {
  id = codes "grant";
  effect = allow;
  target_actor = obj (member (codes "tenantId") (str (codes "t1")) end);
  target_action = codes "customer.create";
  target_resource_type = codes "customer";
  condition = obj end;
  priority = pos 0;
  layer = tenant;
  version = codes "1.0.0";
  enabled = true;
}

grant_applies : statement_applies grant request ≡ true
unfolding statement_applies resource_type_is target_actor_matches condition_matches text_eq
grant_applies = refl

grant_allows : authorize (grant ∷ []) request ≡ allow
unfolding authorize candidate_for combine statement_applies resource_type_is target_actor_matches
    condition_matches text_eq
grant_allows = refl

authorize-allow_iff_example : (authorize (grant ∷ []) request ≡ allow) ↔ (
    ((s : PolicyStatement) × Speaks allow (grant ∷ []) request s)
    × ((s : PolicyStatement) → ¬ Speaks deny (grant ∷ []) request s))
authorize-allow_iff_example = authorize-allow_iff (grant ∷ []) request

grant_tenant :
    get_member (codes "tenantId") (member (codes "tenantId") (str (codes "t1")) end)
    ≡ some (str (codes "t1"))
unfolding get_member text_eq
grant_tenant = refl

AppliesTo-tenant_example : codes "t1" ≡ request.action.principal.tenant_id
AppliesTo-tenant_example =
    AppliesTo-tenant grant request (member (codes "tenantId") (str (codes "t1")) end) (codes "t1")
      grant_applies refl grant_tenant
