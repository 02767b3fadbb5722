-- ===== src/Policy/Resolver.antt =====
-- src/application/policy-candidate-resolver.mjs: the candidates that a set of statements yields
-- for a request.
pub mod Scope
use metaframer_kernel.Base.{
  Bool, true, false, ◌&&◌, ◌||◌, Option, none, some, List, [], ◌∷◌, map, all, Outcome, ok, err,
  type_error, if◌then◌else◌,
}
use metaframer_kernel.Text.{Text, codes, text_eq}
use metaframer_kernel.Canonical.{Json, obj, str, Members, end, member}
use metaframer_kernel.Policy.Types.{PolicyRequest, Foreign, genuine}
use metaframer_kernel.Policy.Statement.{PolicyStatement}
use metaframer_kernel.Policy.Evaluator.{Candidate}

-- `object[key]` of canonical data, which inherits nothing.
unfoldable pub get_member : Text → Members → Option Json
get_member k end = none
get_member k (member j v ms) = if text_eq j k then some v else get_member k ms

-- `value === text`, false for whatever is no string.
abbrev pub is_text : Text → Option Json → Bool
is_text t (some (str s)) = text_eq s t
is_text t _ = false

abbrev pub is_some : Option Json → Bool
is_some none = false
is_some (some _) = true

-- `targetActor` holds no key but these.
unfoldable pub only_actor_keys : Members → Bool
only_actor_keys end = true
only_actor_keys (member k _ ms) =
    (text_eq k (codes "tenantId") || text_eq k (codes "actorId")) && only_actor_keys ms

-- A key that is absent restricts nothing.
abbrev pub absent_or_equal : Text → Option Json → Bool
absent_or_equal t none = true
absent_or_equal t (some v) = is_text t (some v)

-- `targetActorMatches`
unfoldable pub target_actor_matches : Json → PolicyRequest → Bool
unfolding get_member only_actor_keys
target_actor_matches (obj ms) request =
    only_actor_keys ms
    && absent_or_equal request.action.principal.tenant_id (get_member (codes "tenantId") ms)
    && absent_or_equal request.action.principal.actor_id (get_member (codes "actorId") ms)
target_actor_matches _ request = false

-- `conditionMatches`: only the empty object is a condition that holds.
unfoldable pub condition_matches : Json → Bool
condition_matches (obj end) = true
condition_matches _ = false

-- `request.resource.type === type`
unfoldable pub resource_type_is : Text → Json → Bool
unfolding get_member
resource_type_is t (obj ms) = is_text t (get_member (codes "type") ms)
resource_type_is t _ = false

-- The test of `candidateFor`.
unfoldable pub statement_applies : PolicyStatement → PolicyRequest → Bool
statement_applies s request =
    s.enabled
    && text_eq s.target_action request.action.name
    && resource_type_is s.target_resource_type request.resource
    && target_actor_matches s.target_actor request
    && condition_matches s.condition

-- `candidateFor`
unfoldable pub candidate_for : PolicyRequest → PolicyStatement → Candidate
unfolding statement_applies
candidate_for request s = record {
  policy_id = s.id;
  effect = s.effect;
  applies = statement_applies s request;
  priority = s.priority;
  layer = s.layer;
}

-- `PolicyCandidateResolver.candidatesFor` over the statements that its constructor admitted.
unfoldable pub candidates_for :
    List PolicyStatement → Foreign PolicyRequest → Outcome (List Candidate)
unfolding candidate_for
candidates_for statements request = elim (genuine request) [
  | none ↦ err type_error
  | some r ↦ ok (map (candidate_for r) statements)
]

-- The constructor: every element must be a genuine statement.
unfoldable pub policy_candidate_resolver :
    List (Foreign PolicyStatement) → Outcome (List PolicyStatement)
policy_candidate_resolver [] = ok []
policy_candidate_resolver (v ∷ vs) = elim (genuine v) [
  | none ↦ err type_error
  | some s ↦ elim (policy_candidate_resolver vs) [ ok ss ↦ ok (s ∷ ss) | err e ↦ err e ]
]
