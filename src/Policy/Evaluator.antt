-- ===== src/Policy/Evaluator.antt =====
-- src/application/authorization-evaluator.mjs: candidate outcomes combined by deny-overrides.
pub mod Winner
pub mod Admission
pub mod Combining
pub mod Unique
use metaframer_kernel.Base.{
  ℕ, zero, suc, Bool, true, false, ◌&&◌, ◌||◌, not, Option, none, some, List, [], ◌∷◌, ℤ, pos,
  ltb_ℤ, ltb, leb, length, any, filter, if◌then◌else◌, Outcome, ok, err, type_error, ◌>>=◌, ◌>>◌,
  require,
}
use metaframer_kernel.Text.{Text, codes, text_eq, text_lt}
use metaframer_kernel.Text.Forms.{policy_id_form}
use metaframer_kernel.Js.{
  Value, boolean, number, string, ref, Heap, is_safe_integer, as_integer, read,
}
use metaframer_kernel.Js.Shape.{is_ordinary_object, has_exact_data_keys, dense_elements}
use metaframer_kernel.Policy.Decision.{construct_decision}
use metaframer_kernel.Policy.Types.{
  Effect, allow, deny, Layer, system, platform, tenant, CorrelationId, Action, PolicyRequest,
  PolicyDecision, Foreign, genuine,
}

pub record Candidate : Type 0 where
  pub policy_id : Text
  pub effect : Effect
  pub applies : Bool
  pub priority : ℤ
  pub layer : Layer

abbrev pub legacy_candidate_keys : List Text
legacy_candidate_keys = codes "policyId" ∷ codes "effect" ∷ codes "applies" ∷ []

abbrev pub v2_candidate_keys : List Text
v2_candidate_keys =
    codes "policyId" ∷ codes "effect" ∷ codes "applies" ∷ codes "priority" ∷ codes "layer" ∷ []

abbrev pub policy_id_max : ℕ
policy_id_max = 128

-- `LAYER_RANK`
abbrev pub layer_rank : Layer → ℕ
layer_rank system = 2
layer_rank platform = 1
layer_rank tenant = 0

unfoldable pub check_policy_id : Value → Outcome Text
check_policy_id (string s) =
    if leb 1 (length s) && leb (length s) policy_id_max && policy_id_form s
    then ok s
    else err type_error
check_policy_id _ = err type_error

-- `EFFECTS.has(effect)`
unfoldable pub check_effect : Value → Outcome Effect
check_effect (string s) =
    if text_eq s (codes "allow")
    then ok allow
    else if text_eq s (codes "deny")
    then ok deny
    else err type_error
check_effect _ = err type_error

unfoldable pub check_applies : Value → Outcome Bool
check_applies (boolean b) = ok b
check_applies _ = err type_error

unfoldable pub check_priority : Value → Outcome ℤ
check_priority (number n) = if is_safe_integer n then ok (as_integer n) else err type_error
check_priority _ = err type_error

-- `LAYERS.has(layer)`
unfoldable pub check_layer : Value → Outcome Layer
check_layer (string s) =
    if text_eq s (codes "system")
    then ok system
    else if text_eq s (codes "platform")
    then ok platform
    else if text_eq s (codes "tenant")
    then ok tenant
    else err type_error
check_layer _ = err type_error

-- `checkCandidate`: the three keys of the legacy shape or the five of the second one.
unfoldable pub check_candidate : Heap → Value → Outcome Candidate
check_candidate h (ref r) = do
  require (is_ordinary_object h (ref r)) type_error
  let ps = (h r).props
  let is_legacy = has_exact_data_keys legacy_candidate_keys ps
  require (is_legacy || has_exact_data_keys v2_candidate_keys ps) type_error
  policy_id ← check_policy_id (read (codes "policyId") ps)
  effect ← check_effect (read (codes "effect") ps)
  applies ← check_applies (read (codes "applies") ps)
  priority ← if is_legacy then ok (pos 0) else check_priority (read (codes "priority") ps)
  layer ← if is_legacy then ok tenant else check_layer (read (codes "layer") ps)
  ok (record {
    policy_id = policy_id;
    effect = effect;
    applies = applies;
    priority = priority;
    layer = layer;
  })
check_candidate h _ = err type_error

-- The loop of `checkCandidates`, over the elements left; `seen` holds the ids so far.
unfoldable pub check_entries : Heap → List Text → List Value → Outcome (List Candidate)
check_entries h seen [] = ok []
check_entries h seen (v ∷ vs) = do
  candidate ← check_candidate h v
  require (not (any (λ s. text_eq s candidate.policy_id) seen)) type_error
  rest ← check_entries h (candidate.policy_id ∷ seen) vs
  ok (candidate ∷ rest)

unfoldable pub check_candidates : Heap → Value → Outcome (List Candidate)
unfolding check_entries
check_candidates h v = elim (dense_elements h v) [
  | none ↦ err type_error
  | some vs ↦ check_entries h [] vs
]

-- The test of one round of `winningPolicyId`: does `entry` replace `winner`?
unfoldable pub beats : Candidate → Candidate → Bool
beats entry winner =
    if ltb_ℤ entry.priority winner.priority || ltb_ℤ winner.priority entry.priority
    then ltb_ℤ winner.priority entry.priority
    else if ltb (layer_rank entry.layer) (layer_rank winner.layer)
        || ltb (layer_rank winner.layer) (layer_rank entry.layer)
    then ltb (layer_rank winner.layer) (layer_rank entry.layer)
    else text_lt entry.policy_id winner.policy_id

-- The loop of `winningPolicyId`.
unfoldable pub winner_from : Candidate → List Candidate → Candidate
winner_from winner [] = winner
winner_from winner (entry ∷ entries) =
    winner_from (if beats entry winner then entry else winner) entries

unfoldable pub is_deny : Candidate → Bool
is_deny c = elim c.effect [ deny ↦ true | allow ↦ false ]

unfoldable pub is_allow : Candidate → Bool
is_allow c = elim c.effect [ allow ↦ true | deny ↦ false ]

abbrev pub applicable : List Candidate → List Candidate
applicable = filter (λ c. c.applies)

-- `REASON`
abbrev pub combined_reason : Text
combined_reason = codes "authorization decision combined from the given candidate outcomes"

unfoldable pub decision_of : CorrelationId → List Candidate → List Candidate → PolicyDecision
unfolding winner_from
decision_of trace (d ∷ ds) allows = record {
  effect = deny;
  reason = combined_reason;
  matched_policy_id = some (winner_from d ds).policy_id;
  trace_id = trace;
}
decision_of trace [] (a ∷ as') = record {
  effect = allow;
  reason = combined_reason;
  matched_policy_id = some (winner_from a as').policy_id;
  trace_id = trace;
}
decision_of trace [] [] = record {
  effect = deny;
  reason = combined_reason;
  matched_policy_id = none;
  trace_id = trace;
}

-- The combining of `decide`, once its candidates are checked.
unfoldable pub combine : CorrelationId → List Candidate → PolicyDecision
unfolding decision_of is_deny is_allow
combine trace checked =
    decision_of trace (filter is_deny (applicable checked)) (filter is_allow (applicable checked))

-- `AuthorizationEvaluator.decide`, the constructor of its decision included. Both callers pass the literal `{ request, candidates }`, so the
-- test of that literal's own keys is left out.
unfoldable pub decide : Heap → Foreign PolicyRequest → Value → Outcome PolicyDecision
unfolding combine check_candidates construct_decision
decide h request candidates = elim (genuine request) [
  | none ↦ err type_error
  | some r ↦ check_candidates h candidates >>= λ checked.
      construct_decision (combine r.action.correlation_id checked)
]
