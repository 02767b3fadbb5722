-- ===== src/Policy/Evaluator/Admission.antt =====
-- What `checkCandidates` lets through, and that the decision made of it is always constructed.
use metaframer_kernel.Base.{
  ◌≤◌, ◌≡◌, refl, true, false, some, List, [], ◌∷◌, arith, inl, inr, ok, type_error, >>=-eq-ok,
  require, Option, All, All-In, not, any, length, Option-cases, ◌||◌, pos, if◌then◌else◌, OnOk,
  >>=-OnOk, require-OnOk, OnOk_elim,
}
use metaframer_kernel.Text.{Text, codes, text_eq}
use metaframer_kernel.Text.Forms.{policy_id_form, uuid_form}
use metaframer_kernel.Text.Trim.{has_control}
use metaframer_kernel.Js.{Value, string, ref, Heap, read}
use metaframer_kernel.Js.Shape.{dense_elements, is_ordinary_object, has_exact_data_keys}
use metaframer_kernel.Policy.Types.{
  Effect, allow, deny, tenant, CorrelationId, PolicyDecision, PolicyRequest, real, genuine,
}
use metaframer_kernel.Policy.Decision.{construct_decision, matched_policy_id_value, reason_value}
use metaframer_kernel.Policy.Evaluator.{
  Candidate, check_policy_id, check_candidate, check_entries, check_candidates, combine, decide,
  combined_reason, check_effect, check_applies, check_priority, check_layer, legacy_candidate_keys,
  v2_candidate_keys,
}
use metaframer_kernel.Policy.Evaluator.Combining.{
  Decides, denied, allowed, unmatched, combine-Decides,
}
use metaframer_kernel.Policy.Evaluator.Unique.{combine-trace, combine-reason}

-- An id that the constructor of PolicyDecision accepts too.
pub record IsPolicyId (s : Text) : Type 0 where
  pub some_character : 1 ≤ length s
  pub bounded : length s ≤ 128
  pub canonical : policy_id_form s ≡ true

check_policy_id-IsPolicyId : (v : Value) {s : Text} → check_policy_id v ≡ ok s → IsPolicyId s
unfolding check_policy_id
check_policy_id-IsPolicyId (string t) e = ground arith
check_policy_id-IsPolicyId _ e = cc

abbrev Named : Candidate → Type 0
Named c = IsPolicyId c.policy_id

module _ (h : Heap) where
  check_candidate-IsPolicyId : (v : Value) → OnOk Named (check_candidate h v)
  unfolding check_candidate
  check_candidate-IsPolicyId (ref r) =
      let ps = (h r).props in
      let is_legacy = has_exact_data_keys legacy_candidate_keys ps in
      require-OnOk Named (is_ordinary_object h (ref r)) type_error _ λ _.
        require-OnOk Named (is_legacy || has_exact_data_keys v2_candidate_keys ps) type_error _ λ _.
          >>=-OnOk Named (check_policy_id (read (codes "policyId") ps)) _ λ s id.
            >>=-OnOk Named (check_effect (read (codes "effect") ps)) _ λ _ _.
              >>=-OnOk Named (check_applies (read (codes "applies") ps)) _ λ _ _.
                >>=-OnOk Named
                  (if is_legacy then ok (pos 0) else check_priority (read (codes "priority") ps)) _
                  λ _ _.
                    >>=-OnOk Named
                      (if is_legacy then ok tenant else check_layer (read (codes "layer") ps)) _
                      λ _ _. check_policy_id-IsPolicyId (read (codes "policyId") ps) id
  check_candidate-IsPolicyId _ = tt

-- No id is listed twice, and none of them stands in `seen`.
abbrev pub IdsDistinct : List Text → List Candidate → Type 0
IdsDistinct seen [] = Unit
IdsDistinct seen (c ∷ cs) =
    (any (λ s. text_eq s c.policy_id) seen ≡ false) × IdsDistinct (c.policy_id ∷ seen) cs

abbrev Admitted : List Text → List Candidate → Type 0
Admitted seen cs = All Named cs × IdsDistinct seen cs

check_entries-Admitted :
    (h : Heap) (seen : List Text) (vs : List Value) → OnOk (Admitted seen) (check_entries h seen vs)
unfolding check_entries
check_entries-Admitted h seen [] = (tt, tt)
check_entries-Admitted h seen (v ∷ vs) = >>=-OnOk (Admitted seen) (check_candidate h v) _ λ c e.
    require-OnOk (Admitted seen) (not (any (λ s. text_eq s c.policy_id) seen)) type_error _ λ fresh.
      >>=-OnOk (Admitted seen) (check_entries h (c.policy_id ∷ seen) vs) _ λ rest r.
        let (named, distinct) =
          OnOk_elim (Admitted (c.policy_id ∷ seen)) _
            (check_entries-Admitted h (c.policy_id ∷ seen) vs) r in
        ((OnOk_elim Named _ (check_candidate-IsPolicyId h v) e, named), (ground arith, distinct))

-- Candidates that pass the checks carry canonical ids of 1 to 128 characters, each id once.
pub check_candidates-Admitted :
    (h : Heap) (v : Value) {cs : List Candidate}
    → check_candidates h v ≡ ok cs
    → All (λ c. IsPolicyId c.policy_id) cs × IdsDistinct [] cs
unfolding check_candidates
check_candidates-Admitted h v {cs} e = elim (Option-cases (dense_elements h v)) [
  | inl missing ↦ cc (rw (missing, check_candidates) at e)
  | inr (vs, found) ↦
      OnOk_elim (Admitted []) _ (check_entries-Admitted h [] vs) (rw (found, check_candidates) at e)
]

pub construct_same : (c d : PolicyDecision) → construct_decision c ≡ ok d → d ≡ c
unfolding construct_decision
construct_same c d e =
    let (_, _, e₁) = >>=-eq-ok (reason_value c.reason) _ e in
    let (_, _, e₂) = >>=-eq-ok (matched_policy_id_value c.matched_policy_id c.effect) _ e₁ in
    let (_, _, e₃) = >>=-eq-ok (require (uuid_form c.trace_id.uuid) type_error) _ e₂ in cc

reason_value-combined : reason_value combined_reason ≡ ok tt
unfolding reason_value text_eq has_control
reason_value-combined = refl

IsPolicyId-accepted :
    (s : Text) (e : Effect) → IsPolicyId s → matched_policy_id_value (some s) e ≡ ok tt
unfolding matched_policy_id_value
IsPolicyId-accepted s deny id = ground arith
IsPolicyId-accepted s allow id = ground arith

-- The name in a decision of the rule is one of the ids, or the decision is a deny.
Decides-Named :
    {cs : List Candidate} {e : Effect} {m : Option Text}
    → All Named cs
    → Decides cs e m
    → matched_policy_id_value m e ≡ ok tt
unfolding matched_policy_id_value
Decides-Named {cs} h (denied c v top) = IsPolicyId-accepted _ deny (All-In Named cs c h v.0)
Decides-Named {cs} h (allowed c v top free) = IsPolicyId-accepted _ allow (All-In Named cs c h v.0)
Decides-Named h (unmatched empty) = refl

construct_combine :
    (t : CorrelationId) (cs : List Candidate)
    → uuid_form t.uuid ≡ true
    → All Named cs
    → construct_decision (combine t cs) ≡ ok (combine t cs)
unfolding construct_decision
construct_combine t cs u h = rw (
  combine-reason t cs,
  reason_value-combined,
  Decides-Named h (combine-Decides t cs),
  combine-trace t cs,
  u,
)

-- Given a genuine request, whose correlation id is a canonical UUID, and candidates that pass the
-- checks, `decide` never throws: its own PolicyDecision is always constructed, and it is the one
-- that the checked candidates combine to.
pub decide_total :
    (h : Heap) (r : PolicyRequest) (v : Value) (cs : List Candidate)
    → uuid_form r.action.correlation_id.uuid ≡ true
    → check_candidates h v ≡ ok cs
    → decide h (real r) v ≡ ok (combine r.action.correlation_id cs)
unfolding decide genuine
decide_total h r v cs u e =
    rw (e) (construct_combine r.action.correlation_id cs u (check_candidates-Admitted h v e).0)

-- Whenever `decide` answers, its candidates passed the checks, and the answer is what deny-overrides
-- decides of them, under the correlation id of the request.
pub decide-Decides :
    (h : Heap) (r : PolicyRequest) (v : Value) (d : PolicyDecision)
    → decide h (real r) v ≡ ok d
    → (cs : List Candidate) × (check_candidates h v ≡ ok cs)
      × Decides cs d.effect d.matched_policy_id
      × (d.trace_id ≡ r.action.correlation_id)
unfolding decide genuine
decide-Decides h r v d e =
    let (cs, checked, k) = >>=-eq-ok (check_candidates h v) _ e in
    let same : d ≡ combine r.action.correlation_id cs = construct_same _ d k in
    (
      cs,
      checked,
      rw same (combine-Decides r.action.correlation_id cs),
      rw same (combine-trace r.action.correlation_id cs),
    )
