-- ===== src/Policy/Decision.antt =====
-- The constructor of PolicyDecision (src/application/policy-decision.mjs).
use metaframer_kernel.Base.{
  ℕ, ◌&&◌, not, Option, none, some, leb, length, Outcome, ok, err, type_error, range_error, ◌>>◌,
  require,
}
use metaframer_kernel.Text.{Text, text_eq}
use metaframer_kernel.Text.Forms.{policy_id_form, uuid_form}
use metaframer_kernel.Text.Trim.{trim, has_control}
use metaframer_kernel.Policy.Types.{Effect, allow, deny, PolicyDecision}

abbrev pub reason_max : ℕ
reason_max = 512

abbrev pub matched_id_max : ℕ
matched_id_max = 128

-- `reasonValue`
unfoldable pub reason_value : Text → Outcome (Unit {0})
unfolding trim
reason_value s = do
  require (leb (length s) reason_max) range_error
  require (leb 1 (length (trim s))) range_error
  require (text_eq (trim s) s) type_error
  require (not (has_control s)) range_error

-- `matchedPolicyIdValue`
unfoldable pub matched_policy_id_value : Option Text → Effect → Outcome (Unit {0})
matched_policy_id_value none deny = ok tt
matched_policy_id_value none allow = err type_error
matched_policy_id_value (some s) e = do
  require (leb 1 (length s) && leb (length s) matched_id_max) range_error
  require (policy_id_form s) type_error

-- The checks of the constructor over the fields that it is handed, in their order.
unfoldable pub construct_decision : PolicyDecision → Outcome PolicyDecision
unfolding reason_value matched_policy_id_value
construct_decision d = do
  reason_value d.reason
  matched_policy_id_value d.matched_policy_id d.effect
  require (uuid_form d.trace_id.uuid) type_error
  ok d
