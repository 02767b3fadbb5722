-- ===== src/Policy/Statement.antt =====
-- src/application/policy-statement.mjs: one row of policy as data, admitted field by field.
use metaframer_kernel.Base.{
  not, ℕ, Bool, false, ◌&&◌, List, [], ◌∷◌, ℤ, leb, length, all, Outcome, ok, err, type_error,
  range_error, ◌>>=◌, ◌>>◌, require, if◌then◌else◌,
}
use metaframer_kernel.Text.{Text, codes, text_eq}
use metaframer_kernel.Text.Forms.{policy_id_form, action_name_form, resource_type_form}
use metaframer_kernel.Text.Semver.{semver_form}
use metaframer_kernel.Js.{
  Value, boolean, number, string, ref, Heap, Key, name, sym, Property, is_data, is_safe_integer,
  as_integer, read,
}
use metaframer_kernel.Js.Shape.{is_array, is_ordinary_object, has_exact_keys}
use metaframer_kernel.Canonical.{Json, canonical_anything}
use metaframer_kernel.Policy.Types.{Effect, allow, deny, Layer, system, platform, tenant}

pub record PolicyStatement : Type 0 where
  pub id : Text
  pub effect : Effect
  pub target_actor : Json
  pub target_action : Text
  pub target_resource_type : Text
  pub condition : Json
  pub priority : ℤ
  pub layer : Layer
  pub version : Text
  pub enabled : Bool

-- The loop of `exactOptions`: no symbol, no accessor, nothing that is not enumerable.
abbrev pub is_plain_option : Key × Property → Bool
is_plain_option (name _, p) = is_data p && p.enumerable
is_plain_option (sym _, p) = false

-- `exactOptions`
unfoldable pub exact_options : Heap → Value → List Text → Outcome (List (Key × Property))
exact_options h (ref r) expected = do
  require (is_ordinary_object h (ref r)) type_error
  require (all is_plain_option (h r).props) type_error
  require (has_exact_keys expected (h r).props) type_error
  ok (h r).props
exact_options h _ expected = err type_error

-- `canonicalRoot` over this file's own `canonicalValue`, which is that of action-primitives.mjs.
unfoldable pub statement_root : Heap → Value → Outcome Json
statement_root h (ref r) = require (not (is_array (h r))) type_error >> canonical_anything h (ref r)
statement_root h _ = err type_error

unfoldable pub effect_value : Value → Outcome Effect
effect_value (string s) =
    if text_eq s (codes "allow")
    then ok allow
    else if text_eq s (codes "deny")
    then ok deny
    else err type_error
effect_value _ = err type_error

unfoldable pub layer_value : Value → Outcome Layer
layer_value (string s) =
    if text_eq s (codes "system")
    then ok system
    else if text_eq s (codes "platform")
    then ok platform
    else if text_eq s (codes "tenant")
    then ok tenant
    else err type_error
layer_value _ = err type_error

unfoldable pub priority_value : Value → Outcome ℤ
priority_value (number n) = if is_safe_integer n then ok (as_integer n) else err type_error
priority_value _ = err type_error

unfoldable pub enabled_value : Value → Outcome Bool
enabled_value (boolean b) = ok b
enabled_value _ = err type_error

unfoldable pub semver_value : Value → Outcome Text
semver_value (string s) = if semver_form s then ok s else err type_error
semver_value _ = err type_error

abbrev pub canonical_id_max : ℕ
canonical_id_max = 128

-- `canonicalId`
unfoldable pub canonical_id : Value → Outcome Text
canonical_id (string s) = do
  require (leb 1 (length s) && leb (length s) canonical_id_max) range_error
  require (policy_id_form s) type_error
  ok s
canonical_id _ = err type_error

-- `targetActionValue`
unfoldable pub target_action_value : Value → Outcome Text
target_action_value (string s) = do
  require (leb (length s) canonical_id_max) range_error
  require (action_name_form s) type_error
  ok s
target_action_value _ = err type_error

-- `targetResourceTypeValue`
unfoldable pub target_resource_type_value : Value → Outcome Text
target_resource_type_value (string s) = do
  require (leb 1 (length s) && leb (length s) canonical_id_max) range_error
  require (resource_type_form s) type_error
  ok s
target_resource_type_value _ = err type_error

abbrev pub statement_options : List Text
statement_options =
    codes "id"
    ∷ codes "effect"
    ∷ codes "targetActor"
    ∷ codes "targetAction"
    ∷ codes "targetResourceType"
    ∷ codes "condition"
    ∷ codes "priority"
    ∷ codes "layer"
    ∷ codes "version"
    ∷ codes "enabled"
    ∷ []

-- The constructor.
unfoldable pub policy_statement : Heap → Value → Outcome PolicyStatement
policy_statement h options = do
  ps ← exact_options h options statement_options
  id ← canonical_id (read (codes "id") ps)
  effect ← effect_value (read (codes "effect") ps)
  target_actor ← statement_root h (read (codes "targetActor") ps)
  target_action ← target_action_value (read (codes "targetAction") ps)
  target_resource_type ← target_resource_type_value (read (codes "targetResourceType") ps)
  condition ← statement_root h (read (codes "condition") ps)
  priority ← priority_value (read (codes "priority") ps)
  layer ← layer_value (read (codes "layer") ps)
  version ← semver_value (read (codes "version") ps)
  enabled ← enabled_value (read (codes "enabled") ps)
  ok (record {
    id = id;
    effect = effect;
    target_actor = target_actor;
    target_action = target_action;
    target_resource_type = target_resource_type;
    condition = condition;
    priority = priority;
    layer = layer;
    version = version;
    enabled = enabled;
  })
