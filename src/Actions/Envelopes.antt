-- ===== src/Actions/Envelopes.antt =====
-- src/application/action-primitives.mjs: the constructors of Command and Query.
use metaframer_kernel.Base.{
  ℕ, not, Option, none, some, List, [], ◌∷◌, Outcome, ok, err, type_error, ◌>>=◌, ◌>>◌, require,
}
use metaframer_kernel.Text.{Text, codes}
use metaframer_kernel.Js.{Value, ref, Heap, Key, Property}
use metaframer_kernel.Js.Shape.{is_array, has_exact_keys}
use metaframer_kernel.Canonical.{Json, canonical_object}
use metaframer_kernel.Policy.Types.{Foreign, Principal, CorrelationId}
use metaframer_kernel.Actions.{action_name, action_version}

-- `exactOptions(options, expected, what)`: any object but an array.
unfoldable pub exact_options_of : List Text → Heap → Value → Outcome (List (Key × Property))
unfolding has_exact_keys
exact_options_of keys h (ref r) = do
  require (not (is_array (h r))) type_error
  require (has_exact_keys keys (h r).props) type_error
  ok (h r).props
exact_options_of keys h _ = err type_error

abbrev pub command_keys : List Text
command_keys =
    codes "name"
    ∷ codes "version"
    ∷ codes "principal"
    ∷ codes "correlationId"
    ∷ codes "causationId"
    ∷ codes "idempotencyKey"
    ∷ codes "payload"
    ∷ []

abbrev pub query_keys : List Text
query_keys =
    codes "name"
    ∷ codes "version"
    ∷ codes "principal"
    ∷ codes "correlationId"
    ∷ codes "causationId"
    ∷ codes "payload"
    ∷ []

-- `exactly(value, type, typeName, what)`: the prototype, and no brand.
unfoldable pub exactly : {A : Type 0} → Foreign A → Outcome (Foreign A)
exactly v = require v.is_exact type_error >> ok v

-- `optionalCausation(value, what)`; `none` is null.
unfoldable pub optional_causation : {A : Type 0} → Option (Foreign A) → Outcome (Option (Foreign A))
unfolding exactly
optional_causation none = ok none
optional_causation (some v) = exactly v >>= λ c. ok (some c)

-- What both share, with the identity coordinates kept by reference.
pub record Coordinates : Type 0 where
  pub name : Text
  pub version : ℕ
  pub principal : Foreign Principal
  pub correlation_id : Foreign CorrelationId
  pub causation_id : Option (Foreign Text)
  pub payload : Json

-- The values under the keys, once those are exact.
pub record CoordinateOptions : Type 0 where
  pub name : Value
  pub version : Value
  pub principal : Foreign Principal
  pub correlation_id : Foreign CorrelationId
  pub causation_id : Option (Foreign Text)
  pub payload : Value

pub record Command : Type 0 where
  pub coordinates : Coordinates
  pub idempotency_key : Foreign Text

-- `new Command(options)` after its exact keys.
unfoldable pub new_command : Heap → CoordinateOptions → Foreign Text → Outcome Command
unfolding action_name action_version exactly optional_causation canonical_object
new_command h o key = do
  name ← action_name o.name
  version ← action_version o.version
  principal ← exactly o.principal
  correlation_id ← exactly o.correlation_id
  causation_id ← optional_causation o.causation_id
  idempotency_key ← exactly key
  payload ← canonical_object h o.payload
  let coordinates : Coordinates = record {
    name = name;
    version = version;
    principal = principal;
    correlation_id = correlation_id;
    causation_id = causation_id;
    payload = payload;
  }
  ok (record { coordinates = coordinates; idempotency_key = idempotency_key })

-- `new Query(options)` after its exact keys.
unfoldable pub new_query : Heap → CoordinateOptions → Outcome Coordinates
unfolding action_name action_version exactly optional_causation canonical_object
new_query h o = do
  name ← action_name o.name
  version ← action_version o.version
  principal ← exactly o.principal
  correlation_id ← exactly o.correlation_id
  causation_id ← optional_causation o.causation_id
  payload ← canonical_object h o.payload
  ok (record {
    name = name;
    version = version;
    principal = principal;
    correlation_id = correlation_id;
    causation_id = causation_id;
    payload = payload;
  })
