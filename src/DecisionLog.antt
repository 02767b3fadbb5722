-- ===== src/DecisionLog.antt =====
-- src/application/decision-log-entry.mjs: one entry of the decision log, and the checks of its
-- constructor. SHA-256 over the JSON text of a payload is the parameter `sha256_of`.
pub mod Point
pub mod Audit
pub mod Chain
pub mod Time
pub mod Order
pub mod Row
use metaframer_kernel.Base.{
  ℕ, suc, Bool, true, false, Option, none, some, List, [], ◌∷◌, if◌then◌else◌, Outcome, ok, err,
  type_error, range_error, ◌>>=◌, ◌>>◌, require, ◌==◌,
}
use metaframer_kernel.Text.{Text, codes, text_eq, text_lt}
use metaframer_kernel.Text.Forms.{ulid_form, hex64_form, matches_shape}
use metaframer_kernel.Js.{Value, string}
use metaframer_kernel.Canonical.{
  Json, null, bool, num, str, arr, obj, Items, nil, cons, Members, end, member,
}
use metaframer_kernel.Clock.{reading_shape, is_real_time, number_at}
use metaframer_kernel.Policy.Types.{
  Effect, allow, deny, Layer, system, platform, tenant, CorrelationId, PolicyRequest,
  PolicyDecision, Foreign, genuine,
}
use metaframer_kernel.Policy.Statement.{layer_value}

pub record LogEntry : Type 0 where
  pub id : Text
  pub request : PolicyRequest
  pub decision : PolicyDecision
  pub layer_resolved : Option Layer
  pub ts : Text
  pub prev_hash : Option Text
  pub entry_hash : Text

unfoldable pub ulid_value : Value → Outcome Text
ulid_value (string s) = if ulid_form s then ok s else err type_error
ulid_value _ = err type_error

unfoldable pub timestamp_value : Value → Outcome Text
timestamp_value (string s) =
    if matches_shape reading_shape s
    then (if is_real_time (number_at 0 4 s) (number_at 5 2 s) (number_at 8 2 s) (number_at 11 2 s)
          (number_at 14 2 s) (number_at 17 2 s)
        then ok s
        else err range_error)
    else err type_error
timestamp_value _ = err type_error

unfoldable pub prev_hash_value : Value → Outcome (Option Text)
prev_hash_value Value.null = ok none
prev_hash_value (string s) = if hex64_form s then ok (some s) else err type_error
prev_hash_value _ = err type_error

unfoldable pub null_layer : Value → Outcome (Option Layer)
null_layer Value.null = ok none
null_layer _ = err type_error

unfoldable pub layer_resolved_value : Value → PolicyDecision → Outcome (Option Layer)
unfolding null_layer layer_value
layer_resolved_value v decision = elim decision.matched_policy_id [
  | none ↦ null_layer v
  | some _ ↦ layer_value v >>= λ l. ok (some l)
]

unfoldable pub instance_of : {A : Type 0} → Foreign A → Outcome A
unfolding genuine
instance_of v = elim (genuine v) [ none ↦ err type_error | some a ↦ ok a ]

abbrev pub proto_key : Text
proto_key = codes "__proto__"

-- `descendingKeyOrder`: the members of every object by descending key. An assignment to the key
-- `__proto__` makes no member: it sets the prototype of the new object, or nothing.
unfoldable pub insert_descending : Text → Json → Members → Members
insert_descending k v end = member k v end
insert_descending k v (member j w ms) =
    if text_lt k j then member j w (insert_descending k v ms) else member k v (member j w ms)

unfoldable mutual
  unfolding insert_descending text_eq

  pub descending_key_order : Json → Json
  descending_key_order (arr xs) = arr (descending_items xs)
  descending_key_order (obj ms) = obj (descending_members ms)
  descending_key_order null = null
  descending_key_order (bool b) = bool b
  descending_key_order (num n) = num n
  descending_key_order (str s) = str s

  pub descending_items : Items → Items
  descending_items nil = nil
  descending_items (cons j xs) = cons (descending_key_order j) (descending_items xs)

  pub descending_members : Members → Members
  descending_members end = end
  descending_members (member k v ms) =
      let rest = descending_members ms in
      if text_eq k proto_key then rest else insert_descending k (descending_key_order v) rest

abbrev pub effect_text : Effect → Text
effect_text allow = codes "allow"
effect_text deny = codes "deny"

abbrev pub layer_text : Layer → Text
layer_text system = codes "system"
layer_text platform = codes "platform"
layer_text tenant = codes "tenant"

abbrev pub text_or_null : Option Text → Json
text_or_null none = null
text_or_null (some s) = str s

abbrev pub layer_or_null : Option Layer → Json
layer_or_null none = null
layer_or_null (some l) = str (layer_text l)

-- `plainPayloadOf`: everything but the hash.
unfoldable pub plain_payload : LogEntry → Json
unfolding descending_key_order
plain_payload e =
    let actor : Json = obj (
      member (codes "tenantId") (str e.request.action.principal.tenant_id)
        (member (codes "actorId") (str e.request.action.principal.actor_id) end)) in
    obj (
      member (codes "id") (str e.id) (
        member (codes "requestActor") actor (
          member (codes "requestAction") (str e.request.action.name) (
            member (codes "requestResource") (descending_key_order e.request.resource) (
              member (codes "requestContext") (descending_key_order e.request.context) (
                member (codes "decision") (str (effect_text e.decision.effect)) (
                  member (codes "reason") (str e.decision.reason) (
                    member (codes "matchedPolicyId") (text_or_null e.decision.matched_policy_id) (
                      member (codes "layerResolved") (layer_or_null e.layer_resolved) (
                        member (codes "traceId") (str e.decision.trace_id.uuid) (
                          member (codes "ts") (str e.ts)
                            (member (codes "prevHash") (text_or_null e.prev_hash) end))))))))))))

-- The options of the constructor; its caller passes a literal with exactly these keys.
pub record EntryOptions : Type 0 where
  pub id : Value
  pub request : Foreign PolicyRequest
  pub decision : Foreign PolicyDecision
  pub layer_resolved : Value
  pub ts : Value
  pub prev_hash : Value

-- `new DecisionLogEntry(options)`; two correlation ids are the same instance if their addresses are.
unfoldable pub decision_log_entry : (Json → Text) → EntryOptions → Outcome LogEntry
unfolding instance_of
decision_log_entry sha256_of options = do
  id ← ulid_value options.id
  request ← instance_of options.request
  decision ← instance_of options.decision
  require (decision.trace_id.address == request.action.correlation_id.address) type_error
  layer ← layer_resolved_value options.layer_resolved decision
  ts ← timestamp_value options.ts
  prev_hash ← prev_hash_value options.prev_hash
  let plain : LogEntry = record {
    id = id;
    request = request;
    decision = decision;
    layer_resolved = layer;
    ts = ts;
    prev_hash = prev_hash;
    entry_hash = [];
  }
  ok (record plain { entry_hash = sha256_of (plain_payload plain) })
