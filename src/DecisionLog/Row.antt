-- ===== src/DecisionLog/Row.antt =====
-- `verifyPersistedDecisionLogRow` of src/adapters/postgres-decision-log-adapter.mjs: the check of
-- one row that the database answers. SHA-256 over the JSON text of a payload is `sha256_of`.
pub mod Stored
pub mod Entry
pub mod Binding
use metaframer_kernel.Base.{
  ℕ, Bool, true, false, ◌&&◌, Option, none, some, List, [], ◌∷◌, Outcome, ok, err, ◌>>=◌, ◌>>◌,
  require, ◌==◌, length, all, any, if◌then◌else◌, Fault, adapter, integrity_violation,
}
use metaframer_kernel.Text.{Text, codes, text_eq}
use metaframer_kernel.Text.Forms.{ulid_form, uuid_form, hex64_form, matches_shape}
use metaframer_kernel.Js.{Num}
use metaframer_kernel.Canonical.{
  Json, null, bool, num, str, arr, obj, Items, nil, cons, Members, end, member,
}
use metaframer_kernel.Canonical.Bounds.{member_keys}
use metaframer_kernel.Clock.{reading_shape}
use metaframer_kernel.DecisionLog.{descending_key_order, text_or_null}

-- What stands in a row: a JSON value, or one of another kind, a Date for one, told apart by a number.
mutual
  pub data Datum : Type 0 where
    nothing : Datum
    exotic : ℕ → Datum
    truth : Bool → Datum
    number : Num → Datum
    string : Text → Datum
    array : Data → Datum
    plain : Fields → Datum

  pub data Data : Type 0 where
    no_data : Data
    datum : Datum → Data → Data

  pub data Fields : Type 0 where
    no_fields : Fields
    entry : Text → Datum → Fields → Fields

abbrev pub integrity : Fault
integrity = adapter integrity_violation

-- `demandJsonShape(value, what)`, with the value that it lets through.
unfoldable mutual
  pub demand_json_shape : Datum → Outcome Json
  demand_json_shape nothing = ok null
  demand_json_shape (truth b) = ok (bool b)
  demand_json_shape (number n) = ok (num n)
  demand_json_shape (string s) = ok (str s)
  demand_json_shape (array ds) = demand_json_items ds >>= λ js. ok (arr js)
  demand_json_shape (plain fs) = demand_json_fields fs >>= λ ms. ok (obj ms)
  demand_json_shape (exotic n) = err integrity

  pub demand_json_items : Data → Outcome Items
  demand_json_items no_data = ok nil
  demand_json_items (datum d ds) = do
    j ← demand_json_shape d
    js ← demand_json_items ds
    ok (cons j js)

  pub demand_json_fields : Fields → Outcome Members
  demand_json_fields no_fields = ok end
  demand_json_fields (entry k d fs) = do
    j ← demand_json_shape d
    ms ← demand_json_fields fs
    ok (member k j ms)

-- As many keys as expected and every expected one among them.
unfoldable pub has_exactly : List Text → List Text → Bool
unfolding text_eq
has_exactly keys given =
    (length given == length keys) && all (λ k. any (λ g. text_eq g k) given) keys

-- `exactKeys(value, keys, what)`, with the members that it lets through.
unfoldable pub demand_members : List Text → Json → Outcome Members
unfolding has_exactly
demand_members keys (obj ms) = require (has_exactly keys (member_keys ms)) integrity >> ok ms
demand_members keys _ = err integrity

-- `value[key]` of a key that is there.
unfoldable pub field : Text → Members → Json
unfolding text_eq
field k end = null
field k (member j v ms) = if text_eq j k then v else field k ms

-- A string of the form.
unfoldable pub demand_text : (Text → Bool) → Json → Outcome Text
demand_text form (str s) = require (form s) integrity >> ok s
demand_text form _ = err integrity

-- `null`, or a string of the form.
unfoldable pub demand_nullable : (Text → Bool) → Json → Outcome (Option Text)
demand_nullable form null = ok none
demand_nullable form (str s) = require (form s) integrity >> ok (some s)
demand_nullable form _ = err integrity

abbrev pub any_text : Text → Bool
any_text s = true

unfoldable pub same_nullable : Option Text → Option Text → Bool
unfolding text_eq
same_nullable none none = true
same_nullable (some s) (some t) = text_eq s t
same_nullable _ _ = false

-- The payload of a row after its checks, with `descendingKeyOrder` applied where it applies.
pub record Payload : Type 0 where
  pub id : Text
  pub actor : Text × Text
  pub action : Text
  pub resource : Json
  pub context : Json
  pub decision : Text
  pub reason : Text
  pub matched_policy_id : Option Text
  pub layer_resolved : Option Text
  pub trace_id : Text
  pub ts : Text
  pub prev_hash : Option Text

abbrev pub actor_keys : List Text
actor_keys = codes "tenantId" ∷ codes "actorId" ∷ []

abbrev pub payload_keys : List Text
payload_keys =
    codes "id"
    ∷ codes "requestActor"
    ∷ codes "requestAction"
    ∷ codes "requestResource"
    ∷ codes "requestContext"
    ∷ codes "decision"
    ∷ codes "reason"
    ∷ codes "matchedPolicyId"
    ∷ codes "layerResolved"
    ∷ codes "traceId"
    ∷ codes "ts"
    ∷ codes "prevHash"
    ∷ []

unfoldable pub read_actor : Members → Outcome (Text × Text)
unfolding demand_text field
read_actor ms = do
  tenant_id ← demand_text uuid_form (field (codes "tenantId") ms)
  actor_id ← demand_text any_text (field (codes "actorId") ms)
  ok (tenant_id, actor_id)

unfoldable pub read_payload : Members → Outcome Payload
unfolding demand_text demand_nullable field read_actor demand_members matches_shape
read_payload ms = do
  id ← demand_text ulid_form (field (codes "id") ms)
  actor ← demand_members actor_keys (field (codes "requestActor") ms) >>= read_actor
  action ← demand_text any_text (field (codes "requestAction") ms)
  decision ← demand_text any_text (field (codes "decision") ms)
  reason ← demand_text any_text (field (codes "reason") ms)
  matched_policy_id ← demand_nullable any_text (field (codes "matchedPolicyId") ms)
  layer_resolved ← demand_nullable any_text (field (codes "layerResolved") ms)
  trace_id ← demand_text uuid_form (field (codes "traceId") ms)
  ts ← demand_text (matches_shape reading_shape) (field (codes "ts") ms)
  prev_hash ← demand_nullable hex64_form (field (codes "prevHash") ms)
  ok (record {
    id = id;
    actor = actor;
    action = action;
    resource = descending_key_order (field (codes "requestResource") ms);
    context = descending_key_order (field (codes "requestContext") ms);
    decision = decision;
    reason = reason;
    matched_policy_id = matched_policy_id;
    layer_resolved = layer_resolved;
    trace_id = trace_id;
    ts = ts;
    prev_hash = prev_hash;
  })

-- `canonical`
unfoldable pub canonical_payload : Payload → Json
canonical_payload p =
    let actor : Json =
      obj (
        member (codes "tenantId") (str p.actor.0) (member (codes "actorId") (str p.actor.1) end)) in
    obj (
      member (codes "id") (str p.id) (
        member (codes "requestActor") actor (
          member (codes "requestAction") (str p.action) (
            member (codes "requestResource") p.resource (
              member (codes "requestContext") p.context (
                member (codes "decision") (str p.decision) (
                  member (codes "reason") (str p.reason) (
                    member (codes "matchedPolicyId") (text_or_null p.matched_policy_id) (
                      member (codes "layerResolved") (text_or_null p.layer_resolved) (
                        member (codes "traceId") (str p.trace_id) (
                          member (codes "ts") (str p.ts)
                            (member (codes "prevHash") (text_or_null p.prev_hash) end))))))))))))

pub record AppendReceipt : Type 0 where
  pub entry_id : Text
  pub tenant_id : Text
  pub entry_hash : Text
  pub prev_hash : Option Text

abbrev pub row_keys : List Text
row_keys =
    codes "id" ∷ codes "tenant_id" ∷ codes "entry_hash" ∷ codes "prev_hash" ∷ codes "payload" ∷ []

module _ (sha256_of : Json → Text) where
  -- The columns bind to the payload, whose canonical form has the row's hash.
  unfoldable pub bind_row : AppendReceipt → Payload → Outcome AppendReceipt
  unfolding text_eq same_nullable canonical_payload
  bind_row columns payload = do
    require (text_eq payload.id columns.entry_id) integrity
    require (text_eq payload.actor.0 columns.tenant_id) integrity
    require (same_nullable payload.prev_hash columns.prev_hash) integrity
    require (text_eq (sha256_of (canonical_payload payload)) columns.entry_hash) integrity
    ok columns

  unfoldable pub verify_columns : Members → Outcome AppendReceipt
  unfolding demand_text demand_nullable demand_members field read_payload bind_row
  verify_columns row = do
    id ← demand_text ulid_form (field (codes "id") row)
    tenant_id ← demand_text uuid_form (field (codes "tenant_id") row)
    entry_hash ← demand_text hex64_form (field (codes "entry_hash") row)
    prev_hash ← demand_nullable hex64_form (field (codes "prev_hash") row)
    payload ← demand_members payload_keys (field (codes "payload") row) >>= read_payload
    bind_row
        (record {
          entry_id = id;
          tenant_id = tenant_id;
          entry_hash = entry_hash;
          prev_hash = prev_hash;
        })
        payload

  -- `verifyPersistedDecisionLogRow(row)`. Every demand fails with the same error, so that of the
  -- JSON shape, which the source makes of the payload, may come first for the whole row: a column
  -- of another kind fails its own demand.
  unfoldable pub verify_row : Datum → Outcome AppendReceipt
  unfolding demand_json_shape demand_members verify_columns
  verify_row row = do
    shaped ← demand_json_shape row
    columns ← demand_members row_keys shaped
    verify_columns columns
