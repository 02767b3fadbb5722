-- ===== src/Postgres/Intents.antt =====
-- src/adapters/postgres-write-envelope-write.mjs: the checks of a prepared change set, and the
-- errors that mean that its fingerprint was used before.
use metaframer_kernel.Base.{
  Bool, false, ◌&&◌, ◌||◌, Option, none, some, List, [], ◌∷◌, Outcome, ok, err, Fault, type_error,
  foreign, adapter, idempotency_conflict, require, ◌>>=◌, ◌>>◌, ◌==◌, length, if◌then◌else◌, not,
}
use metaframer_kernel.Text.{Text, codes, text_eq}
use metaframer_kernel.Js.{Value, undefined, null, string, ref, Heap, Proto, null_prototype, read}
use metaframer_kernel.Js.Shape.{is_ordinary_object, is_object_prototype, is_array, has_exact_keys}
use metaframer_kernel.Postgres.{Driver}

abbrev is_text : Text → Option Text → Bool
is_text expected none = false
is_text expected (some s) = text_eq s expected

-- `isDuplicateIdempotencyFingerprintError(error)`
unfoldable pub is_duplicate_fingerprint : Driver → Fault → Bool
unfolding text_eq
is_duplicate_fingerprint driver (foreign n) =
    is_text (codes "23505") (driver.code n)
    && is_text (codes "transactional_outbox_tenant_dedup_key") (driver.constraint n)
is_duplicate_fingerprint driver _ = false

-- What `write` throws in place of an error of its three insertions.
unfoldable pub write_fault : Driver → Text → Text → Fault → Fault
unfolding is_duplicate_fingerprint
write_fault driver tenant_id fingerprint fault =
    if is_duplicate_fingerprint driver fault
    then adapter (idempotency_conflict tenant_id fingerprint)
    else fault

-- A string that is not empty; one of blanks will do. `checkTenantId` and the two options of
-- `createPostgresWrite` are this check.
unfoldable pub filled_string : Value → Outcome Text
filled_string (string s) = require (not (length s == 0)) type_error >> ok s
filled_string _ = err type_error

-- `value[key]` of an object that was tested to be ordinary.
abbrev pub get : Heap → Value → Text → Value
get h (ref r) k = read k (h r).props
get h _ k = undefined

abbrev pub is_null_prototype : Proto → Bool
is_null_prototype null_prototype = Bool.true
is_null_prototype _ = false

-- `isSafePlainRecord(value)`
unfoldable pub is_safe_plain_record : Heap → Value → Bool
is_safe_plain_record h (ref r) =
    not (is_array (h r)) && (is_object_prototype (h r).proto || is_null_prototype (h r).proto)
is_safe_plain_record h _ = false

abbrev pub intent_keys : List Text
intent_keys =
    codes "customer" ∷ codes "audit" ∷ codes "transactionalOutbox" ∷ codes "idempotency" ∷ []

unfoldable pub demand_ordinary : Heap → Value → Outcome Value
unfolding is_ordinary_object
demand_ordinary h v = require (is_ordinary_object h v) type_error >> ok v

unfoldable pub demand_intents : Heap → Value → Outcome Value
unfolding is_ordinary_object has_exact_keys
demand_intents h (ref r) = do
  require (is_ordinary_object h (ref r)) type_error
  require (has_exact_keys intent_keys (h r).props) type_error
  ok (ref r)
demand_intents h _ = err type_error

-- What the write reads of the four intents.
pub record Intents : Type 0 where
  pub tenant_id : Value
  pub name : Text
  pub payload : Value
  pub action : Text
  pub intent_type : Value
  pub actor_id : Value
  pub correlation_id : Value
  pub event_name : Text
  pub event_correlation_id : Value
  pub fingerprint : Text

unfoldable pub is_pending : Value → Bool
unfolding text_eq
is_pending (string s) = text_eq s (codes "pending")
is_pending _ = false

-- `checkPreparedChangeSet(preparedChangeSet)`
unfoldable pub check_prepared_change_set : Heap → Value → Outcome Intents
unfolding demand_ordinary demand_intents is_safe_plain_record filled_string read is_pending
check_prepared_change_set h v = do
  change_set ← demand_ordinary h v
  require (is_pending (get h change_set (codes "persistenceState"))) type_error
  intents ← demand_intents h (get h change_set (codes "intents"))
  customer ← demand_ordinary h (get h intents (codes "customer"))
  audit ← demand_ordinary h (get h intents (codes "audit"))
  outbox ← demand_ordinary h (get h intents (codes "transactionalOutbox"))
  idempotency ← demand_ordinary h (get h intents (codes "idempotency"))
  require (is_safe_plain_record h (get h customer (codes "payload"))) type_error
  name ← filled_string (get h (get h customer (codes "payload")) (codes "name"))
  action ← filled_string (get h audit (codes "action"))
  event_name ← filled_string (get h outbox (codes "eventName"))
  fingerprint ← filled_string (get h idempotency (codes "fingerprint"))
  ok (record {
    tenant_id = get h customer (codes "tenantId");
    name = name;
    payload = get h customer (codes "payload");
    action = action;
    intent_type = get h audit (codes "type");
    actor_id = get h audit (codes "actorId");
    correlation_id = get h audit (codes "correlationId");
    event_name = event_name;
    event_correlation_id = get h outbox (codes "correlationId");
    fingerprint = fingerprint;
  })

-- `value ?? null`
abbrev pub or_null : Value → Value
or_null undefined = null
or_null v = v
