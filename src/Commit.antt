-- ===== src/Commit.antt =====
-- src/application/commit-receipt.mjs and write-envelope.mjs: the receipt of one commit, and the
-- write that a unit of work carries.
pub mod Envelope
use metaframer_kernel.Base.{
  Bool, true, false, ◌&&◌, Option, none, some, List, [], ◌∷◌, Outcome, ok, err, type_error, ◌>>=◌,
  ◌>>◌, require, ◌==◌, length, all, any, not, if◌then◌else◌,
}
use metaframer_kernel.Text.{Text, codes, text_eq}
use metaframer_kernel.Text.Trim.{trim}
use metaframer_kernel.Js.{
  Value, string, ref, Heap, Key, Property, own_property, is_enumerable_data, read,
}
use metaframer_kernel.Js.Shape.{is_ordinary_object, dense_elements}
use metaframer_kernel.DecisionLog.{timestamp_value}

pub record CommitReceipt : Type 0 where
  pub request_id : Text
  pub tenant_id : Text
  pub resource_id : Text
  pub committed_at : Text
  pub audit_id : Text
  pub outbox_event_ids : List Text
  pub idempotency_key : Text

abbrev pub is_blank : Text → Bool
is_blank s = length (trim s) == 0

-- `nonEmptyString(value, field)`
unfoldable pub non_empty_string : Value → Outcome Text
unfolding trim
non_empty_string (string s) = require (not (is_blank s)) type_error >> ok s
non_empty_string _ = err type_error

-- `outcomeValue(value)`
unfoldable pub outcome_value : Value → Outcome (Unit {0})
unfolding text_eq
outcome_value (string s) = require (text_eq s (codes "COMMITTED")) type_error
outcome_value _ = err type_error

-- The loop over the elements, with the ids seen so far.
unfoldable pub event_ids_from : List Text → List Value → Outcome (List Text)
unfolding text_eq non_empty_string
event_ids_from seen [] = ok []
event_ids_from seen (v ∷ vs) = do
  id ← non_empty_string v
  require (not (any (λ s. text_eq s id) seen)) type_error
  rest ← event_ids_from (id ∷ seen) vs
  ok (id ∷ rest)

-- `outboxEventIdsValue(value)`; `none` is a value that is no ordinary dense array of data.
unfoldable pub outbox_event_ids_value : Option (List Value) → Outcome (List Text)
unfolding event_ids_from
outbox_event_ids_value none = err type_error
outbox_event_ids_value (some []) = err type_error
outbox_event_ids_value (some (v ∷ vs)) = event_ids_from [] (v ∷ vs)

pub record ReceiptOptions : Type 0 where
  pub request_id : Value
  pub tenant_id : Value
  pub resource_id : Value
  pub outcome : Value
  pub committed_at : Value
  pub audit_id : Value
  pub outbox_event_ids : Option (List Value)
  pub idempotency_key : Value

-- The constructor on an object that has exactly its eight keys. The check of `committedAt` is, line
-- for line, that of a decision log's `ts`.
unfoldable pub receipt_of_options : ReceiptOptions → Outcome CommitReceipt
unfolding non_empty_string outcome_value timestamp_value outbox_event_ids_value
receipt_of_options o = do
  request_id ← non_empty_string o.request_id
  tenant_id ← non_empty_string o.tenant_id
  resource_id ← non_empty_string o.resource_id
  outcome_value o.outcome
  committed_at ← timestamp_value o.committed_at
  audit_id ← non_empty_string o.audit_id
  outbox_event_ids ← outbox_event_ids_value o.outbox_event_ids
  idempotency_key ← non_empty_string o.idempotency_key
  ok (record {
    request_id = request_id;
    tenant_id = tenant_id;
    resource_id = resource_id;
    committed_at = committed_at;
    audit_id = audit_id;
    outbox_event_ids = outbox_event_ids;
    idempotency_key = idempotency_key;
  })

abbrev pub canonical_keys : List Text
canonical_keys =
    codes "requestId"
    ∷ codes "tenantId"
    ∷ codes "resourceId"
    ∷ codes "outcome"
    ∷ codes "committedAt"
    ∷ codes "auditId"
    ∷ codes "outboxEventIds"
    ∷ codes "idempotencyKey"
    ∷ []

-- `exactInput(options)`: as many keys as expected, each expected one an enumerable data property.
unfoldable pub exact_input : List Text → Heap → Value → Outcome (List (Key × Property))
unfolding is_ordinary_object own_property
exact_input keys h (ref r) = do
  require (is_ordinary_object h (ref r)) type_error
  require (length (h r).props == length keys) type_error
  require (all (λ k. is_enumerable_data (own_property k (h r).props)) keys) type_error
  ok (h r).props
exact_input keys h _ = err type_error

-- `new CommitReceipt(options)`
unfoldable pub commit_receipt : Heap → Value → Outcome CommitReceipt
unfolding exact_input read dense_elements receipt_of_options
commit_receipt h v = do
  ps ← exact_input canonical_keys h v
  receipt_of_options (record {
    request_id = read (codes "requestId") ps;
    tenant_id = read (codes "tenantId") ps;
    resource_id = read (codes "resourceId") ps;
    outcome = read (codes "outcome") ps;
    committed_at = read (codes "committedAt") ps;
    audit_id = read (codes "auditId") ps;
    outbox_event_ids = dense_elements h (read (codes "outboxEventIds") ps);
    idempotency_key = read (codes "idempotencyKey") ps;
  })
