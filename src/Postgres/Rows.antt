-- ===== src/Postgres/Rows.antt =====
-- src/adapters/postgres-write-envelope-write.mjs: the receipt that is made of the inserted rows.
use metaframer_kernel.Base.{some, List, [], ◌∷◌, Outcome, ok, err, type_error, ◌>>=◌}
use metaframer_kernel.Text.{Text, codes}
use metaframer_kernel.Js.{Value, string}
use metaframer_kernel.DecisionLog.Row.{Datum, Fields}
use metaframer_kernel.Commit.{CommitReceipt, ReceiptOptions, receipt_of_options}
use metaframer_kernel.Postgres.Log.{column}

-- `result.rows[0][key]`
unfoldable pub returned : Text → List Fields → Outcome Datum
unfolding column
returned k [] = err type_error
returned k (row ∷ rows) = ok (column k row)

-- What JavaScript does with values of its own: `JSON.stringify` of a payload, and of an object
-- whose one member is the type of the intent, `String`, and `toISOString` of a date.
pub record Spelling : Type 0 where
  pub stringify : Value → Outcome Text
  pub stringify_intent : Value → Outcome Text
  pub string_of : Datum → Text
  pub iso_string : Datum → Outcome Text

-- The options that `write` gives to the constructor of the receipt.
abbrev pub receipt_options :
    Spelling → Text → Text → Text → Datum → Text → Datum → Datum → ReceiptOptions
receipt_options spelling request_id idempotency_key tenant_id resource committed_at audit event =
    record {
      request_id = string request_id;
      tenant_id = string tenant_id;
      resource_id = string (spelling.string_of resource);
      outcome = string (codes "COMMITTED");
      committed_at = string committed_at;
      audit_id = string (spelling.string_of audit);
      outbox_event_ids = some (string (spelling.string_of event) ∷ []);
      idempotency_key = string idempotency_key;
    }

-- The receipt of the rows that the insertions answered.
unfoldable pub receipt_from :
    Spelling → Text → Text → Text → List Fields → List Fields → List Fields → Outcome CommitReceipt
unfolding returned receipt_of_options
receipt_from spelling request_id idempotency_key tenant_id customer audit outbox = do
  resource ← returned (codes "id") customer
  recorded_at ← returned (codes "recorded_at") customer
  committed_at ← spelling.iso_string recorded_at
  audited ← returned (codes "id") audit
  event ← returned (codes "id") outbox
  receipt_of_options (
      receipt_options spelling request_id idempotency_key tenant_id resource committed_at audited
        event)
