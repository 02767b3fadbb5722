-- ===== src/Postgres/Write.antt =====
-- src/adapters/postgres-write-envelope-write.mjs: the write of one prepared change set inside the
-- transaction of a unit of work.
pub mod Committed
use metaframer_kernel.Base.{ℕ, some, List, [], ◌∷◌, Outcome, ok, err, type_error}
use metaframer_kernel.Base.Effects.{Eff, ◌>>=◌, ◌>>◌, throw, lift, catching}
use metaframer_kernel.Text.{Text, codes}
use metaframer_kernel.Js.{Value, string, Heap}
use metaframer_kernel.DecisionLog.Row.{Datum, Fields}
use metaframer_kernel.Commit.{CommitReceipt, receipt_of_options}
use metaframer_kernel.Postgres.{
  tenant_context, insert_customer, insert_audit, insert_outbox, Pool, Driver, execute,
}
use metaframer_kernel.Postgres.Log.{column}
use metaframer_kernel.Postgres.Rows.{Spelling, receipt_from}
use metaframer_kernel.Postgres.Intents.{
  Intents, check_prepared_change_set, filled_string, write_fault, or_null,
}

module _ {W : Type 0} (driver : Driver) (spelling : Spelling) (pool : Pool W)
    (request_id idempotency_key : Text) where
  -- The three insertions and the receipt.
  unfoldable pub insert_intents : Intents → Text → ℕ → Eff W CommitReceipt
  unfolding receipt_from
  insert_intents intents tenant_id client = do
    payload ← lift (spelling.stringify intents.payload)
    customer ← pool.query client (insert_customer tenant_id intents.name payload)
    details ← lift (spelling.stringify_intent (or_null intents.intent_type))
    audit ← pool.query client (
        insert_audit tenant_id intents.action (or_null intents.actor_id)
          (or_null intents.correlation_id) details)
    outbox ← pool.query client (
        insert_outbox tenant_id intents.event_name (or_null intents.event_correlation_id)
          intents.fingerprint)
    lift (receipt_from spelling request_id idempotency_key tenant_id customer audit outbox)

  -- `write(scope, preparedChangeSet)`
  unfoldable pub write : Heap → ℕ → Value → Eff W CommitReceipt
  unfolding check_prepared_change_set filled_string insert_intents write_fault
  write h client change_set = do
    intents ← lift (check_prepared_change_set h change_set)
    tenant_id ← lift (filled_string intents.tenant_id)
    execute pool client (tenant_context tenant_id)
    catching (λ e. throw (write_fault driver tenant_id intents.fingerprint e))
        (insert_intents intents tenant_id client)
