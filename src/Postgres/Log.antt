-- ===== src/Postgres/Log.antt =====
-- src/adapters/postgres-decision-log-adapter.mjs: the two operations of the adapter.
pub mod Conflicts
pub mod Transacted
use metaframer_kernel.Base.{
  Bool, false, Option, none, some, List, [], ◌∷◌, ◌++◌, ℕ, Fault, type_error, foreign, adapter,
  chain_conflict, if◌then◌else◌, any,
}
use metaframer_kernel.Base.Effects.{Eff, ◌>>=◌, ◌>>◌, throw, pure, lift}
use metaframer_kernel.Text.{Text, codes, text_eq}
use metaframer_kernel.Text.Forms.{uuid_form}
use metaframer_kernel.Canonical.{Json, obj}
use metaframer_kernel.Policy.Types.{Foreign, genuine}
use metaframer_kernel.DecisionLog.{LogEntry}
use metaframer_kernel.DecisionLog.Row.{
  Datum, Fields, no_fields, entry, exotic, AppendReceipt, verify_row,
}
use metaframer_kernel.DecisionLog.Row.Entry.{columns_of}
use metaframer_kernel.Postgres.{
  begin, commit, tenant_context, select_head, insert_entry, Pool, Driver, first_row, execute,
  transaction,
}

abbrev pub chain_conflict_pairs : List Text
chain_conflict_pairs =
    codes "23505:policy_decision_log_one_genesis_per_tenant"
    ∷ codes "23505:policy_decision_log_one_successor_per_predecessor"
    ∷ codes "23503:policy_decision_log_prev_hash_same_tenant_fk"
    ∷ []

-- A part of a template literal.
abbrev pub rendered : Option Text → Text
rendered none = codes "undefined"
rendered (some s) = s

-- `isChainConflictError(error)`; the errors of the kernel's own carry no constraint.
unfoldable pub is_chain_conflict : Driver → Fault → Bool
unfolding text_eq
is_chain_conflict driver (foreign n) =
    let key : Text = rendered (driver.code n) ++ codes ":" ++ rendered (driver.constraint n) in
    any (λ p. text_eq p key) chain_conflict_pairs
is_chain_conflict driver _ = false

-- What `append` throws in place of an error.
unfoldable pub append_fault : Driver → LogEntry → Fault → Fault
unfolding is_chain_conflict
append_fault driver e fault =
    if is_chain_conflict driver fault
    then adapter (chain_conflict e.request.action.principal.tenant_id e.id e.prev_hash)
    else fault

-- `row[key]`
unfoldable pub column : Text → Fields → Datum
unfolding text_eq
column k no_fields = exotic 0
column k (entry j d fs) = if text_eq j k then d else column k fs

-- `result.rows.length === 0 ? null : result.rows[0].entry_hash`
unfoldable pub head_of : List Fields → Option Datum
unfolding column
head_of [] = none
head_of (row ∷ rows) = some (column (codes "entry_hash") row)

module _ {W : Type 0} (sha256_of : Json → Text) (driver : Driver) (pool : Pool W) where
  -- The statements of `append`; the payload is `entry.toJSON()` without its hash.
  unfoldable pub append_entry : LogEntry → ℕ → Eff W AppendReceipt
  unfolding columns_of verify_row
  append_entry e client = do
    execute pool client begin
    execute pool client (tenant_context e.request.action.principal.tenant_id)
    rows ← pool.query client (insert_entry (obj (columns_of e)))
    receipt ← lift (verify_row sha256_of (first_row rows))
    execute pool client commit
    pure receipt

  -- `append(entry)`
  unfoldable pub append : Foreign LogEntry → Eff W AppendReceipt
  unfolding genuine transaction append_entry append_fault
  append v = elim (genuine v) [
    | none ↦ throw type_error
    | some e ↦ transaction pool (append_fault driver e) (append_entry e)
  ]

-- `isGenuineTenantId(value)`, with the text of the instance.
unfoldable pub genuine_tenant : Foreign Text → Option Text
unfolding genuine uuid_form
genuine_tenant v = elim (genuine v) [ none ↦ none | some t ↦ if uuid_form t then some t else none ]

module _ {W : Type 0} (pool : Pool W) where
  unfoldable pub select_chain_head : Text → ℕ → Eff W (Option Datum)
  unfolding head_of
  select_chain_head tenant client = do
    execute pool client begin
    execute pool client (tenant_context tenant)
    rows ← pool.query client (select_head tenant)
    execute pool client commit
    pure (head_of rows)

  -- `chainHead(tenantId)`
  unfoldable pub chain_head : Foreign Text → Eff W (Option Datum)
  unfolding genuine_tenant transaction select_chain_head
  chain_head v = elim (genuine_tenant v) [
    | none ↦ throw type_error
    | some t ↦ transaction pool (λ e. e) (select_chain_head t)
  ]
