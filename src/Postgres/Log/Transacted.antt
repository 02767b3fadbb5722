-- ===== src/Postgres/Log/Transacted.antt =====
-- The transactions of src/adapters/postgres-decision-log-adapter.mjs, over any pool.
use metaframer_kernel.Base.{◌≡◌, refl, ℕ, Option, List, [], ◌∷◌, ok, Fault}
use metaframer_kernel.Postgres.Log.Conflicts.{Rethrown, append_fault-Rethrown}
use metaframer_kernel.Text.{Text}
use metaframer_kernel.Text.Forms.{uuid_form}
use metaframer_kernel.Canonical.{Json, obj}
use metaframer_kernel.Policy.Types.{genuine, real}
use metaframer_kernel.DecisionLog.{LogEntry}
use metaframer_kernel.DecisionLog.Row.{Datum, Fields, AppendReceipt, verify_row}
use metaframer_kernel.DecisionLog.Row.Entry.{columns_of}
use metaframer_kernel.Postgres.{
  Statement, begin, commit, tenant_context, select_head, insert_entry, Pool, Driver, first_row,
}
use metaframer_kernel.Postgres.Log.{
  append, append_entry, append_fault, chain_head, select_chain_head, genuine_tenant, head_of,
}
use metaframer_kernel.Postgres.Transaction.{
  recording_pool, AnyAnswer, Runs, Runs-bind, Runs-lift, Runs-pure, Runs-query, Runs-answered,
  AnsweredTo, Runs-execute, Transacted, transaction-Transacted,
}
use metaframer_kernel.Base.{true}

abbrev pub append_statements : LogEntry → List Statement
append_statements e =
    begin
    ∷ tenant_context e.request.action.principal.tenant_id
    ∷ insert_entry (obj (columns_of e))
    ∷ commit
    ∷ []

abbrev pub head_statements : Text → List Statement
head_statements t = begin ∷ tenant_context t ∷ select_head t ∷ commit ∷ []

-- The first of the rows that the pool answered to the insertion passed the verification, with this
-- receipt.
abbrev pub IsVerified : {W : Type 0} → (Json → Text) → Pool W → LogEntry → AppendReceipt → Type 0
IsVerified {W} sha256_of pool e r =
    (client : ℕ) × (rows : List Fields) × AnsweredTo pool client (insert_entry (obj (columns_of e)))
      rows
    × (verify_row sha256_of (first_row rows) ≡ ok r)

module _ {W : Type 0} (sha256_of : Json → Text) (driver : Driver) (pool : Pool W) where
  append_entry-Runs :
      (e : LogEntry) (client : ℕ)
      → Runs
          (IsVerified sha256_of pool e)
          []
          (append_statements e)
          (append_entry sha256_of driver (recording_pool pool) e client)
  unfolding append_entry
  append_entry-Runs e client =
      let R : AppendReceipt → Type 0 = IsVerified sha256_of pool e in
      let inserted : Statement = insert_entry (obj (columns_of e)) in
      Runs-bind AnyAnswer R _ _ (Runs-execute pool client begin) λ _ _.
        Runs-bind AnyAnswer R _ _ (Runs-execute pool client (tenant_context _)) λ _ _.
          Runs-bind (AnsweredTo pool client inserted) R _ _ (Runs-answered pool client inserted)
            λ rows given.
              Runs-lift R commit [] (verify_row sha256_of (first_row rows)) _ refl λ r v.
                Runs-bind AnyAnswer R _ _ (Runs-execute pool client commit)
                  λ _ _. Runs-pure R r (client, rows, given, v)

  -- Every append of a genuine entry, over any pool: a receipt is answered only when the
  -- transaction began, took the tenant of the entry, inserted its row, and committed, and it is
  -- the receipt of a row that the pool answered to that insertion and that verifies. On an error
  -- there is no later statement but one rollback, whose own failure is passed over, and the error
  -- is thrown; in place of one by which the database names a second genesis, a second successor or
  -- an unknown predecessor, and of no other, the chain conflict of that entry. The client is given
  -- back once, at the end.
  pub append-Transacted :
      (e : LogEntry) (w : W)
      → (let (o, u) = append sha256_of driver (recording_pool pool) (real e) (w, []) in
          Transacted
            (IsVerified sha256_of pool e)
            (append_fault driver e)
            (append_statements e)
            o
            u.1)
        × ((f : Fault) → Rethrown driver e f (append_fault driver e f))
  unfolding append genuine
  append-Transacted e w = (
    transaction-Transacted pool (IsVerified sha256_of pool e) (append_fault driver e)
        (append_statements e) (append_entry sha256_of driver (recording_pool pool) e)
        (append_entry-Runs e) w,
    append_fault-Rethrown driver e,
  )

module _ {W : Type 0} (pool : Pool W) where
  select_chain_head-Runs :
      (t : Text) (client : ℕ)
      → Runs AnyAnswer [] (head_statements t) (select_chain_head (recording_pool pool) t client)
  unfolding select_chain_head
  select_chain_head-Runs t client =
      let R : Option Datum → Type 0 = AnyAnswer in
      Runs-bind AnyAnswer R _ _ (Runs-execute pool client begin) λ _ _.
        Runs-bind AnyAnswer R _ _ (Runs-execute pool client (tenant_context t)) λ _ _.
          Runs-bind AnyAnswer R _ _ (Runs-query pool client (select_head t)) λ rows _.
            Runs-bind AnyAnswer R _ _ (Runs-execute pool client commit)
              λ _ _. Runs-pure R (head_of rows) tt

  -- Every reading of a tenant's chain head, over any pool, takes the tenant before it selects,
  -- answers only after the commit, rolls back once on an error and throws it as it is, and gives
  -- the client back once, at the end. The tenant is a UUID.
  pub chain_head-Transacted :
      (t : Text) (w : W)
      → uuid_form t ≡ true
      → let (o, u) = chain_head (recording_pool pool) (real t) (w, []) in
        Transacted AnyAnswer (λ e. e) (head_statements t) o u.1
  unfolding chain_head genuine_tenant genuine
  chain_head-Transacted t w h = rw h (
      transaction-Transacted pool AnyAnswer (λ e. e) (head_statements t)
        (select_chain_head (recording_pool pool) t) (select_chain_head-Runs t) w)
