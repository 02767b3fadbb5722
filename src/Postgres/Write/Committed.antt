-- ===== src/Postgres/Write/Committed.antt =====
-- src/application/write-envelope.mjs over src/adapters/postgres-unit-of-work.mjs and
-- postgres-write-envelope-write.mjs: one commit of a prepared change set, from end to end.
use metaframer_kernel.Base.{
  ◌≡◌, refl, false, ℕ, List, [], ◌∷◌, Outcome, ok, err, type_error, OnOk, OnOk_elim, >>=-OnOk,
  require-OnOk, not, OnOk-mono,
}
use metaframer_kernel.Base.Effects.{Eff, ◌>>=◌, lift, catching, throw, mapped, map_answer, proceed}
use metaframer_kernel.Text.{Text, codes}
use metaframer_kernel.Js.{Value, string, Heap}
use metaframer_kernel.Policy.Types.{Foreign, real}
use metaframer_kernel.UnitOfWork.{UnitState}
use metaframer_kernel.DecisionLog.{timestamp_value}
use metaframer_kernel.DecisionLog.Row.{Fields}
use metaframer_kernel.Commit.{
  CommitReceipt, ReceiptOptions, receipt_of_options, non_empty_string, outcome_value,
  outbox_event_ids_value, is_blank,
}
use metaframer_kernel.Commit.Envelope
use metaframer_kernel.Commit.Envelope.{write_body, exact_receipt}
use metaframer_kernel.Postgres.Unit.{on_world, postgres_port}
use metaframer_kernel.Postgres.Unit.Committed.{Committed, idle, unit_run-Committed}
use metaframer_kernel.Postgres.{
  Statement, commit, tenant_context, insert_customer, insert_audit, insert_outbox, Pool, Driver,
  execute,
}
use metaframer_kernel.Postgres.Transaction.{
  Recorded, recording_pool, AnyAnswer, Runs, Runs-bind, Runs-lift, Runs-query, Runs-execute,
  Runs-rethrow, Runs-last, Runs-mono, Runs-mapped,
}
use metaframer_kernel.Postgres.Intents.{
  Intents, check_prepared_change_set, filled_string, write_fault, or_null,
}
use metaframer_kernel.Postgres.Write.{insert_intents, write}
use metaframer_kernel.Postgres.Rows.{Spelling, receipt_options, receipt_from, returned}

-- A text that was spelled, or none where spelling it throws and no statement is given it.
abbrev spelled : Outcome Text → Text
spelled (ok s) = s
spelled (err e) = []

module _ (spelling : Spelling) where
  abbrev pub insertions : Intents → Text → List Statement
  insertions i t =
      insert_customer t i.name (spelled (spelling.stringify i.payload))
      ∷ insert_audit t i.action (or_null i.actor_id) (or_null i.correlation_id)
          (spelled (spelling.stringify_intent (or_null i.intent_type)))
      ∷ insert_outbox t i.event_name (or_null i.event_correlation_id) i.fingerprint
      ∷ []

  abbrev planned_for : Intents → Outcome Text → List Statement
  planned_for i (err e) = []
  planned_for i (ok t) = tenant_context t ∷ insertions i t

  abbrev planned_of : Outcome Intents → List Statement
  planned_of (err e) = []
  planned_of (ok i) = planned_for i (filled_string i.tenant_id)

  -- The statements of one write: none for a change set that is refused.
  abbrev pub planned : Heap → Value → List Statement
  planned h v = planned_of (check_prepared_change_set h v)

-- The receipt carries the options' texts.
non_empty_string-OnOk : (v : Value) → OnOk (λ s. v ≡ string s) (non_empty_string v)
unfolding non_empty_string
non_empty_string-OnOk (string s) =
    require-OnOk (λ t. string s ≡ string t) (not (is_blank s)) type_error _ λ _. refl
non_empty_string-OnOk v = tt

abbrev Carries : ReceiptOptions → CommitReceipt → Type 0
Carries o r =
    (o.request_id ≡ string r.request_id)
    × (o.tenant_id ≡ string r.tenant_id)
    × (o.resource_id ≡ string r.resource_id)
    × (o.idempotency_key ≡ string r.idempotency_key)

receipt_of_options-OnOk : (o : ReceiptOptions) → OnOk (Carries o) (receipt_of_options o)
unfolding receipt_of_options
receipt_of_options-OnOk o = >>=-OnOk (Carries o) (non_empty_string o.request_id) _ λ q eq.
    >>=-OnOk (Carries o) (non_empty_string o.tenant_id) _ λ t et.
      >>=-OnOk (Carries o) (non_empty_string o.resource_id) _ λ r er.
        >>=-OnOk (Carries o) (outcome_value o.outcome) _ λ _ _.
          >>=-OnOk (Carries o) (timestamp_value o.committed_at) _ λ c _.
            >>=-OnOk (Carries o) (non_empty_string o.audit_id) _ λ a _.
              >>=-OnOk (Carries o) (outbox_event_ids_value o.outbox_event_ids) _ λ b _.
                >>=-OnOk (Carries o) (non_empty_string o.idempotency_key) _ λ k ek. (
                  OnOk_elim (λ s. o.request_id ≡ string s) _ (non_empty_string-OnOk o.request_id)
                      eq,
                  OnOk_elim (λ s. o.tenant_id ≡ string s) _ (non_empty_string-OnOk o.tenant_id) et,
                  OnOk_elim (λ s. o.resource_id ≡ string s) _ (non_empty_string-OnOk o.resource_id)
                      er,
                  OnOk_elim (λ s. o.idempotency_key ≡ string s) _
                      (non_empty_string-OnOk o.idempotency_key) ek,
                )

module _ (spelling : Spelling) (request_id idempotency_key : Text) where
  -- The receipt names the request, the idempotency key and the tenant.
  abbrev pub Names : Text → CommitReceipt → Type 0
  Names t r =
      (r.request_id ≡ request_id) × (r.idempotency_key ≡ idempotency_key) × (r.tenant_id ≡ t)

  string_injective : (s t : Text) → string s ≡ string t → t ≡ s
  string_injective s t e = cc

  receipt_from-OnOk :
      (t : Text) (rows audits events : List Fields)
      → OnOk (Names t) (receipt_from spelling request_id idempotency_key t rows audits events)
  unfolding receipt_from
  receipt_from-OnOk t rows audits events =
      >>=-OnOk (Names t) (returned (codes "id") rows) _ λ resource _.
        >>=-OnOk (Names t) (returned (codes "recorded_at") rows) _ λ at _.
          >>=-OnOk (Names t) (spelling.iso_string at) _ λ committed_at _.
            >>=-OnOk (Names t) (returned (codes "id") audits) _ λ audit _.
              >>=-OnOk (Names t) (returned (codes "id") events) _ λ event _.
                let o : ReceiptOptions =
                  receipt_options spelling request_id idempotency_key t resource committed_at audit
                    event in
                OnOk-mono (Carries o) (Names t) (receipt_of_options o) (receipt_of_options-OnOk o)
                  λ r c. (
                    string_injective request_id r.request_id c.0,
                    string_injective idempotency_key r.idempotency_key c.3,
                    string_injective t r.tenant_id c.1,
                  )

module _ {W : Type 0} (driver : Driver) (spelling : Spelling) (pool : Pool W)
    (request_id idempotency_key : Text) where
  -- A text that was spelled is the one that the statement is given.
  insert_intents-Runs :
      (i : Intents) (t : Text) (client : ℕ)
      → Runs (Names spelling request_id idempotency_key t) (commit ∷ []) (insertions spelling i t) (
          insert_intents driver spelling
            (recording_pool pool)
            request_id
            idempotency_key
            i
            t
            client)
  unfolding insert_intents
  insert_intents-Runs i t client =
      let S : CommitReceipt → Type 0 = Names spelling request_id idempotency_key t in
      Runs-lift S _ _ (spelling.stringify i.payload) _ refl λ p ep. rw ep (
        Runs-bind AnyAnswer S _ _ (Runs-query pool client (insert_customer t i.name p)) λ rows _.
          Runs-lift S _ _ (spelling.stringify_intent (or_null i.intent_type)) _ refl λ d ed. rw ed (
            Runs-bind AnyAnswer S _ _ (Runs-query pool client (insert_audit _ _ _ _ d)) λ audits _.
              Runs-bind AnyAnswer S _ _ (Runs-query pool client (insert_outbox _ _ _ _))
                λ events _. receipt-Runs rows audits events))
    where
      receipt-Runs :
          (rows audits events : List Fields)
          → Runs {W = W}
              (Names spelling request_id idempotency_key t)
              (commit ∷ [])
              []
              (lift (receipt_from spelling request_id idempotency_key t rows audits events))
      receipt-Runs rows audits events =
          Runs-last (Names spelling request_id idempotency_key t) commit [] _ λ r e.
            OnOk_elim (Names spelling request_id idempotency_key t) _
              (receipt_from-OnOk spelling request_id idempotency_key t rows audits events) e

  -- A receipt for a change set that passed its checks.
  abbrev pub Accepted : Outcome Intents → CommitReceipt → Type 0
  Accepted checked r =
      (i : Intents) × (t : Text) × (checked ≡ ok i)
      × (filled_string i.tenant_id ≡ ok t)
      × Names spelling request_id idempotency_key t r

  -- The write after its checks.
  abbrev write_for : ℕ → Intents → Text → Eff (Recorded W) CommitReceipt
  write_for client i t = execute (recording_pool pool) client (tenant_context t) >>= λ _.
      catching (λ e. throw (write_fault driver t i.fingerprint e))
        (insert_intents driver spelling (recording_pool pool) request_id idempotency_key i t client)

  tenant-Runs :
      (R : CommitReceipt → Type 0) (client : ℕ) (i : Intents) (o : Outcome Text)
      → ((t : Text) (r : CommitReceipt)
          → o ≡ ok t
          → Names spelling request_id idempotency_key t r
          → R r)
      → Runs R (commit ∷ []) (planned_for spelling i o) (lift o >>= write_for client i)
  tenant-Runs R client i (err e) k =
      Runs-lift R commit [] (err e) (write_for client i) refl λ t e. cc
  tenant-Runs R client i (ok t) k =
      Runs-bind AnyAnswer R _ _ (Runs-execute pool client (tenant_context t)) λ _ _.
        Runs-mono (Names spelling request_id idempotency_key t) R _ (λ r n. k t r refl n)
          (Runs-rethrow (Names spelling request_id idempotency_key t)
            (write_fault driver t i.fingerprint) _ (insert_intents-Runs i t client))

  intents-Runs :
      (R : CommitReceipt → Type 0) (client : ℕ) (o : Outcome Intents)
      → ((r : CommitReceipt) → Accepted o r → R r)
      → Runs R
          (commit ∷ [])
          (planned_of spelling o)
          (lift o >>= λ i. lift (filled_string i.tenant_id) >>= write_for client i)
  intents-Runs R client (err e) k =
      Runs-lift R commit [] (err e) (λ i. lift (filled_string i.tenant_id) >>= write_for client i)
        refl λ t e. cc
  intents-Runs R client (ok i) k =
      tenant-Runs R client i (filled_string i.tenant_id) λ t r e n. k r (i, t, refl, e, n)

  -- The collaborator that the envelope is given.
  abbrev pub postgres_write :
      Heap → ℕ → Value → Eff (UnitState (Recorded W)) (Foreign CommitReceipt)
  postgres_write h client change_set = on_world (
      mapped real (
        write driver spelling (recording_pool pool) request_id idempotency_key h client change_set))

  abbrev pub AcceptedReal : Outcome Intents → Foreign CommitReceipt → Type 0
  AcceptedReal checked v = (r : CommitReceipt) × (v ≡ real r) × Accepted checked r

  write-Runs :
      (h : Heap) (v : Value) (client : ℕ)
      → Runs (AcceptedReal (check_prepared_change_set h v)) (commit ∷ []) (planned spelling h v) (
          mapped real
            (write driver spelling (recording_pool pool) request_id idempotency_key h client v))
  unfolding write
  write-Runs h v client =
      let checked : Outcome Intents = check_prepared_change_set h v in
      Runs-mapped (Accepted checked) (AcceptedReal checked) real _ (λ r p. (r, refl, p))
        (intents-Runs (Accepted checked) client checked λ r p. p)

  -- The test of the envelope lets a receipt through.
  write_body-acts :
      (h : Heap) (v : Value) (client : ℕ) (u : UnitState (Recorded W))
      → write_body (postgres_port (recording_pool pool)) (postgres_write h) v client u
        ≡ on_world
            (mapped real
              (write driver spelling (recording_pool pool) request_id idempotency_key h client v))
            u
  unfolding write_body exact_receipt
  write_body-acts h v client u =
      go (write driver spelling (recording_pool pool) request_id idempotency_key h client v u.world)
    where
      go :
          (r : Outcome CommitReceipt × Recorded W)
          → let m = map_answer real r in
            proceed (λ r. lift (exact_receipt r)) m.0 (record u { world = m.1 })
            ≡ (m.0, record u { world = m.1 })
      go (ok a, w) = refl
      go (err e, w) = refl

  -- One commit of any value as a change set, through an idle unit of work over any pool: a receipt
  -- is answered only when the value passed the checks of a prepared change set, the transaction
  -- began, took the tenant of the change set, ran the three insertions in their order and
  -- committed, and it names that tenant, the request and the idempotency key. On any error of a
  -- statement or a check there is no later statement but one attempt to roll back. The client is
  -- given back once, at the end, and the unit is idle again.
  pub commit-Committed :
      (h : Heap) (v : Value) (w : W)
      → let (o, u) =
          Envelope.commit (postgres_port (recording_pool pool)) (postgres_write h) v (idle w) in
        Committed (AcceptedReal (check_prepared_change_set h v)) (planned spelling h v) o u.world.1
        × (u.in_flight ≡ false)
  unfolding Envelope.commit
  commit-Committed h v w =
      unit_run-Committed pool (AcceptedReal (check_prepared_change_set h v)) (planned spelling h v)
        (write_body (postgres_port (recording_pool pool)) (postgres_write h) v)
        (λ client.
          mapped real
            (write driver spelling (recording_pool pool) request_id idempotency_key h client v))
        (write_body-acts h v) (write-Runs h v) w
