-- ===== src/Postgres.antt =====
-- The PostgreSQL driver that the adapters of src/adapters call: a pool that hands out clients, the
-- statements that they run, and the errors that it throws. The driver itself is a parameter.
pub mod Log
pub mod Transaction
pub mod Unit
pub mod Intents
pub mod Rows
pub mod Write
use metaframer_kernel.Base.{
  ℕ, Bool, true, false, ◌&&◌, Option, none, some, List, [], ◌∷◌, ◌++◌, ok, err, Fault, foreign,
}
use metaframer_kernel.Base.Effects.{Eff, ◌>>=◌, ◌>>◌, throw, catching, finally, ignored}
use metaframer_kernel.Text.{Text}
use metaframer_kernel.Js.{Value}
use metaframer_kernel.Canonical.{Json}
use metaframer_kernel.DecisionLog.Row.{Datum, Fields, exotic, plain}

-- The statements, with the values that they are given.
pub data Statement : Type 0 where
  begin commit rollback : Statement
  tenant_context select_head : (tenant_id : Text) → Statement
  insert_entry : (columns : Json) → Statement
  insert_customer : (tenant_id name payload : Text) → Statement
  insert_audit :
      (tenant_id event_type : Text) (actor_id correlation_id : Value) (details : Text) → Statement
  insert_outbox :
      (tenant_id event_type : Text) (correlation_id : Value) (dedup_key : Text) → Statement

-- A pool: a client is told by its number, and a statement answers its rows, which are objects. An error of the driver
-- has a `code` and a `constraint`, each a string or undefined.
pub record Pool (W : Type 0) : Type 0 where
  pub connect : Eff W ℕ
  pub query : ℕ → Statement → Eff W (List Fields)
  pub release : ℕ → W → W

pub record Driver : Type 0 where
  pub code : ℕ → Option Text
  pub constraint : ℕ → Option Text

-- `result.rows[0]`, undefined where there is none.
abbrev pub first_row : List Fields → Datum
first_row [] = exotic 0
first_row (row ∷ rows) = plain row

module _ {W : Type 0} (pool : Pool W) where
  -- A statement whose rows are not read.
  abbrev pub execute : ℕ → Statement → Eff W (Unit {0})
  execute client s = pool.query client s >>= λ _ w. (ok tt, w)

  -- The frame of both operations of the decision log: a client of the pool, the statements, and on
  -- an error a rollback whose own failure is passed over; the client is given back in any case.
  unfoldable pub transaction : {A : Type 0} → (Fault → Fault) → (ℕ → Eff W A) → Eff W A
  transaction rethrown body = pool.connect >>= λ client.
      finally (pool.release client)
        (catching (λ e. ignored (execute client rollback) >> throw (rethrown e)) (body client))
