-- ===== src/Postgres/Unit.antt =====
-- src/adapters/postgres-unit-of-work.mjs: the port of a unit of work over the pool. The scope of a
-- transaction is its client.
pub mod Committed
use metaframer_kernel.Base.{ℕ, ok, err, Fault}
use metaframer_kernel.Base.Effects.{Eff, ◌>>=◌, ◌>>◌, pure, throw, catching, finally, ignored}
use metaframer_kernel.UnitOfWork.{UnitState, Port}
use metaframer_kernel.Postgres.{begin, commit, rollback, Pool, execute}

module _ {W : Type 0} (pool : Pool W) where
  -- The client is given back if the transaction does not begin.
  unfoldable pub begin_unit : Eff W ℕ
  begin_unit = pool.connect >>= λ client.
      catching (λ e w. (err e, pool.release client w)) (execute pool client begin) >> pure client

  unfoldable pub commit_unit : ℕ → Eff W (Unit {0})
  commit_unit client = finally (pool.release client) (
      catching (λ e. ignored (execute pool client rollback) >> throw e)
        (execute pool client commit))

  unfoldable pub rollback_unit : ℕ → Eff W (Unit {0})
  rollback_unit client = finally (pool.release client) (execute pool client rollback)

-- An operation that leaves the flag of the unit alone.
abbrev pub on_world : {W A : Type 0} → Eff W A → Eff (UnitState W) A
on_world m u = let (o, w) = m u.world in (o, record u { world = w })

unfoldable pub postgres_port : {W : Type 0} → Pool W → Port W ℕ
unfolding begin_unit commit_unit rollback_unit
postgres_port pool = record {
  begin = on_world (begin_unit pool);
  commit = λ client. on_world (commit_unit pool client);
  rollback = λ client. on_world (rollback_unit pool client);
}
