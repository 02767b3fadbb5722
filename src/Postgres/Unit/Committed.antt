-- ===== src/Postgres/Unit/Committed.antt =====
-- src/application/unit-of-work.mjs over the port of src/adapters/postgres-unit-of-work.mjs: what one
-- run does to the pool, for any pool and any body that only runs statements.
use metaframer_kernel.Base.{
  append_assoc, ◌≡◌, refl, Bool, true, false, ℕ, some, List, [], ◌∷◌, ◌++◌, map, Outcome, ok, err,
  Fault,
}
use metaframer_kernel.Base.Effects.{
  Eff, ◌>>◌, Post, proceed, pure, throw, catching, handled, finally, ignored,
}
use metaframer_kernel.DecisionLog.Row.{Fields}
use metaframer_kernel.UnitOfWork.{UnitState, run, started, settle, after_commit}
use metaframer_kernel.Postgres.{Statement, begin, commit, rollback, Pool, execute}
use metaframer_kernel.Postgres.Transaction.{
  Event, connected, connect_failed, released, done, failed, Recorded, note, recording_pool, Broke,
  statement, later, Runs,
}
use metaframer_kernel.Postgres.Unit.{
  on_world, postgres_port, begin_unit, commit_unit, rollback_unit,
}

abbrev pub attempt : Bool → Event
attempt true = done rollback
attempt false = failed rollback

-- The events of one run, by how it ended: an answer only after every statement of the body and the
-- commit; otherwise, once the transaction has begun, one attempt to roll back; and the client, once
-- there is one, given back exactly once, at the end.
pub data Committed {A : Type 0} (R : A → Type 0) (ss : List Statement)
    : Outcome A → List Event → Type 0 where
  no_client : (e : Fault) → Committed R ss (err e) (connect_failed ∷ [])
  not_begun : (e : Fault) → Committed R ss (err e) (connected ∷ failed begin ∷ released ∷ [])
  settled :
      (a : A)
      → R a
      → Committed R ss (ok a) (connected ∷ done begin ∷ map done ss ++ done commit ∷ released ∷ [])
  undone :
      (e : Fault) (es : List Event) (b : Bool)
      → Broke (ss ++ commit ∷ []) es
      → Committed R ss (err e) (connected ∷ done begin ∷ es ++ attempt b ∷ released ∷ [])

abbrev pub idle : {W : Type 0} → W → UnitState (Recorded W)
idle w = record { in_flight = false; world = (w, []) }

Broke-commit : (ss : List Statement) → Broke (ss ++ commit ∷ []) (map done ss ++ failed commit ∷ [])
Broke-commit [] = statement commit []
Broke-commit (s ∷ ss) = later s (Broke-commit ss)

module _ {W A : Type 0} (pool : Pool W) (R : A → Type 0) (ss : List Statement) where
  abbrev Follows : Outcome A × UnitState (Recorded W) → Type 0
  Follows r = Committed R ss r.0 r.1.world.1

  abbrev recorded : Pool (Recorded W)
  recorded = recording_pool pool

  -- The rollback after a body that threw.
  rollback-Follows :
      (client : ℕ) (e : Fault) (es : List Event) (v : Recorded W)
      → Broke (ss ++ commit ∷ []) es
      → v.1 ≡ connected ∷ done begin ∷ es
      → Committed R ss (err e) (rollback_unit recorded client v).1.1
  unfolding rollback_unit
  rollback-Follows client e es v b q = go (pool.query client rollback v.0) q
    where
      go :
          (r : Outcome (List Fields) × W)
          → v.1 ≡ connected ∷ done begin ∷ es
          → let n = note (done rollback) (failed rollback) v.1 r in
            Committed R ss (err e) ((proceed (λ _ w. (ok tt, w)) n.0 n.1).1.1 ++ released ∷ [])
      go (ok a, w) q =
          rw (q, append_assoc es (done rollback ∷ []) (released ∷ [])) (undone e es true b)
      go (err f, w) q =
          rw (q, append_assoc es (failed rollback ∷ []) (released ∷ [])) (undone e es false b)

  -- The commit, and the rollback if it fails.
  commit-Follows :
      (client : ℕ) (a : A) (v : Recorded W)
      → R a
      → v.1 ≡ connected ∷ done begin ∷ map done ss
      → let (o, u) =
          on_world (commit_unit recorded client) (record { in_flight = true; world = v }) in
        Follows (after_commit (postgres_port recorded) a (o, u))
  unfolding commit_unit rollback_unit
  commit-Follows client a v good q = go (pool.query client commit v.0) q
    where
      go :
          (r : Outcome (List Fields) × W)
          → v.1 ≡ connected ∷ done begin ∷ map done ss
          → let n = note (done commit) (failed commit) v.1 r in
            let (o, w) =
              finally
                (recorded.release client)
                (λ w.
                  handled
                    (λ e. ignored (execute recorded client rollback) >> throw e)
                    (proceed (λ _ w. (ok tt, w)) n.0 n.1))
                v in
            Follows
              (after_commit (postgres_port recorded) a (o, record { in_flight = true; world = w }))
      go (ok rows, w) q =
          rw (q, append_assoc (map done ss) (done commit ∷ []) (released ∷ [])) (settled a good)
      go (err e, w) q =
          rollback-Follows client e (map done ss ++ failed commit ∷ [])
            (w, v.1 ++ failed commit ∷ []) (Broke-commit ss) (rw q refl)

  module _ (body : ℕ → Eff (UnitState (Recorded W)) A) (m : ℕ → Eff (Recorded W) A)
      (acts : (client : ℕ) (u : UnitState (Recorded W)) → body client u ≡ on_world (m client) u)
      (runs : (client : ℕ) → Runs R (commit ∷ []) ss (m client)) where
    settle-Follows :
        (client : ℕ) (r : Outcome A × Recorded W)
        → Post
            (λ a v. R a × (v.1 ≡ connected ∷ done begin ∷ map done ss))
            (λ v.
              (es : List Event) × Broke (ss ++ commit ∷ []) es
              × (v.1 ≡ connected ∷ done begin ∷ es))
            r
        → Follows
            (settle (postgres_port recorded) client (r.0, record { in_flight = true; world = r.1 }))
    unfolding settle postgres_port
    settle-Follows client (ok a, v) (good, q) = commit-Follows client a v good q
    settle-Follows client (err e, v) (es, b, q) = rollback-Follows client e es v b q

    begun-Follows :
        (client : ℕ) (v : W) (r : Outcome (List Fields) × W)
        → let n = note (done begin) (failed begin) (connected ∷ []) r in
          let (o, u) =
            proceed
              (λ _. pure client)
              (handled
                (λ e w. (err e, recorded.release client w))
                (proceed (λ _ w. (ok tt, w)) n.0 n.1)).0
              (handled
                (λ e w. (err e, recorded.release client w))
                (proceed (λ _ w. (ok tt, w)) n.0 n.1)).1 in
          Follows
            (started (postgres_port recorded) body (o, record { in_flight = true; world = u }))
    unfolding started
    begun-Follows client v (ok rows, w) =
        let u : Recorded W = (w, connected ∷ done begin ∷ []) in
        rw (acts client (record { in_flight = true; world = u }))
          (settle-Follows client (m client u) ((runs client).from u))
    begun-Follows client v (err e, w) = not_begun e

    -- A run on an idle unit, over any pool, of a body that runs these statements.
    pub unit_run-Committed :
        (w : W)
        → let (o, u) = run (postgres_port recorded) (some body) (idle w) in
          Committed R ss o u.world.1 × (u.in_flight ≡ false)
    unfolding run postgres_port begin_unit
    unit_run-Committed w = (start (pool.connect w), refl)
      where
        start :
            (r : Outcome ℕ × W)
            → let n = note connected connect_failed [] r in
              let (o, u) =
                proceed
                  (λ client.
                    catching
                      (λ e w. (err e, recorded.release client w))
                      (execute recorded client begin)
                    >> pure client)
                  n.0
                  n.1 in
              Follows
                (started (postgres_port recorded) body (o, record { in_flight = true; world = u }))
        start (ok client, v) = begun-Follows client v (pool.query client begin v)
        start (err e, v) = no_client e
