-- ===== src/Postgres/Transaction.antt =====
-- What an operation over a pool of src/adapters does to it: which statements run, in which order,
-- on every path, and what becomes of the client.
use mathlib.Core.Path.{subst}
use metaframer_kernel.Base.{
  append_assoc, append_nil, ◌≡◌, refl, ap, sym, ◌∙◌, ℕ, List, [], ◌∷◌, ◌++◌, map, Outcome, ok, err,
  Fault,
}
use metaframer_kernel.Base.Effects.{
  Eff, ◌>>=◌, ◌>>◌, Post, Post-mono, map_answer, mapped, lift-Post, pure, lift, proceed, finally,
  handled, catching, ignored, throw,
}
use metaframer_kernel.DecisionLog.Row.{Fields}
use metaframer_kernel.Postgres.{Statement, Pool, rollback, execute, transaction}

pub data Event : Type 0 where
  connected connect_failed released : Event
  done failed : Statement → Event

abbrev pub Recorded : Type 0 → Type 0
Recorded W = W × List Event

-- A call, written down by how it ended.
abbrev pub note :
    {W A : Type 0} → Event → Event → List Event → Outcome A × W → Outcome A × Recorded W
note good bad log (ok a, w) = (ok a, (w, log ++ good ∷ []))
note good bad log (err e, w) = (err e, (w, log ++ bad ∷ []))

abbrev pub recording : {W A : Type 0} → Event → Event → Eff W A → Eff (Recorded W) A
recording good bad m u = note good bad u.1 (m u.0)

abbrev pub recording_pool : {W : Type 0} → Pool W → Pool (Recorded W)
recording_pool pool = record {
  connect = recording connected connect_failed pool.connect;
  query = λ client s. recording (done s) (failed s) (pool.query client s);
  release = λ client u. (pool.release client u.0, u.1 ++ released ∷ []);
}

-- The statements of a body that threw: some ran, and then one failed, or the body's own check did
-- before the next.
pub data Broke : List Statement → List Event → Type 0 where
  own_check : (s : Statement) (ss : List Statement) → Broke (s ∷ ss) []
  statement : (s : Statement) (ss : List Statement) → Broke (s ∷ ss) (failed s ∷ [])
  later :
      (s : Statement) {ss : List Statement} {es : List Event}
      → Broke ss es
      → Broke (s ∷ ss) (done s ∷ es)

Broke-after :
    (ss : List Statement) {ts : List Statement} {es : List Event}
    → Broke ts es
    → Broke (ss ++ ts) (map done ss ++ es)
Broke-after [] b = b
Broke-after (s ∷ ss) b = later s (Broke-after ss b)

map-append : (ss ts : List Statement) → map done (ss ++ ts) ≡ map done ss ++ map done ts
map-append [] ts = refl
map-append (s ∷ ss) ts = ap (λ l. done s ∷ l) (map-append ss ts)

-- The log of a body that went on where another had ended.
further :
    (log now end : List Event) (ss : List Statement) (es : List Event)
    → now ≡ log ++ map done ss
    → end ≡ now ++ es
    → end ≡ log ++ (map done ss ++ es)
further log now end ss es p q = q ∙ ap (λ l. l ++ es) p ∙ append_assoc log (map done ss) es

abbrev pub AnyAnswer : {A : Type 0} → A → Type 0
AnyAnswer a = Unit

module _ {W : Type 0} where
  abbrev Answered :
      {A : Type 0} → (A → Type 0) → List Statement → List Event → A → Recorded W → Type 0
  Answered R ss log a v = R a × (v.1 ≡ log ++ map done ss)

  abbrev Threw : List Statement → List Event → Recorded W → Type 0
  Threw ss log v = (es : List Event) × Broke ss es × (v.1 ≡ log ++ es)

  -- A body that runs the statements `ss` and no other, from any log on, before the statements
  -- `rest` of its caller: all of `ss` if it answers, and its answer satisfies `R`.
  pub record Runs {A : Type 0} (R : A → Type 0) (rest ss : List Statement) (m : Eff (Recorded W) A)
      : Type 0 where
    pub from : (u : Recorded W) → Post (Answered R ss u.1) (Threw (ss ++ rest) u.1) (m u)

  Runs-then :
      {B : Type 0} (S : B → Type 0) (rest ss ts : List Statement) (log : List Event)
      (m : Eff (Recorded W) B) (v : Recorded W)
      → v.1 ≡ log ++ map done ss
      → Runs S rest ts m
      → Post (Answered S (ss ++ ts) log) (Threw ((ss ++ ts) ++ rest) log) (m v)
  Runs-then S rest ss ts log m v p h =
      Post-mono (Answered S ts v.1) (Answered S (ss ++ ts) log) (Threw (ts ++ rest) v.1)
        (Threw ((ss ++ ts) ++ rest) log) (m v) (h.from v)
        (λ b w k. (
          k.0,
          further log v.1 w.1 ss (map done ts) p k.1 ∙ ap (λ l. log ++ l) (sym (map-append ss ts)),
        ))
        (λ w k.
          let (es, b, q) = k in
          (
            map done ss ++ es,
            rw (append_assoc ss ts rest) (Broke-after ss b),
            further log v.1 w.1 ss es p q,
          ))

  pub Runs-bind :
      {A B : Type 0} (R : A → Type 0) (S : B → Type 0) {rest ss ts : List Statement}
      (m : Eff (Recorded W) A) (f : A → Eff (Recorded W) B)
      → Runs R (ts ++ rest) ss m
      → ((a : A) → R a → Runs S rest ts (f a))
      → Runs S rest (ss ++ ts) (m >>= f)
  Runs-bind {A} {B} R S {rest} {ss} {ts} m f h k = record { from = λ u. go u.1 (m u) (h.from u) }
    where
      go :
          (log : List Event) (r : Outcome A × Recorded W)
          → Post (Answered R ss log) (Threw (ss ++ (ts ++ rest)) log) r
          → Post (Answered S (ss ++ ts) log) (Threw ((ss ++ ts) ++ rest) log) (proceed f r.0 r.1)
      go log (ok a, v) h = Runs-then S rest ss ts log (f a) v h.1 (k a h.0)
      go log (err e, v) h = rw (append_assoc ss ts rest) h

  -- The body's own check, before the next statement.
  pub Runs-lift :
      {A B : Type 0} (S : B → Type 0) {rest ss : List Statement} (s : Statement)
      (next : List Statement) (o : Outcome A) (f : A → Eff (Recorded W) B)
      → ss ++ rest ≡ s ∷ next
      → ((a : A) → o ≡ ok a → Runs S rest ss (f a))
      → Runs S rest ss (lift o >>= f)
  Runs-lift S {rest} {ss} s next o f p k = record {
    from = λ u.
        lift-Post (Answered S ss u.1) (Threw (ss ++ rest) u.1) o f u
          ([], rw p (own_check s next), sym (append_nil u.1)) λ a e. (k a e).from u;
  }

  pub Runs-pure :
      {A : Type 0} (R : A → Type 0) {rest : List Statement} (a : A) → R a → Runs R rest [] (pure a)
  Runs-pure R a h = record { from = λ u. (h, sym (append_nil u.1)) }

  -- The body's own check, as its last part.
  pub Runs-last :
      {A : Type 0} (R : A → Type 0) (s : Statement) (next : List Statement) (o : Outcome A)
      → ((a : A) → o ≡ ok a → R a)
      → Runs R (s ∷ next) [] (lift o)
  Runs-last {A} R s next o k = record { from = λ u. go u o k }
    where
      go :
          (u : Recorded W) (o : Outcome A)
          → ((a : A) → o ≡ ok a → R a)
          → Post (Answered R [] u.1) (Threw (s ∷ next) u.1) (lift o u)
      go u (ok a) k = (k a refl, sym (append_nil u.1))
      go u (err e) k = ([], own_check s next, sym (append_nil u.1))

  pub Runs-mono :
      {A : Type 0} (R S : A → Type 0) {rest ss : List Statement} (m : Eff (Recorded W) A)
      → ((a : A) → R a → S a)
      → Runs R rest ss m
      → Runs S rest ss m
  Runs-mono R S {rest} {ss} m k h = record {
    from = λ u.
        Post-mono (Answered R ss u.1) (Answered S ss u.1) (Threw (ss ++ rest) u.1)
          (Threw (ss ++ rest) u.1) (m u) (h.from u) (λ a v p. (k a p.0, p.1)) (λ v p. p);
  }

  -- What a body answers may be wrapped, and less may be said of it.
  pub Runs-mapped :
      {A B : Type 0} (R : A → Type 0) (S : B → Type 0) {rest ss : List Statement} (f : A → B)
      (m : Eff (Recorded W) A)
      → ((a : A) → R a → S (f a))
      → Runs R rest ss m
      → Runs S rest ss (mapped f m)
  Runs-mapped {A} {B} R S {rest} {ss} f m k h = record { from = λ u. go u.1 (m u) (h.from u) }
    where
      go :
          (log : List Event) (r : Outcome A × Recorded W)
          → Post (Answered R ss log) (Threw (ss ++ rest) log) r
          → Post (Answered S ss log) (Threw (ss ++ rest) log) (map_answer f r)
      go log (ok a, v) h = (k a h.0, h.1)
      go log (err e, v) h = h

  -- A handler that throws another error in place of one.
  pub Runs-rethrow :
      {A : Type 0} (R : A → Type 0) {rest ss : List Statement} (f : Fault → Fault)
      (m : Eff (Recorded W) A)
      → Runs R rest ss m
      → Runs R rest ss (catching (λ e. throw (f e)) m)
  Runs-rethrow {A} R {rest} {ss} f m h = record { from = λ u. go u.1 (m u) (h.from u) }
    where
      go :
          (log : List Event) (r : Outcome A × Recorded W)
          → Post (Answered R ss log) (Threw (ss ++ rest) log) r
          → Post (Answered R ss log) (Threw (ss ++ rest) log) (handled (λ e. throw (f e)) r)
      go log (ok a, v) h = h
      go log (err e, v) h = h

  module _ (pool : Pool W) (client : ℕ) where
    -- The pool answered these rows to the statement.
    abbrev pub AnsweredTo : Statement → List Fields → Type 0
    AnsweredTo s rows = (w : W) × (v : W) × (pool.query client s w ≡ (ok rows, v))

    -- The rows are what the pool answered to the statement, in the world of that moment.
    pub Runs-answered :
        {rest : List Statement} (s : Statement)
        → Runs (AnsweredTo s) rest (s ∷ []) ((recording_pool pool).query client s)
    Runs-answered {rest} s = record { from = λ u. go u.1 u.0 (pool.query client s u.0) refl }
      where
        go :
            (log : List Event) (w : W) (r : Outcome (List Fields) × W)
            → pool.query client s w ≡ r
            → Post
                (Answered (AnsweredTo s) (s ∷ []) log)
                (Threw (s ∷ rest) log)
                (note (done s) (failed s) log r)
        go log w (ok a, v) e = ((w, v, e), refl)
        go log w (err f, v) e = (failed s ∷ [], statement s rest, refl)

    pub Runs-query :
        {rest : List Statement} (s : Statement)
        → Runs AnyAnswer rest (s ∷ []) ((recording_pool pool).query client s)
    Runs-query s = Runs-mono (AnsweredTo s) AnyAnswer _ (λ _ _. tt) (Runs-answered s)

    pub Runs-execute :
        {rest : List Statement} (s : Statement)
        → Runs AnyAnswer rest (s ∷ []) (execute (recording_pool pool) client s)
    Runs-execute {rest} s =
        Runs-bind AnyAnswer AnyAnswer {rest = rest} {ss = s ∷ []} {ts = []} _ (λ _. pure tt)
          (Runs-query s) λ _ _. Runs-pure AnyAnswer tt tt

-- The events of one transaction, by how it ended: an answer only when every statement ran, the
-- commit last; on an error, the statements before it and one attempt to roll back; and the client,
-- once there is one, given back exactly once, at the end.
pub data Transacted {A : Type 0} (R : A → Type 0) (rethrown : Fault → Fault) (ss : List Statement)
    : Outcome A → List Event → Type 0 where
  no_client : (e : Fault) → Transacted R rethrown ss (err e) (connect_failed ∷ [])
  settled :
      (a : A) → R a → Transacted R rethrown ss (ok a) (connected ∷ map done ss ++ released ∷ [])
  rolled_back :
      (e : Fault) (es : List Event)
      → Broke ss es
      → Transacted R rethrown ss
          (err (rethrown e))
          (connected ∷ es ++ done rollback ∷ released ∷ [])
  abandoned :
      (e : Fault) (es : List Event)
      → Broke ss es
      → Transacted R rethrown ss
          (err (rethrown e))
          (connected ∷ es ++ failed rollback ∷ released ∷ [])

module _ {W A : Type 0} (pool : Pool W) (R : A → Type 0) (rethrown : Fault → Fault)
    (ss : List Statement) where
  -- What the catch and the finally make of a log that the body left.
  undone :
      (client : ℕ) (e : Fault) (es log : List Event) (r : Outcome (List Fields) × W)
      → Broke ss es
      → log ≡ connected ∷ es
      → let (o, u) =
          proceed
            (λ _ w. (ok tt, w))
            (note (done rollback) (failed rollback) log r).0
            (note (done rollback) (failed rollback) log r).1 in
        Transacted R rethrown ss (err (rethrown e)) (u.1 ++ released ∷ [])
  undone client e es log (ok a, w) b q =
      rw (q, append_assoc es (done rollback ∷ []) (released ∷ [])) (rolled_back e es b)
  undone client e es log (err f, w) b q =
      rw (q, append_assoc es (failed rollback ∷ []) (released ∷ [])) (abandoned e es b)

  -- A transaction whose body runs these statements does to its pool what `Transacted` lists.
  pub transaction-Transacted :
      (body : ℕ → Eff (Recorded W) A)
      → ((client : ℕ) → Runs R [] ss (body client))
      → (w : W)
      → let (o, u) = transaction (recording_pool pool) rethrown body (w, []) in
        Transacted R rethrown ss o u.1
  unfolding transaction
  transaction-Transacted body h w = start (pool.connect w)
    where
      ended :
          (client : ℕ) (r : Outcome A × Recorded W)
          → Post
              (λ a v. R a × (v.1 ≡ connected ∷ map done ss))
              (λ v. (es : List Event) × Broke (ss ++ []) es × (v.1 ≡ connected ∷ es))
              r
          → let (o, u) =
              finally
                ((recording_pool pool).release client)
                (λ v.
                  handled
                    (λ e.
                      ignored (execute (recording_pool pool) client rollback) >> throw (rethrown e))
                    r)
                (w, []) in
            Transacted R rethrown ss o u.1
      ended client (ok a, v) (good, q) = rw q (settled a good)
      ended client (err e, v) (es, b, q) =
          undone client e es v.1 (pool.query client rollback v.0)
            (subst (λ ts. Broke ts es) (append_nil ss) b) q

      start :
          (r : Outcome ℕ × W)
          → let (o, u) =
              proceed
                (λ client. finally ((recording_pool pool).release client) (
                  catching
                    (λ e.
                      ignored (execute (recording_pool pool) client rollback) >> throw (rethrown e))
                    (body client)))
                (note connected connect_failed [] r).0
                (note connected connect_failed [] r).1 in
            Transacted R rethrown ss o u.1
      start (ok client, v) =
          ended client (body client (v, connected ∷ [])) ((h client).from (v, connected ∷ []))
      start (err e, v) = no_client e
