-- ===== src/UnitOfWork/Protocol.antt =====
-- What one run does to its port: which of its functions are called, in which order, on every path.
use metaframer_kernel.Base.{
  ◌≡◌, refl, Bool, true, false, some, List, [], ◌∷◌, ◌++◌, Outcome, ok, err, Fault,
}
use metaframer_kernel.Base.Effects.{Eff}
use metaframer_kernel.UnitOfWork.{
  UnitState, Port, run, started, settle, after_commit, after_rollback,
}

-- One call, and whether it answered or threw.
pub data Event : Type 0 where
  begun begin_failed body_done body_failed committed commit_failed rolled_back rollback_failed :
      Event

abbrev pub Recorded : Type 0 → Type 0
Recorded W = W × List Event

-- An operation on the world alone, which writes down how it ended. The flag is passed on.
abbrev pub note :
    {W A : Type 0}
    → Event
    → Event
    → Bool
    → List Event
    → Outcome A × W
    → Outcome A × UnitState (Recorded W)
note good bad f log (ok a, w) = (ok a, record { in_flight = f; world = (w, log ++ good ∷ []) })
note good bad f log (err e, w) = (err e, record { in_flight = f; world = (w, log ++ bad ∷ []) })

abbrev pub recording : {W A : Type 0} → Event → Event → Eff W A → Eff (UnitState (Recorded W)) A
recording good bad m u = note good bad u.in_flight u.world.1 (m u.world.0)

-- A port and a body over the world `W`, recorded.
abbrev pub recording_port :
    {W Scope : Type 0}
    → Eff W Scope
    → (Scope → Eff W (Unit {0}))
    → (Scope → Eff W (Unit {0}))
    → Port (Recorded W) Scope
recording_port begin commit rollback = record {
  begin = recording begun begin_failed begin;
  commit = λ s. recording committed commit_failed (commit s);
  rollback = λ s. recording rolled_back rollback_failed (rollback s);
}

-- The events of one run, by how it ended: a value only after a commit; a throw of the body always
-- after exactly one attempt to roll back, and never with a commit.
pub data Protocol {A : Type 0} : Outcome A → List Event → Type 0 where
  not_begun : (e : Fault) → Protocol (err e) (begin_failed ∷ [])
  settled : (a : A) → Protocol (ok a) (begun ∷ body_done ∷ committed ∷ [])
  unsettled : (e : Fault) → Protocol (err e) (begun ∷ body_done ∷ commit_failed ∷ [])
  undone : (e : Fault) → Protocol (err e) (begun ∷ body_failed ∷ rolled_back ∷ [])
  abandoned : (e : Fault) → Protocol (err e) (begun ∷ body_failed ∷ rollback_failed ∷ [])

abbrev pub idle : {W : Type 0} → W → UnitState (Recorded W)
idle w = record { in_flight = false; world = (w, []) }

abbrev Follows : {W A : Type 0} → Outcome A × UnitState (Recorded W) → Type 0
Follows r = Protocol r.0 r.1.world.1

module _ {W Scope A : Type 0} (begin : Eff W Scope) (commit rollback : Scope → Eff W (Unit {0}))
    (body : Scope → Eff W A) where
  abbrev pub recorded : Port (Recorded W) Scope
  recorded = recording_port begin commit rollback

  abbrev pub recorded_body : Scope → Eff (UnitState (Recorded W)) A
  recorded_body s = recording body_done body_failed (body s)

  commit-Follows :
      (a : A) (r : Outcome (Unit {0}) × W)
      → Follows
          (after_commit recorded a (note committed commit_failed true (begun ∷ body_done ∷ []) r))
  commit-Follows a (ok _, v) = settled a
  commit-Follows a (err e, v) = unsettled e

  rollback-Follows :
      (e : Fault) (r : Outcome (Unit {0}) × W)
      → Follows {A = A} (
          after_rollback recorded e
            (note rolled_back rollback_failed true (begun ∷ body_failed ∷ []) r))
  rollback-Follows e (ok _, v) = undone e
  rollback-Follows e (err f, v) = abandoned e

  settle-Follows :
      (s : Scope) (r : Outcome A × W)
      → Follows (settle recorded s (note body_done body_failed true (begun ∷ []) r))
  unfolding settle
  settle-Follows s (ok a, v) = commit-Follows a (commit s v)
  settle-Follows s (err e, v) = rollback-Follows e (rollback s v)

  started-Follows :
      (r : Outcome Scope × W)
      → Follows (started recorded recorded_body (note begun begin_failed true [] r))
  unfolding started
  started-Follows (ok s, v) = settle-Follows s (body s v)
  started-Follows (err e, v) = not_begun e

  -- Every run that starts on an idle unit calls its port by the protocol, and leaves the unit idle.
  pub run-Protocol :
      (w : W)
      → let (o, u) = run recorded (some recorded_body) (idle w) in
        Protocol o u.world.1 × (u.in_flight ≡ false)
  unfolding run
  run-Protocol w = (started-Follows (begin w), refl)
