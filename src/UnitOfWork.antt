-- ===== src/UnitOfWork.antt =====
-- src/application/unit-of-work.mjs: one transaction at a time over a port of three functions.
pub mod Protocol
pub mod Interleaving
use metaframer_kernel.Base.{
  Bool, true, false, Option, none, some, List, [], ◌∷◌, ℕ, not, require, ◌>>=◌, ◌>>◌, Outcome, ok,
  err, Fault, type_error,
}
use metaframer_kernel.Base.Effects.{Eff}
use metaframer_kernel.Text.{Text, codes}
use metaframer_kernel.Js.{Value, function, ref, Heap, Key, Property, read}
use metaframer_kernel.Js.Shape.{is_array, has_exact_keys}

-- The private flag of one UnitOfWork, and the world in which its port and the bodies act. A body
-- may itself call `run` on the same unit, so it sees the flag.
pub record UnitState (W : Type 0) : Type 0 where
  pub in_flight : Bool
  pub world : W

-- `portOf`: three keys and no other; any object but an array will do.
abbrev pub port_keys : List Text
port_keys = codes "begin" ∷ codes "commit" ∷ codes "rollback" ∷ []

unfoldable pub port_of : Heap → Value → Outcome (List (Key × Property))
port_of h (ref r) = do
  require (not (is_array (h r))) type_error
  require (has_exact_keys port_keys (h r).props) type_error
  ok (h r).props
port_of h _ = err type_error

unfoldable pub declared_function : Value → Outcome ℕ
declared_function (function f) = ok f
declared_function _ = err type_error

-- `new UnitOfWork`: the three functions, in their order.
unfoldable pub unit_of_work : Heap → Value → Outcome (ℕ × ℕ × ℕ)
unfolding port_of declared_function
unit_of_work h v = do
  ps ← port_of h v
  begin ← declared_function (read (codes "begin") ps)
  commit ← declared_function (read (codes "commit") ps)
  rollback ← declared_function (read (codes "rollback") ps)
  ok (begin, commit, rollback)

pub record Port (W Scope : Type 0) : Type 0 where
  pub begin : Eff (UnitState W) Scope
  pub commit : Scope → Eff (UnitState W) (Unit {0})
  pub rollback : Scope → Eff (UnitState W) (Unit {0})

module _ {W Scope A : Type 0} (port : Port W Scope) where
  -- `finally { this.#inFlight = false; }`
  abbrev pub release : Outcome A × UnitState W → Outcome A × UnitState W
  release r = (r.0, record r.1 { in_flight = false })

  -- After the rollback the body's failure is thrown, whatever the rollback answered.
  abbrev pub after_rollback : Fault → Outcome (Unit {0}) × UnitState W → Outcome A × UnitState W
  after_rollback failure r = (err failure, r.1)

  abbrev pub after_commit : A → Outcome (Unit {0}) × UnitState W → Outcome A × UnitState W
  after_commit value (ok _, u) = (ok value, u)
  after_commit value (err e, u) = (err e, u)

  -- The body has settled: commit on a value, roll back on a throw.
  unfoldable pub settle : Scope → Outcome A × UnitState W → Outcome A × UnitState W
  settle scope (ok value, u) = after_commit value (port.commit scope u)
  settle scope (err failure, u) = after_rollback failure (port.rollback scope u)

  unfoldable pub started :
      (Scope → Eff (UnitState W) A) → Outcome Scope × UnitState W → Outcome A × UnitState W
  unfolding settle
  started body (ok scope, u) = settle scope (body scope u)
  started body (err e, u) = (err e, u)

  -- `run`; `none` is an argument that is no function.
  unfoldable pub run : Option (Scope → Eff (UnitState W) A) → Eff (UnitState W) A
  unfolding started
  run none u = (err type_error, u)
  run (some body) u = elim u.in_flight [
    | true ↦ (err type_error, u)
    | false ↦ release (started body (port.begin (record u { in_flight = true })))
  ]
