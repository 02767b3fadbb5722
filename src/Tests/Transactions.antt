-- ===== src/Tests/Transactions.antt =====
-- One unit of work over a counter, and a schedule of two callers.
use metaframer_kernel.Base.{◌≡◌, refl, Bool, true, false, some, [], ◌∷◌, ◌+◌, ℕ, ok, err, foreign}
use metaframer_kernel.Base.Effects.{Eff}
use metaframer_kernel.UnitOfWork.{UnitState, Port, run}
use metaframer_kernel.UnitOfWork.Protocol.{Protocol, recorded, recorded_body, idle, run-Protocol}
use metaframer_kernel.UnitOfWork.Interleaving.{
  beginning, Machine, Step, admitted, turned_away, Reach, here, next, idle_machine, Exclusive,
  Reach-Exclusive,
}

-- The world counts the calls; the scope is its count at `begin`.
abbrev open_scope : Eff ℕ ℕ
open_scope w = (ok w, w + 1)

abbrev close_scope : ℕ → Eff ℕ (Unit {0})
close_scope s w = (ok tt, w + 1)

abbrev failing_body : ℕ → Eff ℕ Bool
failing_body s w = (err (foreign 3), w + 10)

run-Protocol_example :
    let (o, u) =
      run
        (recorded open_scope close_scope close_scope failing_body)
        (some (recorded_body open_scope close_scope close_scope failing_body))
        (idle 0) in
    Protocol o u.world.1 × (u.in_flight ≡ false)
run-Protocol_example = run-Protocol open_scope close_scope close_scope failing_body 0

abbrev plain_port : Port ℕ ℕ
plain_port = record {
  begin = λ u. (ok u.world, u);
  commit = λ s u. (ok tt, record u { world = u.world + 1 });
  rollback = λ s u. (ok tt, u);
}

abbrev resting : UnitState ℕ
resting = record { in_flight = false; world = 4 }

abbrev nested_body : ℕ → Eff (UnitState ℕ) Bool
nested_body s u = (ok u.in_flight, u)

run_commits :
    run plain_port (some nested_body) resting ≡ (ok true, record { in_flight = false; world = 5 })
unfolding run
run_commits = refl

abbrev one_admitted : Machine
one_admitted = record { in_flight = true; active = beginning ∷ []; refused = 0 }

turned : Step one_admitted (record one_admitted { refused = 1 })
turned = turned_away refl

two_callers : Reach idle_machine (record one_admitted { refused = 1 })
two_callers = next (next here (admitted refl)) turned

Reach-Exclusive_example : Exclusive (record one_admitted { refused = 1 })
Reach-Exclusive_example = Reach-Exclusive two_callers
