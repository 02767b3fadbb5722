-- ===== src/Commit/Envelope.antt =====
-- src/application/write-envelope.mjs: one write through a unit of work.
use metaframer_kernel.Base.{
  ℕ, Bool, false, some, List, [], ◌∷◌, Outcome, ok, err, type_error, ◌>>=◌, ◌>>◌, require, ◌==◌,
}
use metaframer_kernel.Base.Effects.{Eff, lift, proceed}
use metaframer_kernel.Text.{Text, codes}
use metaframer_kernel.Js.{Value, ref, Heap, Proto, other_prototype, read}
use metaframer_kernel.Policy.Types.{Foreign}
use metaframer_kernel.UnitOfWork.{UnitState, Port, run, declared_function}
use metaframer_kernel.Commit.{exact_input}

abbrev pub envelope_keys : List Text
envelope_keys = codes "unitOfWork" ∷ codes "write" ∷ []

-- `exactUnitOfWork(value)`: the prototype is that of the class, `unit_class`.
abbrev pub is_prototype : ℕ → Proto → Bool
is_prototype unit_class (other_prototype n) = n == unit_class
is_prototype unit_class _ = false

unfoldable pub exact_unit_of_work : ℕ → Heap → Value → Outcome ℕ
exact_unit_of_work unit_class h (ref r) =
    require (is_prototype unit_class (h r).proto) type_error >> ok r
exact_unit_of_work unit_class h _ = err type_error

-- `new WriteEnvelope(options)`: the unit of work and the write.
unfoldable pub write_envelope : ℕ → Heap → Value → Outcome (ℕ × ℕ)
unfolding exact_input exact_unit_of_work declared_function read
write_envelope unit_class h v = do
  ps ← exact_input envelope_keys h v
  unit ← exact_unit_of_work unit_class h (read (codes "unitOfWork") ps)
  write ← declared_function (read (codes "write") ps)
  ok (unit, write)

-- The test of what the write answered: the prototype of the class, and no brand.
unfoldable pub exact_receipt : {A : Type 0} → Foreign A → Outcome (Foreign A)
exact_receipt v = require v.is_exact type_error >> ok v

module _ {W Scope C A : Type 0} (port : Port W Scope)
    (write : Scope → C → Eff (UnitState W) (Foreign A)) where
  -- The body of the run.
  unfoldable pub write_body : C → Scope → Eff (UnitState W) (Foreign A)
  unfolding exact_receipt
  write_body change_set scope u =
      let (o, v) = write scope change_set u in proceed (λ r. lift (exact_receipt r)) o v

  -- `commit(preparedChangeSet)`
  unfoldable pub commit : C → Eff (UnitState W) (Foreign A)
  unfolding run write_body
  commit change_set = run port (some (write_body change_set))
