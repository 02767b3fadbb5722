-- ===== src/Clock/Port.antt =====
-- src/application/clock.mjs: the port itself, its one collaborator and the reading it hands on.
use metaframer_kernel.Base.{
  ℕ, ◌&&◌, not, length, ◌==◌, Outcome, ok, err, type_error, ◌>>◌, require, if◌then◌else◌,
}
use metaframer_kernel.Base.Effects.{Eff, lift, ◌>>=◌ as ◌then◌}
use metaframer_kernel.Text.{Text, codes}
use metaframer_kernel.Js.{
  Value, string, function, ref, Heap, is_enumerable_data, own_property, read,
}
use metaframer_kernel.Js.Shape.{is_object_prototype, is_array, has_key}
use metaframer_kernel.Clock.{names_a_real_instant}

unfoldable pub function_of : Value → Outcome ℕ
function_of (function f) = ok f
function_of _ = err type_error

-- `collaboratorOf`; the own key `length` of an array is one key too many.
unfoldable pub collaborator_of : Heap → Value → Outcome ℕ
unfolding function_of
collaborator_of h (ref r) = do
  require (is_object_prototype (h r).proto) type_error
  require (not (is_array (h r)) && (length (h r).props == 1) && has_key (h r).props (codes "now"))
      type_error
  require (is_enumerable_data (own_property (codes "now") (h r).props)) type_error
  function_of (read (codes "now") (h r).props)
collaborator_of h _ = err type_error

unfoldable pub check_reading : Value → Outcome Text
check_reading (string s) = if names_a_real_instant s then ok s else err type_error
check_reading _ = err type_error

-- `Clock.now`, over the collaborator that the constructor took out of its options.
unfoldable pub now : {W : Type 0} → Eff W Value → Eff W Text
unfolding check_reading
now read_clock = read_clock then λ reading. lift (check_reading reading)
