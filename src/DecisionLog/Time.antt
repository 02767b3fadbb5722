-- ===== src/DecisionLog/Time.antt =====
-- src/application/decision-log-entry.mjs and clock.mjs: the two tests of an instant.
use metaframer_kernel.Base.{
  ◌≡◌, refl, ◌↔◌, Bool, true, false, ◌||◌, not, if◌then◌else◌, ok, err, range_error, type_error,
  length, ◌==◌,
}
use metaframer_kernel.Text.{Text}
use metaframer_kernel.Text.Forms.{matches_shape}
use metaframer_kernel.Js.{Value, string}
use metaframer_kernel.Clock.{reading_shape, reading_length, names_a_real_instant}
use metaframer_kernel.Clock.Spelling.{matches_shape-length}
use metaframer_kernel.Clock.Port.{check_reading}
use metaframer_kernel.DecisionLog.{timestamp_value}

both_tests :
    (t s : Text) (long shape real : Bool)
    → (shape ≡ true → long ≡ true)
    → ((if shape then (if real then ok t else err range_error) else err type_error) ≡ ok s)
      ↔ ((if (if not long || not shape then false else real) then ok t else err type_error) ≡ ok s)
both_tests t s long true true h = rw (h refl) (λ e. e, λ e. e)
both_tests t s long true false h = rw (h refl) (λ e. cc, λ e. cc)
both_tests t s true false real h = (λ e. cc, λ e. cc)
both_tests t s false false real h = (λ e. cc, λ e. cc)

-- The log accepts as a timestamp exactly the readings that the Clock hands on, each unchanged: a
-- reading of the Clock never fails the entry.
pub timestamp_value_iff :
    (v : Value) (s : Text) → (timestamp_value v ≡ ok s) ↔ (check_reading v ≡ ok s)
unfolding timestamp_value check_reading names_a_real_instant
timestamp_value_iff (string t) s =
    both_tests t s (length t == reading_length) (matches_shape reading_shape t) _ λ shape.
      let long : length t ≡ reading_length = matches_shape-length reading_shape t shape in
      rw (long) refl
timestamp_value_iff v s = (λ e. cc, λ e. cc)
