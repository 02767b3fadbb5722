-- ===== src/Actions/Errors.antt =====
-- src/application/action-primitives.mjs: KernelError with its chain of causes, and Result.
pub mod Bounds
use metaframer_kernel.Base.{
  ℕ, suc, ◌+◌, ◌≤◌, ◌≡◌, refl, Bool, true, false, ◌&&◌, ◌||◌, not, Option, none, some, [], ◌∷◌, leb,
  ltb, ◌==◌, length, Outcome, ok, err, type_error, range_error, ◌>>=◌, ◌>>◌, require, if◌then◌else◌,
  arith,
}
use metaframer_kernel.Text.{Text, codes}
use metaframer_kernel.Text.Forms.{is_upper, is_digit}
use metaframer_kernel.Js.{Value, null, string, Heap}
use metaframer_kernel.Canonical.{
  Json, bool, str, obj, end, member, canonical_object, canonical_anything,
}
use metaframer_kernel.Policy.Types.{Foreign, genuine}
use metaframer_kernel.DecisionLog.{instance_of}

-- `/^[A-Z][A-Z0-9]*(_[A-Z0-9]+)*$/`: the flag says that an underscore may follow, or the end.
unfoldable pub error_code_from : Bool → Text → Bool
unfolding is_upper is_digit
error_code_from started [] = started
error_code_from started (c ∷ s) =
    ((is_upper c || is_digit c) || (started && (c == b'_')))
    && error_code_from (is_upper c || is_digit c) s

unfoldable pub error_code_form : Text → Bool
unfolding error_code_from is_upper
error_code_form [] = false
error_code_form (c ∷ s) = is_upper c && error_code_from true s

abbrev pub error_code_max : ℕ
error_code_max = 64

abbrev pub max_cause_depth : ℕ
max_cause_depth = 8

unfoldable pub error_code : Value → Outcome Text
unfolding error_code_form
error_code (string s) = do
  require (leb (length s) error_code_max) range_error
  require (error_code_form s) type_error
  ok s
error_code _ = err type_error

-- An instance with its private fields; `depth` is stored.
mutual
  pub data KernelError : Type 0 where
    kernel_error : (code : Text) (details : Option Json) (cause : Cause) (depth : ℕ) → KernelError

  pub data Cause : Type 0 where
    no_cause : Cause
    caused_by : KernelError → Cause

abbrev pub depth_of : KernelError → ℕ
depth_of (kernel_error code details cause depth) = depth

-- The options after their exact keys: the cause is null or some object.
pub record ErrorOptions : Type 0 where
  pub code : Value
  pub details : Value
  pub cause : Option (Foreign KernelError)

unfoldable pub details_value : Heap → Value → Outcome (Option Json)
unfolding canonical_object
details_value h null = ok none
details_value h v = canonical_object h v >>= λ j. ok (some j)

-- The constructor; an object that only wears the prototype fails at its missing private field.
unfoldable pub cause_value : Option (Foreign KernelError) → Outcome (Cause × ℕ)
unfolding instance_of
cause_value none = ok (no_cause, 1)
cause_value (some v) = do
  cause ← instance_of v
  require (not (leb max_cause_depth (depth_of cause))) range_error
  ok (caused_by cause, depth_of cause + 1)

unfoldable pub new_kernel_error : Heap → ErrorOptions → Outcome KernelError
unfolding error_code details_value cause_value
new_kernel_error h options = do
  code ← error_code options.code
  details ← details_value h options.details
  cause ← cause_value options.cause
  ok (kernel_error code details cause.0 cause.1)

unfoldable pub details_json : Option Json → Json
details_json none = Json.null
details_json (some j) = j

-- `KernelError.toJSON`
unfoldable mutual
  unfolding details_json

  pub error_json : KernelError → Json
  error_json (kernel_error code details cause depth) = obj (
      member (codes "code") (str code) (
        member (codes "details") (details_json details)
          (member (codes "cause") (cause_json cause) end)))

  pub cause_json : Cause → Json
  cause_json no_cause = Json.null
  cause_json (caused_by e) = error_json e

-- `Result`: the branch that is there.
pub data Result : Type 0 where
  is_ok : Json → Result
  is_failure : KernelError → Result

-- `Result.ok(value)` and `Result.failure(error)`
unfoldable pub result_ok : Heap → Value → Outcome Result
unfolding canonical_anything
result_ok h v = canonical_anything h v >>= λ j. ok (is_ok j)

unfoldable pub result_failure : Foreign KernelError → Outcome Result
unfolding instance_of
result_failure v = instance_of v >>= λ e. ok (is_failure e)

unfoldable pub result_value : Result → Outcome Json
result_value (is_ok j) = ok j
result_value (is_failure e) = err type_error

unfoldable pub result_error : Result → Outcome KernelError
result_error (is_ok j) = err type_error
result_error (is_failure e) = ok e

-- `Result.toJSON`
unfoldable pub result_json : Result → Json
unfolding error_json
result_json (is_ok j) = obj (member (codes "ok") (bool true) (member (codes "value") j end))
result_json (is_failure e) =
    obj (member (codes "ok") (bool false) (member (codes "error") (error_json e) end))
