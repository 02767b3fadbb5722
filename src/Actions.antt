-- ===== src/Actions.antt =====
-- src/application/action-primitives.mjs: the name and the version of a Command or a Query, and the
-- guard auditor that src/application/create-customer-pipeline.mjs may be handed.
pub mod Errors
pub mod Contract
pub mod Declaration
pub mod UseCase
pub mod Envelopes
use metaframer_kernel.Base.{
  ℕ, suc, Option, none, some, List, leb, length, pos, Outcome, ok, err, type_error, range_error,
  ◌>>◌, require, if◌then◌else◌,
}
use metaframer_kernel.Text.{Text, codes}
use metaframer_kernel.Text.Forms.{action_name_form}
use metaframer_kernel.Js.{
  Value, string, number, function, integer, Num, Key, Property, is_safe_integer, own_property,
  is_enumerable_data, read,
}

abbrev pub action_name_max : ℕ
action_name_max = 128

unfoldable pub action_name : Value → Outcome Text
action_name (string s) = do
  require (leb (length s) action_name_max) range_error
  require (action_name_form s) type_error
  ok s
action_name _ = err type_error

-- A safe integer of at least 1.
unfoldable pub positive_version : Num → Outcome ℕ
positive_version (integer (pos (suc n))) =
    if is_safe_integer (integer (pos (suc n))) then ok (suc n) else err type_error
positive_version _ = err type_error

unfoldable pub action_version : Value → Outcome ℕ
unfolding positive_version
action_version (number n) = positive_version n
action_version _ = err type_error

unfoldable pub auditor_function : Value → Outcome (Option ℕ)
auditor_function (function f) = ok (some f)
auditor_function _ = err type_error

-- `optionalGuardAuditorOf`, over the own properties of the options.
unfoldable pub optional_guard_auditor_of : List (Key × Property) → Outcome (Option ℕ)
unfolding auditor_function
optional_guard_auditor_of ps = elim (own_property (codes "auditIdentityGuard") ps) [
  | none ↦ ok none
  | some p ↦
      if is_enumerable_data (some p)
      then auditor_function (read (codes "auditIdentityGuard") ps)
      else err type_error
]
