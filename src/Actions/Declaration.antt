-- ===== src/Actions/Declaration.antt =====
-- src/application/use-case.mjs and policy.mjs: what the constructors of UseCase and Policy accept.
use metaframer_kernel.Base.{
  ℕ, not, List, [], ◌∷◌, ◌==◌, length, Outcome, ok, err, type_error, ◌>>=◌, ◌>>◌, require,
}
use metaframer_kernel.Text.{Text, codes}
use metaframer_kernel.Js.{Value, string, ref, Heap, is_enumerable_data, own_property, read}
use metaframer_kernel.Js.Shape.{is_object_prototype, has_exact_keys}
use metaframer_kernel.UnitOfWork.{declared_function}
use metaframer_kernel.Actions.{action_version}
use metaframer_kernel.Actions.Contract.{ActionKind, kind_value}
use metaframer_kernel.Actions.Envelopes.{exact_options_of}

-- `declaredName(value)`
unfoldable pub declared_name : Value → Outcome Text
declared_name (string s) = require (not (length s == 0)) type_error >> ok s
declared_name _ = err type_error

abbrev pub declaration_keys : List Text
declaration_keys = codes "kind" ∷ codes "name" ∷ codes "version" ∷ codes "handler" ∷ []

-- The declaration; the handler is told by its number.
pub record UseCase : Type 0 where
  pub kind : ActionKind
  pub name : Text
  pub version : ℕ
  pub handler : ℕ

-- `new UseCase(declaration)`
unfoldable pub new_use_case : Heap → Value → Outcome UseCase
unfolding exact_options_of kind_value declared_name action_version declared_function read
new_use_case h v = do
  ps ← exact_options_of declaration_keys h v
  kind ← kind_value (read (codes "kind") ps)
  name ← declared_name (read (codes "name") ps)
  version ← action_version (read (codes "version") ps)
  handler ← declared_function (read (codes "handler") ps)
  ok (record { kind = kind; name = name; version = version; handler = handler })

-- `new Policy(options)`: an object that inherits from `Object.prototype` and has one key.
unfoldable pub new_policy : Heap → Value → Outcome ℕ
unfolding has_exact_keys own_property read declared_function
new_policy h (ref r) = do
  require (is_object_prototype (h r).proto) type_error
  require (has_exact_keys (codes "consult" ∷ []) (h r).props) type_error
  require (is_enumerable_data (own_property (codes "consult") (h r).props)) type_error
  declared_function (read (codes "consult") (h r).props)
new_policy h _ = err type_error
