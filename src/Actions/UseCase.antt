-- ===== src/Actions/UseCase.antt =====
-- src/application/use-case.mjs: the gate in front of a handler; and src/application/policy.mjs, a
-- port with a gate of the same kind.
pub mod Gate
use metaframer_kernel.Base.{
  ℕ, Bool, true, false, Option, none, some, ◌==◌, pos, type_error, require,
}
use metaframer_kernel.Base.Effects.{Eff, ◌>>=◌, ◌>>◌, lift}
use metaframer_kernel.Text.{Text, text_eq}
use metaframer_kernel.Js.{Value, string, number, integer, neg_zero}
use metaframer_kernel.Policy.Types.{Foreign}
use metaframer_kernel.DecisionLog.{instance_of}
use metaframer_kernel.Actions.Errors.{Result}
use metaframer_kernel.Actions.Contract.{ActionKind, command, query}
use metaframer_kernel.Actions.Declaration.{UseCase}

-- An action as the gates see it: the class of its prototype, whether it carries the private state
-- that only the constructor of that class installs, and what a reading of its name and of its
-- version does. A property of its own shadows the getters of the class, and may be an accessor: a
-- reading answers any value, throws, or changes the world.
pub record GivenAction (W : Type 0) : Type 0 where
  pub class : Option ActionKind
  pub has_brand : Bool
  pub name : Eff W Value
  pub version : Eff W Value

abbrev pub same_kind : ActionKind → ActionKind → Bool
same_kind command command = true
same_kind query query = true
same_kind _ _ = false

-- `isExactly(action, actionClassFor(this.#kind))`
unfoldable pub is_class : ActionKind → Option ActionKind → Bool
is_class k none = false
is_class k (some l) = same_kind k l

-- `value === text`, and `value === integer`, where `-0` is 0.
unfoldable pub equals_text : Text → Value → Bool
unfolding text_eq
equals_text t (string s) = text_eq s t
equals_text t _ = false

unfoldable pub equals_integer : ℕ → Value → Bool
equals_integer n (number (integer (pos m))) = m == n
equals_integer n (number neg_zero) = n == 0
equals_integer n _ = false

module _ {W : Type 0} where
  -- `action.name !== this.#name || action.version !== this.#version`, which throws
  unfoldable pub check_declared : UseCase → GivenAction W → Eff W (Unit {0})
  unfolding equals_text equals_integer
  check_declared u action = do
    action_name ← action.name
    lift (require (equals_text u.name action_name) type_error)
    action_version ← action.version
    lift (require (equals_integer u.version action_version) type_error)

  -- `execute(action)`
  unfoldable pub execute :
      (GivenAction W → Eff W (Foreign Result)) → UseCase → GivenAction W → Eff W Result
  unfolding is_class check_declared instance_of
  execute handler u action = do
    lift (require (is_class u.kind action.class) type_error)
    check_declared u action
    result ← handler action
    lift (instance_of result)

  -- `isGenuineAction(value)`: either class, with its private state.
  unfoldable pub is_genuine_action : GivenAction W → Bool
  is_genuine_action action = elim action.class [ none ↦ false | some _ ↦ action.has_brand ]

  -- `Policy.consult(action)`
  unfoldable pub consult_policy :
      (GivenAction W → Eff W (Foreign Result)) → GivenAction W → Eff W Result
  unfolding is_genuine_action instance_of
  consult_policy consult action = do
    lift (require (is_genuine_action action) type_error)
    answer ← consult action
    lift (instance_of answer)
