-- ===== src/Actions/Contract.antt =====
-- src/application/action-contract.mjs: the description of an action, with its lists of identifiers.
pub mod Identifiers
use metaframer_kernel.Base.{
  ℕ, Bool, true, false, ◌&&◌, ◌||◌, not, Option, none, some, List, [], ◌∷◌, leb, ◌==◌, length, all,
  any, Outcome, ok, err, type_error, range_error, ◌>>=◌, ◌>>◌, require, if◌then◌else◌,
}
use metaframer_kernel.Text.{Text, codes, text_eq}
use metaframer_kernel.Text.Forms.{is_upper, is_lower, is_digit}
use metaframer_kernel.Js.{Value, string, ref, Heap, Key, Property, name, sym, is_data, read}
use metaframer_kernel.Js.Shape.{is_ordinary_object, has_exact_keys, dense_elements}
use metaframer_kernel.Actions.{action_name, action_version}

-- The loop over `Reflect.ownKeys(options)`.
abbrev is_plain_option : Key × Property → Bool
is_plain_option (name k, p) = is_data p && p.enumerable
is_plain_option (sym n, p) = false

-- `exactOptions(options, expected, what)`
unfoldable pub exact_plain_options : List Text → Heap → Value → Outcome (List (Key × Property))
unfolding is_ordinary_object has_exact_keys
exact_plain_options keys h (ref r) = do
  require (is_ordinary_object h (ref r)) type_error
  require (all is_plain_option (h r).props) type_error
  require (has_exact_keys keys (h r).props) type_error
  ok (h r).props
exact_plain_options keys h _ = err type_error

pub data ActionKind : Type 0 where
  command query : ActionKind

-- `kind(value, what)`, which `declaredKind` of src/application/use-case.mjs repeats.
unfoldable pub kind_value : Value → Outcome ActionKind
unfolding text_eq
kind_value (string s) =
    if text_eq s (codes "command")
    then ok command
    else if text_eq s (codes "query")
    then ok query
    else err type_error
kind_value _ = err type_error

-- `/^[A-Za-z][A-Za-z0-9_]*$/`
unfoldable pub is_letter : ℕ → Bool
unfolding is_upper is_lower
is_letter c = is_upper c || is_lower c

unfoldable pub identifier_form : Text → Bool
unfolding is_letter is_digit
identifier_form [] = false
identifier_form (c ∷ s) = is_letter c && all (λ d. is_letter d || is_digit d || (d == b'_')) s

abbrev pub identifier_max : ℕ
identifier_max = 64

abbrev pub refused_identifiers : List Text
refused_identifiers = codes "__proto__" ∷ codes "constructor" ∷ codes "prototype" ∷ []

unfoldable pub is_refused_identifier : Text → Bool
unfolding text_eq
is_refused_identifier s = any (λ r. text_eq r s) refused_identifiers

-- `identifier(value, what)`
unfoldable pub identifier : Value → Outcome Text
unfolding identifier_form is_refused_identifier
identifier (string s) = do
  require (leb 1 (length s) && leb (length s) identifier_max) range_error
  require (identifier_form s) type_error
  require (not (is_refused_identifier s)) type_error
  ok s
identifier _ = err type_error

-- `value.map((entry) => identifier(entry, what))`
unfoldable pub identifiers : List Value → Outcome (List Text)
unfolding identifier
identifiers [] = ok []
identifiers (v ∷ vs) = do s ← identifier v; rest ← identifiers vs; ok (s ∷ rest)

-- The loop with the set of the entries that it has seen.
unfoldable pub unseen_from : List Text → List Text → Bool
unfolding text_eq
unseen_from seen [] = true
unseen_from seen (s ∷ ss) = not (any (λ t. text_eq t s) seen) && unseen_from (s ∷ seen) ss

-- The elements of the array, which are read only after the array itself was found sound.
unfoldable pub unique_identifiers : List Value → Outcome (List Text)
unfolding identifiers unseen_from
unique_identifiers vs = do out ← identifiers vs; require (unseen_from [] out) type_error; ok out

-- `identifierList(value, what)`
unfoldable pub identifier_list : Heap → Value → Outcome (List Text)
unfolding dense_elements unique_identifiers
identifier_list h v = elim (dense_elements h v) [
  | none ↦ err type_error
  | some vs ↦ unique_identifiers vs
]

pub record ActionContract : Type 0 where
  pub kind : ActionKind
  pub name : Text
  pub version : ℕ
  pub fields : List Text
  pub outcomes : List Text
  pub error_envelope_fields : List Text

abbrev pub contract_keys : List Text
contract_keys =
    codes "kind"
    ∷ codes "name"
    ∷ codes "version"
    ∷ codes "fields"
    ∷ codes "outcomes"
    ∷ codes "errorEnvelopeFields"
    ∷ []

-- `new ActionContract(options)`
unfoldable pub action_contract : Heap → Value → Outcome ActionContract
unfolding exact_plain_options kind_value action_name action_version identifier_list read
action_contract h v = do
  ps ← exact_plain_options contract_keys h v
  kind ← kind_value (read (codes "kind") ps)
  action ← action_name (read (codes "name") ps)
  version ← action_version (read (codes "version") ps)
  fields ← identifier_list h (read (codes "fields") ps)
  outcomes ← identifier_list h (read (codes "outcomes") ps)
  error_fields ← identifier_list h (read (codes "errorEnvelopeFields") ps)
  ok (record {
    kind = kind;
    name = action;
    version = version;
    fields = fields;
    outcomes = outcomes;
    error_envelope_fields = error_fields;
  })
