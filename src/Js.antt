-- ===== src/Js.antt =====
-- The JavaScript values that the kernel's constructors and ports inspect: primitives, and
-- references into a heap of objects with a prototype, own properties and their descriptors.
pub mod Shape
pub mod Arrays
use metaframer_kernel.Base.{
  ℕ, suc, Bool, true, false, ◌&&◌, Option, none, some, List, [], ◌∷◌, ℤ, pos, negsuc, leb, ltb,
  if◌then◌else◌, length,
}
use metaframer_kernel.Text.{Text, text_eq}

-- A number is an integer, negative zero, some other finite double, or NaN or an infinity.
pub data Num : Type 0 where
  integer : ℤ → Num
  neg_zero : Num
  fraction : ℕ → Num
  not_finite : Num

-- `symbol` and `function` carry what tells two of them apart; `ref` is an object's address.
pub data Value : Type 0 where
  undefined null : Value
  boolean : Bool → Value
  number : Num → Value
  string : Text → Value
  symbol function bigint ref : ℕ → Value

pub data Proto : Type 0 where
  object_prototype array_prototype null_prototype : Proto
  other_prototype : ℕ → Proto

pub data Key : Type 0 where
  name : Text → Key
  sym : ℕ → Key

-- A property descriptor: a data property holds a value, an accessor holds a getter.
pub data Content : Type 0 where
  holds : Value → Content
  accessor : Content

pub record Property : Type 0 where
  pub content : Content
  pub enumerable : Bool

-- An array keeps its elements apart from its other own properties, a hole being `none`; its own
-- `length` is not listed. `props` is in the order of `Reflect.ownKeys`, each key once.
pub record Object : Type 0 where
  pub proto : Proto
  pub elements : Option (List (Option Property))
  pub props : List (Key × Property)

abbrev pub Heap : Type 0
Heap = ℕ → Object

-- `Number.isFinite` and `Number.isSafeInteger`.
unfoldable pub is_finite : Num → Bool
is_finite not_finite = false
is_finite _ = true

abbrev pub max_safe_integer : ℕ
max_safe_integer = 9007199254740991

unfoldable pub is_safe_integer : Num → Bool
is_safe_integer (integer (pos n)) = leb n max_safe_integer
is_safe_integer (integer (negsuc n)) = ltb n max_safe_integer
is_safe_integer neg_zero = true
is_safe_integer _ = false

-- The integer that a safe integer compares as: `-0` compares as 0.
unfoldable pub as_integer : Num → ℤ
as_integer (integer z) = z
as_integer _ = pos 0

abbrev pub key_is : Text → Key → Bool
key_is t (name s) = text_eq s t
key_is t (sym _) = false

-- `Object.getOwnPropertyDescriptor(o, key)` for a string key that is no index.
unfoldable pub own_property : Text → List (Key × Property) → Option Property
own_property k [] = none
own_property k ((j, p) ∷ ps) = if key_is k j then some p else own_property k ps

abbrev pub is_data : Property → Bool
is_data p = elim p.content [ holds _ ↦ true | accessor ↦ false ]

-- `"value" in descriptor && descriptor.enumerable`, false where there is no descriptor.
abbrev pub is_enumerable_data : Option Property → Bool
is_enumerable_data none = false
is_enumerable_data (some p) = is_data p && p.enumerable

-- `o[key]` of an object whose property is known to be a data property.
unfoldable pub read : Text → List (Key × Property) → Value
unfolding own_property
read k ps = elim (own_property k ps) [
  | none ↦ undefined
  | some p ↦ elim p.content [ holds v ↦ v | accessor ↦ undefined ]
]
