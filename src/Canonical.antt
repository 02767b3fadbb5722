-- ===== src/Canonical.antt =====
-- The canonical JSON value of src/application/action-primitives.mjs: `canonicalValue` and its
-- roots, which src/application/policy-decision.mjs and policy-statement.mjs repeat word for word.
pub mod Sorting
pub mod Bounds
pub mod Walk
use metaframer_kernel.Base.{
  ℕ, zero, suc, Bool, true, false, ◌&&◌, Option, none, some, List, [], ◌∷◌, any, all, ltb, ◌==◌,
  if◌then◌else◌, not, map, Outcome, ok, err, type_error, range_error, out_of_fuel, ◌>>=◌, ◌>>◌,
  require,
}
use metaframer_kernel.Text.{Text, codes, text_eq, text_lt}
use metaframer_kernel.Js.{
  Num, integer, neg_zero, not_finite, Value, boolean, number, string, ref, Key, name, sym, Property,
  Object, Heap, is_finite, is_data, read,
}
use metaframer_kernel.Js.Shape.{is_object_prototype, is_array, is_dense_array, element_value}
use metaframer_kernel.Base.{pos}

mutual
  pub data Json : Type 0 where
    null : Json
    bool : Bool → Json
    num : Num → Json
    str : Text → Json
    arr : Items → Json
    obj : Members → Json

  pub data Items : Type 0 where
    nil : Items
    cons : Json → Items → Items

  -- The members of an object in the order in which they were assigned.
  pub data Members : Type 0 where
    end : Members
    member : Text → Json → Members → Members

abbrev pub max_depth : ℕ
max_depth = 16

-- `REFUSED_KEYS.has(key)`
unfoldable pub is_refused_key : Text → Bool
unfolding text_eq
is_refused_key k =
    any (λ r. text_eq r k) (codes "__proto__" ∷ codes "constructor" ∷ codes "prototype" ∷ [])

-- `[...keys].sort()`: ascending by code unit.
unfoldable pub insert_key : Text → List Text → List Text
insert_key k [] = k ∷ []
insert_key k (j ∷ ks) = if text_lt j k then j ∷ insert_key k ks else k ∷ j ∷ ks

unfoldable pub sort_keys : List Text → List Text
unfolding insert_key
sort_keys [] = []
sort_keys (k ∷ ks) = insert_key k (sort_keys ks)

-- The loop over `Reflect.ownKeys(value)`: no symbol, no refused key, enumerable data only.
unfoldable pub admits_member : Key × Property → Bool
admits_member (name k, p) = not (is_refused_key k) && is_data p && p.enumerable
admits_member (sym _, p) = false

abbrev pub key_names : List (Key × Property) → List Text
key_names [] = []
key_names ((name k, _) ∷ ps) = k ∷ key_names ps
key_names ((sym _, _) ∷ ps) = key_names ps

-- A number that JSON can spell, with negative zero made zero.
unfoldable pub canonical_number : Num → Outcome Json
unfolding is_finite
canonical_number neg_zero = ok (num (integer (pos 0)))
canonical_number not_finite = err range_error
canonical_number n = ok (num n)

-- What a walk answers: the clone, and the set of the containers seen so far.
abbrev pub Walk : Type 0 → Type 0
Walk A = Outcome (A × List ℕ)

-- `value.map((entry) => canonicalValue(entry, depth + 1, seen, what))`
unfoldable pub walk_items : (List ℕ → Value → Walk Json) → List ℕ → List Value → Walk Items
walk_items visit seen [] = ok (nil, seen)
walk_items visit seen (v ∷ vs) = do
  head ← visit seen v
  rest ← walk_items visit head.1 vs
  ok (cons head.0 rest.0, rest.1)

-- `for (const key of [...keys].sort()) out[key] = canonicalValue(value[key], …)`
unfoldable pub walk_members :
    (List ℕ → Value → Walk Json) → List (Key × Property) → List ℕ → List Text → Walk Members
walk_members visit ps seen [] = ok (end, seen)
walk_members visit ps seen (k ∷ ks) = do
  head ← visit seen (read k ps)
  rest ← walk_members visit ps head.1 ks
  ok (member k head.0 rest.0, rest.1)

abbrev pub as_arr : Walk Items → Walk Json
as_arr w = w >>= λ r. ok (arr r.0, r.1)

abbrev pub as_obj : Walk Members → Walk Json
as_obj w = w >>= λ r. ok (obj r.0, r.1)

-- One container that is neither too deep nor seen, after it was added to `seen`.
unfoldable pub canonical_container : (List ℕ → Value → Walk Json) → Object → List ℕ → Walk Json
unfolding walk_items walk_members
canonical_container visit o seen = elim o.elements [
  | some es ↦ do
    require (is_dense_array o es) type_error
    as_arr (walk_items visit seen (map element_value es))
  | none ↦ do
    require (is_object_prototype o.proto) type_error
    require (all admits_member o.props) type_error
    as_obj (walk_members visit o.props seen (sort_keys (key_names o.props)))
]

-- The recursion is over `depth`, which stops at 17; the fuel only makes that structural.
unfoldable pub canonical_value : Heap → ℕ → ℕ → List ℕ → Value → Walk Json
unfolding canonical_container canonical_number
canonical_value h fuel depth seen Value.null = ok (null, seen)
canonical_value h fuel depth seen (boolean b) = ok (bool b, seen)
canonical_value h fuel depth seen (string s) = ok (str s, seen)
canonical_value h fuel depth seen (number n) = canonical_number n >>= λ j. ok (j, seen)
canonical_value h zero depth seen (ref r) = err out_of_fuel
canonical_value h (suc fuel) depth seen (ref r) = do
  require (not (ltb max_depth depth)) range_error
  require (not (any (λ s. s == r) seen)) type_error
  canonical_container (canonical_value h fuel (suc depth)) (h r) (r ∷ seen)
canonical_value h fuel depth seen _ = err type_error

abbrev pub enough_fuel : ℕ
enough_fuel = 17

-- `canonicalAnything`
unfoldable pub canonical_anything : Heap → Value → Outcome Json
unfolding canonical_value
canonical_anything h v = canonical_value h enough_fuel 1 [] v >>= λ r. ok r.0

-- `canonicalObject`, and `canonicalRoot` elsewhere: the root must be an object and no array.
unfoldable pub canonical_object : Heap → Value → Outcome Json
unfolding canonical_anything
canonical_object h (ref r) =
    require (not (is_array (h r))) type_error >> canonical_anything h (ref r)
canonical_object h _ = err type_error
