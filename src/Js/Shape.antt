-- ===== src/Js/Shape.antt =====
-- The shape tests that every component of the kernel repeats: ordinary objects, exact option
-- keys, and dense arrays.
use metaframer_kernel.Base.{
  ℕ, suc, ◌+◌, Bool, true, false, ◌&&◌, Option, none, some, List, [], ◌∷◌, ◌==◌, length, all, any,
  not, map,
}
use metaframer_kernel.Text.{Text, text_eq}
use metaframer_kernel.Js.{
  Value, ref, Proto, object_prototype, array_prototype, Key, name, sym, Property, Object, Heap,
  key_is, own_property, is_enumerable_data, holds, accessor, undefined,
}

abbrev pub is_object_prototype : Proto → Bool
is_object_prototype object_prototype = true
is_object_prototype _ = false

abbrev pub is_array_prototype : Proto → Bool
is_array_prototype array_prototype = true
is_array_prototype _ = false

-- `Array.isArray`
abbrev pub is_array : Object → Bool
is_array o = elim o.elements [ none ↦ false | some _ ↦ true ]

-- An object that is no array and inherits from `Object.prototype` itself.
unfoldable pub is_ordinary_object : Heap → Value → Bool
is_ordinary_object h (ref r) = not (is_array (h r)) && is_object_prototype (h r).proto
is_ordinary_object h _ = false

abbrev pub has_key : List (Key × Property) → Text → Bool
has_key ps k = any (λ e. key_is k e.0) ps

-- `expected.includes(key)`
abbrev pub is_expected : List Text → Key → Bool
is_expected expected (name s) = any (λ t. text_eq s t) expected
is_expected expected (sym _) = false

-- As many keys as expected, each expected one an enumerable data property, and no other.
unfoldable pub has_exact_data_keys : List Text → List (Key × Property) → Bool
unfolding own_property
has_exact_data_keys expected ps =
    (length ps == length expected)
    && all (λ k. is_enumerable_data (own_property k ps)) expected
    && all (λ e. is_expected expected e.0) ps

-- As many keys as expected and every expected one among them.
unfoldable pub has_exact_keys : List Text → List (Key × Property) → Bool
has_exact_keys expected ps = all (has_key ps) expected && (length ps == length expected)

abbrev pub is_present : Option Property → Bool
is_present none = false
is_present (some _) = true

-- `Reflect.ownKeys(array).length`: the indices that are there, `length`, and the other keys.
unfoldable pub own_key_count : List (Option Property) → List (Key × Property) → ℕ
own_key_count [] ps = suc (length ps)
own_key_count (none ∷ es) ps = own_key_count es ps
own_key_count (some _ ∷ es) ps = suc (own_key_count es ps)

-- An ordinary array whose elements are all enumerable data, with no property beside them.
unfoldable pub is_dense_array : Object → List (Option Property) → Bool
unfolding own_key_count
is_dense_array o es =
    is_array_prototype o.proto
    && all is_enumerable_data es
    && (own_key_count es o.props == length es + 1)

abbrev pub element_value : Option Property → Value
element_value none = undefined
element_value (some p) = elim p.content [ holds v ↦ v | accessor ↦ undefined ]

-- The elements of a dense array, or nothing if the value is none.
unfoldable pub dense_elements : Heap → Value → Option (List Value)
unfolding is_dense_array
dense_elements h (ref r) = elim (h r).elements [
  | none ↦ none
  | some es ↦ elim (is_dense_array (h r) es) [ true ↦ some (map element_value es) | false ↦ none ]
]
dense_elements h _ = none
