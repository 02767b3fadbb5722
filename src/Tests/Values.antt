-- ===== src/Tests/Values.antt =====
-- Canonical data from a small heap, and readings of the clock.
use metaframer_kernel.Base.{
  ◌≡◌, refl, ◌↔◌, true, false, none, some, [], ◌∷◌, ℕ, zero, suc, pos, ok, err, Ends, length,
  type_error,
}
use metaframer_kernel.Text.{Text, codes, text_eq, text_lt}
use metaframer_kernel.Text.Forms.{is_digit, matches_shape}
use metaframer_kernel.Js.{
  Value, string, number, ref, integer, neg_zero, object_prototype, array_prototype, name, holds,
  Property, Heap, read, Key,
}
use metaframer_kernel.Js.Shape.{is_dense_array}
use metaframer_kernel.Canonical.{
  Json, num, str, arr, obj, nil, cons, end, member, canonical_value, canonical_anything,
  enough_fuel, admits_member, is_refused_key, sort_keys,
}
use metaframer_kernel.Canonical.Bounds.{IsCanonical, containers, Distinct}
use metaframer_kernel.Canonical.Walk.{canonical_anything-IsCanonical, canonical_value_no_sharing}
use metaframer_kernel.Clock.{names_a_real_instant, is_real_time, length_of_month}
use metaframer_kernel.Clock.Spelling.{Instant, IsReal, spell, names_a_real_instant_iff}

abbrev entry : Text → Value → Key × Property
entry k v = (name k, record { content = holds v; enumerable = true })

-- `{ b: [-0], a: "x" }` at 0, its array at 1, and at 2 an object that holds itself.
abbrev heap : Heap
heap zero = record {
  proto = object_prototype;
  elements = none;
  props = entry (codes "b") (ref 1) ∷ entry (codes "a") (string (codes "x")) ∷ [];
}
heap (suc zero) = record {
  proto = array_prototype;
  elements = some (some (record { content = holds (number neg_zero); enumerable = true }) ∷ []);
  props = [];
}
heap (suc (suc n)) = record {
  proto = object_prototype;
  elements = none;
  props = entry (codes "me") (ref 2) ∷ [];
}

abbrev clone : Json
clone = obj (
    member (codes "a") (str (codes "x"))
      (member (codes "b") (arr (cons (num (integer (pos 0))) nil)) end))

walk_heap : canonical_value heap enough_fuel 1 [] (ref 0) ≡ ok (clone, 1 ∷ 0 ∷ [])
unfolding canonical_value admits_member is_refused_key is_dense_array sort_keys text_lt text_eq read
walk_heap = refl

cycle_refused : canonical_anything heap (ref 2) ≡ err type_error
unfolding canonical_anything admits_member is_refused_key is_dense_array sort_keys text_lt text_eq
    read
cycle_refused = refl

canonical_anything-IsCanonical_example : Ends (IsCanonical 1) (canonical_anything heap (ref 0))
canonical_anything-IsCanonical_example = canonical_anything-IsCanonical heap (ref 0)

canonical_value_no_sharing_example :
    (length {A = ℕ} (1 ∷ 0 ∷ []) ≡ containers clone) × Distinct (1 ∷ 0 ∷ [])
canonical_value_no_sharing_example =
    canonical_value_no_sharing heap (ref 0) clone (1 ∷ 0 ∷ []) walk_heap

leap_day : names_a_real_instant (codes "2024-02-29T23:59:59.999Z") ≡ true
unfolding names_a_real_instant matches_shape is_digit is_real_time length_of_month
leap_day = refl

no_leap_day : names_a_real_instant (codes "2100-02-29T00:00:00.000Z") ≡ false
unfolding names_a_real_instant matches_shape is_digit is_real_time length_of_month
no_leap_day = refl

names_a_real_instant_iff_example :
    (names_a_real_instant (codes "2024-02-29T23:59:59.999Z") ≡ true)
    ↔ ((t : Instant) × IsReal t × (codes "2024-02-29T23:59:59.999Z" ≡ spell t))
names_a_real_instant_iff_example = names_a_real_instant_iff (codes "2024-02-29T23:59:59.999Z")
