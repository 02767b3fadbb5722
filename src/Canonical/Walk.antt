-- ===== src/Canonical/Walk.antt =====
-- The whole walk: one container, then every depth, then the roots that the constructors call.
use metaframer_kernel.Base.{
  ℕ, zero, suc, ◌+◌, ◌≤◌, ◌≡◌, false, List, [], ◌∷◌, ok, ◌>>=◌, arith, Option-cases, inl, inr, any,
  ◌==◌, all, length, map, All, Ends, >>=-Ends, require-Ends, Ends-mono, Ends-ok, type_error,
  range_error, not, ltb,
}
use metaframer_kernel.Js.{
  Num, neg_zero, integer, fraction, not_finite, Value, boolean, string, number, symbol, function,
  bigint, undefined, ref, Heap, Object,
}
use metaframer_kernel.Js.Shape.{is_dense_array, is_object_prototype, element_value}
use metaframer_kernel.Canonical.{
  Json, Items, Members, Walk, canonical_value, canonical_container, canonical_number, key_names,
  admits_member, sort_keys, as_arr, as_obj, max_depth, enough_fuel, canonical_anything,
}
use metaframer_kernel.Canonical.Sorting.{sort_keys-All, sort_keys-Ascending}
use metaframer_kernel.Canonical.Bounds.{
  IsCanonical, IsPlainKey, containers, Visits-zero, Good, GoodItems, GoodMembers, Distinct,
  walk_items-Good, walk_members-Good, key_names-All,
}

canonical_number-Good :
    (depth : ℕ) (seen : List ℕ) (n : Num)
    → Ends (Good depth seen) (canonical_number n >>= λ j. ok (j, seen))
unfolding canonical_number IsCanonical containers
canonical_number-Good depth seen (integer z) = (tt, Visits-zero seen)
canonical_number-Good depth seen neg_zero = (tt, Visits-zero seen)
canonical_number-Good depth seen (fraction i) = (tt, Visits-zero seen)
canonical_number-Good depth seen not_finite = tt

-- A container whose own address `r` was put before `seen`.
abbrev Entered : ℕ → List ℕ → Json × List ℕ → Type 0
Entered depth seen r =
    IsCanonical depth r.0
    × (length r.1 + 1 ≡ containers r.0 + length seen)
    × (Distinct seen → Distinct r.1)

module _ (depth : ℕ) (shallow : depth ≤ 16) where
  as_arr-Entered :
      (seen : List ℕ) (w : Walk Items)
      → Ends (GoodItems (suc depth) seen) w
      → Ends (Entered depth seen) (as_arr w)
  unfolding IsCanonical containers
  as_arr-Entered seen w h =
      >>=-Ends (GoodItems (suc depth) seen) (Entered depth seen) w _ h
        λ r g. ((shallow, g.0), omega (arith, g.1.counted), g.1.distinct)

  as_obj-Entered :
      (seen : List ℕ) (ks : List _) (w : Walk Members)
      → Ends (GoodMembers (suc depth) seen (sort_keys ks)) w
      → All IsPlainKey ks
      → Ends (Entered depth seen) (as_obj w)
  unfolding IsCanonical containers
  as_obj-Entered seen ks w h plain =
      >>=-Ends (GoodMembers (suc depth) seen (sort_keys ks)) (Entered depth seen) w _ h λ r g. (
        (
          shallow,
          rw (g.1) (sort_keys-Ascending ks),
          rw (g.1) (sort_keys-All IsPlainKey ks plain),
          g.0,
        ),
        omega (arith, g.2.counted),
        g.2.distinct,
      )

module _ (depth : ℕ) (shallow : depth ≤ 16) (visit : List ℕ → Value → Walk Json)
    (good : (seen : List ℕ) (v : Value) → Ends (Good (suc depth) seen) (visit seen v)) where
  canonical_container-Entered :
      (o : Object) (seen : List ℕ) → Ends (Entered depth seen) (canonical_container visit o seen)
  unfolding canonical_container
  canonical_container-Entered o seen = elim (Option-cases o.elements) [
    | inr (es, e) ↦
        rw (e, canonical_container)
          (require-Ends (Entered depth seen) (is_dense_array o es) type_error _ tt λ _.
            as_arr-Entered depth shallow seen _
              (walk_items-Good (suc depth) visit good seen (map element_value es)))
    | inl e ↦
        rw (e, canonical_container)
          (require-Ends (Entered depth seen) (is_object_prototype o.proto) type_error _ tt λ _.
            require-Ends (Entered depth seen) (all admits_member o.props) type_error _ tt λ plain.
              as_obj-Entered depth shallow seen (key_names o.props) _
                (walk_members-Good (suc depth) visit good o.props seen _)
                (key_names-All o.props plain))
  ]

Good-of_Entered :
    (depth r : ℕ) (seen : List ℕ) (a : Json × List ℕ)
    → any (λ s. s == r) seen ≡ false
    → Entered depth (r ∷ seen) a
    → Good depth seen a
Good-of_Entered depth r seen a fresh e =
    (e.0, record { counted = omega (arith, e.1); distinct = λ d. e.2 (fresh, d) })

canonical_value-Good :
    (h : Heap) (fuel depth : ℕ) (seen : List ℕ) (v : Value)
    → 18 ≤ fuel + depth
    → depth ≤ 17
    → Ends (Good depth seen) (canonical_value h fuel depth seen v)
unfolding canonical_value IsCanonical containers
canonical_value-Good h fuel depth seen Value.null p q = (tt, Visits-zero seen)
canonical_value-Good h fuel depth seen (boolean b) p q = (tt, Visits-zero seen)
canonical_value-Good h fuel depth seen (string s) p q = (tt, Visits-zero seen)
canonical_value-Good h fuel depth seen (number n) p q = canonical_number-Good depth seen n
canonical_value-Good h fuel depth seen undefined p q = tt
canonical_value-Good h fuel depth seen (symbol i) p q = tt
canonical_value-Good h fuel depth seen (function i) p q = tt
canonical_value-Good h fuel depth seen (bigint i) p q = tt
canonical_value-Good h zero depth seen (ref r) p q = absurd (omega arith)
canonical_value-Good h (suc fuel) depth seen (ref r) p q =
    require-Ends (Good depth seen) (not (ltb max_depth depth)) range_error _ tt λ shallow.
      require-Ends (Good depth seen) (not (any (λ s. s == r) seen)) type_error _ tt λ fresh.
        Ends-mono (Entered depth (r ∷ seen)) (Good depth seen) _
          (canonical_container-Entered depth (ground arith) (canonical_value h fuel (suc depth))
            (λ t v. canonical_value-Good h fuel (suc depth) t v (omega arith) (ground arith)) (h r)
            (r ∷ seen))
          (λ a. Good-of_Entered depth r seen a (ground arith))

-- Whatever it is given, cycles and any depth included, canonicalAnything comes to an end: it throws
-- a TypeError or a RangeError, or answers canonical data, whose objects list no refused key and
-- their keys in ascending order, whose numbers are finite and never negative zero, and in which
-- at most 16 containers stand one inside the other.
pub canonical_anything-IsCanonical :
    (h : Heap) (v : Value) → Ends (IsCanonical 1) (canonical_anything h v)
unfolding canonical_anything
canonical_anything-IsCanonical h v =
    >>=-Ends (Good 1 []) (IsCanonical 1) (canonical_value h enough_fuel 1 [] v) _
      (canonical_value-Good h enough_fuel 1 [] v (omega arith) (omega arith)) (λ r g. g.0)

-- A walk that succeeds has seen as many addresses as the clone has containers, and none twice: no
-- cycle and no container reached along two paths is ever cloned.
pub canonical_value_no_sharing :
    (h : Heap) (v : Value) (j : Json) (seen : List ℕ)
    → canonical_value h enough_fuel 1 [] v ≡ ok (j, seen)
    → (length seen ≡ containers j) × Distinct seen
canonical_value_no_sharing h v j seen e =
    let g : Good 1 [] (j, seen) =
      Ends-ok (Good 1 []) _ (j, seen)
        (canonical_value-Good h enough_fuel 1 [] v (omega arith) (omega arith)) e in
    (omega (arith, g.1.counted), g.1.distinct tt)
