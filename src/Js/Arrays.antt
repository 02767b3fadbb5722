-- ===== src/Js/Arrays.antt =====
-- Which values are dense arrays of strings, said without the test of them.
use metaframer_kernel.Base.{
  ◌≡◌, refl, ap, ℕ, ◌+◌, Bool, true, false, Option, none, some, List, [], ◌∷◌, map, length, all,
  ◌==◌, arith,
}
use metaframer_kernel.Text.{Text}
use metaframer_kernel.Js.{
  Value, string, ref, Heap, Proto, array_prototype, Key, Property, Content, holds, accessor,
  is_enumerable_data,
}
use metaframer_kernel.Js.Shape.{
  dense_elements, is_dense_array, is_array_prototype, own_key_count, element_value,
}

-- `[s]`'s element: an enumerable data property that holds the string.
abbrev pub element_of : Text → Option Property
element_of s = some (record { content = holds (string s); enumerable = true })

-- An array literal of the strings, and nothing more.
pub record IsArrayOf (h : Heap) (v : Value) (ss : List Text) : Type 0 where
  pub address : ℕ
  pub referred : v ≡ ref address
  pub ordinary : (h address).proto ≡ array_prototype
  pub elements : (h address).elements ≡ some (map element_of ss)
  pub bare : (h address).props ≡ []

elements-enumerable : (ss : List Text) → all is_enumerable_data (map element_of ss) ≡ true
elements-enumerable [] = refl
elements-enumerable (s ∷ ss) = elements-enumerable ss

elements-values : (ss : List Text) → map element_value (map element_of ss) ≡ map string ss
elements-values [] = refl
elements-values (s ∷ ss) = ap (λ vs. string s ∷ vs) (elements-values ss)

own_key_count-full :
    (es : List (Option Property)) (ps : List (Key × Property))
    → all is_enumerable_data es ≡ true
    → own_key_count es ps ≡ length es + 1 + length ps
unfolding own_key_count
own_key_count-full [] ps h = omega arith
own_key_count-full (none ∷ es) ps h = cc
own_key_count-full (some p ∷ es) ps h = omega (arith, own_key_count-full es ps (ground (arith, h)))

element-same :
    (c : Content) (b : Bool) (s : Text)
    → is_enumerable_data (some (record { content = c; enumerable = b })) ≡ true
    → element_value (some (record { content = c; enumerable = b })) ≡ string s
    → some (record { content = c; enumerable = b }) ≡ element_of s
element-same accessor b s h e = cc
element-same (holds v) true s h e = rw e refl
element-same (holds v) false s h e = cc

elements-same :
    (es : List (Option Property)) (ss : List Text)
    → all is_enumerable_data es ≡ true
    → map element_value es ≡ map string ss
    → es ≡ map element_of ss
elements-same [] [] h e = refl
elements-same [] (s ∷ ss) h e = cc
elements-same (x ∷ es) [] h e = cc
elements-same (none ∷ es) (s ∷ ss) h e = cc
elements-same (some p ∷ es) (s ∷ ss) h e =
    let first : some p ≡ element_of s =
      element-same p.content p.enumerable s (ground (arith, h)) (cc e) in
    let rest : es ≡ map element_of ss = elements-same es ss (ground (arith, h)) (cc e) in
    cc (first, rest)

is_array_prototype_eq : (p : Proto) → is_array_prototype p ≡ true → p ≡ array_prototype
is_array_prototype_eq array_prototype h = refl
is_array_prototype_eq p h = cc

nothing_beside : (ps : List (Key × Property)) → length ps ≡ 0 → ps ≡ []
nothing_beside [] e = refl
nothing_beside (p ∷ ps) e = absurd (omega (arith, e))

pub IsArrayOf-dense_elements :
    (h : Heap) (v : Value) (ss : List Text)
    → IsArrayOf h v ss
    → dense_elements h v ≡ some (map string ss)
unfolding dense_elements is_dense_array
IsArrayOf-dense_elements h v ss a =
    let count : (own_key_count (map element_of ss) [] == length (map element_of ss) + 1) ≡ true =
      ground (arith, own_key_count-full (map element_of ss) [] (elements-enumerable ss)) in
    rw
      (
        a.referred,
        dense_elements,
        a.elements,
        is_dense_array,
        a.ordinary,
        a.bare,
        elements-enumerable ss,
        count,
        elements-values ss,
      )
      refl

sound :
    (h : Heap) (r : ℕ) (es : List (Option Property)) (ss : List Text)
    → (h r).elements ≡ some es
    → is_dense_array (h r) es ≡ true
    → map element_value es ≡ map string ss
    → IsArrayOf h (ref r) ss
unfolding is_dense_array
sound h r es ss at dense values =
    let full : all is_enumerable_data es ≡ true = ground (arith, dense) in
    let count : own_key_count es (h r).props ≡ length es + 1 = ground (arith, dense) in
    record {
      address = r;
      referred = refl;
      ordinary = is_array_prototype_eq (h r).proto (ground (arith, dense));
      elements = rw at (ap some (elements-same es ss full values));
      bare =
          nothing_beside (h r).props (omega (arith, count, own_key_count-full es (h r).props full));
    }

pub dense_elements-IsArrayOf :
    (h : Heap) (v : Value) (ss : List Text)
    → dense_elements h v ≡ some (map string ss)
    → IsArrayOf h v ss
unfolding dense_elements
dense_elements-IsArrayOf h (ref r) ss e = by_elements (h r).elements refl e
  where
    by_test :
        (es : List (Option Property)) (b : Bool)
        → (h r).elements ≡ some es
        → is_dense_array (h r) es ≡ b
        → (elim b as (λ _. Option (List Value)) [
          | true ↦ some (map element_value es)
          | false ↦ none
        ])
          ≡ some (map string ss)
        → IsArrayOf h (ref r) ss
    by_test es true at dense e = sound h r es ss at dense (cc e)
    by_test es false at dense e = cc

    by_elements :
        (given : Option (List (Option Property)))
        → (h r).elements ≡ given
        → (elim given as (λ _. Option (List Value)) [
          | none ↦ none
          | some es ↦ elim (is_dense_array (h r) es) [
            | true ↦ some (map element_value es)
            | false ↦ none
          ]
        ])
          ≡ some (map string ss)
        → IsArrayOf h (ref r) ss
    by_elements none at e = cc
    by_elements (some es) at e = by_test es (is_dense_array (h r) es) at refl e
dense_elements-IsArrayOf h v ss e = cc
