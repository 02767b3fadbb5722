-- ===== src/Delivery/Merge.antt =====
-- src/delivery/asgi-core-profile.mjs: the chunks are merged into their concatenation.
use metaframer_kernel.Base.{
  append_assoc, append_nil, ◌≡◌, refl, sym, ap, ℕ, zero, suc, ◌+◌, List, [], ◌∷◌, ◌++◌, ◌∙◌, length,
  arith,
}
use metaframer_kernel.Delivery.{total_length, zeros, set_at, merge_from, merge}

abbrev pub concat : List (List ℕ) → List ℕ
concat [] = []
concat (c ∷ cs) = c ++ concat cs

pub length-append : (a b : List ℕ) → length (a ++ b) ≡ length a + length b
length-append [] b = omega arith
length-append (x ∷ a) b = omega (arith, length-append a b)

set_at-empty : (n : ℕ) → set_at 0 [] (zeros n) ≡ zeros n
unfolding set_at
set_at-empty zero = refl
set_at-empty (suc n) = refl

-- A chunk is written over as many zeros, right after what is there.
set_at-zeros :
    (before c : List ℕ) (n m : ℕ)
    → m ≡ length c + n
    → set_at (length before) c (before ++ zeros m) ≡ (before ++ c) ++ zeros n
unfolding set_at
set_at-zeros (b ∷ before) c n m h = ap (λ t. b ∷ t) (set_at-zeros before c n m h)
set_at-zeros [] [] n m h = let same : m ≡ n = omega (arith, h) in rw (same) (set_at-empty n)
set_at-zeros [] (x ∷ c) n zero h = absurd (omega (arith, h))
set_at-zeros [] (x ∷ c) n (suc m) h = ap (λ t. x ∷ t) (set_at-zeros [] c n m (omega (arith, h)))

merge_from-concat :
    (before : List ℕ) (cs : List (List ℕ)) (offset : ℕ)
    → offset ≡ length before
    → merge_from offset cs (before ++ zeros (total_length cs)) ≡ before ++ concat cs
unfolding merge_from total_length
merge_from-concat before [] offset h = refl
merge_from-concat before (c ∷ cs) offset h =
    let next : offset + length c ≡ length (before ++ c) =
      omega (arith, h, length-append before c) in
    let written : set_at offset c (before ++ zeros (length c + total_length cs))
        ≡ (before ++ c) ++ zeros (total_length cs) =
      rw (h) (set_at-zeros before c (total_length cs) (length c + total_length cs) refl) in
    rw (written) (
      merge_from-concat (before ++ c) cs (offset + length c) next
      ∙ append_assoc before c (concat cs))

pub merge-concat : (cs : List (List ℕ)) → merge cs ≡ concat cs
unfolding merge
merge-concat cs = merge_from-concat [] cs 0 refl

pub concat-append : (cs : List (List ℕ)) (c : List ℕ) → concat (cs ++ (c ∷ [])) ≡ concat cs ++ c
concat-append [] c = append_nil c
concat-append (d ∷ cs) c =
    ap (λ t. d ++ t) (concat-append cs c) ∙ sym (append_assoc d (concat cs) c)
