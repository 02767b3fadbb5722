-- ===== src/Canonical/Sorting.antt =====
-- `[...keys].sort()` puts the keys in ascending order and keeps them all.
use metaframer_kernel.Base.{◌≡◌, false, List, [], ◌∷◌, All, Bool-cases, inl, inr}
use metaframer_kernel.Text.{Text, text_lt}
use metaframer_kernel.Text.Order.{text_lt_trans, text_lt_asymm, text_lt_total}
use metaframer_kernel.Canonical.{insert_key, sort_keys}

-- Each key is followed by none that is smaller.
abbrev pub Ascending : List Text → Type 0
Ascending [] = Unit
Ascending (k ∷ ks) = All (λ j. text_lt j k ≡ false) ks × Ascending ks

module _ (P : Text → Type 0) where
  pub insert_key-All : (k : Text) (ks : List Text) → P k → All P ks → All P (insert_key k ks)
  unfolding insert_key
  insert_key-All k [] p h = (p, tt)
  insert_key-All k (j ∷ ks) p h = elim (Bool-cases (text_lt j k)) [
    | inl less ↦ rw less (h.0, insert_key-All k ks p h.1)
    | inr more ↦ rw more (p, h)
  ]

  pub sort_keys-All : (ks : List Text) → All P ks → All P (sort_keys ks)
  unfolding sort_keys
  sort_keys-All [] h = tt
  sort_keys-All (k ∷ ks) h = insert_key-All k (sort_keys ks) h.0 (sort_keys-All ks h.1)

-- `not (j < k)` and `not (i < j)` give `not (i < k)`.
text_le_trans : (i j k : Text) → text_lt j k ≡ false → text_lt i j ≡ false → text_lt i k ≡ false
text_le_trans i j k p q = elim (Bool-cases (text_lt i k)) [
  | inr e ↦ e
  | inl less ↦ elim (Bool-cases (text_lt k j)) [
    | inl more ↦ cc (text_lt_trans i k j less more)
    | inr same ↦ cc (text_lt_total j k p same)
  ]
]

All-le :
    (j k : Text) (ks : List Text)
    → text_lt j k ≡ false
    → All (λ i. text_lt i j ≡ false) ks
    → All (λ i. text_lt i k ≡ false) ks
All-le j k [] p h = tt
All-le j k (i ∷ ks) p h = (text_le_trans i j k p h.0, All-le j k ks p h.1)

insert_key-Ascending : (k : Text) (ks : List Text) → Ascending ks → Ascending (insert_key k ks)
unfolding insert_key
insert_key-Ascending k [] h = (tt, tt)
insert_key-Ascending k (j ∷ ks) h = elim (Bool-cases (text_lt j k)) [
  | inl less ↦ rw less (
    insert_key-All (λ i. text_lt i j ≡ false) k ks (text_lt_asymm j k less) h.0,
    insert_key-Ascending k ks h.1,
  )
  | inr more ↦ rw more ((more, All-le j k ks more h.0), h)
]

pub sort_keys-Ascending : (ks : List Text) → Ascending (sort_keys ks)
unfolding sort_keys
sort_keys-Ascending [] = tt
sort_keys-Ascending (k ∷ ks) = insert_key-Ascending k (sort_keys ks) (sort_keys-Ascending ks)
