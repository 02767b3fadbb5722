-- ===== src/DecisionLog/Order.antt =====
-- `descendingKeyOrder` of src/application/decision-log-entry.mjs, which
-- src/adapters/postgres-decision-log-adapter.mjs repeats: the order in which a value holds its
-- members does not matter to it.
use metaframer_kernel.Base.{◌≡◌, refl, true, false, Bool-cases, inl, inr, ap, sym, ◌∙◌}
use metaframer_kernel.Text.{Text, text_eq, text_lt}
use metaframer_kernel.Text.Order.{text_lt_trans, text_lt_asymm, text_lt_total, text_lt_ne}
use metaframer_kernel.Canonical.{
  Json, null, bool, num, str, arr, obj, Items, nil, cons, Members, end, member,
}
use metaframer_kernel.DecisionLog.{
  proto_key, insert_descending, descending_key_order, descending_items, descending_members,
}

-- The same value, with the members of its objects, at every depth, in some other order: what a
-- store that keeps objects without their order may hand back.
mutual
  pub data Reordered : Json → Json → Type 0 where
    unchanged : {j : Json} → Reordered j j
    then : {i j k : Json} → Reordered i j → Reordered j k → Reordered i k
    array : {xs ys : Items} → ReorderedItems xs ys → Reordered (arr xs) (arr ys)
    object : {ms ns : Members} → ReorderedMembers ms ns → Reordered (obj ms) (obj ns)

  pub data ReorderedItems : Items → Items → Type 0 where
    no_items : ReorderedItems nil nil
    item :
        {x y : Json} {xs ys : Items}
        → Reordered x y
        → ReorderedItems xs ys
        → ReorderedItems (cons x xs) (cons y ys)

  pub data ReorderedMembers : Members → Members → Type 0 where
    no_members : ReorderedMembers end end
    keep :
        {v w : Json} {ms ns : Members} (k : Text)
        → Reordered v w
        → ReorderedMembers ms ns
        → ReorderedMembers (member k v ms) (member k w ns)
    swap :
        {v w : Json} {ms : Members} (j k : Text)
        → (j ≡ k → ⊥)
        → ReorderedMembers (member j v (member k w ms)) (member k w (member j v ms))
    also :
        {ls ms ns : Members}
        → ReorderedMembers ls ms
        → ReorderedMembers ms ns
        → ReorderedMembers ls ns

-- Two insertions under an ascending pair of keys commute.
insert_ascending_comm :
    (j k : Text) (v w : Json) (ms : Members)
    → text_lt j k ≡ true
    → text_lt k j ≡ false
    → insert_descending j v (insert_descending k w ms)
      ≡ insert_descending k w (insert_descending j v ms)
unfolding insert_descending
insert_ascending_comm j k v w end p q = simp (p, q, insert_descending)
insert_ascending_comm j k v w (member i x ms) p q = elim (Bool-cases (text_lt k i)) [
  | inl less ↦
      let below : text_lt j i ≡ true = text_lt_trans j k i p less in
      simp (less, below, insert_ascending_comm j k v w ms p q, insert_descending)
  | inr more ↦ elim (Bool-cases (text_lt j i)) [
    | inl below ↦ simp (more, p, q, below, insert_descending)
    | inr above ↦ simp (more, p, q, above, insert_descending)
  ]
]

-- Two insertions under different keys commute.
pub insert_descending_comm :
    (j k : Text) (v w : Json) (ms : Members)
    → (j ≡ k → ⊥)
    → insert_descending j v (insert_descending k w ms)
      ≡ insert_descending k w (insert_descending j v ms)
insert_descending_comm j k v w ms d = elim (Bool-cases (text_lt j k)) [
  | inl p ↦ insert_ascending_comm j k v w ms p (text_lt_asymm j k p)
  | inr p ↦ elim (Bool-cases (text_lt k j)) [
    | inl q ↦ sym (insert_ascending_comm k j w v ms q (text_lt_asymm k j q))
    | inr q ↦ absurd (d (text_lt_total j k p q))
  ]
]

-- An insertion may be made before the ordering or after it.
descending_members_insert :
    (k : Text) (v : Json) (ms : Members)
    → text_eq k proto_key ≡ false
    → descending_members (insert_descending k v ms)
      ≡ insert_descending k (descending_key_order v) (descending_members ms)
unfolding descending_key_order insert_descending
descending_members_insert k v end kept = rw kept refl
descending_members_insert k v (member j w ms) kept = elim (Bool-cases (text_lt k j)) [
  | inr more ↦ rw (more, kept) refl
  | inl less ↦ elim (Bool-cases (text_eq j proto_key)) [
    | inl dropped ↦ rw (less, dropped) (descending_members_insert k v ms kept)
    | inr stays ↦
        rw
          (
            less,
            stays,
            descending_members_insert k v ms kept,
            insert_descending_comm j k (descending_key_order w) (descending_key_order v)
                (descending_members ms) (text_lt_ne k j less),
          )
          refl
  ]
]

-- Ordering twice is ordering once.
mutual
  unfolding descending_key_order insert_descending

  pub descending_key_order_idem :
      (j : Json) → descending_key_order (descending_key_order j) ≡ descending_key_order j
  descending_key_order_idem (arr xs) = ap arr (descending_items_idem xs)
  descending_key_order_idem (obj ms) = ap obj (descending_members_idem ms)
  descending_key_order_idem null = refl
  descending_key_order_idem (bool b) = refl
  descending_key_order_idem (num n) = refl
  descending_key_order_idem (str s) = refl

  descending_items_idem :
      (xs : Items) → descending_items (descending_items xs) ≡ descending_items xs
  descending_items_idem nil = refl
  descending_items_idem (cons j xs) = cc (descending_key_order_idem j, descending_items_idem xs)

  descending_members_idem :
      (ms : Members) → descending_members (descending_members ms) ≡ descending_members ms
  descending_members_idem end = refl
  descending_members_idem (member k v ms) = elim (Bool-cases (text_eq k proto_key)) [
    | inl dropped ↦ rw dropped (descending_members_idem ms)
    | inr stays ↦ rw stays (
        cc (
          descending_members_insert k (descending_key_order v) (descending_members ms) stays,
          descending_key_order_idem v,
          descending_members_idem ms,
        ))
  ]

-- A value in another order is ordered to the same.
mutual
  unfolding descending_key_order

  pub descending_key_order-Reordered :
      {i j : Json} → Reordered i j → descending_key_order i ≡ descending_key_order j
  descending_key_order-Reordered unchanged = refl
  descending_key_order-Reordered (then r s) =
      descending_key_order-Reordered r ∙ descending_key_order-Reordered s
  descending_key_order-Reordered (array r) = ap arr (descending_items-Reordered r)
  descending_key_order-Reordered (object r) = ap obj (descending_members-Reordered r)

  descending_items-Reordered :
      {xs ys : Items} → ReorderedItems xs ys → descending_items xs ≡ descending_items ys
  descending_items-Reordered no_items = refl
  descending_items-Reordered (item r rs) =
      cc (descending_key_order-Reordered r, descending_items-Reordered rs)

  descending_members-Reordered :
      {ms ns : Members} → ReorderedMembers ms ns → descending_members ms ≡ descending_members ns
  descending_members-Reordered no_members = refl
  descending_members-Reordered (keep k r rs) = elim (Bool-cases (text_eq k proto_key)) [
    | inl dropped ↦ rw dropped (descending_members-Reordered rs)
    | inr stays ↦ rw stays (cc (descending_key_order-Reordered r, descending_members-Reordered rs))
  ]
  descending_members-Reordered (swap {v} {w} {ms} j k d) = elim (Bool-cases (text_eq j proto_key)) [
    | inl dropped ↦ rw dropped refl
    | inr stays ↦ elim (Bool-cases (text_eq k proto_key)) [
      | inl gone ↦ rw (stays, gone) refl
      | inr kept ↦
          rw (stays, kept)
            (insert_descending_comm j k (descending_key_order v) (descending_key_order w)
              (descending_members ms) d)
    ]
  ]
  descending_members-Reordered (also r s) =
      descending_members-Reordered r ∙ descending_members-Reordered s
