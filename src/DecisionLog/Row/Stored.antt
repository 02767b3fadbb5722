-- ===== src/DecisionLog/Row/Stored.antt =====
-- What src/adapters/postgres-decision-log-adapter.mjs verifies of a row: rows whose objects lost
-- their order, the rows of entries, and the rows that share a hash.
use metaframer_kernel.Base.{
  ◌≡◌, refl, ap, sym, ◌∙◌, Bool, true, false, ◌||◌, List, [], ◌∷◌, Outcome, ok, ◌>>=◌, length, all,
  any, Bool-cases, inl, inr,
}
use metaframer_kernel.Text.{Text, codes, text_eq, text_eq_iff}
use metaframer_kernel.Text.Forms.{ulid_form, uuid_form, hex64_form, matches_shape}
use metaframer_kernel.Clock.{reading_shape}
use metaframer_kernel.Canonical.{Json, Members, end, member}
use metaframer_kernel.Canonical.Bounds.{member_keys}
use metaframer_kernel.DecisionLog.{descending_key_order}
use metaframer_kernel.DecisionLog.Order.{
  Reordered, unchanged, then, array, object, ReorderedMembers, no_members, keep, swap, also,
  descending_key_order-Reordered,
}
use metaframer_kernel.DecisionLog.Row.{
  Datum, demand_json_shape, has_exactly, demand_members, field, demand_text, demand_nullable,
  read_actor, read_payload, verify_columns, verify_row, any_text, actor_keys, payload_keys,
  row_keys,
}

pub ReorderedMembers-refl : (ms : Members) → ReorderedMembers ms ms
ReorderedMembers-refl end = no_members
ReorderedMembers-refl (member k v ms) = keep k unchanged (ReorderedMembers-refl ms)

-- The same member under a key.
pub field-Reordered :
    {ms ns : Members} (k : Text) → ReorderedMembers ms ns → Reordered (field k ms) (field k ns)
unfolding field
field-Reordered k no_members = unchanged
field-Reordered k (keep j r rs) = elim (Bool-cases (text_eq j k)) [
  | inl e ↦ rw e r
  | inr e ↦ rw e (field-Reordered k rs)
]
field-Reordered k (also r s) = then (field-Reordered k r) (field-Reordered k s)
field-Reordered k (swap {v} {w} {ms} i j d) = elim (Bool-cases (text_eq i k)) [
  | inl e ↦ elim (Bool-cases (text_eq j k)) [
    | inl f ↦ absurd (d ((text_eq_iff i k).0 e ∙ sym ((text_eq_iff j k).0 f)))
    | inr f ↦ rw (e, f) unchanged
  ]
  | inr e ↦ rw e unchanged
]

-- As many keys, and each key among them or not.
length-Reordered :
    {ms ns : Members} → ReorderedMembers ms ns → length (member_keys ms) ≡ length (member_keys ns)
length-Reordered no_members = refl
length-Reordered (keep k r rs) = cc (length-Reordered rs)
length-Reordered (swap j k d) = refl
length-Reordered (also r s) = length-Reordered r ∙ length-Reordered s

or_swap : (a b c : Bool) → (a || (b || c)) ≡ (b || (a || c))
or_swap true true c = refl
or_swap true false c = refl
or_swap false b c = refl

any-Reordered :
    {ms ns : Members} (p : Text → Bool)
    → ReorderedMembers ms ns
    → any p (member_keys ms) ≡ any p (member_keys ns)
any-Reordered p no_members = refl
any-Reordered p (keep k r rs) = ap (λ b. p k || b) (any-Reordered p rs)
any-Reordered p (swap {v} {w} {ms} j k d) = or_swap (p j) (p k) (any p (member_keys ms))
any-Reordered p (also r s) = any-Reordered p r ∙ any-Reordered p s

all_ext : (p q : Text → Bool) (ks : List Text) → ((k : Text) → p k ≡ q k) → all p ks ≡ all q ks
all_ext p q [] h = refl
all_ext p q (k ∷ ks) h = cc (h k, all_ext p q ks h)

has_exactly-Reordered :
    {ms ns : Members} (keys : List Text)
    → ReorderedMembers ms ns
    → has_exactly keys (member_keys ms) ≡ has_exactly keys (member_keys ns)
unfolding has_exactly
has_exactly-Reordered {ms} {ns} keys r =
    let count : length (member_keys ms) ≡ length (member_keys ns) = length-Reordered r in
    rw
      (
        count,
        all_ext (λ k. any (λ g. text_eq g k) (member_keys ms))
            (λ k. any (λ g. text_eq g k) (member_keys ns)) keys
            (λ k. any-Reordered (λ g. text_eq g k) r),
      )
      refl

-- A demand of an object's members goes on in the same way, if what follows does.
demand_members-Reordered :
    {A : Type 0} {i j : Json} (keys : List Text) (f : Members → Outcome A)
    → ((ms ns : Members) → ReorderedMembers ms ns → f ms ≡ f ns)
    → Reordered i j
    → demand_members keys i >>= f ≡ demand_members keys j >>= f
unfolding demand_members
demand_members-Reordered keys f h unchanged = refl
demand_members-Reordered keys f h (then r s) =
    demand_members-Reordered keys f h r ∙ demand_members-Reordered keys f h s
demand_members-Reordered keys f h (array r) = refl
demand_members-Reordered keys f h (object {ms} {ns} r) =
    let same : has_exactly keys (member_keys ms) ≡ has_exactly keys (member_keys ns) =
      has_exactly-Reordered keys r in
    elim (Bool-cases (has_exactly keys (member_keys ns))) [
      | inl e ↦ rw (same, e) (h ms ns r)
      | inr e ↦ rw (same, e) refl
    ]

demand_text-Reordered :
    {i j : Json} (form : Text → Bool) → Reordered i j → demand_text form i ≡ demand_text form j
unfolding demand_text
demand_text-Reordered form unchanged = refl
demand_text-Reordered form (then r s) = demand_text-Reordered form r ∙ demand_text-Reordered form s
demand_text-Reordered form (array r) = refl
demand_text-Reordered form (object r) = refl

demand_nullable-Reordered :
    {i j : Json} (form : Text → Bool)
    → Reordered i j
    → demand_nullable form i ≡ demand_nullable form j
unfolding demand_nullable
demand_nullable-Reordered form unchanged = refl
demand_nullable-Reordered form (then r s) =
    demand_nullable-Reordered form r ∙ demand_nullable-Reordered form s
demand_nullable-Reordered form (array r) = refl
demand_nullable-Reordered form (object r) = refl

module _ {ms ns : Members} (r : ReorderedMembers ms ns) where
  text_at :
      (form : Text → Bool) (k : Text)
      → demand_text form (field k ms) ≡ demand_text form (field k ns)
  text_at form k = demand_text-Reordered form (field-Reordered k r)

  nullable_at :
      (form : Text → Bool) (k : Text)
      → demand_nullable form (field k ms) ≡ demand_nullable form (field k ns)
  nullable_at form k = demand_nullable-Reordered form (field-Reordered k r)

  ordered_at : (k : Text) → descending_key_order (field k ms) ≡ descending_key_order (field k ns)
  ordered_at k = descending_key_order-Reordered (field-Reordered k r)

read_actor-Reordered : (ms ns : Members) → ReorderedMembers ms ns → read_actor ms ≡ read_actor ns
unfolding read_actor
read_actor-Reordered ms ns r =
    rw (text_at r uuid_form (codes "tenantId"), text_at r any_text (codes "actorId")) refl

actor_at :
    {ms ns : Members} (r : ReorderedMembers ms ns) (k : Text)
    → demand_members actor_keys (field k ms) >>= read_actor
      ≡ demand_members actor_keys (field k ns) >>= read_actor
actor_at r k =
    demand_members-Reordered actor_keys read_actor read_actor-Reordered (field-Reordered k r)

read_payload-Reordered :
    (ms ns : Members) → ReorderedMembers ms ns → read_payload ms ≡ read_payload ns
unfolding read_payload
read_payload-Reordered ms ns r =
    rw
      (
        text_at r ulid_form (codes "id"),
        actor_at r (codes "requestActor"),
        text_at r any_text (codes "requestAction"),
        ordered_at r (codes "requestResource"),
        ordered_at r (codes "requestContext"),
        text_at r any_text (codes "decision"),
        text_at r any_text (codes "reason"),
        nullable_at r any_text (codes "matchedPolicyId"),
        nullable_at r any_text (codes "layerResolved"),
        text_at r uuid_form (codes "traceId"),
        text_at r (matches_shape reading_shape) (codes "ts"),
        nullable_at r hex64_form (codes "prevHash"),
      )
      refl

payload_at :
    {ms ns : Members} (r : ReorderedMembers ms ns) (k : Text)
    → demand_members payload_keys (field k ms) >>= read_payload
      ≡ demand_members payload_keys (field k ns) >>= read_payload
payload_at r k =
    demand_members-Reordered payload_keys read_payload read_payload-Reordered (field-Reordered k r)

module _ (sha256_of : Json → Text) where
  verify_columns-Reordered :
      (ms ns : Members)
      → ReorderedMembers ms ns
      → verify_columns sha256_of ms ≡ verify_columns sha256_of ns
  unfolding verify_columns
  verify_columns-Reordered ms ns r =
      rw
        (
          text_at r ulid_form (codes "id"),
          text_at r uuid_form (codes "tenant_id"),
          text_at r hex64_form (codes "entry_hash"),
          nullable_at r hex64_form (codes "prev_hash"),
          payload_at r (codes "payload"),
        )
        refl

  pub verify_json-Reordered :
      {i j : Json}
      → Reordered i j
      → demand_members row_keys i >>= verify_columns sha256_of
        ≡ demand_members row_keys j >>= verify_columns sha256_of
  verify_json-Reordered r =
      demand_members-Reordered row_keys (verify_columns sha256_of) verify_columns-Reordered r

  -- Two rows that hold the same members, at every depth in some other order, verify alike: both
  -- are refused, or both answer the same receipt.
  pub verify_row-Reordered :
      (d e : Datum) (i j : Json)
      → demand_json_shape d ≡ ok i
      → demand_json_shape e ≡ ok j
      → Reordered i j
      → verify_row sha256_of d ≡ verify_row sha256_of e
  unfolding verify_row
  verify_row-Reordered d e i j p q r = rw (p, q) (verify_json-Reordered r)
