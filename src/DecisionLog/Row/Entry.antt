-- ===== src/DecisionLog/Row/Entry.antt =====
-- The rows that `PostgresDecisionLogAdapter.append` writes, and the rows that it accepts: one that
-- holds an entry verifies, and two that share a hash hold the same entry.
use metaframer_kernel.Base.{
  ◌≡◌, refl, sym, ◌∙◌, Bool, true, false, Option, none, some, ok, err, type_error, ◌>>=◌, OnOk,
  OnOk_elim, >>=-OnOk, require-OnOk, ◌==◌, Bool-cases, inl, inr, range_error, if◌then◌else◌,
}
use metaframer_kernel.Text.{Text, codes, text_eq, text_eq_iff}
use metaframer_kernel.Text.Forms.{ulid_form, uuid_form, hex64_form, matches_shape}
use metaframer_kernel.Clock.{reading_shape}
use metaframer_kernel.Js.{Value, string}
use metaframer_kernel.Canonical.{Json, obj, str, Members, end, member}
use metaframer_kernel.Policy.Types.{Layer}
use metaframer_kernel.DecisionLog.{
  LogEntry, EntryOptions, decision_log_entry, plain_payload, descending_key_order, text_or_null,
  layer_text, layer_or_null, ulid_value, timestamp_value, prev_hash_value, effect_text, instance_of,
  layer_resolved_value,
}
use metaframer_kernel.DecisionLog.Order.{Reordered, descending_key_order_idem}
use metaframer_kernel.DecisionLog.Row.{
  Datum, demand_json_shape, AppendReceipt, verify_row, verify_columns, demand_members, demand_text,
  demand_nullable, any_text, read_payload, read_actor, canonical_payload, bind_row, row_keys, field,
  has_exactly, same_nullable, payload_keys, Payload,
}
use metaframer_kernel.DecisionLog.Row.Stored.{verify_json-Reordered}

-- `INSERT INTO policy_decision_log (id, tenant_id, entry_hash, prev_hash, payload) …`
unfoldable pub columns_of : LogEntry → Members
unfolding plain_payload
columns_of e = member (codes "id") (str e.id) (
    member (codes "tenant_id") (str e.request.action.principal.tenant_id) (
      member (codes "entry_hash") (str e.entry_hash) (
        member (codes "prev_hash") (text_or_null e.prev_hash)
          (member (codes "payload") (plain_payload e) end))))

abbrev pub receipt_of : LogEntry → AppendReceipt
receipt_of e = record {
  entry_id = e.id;
  tenant_id = e.request.action.principal.tenant_id;
  entry_hash = e.entry_hash;
  prev_hash = e.prev_hash;
}

abbrev pub IsHash : Option Text → Type 0
IsHash none = Unit
IsHash (some s) = hex64_form s ≡ true

module _ (sha256_of : Json → Text) where
  -- What the constructor has checked of an entry.
  pub record IsEntry (e : LogEntry) : Type 0 where
    pub id_form : ulid_form e.id ≡ true
    pub ts_form : matches_shape reading_shape e.ts ≡ true
    pub prev_form : IsHash e.prev_hash
    pub hashed : e.entry_hash ≡ sha256_of (plain_payload e)

  id-OnOk : (v : Value) → OnOk (λ s. ulid_form s ≡ true) (ulid_value v)
  unfolding ulid_value
  id-OnOk (string s) = elim (Bool-cases (ulid_form s)) [ inl p ↦ rw p p | inr p ↦ rw p tt ]
  id-OnOk v = tt

  ts-OnOk : (v : Value) → OnOk (λ s. matches_shape reading_shape s ≡ true) (timestamp_value v)
  unfolding timestamp_value
  ts-OnOk (string s) = elim (Bool-cases (matches_shape reading_shape s)) [
    | inl p ↦ rw p (real_or_not _ p)
    | inr p ↦ rw p tt
  ]
    where
      real_or_not :
          (b : Bool)
          → matches_shape reading_shape s ≡ true
          → OnOk (λ s. matches_shape reading_shape s ≡ true) (if b then ok s else err range_error)
      real_or_not true p = p
      real_or_not false p = tt
  ts-OnOk v = tt

  prev-OnOk : (v : Value) → OnOk IsHash (prev_hash_value v)
  unfolding prev_hash_value
  prev-OnOk Value.null = tt
  prev-OnOk (string s) = elim (Bool-cases (hex64_form s)) [ inl p ↦ rw p p | inr p ↦ rw p tt ]
  prev-OnOk v = tt

  decision_log_entry-OnOk : (o : EntryOptions) → OnOk IsEntry (decision_log_entry sha256_of o)
  unfolding decision_log_entry plain_payload
  decision_log_entry-OnOk o = >>=-OnOk IsEntry (ulid_value o.id) _ λ id i.
      >>=-OnOk IsEntry (instance_of o.request) _ λ r _.
        >>=-OnOk IsEntry (instance_of o.decision) _ λ d _.
          require-OnOk IsEntry (d.trace_id.address == r.action.correlation_id.address) type_error _
            λ _. >>=-OnOk IsEntry (layer_resolved_value o.layer_resolved d) _ λ l _.
              >>=-OnOk IsEntry (timestamp_value o.ts) _ λ t j.
                >>=-OnOk IsEntry (prev_hash_value o.prev_hash) _ λ p k. record {
                  id_form = OnOk_elim (λ s. ulid_form s ≡ true) _ (id-OnOk o.id) i;
                  ts_form =
                      OnOk_elim (λ s. matches_shape reading_shape s ≡ true) _ (ts-OnOk o.ts) j;
                  prev_form = OnOk_elim IsHash _ (prev-OnOk o.prev_hash) k;
                  hashed = refl;
                }

demand_nullable-of_text : (o : Option Text) → demand_nullable any_text (text_or_null o) ≡ ok o
unfolding demand_nullable
demand_nullable-of_text none = refl
demand_nullable-of_text (some s) = refl

demand_nullable-of_hash :
    (o : Option Text) → IsHash o → demand_nullable hex64_form (text_or_null o) ≡ ok o
unfolding demand_nullable
demand_nullable-of_hash none h = refl
demand_nullable-of_hash (some s) h = rw h refl

demand_text-of_form :
    (form : Text → Bool) (s : Text) → form s ≡ true → demand_text form (str s) ≡ ok s
unfolding demand_text
demand_text-of_form form s h = rw h refl

abbrev layer_name : Option Layer → Option Text
layer_name none = none
layer_name (some l) = some (layer_text l)

layer_or_null_eq : (o : Option Layer) → layer_or_null o ≡ text_or_null (layer_name o)
layer_or_null_eq none = refl
layer_or_null_eq (some l) = refl

text_eq_refl : (s : Text) → text_eq s s ≡ true
text_eq_refl s = (text_eq_iff s s).1 refl

same_nullable_refl : (o : Option Text) → same_nullable o o ≡ true
unfolding same_nullable
same_nullable_refl none = refl
same_nullable_refl (some s) = text_eq_refl s

verify_columns-of_parts :
    (sha256_of : Json → Text) (row : Members) (r : AppendReceipt) (p : Payload)
    → demand_text ulid_form (field (codes "id") row) ≡ ok r.entry_id
    → demand_text uuid_form (field (codes "tenant_id") row) ≡ ok r.tenant_id
    → demand_text hex64_form (field (codes "entry_hash") row) ≡ ok r.entry_hash
    → demand_nullable hex64_form (field (codes "prev_hash") row) ≡ ok r.prev_hash
    → demand_members payload_keys (field (codes "payload") row) >>= read_payload ≡ ok p
    → verify_columns sha256_of row ≡ bind_row sha256_of r p
unfolding verify_columns
verify_columns-of_parts sha256_of row r p i t h q y = rw (i, t, h, q, y) refl

-- The payload that a row of the entry is read as.
unfoldable payload_of : LogEntry → Payload
payload_of e = record {
  id = e.id;
  actor = (e.request.action.principal.tenant_id, e.request.action.principal.actor_id);
  action = e.request.action.name;
  resource = descending_key_order e.request.resource;
  context = descending_key_order e.request.context;
  decision = effect_text e.decision.effect;
  reason = e.decision.reason;
  matched_policy_id = e.decision.matched_policy_id;
  layer_resolved = layer_name e.layer_resolved;
  trace_id = e.decision.trace_id.uuid;
  ts = e.ts;
  prev_hash = e.prev_hash;
}

canonical_payload-payload_of : (e : LogEntry) → canonical_payload (payload_of e) ≡ plain_payload e
unfolding canonical_payload plain_payload payload_of
canonical_payload-payload_of e = rw (layer_or_null_eq e.layer_resolved) refl

module _ (sha256_of : Json → Text) (e : LogEntry) (h : IsEntry sha256_of e)
    (tenant : uuid_form e.request.action.principal.tenant_id ≡ true)
    (trace : uuid_form e.decision.trace_id.uuid ≡ true)
    (hash : hex64_form e.entry_hash ≡ true) where
  read_plain_payload :
      demand_members payload_keys (plain_payload e) >>= read_payload ≡ ok (payload_of e)
  unfolding plain_payload payload_of demand_members has_exactly text_eq read_payload field
      read_actor demand_text
  read_plain_payload = simp (
    h.id_form,
    h.ts_form,
    tenant,
    trace,
    layer_or_null_eq e.layer_resolved,
    demand_nullable-of_text,
    demand_nullable-of_hash e.prev_hash h.prev_form,
    descending_key_order_idem,
  )

  bind_row-payload_of : bind_row sha256_of (receipt_of e) (payload_of e) ≡ ok (receipt_of e)
  unfolding bind_row payload_of
  bind_row-payload_of =
      let rehashed : sha256_of (canonical_payload (payload_of e)) ≡ e.entry_hash =
        cc (canonical_payload-payload_of e, h.hashed) in
      simp (rehashed, text_eq_refl, same_nullable_refl)

  verify_columns-columns_of : verify_columns sha256_of (columns_of e) ≡ ok (receipt_of e)
  unfolding columns_of text_eq field
  verify_columns-columns_of =
      verify_columns-of_parts sha256_of (columns_of e) (receipt_of e) (payload_of e)
        (demand_text-of_form ulid_form e.id h.id_form) (demand_text-of_form uuid_form _ tenant)
        (demand_text-of_form hex64_form e.entry_hash hash)
        (demand_nullable-of_hash e.prev_hash h.prev_form) read_plain_payload
      ∙ bind_row-payload_of

-- The row of an entry, its objects' members in any order at any depth, verifies and answers the
-- entry's own receipt. The entry is one that the constructor made; the identities of its principal
-- and its trace are UUIDs, and the digest is 64 hexadecimal digits.
pub verify_row-decision_log_entry :
    (sha256_of : Json → Text) (o : EntryOptions) (e : LogEntry) (d : Datum) (row : Json)
    → decision_log_entry sha256_of o ≡ ok e
    → uuid_form e.request.action.principal.tenant_id ≡ true
    → uuid_form e.decision.trace_id.uuid ≡ true
    → hex64_form e.entry_hash ≡ true
    → demand_json_shape d ≡ ok row
    → Reordered (obj (columns_of e)) row
    → verify_row sha256_of d ≡ ok (receipt_of e)
unfolding verify_row demand_members has_exactly text_eq columns_of
verify_row-decision_log_entry sha256_of o e d row made tenant trace hash shaped r =
    let h : IsEntry sha256_of e =
      OnOk_elim (IsEntry sha256_of) _ (decision_log_entry-OnOk sha256_of o) made in
    let same : demand_members row_keys row >>= verify_columns sha256_of
        ≡ demand_members row_keys (obj (columns_of e)) >>= verify_columns sha256_of =
      sym (verify_json-Reordered sha256_of r) in
    rw (shaped) (same ∙ verify_columns-columns_of sha256_of e h tenant trace hash)
