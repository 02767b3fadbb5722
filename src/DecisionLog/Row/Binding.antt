-- ===== src/DecisionLog/Row/Binding.antt =====
-- What an accepted row binds: src/adapters/postgres-decision-log-adapter.mjs answers a receipt only
-- for columns that agree with the payload whose digest they carry.
use metaframer_kernel.Base.{
  ◌≡◌, refl, true, Option, none, some, Outcome, ok, ◌>>=◌, OnOk, OnOk_elim, OnOk-mono, >>=-OnOk,
  require-OnOk,
}
use metaframer_kernel.Text.{Text, codes, text_eq, text_eq_iff}
use metaframer_kernel.Text.Forms.{ulid_form, uuid_form, hex64_form}
use metaframer_kernel.Canonical.{Json, Members}
use metaframer_kernel.DecisionLog.Row.{
  Datum, demand_json_shape, AppendReceipt, verify_row, verify_columns, demand_members, demand_text,
  demand_nullable, read_payload, canonical_payload, bind_row, row_keys, field, same_nullable,
  payload_keys, Payload, integrity,
}

-- The payload that the check reads in a row.
abbrev pub payload_column : Members → Outcome Payload
payload_column row = demand_members payload_keys (field (codes "payload") row) >>= read_payload

abbrev pub payload_in : Datum → Outcome Payload
payload_in d = demand_json_shape d >>= λ j. demand_members row_keys j >>= payload_column

-- A receipt and a payload that belong together.
pub record Binds (sha256_of : Json → Text) (r : AppendReceipt) (p : Payload) : Type 0 where
  pub same_id : p.id ≡ r.entry_id
  pub same_tenant : p.actor.0 ≡ r.tenant_id
  pub same_prev : p.prev_hash ≡ r.prev_hash
  pub same_hash : sha256_of (canonical_payload p) ≡ r.entry_hash

same_nullable_eq : (a b : Option Text) → same_nullable a b ≡ true → a ≡ b
unfolding same_nullable
same_nullable_eq none none h = refl
same_nullable_eq none (some t) h = cc
same_nullable_eq (some s) none h = cc
same_nullable_eq (some s) (some t) h = let same : s ≡ t = (text_eq_iff s t).0 h in cc

module _ (sha256_of : Json → Text) where
  abbrev Bound : Outcome Payload → AppendReceipt → Type 0
  Bound found r = (p : Payload) × (found ≡ ok p) × Binds sha256_of r p

  bind_row-OnOk :
      (c : AppendReceipt) (p : Payload) → OnOk (λ r. Binds sha256_of r p) (bind_row sha256_of c p)
  unfolding bind_row
  bind_row-OnOk c p =
      let Q : AppendReceipt → Type 0 = λ r. Binds sha256_of r p in
      require-OnOk Q (text_eq p.id c.entry_id) integrity _ λ i.
        require-OnOk Q (text_eq p.actor.0 c.tenant_id) integrity _ λ t.
          require-OnOk Q (same_nullable p.prev_hash c.prev_hash) integrity _ λ q.
            require-OnOk Q (text_eq (sha256_of (canonical_payload p)) c.entry_hash) integrity _ λ h.
              record {
                same_id = (text_eq_iff p.id c.entry_id).0 i;
                same_tenant = (text_eq_iff p.actor.0 c.tenant_id).0 t;
                same_prev = same_nullable_eq p.prev_hash c.prev_hash q;
                same_hash = (text_eq_iff (sha256_of (canonical_payload p)) c.entry_hash).0 h;
              }

  verify_columns-OnOk :
      (row : Members) → OnOk (Bound (payload_column row)) (verify_columns sha256_of row)
  unfolding verify_columns
  verify_columns-OnOk row =
      let Q : AppendReceipt → Type 0 = Bound (payload_column row) in
      >>=-OnOk Q (demand_text ulid_form (field (codes "id") row)) _ λ i _.
        >>=-OnOk Q (demand_text uuid_form (field (codes "tenant_id") row)) _ λ t _.
          >>=-OnOk Q (demand_text hex64_form (field (codes "entry_hash") row)) _ λ h _.
            >>=-OnOk Q (demand_nullable hex64_form (field (codes "prev_hash") row)) _ λ q _.
              >>=-OnOk Q (payload_column row) _ λ p found.
                OnOk-mono (λ r. Binds sha256_of r p) Q (bind_row sha256_of _ p) (bind_row-OnOk _ p)
                  λ r b. (p, found, b)

  verify_row-OnOk : (d : Datum) → OnOk (Bound (payload_in d)) (verify_row sha256_of d)
  unfolding verify_row
  verify_row-OnOk d =
      let Q : AppendReceipt → Type 0 = Bound (payload_in d) in
      >>=-OnOk Q (demand_json_shape d) _
        λ j e. >>=-OnOk Q (demand_members row_keys j) _ λ ms f. rw (e, f) (verify_columns-OnOk ms)

  -- A row that verifies holds a payload that its receipt binds: the same id, tenant and
  -- predecessor, and the digest of the canonical payload is the hash of the receipt.
  pub verify_row-Binds :
      (d : Datum) (r : AppendReceipt)
      → verify_row sha256_of d ≡ ok r
      → (p : Payload) × (payload_in d ≡ ok p) × Binds sha256_of r p
  verify_row-Binds d r e = OnOk_elim (Bound (payload_in d)) _ (verify_row-OnOk d) e
