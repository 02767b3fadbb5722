-- ===== src/Requests/Headers.antt =====
-- src/delivery/create-customer-http-message-adapter.mjs to src/application/create-customer-pipeline.mjs:
-- which header of a message, and which part of it, becomes which field of the action.
use mathlib.Core.Path.{subst}
use metaframer_kernel.Base.{
  ◌≡◌, refl, ap, ◌∙◌, ℕ, ◌==◌, true, List, none, ok, OnOk, OnOk_elim, >>=-OnOk, require-OnOk,
  type_error, arith,
}
use metaframer_kernel.Text.{Text, codes, text_eq}
use metaframer_kernel.Js.{
  Value, string, ref, Heap, Object, Key, Property, object_prototype, read, own_property,
}
use metaframer_kernel.Js.Shape.{is_ordinary_object, has_exact_keys}
use metaframer_kernel.Identity.{canonical_uuid, canonical_actor, fingerprint_of}
use metaframer_kernel.Pipeline.{Shaped, shape_check, action_spec_keys}
use metaframer_kernel.Pipeline.Commit.{captured_idempotency_key}
use metaframer_kernel.Requests.{placed, copied, build_action_spec}
use metaframer_kernel.Requests.Http.{to_delivery_request, header_value}

abbrev plain_object : List (Key × Property) → Object
plain_object ps = record { proto = object_prototype; elements = none; props = ps }

placed-at : (a : ℕ) (ps : List (Key × Property)) (h : Heap) → placed a ps h a ≡ plain_object ps
placed-at a ps h = let same : (a == a) ≡ true = ground arith in rw same refl

canonical_uuid-string : (v : Value) (t : Text) → canonical_uuid v ≡ ok t → v ≡ string t
unfolding canonical_uuid
canonical_uuid-string (string s) t e = grind arith
canonical_uuid-string v t e = cc

canonical_actor-string : (v : Value) (t : Text) → canonical_actor v ≡ ok t → v ≡ string t
unfolding canonical_actor
canonical_actor-string (string s) t e = grind arith
canonical_actor-string v t e = cc

-- The fields that `shapeCheck` reads in the properties of a spec.
record ReadFrom (sha256_hex : Text → Text) (ps : List (Key × Property)) (s : Shaped) : Type 0 where
  uuid : read (codes "requestId") ps ≡ string s.correlation_id.uuid
  actor : read (codes "actorId") ps ≡ string s.claimed_actor_id
  tenant : read (codes "tenantId") ps ≡ string s.claimed_tenant_id
  key : fingerprint_of sha256_hex (read (codes "idempotencyKey") ps) ≡ ok s.fingerprint
  payload : read (codes "payload") ps ≡ s.payload

shape_check-ReadFrom :
    (sha256_hex : Text → Text) (address : ℕ) (h : Heap) (r : ℕ)
    → OnOk (ReadFrom sha256_hex (h r).props) (shape_check sha256_hex address h (ref r))
unfolding shape_check
shape_check-ReadFrom sha256_hex address h r =
    let ps : List (Key × Property) = (h r).props in
    let Q : Shaped → Type 0 = ReadFrom sha256_hex ps in
    require-OnOk Q (is_ordinary_object h (ref r)) type_error _ λ _.
      require-OnOk Q (has_exact_keys action_spec_keys ps) type_error _ λ _.
        >>=-OnOk Q (canonical_uuid (read (codes "requestId") ps)) _ λ uuid e.
          >>=-OnOk Q (canonical_actor (read (codes "actorId") ps)) _ λ actor f.
            >>=-OnOk Q (canonical_uuid (read (codes "tenantId") ps)) _ λ tenant g.
              >>=-OnOk Q (fingerprint_of sha256_hex (read (codes "idempotencyKey") ps)) _ λ key i.
                record {
                  uuid = canonical_uuid-string (read (codes "requestId") ps) uuid e;
                  actor = canonical_actor-string (read (codes "actorId") ps) actor f;
                  tenant = canonical_uuid-string (read (codes "tenantId") ps) tenant g;
                  key = i;
                  payload = refl;
                }

abbrev Built : ℕ → List (Key × Property) → Heap → Heap × Value → Type 0
Built a ps h p = (p.0 ≡ placed a (copied action_spec_keys ps) h) × (p.1 ≡ ref a)

build_action_spec-Built :
    (a : ℕ) (h : Heap) (r : ℕ) → OnOk (Built a (h r).props h) (build_action_spec a h (ref r))
unfolding build_action_spec
build_action_spec-Built a h r =
    let Q : Heap × Value → Type 0 = Built a (h r).props h in
    require-OnOk Q (is_ordinary_object h (ref r)) type_error _ λ _.
      require-OnOk Q (has_exact_keys action_spec_keys (h r).props) type_error _ λ _. (refl, refl)

captured_at :
    (h : Heap) (r : ℕ) (ps : List (Key × Property))
    → h r ≡ plain_object ps
    → captured_idempotency_key h (ref r) ≡ read (codes "idempotencyKey") ps
unfolding captured_idempotency_key is_ordinary_object
captured_at h r ps e = rw e refl

module _ (lower_case sha256_hex : Text → Text) where
  -- The action is what the headers and the body say: its request id, actor and tenant are the values
  -- of the headers x-request-id, x-actor-id and x-tenant-id, its fingerprint is that of the value of
  -- idempotency-key, and its payload is the body.
  pub record CarriedBy (headers : List (Key × Property)) (body : Value) (s : Shaped) : Type 0 where
    pub request_id :
        header_value lower_case (codes "x-request-id") headers ≡ string s.correlation_id.uuid
    pub actor_id : header_value lower_case (codes "x-actor-id") headers ≡ string s.claimed_actor_id
    pub tenant_id :
        header_value lower_case (codes "x-tenant-id") headers ≡ string s.claimed_tenant_id
    pub fingerprint :
        fingerprint_of sha256_hex (header_value lower_case (codes "idempotency-key") headers)
        ≡ ok s.fingerprint
    pub payload : body ≡ s.payload

  module _ (headers : List (Key × Property)) (body : Value) where
    abbrev spec_props : List (Key × Property)
    spec_props = copied action_spec_keys (to_delivery_request lower_case headers body)

    ReadFrom-CarriedBy : (s : Shaped) → ReadFrom sha256_hex spec_props s → CarriedBy headers body s
    unfolding read own_property text_eq to_delivery_request
    ReadFrom-CarriedBy s r = record {
      request_id = r.uuid;
      actor_id = r.actor;
      tenant_id = r.tenant;
      fingerprint = r.key;
      payload = r.payload;
    }

    read_key :
        read (codes "idempotencyKey") spec_props
        ≡ header_value lower_case (codes "idempotency-key") headers
    unfolding read own_property text_eq to_delivery_request
    read_key = refl

    -- The heap with the request that the adapter makes.
    abbrev with_request : ℕ → Heap → Heap
    with_request a h = placed a (to_delivery_request lower_case headers body) h

    spec_at :
        (at_request at_spec : ℕ) (h g : Heap) (spec : Value)
        → build_action_spec at_spec (with_request at_request h) (ref at_request) ≡ ok (g, spec)
        → (spec ≡ ref at_spec) × (g at_spec ≡ plain_object spec_props)
    spec_at at_request at_spec h g spec built =
        let given : Heap = with_request at_request h in
        let (heap, place) =
          OnOk_elim (Built at_spec (given at_request).props given) _
            (build_action_spec-Built at_spec given at_request) built in
        (
          place,
          ap (λ k. k at_spec) heap
              ∙ placed-at at_spec (copied action_spec_keys (given at_request).props) given
              ∙ ap (λ o. plain_object (copied action_spec_keys o.props))
                  (placed-at at_request (to_delivery_request lower_case headers body) h),
        )

    pub build_action_spec-CarriedBy :
        (address at_request at_spec : ℕ) (h g : Heap) (spec : Value) (s : Shaped)
        → build_action_spec at_spec (with_request at_request h) (ref at_request) ≡ ok (g, spec)
        → shape_check sha256_hex address g spec ≡ ok s
        → CarriedBy headers body s
    build_action_spec-CarriedBy address at_request at_spec h g spec s built shaped =
        let (place, object) = spec_at at_request at_spec h g spec built in
        let shaped_there : shape_check sha256_hex address g (ref at_spec) ≡ ok s =
          subst (λ v. shape_check sha256_hex address g v ≡ ok s) place shaped in
        let fields : ReadFrom sha256_hex (g at_spec).props s =
          OnOk_elim (ReadFrom sha256_hex (g at_spec).props) _
            (shape_check-ReadFrom sha256_hex address g at_spec) shaped_there in
        ReadFrom-CarriedBy s
          (subst (λ ps. ReadFrom sha256_hex ps s) (ap (λ o. o.props) object) fields)

    pub build_action_spec_key :
        (at_request at_spec : ℕ) (h g : Heap) (spec : Value)
        → build_action_spec at_spec (with_request at_request h) (ref at_request) ≡ ok (g, spec)
        → captured_idempotency_key g spec
          ≡ header_value lower_case (codes "idempotency-key") headers
    build_action_spec_key at_request at_spec h g spec built =
        let (place, object) = spec_at at_request at_spec h g spec built in
        ap (captured_idempotency_key g) place ∙ captured_at g at_spec spec_props object ∙ read_key
