-- ===== src/Requests.antt =====
-- src/delivery/create-customer-request-handler.mjs, with the action spec of
-- src/sdk/create-customer.mjs: from a request to a response with its status.
pub mod Http
pub mod Headers
pub mod Committed
use metaframer_kernel.Base.{
  ℕ, Bool, true, false, List, [], ◌∷◌, ◌==◌, none, Outcome, ok, err, type_error, ◌>>=◌, ◌>>◌,
  require, if◌then◌else◌, Fault, foreign, adapter, idempotency_conflict,
}
use metaframer_kernel.Base.Effects.{Eff}
use metaframer_kernel.Text.{Text, codes}
use metaframer_kernel.Js.{
  Value, ref, Heap, Key, Property, Object, name, holds, object_prototype, read,
}
use metaframer_kernel.Js.Shape.{is_ordinary_object, has_exact_keys}
use metaframer_kernel.Pipeline.{
  Kind, invalid, denied, cross_tenant, ErrorCode, action_spec_keys, raw_request_id_of,
}
use metaframer_kernel.Pipeline.Commit.{ServiceOutcome, not_committed, committed}

-- A member of an object literal, and a literal placed at a new address.
abbrev pub own : Text → Value → Key × Property
own k v = (name k, record { content = holds v; enumerable = true })

abbrev pub placed : ℕ → List (Key × Property) → Heap → Heap
placed address ps h r =
    if r == address then record { proto = object_prototype; elements = none; props = ps } else h r

abbrev pub copied : List Text → List (Key × Property) → List (Key × Property)
copied [] ps = []
copied (k ∷ ks) ps = own k (read k ps) ∷ copied ks ps

-- `buildCreateCustomerActionSpec(input)`: the new object stands at `address`.
unfoldable pub build_action_spec : ℕ → Heap → Value → Outcome (Heap × Value)
unfolding is_ordinary_object has_exact_keys read
build_action_spec address h (ref r) = do
  require (is_ordinary_object h (ref r)) type_error
  require (has_exact_keys action_spec_keys (h r).props) type_error
  ok (placed address (copied action_spec_keys (h r).props) h, ref address)
build_action_spec address h _ = err type_error

-- The body of a response: the receipt of a commit, the error of a refusal, or one of the handler's
-- own two errors.
pub data Body : Type 0 where
  commit_receipt : Value → Body
  refusal : ErrorCode → Body
  idempotency_conflicted spec_invalid : Body

pub record DeliveryResponse : Type 0 where
  pub status : ℕ
  pub request_id : Text
  pub body : Body

-- `isIdempotencyConflictError(error)`; `foreign_conflict` tells which errors of a collaborator carry
-- the name and the code.
unfoldable pub is_conflict_error : (ℕ → Bool) → Fault → Bool
is_conflict_error foreign_conflict (adapter (idempotency_conflict tenant_id fingerprint)) = true
is_conflict_error foreign_conflict (foreign n) = foreign_conflict n
is_conflict_error foreign_conflict _ = false

abbrev pub refusal_status : Kind → ℕ
refusal_status invalid = 400
refusal_status denied = 403
refusal_status cross_tenant = 403

-- The response to what the service answered.
unfoldable pub response_of : ServiceOutcome → DeliveryResponse
response_of (committed id receipt) = record {
  status = 201;
  request_id = id;
  body = commit_receipt receipt;
}
response_of (not_committed kind code id) = record {
  status = refusal_status kind;
  request_id = id;
  body = refusal code;
}

unfoldable pub conflict_response : Text → DeliveryResponse
conflict_response id = record { status = 409; request_id = id; body = idempotency_conflicted }

unfoldable pub invalid_response : Text → DeliveryResponse
invalid_response id = record { status = 400; request_id = id; body = spec_invalid }

module _ {W : Type 0} (foreign_conflict : ℕ → Bool)
    (service : Heap → Value → Eff W ServiceOutcome) where
  -- After the service has settled.
  unfoldable pub settled_response : Text → Outcome ServiceOutcome × W → Outcome DeliveryResponse × W
  unfolding is_conflict_error response_of conflict_response
  settled_response id (ok o, w) = (ok (response_of o), w)
  settled_response id (err e, w) =
      if is_conflict_error foreign_conflict e then (ok (conflict_response id), w) else (err e, w)

  unfoldable pub handle_spec : Text → Outcome (Heap × Value) → Eff W DeliveryResponse
  unfolding settled_response invalid_response
  handle_spec id (err e) w = (ok (invalid_response id), w)
  handle_spec id (ok spec) w = settled_response id (service spec.0 spec.1 w)

  -- `CreateCustomerRequestHandler.handle`
  unfoldable pub handle_request : ℕ → Heap → Value → Eff W DeliveryResponse
  unfolding handle_spec build_action_spec raw_request_id_of
  handle_request address h request =
      handle_spec (raw_request_id_of h request) (build_action_spec address h request)
