-- ===== src/Requests/Committed.antt =====
-- src/delivery/create-customer-http-message-adapter.mjs over create-customer-request-handler.mjs over
-- src/application/create-customer-commit-service.mjs: what a message that is answered as created
-- has been through.
use metaframer_kernel.Base.{◌≡◌, ℕ, Bool, true, List, Outcome, ok}
use metaframer_kernel.Base.Effects.{Eff}
use metaframer_kernel.Text.{Text, codes}
use metaframer_kernel.Js.{Value, string, ref, Heap, Key, Property, read}
use metaframer_kernel.Pipeline.{Stage, Shaped, shape_check, ChangeSet}
use metaframer_kernel.Pipeline.Stages.{Passed}
use metaframer_kernel.Pipeline.Commit.{CommitContext, ServiceOutcome, committed, handle}
use metaframer_kernel.Requests.{placed, DeliveryResponse, commit_receipt, handle_request}
use metaframer_kernel.Requests.Headers.{CarriedBy}
use metaframer_kernel.Requests.Http.{
  is_spelled, is_valid_message_shape, HttpResponse, to_http_response, properties_of,
  to_delivery_request, handle_message, header_value,
}

abbrev pub created : Text → Value → DeliveryResponse
created id receipt = record { status = 201; request_id = id; body = commit_receipt receipt }

-- The service answered a commit, and the response is made of it.
abbrev Created : {W : Type 0} → Outcome ServiceOutcome × W → W → DeliveryResponse → Type 0
Created r v d =
    (id : Text) × (receipt : Value) × (r ≡ (ok (committed id receipt), v))
    × (d ≡ created id receipt)

abbrev pub method_of : List (Key × Property) → Value
method_of ps = read (codes "method") ps

abbrev pub path_of : List (Key × Property) → Value
path_of ps = read (codes "path") ps

-- The request that the adapter makes of a message, placed at `address`.
abbrev pub request_heap : (Text → Text) → ℕ → Heap → List (Key × Property) → Heap
request_heap lower_case address h ps =
    placed address
      (to_delivery_request lower_case (properties_of h (read (codes "headers") ps))
        (read (codes "body") ps))
      h

module _ {W : Type 0} (lower_case : Text → Text)
    (handler : Heap → Value → Eff W DeliveryResponse) where
  abbrev request_id : Heap → List (Key × Property) → Value
  request_id h ps =
      header_value lower_case (codes "x-request-id") (properties_of h (read (codes "headers") ps))

  -- The message came from a client that posted to the one path, and the handler's answer is the
  -- adapter's.
  abbrev Posted : ℕ → Heap → List (Key × Property) → W → HttpResponse → W → Type 0
  Posted address h ps w x v =
      (is_spelled (codes "POST") (method_of ps) ≡ true)
      × (is_spelled (codes "/customers") (path_of ps) ≡ true)
      × (d : DeliveryResponse) × (handler (request_heap lower_case address h ps) (ref address) w
          ≡ (ok d, v))
      × (x ≡ to_http_response d)

module _ {W : Type 0} (lower_case : Text → Text) (foreign_conflict : ℕ → Bool)
    (sha256_hex : Text → Text) (stage : Stage W) (commit : ChangeSet → CommitContext → Eff W Value)
    (at_request at_spec at_correlation : ℕ) where
  -- The adapter over the handler over the commit service.
  abbrev pub serve : Heap → Value → Eff W HttpResponse
  serve h message =
      handle_message lower_case
        (handle_request foreign_conflict (handle stage commit sha256_hex at_correlation) at_spec)
        at_request h message

  -- What the commit was given, and by whom: an action that the headers and the body carry, past
  -- every stage, under the key of the header.
  abbrev pub CommittedBy :
      List (Key × Property) → Value → Heap → Value → W → W → Text → Value → Type 0
  CommittedBy headers body g spec w v id receipt =
      (s : Shaped) × (cs : ChangeSet) × (u : W) × (shape_check sha256_hex at_correlation g spec
        ≡ ok s)
      × CarriedBy lower_case sha256_hex headers body s
      × Passed stage s w u cs
      × (commit cs
            (record {
              request_id = id;
              tenant_id = s.claimed_tenant_id;
              idempotency_key = header_value lower_case (codes "idempotency-key") headers;
            })
            u
          ≡ (ok receipt, v))

  abbrev pub headers_of : Heap → Value → List (Key × Property)
  headers_of h message = properties_of h (read (codes "headers") (properties_of h message))

  abbrev pub body_of : Heap → Value → Value
  body_of h message = read (codes "body") (properties_of h message)

  -- The message and the commit that a response stands for.
  abbrev pub CreatedFrom : Heap → Value → W → W → HttpResponse → Type 0
  CreatedFrom h message w v x =
      (g : Heap) × (spec : Value) × (id : Text) × (receipt : Value) × (is_valid_message_shape h
          message
        ≡ true)
      × (method_of (properties_of h message) ≡ string (codes "POST"))
      × (path_of (properties_of h message) ≡ string (codes "/customers"))
      × CommittedBy (headers_of h message) (body_of h message) g spec w v id receipt
      × (x ≡ to_http_response (created id receipt))
