-- ===== src/Requests/Http.antt =====
-- src/delivery/create-customer-http-message-adapter.mjs: HTTP messages to requests, and back.
use metaframer_kernel.Base.{
  ℕ, Bool, true, false, ◌&&◌, not, Option, none, some, List, [], ◌∷◌, ok, if◌then◌else◌,
}
use metaframer_kernel.Base.Effects.{Eff, mapped}
use metaframer_kernel.Text.{Text, codes, text_eq}
use metaframer_kernel.Js.{
  Value, undefined, string, ref, Heap, Key, Property, name, sym, holds, accessor, read,
}
use metaframer_kernel.Js.Shape.{is_ordinary_object, has_exact_keys}
use metaframer_kernel.Requests.{own, placed, Body, DeliveryResponse}

abbrev pub message_keys : List Text
message_keys = codes "method" ∷ codes "path" ∷ codes "headers" ∷ codes "body" ∷ []

abbrev is_string : Value → Bool
is_string (string s) = true
is_string _ = false

-- `value === text`
unfoldable pub is_spelled : Text → Value → Bool
unfolding text_eq
is_spelled t (string s) = text_eq s t
is_spelled t _ = false

-- `isValidMessageShape(message)`
unfoldable pub is_valid_message_shape : Heap → Value → Bool
unfolding is_ordinary_object has_exact_keys read
is_valid_message_shape h (ref r) =
    let ps = (h r).props in
    is_ordinary_object h (ref r)
    && has_exact_keys message_keys ps
    && is_string (read (codes "method") ps)
    && is_string (read (codes "path") ps)
    && is_ordinary_object h (read (codes "headers") ps)
    && is_ordinary_object h (read (codes "body") ps)
is_valid_message_shape h _ = false

-- A response of the adapter's own, or that of the handler.
pub data HttpContent : Type 0 where
  method_not_allowed not_found message_shape_invalid : HttpContent
  delivered : Body → HttpContent

-- `none` is the response without the header `x-request-id`.
pub record HttpResponse : Type 0 where
  pub status : ℕ
  pub request_id : Option Text
  pub content : HttpContent

-- A request id that is undefined or empty leaves no header.
abbrev pub named : Value → Option Text
named (string []) = none
named (string (c ∷ s)) = some (c ∷ s)
named _ = none

unfoldable pub generic_response : ℕ → HttpContent → Value → HttpResponse
generic_response status content id = record {
  status = status;
  request_id = named id;
  content = content;
}

-- `toHttpResponse(deliveryResponse)`
unfoldable pub to_http_response : DeliveryResponse → HttpResponse
to_http_response r = record {
  status = r.status;
  request_id = some r.request_id;
  content = delivered r.body;
}

abbrev pub properties_of : Heap → Value → List (Key × Property)
properties_of h (ref r) = (h r).props
properties_of h _ = []

module _ (lower_case : Text → Text) where
  -- `headerValue(headers, name)`, over the headers in their order; `lower_case` is `toLowerCase`.
  unfoldable pub header_value : Text → List (Key × Property) → Value
  unfolding text_eq
  header_value k [] = undefined
  header_value k ((sym n, p) ∷ ps) = header_value k ps
  header_value k ((name j, p) ∷ ps) = elim p.content [
    | accessor ↦ header_value k ps
    | holds v ↦ if text_eq (lower_case j) k && is_string v then v else header_value k ps
  ]

  -- `toDeliveryRequest(message)`
  unfoldable pub to_delivery_request : List (Key × Property) → Value → List (Key × Property)
  unfolding header_value
  to_delivery_request headers body =
      own (codes "requestId") (header_value (codes "x-request-id") headers)
      ∷ own (codes "actorId") (header_value (codes "x-actor-id") headers)
      ∷ own (codes "tenantId") (header_value (codes "x-tenant-id") headers)
      ∷ own (codes "payload") body
      ∷ own (codes "idempotencyKey") (header_value (codes "idempotency-key") headers)
      ∷ []

  module _ {W : Type 0} (handler : Heap → Value → Eff W DeliveryResponse) where
    -- The message after its shape was checked; the request is placed at `address`.
    unfoldable pub handle_shaped : ℕ → Heap → List (Key × Property) → Eff W HttpResponse
    unfolding is_spelled read generic_response to_http_response to_delivery_request header_value
    handle_shaped address h ps w =
        let headers = properties_of h (read (codes "headers") ps) in
        let id = header_value (codes "x-request-id") headers in
        if not (is_spelled (codes "POST") (read (codes "method") ps))
        then (ok (generic_response 405 method_not_allowed id), w)
        else if not (is_spelled (codes "/customers") (read (codes "path") ps))
        then (ok (generic_response 404 not_found id), w)
        else mapped to_http_response
            (handler (placed address (to_delivery_request headers (read (codes "body") ps)) h)
              (ref address))
            w

    -- `CreateCustomerHttpMessageAdapter.handle`
    unfoldable pub handle_message : ℕ → Heap → Value → Eff W HttpResponse
    unfolding is_valid_message_shape handle_shaped generic_response
    handle_message address h message w =
        if is_valid_message_shape h message
        then handle_shaped address h (properties_of h message) w
        else (ok (generic_response 400 message_shape_invalid undefined), w)
