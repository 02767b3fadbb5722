-- ===== src/Delivery/Responses.antt =====
-- src/delivery/asgi-core-profile.mjs: what `toResponseEvents` makes of the response of a route.
pub mod Safe
use metaframer_kernel.Base.{
  ℕ, Bool, true, false, ◌&&◌, ◌==◌, List, [], ◌∷◌, map, all, any, leb, length, pos, Outcome, ok,
  err, type_error, ◌>>=◌, ◌>>◌, require, if◌then◌else◌,
}
use metaframer_kernel.Text.{Text, codes, text_eq, text_lt}
use metaframer_kernel.Js.{Value, number, integer, string, ref, undefined, Key, name, sym, key_is}
use metaframer_kernel.Delivery.Scope.{header_name_form, header_value_form}

-- The objects that a response is made of. All their own properties are data here, so that each
-- reading of one answers the same: a response with an accessor, which the source reads several
-- times over, is no value of this type. `is_ordinary` is what `isOrdinaryObject` answers.
pub record DataObject : Type 0 where
  pub is_ordinary : Bool
  pub members : List (Key × Value)

abbrev pub DataHeap : Type 0
DataHeap = ℕ → DataObject

abbrev pub response_keys : List Text
response_keys = codes "status" ∷ codes "headers" ∷ codes "body" ∷ []

-- As many keys as expected and every expected one among them.
unfoldable pub has_response_keys : List (Key × Value) → Bool
unfolding text_eq
has_response_keys ms = (length ms == 3) && all (λ k. any (λ m. key_is k m.0) ms) response_keys

-- `object[key]`
unfoldable pub get_value : Text → List (Key × Value) → Value
unfolding text_eq
get_value k [] = undefined
get_value k ((j, v) ∷ ms) = if key_is k j then v else get_value k ms

-- A response that `checkRouterResponse` admits.
pub record RouterResponse : Type 0 where
  pub status : ℕ
  pub headers : List (Text × Text)
  pub body : Value

pub data ResponseEvent : Type 0 where
  response_start : ℕ → List (Text × Text) → ResponseEvent
  response_body : Value → ResponseEvent

unfoldable pub response_status : Value → Outcome ℕ
response_status (number (integer (pos n))) = do require (leb 100 n && leb n 599) type_error; ok n
response_status _ = err type_error

unfoldable pub header_text : Value → Outcome Text
header_text (string s) = do require (header_value_form s) type_error; ok s
header_text _ = err type_error

unfoldable pub response_headers : List (Key × Value) → Outcome (List (Text × Text))
unfolding header_text
response_headers [] = ok []
response_headers ((sym n, v) ∷ ms) = err type_error
response_headers ((name s, v) ∷ ms) = do
  require (header_name_form s) type_error
  text ← header_text v
  rest ← response_headers ms
  ok ((s, text) ∷ rest)

unfoldable pub headers_value : DataHeap → Value → Outcome (List (Text × Text))
unfolding response_headers
headers_value h (ref r) = do require (h r).is_ordinary type_error; response_headers (h r).members
headers_value h _ = err type_error

-- `checkRouterResponse(response)`
unfoldable pub check_router_response : DataHeap → Value → Outcome RouterResponse
unfolding response_status headers_value has_response_keys get_value
check_router_response h (ref r) = do
  require (h r).is_ordinary type_error
  require (has_response_keys (h r).members) type_error
  status ← response_status (get_value (codes "status") (h r).members)
  headers ← headers_value h (get_value (codes "headers") (h r).members)
  ok (record { status = status; headers = headers; body = get_value (codes "body") (h r).members })
check_router_response h _ = err type_error

-- `sort`, by the names; it is stable.
unfoldable pub insert_header : Text × Text → List (Text × Text) → List (Text × Text)
insert_header p [] = p ∷ []
insert_header p (q ∷ qs) = if text_lt q.0 p.0 then q ∷ insert_header p qs else p ∷ q ∷ qs

unfoldable pub sort_headers : List (Text × Text) → List (Text × Text)
unfolding insert_header
sort_headers [] = []
sort_headers (p ∷ ps) = insert_header p (sort_headers ps)

-- `toResponseEvents(response)`; `lower_case` is `toLowerCase`.
unfoldable pub to_response_events : (Text → Text) → DataHeap → Value → Outcome (List ResponseEvent)
unfolding check_router_response sort_headers
to_response_events lower_case h response = do
  checked ← check_router_response h response
  ok (
      response_start checked.status
        (sort_headers (map (λ p. (lower_case p.0, p.1)) checked.headers))
      ∷ response_body checked.body
      ∷ [])
