-- ===== src/Tests/Delivery.antt =====
-- A body in two chunks under a bound, and a router of two routes on one path.
use metaframer_kernel.Base.{
  ◌≡◌, refl, ◌↔◌, true, some, List, [], ◌∷◌, ◌+◌, ℕ, zero, suc, pos, OnOk_elim, length, ok, inl,
  inr,
}
use metaframer_kernel.Base.Effects.{◌>>=◌}
use metaframer_kernel.Text.{Text, codes, text_eq, text_lt}
use metaframer_kernel.Delivery.{
  Event, request, other_event, bytes, absent, more, unsaid, complete, collect,
}
use metaframer_kernel.Delivery.Receive.{Delivered, Within, collect-complete_iff}
use metaframer_kernel.Text.Forms.{is_lower, is_digit}
use metaframer_kernel.Js.{name, ref, string, number, integer}
use metaframer_kernel.Delivery.Scope.{header_name_form, header_value_form}
use metaframer_kernel.Delivery.Responses.{
  DataHeap, has_response_keys, get_value, response_start, response_body, to_response_events,
  check_router_response, response_status, headers_value, response_headers, header_text,
  sort_headers, insert_header,
}
use metaframer_kernel.Delivery.Responses.Safe.{IsSafe, to_response_events-IsSafe}
use metaframer_kernel.Router.{Message, Route, check_routes, dispatch, respond}
use metaframer_kernel.Router.Dispatch.{dispatch-route}

abbrev two_chunks : List Event
two_chunks =
    request (bytes (1 ∷ 2 ∷ [])) more
    ∷ request absent more
    ∷ request (bytes (3 ∷ [])) unsaid
    ∷ other_event
    ∷ []

collect-complete_iff_example :
    (collect (some 3) 0 [] two_chunks ≡ complete (1 ∷ 2 ∷ 3 ∷ []))
    ↔ (Delivered two_chunks (1 ∷ 2 ∷ 3 ∷ []) × Within (some 3) (length {A = ℕ} (1 ∷ 2 ∷ 3 ∷ [])))
collect-complete_iff_example = collect-complete_iff (some 3) two_chunks (1 ∷ 2 ∷ 3 ∷ [])

collected : collect (some 3) 0 [] two_chunks ≡ complete (1 ∷ 2 ∷ 3 ∷ [])
unfolding collect
collected = refl

abbrev get_customers : Route ℕ ℕ ℕ
get_customers = record {
  method = codes "GET";
  path = codes "/c";
  handler = λ m w. (ok (some 200), w + 1);
}

abbrev post_customers : Route ℕ ℕ ℕ
post_customers = record {
  method = codes "POST";
  path = codes "/c";
  handler = λ m w. (ok (some m.rest), w + 2);
}

abbrev routes : List (Route ℕ ℕ ℕ)
routes = get_customers ∷ post_customers ∷ []

abbrev posted : Message ℕ
posted = record { method = codes "POST"; path = codes "/c"; rest = 201 }

routes_built : check_routes routes ≡ ok routes
unfolding check_routes text_eq
routes_built = refl

dispatch-route_example :
    dispatch routes (some posted) 0 ≡ (post_customers.handler posted >>= respond) 0
dispatch-route_example =
    dispatch-route routes routes post_customers posted 0 routes_built (inr (inl refl)) refl refl

abbrev plain_headers : List (Text × Text)
plain_headers = (codes "content-type", codes "text/plain") ∷ (codes "x-request-id", codes "7") ∷ []

-- The headers stand in the other order in the response.
abbrev response_heap : DataHeap
response_heap zero = record {
  is_ordinary = true;
  members =
      (name (codes "status"), number (integer (pos 201)))
      ∷ (name (codes "headers"), ref 1)
      ∷ (name (codes "body"), string (codes "done"))
      ∷ [];
}
response_heap (suc n) = record {
  is_ordinary = true;
  members =
      (name (codes "x-request-id"), string (codes "7"))
      ∷ (name (codes "content-type"), string (codes "text/plain"))
      ∷ [];
}

answered :
    to_response_events (λ s. s) response_heap (ref 0)
    ≡ ok (response_start 201 plain_headers ∷ response_body (string (codes "done")) ∷ [])
unfolding to_response_events check_router_response has_response_keys get_value text_eq
    response_status headers_value response_headers header_text header_name_form header_value_form
    sort_headers insert_header text_lt is_lower is_digit
answered = refl

to_response_events-IsSafe_example :
    IsSafe (response_start 201 plain_headers ∷ response_body (string (codes "done")) ∷ [])
to_response_events-IsSafe_example =
    OnOk_elim IsSafe _ (to_response_events-IsSafe (λ s. s) (λ s e. refl) response_heap (ref 0))
      answered
