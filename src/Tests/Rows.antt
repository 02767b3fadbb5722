-- ===== src/Tests/Rows.antt =====
-- One row of the decision log, whose objects came back in another order.
use metaframer_kernel.Clock.{length_of_month}
use metaframer_kernel.Clock.{is_real_time}
use metaframer_kernel.Base.{◌≡◌, refl, none, [], ok}
use metaframer_kernel.Base.{true}
use metaframer_kernel.Text.{Text, codes, text_eq}
use metaframer_kernel.Text.Forms.{ulid_form, uuid_form, hex64_form, matches_shape}
use metaframer_kernel.Js.{Value, string}
use metaframer_kernel.Canonical.{Json, null, obj, str, Items, nil, cons, Members, end, member}
use metaframer_kernel.Policy.Types.{
  deny, CorrelationId, PolicyRequest, PolicyDecision, real, genuine,
}
use metaframer_kernel.DecisionLog.{
  descending_key_order, insert_descending, LogEntry, EntryOptions, decision_log_entry,
  plain_payload, instance_of, ulid_value, timestamp_value, prev_hash_value, layer_resolved_value,
}
use metaframer_kernel.DecisionLog.Order.{Reordered, object, swap}
use metaframer_kernel.DecisionLog.Row.{
  Datum, nothing, plain, Data, no_data, datum, Fields, no_fields, entry, demand_json_shape,
  demand_json_items, demand_json_fields, verify_row,
}
use metaframer_kernel.DecisionLog.Row.Stored.{verify_row-Reordered}
use metaframer_kernel.DecisionLog.Row.Entry.{columns_of, receipt_of, verify_row-decision_log_entry}

abbrev pub digest64 : Json → Text
digest64 j = codes "aaaaaaaaaaaaaaaaaaaaaaaaaaaaaaaaaaaaaaaaaaaaaaaaaaaaaaaaaaaaaaaa"

abbrev tenant_uuid : Text
tenant_uuid = codes "0b1e6a3c-5d2f-4a7b-8c9d-0e1f2a3b4c5d"

abbrev trace : CorrelationId
trace = record { address = 7; uuid = tenant_uuid }

abbrev request : PolicyRequest
request = record {
  action = record {
    name = codes "customers.create";
    version = 1;
    principal = record { tenant_id = tenant_uuid; actor_id = codes "ada" };
    correlation_id = trace;
    payload = obj end;
  };
  resource = obj (member (codes "a") (str []) (member (codes "b") (str []) end));
  context = obj end;
}

abbrev decision : PolicyDecision
decision = record {
  effect = deny;
  reason = codes "closed";
  matched_policy_id = none;
  trace_id = trace;
}

abbrev options : EntryOptions
options = record {
  id = string (codes "01ARZ3NDEKTSV4RRFFQ69G5FAV");
  request = real request;
  decision = real decision;
  layer_resolved = Value.null;
  ts = string (codes "2024-02-29T23:59:59.999Z");
  prev_hash = Value.null;
}

abbrev pub stored_entry : LogEntry
stored_entry = record {
  id = codes "01ARZ3NDEKTSV4RRFFQ69G5FAV";
  request = request;
  decision = decision;
  layer_resolved = none;
  ts = codes "2024-02-29T23:59:59.999Z";
  prev_hash = none;
  entry_hash = digest64 (obj end);
}

stored_entry_made : decision_log_entry digest64 options ≡ ok stored_entry
unfolding decision_log_entry ulid_value instance_of timestamp_value prev_hash_value
    layer_resolved_value ulid_form matches_shape genuine is_real_time length_of_month
stored_entry_made = refl

tenant_uuid_form : uuid_form tenant_uuid ≡ true
unfolding uuid_form
tenant_uuid_form = refl

digest64_form : hex64_form (digest64 (obj end)) ≡ true
unfolding hex64_form
digest64_form = refl

unfoldable mutual
  datum_of : Json → Datum
  datum_of Json.null = nothing
  datum_of (Json.bool b) = Datum.truth b
  datum_of (Json.num n) = Datum.number n
  datum_of (str s) = Datum.string s
  datum_of (Json.arr xs) = Datum.array (data_of xs)
  datum_of (obj ms) = plain (fields_of ms)

  data_of : Items → Data
  data_of nil = no_data
  data_of (cons x xs) = datum (datum_of x) (data_of xs)

  fields_of : Members → Fields
  fields_of end = no_fields
  fields_of (member k v ms) = entry k (datum_of v) (fields_of ms)

mutual
  unfolding datum_of demand_json_shape

  demand_json_shape-datum_of : (j : Json) → demand_json_shape (datum_of j) ≡ ok j
  demand_json_shape-datum_of Json.null = refl
  demand_json_shape-datum_of (Json.bool b) = refl
  demand_json_shape-datum_of (Json.num n) = refl
  demand_json_shape-datum_of (str s) = refl
  demand_json_shape-datum_of (Json.arr xs) = rw (demand_json_items-data_of xs) refl
  demand_json_shape-datum_of (obj ms) = rw (demand_json_fields-fields_of ms) refl

  demand_json_items-data_of : (xs : Items) → demand_json_items (data_of xs) ≡ ok xs
  demand_json_items-data_of nil = refl
  demand_json_items-data_of (cons x xs) =
      rw (demand_json_shape-datum_of x, demand_json_items-data_of xs) refl

  demand_json_fields-fields_of : (ms : Members) → demand_json_fields (fields_of ms) ≡ ok ms
  demand_json_fields-fields_of end = refl
  demand_json_fields-fields_of (member k v ms) =
      rw (demand_json_shape-datum_of v, demand_json_fields-fields_of ms) refl

-- The row as it was written, and as it came back, with its first two columns exchanged.
abbrev written : Json
written = obj (columns_of stored_entry)

abbrev later_columns : Members
later_columns = member (codes "entry_hash") (str (digest64 (obj end))) (
    member (codes "prev_hash") Json.null
      (member (codes "payload") (plain_payload stored_entry) end))

abbrev came_back : Json
came_back = obj (
    member (codes "tenant_id") (str tenant_uuid)
      (member (codes "id") (str (codes "01ARZ3NDEKTSV4RRFFQ69G5FAV")) later_columns))

came_back-Reordered : Reordered written came_back
unfolding columns_of
came_back-Reordered = object (swap {ms = later_columns} (codes "id") (codes "tenant_id") (λ e. cc))

verify_row-Reordered_example :
    verify_row digest64 (datum_of written) ≡ verify_row digest64 (datum_of came_back)
verify_row-Reordered_example =
    verify_row-Reordered digest64 (datum_of written) (datum_of came_back) written came_back
      (demand_json_shape-datum_of written) (demand_json_shape-datum_of came_back)
      came_back-Reordered

verify_row-decision_log_entry_example :
    verify_row digest64 (datum_of came_back) ≡ ok (receipt_of stored_entry)
verify_row-decision_log_entry_example =
    verify_row-decision_log_entry digest64 options stored_entry (datum_of came_back) came_back
      stored_entry_made tenant_uuid_form tenant_uuid_form digest64_form
      (demand_json_shape-datum_of came_back) came_back-Reordered

-- A member named `__proto__` is dropped, at any depth.
proto_dropped :
    descending_key_order (
      obj (
        member
          (codes "a")
          (obj (member (codes "__proto__") null end))
          (member (codes "__proto__") (obj end) end)))
    ≡ obj (member (codes "a") (obj end) end)
unfolding descending_key_order text_eq insert_descending
proto_dropped = refl
