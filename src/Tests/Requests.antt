-- ===== src/Tests/Requests.antt =====
-- One HTTP message through the adapter, the handler, the commit service and the pipeline.
use metaframer_kernel.Base.{ℕ, false, [], ◌∷◌, zero, suc, Bool, some}
use metaframer_kernel.Text.{Text, codes}
use metaframer_kernel.Js.{string, ref, Heap}
use metaframer_kernel.Requests.{commit_receipt}
use metaframer_kernel.Requests.Http.{HttpResponse, delivered}
use metaframer_kernel.Tests.Policy.{literal, entry}
use metaframer_kernel.Tests.Creation.{acme, request_id}

abbrev message_heap : Heap
message_heap zero = literal (
    entry (codes "method") (string (codes "POST"))
    ∷ entry (codes "path") (string (codes "/customers"))
    ∷ entry (codes "headers") (ref 1)
    ∷ entry (codes "body") (ref 2)
    ∷ [])
message_heap (suc zero) = literal (
    entry (codes "x-request-id") (string request_id)
    ∷ entry (codes "x-actor-id") (string (codes "ada"))
    ∷ entry (codes "x-tenant-id") (string acme)
    ∷ entry (codes "idempotency-key") (string (codes "k1"))
    ∷ [])
message_heap (suc (suc n)) = literal (entry (codes "name") (string (codes "Ann")) ∷ [])

abbrev as_it_is : Text → Text
as_it_is s = s

abbrev no_conflict : ℕ → Bool
no_conflict n = false

abbrev created_response : HttpResponse
created_response = record {
  status = 201;
  request_id = some request_id;
  content = delivered (commit_receipt (string acme));
}
