-- ===== src/Tests/Log.antt =====
-- The decision log over collaborators that count their calls, with a digest of equal letters.
use metaframer_kernel.Base.{◌≡◌, ◌↔◌, some, [], ◌∷◌, ◌+◌, ℕ, ok, map}
use metaframer_kernel.Base.Effects.{Post}
use metaframer_kernel.Text.{Text, codes}
use metaframer_kernel.Js.{Value, string, ref}
use metaframer_kernel.Canonical.{Json}
use metaframer_kernel.Clock.Port.{check_reading}
use metaframer_kernel.Policy.Types.{real}
use metaframer_kernel.DecisionLog.{LogEntry, timestamp_value, plain_payload}
use metaframer_kernel.DecisionLog.Point.{Collaborators, decide_logged, decide_all_logged}
use metaframer_kernel.DecisionLog.Audit.{recorded, decide_logged-Post}
use metaframer_kernel.DecisionLog.Chain.{Linked, reverse_onto, decide_all_logged-Linked}
use metaframer_kernel.DecisionLog.Time.{timestamp_value_iff}
use metaframer_kernel.Tests.Policy.{two_candidates, request}

abbrev pub digest : Json → Text
digest j = codes "aaaaaaaaaaaaaaaaaaaaaaaaaaaaaaaaaaaaaaaaaaaaaaaaaaaaaaaaaaaaaaaa"

abbrev counting : Collaborators ℕ
counting = record {
  candidates_for = λ r w. (ok (two_candidates, ref 0), w + 1);
  append = λ e w. (ok tt, w + 1);
  id_generator = λ w. (ok (string (codes "01ARZ3NDEKTSV4RRFFQ69G5FAV")), w + 1);
  clock = λ w. (ok (string (codes "2024-02-29T23:59:59.999Z")), w + 1);
  chain_head = λ t w. (ok Value.null, w + 1);
}

decide_logged-Post_example :
    Post
      (λ d v.
        (e : LogEntry) × (v.1 ≡ e ∷ [])
        × (e.request ≡ request)
        × (e.decision ≡ d)
        × (e.entry_hash ≡ digest (plain_payload e)))
      (λ v. v.1 ≡ [])
      (decide_logged digest (recorded counting) (real request) (0, []))
decide_logged-Post_example = decide_logged-Post digest counting request (0, [])

decide_all_logged-Linked_example :
    Post
      (λ ds u. Linked digest u.1 × (map (λ e. e.decision) u.1 ≡ reverse_onto ds []))
      (λ u. Linked digest u.1)
      (decide_all_logged digest
        (recorded counting)
        (some (real request ∷ real request ∷ []))
        (0, []))
decide_all_logged-Linked_example =
    decide_all_logged-Linked digest counting (some (real request ∷ real request ∷ [])) 0

timestamp_value_iff_example :
    (timestamp_value (string (codes "2024-02-29T23:59:59.999Z"))
      ≡ ok (codes "2024-02-29T23:59:59.999Z"))
    ↔ (check_reading (string (codes "2024-02-29T23:59:59.999Z"))
        ≡ ok (codes "2024-02-29T23:59:59.999Z"))
timestamp_value_iff_example =
    timestamp_value_iff (string (codes "2024-02-29T23:59:59.999Z"))
      (codes "2024-02-29T23:59:59.999Z")
