-- ===== src/Tests/Commits.antt =====
-- A pool that counts its calls, an append and a commit over it.
use metaframer_kernel.Base.{
  ◌≡◌, refl, true, false, some, List, [], ◌∷◌, ◌+◌, ℕ, zero, suc, ok, Fault,
}
use metaframer_kernel.Text.{Text, codes}
use metaframer_kernel.Text.Forms.{uuid_form}
use metaframer_kernel.Js.{Heap, Object, string, ref}
use metaframer_kernel.Policy.Types.{real}
use metaframer_kernel.DecisionLog.Row.{Datum, Fields, no_fields, entry}
use metaframer_kernel.Commit.Envelope
use metaframer_kernel.Postgres.{Pool, Driver}
use metaframer_kernel.Postgres.Log.{append, append_fault, chain_head}
use metaframer_kernel.Postgres.Log.Conflicts.{Rethrown}
use metaframer_kernel.Postgres.Log.Transacted.{
  IsVerified, append_statements, head_statements, append-Transacted, chain_head-Transacted,
}
use metaframer_kernel.Postgres.Transaction.{recording_pool, Transacted, AnyAnswer}
use metaframer_kernel.Postgres.Unit.{postgres_port}
use metaframer_kernel.Postgres.Unit.Committed.{Committed, idle}
use metaframer_kernel.Postgres.Intents.{check_prepared_change_set}
use metaframer_kernel.Postgres.Rows.{Spelling}
use metaframer_kernel.Postgres.Write.Committed.{
  planned, postgres_write, AcceptedReal, commit-Committed,
}
use metaframer_kernel.Tests.Policy.{entry as property, literal}
use metaframer_kernel.Tests.Rows.{digest64, stored_entry}

-- Every statement answers one row, which has an id and a date.
abbrev row : Fields
row =
    entry (codes "id") (Datum.string (codes "1"))
      (entry (codes "recorded_at") (Datum.exotic 1) no_fields)

abbrev counting_pool : Pool ℕ
counting_pool = record {
  connect = λ w. (ok w, w + 1);
  query = λ client s w. (ok (row ∷ []), w + 1);
  release = λ client w. w + 1;
}

abbrev unique_violation : Driver
unique_violation = record {
  code = λ n. some (codes "23505");
  constraint = λ n. some (codes "policy_decision_log_one_genesis_per_tenant");
}

append-Transacted_example :
    (let (o, u) =
        append digest64 unique_violation
          (recording_pool counting_pool)
          (real stored_entry)
          (0, []) in
      Transacted
        (IsVerified digest64 counting_pool stored_entry)
        (append_fault unique_violation stored_entry)
        (append_statements stored_entry)
        o
        u.1)
    × ((f : Fault)
        → Rethrown unique_violation stored_entry f (append_fault unique_violation stored_entry f))
append-Transacted_example = append-Transacted digest64 unique_violation counting_pool stored_entry 0

abbrev tenant : Text
tenant = codes "0b1e6a3c-5d2f-4a7b-8c9d-0e1f2a3b4c5d"

tenant_form : uuid_form tenant ≡ true
unfolding uuid_form
tenant_form = refl

chain_head-Transacted_example :
    let (o, u) = chain_head (recording_pool counting_pool) (real tenant) (0, []) in
    Transacted AnyAnswer (λ e. e) (head_statements tenant) o u.1
chain_head-Transacted_example = chain_head-Transacted counting_pool tenant 0 tenant_form

-- A prepared change set: the root at 0, its intents at 1, and the four of them after that.
abbrev at : List Object → Heap
at [] r = literal (property (codes "name") (string (codes "Ada")) ∷ [])
at (o ∷ os) zero = o
at (o ∷ os) (suc r) = at os r

abbrev change_set : Heap
change_set = at (
    literal (
      property (codes "persistenceState") (string (codes "pending"))
      ∷ property (codes "intents") (ref 1)
      ∷ [])
    ∷ literal (
        property (codes "customer") (ref 2)
        ∷ property (codes "audit") (ref 3)
        ∷ property (codes "transactionalOutbox") (ref 4)
        ∷ property (codes "idempotency") (ref 5)
        ∷ [])
    ∷ literal
        (property (codes "tenantId") (string tenant) ∷ property (codes "payload") (ref 6) ∷ [])
    ∷ literal (property (codes "action") (string (codes "customer.created")) ∷ [])
    ∷ literal (property (codes "eventName") (string (codes "customer.created")) ∷ [])
    ∷ literal (property (codes "fingerprint") (string (codes "f")) ∷ [])
    ∷ [])

abbrev spelling : Spelling
spelling = record {
  stringify = λ v. ok (codes "{}");
  stringify_intent = λ v. ok (codes "{}");
  string_of = λ d. codes "1";
  iso_string = λ d. ok (codes "2024-02-29T23:59:59.999Z");
}

commit-Committed_example :
    let (o, u) =
      Envelope.commit
        (postgres_port (recording_pool counting_pool))
        (postgres_write unique_violation spelling counting_pool (codes "r") (codes "k") change_set)
        (ref 0)
        (idle 0) in
    Committed
      (AcceptedReal unique_violation spelling counting_pool
        (codes "r")
        (codes "k")
        (check_prepared_change_set change_set (ref 0)))
      (planned spelling change_set (ref 0))
      o
      u.world.1
    × (u.in_flight ≡ false)
commit-Committed_example =
    commit-Committed unique_violation spelling counting_pool (codes "r") (codes "k") change_set
      (ref 0) 0
