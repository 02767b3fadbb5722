-- ===== src/Pipeline/Commit.antt =====
-- src/application/create-customer-commit-service.mjs: the commit of what the pipeline lets through.
use metaframer_kernel.Base.{◌≡◌, ℕ, ok, if◌then◌else◌}
use metaframer_kernel.Base.Effects.{Eff, pure, ◌>>=◌, >>=-eq-ok}
use metaframer_kernel.Text.{Text, codes}
use metaframer_kernel.Js.{Value, undefined, ref, Heap, read}
use metaframer_kernel.Js.Shape.{is_ordinary_object}
use metaframer_kernel.Pipeline.{
  Stage, Shaped, shape_check, RunOutcome, refused, allow_commit, Kind, ErrorCode, ChangeSet, run,
}
use metaframer_kernel.Pipeline.Stages.{Passed, Passed-tenant, run-Passed}

pub record CommitContext : Type 0 where
  pub request_id : Text
  pub tenant_id : Text
  pub idempotency_key : Value

pub data ServiceOutcome : Type 0 where
  not_committed : Kind → ErrorCode → Text → ServiceOutcome
  committed : Text → Value → ServiceOutcome

-- The key as it was before the pipeline ran.
unfoldable pub captured_idempotency_key : Heap → Value → Value
captured_idempotency_key h (ref r) =
    if is_ordinary_object h (ref r) then read (codes "idempotencyKey") (h r).props else undefined
captured_idempotency_key h _ = undefined

module _ {W : Type 0} (stage : Stage W) (commit : ChangeSet → CommitContext → Eff W Value) where
  unfoldable pub commit_allowed : Value → RunOutcome → Eff W ServiceOutcome
  commit_allowed key (refused kind code id) = pure (not_committed kind code id)
  commit_allowed key (allow_commit id cs) =
      commit cs (record { request_id = id; tenant_id = cs.tenant_id; idempotency_key = key })
      >>= λ receipt. pure (committed id receipt)

  -- `CreateCustomerCommitService.handle`
  unfoldable pub handle : (Text → Text) → ℕ → Heap → Value → Eff W ServiceOutcome
  unfolding commit_allowed captured_idempotency_key
  handle sha256_hex address h spec =
      run stage sha256_hex address h spec >>= commit_allowed (captured_idempotency_key h spec)

  -- What is answered as committed was committed once, after every stage had passed: the commit got
  -- the change set of the command that the stages saw, for the tenant that was claimed and that is
  -- the acting principal's, and its receipt is the answer's.
  pub handle-committed :
      (sha256_hex : Text → Text) (address : ℕ) (h : Heap) (spec : Value) (w v : W) (id : Text)
      (receipt : Value)
      → handle sha256_hex address h spec w ≡ (ok (committed id receipt), v)
      → (s : Shaped) × (cs : ChangeSet) × (u : W) × (shape_check sha256_hex address h spec ≡ ok s)
        × Passed stage s w u cs
        × (commit cs
              (record {
                request_id = id;
                tenant_id = s.claimed_tenant_id;
                idempotency_key = captured_idempotency_key h spec;
              })
              u
            ≡ (ok receipt, v))
  unfolding handle
  handle-committed sha256_hex address h spec w v id receipt e =
      let (o, u, ran, k) = >>=-eq-ok (run stage sha256_hex address h spec) _ e in go o ran k
    where
      go :
          {u : W} (o : RunOutcome)
          → run stage sha256_hex address h spec w ≡ (ok o, u)
          → commit_allowed (captured_idempotency_key h spec) o u ≡ (ok (committed id receipt), v)
          → (s : Shaped) × (cs : ChangeSet) × (u : W) × (shape_check sha256_hex address h spec
              ≡ ok s)
            × Passed stage s w u cs
            × (commit cs
                  (record {
                    request_id = id;
                    tenant_id = s.claimed_tenant_id;
                    idempotency_key = captured_idempotency_key h spec;
                  })
                  u
                ≡ (ok receipt, v))
      go (refused kind code id') ran k = cc
      go {u} (allow_commit id' cs) ran k =
          let (s, shaped, p) = run-Passed stage sha256_hex address h spec w u id' cs ran in
          let (r, x, done, i) =
            >>=-eq-ok
              (commit cs (record {
                request_id = id';
                tenant_id = cs.tenant_id;
                idempotency_key = captured_idempotency_key h spec;
              }))
              _ k in
          (s, cs, u, shaped, p, rw (← (Passed-tenant stage s w u cs p)) cc)
