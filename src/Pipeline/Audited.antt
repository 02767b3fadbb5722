-- ===== src/Pipeline/Audited.antt =====
-- src/application/create-customer-pipeline.mjs over the decision point of
-- src/application/decision-logging-policy-decision-point.mjs.
use metaframer_kernel.Base.{◌≡◌, refl, sym, ap, ℕ, Option, ◌∷◌, ok}
use metaframer_kernel.Base.Effects.{Eff, Post-ok}
use metaframer_kernel.Text.{Text}
use metaframer_kernel.Js.{Value, Heap}
use metaframer_kernel.Canonical.{Json}
use metaframer_kernel.Policy.Types.{allow, Principal, Action, real}
use metaframer_kernel.DecisionLog.{LogEntry, plain_payload}
use metaframer_kernel.DecisionLog.Point.{Collaborators, decide_logged}
use metaframer_kernel.DecisionLog.Audit.{Recorded, recorded, silently, decide_logged-Post}
use metaframer_kernel.Pipeline.{
  Stage, GuardRefusal, ChangeSet, allow_commit, run, request_of, prepared_change_set_of,
}
use metaframer_kernel.Pipeline.Stages.{run-Passed}

module _ {V : Type 0} (sha256_of : Json → Text) (port : Collaborators V)
    (current : Eff V (Heap × Principal)) (evaluate_invariants : Action → Eff V (Option Value))
    (auditor : Option (GuardRefusal → Eff (Recorded V) (Unit {0}))) where
  abbrev pub audited : Stage (Recorded V)
  audited = record {
    current = silently current;
    decide = λ r. decide_logged sha256_of (recorded port) (real r);
    evaluate_invariants = λ c. silently (evaluate_invariants c);
    audit_identity_guard = auditor;
  }

  -- Over a decision point that logs, no change is let through to the commit before exactly one
  -- entry was appended, which records an allow of the request with that tenant and that payload,
  -- under the hash of its own content.
  pub run-audited :
      (sha256_hex : Text → Text) (address : ℕ) (h : Heap) (spec : Value) (w v : Recorded V)
      (id : Text) (cs : ChangeSet)
      → run audited sha256_hex address h spec w ≡ (ok (allow_commit id cs), v)
      → (e : LogEntry) × (v.1 ≡ e ∷ w.1)
        × (e.decision.effect ≡ allow)
        × (e.request.action.principal.tenant_id ≡ cs.tenant_id)
        × (e.request.action.payload ≡ cs.payload)
        × (e.entry_hash ≡ sha256_of (plain_payload e))
  unfolding prepared_change_set_of request_of
  run-audited sha256_hex address h spec w v id cs passes =
      let (s, shaped, p) = run-Passed audited sha256_hex address h spec w v id cs passes in
      let unasked : p.asked.1 ≡ w.1 = sym (ap (λ r. r.1.1) p.identified) in
      let undone : v.1 ≡ p.decided.1 = sym (ap (λ r. r.1.1) p.evaluated) in
      let (e, appended, request, decision, hashed) =
        Post-ok _ _ _ (decide_logged-Post sha256_of port (request_of p.command) p.asked) p.ruled in
      (e, cc, cc (p.allowed), rw (request, p.prepared) refl, rw (request, p.prepared) refl, hashed)
