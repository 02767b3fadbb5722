-- ===== src/Pipeline/Stages.antt =====
-- src/application/create-customer-pipeline.mjs: what an action has passed that is to be committed,
-- and what refuses the others.
use metaframer_kernel.Base.{
  ◌≡◌, refl, ℕ, Bool, true, false, Option, Outcome, ok, err, if◌then◌else◌, OnOk, OnOk_elim,
  >>=-OnOk,
}
use metaframer_kernel.Base.Effects.{Eff, pure, ◌>>=◌, >>=-eq-ok}
use metaframer_kernel.Text.{Text, text_eq, text_eq_iff}
use metaframer_kernel.Canonical.{canonical_object}
use metaframer_kernel.Js.{Value, Heap}
use metaframer_kernel.Policy.Types.{Effect, allow, deny, Principal, Action, PolicyDecision}
use metaframer_kernel.Pipeline.{
  Kind, ErrorCode, Shaped, shape_check, RunOutcome, refused, allow_commit, ChangeSet, Stage,
  command_of, request_of, is_allowed, invariants_hold, prepared_change_set_of, run, guard_stage,
  command_stage, decide_stage, refuse_at_guard, cross_tenant, cross_tenant_deny,
  action_spec_invalid, invalid, denied, identity_mismatch, raw_request_id_of, GuardRefusal,
  audit_refusal,
}

not_true : (b : Bool) → ¬ (b ≡ true) → b ≡ false
not_true true h = absurd (h refl)
not_true false h = refl

module _ {W A : Type 0} where
  -- A test that led to an answer which its other branch does not give.
  taken :
      (b : Bool) (m n : Eff W A) (u : W) (r : Outcome A × W)
      → ¬ (n u ≡ r)
      → (if b then m else n) u ≡ r
      → (b ≡ true) × (m u ≡ r)
  taken true m n u r h e = (refl, e)
  taken false m n u r h e = absurd (h e)

module _ {W : Type 0} (stage : Stage W) where
  -- Every stage in turn: the shape, the identity and its two guards, the command, the decision and
  -- the invariants; each collaborator is called once, in the world the one before it left.
  pub record Passed (s : Shaped) (w v : W) (cs : ChangeSet) : Type 0 where
    pub heap : Heap
    pub principal : Principal
    pub command : Action
    pub decision : PolicyDecision
    pub answer : Option Value
    pub asked : W
    pub decided : W
    pub identified : stage.current w ≡ (ok (heap, principal), asked)
    pub same_tenant : principal.tenant_id ≡ s.claimed_tenant_id
    pub same_actor : principal.actor_id ≡ s.claimed_actor_id
    pub constructed : command_of heap principal s ≡ ok command
    pub ruled : stage.decide (request_of command) asked ≡ (ok decision, decided)
    pub allowed : decision.effect ≡ allow
    pub evaluated : stage.evaluate_invariants command decided ≡ (ok answer, v)
    pub held : invariants_hold answer ≡ true
    pub prepared : cs ≡ prepared_change_set_of command s.fingerprint

  is_allowed-allow : (d : PolicyDecision) → is_allowed d ≡ true → d.effect ≡ allow
  unfolding is_allowed
  is_allowed-allow d h = go d.effect h
    where
      go : (e : Effect) → (elim e [ allow ↦ true | deny ↦ false ]) ≡ true → e ≡ allow
      go allow h = refl
      go deny h = cc

  command_of-principal :
      (h : Heap) (p : Principal) (s : Shaped) → OnOk (λ c. c.principal ≡ p) (command_of h p s)
  unfolding command_of
  command_of-principal h p s =
      >>=-OnOk (λ c. c.principal ≡ p) (canonical_object h s.payload) _ λ j e. refl

  pub Passed-tenant :
      (s : Shaped) (w v : W) (cs : ChangeSet) → Passed s w v cs → cs.tenant_id ≡ s.claimed_tenant_id
  unfolding prepared_change_set_of
  Passed-tenant s w v cs p =
      let of_p : p.command.principal ≡ p.principal =
        OnOk_elim (λ c. c.principal ≡ p.principal) _ (command_of-principal p.heap p.principal s)
          p.constructed in
      rw (p.prepared, of_p) p.same_tenant

  refuse_at_guard-refuses :
      (k : Kind) (c : ErrorCode) (p : Principal) (s : Shaped) (u v : W) (id : Text) (cs : ChangeSet)
      → ¬ (refuse_at_guard stage k c p s u ≡ (ok (allow_commit id cs), v))
  unfolding refuse_at_guard
  refuse_at_guard-refuses k c p s u v id cs e =
      let refusal : GuardRefusal = record {
        code = c;
        principal = p;
        correlation_id = s.correlation_id;
        fingerprint = s.fingerprint;
      } in
      let (_, x, audited, i) = >>=-eq-ok (audit_refusal stage refusal) _ e in cc

  decide_stage-Passed :
      (s : Shaped) (h : Heap) (p : Principal) (c : Action) (w u v : W) (id : Text) (cs : ChangeSet)
      → stage.current w ≡ (ok (h, p), u)
      → p.tenant_id ≡ s.claimed_tenant_id
      → p.actor_id ≡ s.claimed_actor_id
      → command_of h p s ≡ ok c
      → decide_stage stage s c u ≡ (ok (allow_commit id cs), v)
      → Passed s w v cs
  unfolding decide_stage
  decide_stage-Passed s h p c w u v id cs i t a m e =
      let (d, x, ruled, k) = >>=-eq-ok (stage.decide (request_of c)) _ e in
      let (grants, j) = taken (is_allowed d) _ _ x (ok (allow_commit id cs), v) (λ n. cc) k in
      let (g, y, evaluated, l) = >>=-eq-ok (stage.evaluate_invariants c) _ j in
      let (held, n) = taken (invariants_hold g) _ _ y (ok (allow_commit id cs), v) (λ n. cc) l in
      record {
        heap = h;
        principal = p;
        command = c;
        decision = d;
        answer = g;
        asked = u;
        decided = x;
        identified = i;
        same_tenant = t;
        same_actor = a;
        constructed = m;
        ruled = ruled;
        allowed = is_allowed-allow d grants;
        evaluated = cc;
        held = held;
        prepared = cc;
      }

  command_stage-Passed :
      (s : Shaped) (h : Heap) (p : Principal) (w u v : W) (id : Text) (cs : ChangeSet)
      → stage.current w ≡ (ok (h, p), u)
      → p.tenant_id ≡ s.claimed_tenant_id
      → p.actor_id ≡ s.claimed_actor_id
      → command_stage stage s h p u ≡ (ok (allow_commit id cs), v)
      → Passed s w v cs
  unfolding command_stage
  command_stage-Passed s h p w u v id cs i t a e = go (command_of h p s) refl e
    where
      go :
          (m : Outcome Action)
          → command_of h p s ≡ m
          → (elim m as (λ _. Eff W RunOutcome) [
            | err _ ↦ pure (refused invalid action_spec_invalid s.correlation_id.uuid)
            | ok command ↦ decide_stage stage s command
          ])
              u
            ≡ (ok (allow_commit id cs), v)
          → Passed s w v cs
      go (err f) m e = cc
      go (ok c) m e = decide_stage-Passed s h p c w u v id cs i t a m e

  guard_stage-Passed :
      (s : Shaped) (h : Heap) (p : Principal) (w u v : W) (id : Text) (cs : ChangeSet)
      → stage.current w ≡ (ok (h, p), u)
      → guard_stage stage s h p u ≡ (ok (allow_commit id cs), v)
      → Passed s w v cs
  unfolding guard_stage
  guard_stage-Passed s h p w u v id cs i e =
      let (t, k) =
        taken (text_eq p.tenant_id s.claimed_tenant_id) _ _ u (ok (allow_commit id cs), v)
          (refuse_at_guard-refuses cross_tenant cross_tenant_deny p s u v id cs) e in
      let (a, j) =
        taken (text_eq p.actor_id s.claimed_actor_id) _ _ u (ok (allow_commit id cs), v)
          (refuse_at_guard-refuses denied identity_mismatch p s u v id cs) k in
      command_stage-Passed s h p w u v id cs i ((text_eq_iff _ _).0 t) ((text_eq_iff _ _).0 a) j

  pub run-Passed :
      (sha256_hex : Text → Text) (address : ℕ) (h : Heap) (spec : Value) (w v : W) (id : Text)
      (cs : ChangeSet)
      → run stage sha256_hex address h spec w ≡ (ok (allow_commit id cs), v)
      → (s : Shaped) × (shape_check sha256_hex address h spec ≡ ok s) × Passed s w v cs
  unfolding run
  run-Passed sha256_hex address h spec w v id cs e =
      go (shape_check sha256_hex address h spec) refl e
    where
      go :
          (m : Outcome Shaped)
          → shape_check sha256_hex address h spec ≡ m
          → (elim m as (λ _. Eff W RunOutcome) [
            | err _ ↦ pure (refused invalid action_spec_invalid (raw_request_id_of h spec))
            | ok shaped ↦ stage.current >>= λ (h, principal). guard_stage stage shaped h principal
          ])
              w
            ≡ (ok (allow_commit id cs), v)
          → (s : Shaped) × (shape_check sha256_hex address h spec ≡ ok s) × Passed s w v cs
      go (err f) m e = cc
      go (ok s) m e =
          let ((g, p), u, identified, k) = >>=-eq-ok stage.current _ e in
          (s, m, guard_stage-Passed s g p w u v id cs identified k)
