-- ===== src/Composition/Audited.antt =====
-- src/delivery/create-customer-composition.mjs: what one run of the audited pipeline leaves in the
-- log of decisions.
use mathlib.Core.Path.{subst}
use metaframer_kernel.Base.{
  ◌≡◌, ◌⊎◌, inl, inr, refl, ℕ, Bool, true, false, Option, none, some, List, ◌∷◌, Outcome, ok, err,
  type_error, OnOk, OnOk_elim, >>=-OnOk, if◌then◌else◌,
}
use metaframer_kernel.Base.Effects.{Eff, throw, pure, ◌>>=◌, Post, Post-mono, lift-Post, >>=-Post}
use metaframer_kernel.Text.{Text, text_eq}
use metaframer_kernel.Js.{Value, string, Heap}
use metaframer_kernel.Canonical.{Json, canonical_object}
use metaframer_kernel.Clock.Port.{now}
use metaframer_kernel.Policy.Types.{Effect, allow, deny, Principal, Action, PolicyDecision, real}
use metaframer_kernel.Policy.Decision.{construct_decision}
use metaframer_kernel.Policy.Evaluator.Admission.{construct_same}
use metaframer_kernel.DecisionLog.{LogEntry, plain_payload}
use metaframer_kernel.DecisionLog.Point.{Collaborators, decide_logged}
use metaframer_kernel.DecisionLog.Audit.{
  Recorded, recorded, silently, Unwritten, silently-Unwritten, now-Unwritten, written-Post,
  IsEntryOf, decision_log_entry-IsEntryOf, decide_logged-Post,
}
use metaframer_kernel.Pipeline.{
  Kind, ErrorCode, Shaped, shape_check, RunOutcome, refused, allow_commit, Stage, GuardRefusal,
  action_spec_invalid, invariant_violation, identity_mismatch, cross_tenant_deny, policy_deny,
  invalid, denied, cross_tenant, command_of, request_of, is_allowed, invariants_hold, run,
  guard_stage, command_stage, decide_stage, refuse_at_guard, raw_request_id_of, audit_refusal,
}
use metaframer_kernel.Composition.{
  identity_guard_reason, guard_command, guard_request, guard_decision, audit_with_reason,
  audit_identity_guard, audited_stage,
}

-- The decision that an outcome follows from, where one was taken.
abbrev pub verdict_of : RunOutcome → Option Effect
verdict_of (allow_commit id cs) = some allow
verdict_of (refused k invariant_violation id) = some allow
verdict_of (refused k action_spec_invalid id) = none
verdict_of (refused k identity_mismatch id) = some deny
verdict_of (refused k cross_tenant_deny id) = some deny
verdict_of (refused k policy_deny id) = some deny

abbrev pub request_id_of : RunOutcome → Text
request_id_of (allow_commit id cs) = id
request_id_of (refused k c id) = id

module _ {V : Type 0} (sha256_of : Json → Text) where
  -- The log has grown by one entry: of that effect, on the request with that id, under the hash of
  -- its own content.
  pub record Grown (log : List LogEntry) (x : Effect) (id : Text) (v : Recorded V) : Type 0 where
    pub entry : LogEntry
    pub appended : v.1 ≡ entry ∷ log
    pub effect : entry.decision.effect ≡ x
    pub request_id : entry.request.action.correlation_id.uuid ≡ id
    pub hashed : entry.entry_hash ≡ sha256_of (plain_payload entry)

  abbrev pub Told : List LogEntry → Option Effect → Text → Recorded V → Type 0
  Told log none id v = Unwritten log v
  Told log (some x) id v = Grown log x id v

  abbrev pub Witnessed : List LogEntry → RunOutcome → Recorded V → Type 0
  Witnessed log outcome v = Told log (verdict_of outcome) (request_id_of outcome) v

  abbrev pub AtMostOne : List LogEntry → Recorded V → Type 0
  AtMostOne log v = Unwritten log v ⊎ ((e : LogEntry) × (v.1 ≡ e ∷ log))

  Grown-same :
      (log : List LogEntry) (x : Effect) (id : Text) (u v : Recorded V)
      → v.1 ≡ u.1
      → Grown log x id u
      → Grown log x id v
  Grown-same log x id u v t g = record {
    entry = g.entry;
    appended = rw t g.appended;
    effect = g.effect;
    request_id = g.request_id;
    hashed = g.hashed;
  }

module _ {W A : Type 0} where
  if-Post :
      (R : A → W → Type 0) (Q : W → Type 0) (b : Bool) (m n : Eff W A) (w : W)
      → (b ≡ true → Post R Q (m w))
      → (b ≡ false → Post R Q (n w))
      → Post R Q ((if b then m else n) w)
  if-Post R Q true m n w h k = h refl
  if-Post R Q false m n w h k = k refl

is_allowed-effect :
    (d : PolicyDecision)
    → ((is_allowed d ≡ true → d.effect ≡ allow) × (is_allowed d ≡ false → d.effect ≡ deny))
unfolding is_allowed
is_allowed-effect d = go d.effect
  where
    go :
        (e : Effect)
        → (((elim e [ allow ↦ true | deny ↦ false ]) ≡ true → e ≡ allow)
            × ((elim e [ allow ↦ true | deny ↦ false ]) ≡ false → e ≡ deny))
    go allow = (λ h. refl, λ h. cc)
    go deny = (λ h. cc, λ h. refl)

command_of-trace :
    (h : Heap) (p : Principal) (s : Shaped)
    → OnOk (λ c. c.correlation_id ≡ s.correlation_id) (command_of h p s)
unfolding command_of
command_of-trace h p s =
    >>=-OnOk (λ c. c.correlation_id ≡ s.correlation_id) (canonical_object h s.payload) _ λ j e. refl

module _ {V : Type 0} (sha256_of : Json → Text) (port : Collaborators V) where
  audit_with_reason-Grown :
      (guard : GuardRefusal) (reason : Text) (w : Recorded V)
      → Post
          (λ _ v. Grown sha256_of w.1 deny guard.correlation_id.uuid v)
          (Unwritten w.1)
          (audit_with_reason sha256_of (recorded port) guard reason w)
  unfolding audit_with_reason guard_request guard_command
  audit_with_reason-Grown guard reason w =
      let S : Recorded V → Type 0 = Unwritten w.1 in
      let R : Unit {0} → Recorded V → Type 0 =
        λ _ v. Grown sha256_of w.1 deny guard.correlation_id.uuid v in
      lift-Post R S (construct_decision (guard_decision guard reason)) _ w refl λ d made.
        >>=-Post (λ _. S) R S (silently (port.chain_head guard.principal.tenant_id)) _ w
          (silently-Unwritten (port.chain_head guard.principal.tenant_id) w w.1 refl)
          λ p u s.
            >>=-Post (λ _. S) R S (silently port.id_generator) _ u
              (silently-Unwritten port.id_generator u w.1 s)
              λ id x s.
                >>=-Post (λ _. S) R S (now (silently port.clock)) _ x
                  (now-Unwritten port.clock x w.1 s)
                  λ ts y s. lift-Post R S _ _ y s λ e entered.
                    let i : IsEntryOf sha256_of (λ _. Unit {0}) (guard_request guard) d e =
                      OnOk_elim (IsEntryOf sha256_of (λ _. Unit {0}) (guard_request guard) d) _
                        (decision_log_entry-IsEntryOf sha256_of (λ _. Unit {0})
                          (guard_request guard) d id Value.null (string ts) p tt)
                        entered in
                    let same : d ≡ guard_decision guard reason = construct_same _ d made in
                    Post-mono (λ _. Unwritten (e ∷ w.1)) R S S _
                      (written-Post e w.1 y.1 (port.append e y.0) s)
                      (λ _ v t. record {
                        entry = e;
                        appended = t;
                        effect = rw (i.of_decision, same) refl;
                        request_id = rw (i.of_request) refl;
                        hashed = i.hashed;
                      })
                      λ v t. t

  audit_identity_guard-Grown :
      (guard : GuardRefusal) (w : Recorded V)
      → Post
          (λ _ v. Grown sha256_of w.1 deny guard.correlation_id.uuid v)
          (Unwritten w.1)
          (audit_identity_guard sha256_of (recorded port) guard w)
  unfolding audit_identity_guard
  audit_identity_guard-Grown guard w = go (identity_guard_reason guard.code)
    where
      go :
          (r : Option Text)
          → Post
              (λ _ v. Grown sha256_of w.1 deny guard.correlation_id.uuid v)
              (Unwritten w.1)
              ((elim r as (λ _. Eff (Recorded V) (Unit {0})) [
                | none ↦ throw type_error
                | some reason ↦ audit_with_reason sha256_of (recorded port) guard reason
              ])
                w)
      go none = refl
      go (some reason) = audit_with_reason-Grown guard reason w

  module _ (current : Eff V (Heap × Principal))
      (evaluate_invariants : Action → Eff V (Option Value)) where
    abbrev stage : Stage (Recorded V)
    unfolding audited_stage
    stage =
        audited_stage sha256_of (recorded port) (silently current)
          (λ c. silently (evaluate_invariants c))

    refuse_at_guard-Witnessed :
        (k : Kind) (c : ErrorCode) (p : Principal) (s : Shaped) (w : Recorded V)
        → verdict_of (refused k c s.correlation_id.uuid) ≡ some deny
        → Post (Witnessed sha256_of w.1) (AtMostOne sha256_of w.1) (refuse_at_guard stage k c p s w)
    unfolding refuse_at_guard audit_refusal audited_stage
    refuse_at_guard-Witnessed k c p s w verdict =
        let guard : GuardRefusal = record {
          code = c;
          principal = p;
          correlation_id = s.correlation_id;
          fingerprint = s.fingerprint;
        } in
        let G : Unit {0} → Recorded V → Type 0 =
          λ _. Grown sha256_of w.1 deny s.correlation_id.uuid in
        >>=-Post G (Witnessed sha256_of w.1) (AtMostOne sha256_of w.1)
          (audit_identity_guard sha256_of (recorded port) guard) _ w
          (Post-mono G G (Unwritten w.1) (AtMostOne sha256_of w.1) _
            (audit_identity_guard-Grown guard w) (λ _ v g. g) λ v u. inl u)
          λ _ v g. rw verdict g

    decide_stage-Witnessed :
        (s : Shaped) (c : Action) (w : Recorded V)
        → c.correlation_id ≡ s.correlation_id
        → Post (Witnessed sha256_of w.1) (AtMostOne sha256_of w.1) (decide_stage stage s c w)
    unfolding decide_stage request_of audited_stage
    decide_stage-Witnessed s c w trace =
        let R : RunOutcome → Recorded V → Type 0 = Witnessed sha256_of w.1 in
        let Q : Recorded V → Type 0 = AtMostOne sha256_of w.1 in
        let G : Effect → Recorded V → Type 0 = λ x. Grown sha256_of w.1 x s.correlation_id.uuid in
        >>=-Post (λ d. G d.effect) R Q
          (decide_logged sha256_of (recorded port) (real (request_of c))) _ w
          (Post-mono _ (λ d. G d.effect) _ Q _ (decide_logged-Post sha256_of port (request_of c) w)
            (λ d v (e, appended, request, decision, hashed). record {
              entry = e;
              appended = appended;
              effect = rw decision refl;
              request_id = rw (request, trace) refl;
              hashed = hashed;
            })
            λ v u. inl u)
          λ d u g.
            if-Post R Q (is_allowed d) _ _ u
              (λ yes.
                let grown : G allow u = subst (λ x. G x u) ((is_allowed-effect d).0 yes) g in
                >>=-Post (λ _. G allow) R Q (silently (evaluate_invariants c)) _ u
                  (Post-mono _ (λ _. G allow) _ Q _
                    (silently-Unwritten (evaluate_invariants c) u u.1 refl)
                    (λ a v t. Grown-same sha256_of w.1 allow s.correlation_id.uuid u v t grown)
                    λ v t. inr (grown.entry, rw t grown.appended))
                  λ b v t. if-Post R Q (invariants_hold b) _ _ v (λ _. t) λ _. t)
              λ no. subst (λ x. G x u) ((is_allowed-effect d).1 no) g

    command_stage-Witnessed :
        (s : Shaped) (h : Heap) (p : Principal) (w : Recorded V)
        → Post (Witnessed sha256_of w.1) (AtMostOne sha256_of w.1) (command_stage stage s h p w)
    unfolding command_stage
    command_stage-Witnessed s h p w = go (command_of h p s) (command_of-trace h p s)
      where
        go :
            (m : Outcome Action)
            → OnOk (λ c. c.correlation_id ≡ s.correlation_id) m
            → Post (Witnessed sha256_of w.1) (AtMostOne sha256_of w.1) (
                (elim m as (λ _. Eff (Recorded V) RunOutcome) [
                  | err _ ↦ pure (refused invalid action_spec_invalid s.correlation_id.uuid)
                  | ok command ↦ decide_stage stage s command
                ])
                  w)
        go (err f) t = refl
        go (ok c) t = decide_stage-Witnessed s c w t

    guard_stage-Witnessed :
        (s : Shaped) (h : Heap) (p : Principal) (w : Recorded V)
        → Post (Witnessed sha256_of w.1) (AtMostOne sha256_of w.1) (guard_stage stage s h p w)
    unfolding guard_stage
    guard_stage-Witnessed s h p w =
        let R : RunOutcome → Recorded V → Type 0 = Witnessed sha256_of w.1 in
        let Q : Recorded V → Type 0 = AtMostOne sha256_of w.1 in
        if-Post R Q (text_eq p.tenant_id s.claimed_tenant_id) _ _ w
          (λ _.
            if-Post R Q (text_eq p.actor_id s.claimed_actor_id) _ _ w
              (λ _. command_stage-Witnessed s h p w)
              λ _. refuse_at_guard-Witnessed denied identity_mismatch p s w refl)
          λ _. refuse_at_guard-Witnessed cross_tenant cross_tenant_deny p s w refl

    -- What one run of the audited pipeline does to the log, whatever the collaborators do. If it
    -- answers, then a refusal for the shape of the action has appended nothing, and every other
    -- outcome exactly one entry, under the hash of its own content, on the request whose id it
    -- answers: an allow if the change may be committed or the invariants refused it, else a deny,
    -- also where the identity guard refused. If it throws, it has appended one entry at most.
    pub run-Witnessed :
        (sha256_hex : Text → Text) (address : ℕ) (h : Heap) (spec : Value) (w : Recorded V)
        → Post (Witnessed sha256_of w.1) (AtMostOne sha256_of w.1) (
            run
              (audited_stage sha256_of
                (recorded port)
                (silently current)
                (λ c. silently (evaluate_invariants c)))
              sha256_hex
              address
              h
              spec
              w)
    unfolding run audited_stage
    run-Witnessed sha256_hex address h spec w = go (shape_check sha256_hex address h spec)
      where
        go :
            (m : Outcome Shaped)
            → Post (Witnessed sha256_of w.1) (AtMostOne sha256_of w.1) (
                (elim m as (λ _. Eff (Recorded V) RunOutcome) [
                  | err _ ↦ pure (refused invalid action_spec_invalid (raw_request_id_of h spec))
                  | ok shaped ↦
                      silently current >>= λ (h, principal). guard_stage stage shaped h principal
                ])
                  w)
        go (err f) = refl
        go (ok s) =
            >>=-Post (λ _. Unwritten w.1) (Witnessed sha256_of w.1) (AtMostOne sha256_of w.1)
              (silently current) _ w
              (Post-mono _ (λ _. Unwritten w.1) _ (AtMostOne sha256_of w.1) _
                (silently-Unwritten current w w.1 refl) (λ _ v t. t) λ v t. inl t)
              λ (g, p) u t.
                subst
                  (λ log.
                    Post (Witnessed sha256_of log) (AtMostOne sha256_of log)
                      (guard_stage stage s g p u))
                  t (guard_stage-Witnessed s g p u)
