-- ===== src/DecisionLog/Audit.antt =====
-- src/application/decision-logging-policy-decision-point.mjs: what a run of it writes to the log.
use metaframer_kernel.Base.{
  ◌≡◌, refl, List, ◌∷◌, Outcome, ok, err, OnOk, OnOk_elim, >>=-OnOk, require-OnOk, ◌==◌, type_error,
}
use metaframer_kernel.Base.Effects.{Eff, lift, Post, >>=-Post, lift-Post, Post-mono}
use metaframer_kernel.Text.{Text}
use metaframer_kernel.Js.{Value, string}
use metaframer_kernel.Canonical.{Json}
use metaframer_kernel.Clock.Port.{now, check_reading}
use metaframer_kernel.Policy.Types.{PolicyRequest, PolicyDecision, real, genuine}
use metaframer_kernel.Policy.Evaluator.{decide}
use metaframer_kernel.DecisionLog.{
  LogEntry, decision_log_entry, plain_payload, prev_hash_value, instance_of, ulid_value,
  layer_resolved_value, timestamp_value,
}
use metaframer_kernel.DecisionLog.Point.{Collaborators, layer_of, log_one, decide_logged, tenant_of}

-- The world of the collaborators, and the entries that `append` took, the last first.
abbrev pub Recorded : Type 0 → Type 0
Recorded V = V × List LogEntry

module _ {V : Type 0} where
  abbrev pub silently : {A : Type 0} → Eff V A → Eff (Recorded V) A
  silently m w = ((m w.0).0, ((m w.0).1, w.1))

  abbrev pub written :
      LogEntry → List LogEntry → Outcome (Unit {0}) × V → Outcome (Unit {0}) × Recorded V
  written e log (ok _, v) = (ok tt, (v, e ∷ log))
  written e log (err f, v) = (err f, (v, log))

  abbrev pub recorded : Collaborators V → Collaborators (Recorded V)
  recorded port = record {
    candidates_for = λ r. silently (port.candidates_for r);
    append = λ e w. written e w.1 (port.append e w.0);
    id_generator = silently port.id_generator;
    clock = silently port.clock;
    chain_head = λ t. silently (port.chain_head t);
  }

  -- The log still holds `log`.
  abbrev pub Unwritten : List LogEntry → Recorded V → Type 0
  Unwritten log u = u.1 ≡ log

  pub silently-Unwritten :
      {A : Type 0} (m : Eff V A) (w : Recorded V) (log : List LogEntry)
      → w.1 ≡ log
      → Post (λ a. Unwritten log) (Unwritten log) (silently m w)
  silently-Unwritten {A} m w log h = go ((m w.0).0)
    where
      go : (o : Outcome A) → Post (λ a. Unwritten log) (Unwritten log) (o, ((m w.0).1, w.1))
      go (ok a) = h
      go (err e) = h

  pub written-Post :
      (e : LogEntry) (log old : List LogEntry) (r : Outcome (Unit {0}) × V)
      → old ≡ log
      → Post (λ a. Unwritten (e ∷ log)) (Unwritten log) (written e old r)
  written-Post e log old (ok _, v) h = rw h refl
  written-Post e log old (err f, v) h = h

  lift-Unwritten :
      {A : Type 0} (o : Outcome A) (w : Recorded V) (log : List LogEntry)
      → w.1 ≡ log
      → Post (λ a. Unwritten log) (Unwritten log) (lift o w)
  lift-Unwritten (ok a) w log h = h
  lift-Unwritten (err e) w log h = h

  pub now-Unwritten :
      (clock : Eff V Value) (w : Recorded V) (log : List LogEntry)
      → w.1 ≡ log
      → Post (λ a. Unwritten log) (Unwritten log) (now (silently clock) w)
  unfolding now
  now-Unwritten clock w log h =
      >>=-Post (λ _. Unwritten log) (λ _. Unwritten log) (Unwritten log) (silently clock) _ w
        (silently-Unwritten clock w log h)
        λ reading u s. lift-Unwritten (check_reading reading) u log s

module _ (sha256_of : Json → Text) where
  -- The entry is that of this decision on this request: it points at one of the hashes `Prev`, and
  -- its own hash is that of everything else in it.
  pub record IsEntryOf (Prev : Value → Type 0) (r : PolicyRequest) (d : PolicyDecision)
      (e : LogEntry) : Type 0 where
    pub of_request : e.request ≡ r
    pub of_decision : e.decision ≡ d
    pub previous : (p : Value) × Prev p × (prev_hash_value p ≡ ok e.prev_hash)
    pub hashed : e.entry_hash ≡ sha256_of (plain_payload e)

  pub decision_log_entry-IsEntryOf :
      (Prev : Value → Type 0) (r : PolicyRequest) (d : PolicyDecision) (id layer ts p : Value)
      → Prev p
      → OnOk (IsEntryOf Prev r d) (
          decision_log_entry sha256_of (record {
            id = id;
            request = real r;
            decision = real d;
            layer_resolved = layer;
            ts = ts;
            prev_hash = p;
          }))
  unfolding decision_log_entry instance_of genuine plain_payload
  decision_log_entry-IsEntryOf Prev r d id layer ts p h =
      let Q : LogEntry → Type 0 = IsEntryOf Prev r d in
      >>=-OnOk Q (ulid_value id) _ λ i _.
        require-OnOk Q (d.trace_id.address == r.action.correlation_id.address) type_error _ λ _.
          >>=-OnOk Q (layer_resolved_value layer d) _ λ l _.
            >>=-OnOk Q (timestamp_value ts) _ λ t _. >>=-OnOk Q (prev_hash_value p) _ λ o e.
              record { of_request = refl; of_decision = refl; previous = (p, h, e); hashed = refl }

  module _ {V : Type 0} (port : Collaborators V) where
    pub log_one-Post :
        (Prev : Value → Type 0) (r : PolicyRequest) (resolve : Eff (Recorded V) Value)
        (w : Recorded V)
        → ((u : Recorded V)
            → u.1 ≡ w.1
            → Post (λ p v. Prev p × Unwritten w.1 v) (Unwritten w.1) (resolve u))
        → Post
            (λ logged v. IsEntryOf Prev r logged.0 logged.1 × Unwritten (logged.1 ∷ w.1) v)
            (Unwritten w.1)
            (log_one sha256_of (recorded port) r resolve w)
    unfolding log_one now
    log_one-Post Prev r resolve w h =
        let S : Recorded V → Type 0 = Unwritten w.1 in
        let R : PolicyDecision × LogEntry → Recorded V → Type 0 =
          λ logged v. IsEntryOf Prev r logged.0 logged.1 × Unwritten (logged.1 ∷ w.1) v in
        >>=-Post (λ _. S) R S (silently (port.candidates_for r)) _ w
          (silently-Unwritten (port.candidates_for r) w w.1 refl)
          λ answer u s. lift-Post R S (decide answer.0 (real r) answer.1) _ u s λ d _.
            lift-Post R S (layer_of answer.0 answer.1 d.matched_policy_id) _ u s λ layer _.
              >>=-Post (λ p v. Prev p × S v) R S resolve _ u (h u s)
                λ p v (good, s).
                  >>=-Post (λ _. S) R S (silently port.id_generator) _ v
                    (silently-Unwritten port.id_generator v w.1 s)
                    λ id x s.
                      >>=-Post (λ _. S) R S (now (silently port.clock)) _ x
                        (now-Unwritten port.clock x w.1 s)
                        λ ts y s. lift-Post R S _ _ y s λ e made.
                          let whole : IsEntryOf Prev r d e =
                            OnOk_elim (IsEntryOf Prev r d) _
                              (decision_log_entry-IsEntryOf Prev r d id layer (string ts) p good)
                              made in
                          >>=-Post (λ _. Unwritten (e ∷ w.1)) R S ((recorded port).append e) _ y
                            (written-Post e w.1 y.1 (port.append e y.0) s) λ _ z t. (whole, t)

    -- `decide` answers a decision only after it appended one entry, which records that very request
    -- and decision under its own hash; a call that throws has appended nothing.
    pub decide_logged-Post :
        (r : PolicyRequest) (w : Recorded V)
        → Post
            (λ d v.
              (e : LogEntry) × (v.1 ≡ e ∷ w.1)
              × (e.request ≡ r)
              × (e.decision ≡ d)
              × (e.entry_hash ≡ sha256_of (plain_payload e)))
            (λ v. v.1 ≡ w.1)
            (decide_logged sha256_of (recorded port) (real r) w)
    unfolding decide_logged genuine
    decide_logged-Post r w =
        >>=-Post
          (λ logged v. IsEntryOf (λ _. Unit) r logged.0 logged.1 × Unwritten (logged.1 ∷ w.1) v) _
          (Unwritten w.1)
          (log_one sha256_of (recorded port) r (silently (port.chain_head (tenant_of r)))) _ w
          (log_one-Post (λ _. Unit) r (silently (port.chain_head (tenant_of r))) w
            λ u s.
              Post-mono (λ _. Unwritten w.1) _ (Unwritten w.1) _ _
                (silently-Unwritten (port.chain_head (tenant_of r)) u w.1 s) (λ p v t. (tt, t))
                (λ v t. t))
          λ logged v (i, t). (logged.1, t, i.of_request, i.of_decision, i.hashed)
