-- ===== src/Policy/Point/Batch.antt =====
-- src/application/policy-batch-evaluator.mjs: what a batch of requests has to do with the single
-- decisions, and what is refused before the collaborator is asked anything.
use metaframer_kernel.Base.{
  ◌≡◌, refl, inl, inr, Option, none, some, List, [], ◌∷◌, ◌++◌, ok, err, Fault, type_error, In, map,
}
use metaframer_kernel.Base.Effects.{Eff, >>=-eq-ok}
use metaframer_kernel.Js.{Value, Heap}
use metaframer_kernel.Policy.Types.{PolicyRequest, PolicyDecision, Foreign, genuine, real}
use metaframer_kernel.Policy.Evaluator.{Candidate, check_candidates, decide}
use metaframer_kernel.Policy.Evaluator.Combining.{Decides}
use metaframer_kernel.Policy.Evaluator.Admission.{decide-Decides}
use metaframer_kernel.Policy.Point.{point_decide, decide_each, check_requests, decide_all}

check_requests-impostor :
    (vs : List (Foreign PolicyRequest)) (v : Foreign PolicyRequest)
    → In v vs
    → genuine v ≡ none
    → check_requests vs ≡ err type_error
unfolding check_requests
check_requests-impostor [] v m h = absurd m
check_requests-impostor (x ∷ vs) v (inl e) h =
    let same : genuine x ≡ none = rw (← e) h in rw (check_requests, same) refl
check_requests-impostor (x ∷ vs) v (inr m) h = later (genuine x) (check_requests-impostor vs v m h)
  where
    later :
        (g : Option PolicyRequest)
        → check_requests vs ≡ err type_error
        → (elim g [
          | none ↦ err type_error
          | some r ↦ elim (check_requests vs) [ ok rs ↦ ok (r ∷ rs) | err e ↦ err e ]
        ])
          ≡ err type_error
    later none e = refl
    later (some r) e = rw e refl

check_requests-real : (rs : List PolicyRequest) → check_requests (map real rs) ≡ ok rs
unfolding check_requests genuine
check_requests-real [] = refl
check_requests-real (r ∷ rs) = rw (check_requests-real rs) refl

module _ {W : Type 0} (candidates_for : PolicyRequest → Eff W (Heap × Value)) where
  -- What one decision of a batch is: the collaborator was asked about this very request, in the
  -- world `w`, and the decision is what deny-overrides makes of the candidates it answered.
  abbrev pub DecidedIn : W → PolicyRequest → PolicyDecision → W → Type 0
  DecidedIn w r d v =
      (h : Heap) × (answer : Value) × (cs : List Candidate) × (candidates_for r w
        ≡ (ok (h, answer), v))
      × (check_candidates h answer ≡ ok cs)
      × Decides cs d.effect d.matched_policy_id
      × (d.trace_id ≡ r.action.correlation_id)

  -- The decisions stand in the order of the requests, each made in the world the one before left.
  abbrev pub DecidedAll : W → List PolicyRequest → List PolicyDecision → W → Type 0
  DecidedAll w [] [] v = w ≡ v
  DecidedAll w (r ∷ rs) (d ∷ ds) v = (u : W) × DecidedIn w r d u × DecidedAll u rs ds v
  DecidedAll w _ _ v = ⊥

  pub point_decide-DecidedIn :
      (r : PolicyRequest) (w v : W) (d : PolicyDecision)
      → point_decide candidates_for (real r) w ≡ (ok d, v)
      → DecidedIn w r d v
  unfolding point_decide genuine
  point_decide-DecidedIn r w v d e =
      let ((h, answer), u, asked, k) = >>=-eq-ok (candidates_for r) _ e in
      let decided : decide h (real r) answer ≡ ok d = cc in
      let same : u ≡ v = cc in
      let (cs, checked, rule, traced) = decide-Decides h r answer d decided in
      (h, answer, cs, rw (← same) asked, checked, rule, traced)

  decide_each-DecidedAll :
      (rs : List PolicyRequest) (w v : W) (ds : List PolicyDecision)
      → decide_each candidates_for rs w ≡ (ok ds, v)
      → DecidedAll w rs ds v
  unfolding decide_each
  decide_each-DecidedAll [] w v [] e = cc
  decide_each-DecidedAll [] w v (d ∷ ds) e = cc
  decide_each-DecidedAll (r ∷ rs) w v ds e =
      let (d, u, first, k) = >>=-eq-ok (point_decide candidates_for (real r)) _ e in
      let (rest, u', others, j) = >>=-eq-ok (decide_each candidates_for rs) _ k in
      let both : DecidedAll w (r ∷ rs) (d ∷ rest) u' =
        (u, point_decide-DecidedIn r w u d first, decide_each-DecidedAll rs u u' rest others) in
      let same : (d ∷ rest) ≡ ds = cc in let end' : u' ≡ v = cc in rw (← same, ← end') both

  -- A batch that holds one value that is no genuine request is refused with a TypeError before any
  -- candidate is asked for: the world stays as it was.
  pub decide_all-refused :
      (vs : List (Foreign PolicyRequest)) (v : Foreign PolicyRequest) (w : W)
      → In v vs
      → genuine v ≡ none
      → decide_all candidates_for (some vs) w ≡ (err type_error, w)
  unfolding decide_all
  decide_all-refused vs v w m h = rw (check_requests-impostor vs v m h) refl

  -- A batch of genuine requests that is answered has one decision for each request, in their order;
  -- each was made of the candidates the collaborator answered for that request, in the world that
  -- the decision before it left, and carries the correlation id of its request.
  pub decide_all-DecidedAll :
      (rs : List PolicyRequest) (w v : W) (ds : List PolicyDecision)
      → decide_all candidates_for (some (map real rs)) w ≡ (ok ds, v)
      → DecidedAll w rs ds v
  unfolding decide_all
  decide_all-DecidedAll rs w v ds e =
      let run : decide_each candidates_for rs w ≡ (ok ds, v) = rw (check_requests-real rs) at e in
      decide_each-DecidedAll rs w v ds run

  -- The first request whose decision fails ends the batch with that very fault, and none of the
  -- requests after it is decided.
  pub decide_each-stops :
      (rs ss : List PolicyRequest) (r : PolicyRequest) (w u v : W) (ds : List PolicyDecision)
      (f : Fault)
      → decide_each candidates_for rs w ≡ (ok ds, u)
      → point_decide candidates_for (real r) u ≡ (err f, v)
      → decide_each candidates_for (rs ++ (r ∷ ss)) w ≡ (err f, v)
  unfolding decide_each
  decide_each-stops [] ss r w u v ds f h k = let same : w ≡ u = cc in rw (same, k) refl
  decide_each-stops (q ∷ rs) ss r w u v ds f h k =
      let (d, x, first, j) = >>=-eq-ok (point_decide candidates_for (real q)) _ h in
      let (rest, y, others, i) = >>=-eq-ok (decide_each candidates_for rs) _ j in
      let same : y ≡ u = cc in
      rw (first, decide_each-stops rs ss r x u v rest f (rw (← same) others) k) refl
