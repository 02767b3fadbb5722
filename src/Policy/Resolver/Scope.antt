-- ===== src/Policy/Resolver/Scope.antt =====
-- Which statements bear on a request, and what the set of them decides.
use metaframer_kernel.Base.{
  ◌≡◌, ◌↔◌, ◌⊎◌, refl, inl, inr, true, none, some, List, arith, In, map, ap, Option, In-map,
  In-of_map,
}
use metaframer_kernel.Text.{Text, codes, text_eq_iff}
use metaframer_kernel.Canonical.{Json, obj, str, Members, end, member}
use metaframer_kernel.Policy.Types.{Effect, allow, deny, PolicyRequest}
use metaframer_kernel.Policy.Statement.{PolicyStatement}
use metaframer_kernel.Policy.Evaluator.{Candidate, combine}
use metaframer_kernel.Policy.Evaluator.Combining.{
  Decides, denied, allowed, unmatched, Votes, combine-Decides,
}
use metaframer_kernel.Policy.Resolver.{
  get_member, target_actor_matches, only_actor_keys, condition_matches, resource_type_is,
  statement_applies, candidate_for, absent_or_equal, is_text,
}

-- Nothing under the key, or exactly this text.
abbrev pub Unrestricted : Text → Text → Members → Type 0
Unrestricted key t ms = (get_member key ms ≡ none) ⊎ (get_member key ms ≡ some (str t))

-- When a statement bears on a request.
pub record AppliesTo (s : PolicyStatement) (r : PolicyRequest) : Type 0 where
  pub is_enabled : s.enabled ≡ true
  pub same_action : s.target_action ≡ r.action.name
  pub resource_members : Members
  pub resource_object : r.resource ≡ obj resource_members
  pub same_type : get_member (codes "type") resource_members ≡ some (str s.target_resource_type)
  pub actor_members : Members
  pub actor_object : s.target_actor ≡ obj actor_members
  pub known_keys : only_actor_keys actor_members ≡ true
  pub same_tenant : Unrestricted (codes "tenantId") r.action.principal.tenant_id actor_members
  pub same_actor : Unrestricted (codes "actorId") r.action.principal.actor_id actor_members
  pub unconditional : s.condition ≡ obj end

unrestricted :
    (t : Text) (o : Option Json) → absent_or_equal t o ≡ true → (o ≡ none) ⊎ (o ≡ some (str t))
unrestricted t none h = inl refl
unrestricted t (some (str s)) h = inr (ap (λ x. some (str x)) ((text_eq_iff s t).0 h))
unrestricted t (some _) h = cc

unrestricted_sound :
    (t : Text) (o : Option Json) → (o ≡ none) ⊎ (o ≡ some (str t)) → absent_or_equal t o ≡ true
unrestricted_sound t o (inl e) = rw e
unrestricted_sound t o (inr e) = rw e ((text_eq_iff t t).1 refl)

is_text-some : (t : Text) (o : Option Json) → is_text t o ≡ true → o ≡ some (str t)
is_text-some t none h = cc
is_text-some t (some (str s)) h = ap (λ x. some (str x)) ((text_eq_iff s t).0 h)
is_text-some t (some _) h = cc

condition_end : (j : Json) → condition_matches j ≡ true → j ≡ obj end
unfolding condition_matches
condition_end (obj end) h = refl
condition_end (obj (member k v ms)) h = cc
condition_end _ h = cc

module _ (r : PolicyRequest) where
  actor_parts :
      (j : Json)
      → target_actor_matches j r ≡ true
      → (ms : Members) × (j ≡ obj ms)
        × (only_actor_keys ms ≡ true)
        × Unrestricted (codes "tenantId") r.action.principal.tenant_id ms
        × Unrestricted (codes "actorId") r.action.principal.actor_id ms
  unfolding target_actor_matches
  actor_parts (obj ms) h =
      (ms, refl, ground arith, unrestricted _ _ (ground arith), unrestricted _ _ (ground arith))
  actor_parts _ h = cc

  resource_parts :
      (t : Text) (j : Json)
      → resource_type_is t j ≡ true
      → (ms : Members) × (j ≡ obj ms) × (get_member (codes "type") ms ≡ some (str t))
  unfolding resource_type_is
  resource_parts t (obj ms) h = (ms, refl, is_text-some t _ h)
  resource_parts t _ h = cc

  pub AppliesTo-of_test : (s : PolicyStatement) → statement_applies s r ≡ true → AppliesTo s r
  unfolding statement_applies
  AppliesTo-of_test s h =
      let (rs, is_obj, type) = resource_parts s.target_resource_type r.resource (ground arith) in
      let (ms, is_obj', known, tenant, actor) = actor_parts s.target_actor (ground arith) in
      record {
        is_enabled = ground arith;
        same_action = (text_eq_iff s.target_action r.action.name).0 (ground arith);
        resource_members = rs;
        resource_object = is_obj;
        same_type = type;
        actor_members = ms;
        actor_object = is_obj';
        known_keys = known;
        same_tenant = tenant;
        same_actor = actor;
        unconditional = condition_end s.condition (ground arith);
      }

  pub test_of_AppliesTo : (s : PolicyStatement) → AppliesTo s r → statement_applies s r ≡ true
  unfolding statement_applies resource_type_is target_actor_matches condition_matches
  test_of_AppliesTo s a = rw (
    a.is_enabled,
    (text_eq_iff s.target_action r.action.name).1 a.same_action,
    a.resource_object,
    a.same_type,
    (text_eq_iff s.target_resource_type _).1 refl,
    a.actor_object,
    a.known_keys,
    unrestricted_sound r.action.principal.tenant_id _ a.same_tenant,
    unrestricted_sound r.action.principal.actor_id _ a.same_actor,
    a.unconditional,
  )

-- The effect that the evaluator combines from the resolver's candidates, past its checks of them.
unfoldable pub authorize : List PolicyStatement → PolicyRequest → Effect
authorize statements r = (combine r.action.correlation_id (map (candidate_for r) statements)).effect

-- A statement of the set with this effect, which bears on the request.
abbrev pub Speaks : Effect → List PolicyStatement → PolicyRequest → PolicyStatement → Type 0
Speaks e statements r s = In s statements × AppliesTo s r × (s.effect ≡ e)

Votes-of_Speaks :
    (e : Effect) (r : PolicyRequest) (statements : List PolicyStatement) (s : PolicyStatement)
    → Speaks e statements r s
    → Votes e (map (candidate_for r) statements) (candidate_for r s)
unfolding candidate_for
Votes-of_Speaks e₀ r statements s (m, a, e) =
    (In-map (candidate_for r) statements s m, test_of_AppliesTo r s a, e)

Speaks-of_Votes :
    (e : Effect) (r : PolicyRequest) (statements : List PolicyStatement) (c : Candidate)
    → Votes e (map (candidate_for r) statements) c
    → (s : PolicyStatement) × Speaks e statements r s
unfolding candidate_for
Speaks-of_Votes e₀ r statements c (m, a, e) =
    let (s, k, same) = In-of_map (candidate_for r) statements c m in
    (
      s,
      (
        k,
        AppliesTo-of_test r s (cc (ap (λ (d : Candidate). d.applies) same)),
        cc (ap (λ (d : Candidate). d.effect) same),
      ),
    )

Decides-allow_iff :
    {cs : List Candidate} {e : Effect} {m : Option Text}
    → Decides cs e m
    → (e ≡ allow) ↔ ((c : Candidate) × Votes allow cs c × ((d : Candidate) → ¬ Votes deny cs d))
Decides-allow_iff (denied c v top) = ((λ e. cc), (λ w. absurd (w.2 c v)))
Decides-allow_iff (allowed c v top free) = ((λ e. (c, v, free)), (λ w. refl))
Decides-allow_iff (unmatched empty) = ((λ e. cc), (λ w. absurd (empty allow w.0 w.1)))

-- The candidates of a set of statements, once admitted, combine to an allow exactly when some enabled allow statement bears on it (its
-- action, its resource type, its tenant and actor if it names them, and an empty condition) and no
-- deny statement does; with no statement that bears on it the answer is a deny.
pub authorize-allow_iff :
    (statements : List PolicyStatement) (r : PolicyRequest)
    → (authorize statements r ≡ allow) ↔ (
        ((s : PolicyStatement) × Speaks allow statements r s)
        × ((s : PolicyStatement) → ¬ Speaks deny statements r s))
unfolding authorize
authorize-allow_iff statements r =
    let cs = map (candidate_for r) statements in
    let (to, from) = Decides-allow_iff (combine-Decides r.action.correlation_id cs) in
    (
      (λ e.
          let (c, v, free) = to e in
          (
            Speaks-of_Votes allow r statements c v,
            λ s k. free (candidate_for r s) (Votes-of_Speaks deny r statements s k),
          )),
      (λ w. from (
        candidate_for r w.0.0,
        Votes-of_Speaks allow r statements w.0.0 w.0.1,
        λ d v. let (s, k) = Speaks-of_Votes deny r statements d v in w.1 s k,
      )),
    )

-- A statement that names a tenant bears only on the requests of that tenant.
pub AppliesTo-tenant :
    (s : PolicyStatement) (r : PolicyRequest) (ms : Members) (t : Text)
    → statement_applies s r ≡ true
    → s.target_actor ≡ obj ms
    → get_member (codes "tenantId") ms ≡ some (str t)
    → t ≡ r.action.principal.tenant_id
AppliesTo-tenant s r ms t h e k =
    let a = AppliesTo-of_test r s h in
    let same : a.actor_members ≡ ms = cc (a.actor_object) in named (rw same at a.same_tenant)
  where
    named :
        Unrestricted (codes "tenantId") r.action.principal.tenant_id ms
        → t ≡ r.action.principal.tenant_id
    named (inl none_there) = cc
    named (inr there) = cc
