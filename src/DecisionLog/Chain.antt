-- ===== src/DecisionLog/Chain.antt =====
-- src/application/decision-logging-policy-decision-point.mjs: the chain of hashes of a batch.
use metaframer_kernel.Base.{
  ◌≡◌, refl, Option, none, some, List, [], ◌∷◌, ok, map, find, Bool, true, false, if◌then◌else◌,
  arith,
}
use metaframer_kernel.Base.Effects.{Eff, pure, Post, >>=-Post, lift-Post, Post-mono}
use metaframer_kernel.Text.{Text, text_eq}
use metaframer_kernel.Js.{Value, string}
use metaframer_kernel.Canonical.{Json}
use metaframer_kernel.Policy.Types.{PolicyRequest, PolicyDecision, Foreign}
use metaframer_kernel.Policy.Point.{check_requests}
use metaframer_kernel.DecisionLog.{LogEntry, plain_payload, prev_hash_value}
use metaframer_kernel.DecisionLog.Point.{
  Collaborators, log_one, decide_each_logged, decide_all_logged, resolve_prev_hash, tenant_of,
  Heads, get_head,
}
use metaframer_kernel.DecisionLog.Audit.{
  Recorded, recorded, silently, silently-Unwritten, Unwritten, IsEntryOf, log_one-Post,
}

-- The last entry of a tenant in a log that holds the last entry first.
abbrev pub latest : Text → List LogEntry → Option LogEntry
latest t = find (λ e. text_eq (tenant_of e.request) t)

-- Every entry whose tenant has an earlier one points at the last of those, and carries the hash of
-- its own payload, of which that pointer is a part.
abbrev pub Linked : (Json → Text) → List LogEntry → Type 0
Linked sha256_of [] = Unit
Linked sha256_of (e ∷ es) =
    ((p : LogEntry) → latest (tenant_of e.request) es ≡ some p → e.prev_hash ≡ some p.entry_hash)
    × (e.entry_hash ≡ sha256_of (plain_payload e))
    × Linked sha256_of es

abbrev pub reverse_onto : {A : Type 0} → List A → List A → List A
reverse_onto [] ys = ys
reverse_onto (x ∷ xs) ys = reverse_onto xs (x ∷ ys)

abbrev heads_of : List LogEntry → Heads
heads_of = map (λ e. (tenant_of e.request, e.entry_hash))

get_head-latest :
    (t : Text) (es : List LogEntry) (p : LogEntry)
    → latest t es ≡ some p
    → get_head t (heads_of es) ≡ some p.entry_hash
unfolding get_head
get_head-latest t [] p h = cc
get_head-latest t (e ∷ es) p h = first (text_eq (tenant_of e.request) t) h (get_head-latest t es p)
  where
    first :
        (b : Bool)
        → (if b then some e else latest t es) ≡ some p
        → (latest t es ≡ some p → get_head t (heads_of es) ≡ some p.entry_hash)
        → (if b then some e.entry_hash else get_head t (heads_of es)) ≡ some p.entry_hash
    first true h k = let same : e ≡ p = cc in rw same refl
    first false h k = k h

-- What `resolvePrevHash` may answer, if the batch has already logged for this tenant.
abbrev IsHead : List LogEntry → PolicyRequest → Value → Type 0
IsHead log r p = (q : LogEntry) → latest (tenant_of r) log ≡ some q → p ≡ string q.entry_hash

prev_hash_value-string :
    (s : Text) (o : Option Text) → prev_hash_value (string s) ≡ ok o → o ≡ some s
unfolding prev_hash_value
prev_hash_value-string s o h = grind arith

module _ (sha256_of : Json → Text) {V : Type 0} (port : Collaborators V) where
  resolve_prev_hash-IsHead :
      (log : List LogEntry) (r : PolicyRequest) (u : Recorded V)
      → u.1 ≡ log
      → Post
          (λ p v. IsHead log r p × Unwritten log v)
          (Unwritten log)
          (resolve_prev_hash sha256_of (recorded port) (heads_of log) r u)
  unfolding resolve_prev_hash
  resolve_prev_hash-IsHead log r u h =
      go (get_head (tenant_of r) (heads_of log)) (λ q. get_head-latest (tenant_of r) log q)
    where
      go :
          (g : Option Text)
          → ((q : LogEntry) → latest (tenant_of r) log ≡ some q → g ≡ some q.entry_hash)
          → Post
              (λ p v. IsHead log r p × Unwritten log v)
              (Unwritten log)
              ((elim g as (λ _. Eff (Recorded V) Value) [
                | none ↦ silently (port.chain_head (tenant_of r))
                | some hash ↦ pure (string hash)
              ])
                u)
      go none k =
          Post-mono (λ _. Unwritten log) _ (Unwritten log) _ _
            (silently-Unwritten (port.chain_head (tenant_of r)) u log h)
            (λ p v t. (λ q e. absurd (none-some (k q e)), t)) (λ v t. t)
        where
          none-some : {x : Text} → none ≡ some x → ⊥
          none-some e = cc
      go (some hash) k = (
        λ q e.
            let here : some hash ≡ some q.entry_hash = k q e in
            let same : hash ≡ q.entry_hash = cc in rw same refl,
        h,
      )

  Linked-step :
      (r : PolicyRequest) (d : PolicyDecision) (e : LogEntry) (log : List LogEntry)
      → Linked sha256_of log
      → IsEntryOf sha256_of (IsHead log r) r d e
      → Linked sha256_of (e ∷ log)
  Linked-step r d e log l i =
      let (p, head, prev) = i.previous in
      (
        (λ q found.
            let at_r : latest (tenant_of r) log ≡ some q = rw (← i.of_request) found in
            let same : p ≡ string q.entry_hash = head q at_r in
            prev_hash_value-string q.entry_hash e.prev_hash (rw (← same) prev)),
        i.hashed,
        l,
      )

  abbrev Answered : List LogEntry → List PolicyDecision → Recorded V → Type 0
  Answered log ds v =
      Linked sha256_of v.1
      × (map (λ e. e.decision) v.1 ≡ reverse_onto ds (map (λ e. e.decision) log))

  abbrev Broken : Recorded V → Type 0
  Broken v = Linked sha256_of v.1

  abbrev Logged : List LogEntry → PolicyRequest → PolicyDecision × LogEntry → Recorded V → Type 0
  Logged log r logged v =
      IsEntryOf sha256_of (IsHead log r) r logged.0 logged.1 × Unwritten (logged.1 ∷ log) v

  log_one-Logged :
      (r : PolicyRequest) (heads : Heads) (w : Recorded V)
      → heads ≡ heads_of w.1
      → Linked sha256_of w.1
      → Post (Logged w.1 r) Broken (
          log_one sha256_of
            (recorded port)
            r
            (resolve_prev_hash sha256_of (recorded port) heads r)
            w)
  log_one-Logged r heads w h l =
      Post-mono (Logged w.1 r) (Logged w.1 r) (Unwritten w.1) Broken
        (log_one sha256_of (recorded port) r (resolve_prev_hash sha256_of (recorded port) heads r)
          w)
        (log_one-Post sha256_of port (IsHead w.1 r) r
          (resolve_prev_hash sha256_of (recorded port) heads r) w
          (λ u s. rw (h) (resolve_prev_hash-IsHead w.1 r u s)))
        (λ logged v t. t) (λ v t. rw (t) l)

  decide_each_logged-Linked :
      (rs : List PolicyRequest) (heads : Heads) (w : Recorded V)
      → heads ≡ heads_of w.1
      → Linked sha256_of w.1
      → Post (Answered w.1) Broken (decide_each_logged sha256_of (recorded port) heads rs w)
  unfolding decide_each_logged
  decide_each_logged-Linked [] heads w h l = (l, refl)
  decide_each_logged-Linked (r ∷ rs) heads w h l =
      >>=-Post (Logged w.1 r) (Answered w.1) Broken
        (log_one sha256_of (recorded port) r (resolve_prev_hash sha256_of (recorded port) heads r))
        _ w (log_one-Logged r heads w h l)
        λ (d, e) v (i, t).
          let heads' : Heads = (tenant_of r, e.entry_hash) ∷ heads in
          >>=-Post (Answered v.1) (Answered w.1) Broken
            (decide_each_logged sha256_of (recorded port) heads' rs) _ v
            (decide_each_logged-Linked rs heads' v (rw (t, i.of_request, h) refl)
              (rw (t) (Linked-step r d e w.1 l i)))
            λ ds x (lx, mx). (lx, rw (t, i.of_decision) at mx)

  -- However a batch ends, the entries it has appended form a chain for each tenant: every one but
  -- the first of a tenant points at the hash of that tenant's entry before it, and each carries
  -- the hash of its own payload. A batch that is answered has appended one entry for each of its
  -- decisions, in their order.
  pub decide_all_logged-Linked :
      (vs : Option (List (Foreign PolicyRequest))) (v : V)
      → Post
          (λ ds u. Linked sha256_of u.1 × (map (λ e. e.decision) u.1 ≡ reverse_onto ds []))
          (λ u. Linked sha256_of u.1)
          (decide_all_logged sha256_of (recorded port) vs (v, []))
  unfolding decide_all_logged
  decide_all_logged-Linked none v = tt
  decide_all_logged-Linked (some vs) v =
      lift-Post _ Broken (check_requests vs) _ (v, []) tt
        λ rs _. decide_each_logged-Linked rs [] (v, []) refl tt
