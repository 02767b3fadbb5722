-- ===== src/Policy/Evaluator/Combining.antt =====
-- Deny-overrides: what `decide` answers, stated without its loops and filters.
use metaframer_kernel.Base.{
  ◌≡◌, ◌⊎◌, refl, ap, inl, inr, true, none, some, List, [], ◌∷◌, arith, In, Bool-cases, Option,
  ltb_ℤ, ltb, eq_of_parts, ◌<ℤ◌, ◌<◌, filter, In-filter, In-of_filter,
}
use metaframer_kernel.Text.{Text, text_lt}
use metaframer_kernel.Policy.Types.{
  Effect, allow, deny, Layer, system, platform, tenant, CorrelationId,
}
use metaframer_kernel.Policy.Evaluator.{
  Candidate, beats, winner_from, is_deny, is_allow, applicable, decision_of, combine, layer_rank,
}
use metaframer_kernel.Policy.Evaluator.Winner.{winner_from_unbeaten, winner_from-In}

-- System stands above platform, and platform above tenant.
pub data Above : Layer → Layer → Type 0 where
  system_platform : Above system platform
  system_tenant : Above system tenant
  platform_tenant : Above platform tenant

-- The precedence of two candidates: priority, then layer, then the smaller id.
abbrev pub Outranks : Candidate → Candidate → Type 0
Outranks a b =
    (b.priority <ℤ a.priority)
    ⊎ ((a.priority ≡ b.priority)
        × (Above a.layer b.layer
            ⊎ ((a.layer ≡ b.layer) × (text_lt a.policy_id b.policy_id ≡ true))))

layer_rank-Above : (k l : Layer) → layer_rank l < layer_rank k → Above k l
layer_rank-Above system platform h = system_platform
layer_rank-Above system tenant h = system_tenant
layer_rank-Above platform tenant h = platform_tenant
layer_rank-Above system system h = absurd (omega arith)
layer_rank-Above platform system h = absurd (omega arith)
layer_rank-Above platform platform h = absurd (omega arith)
layer_rank-Above tenant system h = absurd (omega arith)
layer_rank-Above tenant platform h = absurd (omega arith)
layer_rank-Above tenant tenant h = absurd (omega arith)

Above-layer_rank : {k l : Layer} → Above k l → layer_rank l < layer_rank k
Above-layer_rank system_platform = omega arith
Above-layer_rank system_tenant = omega arith
Above-layer_rank platform_tenant = omega arith

layer_rank_injective : (k l : Layer) → layer_rank k ≡ layer_rank l → k ≡ l
layer_rank_injective system system h = refl
layer_rank_injective platform platform h = refl
layer_rank_injective tenant tenant h = refl
layer_rank_injective system platform h = absurd (omega arith)
layer_rank_injective system tenant h = absurd (omega arith)
layer_rank_injective platform system h = absurd (omega arith)
layer_rank_injective platform tenant h = absurd (omega arith)
layer_rank_injective tenant system h = absurd (omega arith)
layer_rank_injective tenant platform h = absurd (omega arith)

-- The same by the ranks of the layers.
abbrev RankOutranks : Candidate → Candidate → Type 0
RankOutranks a b =
    (b.priority <ℤ a.priority)
    ⊎ ((a.priority ≡ b.priority)
        × ((layer_rank b.layer < layer_rank a.layer)
            ⊎ ((layer_rank a.layer ≡ layer_rank b.layer)
                × (text_lt a.policy_id b.policy_id ≡ true))))

RankOutranks-of_beats : (a b : Candidate) → beats a b ≡ true → RankOutranks a b
unfolding beats
RankOutranks-of_beats a b h = elim (Bool-cases (ltb_ℤ b.priority a.priority)) [
  | inl greater ↦ inl (ground arith)
  | inr not_greater ↦ elim (Bool-cases (ltb_ℤ a.priority b.priority)) [
    | inl less ↦ absurd (ground arith)
    | inr not_less ↦ inr (
      eq_of_parts a.priority b.priority (ground arith),
      elim (Bool-cases (ltb (layer_rank b.layer) (layer_rank a.layer))) [
        | inl above ↦ inl (ground arith)
        | inr not_above ↦ inr (ground arith, ground arith)
      ],
    )
  ]
]

beats_of_RankOutranks : (a b : Candidate) → RankOutranks a b → beats a b ≡ true
unfolding beats
beats_of_RankOutranks a b h = ground arith

Outranks-of_rank : (a b : Candidate) → RankOutranks a b → Outranks a b
Outranks-of_rank a b (inl p) = inl p
Outranks-of_rank a b (inr (p, inl l)) = inr (p, inl (layer_rank-Above a.layer b.layer l))
Outranks-of_rank a b (inr (p, inr (l, t))) =
    inr (p, inr (layer_rank_injective a.layer b.layer l, t))

rank_of_Outranks : (a b : Candidate) → Outranks a b → RankOutranks a b
rank_of_Outranks a b (inl p) = inl p
rank_of_Outranks a b (inr (p, inl l)) = inr (p, inl (Above-layer_rank l))
rank_of_Outranks a b (inr (p, inr (l, t))) = inr (p, inr (ap layer_rank l, t))

pub Outranks-of_beats : (a b : Candidate) → beats a b ≡ true → Outranks a b
Outranks-of_beats a b h = Outranks-of_rank a b (RankOutranks-of_beats a b h)

pub beats_of_Outranks : (a b : Candidate) → Outranks a b → beats a b ≡ true
beats_of_Outranks a b h = beats_of_RankOutranks a b (rank_of_Outranks a b h)

-- A candidate of one effect that applies.
abbrev pub Votes : Effect → List Candidate → Candidate → Type 0
Votes e cs c = In c cs × (c.applies ≡ true) × (c.effect ≡ e)

-- The deny-overrides rule: an applicable deny decides before every allow, the candidate that is
-- named outranks or ties all others that voted alike, and no vote at all is a deny without a name.
pub data Decides (cs : List Candidate) : Effect → Option Text → Type 0 where
  denied :
      (c : Candidate)
      → Votes deny cs c
      → ((d : Candidate) → Votes deny cs d → ¬ Outranks d c)
      → Decides cs deny (some c.policy_id)
  allowed :
      (c : Candidate)
      → Votes allow cs c
      → ((d : Candidate) → Votes allow cs d → ¬ Outranks d c)
      → ((d : Candidate) → ¬ Votes deny cs d)
      → Decides cs allow (some c.policy_id)
  unmatched : ((e : Effect) (d : Candidate) → ¬ Votes e cs d) → Decides cs deny none

voters : Effect → List Candidate → List Candidate
voters deny cs = filter is_deny (applicable cs)
voters allow cs = filter is_allow (applicable cs)

In-voters : (e : Effect) (cs : List Candidate) (c : Candidate) → Votes e cs c → In c (voters e cs)
unfolding voters is_deny is_allow
In-voters deny cs c (m, a, e) = In-filter is_deny _ c (In-filter (λ d. d.applies) cs c m a) (rw e)
In-voters allow cs c (m, a, e) = In-filter is_allow _ c (In-filter (λ d. d.applies) cs c m a) (rw e)

Votes-of_In : (e : Effect) (cs : List Candidate) (c : Candidate) → In c (voters e cs) → Votes e cs c
unfolding voters is_deny is_allow
Votes-of_In deny cs c m =
    let (k, e) = In-of_filter is_deny (applicable cs) c m in
    let (i, a) = In-of_filter (λ d. d.applies) cs c k in (i, a, ground arith)
Votes-of_In allow cs c m =
    let (k, e) = In-of_filter is_allow (applicable cs) c m in
    let (i, a) = In-of_filter (λ d. d.applies) cs c k in (i, a, ground arith)

unbeaten :
    (e : Effect) (cs : List Candidate) (w : Candidate) (ws : List Candidate)
    → voters e cs ≡ w ∷ ws
    → (d : Candidate) → Votes e cs d
    → ¬ Outranks d (winner_from w ws)
unbeaten e cs w ws same d v o =
    let k : In d (w ∷ ws) = rw same at (In-voters e cs d v) in
    cc (winner_from_unbeaten d w ws k, beats_of_Outranks d (winner_from w ws) o)

votes :
    (e : Effect) (cs : List Candidate) (w : Candidate) (ws : List Candidate)
    → voters e cs ≡ w ∷ ws
    → Votes e cs (winner_from w ws)
votes e cs w ws same = Votes-of_In e cs _ (rw same (winner_from-In w ws))

none-Votes :
    (e : Effect) (cs : List Candidate) → voters e cs ≡ [] → (d : Candidate) → ¬ Votes e cs d
none-Votes e cs same d v = let k : In d [] = rw same at (In-voters e cs d v) in k

decision_of-Decides :
    (t : CorrelationId) (cs ds as' : List Candidate)
    → voters deny cs ≡ ds
    → voters allow cs ≡ as'
    → Decides cs (decision_of t ds as').effect (decision_of t ds as').matched_policy_id
unfolding decision_of
decision_of-Decides t cs (d ∷ ds) as' p q =
    denied (winner_from d ds) (votes deny cs d ds p) (unbeaten deny cs d ds p)
decision_of-Decides t cs [] (a ∷ as') p q =
    allowed (winner_from a as') (votes allow cs a as' q) (unbeaten allow cs a as' q)
      (none-Votes deny cs p)
decision_of-Decides t cs [] [] p q = unmatched none_at
  where
    none_at : (e : Effect) (d : Candidate) → ¬ Votes e cs d
    none_at deny = none-Votes deny cs p
    none_at allow = none-Votes allow cs q

-- The combining of checked candidates is deny-overrides: what it answers is what the rule decides.
pub combine-Decides :
    (t : CorrelationId) (cs : List Candidate)
    → Decides cs (combine t cs).effect (combine t cs).matched_policy_id
unfolding combine voters
combine-Decides t cs = decision_of-Decides t cs _ _ refl refl
