-- ===== src/Policy/Evaluator/Unique.antt =====
-- The decision depends on the set of candidates alone, not on the order in which they come.
use metaframer_kernel.Base.{
  ◌≡◌, ◌↔◌, refl, false, some, List, [], ◌∷◌, In, Bool-cases, inl, inr, ap, Option,
}
use metaframer_kernel.Text.{Text}
use metaframer_kernel.Policy.Types.{Effect, allow, deny, CorrelationId, PolicyDecision}
use metaframer_kernel.Policy.Evaluator.{Candidate, beats, decision_of, combine, combined_reason}
use metaframer_kernel.Policy.Evaluator.Winner.{beats_total}
use metaframer_kernel.Policy.Evaluator.Combining.{
  Outranks, Outranks-of_beats, Votes, Decides, denied, allowed, unmatched, combine-Decides,
}

abbrev pub SameMembers : List Candidate → List Candidate → Type 0
SameMembers xs ys = (c : Candidate) → In c xs ↔ In c ys

tied : (c d : Candidate) → ¬ Outranks c d → ¬ Outranks d c → c.policy_id ≡ d.policy_id
tied c d p q = beats_total c d (unbeaten c d p) (unbeaten d c q)
  where
    unbeaten : (a b : Candidate) → ¬ Outranks a b → beats a b ≡ false
    unbeaten a b h = elim (Bool-cases (beats a b)) [
      | inl more ↦ absurd (h (Outranks-of_beats a b more))
      | inr less ↦ less
    ]

module _ (xs ys : List Candidate) (same : SameMembers xs ys) where
  to_right : (e : Effect) (c : Candidate) → Votes e xs c → Votes e ys c
  to_right e c v = ((same c).0 v.0, v.1, v.2)

  to_left : (e : Effect) (c : Candidate) → Votes e ys c → Votes e xs c
  to_left e c v = ((same c).1 v.0, v.1, v.2)

  Decides-agree :
      {e f : Effect} {m n : Option Text} → Decides xs e m → Decides ys f n → (e ≡ f) × (m ≡ n)
  Decides-agree (denied c v top) (denied d w top') = (
    refl,
    ap some (tied c d (λ o. top' c (to_right deny c v) o) (λ o. top d (to_left deny d w) o)),
  )
  Decides-agree (denied c v top) (allowed d w top' free) = absurd (free c (to_right deny c v))
  Decides-agree (denied c v top) (unmatched empty) = absurd (empty deny c (to_right deny c v))
  Decides-agree (allowed c v top free) (denied d w top') = absurd (free d (to_left deny d w))
  Decides-agree (allowed c v top free) (allowed d w top' free') = (
    refl,
    ap some (tied c d (λ o. top' c (to_right allow c v) o) (λ o. top d (to_left allow d w) o)),
  )
  Decides-agree (allowed c v top free) (unmatched empty) =
      absurd (empty allow c (to_right allow c v))
  Decides-agree (unmatched empty) (denied d w top') = absurd (empty deny d (to_left deny d w))
  Decides-agree (unmatched empty) (allowed d w top' free) =
      absurd (empty allow d (to_left allow d w))
  Decides-agree (unmatched empty) (unmatched empty') = (refl, refl)

decision_of-trace :
    (t : CorrelationId) (ds as' : List Candidate) → (decision_of t ds as').trace_id ≡ t
unfolding decision_of
decision_of-trace t (d ∷ ds) as' = refl
decision_of-trace t [] (a ∷ as') = refl
decision_of-trace t [] [] = refl

pub combine-trace : (t : CorrelationId) (cs : List Candidate) → (combine t cs).trace_id ≡ t
unfolding combine
combine-trace t cs = decision_of-trace t _ _

decision_of-reason :
    (t : CorrelationId) (ds as' : List Candidate) → (decision_of t ds as').reason ≡ combined_reason
unfolding decision_of
decision_of-reason t (d ∷ ds) as' = refl
decision_of-reason t [] (a ∷ as') = refl
decision_of-reason t [] [] = refl

pub combine-reason :
    (t : CorrelationId) (cs : List Candidate) → (combine t cs).reason ≡ combined_reason
unfolding combine
combine-reason t cs = decision_of-reason t _ _

decision_ext :
    (a b : PolicyDecision)
    → a.effect ≡ b.effect
    → a.reason ≡ b.reason
    → a.matched_policy_id ≡ b.matched_policy_id
    → a.trace_id ≡ b.trace_id
    → a ≡ b
decision_ext a b p s q r =
    λ i. record { effect = p i; reason = s i; matched_policy_id = q i; trace_id = r i }

-- Two candidate lists with the same members, in whatever order and however often, combine to one
-- and the same decision: effect, named policy and trace.
pub combine_same :
    (t : CorrelationId) (xs ys : List Candidate) → SameMembers xs ys → combine t xs ≡ combine t ys
combine_same t xs ys same =
    let (p, q) = Decides-agree xs ys same (combine-Decides t xs) (combine-Decides t ys) in
    decision_ext (combine t xs) (combine t ys) p (cc (combine-reason t xs, combine-reason t ys)) q
      (cc (combine-trace t xs, combine-trace t ys))
