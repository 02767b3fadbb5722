-- ===== src/Policy/Evaluator/Winner.antt =====
-- The loop of `winningPolicyId`: the entry that it keeps is the best of all.
use metaframer_kernel.Base.{
  ◌≡◌, refl, inl, inr, true, false, List, [], ◌∷◌, arith, In, Bool, Bool-cases, if◌then◌else◌,
}
use metaframer_kernel.Text.Order.{text_lt_irrefl, text_lt_trans, text_lt_asymm, text_lt_total}
use metaframer_kernel.Policy.Evaluator.{Candidate, beats, winner_from}

pub beats_irrefl : (a : Candidate) → beats a a ≡ false
unfolding beats
beats_irrefl a = ground (arith, text_lt_irrefl a.policy_id)

pub beats_asymm : (a b : Candidate) → beats a b ≡ true → beats b a ≡ false
unfolding beats
beats_asymm a b = ground (arith, text_lt_asymm a.policy_id b.policy_id)

pub beats_trans : (a b c : Candidate) → beats a b ≡ true → beats b c ≡ true → beats a c ≡ true
unfolding beats
beats_trans a b c = ground (arith, text_lt_trans a.policy_id b.policy_id c.policy_id)

-- Two entries that do not beat one another have one id.
pub beats_total :
    (a b : Candidate) → beats a b ≡ false → beats b a ≡ false → a.policy_id ≡ b.policy_id
unfolding beats
beats_total a b = ground (arith, text_lt_total a.policy_id b.policy_id)

-- What does not beat an entry does not beat what replaces it.
beats-replaced : (c e w : Candidate) → beats c w ≡ false → beats e w ≡ true → beats c e ≡ false
beats-replaced c e w h k = elim (Bool-cases (beats c e)) [
  | inr no_beat ↦ no_beat
  | inl more ↦ cc (beats_trans c e w more k)
]

winner_from-keeps :
    (c w : Candidate) (es : List Candidate) → beats c w ≡ false → beats c (winner_from w es) ≡ false
unfolding winner_from
winner_from-keeps c w [] h = h
winner_from-keeps c w (e ∷ es) h = elim (Bool-cases (beats e w)) [
  | inl more ↦ rw more (winner_from-keeps c e es (beats-replaced c e w h more))
  | inr less ↦ rw less (winner_from-keeps c w es h)
]

-- Neither the entry nor the winner of a round beats the one that it keeps.
kept_unbeaten : (e w : Candidate) → beats e (if beats e w then e else w) ≡ false
kept_unbeaten e w = elim (Bool-cases (beats e w)) [
  | inl more ↦ rw more (beats_irrefl e)
  | inr less ↦ rw (less, less)
]

pub winner_from_unbeaten :
    (c w : Candidate) (es : List Candidate) → In c (w ∷ es) → beats c (winner_from w es) ≡ false
unfolding winner_from
winner_from_unbeaten c w es (inl e) = rw e (winner_from-keeps w w es (beats_irrefl w))
winner_from_unbeaten c w [] (inr m) = absurd m
winner_from_unbeaten c w (e ∷ es) (inr (inl same)) =
    rw same (winner_from-keeps e (if beats e w then e else w) es (kept_unbeaten e w))
winner_from_unbeaten c w (e ∷ es) (inr (inr m)) =
    winner_from_unbeaten c (if beats e w then e else w) es (inr m)

In-kept :
    (b : Bool) {c : Candidate} (e w : Candidate) (es : List Candidate)
    → In c ((if b then e else w) ∷ es)
    → In c (w ∷ e ∷ es)
In-kept true e w es m = inr m
In-kept false e w es (inl h) = inl h
In-kept false e w es (inr h) = inr (inr h)

pub winner_from-In : (w : Candidate) (es : List Candidate) → In (winner_from w es) (w ∷ es)
unfolding winner_from
winner_from-In w [] = inl refl
winner_from-In w (e ∷ es) =
    In-kept (beats e w) e w es (winner_from-In (if beats e w then e else w) es)
