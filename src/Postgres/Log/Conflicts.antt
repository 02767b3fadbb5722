-- ===== src/Postgres/Log/Conflicts.antt =====
-- src/adapters/postgres-decision-log-adapter.mjs: which errors of the driver are chain conflicts.
use metaframer_kernel.Base.{
  append_assoc, ◌≡◌, refl, sym, ap, ◌∙◌, ◌⊎◌, inl, inr, ℕ, Bool, true, false, ◌||◌, not, Option,
  none, some, [], ◌∷◌, ◌++◌, all, ◌==◌, Bool-cases, Fault, adapter, foreign, chain_conflict, arith,
}
use metaframer_kernel.Text.{Text, codes, text_eq, text_eq_iff}
use metaframer_kernel.DecisionLog.{LogEntry}
use metaframer_kernel.Postgres.{Driver}
use metaframer_kernel.Postgres.Log.{rendered, is_chain_conflict, append_fault}

abbrev pub Violates : Driver → ℕ → Text → Text → Type 0
Violates driver n c k = (driver.code n ≡ some c) × (driver.constraint n ≡ some k)

-- The three ways in which an entry does not go on from the head of its tenant's chain, each by the
-- SQLSTATE and the constraint that the database names.
pub data IsChainViolation (driver : Driver) : Fault → Type 0 where
  second_genesis :
      (n : ℕ)
      → Violates driver n (codes "23505") (codes "policy_decision_log_one_genesis_per_tenant")
      → IsChainViolation driver (foreign n)
  second_successor :
      (n : ℕ)
      → Violates driver n
          (codes "23505")
          (codes "policy_decision_log_one_successor_per_predecessor")
      → IsChainViolation driver (foreign n)
  unknown_predecessor :
      (n : ℕ)
      → Violates driver n (codes "23503") (codes "policy_decision_log_prev_hash_same_tenant_fk")
      → IsChainViolation driver (foreign n)

abbrev has_no_colon : Text → Bool
has_no_colon s = all (λ c. not (c == b':')) s

-- A text with one colon is split at it in one way.
split_colon :
    (c k a b : Text)
    → has_no_colon c ≡ true
    → has_no_colon k ≡ true
    → c ++ b':' ∷ k ≡ a ++ b':' ∷ b
    → (a ≡ c) × (b ≡ k)
split_colon [] k [] b p q e = (refl, cc e)
split_colon [] k (x ∷ a) b p q e = absurd (no_colon_in k a b q (cc e))
  where
    no_colon_in : (k a b : Text) → has_no_colon k ≡ true → k ≡ a ++ b':' ∷ b → ⊥
    no_colon_in [] [] b q e = cc
    no_colon_in [] (x ∷ a) b q e = cc
    no_colon_in (y ∷ k) [] b q e = let same : y ≡ b':' = cc e in ground (arith, q, same)
    no_colon_in (y ∷ k) (x ∷ a) b q e = no_colon_in k a b (ground (arith, q)) (cc e)
split_colon (y ∷ c) k [] b p q e = let same : y ≡ b':' = cc e in absurd (ground (arith, p, same))
split_colon (y ∷ c) k (x ∷ a) b p q e =
    let (first, second) = split_colon c k a b (ground (arith, p)) q (cc e) in
    let head : x ≡ y = cc e in (cc (head, first), second)

rendered-some :
    (o : Option Text) (t : Text)
    → text_eq (codes "undefined") t ≡ false
    → rendered o ≡ t
    → o ≡ some t
rendered-some none t h e =
    let same : text_eq (codes "undefined") t ≡ true = (text_eq_iff _ t).1 e in cc (same, h)
rendered-some (some s) t h e = ap some e

module _ (driver : Driver) (n : ℕ) (c k : Text) where
  abbrev key : Text
  key = rendered (driver.code n) ++ codes ":" ++ rendered (driver.constraint n)

  key-Violates :
      has_no_colon c ≡ true
      → has_no_colon k ≡ true
      → text_eq (codes "undefined") c ≡ false
      → text_eq (codes "undefined") k ≡ false
      → text_eq (c ++ b':' ∷ k) key ≡ true
      → Violates driver n c k
  key-Violates p q s t e =
      let (a, b) = split_colon c k (rendered (driver.code n)) (rendered (driver.constraint n)) p q (
        (text_eq_iff _ _).0 e
        ∙ append_assoc (rendered (driver.code n)) (codes ":") (rendered (driver.constraint n))) in
      (rendered-some (driver.code n) c s a, rendered-some (driver.constraint n) k t b)

  Violates-key : Violates driver n c k → text_eq (c ++ b':' ∷ k) key ≡ true
  Violates-key (a, b) = (text_eq_iff _ _).1 (rw (a, b) (sym (append_assoc c (codes ":") k)))

abbrev genesis : Text
genesis = codes "policy_decision_log_one_genesis_per_tenant"

abbrev successor : Text
successor = codes "policy_decision_log_one_successor_per_predecessor"

abbrev predecessor : Text
predecessor = codes "policy_decision_log_prev_hash_same_tenant_fk"

any_of_three :
    (a b c : Bool) → (a || (b || (c || false))) ≡ true → (a ≡ true) ⊎ ((b ≡ true) ⊎ (c ≡ true))
any_of_three true b c h = inl refl
any_of_three false true c h = inr (inl refl)
any_of_three false false true h = inr (inr refl)
any_of_three false false false h = cc

three_of_any :
    (a b c : Bool) → (a ≡ true) ⊎ ((b ≡ true) ⊎ (c ≡ true)) → (a || (b || (c || false))) ≡ true
three_of_any true b c h = refl
three_of_any false true c h = refl
three_of_any false false true h = refl
three_of_any false false false (inl h) = h
three_of_any false false false (inr (inl h)) = h
three_of_any false false false (inr (inr h)) = h

module _ (driver : Driver) (n : ℕ) where
  abbrev key_is : Text → Text → Bool
  key_is c k = text_eq (c ++ b':' ∷ k) (key driver n c k)

  three_keys : is_chain_conflict driver (foreign n) ≡ (
      key_is (codes "23505") genesis
      || (key_is (codes "23505") successor || (key_is (codes "23503") predecessor || false)))
  unfolding is_chain_conflict
  three_keys = refl

  violation_of :
      (key_is (codes "23505") genesis ≡ true)
        ⊎ ((key_is (codes "23505") successor ≡ true) ⊎ (key_is (codes "23503") predecessor ≡ true))
      → IsChainViolation driver (foreign n)
  unfolding text_eq
  violation_of (inl e) =
      second_genesis n (key-Violates driver n (codes "23505") genesis refl refl refl refl e)
  violation_of (inr (inl e)) =
      second_successor n (key-Violates driver n (codes "23505") successor refl refl refl refl e)
  violation_of (inr (inr e)) =
      unknown_predecessor n
        (key-Violates driver n (codes "23503") predecessor refl refl refl refl e)

is_chain_conflict-IsChainViolation :
    (driver : Driver) (f : Fault) → is_chain_conflict driver f ≡ true → IsChainViolation driver f
unfolding is_chain_conflict
is_chain_conflict-IsChainViolation driver (foreign n) h =
    violation_of driver n (any_of_three _ _ _ (sym (three_keys driver n) ∙ h))
is_chain_conflict-IsChainViolation driver f h = cc

IsChainViolation-is_chain_conflict :
    (driver : Driver) (f : Fault) → IsChainViolation driver f → is_chain_conflict driver f ≡ true
IsChainViolation-is_chain_conflict driver f (second_genesis n v) =
    three_keys driver n ∙ three_of_any _ _ _ (inl (Violates-key driver n (codes "23505") genesis v))
IsChainViolation-is_chain_conflict driver f (second_successor n v) =
    three_keys driver n
    ∙ three_of_any _ _ _ (inr (inl (Violates-key driver n (codes "23505") successor v)))
IsChainViolation-is_chain_conflict driver f (unknown_predecessor n v) =
    three_keys driver n
    ∙ three_of_any _ _ _ (inr (inr (Violates-key driver n (codes "23503") predecessor v)))

-- The error that `append` throws in place of one.
abbrev pub Rethrown : Driver → LogEntry → Fault → Fault → Type 0
Rethrown driver e f g =
    (IsChainViolation driver f
      × (g ≡ adapter (chain_conflict e.request.action.principal.tenant_id e.id e.prev_hash)))
    ⊎ ((IsChainViolation driver f → ⊥) × (g ≡ f))

pub append_fault-Rethrown :
    (driver : Driver) (e : LogEntry) (f : Fault) → Rethrown driver e f (append_fault driver e f)
unfolding append_fault
append_fault-Rethrown driver e f = elim (Bool-cases (is_chain_conflict driver f)) [
  | inl h ↦ inl (is_chain_conflict-IsChainViolation driver f h, rw (append_fault, h) refl)
  | inr h ↦ inr (
    (λ v.
        let holds : is_chain_conflict driver f ≡ true =
          IsChainViolation-is_chain_conflict driver f v in
        cc (holds, h)),
    rw (append_fault, h) refl,
  )
]
