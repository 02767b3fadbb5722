-- ===== src/UnitOfWork/Interleaving.antt =====
-- Several asynchronous callers of one UnitOfWork: each step is one `await` of `run` that settles.
use metaframer_kernel.Base.{
  ◌+◌, ◌≡◌, refl, Bool, true, false, List, [], ◌∷◌, ◌++◌, ◌⊎◌, inl, inr, ℕ, arith,
}

-- Where an admitted run stands: at `await begin()`, in its body, or at the last call of its port.
pub data Phase : Type 0 where
  beginning in_body committing rolling_back : Phase

-- The flag, the runs that were admitted and have not ended, and the number of calls refused.
pub record Machine : Type 0 where
  pub in_flight : Bool
  pub active : List Phase
  pub refused : ℕ

-- One run goes from a phase to the next, wherever it stands among the active ones.
pub data Move : Phase → Phase → Type 0 where
  scope_opened : Move beginning in_body
  body_returned : Move in_body committing
  body_threw : Move in_body rolling_back

-- The phases that can be the last of a run.
pub data Last : Phase → Type 0 where
  begin_threw : Last beginning
  commit_settled : Last committing
  rollback_settled : Last rolling_back

pub data Step (m : Machine) : Machine → Type 0 where
  admitted :
      m.in_flight ≡ false → Step m (record m { in_flight = true; active = beginning ∷ m.active })
  turned_away : m.in_flight ≡ true → Step m (record m { refused = m.refused + 1 })
  moved :
      (before after : List Phase) (p q : Phase)
      → m.active ≡ before ++ p ∷ after
      → Move p q
      → Step m (record m { active = before ++ q ∷ after })
  ended :
      (before after : List Phase) (p : Phase)
      → m.active ≡ before ++ p ∷ after
      → Last p
      → Step m (record m { in_flight = false; active = before ++ after })

pub data Reach : Machine → Machine → Type 0 where
  here : {m : Machine} → Reach m m
  next : {m n o : Machine} → Reach m n → Step n o → Reach m o

abbrev pub idle_machine : Machine
idle_machine = record { in_flight = false; active = []; refused = 0 }

-- The flag is up exactly while one run is active, and never are there two.
abbrev pub Exclusive : Machine → Type 0
Exclusive m =
    ((m.in_flight ≡ false) × (m.active ≡ []))
    ⊎ ((p : Phase) × (m.in_flight ≡ true) × (m.active ≡ p ∷ []))

alone :
    (before after : List Phase) (p q : Phase)
    → q ∷ [] ≡ before ++ p ∷ after
    → (before ≡ []) × (after ≡ []) × (q ≡ p)
alone [] [] p q e = (refl, refl, cc)
alone [] (a ∷ after) p q e = absurd (ground arith)
alone (b ∷ []) after p q e = absurd (ground arith)
alone (b ∷ c ∷ before) after p q e = absurd (ground arith)

nowhere : (before after : List Phase) (p : Phase) → ¬ ([] ≡ before ++ p ∷ after)
nowhere [] after p e = cc
nowhere (b ∷ before) after p e = cc

Step-Exclusive : {m n : Machine} → Step m n → Exclusive m → Exclusive n
Step-Exclusive (admitted h) (inl (down, empty)) = inr (beginning, refl, cc)
Step-Exclusive (admitted h) (inr (p, up, one)) = absurd (ground arith)
Step-Exclusive (turned_away h) x = x
Step-Exclusive (moved before after p q e mv) (inl (down, empty)) =
    absurd (nowhere before after p (cc))
Step-Exclusive (moved before after p q e mv) (inr (r, up, one)) =
    let (none_before, none_after, same) = alone before after p r (cc) in
    inr (q, up, rw (none_before, none_after))
Step-Exclusive (ended before after p e l) (inl (down, empty)) = absurd (nowhere before after p (cc))
Step-Exclusive (ended before after p e l) (inr (r, up, one)) =
    let (none_before, none_after, same) = alone before after p r (cc) in
    inl (refl, rw (none_before, none_after))

-- However the calls of `run` and the answers of the port and the bodies interleave, at most one
-- run of a unit is between its `begin` and its end, and the flag is up exactly while one is.
pub Reach-Exclusive : {m : Machine} → Reach idle_machine m → Exclusive m
Reach-Exclusive r = from_exclusive r (inl (refl, refl))
  where
    from_exclusive : {a b : Machine} → Reach a b → Exclusive a → Exclusive b
    from_exclusive here x = x
    from_exclusive (next s st) x = Step-Exclusive st (from_exclusive s x)
