-- ===== src/Base/Lists.antt =====
-- Lists measured by native numbers, membership and tests over a list.
use Prim.Native.Nat.{ℕ, suc}
use mathlib.Core.Path.{◌≡◌, refl, ap}
use mathlib.Core.Logic.{◌⊎◌, inl, inr}
use mathlib.Core.Bool.{Bool, true, false, ◌&&◌, ◌||◌}
use mathlib.Core.Option.{Option, none, some}
use mathlib.Core.List.{List, [], ◌∷◌, ◌++◌, map}
use metaframer_kernel.Base.Tests.{if◌then◌else◌}

module _ {ℓ} {A : Type ℓ} where
  abbrev pub length : List A → ℕ
  length [] = 0
  length (x ∷ xs) = suc (length xs)

  abbrev pub all : (A → Bool) → List A → Bool
  all p [] = true
  all p (x ∷ xs) = p x && all p xs

  abbrev pub any : (A → Bool) → List A → Bool
  any p [] = false
  any p (x ∷ xs) = p x || any p xs

  -- `Array.prototype.filter` and `find`.
  abbrev pub filter : (A → Bool) → List A → List A
  filter p [] = []
  filter p (x ∷ xs) = if p x then x ∷ filter p xs else filter p xs

  abbrev pub find : (A → Bool) → List A → Option A
  find p [] = none
  find p (x ∷ xs) = if p x then some x else find p xs

module _ {ℓ} {A : Type ℓ} where
  pub append_assoc : (xs ys zs : List A) → (xs ++ ys) ++ zs ≡ xs ++ (ys ++ zs)
  append_assoc [] ys zs = refl
  append_assoc (x ∷ xs) ys zs = ap (λ l. x ∷ l) (append_assoc xs ys zs)

  pub append_nil : (xs : List A) → xs ++ [] ≡ xs
  append_nil [] = refl
  append_nil (x ∷ xs) = ap (λ l. x ∷ l) (append_nil xs)

module _ {A : Type 0} where
  abbrev pub In : A → List A → Type 0
  In a [] = ⊥
  In a (x ∷ xs) = (a ≡ x) ⊎ In a xs

module _ {ℓ κ} {A : Type ℓ} where
  abbrev pub All : (A → Type κ) → List A → Type κ
  All P [] = Unit
  All P (x ∷ xs) = P x × All P xs

module _ {A : Type 0} where
  pub All-In : (P : A → Type 0) (xs : List A) (a : A) → All P xs → In a xs → P a
  All-In P [] a h m = absurd m
  All-In P (x ∷ xs) a h (inl e) = rw e h.0
  All-In P (x ∷ xs) a h (inr m) = All-In P xs a h.1 m

  pub All-intro : (P : A → Type 0) (xs : List A) → ((a : A) → In a xs → P a) → All P xs
  All-intro P [] f = tt
  All-intro P (x ∷ xs) f = (f x (inl refl), All-intro P xs (λ a m. f a (inr m)))

module _ {A : Type 0} (p : A → Bool) where
  pub In-filter : (xs : List A) (a : A) → In a xs → p a ≡ true → In a (filter p xs)
  In-filter [] a m h = m
  In-filter (x ∷ xs) a (inl e) h = rw (← e, h) (inl refl)
  In-filter (x ∷ xs) a (inr m) h = widen (p x) (In-filter xs a m h)
    where
      widen : (b : Bool) → In a (filter p xs) → In a (if b then x ∷ filter p xs else filter p xs)
      widen true k = inr k
      widen false k = k

  In-of_kept :
      (x : A) (xs : List A) (a : A) (b : Bool)
      → p x ≡ b
      → (In a (filter p xs) → In a xs × (p a ≡ true))
      → In a (if b then x ∷ filter p xs else filter p xs)
      → In a (x ∷ xs) × (p a ≡ true)
  In-of_kept x xs a true h ih (inl e) = (inl e, rw e h)
  In-of_kept x xs a true h ih (inr m) = (inr (ih m).0, (ih m).1)
  In-of_kept x xs a false h ih m = (inr (ih m).0, (ih m).1)

  pub In-of_filter : (xs : List A) (a : A) → In a (filter p xs) → In a xs × (p a ≡ true)
  In-of_filter [] a m = absurd m
  In-of_filter (x ∷ xs) a m = In-of_kept x xs a (p x) refl (In-of_filter xs a) m

module _ {A B : Type 0} (f : A → B) where
  pub In-map : (xs : List A) (a : A) → In a xs → In (f a) (map f xs)
  In-map [] a m = m
  In-map (x ∷ xs) a (inl e) = inl (ap f e)
  In-map (x ∷ xs) a (inr m) = inr (In-map xs a m)

  pub In-of_map : (xs : List A) (b : B) → In b (map f xs) → (a : A) × In a xs × (b ≡ f a)
  In-of_map [] b m = absurd m
  In-of_map (x ∷ xs) b (inl e) = (x, inl refl, e)
  In-of_map (x ∷ xs) b (inr m) = let (a, k, e) = In-of_map xs b m in (a, inr k, e)
