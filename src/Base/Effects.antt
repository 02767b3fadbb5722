-- ===== src/Base/Effects.antt =====
-- Asynchronous code: every call of a collaborator reads and changes the world outside, and
-- answers or throws. What was changed before a throw stays changed.
use mathlib.Core.Path.{◌≡◌, refl}
use metaframer_kernel.Base.Outcomes.{Outcome, ok, err, Fault}

abbrev pub Eff : Type 0 → Type 0 → Type 0
Eff W A = W → Outcome A × W

module _ {W : Type 0} where
  abbrev pub pure : {A : Type 0} → A → Eff W A
  pure a w = (ok a, w)

  abbrev pub throw : {A : Type 0} → Fault → Eff W A
  throw e w = (err e, w)

  abbrev pub lift : {A : Type 0} → Outcome A → Eff W A
  lift o w = (o, w)

  abbrev pub proceed : {A B : Type 0} → (A → Eff W B) → Outcome A → Eff W B
  proceed f (ok a) w = f a w
  proceed f (err e) w = (err e, w)

  infixl 5 ◌>>=◌ ◌>>◌
  abbrev pub ◌>>=◌ : {A B : Type 0} → Eff W A → (A → Eff W B) → Eff W B
  ◌>>=◌ m f w = let (o, v) = m w in proceed f o v

  abbrev pub ◌>>◌ : {A B : Type 0} → Eff W A → Eff W B → Eff W B
  m >> k = m >>= λ _. k

  abbrev pub map_answer : {A B : Type 0} → (A → B) → Outcome A × W → Outcome B × W
  map_answer f (ok a, w) = (ok (f a), w)
  map_answer f (err e, w) = (err e, w)

  abbrev pub mapped : {A B : Type 0} → (A → B) → Eff W A → Eff W B
  mapped f m w = map_answer f (m w)

  -- Inversion of a run that came to an end: the first part did, and the rest went on from there.
  pub >>=-eq-ok :
      {A B : Type 0} (m : Eff W A) (f : A → Eff W B) {w v : W} {b : B}
      → (m >>= f) w ≡ (ok b, v)
      → (a : A) × (u : W) × (m w ≡ (ok a, u)) × (f a u ≡ (ok b, v))
  >>=-eq-ok {A} {B} m f {w} {v} {b} h = go (m w) refl h
    where
      go :
          (r : Outcome A × W)
          → m w ≡ r
          → proceed f r.0 r.1 ≡ (ok b, v)
          → (a : A) × (u : W) × (m w ≡ (ok a, u)) × (f a u ≡ (ok b, v))
      go (ok a, u) e h = (a, u, e, h)
      go (err x, u) e h = cc

  -- What holds after a run: of the answer and the world, or of the world that a throw left.
  abbrev pub Post : {A : Type 0} → (A → W → Type 0) → (W → Type 0) → Outcome A × W → Type 0
  Post P Q (ok a, w) = P a w
  Post P Q (err e, w) = Q w

  pub >>=-Post :
      {A B : Type 0} (P : A → W → Type 0) (R : B → W → Type 0) (Q : W → Type 0) (m : Eff W A)
      (f : A → Eff W B) (w : W)
      → Post P Q (m w)
      → ((a : A) (u : W) → P a u → Post R Q (f a u))
      → Post R Q ((m >>= f) w)
  >>=-Post {A} {B} P R Q m f w h k = go (m w) h
    where
      go : (r : Outcome A × W) → Post P Q r → Post R Q (proceed f r.0 r.1)
      go (ok a, u) h = k a u h
      go (err e, u) h = h

  -- A computation that touches nothing: its answer is what it computed.
  pub lift-Post :
      {A B : Type 0} (R : B → W → Type 0) (Q : W → Type 0) (o : Outcome A) (f : A → Eff W B) (w : W)
      → Q w
      → ((a : A) → o ≡ ok a → Post R Q (f a w))
      → Post R Q ((lift o >>= f) w)
  lift-Post R Q (ok a) f w q k = k a refl
  lift-Post R Q (err e) f w q k = q

  pub Post-ok :
      {A : Type 0} (P : A → W → Type 0) (Q : W → Type 0) (r : Outcome A × W) {a : A} {v : W}
      → Post P Q r
      → r ≡ (ok a, v)
      → P a v
  Post-ok P Q (ok b, u) {a} {v} h e =
      let same : b ≡ a = cc in let end : u ≡ v = cc in rw (← same, ← end) h
  Post-ok P Q (err x, u) h e = cc

  pub Post-mono :
      {A : Type 0} (P R : A → W → Type 0) (Q S : W → Type 0) (r : Outcome A × W)
      → Post P Q r
      → ((a : A) (u : W) → P a u → R a u)
      → ((u : W) → Q u → S u)
      → Post R S r
  Post-mono P R Q S (ok a, u) h f g = f a u h
  Post-mono P R Q S (err e, u) h f g = g u h

  -- `try { m } catch (error) { handler }`
  abbrev pub handled : {A : Type 0} → (Fault → Eff W A) → Outcome A × W → Outcome A × W
  handled handler (ok a, w) = (ok a, w)
  handled handler (err e, w) = handler e w

  abbrev pub catching : {A : Type 0} → (Fault → Eff W A) → Eff W A → Eff W A
  catching handler m w = handled handler (m w)

  -- `try { m } finally { leave }`, where leaving does not throw.
  abbrev pub finally : {A : Type 0} → (W → W) → Eff W A → Eff W A
  finally leave m w = let (o, v) = m w in (o, leave v)

  -- `m.catch(() => {})`
  abbrev pub ignored : {A : Type 0} → Eff W A → Eff W (Unit {0})
  ignored m w = (ok tt, (m w).1)
