-- ===== src/Actions/UseCase/Gate.antt =====
-- src/application/use-case.mjs: what reaches the handler of a use case.
use metaframer_kernel.Base.{
  ◌≡◌, refl, ap, ◌⊎◌, inl, inr, ℕ, true, Option, none, some, pos, ok, err, Outcome, type_error,
  arith, Bool-cases, Fault,
}
use metaframer_kernel.Base.Effects.{Eff, ◌>>=◌, lift}
use metaframer_kernel.Text.{Text, text_eq_iff}
use metaframer_kernel.Js.{Value, string, number, integer, neg_zero}
use metaframer_kernel.Policy.Types.{Foreign}
use metaframer_kernel.DecisionLog.{instance_of}
use metaframer_kernel.Actions.Errors.{Result}
use metaframer_kernel.Actions.Contract.{ActionKind, command, query}
use metaframer_kernel.Actions.Declaration.{UseCase}
use metaframer_kernel.Actions.UseCase.{
  GivenAction, same_kind, is_class, equals_text, equals_integer, check_declared, execute,
}

same_kind_eq : (k l : ActionKind) → same_kind k l ≡ true → l ≡ k
same_kind_eq command command h = refl
same_kind_eq query query h = refl
same_kind_eq command query h = cc
same_kind_eq query command h = cc

is_class-some : (k : ActionKind) → is_class k (some k) ≡ true
unfolding is_class
is_class-some command = refl
is_class-some query = refl

is_class_eq : (k : ActionKind) (c : Option ActionKind) → is_class k c ≡ true → c ≡ some k
unfolding is_class
is_class_eq k none h = cc
is_class_eq k (some l) h = let same : l ≡ k = same_kind_eq k l h in cc

-- The integer as a value of the language: zero is two values.
pub data IsInteger (n : ℕ) : Value → Type 0 where
  plainly : IsInteger n (number (integer (pos n)))
  as_zero : n ≡ 0 → IsInteger n (number neg_zero)

equals_text_eq : (t : Text) (v : Value) → equals_text t v ≡ true → v ≡ string t
unfolding equals_text
equals_text_eq t (string s) h = ap string ((text_eq_iff s t).0 h)
equals_text_eq t v h = cc

equals_integer-IsInteger : (n : ℕ) (v : Value) → equals_integer n v ≡ true → IsInteger n v
unfolding equals_integer
equals_integer-IsInteger n (number (integer (pos m))) h =
    let same : n ≡ m = ground arith in rw same plainly
equals_integer-IsInteger n (number neg_zero) h = as_zero (ground arith)
equals_integer-IsInteger n v h = cc

IsInteger-equals_integer : (n : ℕ) (v : Value) → IsInteger n v → equals_integer n v ≡ true
unfolding equals_integer
IsInteger-equals_integer n v plainly = ground arith
IsInteger-equals_integer n v (as_zero e) = ground arith

equals_text-same : (t : Text) → equals_text t (string t) ≡ true
unfolding equals_text
equals_text-same t = (text_eq_iff t t).1 refl

module _ {W : Type 0} where
  -- Read in this order, the name and the version are those of the use case; `x` is the world that
  -- the two readings leave.
  pub record Declared (u : UseCase) (action : GivenAction W) (w x : W) : Type 0 where
    pub between : W
    pub version_value : Value
    pub named : action.name w ≡ (ok (string u.name), between)
    pub versioned : action.version between ≡ (ok version_value, x)
    pub same_version : IsInteger u.version version_value

  -- The action that a use case admits: an exact instance of its kind, under its name and version.
  abbrev pub Admits : UseCase → GivenAction W → W → W → Type 0
  Admits u action w x = (action.class ≡ some u.kind) × Declared u action w x

  abbrev NotDeclared : UseCase → GivenAction W → W → Type 0
  NotDeclared u action w =
      (f : Fault) × (x : W) × ((y : W) → Declared u action w y → ⊥)
      × (check_declared u action w ≡ (err f, x))

  module _ (u : UseCase) (action : GivenAction W) (w : W) where
    abbrev Decided : Type 0
    Decided =
        ((x : W) × Declared u action w x × (check_declared u action w ≡ (ok tt, x)))
        ⊎ NotDeclared u action w

    by_version :
        (n v : W)
        → action.name w ≡ (ok (string u.name), n)
        → (r : Outcome Value) → action.version n ≡ (r, v)
        → Decided
    unfolding check_declared
    by_version n v named (err f) read = inr (
      f,
      v,
      (λ y d.
          let same : d.between ≡ n = cc (d.named, named) in
          let again : action.version n ≡ (ok d.version_value, y) = rw (← same) d.versioned in
          cc (again, read)),
      rw (check_declared, named, equals_text-same u.name, read) refl,
    )
    by_version n v named (ok a) read = elim (Bool-cases (equals_integer u.version a)) [
      | inl e ↦ inl (
        v,
        record {
          between = n;
          version_value = a;
          named = named;
          versioned = read;
          same_version = equals_integer-IsInteger u.version a e;
        },
        rw (check_declared, named, equals_text-same u.name, read, e) refl,
      )
      | inr e ↦ inr (
        type_error,
        v,
        (λ y d.
            let same : d.between ≡ n = cc (d.named, named) in
            let again : action.version n ≡ (ok d.version_value, y) = rw (← same) d.versioned in
            let value : d.version_value ≡ a = cc (again, read) in
            let holds : equals_integer u.version d.version_value ≡ true =
              IsInteger-equals_integer u.version d.version_value d.same_version in
            cc (value, holds, e)),
        rw (check_declared, named, equals_text-same u.name, read, e) refl,
      )
    ]

    by_name : (r : Outcome Value) (n : W) → action.name w ≡ (r, n) → Decided
    unfolding check_declared
    by_name (err f) n read = inr (f, n, (λ y d. cc (d.named, read)), rw (check_declared, read) refl)
    by_name (ok a) n read = elim (Bool-cases (equals_text u.name a)) [
      | inl e ↦
          let same : a ≡ string u.name = equals_text_eq u.name a e in
          by_version n (action.version n).1 (cc (read, same)) (action.version n).0 refl
      | inr e ↦
          let other : a ≡ string u.name → ⊥ = λ s.
            (let holds : equals_text u.name (string u.name) ≡ true = equals_text-same u.name in
              cc) in
          inr
            (type_error, n, (λ y d. other (cc (d.named, read))), rw (check_declared, read, e) refl)
    ]

    declared_cases : Decided
    declared_cases = by_name (action.name w).0 (action.name w).1 refl

  -- An action that a use case does not admit never reaches the handler: the call throws, and with
  -- any other handler it would have thrown the same and left the same world. One that it admits
  -- runs the handler once, on that action, in the world that the readings of its name and its
  -- version left, and is answered by what the handler answered, provided that is a genuine Result;
  -- what the handler throws is thrown.
  pub execute_gate :
      (u : UseCase) (action : GivenAction W) (w : W)
      → ((x : W) × Admits u action w x
          × ((handler : GivenAction W → Eff W (Foreign Result))
              → execute handler u action w ≡ (handler action >>= λ r. lift (instance_of r)) x))
        ⊎ ((f : Fault) × (x : W) × ((y : W) → Admits u action w y → ⊥)
            × ((handler : GivenAction W → Eff W (Foreign Result))
                → execute handler u action w ≡ (err f, x)))
  unfolding execute
  execute_gate u action w = elim (Bool-cases (is_class u.kind action.class)) [
    | inr e ↦ inr (
      type_error,
      w,
      (λ y a.
          let holds : is_class u.kind (some u.kind) ≡ true = is_class-some u.kind in cc (a.0, e)),
      (λ handler. rw (execute, e) refl),
    )
    | inl e ↦ elim (declared_cases u action w) [
      | inl (x, d, ran) ↦
          inl (x, (is_class_eq u.kind action.class e, d), (λ handler. rw (execute, e, ran) refl))
      | inr (f, x, differs, ran) ↦
          inr (f, x, (λ y a. differs y a.1), (λ handler. rw (execute, e, ran) refl))
    ]
  ]
