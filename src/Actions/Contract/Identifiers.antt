-- ===== src/Actions/Contract/Identifiers.antt =====
-- src/application/action-contract.mjs: exactly which lists of identifiers are accepted.
use metaframer_kernel.Base.{
  ◌≡◌, refl, sym, ap, ◌∙◌, ◌↔◌, ◌≤◌, Bool, true, false, ◌&&◌, not, Option, none, some, List, [],
  ◌∷◌, map, leb, length, any, In, All, All-In, All-intro, ◌||◌, inl, inr, Bool-cases, Outcome, ok,
  err, arith, OnOk, OnOk_elim, require-OnOk, >>=-OnOk, type_error, range_error,
}
use metaframer_kernel.Text.{Text, text_eq, text_eq_iff}
use metaframer_kernel.Js.{Value, string, Heap}
use metaframer_kernel.Js.Shape.{dense_elements}
use metaframer_kernel.Js.Arrays.{IsArrayOf, dense_elements-IsArrayOf, IsArrayOf-dense_elements}
use metaframer_kernel.Actions.Contract.{
  identifier, identifiers, identifier_form, identifier_list, identifier_max, is_refused_identifier,
  unique_identifiers, unseen_from,
}

-- An identifier: 1 to 64 characters of the form, and none of the three refused words.
pub record IsIdentifier (s : Text) : Type 0 where
  pub long : 1 ≤ length s
  pub short : length s ≤ identifier_max
  pub form : identifier_form s ≡ true
  pub admitted : is_refused_identifier s ≡ false

abbrev pub Distinct : List Text → Type 0
Distinct [] = Unit
Distinct (s ∷ ss) = (In s ss → ⊥) × Distinct ss

in_bounds :
    (s : Text)
    → (leb 1 (length s) && leb (length s) identifier_max) ≡ true
    → (1 ≤ length s) × (length s ≤ identifier_max)
in_bounds s h = (ground arith, ground arith)

not-true : (b : Bool) → not b ≡ true → b ≡ false
not-true true h = cc
not-true false h = refl

or_true : (a b : Bool) → b ≡ true → (a || b) ≡ true
or_true true b h = refl
or_true false b h = h

identifier-OnOk : (v : Value) → OnOk (λ s. (v ≡ string s) × IsIdentifier s) (identifier v)
unfolding identifier
identifier-OnOk (string s) =
    let Q : Text → Type 0 = λ t. (string s ≡ string t) × IsIdentifier t in
    require-OnOk Q (leb 1 (length s) && leb (length s) identifier_max) range_error _ λ bounds.
      require-OnOk Q (identifier_form s) type_error _ λ form.
        require-OnOk Q (not (is_refused_identifier s)) type_error _ λ free. (
          refl,
          record {
            long = (in_bounds s bounds).0;
            short = (in_bounds s bounds).1;
            form = form;
            admitted = not-true _ free;
          },
        )
identifier-OnOk v = tt

identifier-string : (s : Text) → IsIdentifier s → identifier (string s) ≡ ok s
unfolding identifier
identifier-string s h =
    let bounds : (leb 1 (length s) && leb (length s) identifier_max) ≡ true =
      ground (arith, h.long, h.short) in
    simp (bounds, h.form, h.admitted)

identifiers-OnOk :
    (vs : List Value) → OnOk (λ ss. (vs ≡ map string ss) × All IsIdentifier ss) (identifiers vs)
unfolding identifiers
identifiers-OnOk [] = (refl, tt)
identifiers-OnOk (v ∷ vs) =
    let Q : List Text → Type 0 = λ ss. (v ∷ vs ≡ map string ss) × All IsIdentifier ss in
    >>=-OnOk Q (identifier v) _ λ s e. >>=-OnOk Q (identifiers vs) _ λ rest f.
      let (same, h) = OnOk_elim (λ s. (v ≡ string s) × IsIdentifier s) _ (identifier-OnOk v) e in
      let (others, k) =
        OnOk_elim (λ ss. (vs ≡ map string ss) × All IsIdentifier ss) _ (identifiers-OnOk vs) f in
      (cc (same, others), (h, k))

identifiers-map : (ss : List Text) → All IsIdentifier ss → identifiers (map string ss) ≡ ok ss
unfolding identifiers
identifiers-map [] h = refl
identifiers-map (s ∷ ss) h = simp (identifier-string s h.0, identifiers-map ss h.1)

-- The set test is membership.
In-of_any : (s : Text) (seen : List Text) → any (λ t. text_eq t s) seen ≡ true → In s seen
In-of_any s [] h = cc
In-of_any s (t ∷ seen) h = elim (Bool-cases (text_eq t s)) [
  | inl e ↦ inl (sym ((text_eq_iff t s).0 e))
  | inr e ↦ inr (In-of_any s seen (cc (h, e)))
]

any-In : (s : Text) (seen : List Text) → In s seen → any (λ t. text_eq t s) seen ≡ true
any-In s [] m = absurd m
any-In s (t ∷ seen) (inl same) =
    let found : text_eq t s ≡ true = (text_eq_iff t s).1 (sym same) in rw found refl
any-In s (t ∷ seen) (inr m) = or_true (text_eq t s) _ (any-In s seen m)

-- Each entry is none of those seen, and they differ from one another.
abbrev Fresh : List Text → List Text → Type 0
Fresh seen ss = All (λ s. In s seen → ⊥) ss × Distinct ss

Fresh-cons :
    (seen : List Text) (s : Text) (ss : List Text)
    → (In s seen → ⊥)
    → Fresh (s ∷ seen) ss
    → Fresh seen (s ∷ ss)
Fresh-cons seen s ss new f = (
  (
    new,
    All-intro (λ t. In t seen → ⊥) ss λ t m n. All-In (λ t. In t (s ∷ seen) → ⊥) ss t f.0 m (inr n),
  ),
  (λ m. All-In (λ t. In t (s ∷ seen) → ⊥) ss s f.0 m (inl refl), f.1),
)

Fresh-tail :
    (seen : List Text) (s : Text) (ss : List Text) → Fresh seen (s ∷ ss) → Fresh (s ∷ seen) ss
Fresh-tail seen s ss f = (All-intro (λ t. In t (s ∷ seen) → ⊥) ss apart, f.1.1)
  where
    apart : (t : Text) → In t ss → In t (s ∷ seen) → ⊥
    apart t m (inl e) = f.1.0 (rw (← e) m)
    apart t m (inr n) = All-In (λ t. In t seen → ⊥) ss t f.0.1 m n

unseen_from-Fresh : (seen ss : List Text) → unseen_from seen ss ≡ true → Fresh seen ss
unfolding unseen_from
unseen_from-Fresh seen [] h = (tt, tt)
unseen_from-Fresh seen (s ∷ ss) h = elim (Bool-cases (any (λ t. text_eq t s) seen)) [
  | inl e ↦ cc (h, e)
  | inr e ↦
      Fresh-cons seen s ss (λ m. cc (e, any-In s seen m))
        (unseen_from-Fresh (s ∷ seen) ss (cc (h, e)))
]

Fresh-unseen_from : (seen ss : List Text) → Fresh seen ss → unseen_from seen ss ≡ true
unfolding unseen_from
Fresh-unseen_from seen [] f = refl
Fresh-unseen_from seen (s ∷ ss) f = elim (Bool-cases (any (λ t. text_eq t s) seen)) [
  | inl e ↦ absurd (f.0.0 (In-of_any s seen e))
  | inr e ↦ rw e (Fresh-unseen_from (s ∷ seen) ss (Fresh-tail seen s ss f))
]

abbrev IsListOf : List Value → List Text → Type 0
IsListOf vs out = (vs ≡ map string out) × All IsIdentifier out × Distinct out

unique_identifiers-OnOk : (vs : List Value) → OnOk (IsListOf vs) (unique_identifiers vs)
unfolding unique_identifiers
unique_identifiers-OnOk vs = >>=-OnOk (IsListOf vs) (identifiers vs) _ λ out e.
    require-OnOk (IsListOf vs) (unseen_from [] out) type_error _ λ fresh.
      let (same, h) =
        OnOk_elim (λ ss. (vs ≡ map string ss) × All IsIdentifier ss) _ (identifiers-OnOk vs) e in
      (same, h, (unseen_from-Fresh [] out fresh).1)

unique_identifiers-map :
    (ss : List Text)
    → All IsIdentifier ss
    → Distinct ss
    → unique_identifiers (map string ss) ≡ ok ss
unfolding unique_identifiers
unique_identifiers-map ss h d =
    let fresh : unseen_from [] ss ≡ true =
      Fresh-unseen_from [] ss (All-intro (λ t. In t [] → ⊥) ss (λ t m n. n), d) in
    rw (identifiers-map ss h, fresh) refl

-- A list of identifiers is accepted exactly if it is an ordinary dense array of strings, each one
-- an identifier of 1 to 64 characters that is none of the refused words, no two of them the same;
-- and what is answered is those strings in their order. Such an array inherits from
-- `Array.prototype` itself, has no hole and no property beside its elements, and each element is an
-- enumerable data property.
pub identifier_list_iff :
    (h : Heap) (v : Value) (ss : List Text)
    → (identifier_list h v ≡ ok ss) ↔ (IsArrayOf h v ss × All IsIdentifier ss × Distinct ss)
unfolding identifier_list
identifier_list_iff h v ss = (accepted (dense_elements h v) refl, admitted)
  where
    accepted :
        (given : Option (List Value))
        → dense_elements h v ≡ given
        → (elim given as (λ _. Outcome (List Text)) [
          | none ↦ err type_error
          | some vs ↦ unique_identifiers vs
        ])
          ≡ ok ss
        → IsArrayOf h v ss × All IsIdentifier ss × Distinct ss
    accepted none g e = cc
    accepted (some vs) g e =
        let (same, k, d) = OnOk_elim (IsListOf vs) _ (unique_identifiers-OnOk vs) e in
        (dense_elements-IsArrayOf h v ss (g ∙ ap some same), k, d)

    admitted : IsArrayOf h v ss × All IsIdentifier ss × Distinct ss → identifier_list h v ≡ ok ss
    admitted (array, k, d) =
        rw (identifier_list, IsArrayOf-dense_elements h v ss array) (unique_identifiers-map ss k d)
