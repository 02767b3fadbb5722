-- ===== src/Actions/Errors/Bounds.antt =====
-- src/application/action-primitives.mjs: what every KernelError that the constructor answers keeps.
use metaframer_kernel.Base.{
  ℕ, suc, ◌+◌, ◌≤◌, ◌≡◌, refl, true, not, Option, none, some, leb, length, ok, err, type_error,
  range_error, Ends, >>=-Ends, require-Ends, arith,
}
use metaframer_kernel.Text.{Text}
use metaframer_kernel.Js.{Value, string, null, ref, Heap}
use metaframer_kernel.Js.Shape.{is_array}
use metaframer_kernel.Canonical.{Json, canonical_object}
use metaframer_kernel.Canonical.Bounds.{IsCanonical}
use metaframer_kernel.Canonical.Walk.{canonical_anything-IsCanonical}
use metaframer_kernel.Policy.Types.{Foreign, genuine}
use metaframer_kernel.DecisionLog.{instance_of}
use metaframer_kernel.Actions.Errors.{
  KernelError, kernel_error, Cause, no_cause, caused_by, ErrorOptions, error_code, error_code_form,
  error_code_max, details_value, cause_value, new_kernel_error, depth_of, max_cause_depth,
}

-- The number of errors from this one to the root of the chain.
unfoldable mutual
  pub chain : KernelError → ℕ
  chain (kernel_error code details cause depth) = suc (chain_below cause)

  pub chain_below : Cause → ℕ
  chain_below no_cause = 0
  chain_below (caused_by e) = chain e

abbrev pub IsCode : Text → Type 0
IsCode s = (length s ≤ error_code_max) × (error_code_form s ≡ true)

abbrev pub IsDetails : Option Json → Type 0
IsDetails none = Unit
IsDetails (some j) = IsCanonical 1 j

-- Every error of the chain has a code of the form, canonical details, and for its depth the length
-- of its own chain, which is at most eight.
unfoldable mutual
  unfolding chain

  pub IsBounded : KernelError → Type 0
  IsBounded (kernel_error code details cause depth) =
      IsCode code
      × IsDetails details
      × (depth ≡ suc (chain_below cause))
      × (depth ≤ max_cause_depth)
      × IsBoundedCause cause

  pub IsBoundedCause : Cause → Type 0
  IsBoundedCause no_cause = Unit
  IsBoundedCause (caused_by e) = IsBounded e

IsBounded-depth : (e : KernelError) → IsBounded e → (depth_of e ≡ chain e) × (depth_of e ≤ 8)
unfolding IsBounded chain
IsBounded-depth (kernel_error code details cause depth) h = (h.2, h.3)

error_code-IsCode : (v : Value) → Ends IsCode (error_code v)
unfolding error_code
error_code-IsCode (string s) =
    require-Ends IsCode (leb (length s) error_code_max) range_error _ tt
      λ long. require-Ends IsCode (error_code_form s) type_error _ tt λ form. (ground arith, form)
error_code-IsCode v = tt

canonical_object-IsCanonical : (h : Heap) (v : Value) → Ends (IsCanonical 1) (canonical_object h v)
unfolding canonical_object
canonical_object-IsCanonical h (ref r) =
    require-Ends (IsCanonical 1) (not (is_array (h r))) type_error _ tt
      λ _. canonical_anything-IsCanonical h (ref r)
canonical_object-IsCanonical h v = tt

details_value-IsDetails : (h : Heap) (v : Value) → Ends IsDetails (details_value h v)
unfolding details_value
details_value-IsDetails h null = tt
details_value-IsDetails h v =
    >>=-Ends (IsCanonical 1) IsDetails (canonical_object h v) (λ j. ok (some j))
      (canonical_object-IsCanonical h v) λ j c. c

-- What a cause that is a genuine instance is known to be.
abbrev pub IsBoundedInstance : Option KernelError → Type 0
IsBoundedInstance none = Unit
IsBoundedInstance (some e) = IsBounded e

abbrev pub IsBoundedOption : Option (Foreign KernelError) → Type 0
IsBoundedOption none = Unit
IsBoundedOption (some v) = IsBoundedInstance (genuine v)

abbrev IsCause : Cause × ℕ → Type 0
IsCause c = IsBoundedCause c.0 × (c.1 ≡ suc (chain_below c.0)) × (c.1 ≤ max_cause_depth)

instance_of-IsBounded :
    (v : Foreign KernelError) → IsBoundedOption (some v) → Ends IsBounded (instance_of v)
unfolding instance_of
instance_of-IsBounded v h = go (genuine v) h
  where
    go :
        (g : Option KernelError)
        → IsBoundedInstance g
        → Ends IsBounded (elim g [ none ↦ err type_error | some e ↦ ok e ])
    go none h = tt
    go (some e) h = h

caused_by-IsCause :
    (e : KernelError)
    → IsBounded e
    → not (leb max_cause_depth (depth_of e)) ≡ true
    → IsCause (caused_by e, depth_of e + 1)
unfolding IsBounded chain
caused_by-IsCause e h less =
    let (same, most) = IsBounded-depth e h in (h, ground (arith, same), ground arith)

cause_value-IsCause :
    (o : Option (Foreign KernelError)) → IsBoundedOption o → Ends IsCause (cause_value o)
unfolding cause_value chain IsBounded
cause_value-IsCause none h = (tt, refl, omega arith)
cause_value-IsCause (some v) h =
    >>=-Ends IsBounded IsCause (instance_of v) _ (instance_of-IsBounded v h) λ e b.
      require-Ends IsCause (not (leb max_cause_depth (depth_of e))) range_error _ tt
        (caused_by-IsCause e b)

-- Whatever it is given, with a cause that the constructor itself once answered or any impostor, the
-- constructor of KernelError comes to an end: it throws, or the error has a code of at most 64
-- characters of the form, canonical details, and a chain of at most eight errors, whose length is
-- its depth; and so has every error of the chain.
pub new_kernel_error-IsBounded :
    (h : Heap) (options : ErrorOptions)
    → IsBoundedOption options.cause
    → Ends IsBounded (new_kernel_error h options)
unfolding new_kernel_error IsBounded
new_kernel_error-IsBounded h options bounded =
    >>=-Ends IsCode IsBounded (error_code options.code) _ (error_code-IsCode options.code) λ code c.
      >>=-Ends IsDetails IsBounded (details_value h options.details) _
        (details_value-IsDetails h options.details)
        λ details d.
          >>=-Ends IsCause IsBounded (cause_value options.cause) _
            (cause_value-IsCause options.cause bounded) λ cause k. (c, d, k.1, k.2, k.0)
