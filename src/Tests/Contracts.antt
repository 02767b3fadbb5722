-- ===== src/Tests/Contracts.antt =====
-- An error under another, a list of identifiers and the gate of a use case.
use metaframer_kernel.Base.{
  ◌≡◌, refl, ◌↔◌, ◌⊎◌, ℕ, ◌+◌, some, none, List, [], ◌∷◌, map, All, ok, err, type_error, true,
  false, Fault, pos, Ends, arith,
}
use metaframer_kernel.Base.Effects.{Eff, ◌>>=◌, lift}
use metaframer_kernel.Text.{Text, codes, text_eq}
use metaframer_kernel.Js.{Value, string, number, integer, ref, Heap, array_prototype}
use metaframer_kernel.Js.Shape.{dense_elements}
use metaframer_kernel.Js.Arrays.{IsArrayOf, element_of}
use metaframer_kernel.Canonical.{Json}
use metaframer_kernel.Policy.Types.{real, Foreign}
use metaframer_kernel.DecisionLog.{instance_of}
use metaframer_kernel.Policy.Types.{genuine}
use metaframer_kernel.Actions.Errors.{
  KernelError, kernel_error, no_cause, ErrorOptions, new_kernel_error, Result, is_ok,
  error_code_form,
}
use metaframer_kernel.Actions.Errors.Bounds.{IsBounded, IsBoundedOption, new_kernel_error-IsBounded}
use metaframer_kernel.Actions.Contract.{
  identifier_list, unique_identifiers, identifiers, identifier, identifier_form, unseen_from,
  command, query,
}
use metaframer_kernel.Actions.Contract.Identifiers.{IsIdentifier, Distinct, identifier_list_iff}
use metaframer_kernel.Actions.Declaration.{UseCase}
use metaframer_kernel.Actions.UseCase.{
  GivenAction, execute, is_class, check_declared, equals_text, equals_integer,
}
use metaframer_kernel.Actions.UseCase.Gate.{Admits, execute_gate}
use metaframer_kernel.Tests.Policy.{two_candidates}

abbrev root_error : KernelError
root_error = kernel_error (codes "DISK_FULL") none no_cause 1

root_error-IsBounded : IsBounded root_error
unfolding IsBounded error_code_form
root_error-IsBounded = ((omega arith, refl), tt, refl, omega arith, tt)

abbrev wrapped : ErrorOptions
wrapped = record {
  code = string (codes "WRITE_FAILED");
  details = Value.null;
  cause = some (real root_error);
}

wrapped_cause : IsBoundedOption wrapped.cause
unfolding genuine
wrapped_cause = root_error-IsBounded

new_kernel_error-IsBounded_example : Ends IsBounded (new_kernel_error two_candidates wrapped)
new_kernel_error-IsBounded_example = new_kernel_error-IsBounded two_candidates wrapped wrapped_cause

abbrev fields : List Text
fields = codes "requestId" ∷ codes "payload" ∷ []

abbrev field_heap : Heap
field_heap n = record {
  proto = array_prototype;
  elements = some (map element_of fields);
  props = [];
}

fields_accepted : identifier_list field_heap (ref 0) ≡ ok fields
unfolding identifier_list dense_elements unique_identifiers identifiers identifier text_eq
    identifier_form unseen_from
fields_accepted = refl

identifier_list_iff_example :
    (identifier_list field_heap (ref 0) ≡ ok fields)
    ↔ (IsArrayOf field_heap (ref 0) fields × All IsIdentifier fields × Distinct fields)
identifier_list_iff_example = identifier_list_iff field_heap (ref 0) fields

abbrev counting_handler : GivenAction ℕ → Eff ℕ (Foreign Result)
counting_handler action w = (ok (real (is_ok Json.null)), w + 1)

abbrev create_customer : UseCase
create_customer = record {
  kind = command;
  name = codes "customer.create";
  version = 1;
  handler = 0;
}

abbrev a_query : GivenAction ℕ
a_query = record {
  class = some query;
  has_brand = true;
  name = λ w. (ok (string (codes "customer.create")), w);
  version = λ w. (ok (number (integer (pos 1))), w);
}

-- An object with the prototype of a Command and two properties of its own.
abbrev impersonator : GivenAction ℕ
impersonator = record a_query { class = some command; has_brand = false }

impersonator_runs :
    execute counting_handler create_customer impersonator 5 ≡ (ok (is_ok Json.null), 6)
unfolding execute is_class check_declared equals_text equals_integer text_eq instance_of genuine
impersonator_runs = refl

query_refused : execute counting_handler create_customer a_query 5 ≡ (err type_error, 5)
unfolding execute is_class
query_refused = refl

execute_gate_example :
    ((x : ℕ) × Admits create_customer impersonator 5 x
      × ((handler : GivenAction ℕ → Eff ℕ (Foreign Result))
          → execute handler create_customer impersonator 5
            ≡ (handler impersonator >>= λ r. lift (instance_of r)) x))
    ⊎ ((f : Fault) × (x : ℕ) × ((y : ℕ) → Admits create_customer impersonator 5 y → ⊥)
        × ((handler : GivenAction ℕ → Eff ℕ (Foreign Result))
            → execute handler create_customer impersonator 5 ≡ (err f, x)))
execute_gate_example = execute_gate create_customer impersonator 5
