-- ===== src/Tests/Batch.antt =====
-- A batch of two requests over a collaborator that counts its calls.
use metaframer_kernel.Base.{
  ◌≡◌, refl, none, some, zero, suc, [], ◌∷◌, ◌+◌, ℕ, ok, err, type_error, foreign, inl, inr, true,
  map,
}
use metaframer_kernel.Base.Effects.{Eff}
use metaframer_kernel.Js.{Value, ref, Heap}
use metaframer_kernel.Policy.Types.{PolicyRequest, Foreign, real, genuine}
use metaframer_kernel.Policy.Point.{point_decide, decide_each, decide_all, check_requests}
use metaframer_kernel.Policy.Point.Batch.{DecidedAll, decide_all-refused, decide_all-DecidedAll}
use metaframer_kernel.Tests.Policy.{two_candidates, request, decide_two, denied_by_night}

-- It fails from its third call on.
abbrev counted : PolicyRequest → Eff ℕ (Heap × Value)
counted r zero = (ok (two_candidates, ref 0), 1)
counted r (suc zero) = (ok (two_candidates, ref 0), 2)
counted r n = (err (foreign 9), n + 1)

abbrev impostor : Foreign PolicyRequest
impostor = record { is_exact = true; private_state = none }

impostor_refused : genuine impostor ≡ none
unfolding genuine
impostor_refused = refl

first_two :
    decide_all counted (some (map real (request ∷ request ∷ []))) 0
    ≡ (ok (denied_by_night ∷ denied_by_night ∷ []), 2)
unfolding decide_all check_requests decide_each point_decide genuine
first_two = rw (decide_two, decide_two) refl

decide_all-refused_example :
    decide_all counted (some (real request ∷ impostor ∷ [])) 0 ≡ (err type_error, 0)
decide_all-refused_example =
    decide_all-refused counted (real request ∷ impostor ∷ []) impostor 0 (inr (inl refl))
      impostor_refused

decide_all-DecidedAll_example :
    DecidedAll counted 0 (request ∷ request ∷ []) (denied_by_night ∷ denied_by_night ∷ []) 2
decide_all-DecidedAll_example =
    decide_all-DecidedAll counted (request ∷ request ∷ []) 0 2
      (denied_by_night ∷ denied_by_night ∷ []) first_two

two_decided :
    decide_each counted (request ∷ request ∷ []) 0
    ≡ (ok (denied_by_night ∷ denied_by_night ∷ []), 2)
unfolding decide_each point_decide genuine
two_decided = rw (decide_two, decide_two) refl

third_fails : point_decide counted (real request) 2 ≡ (err (foreign 9), 3)
unfolding point_decide genuine
third_fails = refl
