-- ===== src/Policy/Types.antt =====
-- The values of the policy protocol: effects, layers, identities, requests and decisions.
use metaframer_kernel.Base.{ℕ, Bool, true, false, Option, none, some}
use metaframer_kernel.Text.{Text}
use metaframer_kernel.Canonical.{Json}

pub data Effect : Type 0 where
  allow deny : Effect

pub data Layer : Type 0 where
  system platform tenant : Layer

-- A CorrelationId instance: two instances may carry the same UUID, and `===` tells them apart by
-- their address.
pub record CorrelationId : Type 0 where
  pub address : ℕ
  pub uuid : Text

pub record Principal : Type 0 where
  pub tenant_id : Text
  pub actor_id : Text

-- A genuine Command or Query, as far as the policy protocol reads it.
pub record Action : Type 0 where
  pub name : Text
  pub version : ℕ
  pub principal : Principal
  pub correlation_id : CorrelationId
  pub payload : Json

pub record PolicyRequest : Type 0 where
  pub action : Action
  pub resource : Json
  pub context : Json

pub record PolicyDecision : Type 0 where
  pub effect : Effect
  pub reason : Text
  pub matched_policy_id : Option Text
  pub trace_id : CorrelationId

-- A value as the admission test of the class `A` sees it: whether its prototype is exactly that of
-- `A`, and the private state that only the constructor of `A` installs.
pub record Foreign (A : Type 0) : Type 0 where
  pub is_exact : Bool
  pub private_state : Option A

-- `isExactly(value, A) && carriesBrand(BRAND, value)`, with the instance that it admits.
unfoldable pub genuine : {A : Type 0} → Foreign A → Option A
genuine v = elim v.is_exact [ true ↦ v.private_state | false ↦ none ]

abbrev pub real : {A : Type 0} → A → Foreign A
real a = record { is_exact = true; private_state = some a }
