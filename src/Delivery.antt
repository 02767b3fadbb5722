-- ===== src/Delivery.antt =====
-- src/delivery/asgi-core-profile.mjs: the loop of `callFromReceive`, which takes the body of a
-- request from the events that the server delivers.
pub mod Merge
pub mod Receive
pub mod Responses
pub mod Scope
use metaframer_kernel.Base.{
  ℕ, zero, suc, ◌+◌, Bool, true, false, ◌&&◌, not, Option, none, some, List, [], ◌∷◌, ◌++◌, length,
  ltb, if◌then◌else◌,
}

-- `event.body`: absent, a Uint8Array, or something else.
pub data Part : Type 0 where
  absent other_part : Part
  bytes : List ℕ → Part

-- `event.more_body`: not an own property, one of the two Booleans, or something else.
pub data More : Type 0 where
  unsaid more no_more other_more : More

-- What `receive` answers: no ordinary object of the type "http.request", or one.
pub data Event : Type 0 where
  other_event : Event
  request : Part → More → Event

pub data Collected : Type 0 where
  waiting refused : Collected
  complete : List ℕ → Collected

-- `receivedBytes > maxBodyBytes`, if there is a bound.
unfoldable pub exceeds : Option ℕ → ℕ → Bool
exceeds none n = false
exceeds (some bound) n = ltb bound n

abbrev pub chunk_of : Part → Option (List ℕ)
chunk_of absent = some []
chunk_of (bytes c) = some c
chunk_of other_part = none

abbrev pub is_other : More → Bool
is_other other_more = true
is_other _ = false

abbrev pub goes_on : More → Bool
goes_on more = true
goes_on _ = false

-- `chunks.reduce((sum, chunk) => sum + chunk.length, 0)`
unfoldable pub total_length : List (List ℕ) → ℕ
total_length [] = 0
total_length (c ∷ cs) = length c + total_length cs

abbrev pub zeros : ℕ → List ℕ
zeros zero = []
zeros (suc n) = 0 ∷ zeros n

-- `merged.set(chunk, offset)`; what would stand beyond the end is dropped here.
unfoldable pub set_at : ℕ → List ℕ → List ℕ → List ℕ
set_at offset chunk [] = []
set_at (suc k) chunk (b ∷ bs) = b ∷ set_at k chunk bs
set_at zero [] (b ∷ bs) = b ∷ bs
set_at zero (c ∷ cs) (b ∷ bs) = c ∷ set_at zero cs bs

unfoldable pub merge_from : ℕ → List (List ℕ) → List ℕ → List ℕ
unfolding set_at
merge_from offset [] merged = merged
merge_from offset (c ∷ cs) merged = merge_from (offset + length c) cs (set_at offset c merged)

unfoldable pub merge : List (List ℕ) → List ℕ
unfolding merge_from total_length
merge chunks = merge_from 0 chunks (zeros (total_length chunks))

-- The loop, over the events still to come; out of events it waits.
unfoldable pub collect : Option ℕ → ℕ → List (List ℕ) → List Event → Collected
unfolding merge exceeds
collect bound received chunks [] = waiting
collect bound received chunks (other_event ∷ es) = refused
collect bound received chunks (request part m ∷ es) = elim (chunk_of part) [
  | none ↦ refused
  | some c ↦
      let rest = collect bound (received + length c) (chunks ++ (c ∷ [])) es in
      if exceeds bound (received + length c)
      then refused
      else if is_other m
      then refused
      else if goes_on m
      then rest
      else complete (merge (chunks ++ (c ∷ [])))
]
