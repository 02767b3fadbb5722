-- ===== src/Identity.antt =====
-- src/domain/identity-primitives.mjs and src/application/identity.mjs: the values that say who
-- acts, and the port that asks for the acting principal.
use metaframer_kernel.Base.{
  length, ◌==◌, ℕ, ◌+◌, Bool, false, ◌&&◌, ◌||◌, not, none, some, [], ◌∷◌, ltb, leb, if◌then◌else◌,
  Outcome, ok, err, type_error, range_error, ◌>>◌, require,
}
use metaframer_kernel.Base.Effects.{Eff, lift, ◌>>=◌ as ◌then◌}
use metaframer_kernel.Text.{Text, codes, text_eq}
use metaframer_kernel.Text.Forms.{uuid_form, actor_form}
use metaframer_kernel.Text.Trim.{trim, has_c0_control}
use metaframer_kernel.Js.{Value, string, ref, Heap, is_enumerable_data, own_property, read}
use metaframer_kernel.Js.Shape.{is_object_prototype, is_array, has_key}
use metaframer_kernel.Clock.Port.{function_of}
use metaframer_kernel.Policy.Types.{Principal, Foreign, genuine}

abbrev pub nil_uuid : Text
nil_uuid = codes "00000000-0000-0000-0000-000000000000"

-- `canonicalUuid`, of TenantId and CorrelationId.
unfoldable pub canonical_uuid : Value → Outcome Text
canonical_uuid (string s) = do
  require (uuid_form s) type_error
  require (not (text_eq s nil_uuid)) range_error
  ok s
canonical_uuid _ = err type_error

-- `canonicalActor`
unfoldable pub canonical_actor : Value → Outcome Text
canonical_actor (string s) = if actor_form s then ok s else err type_error
canonical_actor _ = err type_error

-- The bytes of a UTF-16 code unit that is no half of a pair; a lone half becomes U+FFFD.
unfoldable pub unit_bytes : ℕ → ℕ
unit_bytes c = if ltb c 0x80 then 1 else if ltb c 0x800 then 2 else 3

unfoldable pub is_pair : ℕ → ℕ → Bool
is_pair c d = leb 0xd800 c && ltb c 0xdc00 && leb 0xdc00 d && ltb d 0xe000

-- `new TextEncoder().encode(s).length`; the flag says that the pair was counted at its first half.
unfoldable pub utf8_length_from : Bool → Text → ℕ
unfolding unit_bytes is_pair
utf8_length_from counted [] = 0
utf8_length_from counted (c ∷ []) = if counted then 0 else unit_bytes c
utf8_length_from counted (c ∷ d ∷ s) =
    let pair : Bool = not counted && is_pair c d in
    (if counted then 0 else if pair then 4 else unit_bytes c) + utf8_length_from pair (d ∷ s)

abbrev pub raw_min_bytes : ℕ
raw_min_bytes = 1

abbrev pub raw_max_bytes : ℕ
raw_max_bytes = 1024

-- `fingerprintOf`; `sha256_hex` is the digest of a string's UTF-8 bytes.
unfoldable pub fingerprint_of : (Text → Text) → Value → Outcome Text
unfolding utf8_length_from
fingerprint_of sha256_hex (string raw) = do
  require (text_eq (trim raw) raw) range_error
  require (not (has_c0_control raw)) range_error
  require
      (not (
        ltb (utf8_length_from false raw) raw_min_bytes
        || ltb raw_max_bytes (utf8_length_from false raw)))
      range_error
  ok (sha256_hex raw)
fingerprint_of sha256_hex _ = err type_error

-- `Identity.current`, over its one collaborator.
unfoldable pub current : {W : Type 0} → Eff W (Foreign Principal) → Eff W Principal
current ask =
    ask then λ candidate. lift (elim (genuine candidate) [ none ↦ err type_error | some p ↦ ok p ])

-- `collaboratorOf` of the Identity port; the own key `length` of an array is one key too many.
unfoldable pub identity_collaborator_of : Heap → Value → Outcome ℕ
identity_collaborator_of h (ref r) = do
  require (is_object_prototype (h r).proto) type_error
  require
      (not (is_array (h r)) && (length (h r).props == 1) && has_key (h r).props (codes "current"))
      type_error
  require (is_enumerable_data (own_property (codes "current") (h r).props)) type_error
  function_of (read (codes "current") (h r).props)
identity_collaborator_of h _ = err type_error
