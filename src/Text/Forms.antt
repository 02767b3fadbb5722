-- ===== src/Text/Forms.antt =====
-- The anchored regular expressions of the validators, each as the automaton that it denotes.
-- Every one is tested by `RegExp.prototype.test` with `^` and `$` and no flag.
use metaframer_kernel.Base.{
  ℕ, suc, zero, Bool, true, false, ◌&&◌, ◌||◌, List, [], ◌∷◌, leb, ◌==◌, length, all, if◌then◌else◌,
}
use metaframer_kernel.Text.{Text}

-- Character classes.
unfoldable pub is_digit : ℕ → Bool
is_digit c = leb b'0' c && leb c b'9'

unfoldable pub is_lower : ℕ → Bool
is_lower c = leb b'a' c && leb c b'z'

unfoldable pub is_upper : ℕ → Bool
is_upper c = leb b'A' c && leb c b'Z'

-- `[0-9a-f]`
unfoldable pub is_hex : ℕ → Bool
unfolding is_digit
is_hex c = is_digit c || (leb b'a' c && leb c b'f')

-- `[a-z0-9]`
unfoldable pub is_alnum : ℕ → Bool
unfolding is_digit is_lower
is_alnum c = is_lower c || is_digit c

-- `[.-]`
unfoldable pub is_separator : ℕ → Bool
is_separator c = (c == b'.') || (c == b'-')

-- `/^[a-z0-9]+([.-][a-z0-9]+)*$/`: the flag says that the current segment has a character.
unfoldable pub canonical_id_from : Bool → Text → Bool
unfolding is_alnum is_separator
canonical_id_from started [] = started
canonical_id_from started (c ∷ s) =
    (is_alnum c || (started && is_separator c)) && canonical_id_from (is_alnum c) s

unfoldable pub policy_id_form : Text → Bool
unfolding canonical_id_from
policy_id_form s = canonical_id_from false s

-- `[a-z][a-z0-9]*(\.[a-z][a-z0-9]*)…`: a segment begins with a letter; the result is the number
-- of dots, or nothing if the text has another form.
unfoldable pub dotted_from : Bool → Text → Bool
unfolding is_lower is_alnum
dotted_from started [] = started
dotted_from started (c ∷ s) =
    (if started then is_alnum c || (c == b'.') else is_lower c)
    && dotted_from (if started then is_alnum c else true) s

abbrev pub has_dot : Text → Bool
has_dot [] = false
has_dot (c ∷ s) = (c == b'.') || has_dot s

-- `/^[a-z][a-z0-9]*(\.[a-z][a-z0-9]*)*$/`
unfoldable pub resource_type_form : Text → Bool
unfolding dotted_from
resource_type_form s = dotted_from false s

-- `/^[a-z][a-z0-9]*(\.[a-z][a-z0-9]*)+$/`
unfoldable pub action_name_form : Text → Bool
unfolding dotted_from
action_name_form s = dotted_from false s && has_dot s

-- A fixed shape: one class for each position, as `\d{4}-\d{2}-…` and the UUID groups are.
unfoldable pub matches_shape : List (ℕ → Bool) → Text → Bool
matches_shape [] [] = true
matches_shape [] (c ∷ s) = false
matches_shape (p ∷ ps) [] = false
matches_shape (p ∷ ps) (c ∷ s) = p c && matches_shape ps s

abbrev pub times : ℕ → (ℕ → Bool) → List (ℕ → Bool) → List (ℕ → Bool)
times zero p rest = rest
times (suc n) p rest = p ∷ times n p rest

abbrev pub literally : ℕ → ℕ → Bool
literally c d = d == c

-- `/^[0-9a-f]{8}-[0-9a-f]{4}-[0-9a-f]{4}-[0-9a-f]{4}-[0-9a-f]{12}$/`
abbrev pub uuid_shape : List (ℕ → Bool)
uuid_shape = times 8 is_hex (
    literally b'-'
    ∷ times 4 is_hex (
        literally b'-'
        ∷ times 4 is_hex (literally b'-' ∷ times 4 is_hex (literally b'-' ∷ times 12 is_hex []))))

unfoldable pub uuid_form : Text → Bool
unfolding matches_shape is_hex
uuid_form s = matches_shape uuid_shape s

-- `/^[0-9a-f]{64}$/`
unfoldable pub hex64_form : Text → Bool
unfolding matches_shape is_hex
hex64_form s = matches_shape (times 64 is_hex []) s

-- `[0-9A-HJKMNP-TV-Z]`: Crockford's digits, without I, L, O and U.
unfoldable pub is_crockford : ℕ → Bool
unfolding is_digit is_upper
is_crockford c =
    is_digit c
    || (leb b'A' c && leb c b'H')
    || (c == b'J')
    || (c == b'K')
    || (c == b'M')
    || (c == b'N')
    || (leb b'P' c && leb c b'T')
    || (leb b'V' c && leb c b'Z')

-- `/^[0-7][0-9A-HJKMNP-TV-Z]{25}$/`
unfoldable pub ulid_form : Text → Bool
unfolding matches_shape is_crockford
ulid_form s = matches_shape ((λ c. leb b'0' c && leb c b'7') ∷ times 25 is_crockford []) s

-- `/^[\x21-\x7e]{1,128}$/`
unfoldable pub actor_form : Text → Bool
actor_form s = all (λ c. leb 0x21 c && leb c 0x7e) s && leb 1 (length s) && leb (length s) 128
