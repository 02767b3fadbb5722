-- ===== src/Text/Semver.antt =====
-- The SemVer 2.0.0 expression of src/application/policy-statement.mjs, by the parts it groups.
use metaframer_kernel.Base.{
  ℕ, Bool, true, false, ◌&&◌, ◌||◌, not, Option, none, some, List, [], ◌∷◌, leb, ◌==◌, length, all,
  any, if◌then◌else◌,
}
use metaframer_kernel.Text.{Text}
use metaframer_kernel.Text.Forms.{is_digit, is_lower, is_upper}

-- The text before the first `c`, and what follows it, if it occurs.
unfoldable pub cut : ℕ → Text → Text × Option Text
cut c [] = ([], none)
cut c (d ∷ s) =
    let (before, after) = cut c s in if d == c then ([], some s) else (d ∷ before, after)

-- One character more before the parts, which a separator closes.
abbrev pub prepend : Bool → ℕ → List Text → List Text
prepend true d parts = [] ∷ parts
prepend false d [] = (d ∷ []) ∷ []
prepend false d (part ∷ parts) = (d ∷ part) ∷ parts

-- `s.split(c)`
unfoldable pub split_on : ℕ → Text → List Text
split_on c [] = [] ∷ []
split_on c (d ∷ s) = prepend (d == c) d (split_on c s)

-- `[0-9a-zA-Z-]`
unfoldable pub is_identifier_char : ℕ → Bool
unfolding is_digit is_lower is_upper
is_identifier_char c = is_digit c || is_lower c || is_upper c || (c == b'-')

-- `0|[1-9]\d*`
unfoldable pub numeric_identifier : Text → Bool
unfolding is_digit
numeric_identifier [] = false
numeric_identifier (c ∷ s) = all is_digit (c ∷ s) && (not (c == b'0') || (length s == 0))

-- `0|[1-9]\d*|\d*[a-zA-Z-][0-9a-zA-Z-]*`
unfoldable pub prerelease_identifier : Text → Bool
unfolding numeric_identifier is_identifier_char
prerelease_identifier s =
    numeric_identifier s || (all is_identifier_char s && any (λ c. not (is_digit c)) s)

-- `[0-9a-zA-Z-]+`
unfoldable pub build_identifier : Text → Bool
unfolding is_identifier_char
build_identifier s = leb 1 (length s) && all is_identifier_char s

unfoldable pub optional_identifiers : (Text → Bool) → Option Text → Bool
unfolding split_on
optional_identifiers p none = true
optional_identifiers p (some s) = all p (split_on b'.' s)

-- A `+` opens the build part; before it, a `-` opens the pre-release part.
unfoldable pub semver_form : Text → Bool
unfolding cut split_on numeric_identifier prerelease_identifier build_identifier
    optional_identifiers
semver_form s =
    let (version, build) = cut b'+' s in
    let (core, prerelease) = cut b'-' version in
    let parts = split_on b'.' core in
    (length parts == 3)
    && all numeric_identifier parts
    && optional_identifiers prerelease_identifier prerelease
    && optional_identifiers build_identifier build
