-- ===== src/Text/Trim.antt =====
-- `String.prototype.trim` and the control characters.
use metaframer_kernel.Base.{ℕ, Bool, ◌&&◌, ◌||◌, [], ◌∷◌, leb, ◌==◌, if◌then◌else◌, any}
use mathlib.Core.List.{reverse}
use metaframer_kernel.Text.{Text}

-- White space and line terminators, as ECMAScript lists them.
unfoldable pub is_space : ℕ → Bool
is_space c =
    (leb 0x9 c && leb c 0xd)
    || (c == 0x20)
    || (c == 0xa0)
    || (c == 0x1680)
    || (leb 0x2000 c && leb c 0x200a)
    || (c == 0x2028)
    || (c == 0x2029)
    || (c == 0x202f)
    || (c == 0x205f)
    || (c == 0x3000)
    || (c == 0xfeff)

unfoldable pub trim_start : Text → Text
unfolding is_space
trim_start [] = []
trim_start (c ∷ s) = if is_space c then trim_start s else c ∷ s

unfoldable pub trim : Text → Text
unfolding trim_start
trim s = reverse (trim_start (reverse (trim_start s)))

-- `/[\x00-\x1f\x7f]/` and `/[\x00-\x1f\x7f-\x9f]/`
unfoldable pub has_c0_control : Text → Bool
has_c0_control s = any (λ c. leb c 0x1f || (c == 0x7f)) s

unfoldable pub has_control : Text → Bool
has_control s = any (λ c. leb c 0x1f || (leb 0x7f c && leb c 0x9f)) s
