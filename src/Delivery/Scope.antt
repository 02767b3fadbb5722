-- ===== src/Delivery/Scope.antt =====
-- src/delivery/asgi-core-profile.mjs: the scopes that are admitted before any event is received.
use metaframer_kernel.Base.{ℕ, Bool, true, false, ◌&&◌, ◌||◌, [], ◌∷◌, any, all, leb, ◌==◌}
use metaframer_kernel.Text.{Text, codes, text_eq}
use metaframer_kernel.Text.Forms.{is_digit, is_upper, is_lower}
use metaframer_kernel.Js.{Value, string, ref, Heap, read}
use metaframer_kernel.Js.Shape.{is_ordinary_object, is_array}

-- [!#$%&'*+\-.^_`|~]
abbrev pub is_token_mark : ℕ → Bool
is_token_mark c = any (λ d. d == c) (codes "!#$%&'*+-.^_`|~")

abbrev pub non_empty : Text → Bool
non_empty [] = false
non_empty (_ ∷ _) = true

-- `HTTP_TOKEN_PATTERN`, `HEADER_NAME_TOKEN_PATTERN` and `HEADER_VALUE_PATTERN`
unfoldable pub http_token_form : Text → Bool
http_token_form s = non_empty s && all (λ c. is_upper c || is_digit c || is_token_mark c) s

unfoldable pub header_name_form : Text → Bool
header_name_form s = non_empty s && all (λ c. is_lower c || is_digit c || is_token_mark c) s

unfoldable pub header_value_form : Text → Bool
header_value_form s = all (λ c. leb 0x20 c && leb c 0x7e) s

unfoldable pub is_valid_http_method : Value → Bool
unfolding http_token_form
is_valid_http_method (string s) = http_token_form s
is_valid_http_method _ = false

-- `scope.path.length > 0 && scope.path.startsWith("/")`
unfoldable pub is_rooted : Value → Bool
is_rooted (string (c ∷ s)) = c == b'/'
is_rooted _ = false

unfoldable pub is_http : Value → Bool
is_http (string s) = text_eq s (codes "http")
is_http _ = false

unfoldable pub is_array_value : Heap → Value → Bool
is_array_value h (ref r) = is_array (h r)
is_array_value h _ = false

unfoldable pub is_valid_scope : Heap → Value → Bool
unfolding is_valid_http_method is_rooted is_http is_array_value
is_valid_scope h (ref r) =
    is_ordinary_object h (ref r)
    && is_http (read (codes "type") (h r).props)
    && is_valid_http_method (read (codes "method") (h r).props)
    && is_rooted (read (codes "path") (h r).props)
    && is_array_value h (read (codes "headers") (h r).props)
is_valid_scope h _ = false
