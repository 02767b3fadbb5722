-- ===== src/Delivery/Responses/Safe.antt =====
-- src/delivery/asgi-core-profile.mjs: no response event carries a header that could end another.
use mathlib.Core.Path.{subst}
use metaframer_kernel.Base.{
  ◌≡◌, refl, sym, ap, ◌≤◌, arith, ℕ, ◌&&◌, ◌||◌, ◌⊎◌, ◌==◌, Bool, false, true, any, all, length, In,
  List, [], ◌∷◌, All, map, leb, pos, Outcome, ok, ◌>>=◌, ◌>>◌, OnOk, >>=-OnOk, OnOk_elim,
  type_error, require, require-OnOk, Bool-cases, inl, inr,
}
use metaframer_kernel.Text.{Text, codes, text_lt}
use metaframer_kernel.Canonical.{insert_key, sort_keys}
use metaframer_kernel.Canonical.Sorting.{Ascending, sort_keys-Ascending}
use metaframer_kernel.Js.{Value, number, integer, string, ref, Key, name, sym as symbol_key}
use metaframer_kernel.Delivery.Scope.{header_name_form, header_value_form, is_token_mark}
use metaframer_kernel.Text.Forms.{is_lower, is_digit}
use metaframer_kernel.Delivery.Responses.{
  DataHeap, get_value, has_response_keys, RouterResponse, ResponseEvent, response_start,
  response_body, response_status, header_text, response_headers, headers_value,
  check_router_response, insert_header, sort_headers, to_response_events,
}

and_first : (a b : Bool) → (a && b) ≡ true → a ≡ true
and_first true b h = refl
and_first false b h = h

and_second : (a b : Bool) → (a && b) ≡ true → b ≡ true
and_second true b h = h
and_second false b h = cc

-- A character of a lower-case token: a letter from a to z, a digit, or one of fifteen marks.
abbrev pub IsTokenChar : ℕ → Type 0
IsTokenChar c =
    ((b'a' ≤ c) × (c ≤ b'z')) ⊎ (((b'0' ≤ c) × (c ≤ b'9')) ⊎ In c (codes "!#$%&'*+-.^_`|~"))

abbrev pub IsToken : Text → Type 0
IsToken s = (1 ≤ length s) × All IsTokenChar s

-- Printable ASCII, from the space to the tilde: no carriage return, line feed or other control.
abbrev pub IsPrintable : Text → Type 0
IsPrintable s = All (λ c. (0x20 ≤ c) × (c ≤ 0x7e)) s

abbrev pub IsSafeHeader : Text × Text → Type 0
IsSafeHeader (n, v) = IsToken n × IsPrintable v

In-of_any : (c : ℕ) (ds : List ℕ) → any (λ d. d == c) ds ≡ true → In c ds
In-of_any c [] h = cc
In-of_any c (d ∷ ds) h = elim (Bool-cases (d == c)) [
  | inl e ↦ inl (ground (arith, e))
  | inr e ↦ inr (In-of_any c ds (cc (h, e)))
]

token_char : (c : ℕ) → (is_lower c || is_digit c || is_token_mark c) ≡ true → IsTokenChar c
unfolding is_lower is_digit
token_char c h = elim (Bool-cases (is_token_mark c)) [
  | inl mark ↦ inr (inr (In-of_any c (codes "!#$%&'*+-.^_`|~") mark))
  | inr plain ↦ letter_or_digit plain
]
  where
    letter_or_digit : is_token_mark c ≡ false → IsTokenChar c
    letter_or_digit plain = elim (Bool-cases (is_digit c)) [
      | inl e ↦ inr (inl (ground (arith, e), ground (arith, e)))
      | inr e ↦ inl (ground (arith, h, plain, e), ground (arith, h, plain, e))
    ]

token_chars :
    (s : Text) → all (λ c. is_lower c || is_digit c || is_token_mark c) s ≡ true → All IsTokenChar s
token_chars [] h = tt
token_chars (c ∷ s) h = (token_char c (and_first _ _ h), token_chars s (and_second _ _ h))

header_name_form-IsToken : (s : Text) → header_name_form s ≡ true → IsToken s
unfolding header_name_form
header_name_form-IsToken [] h = cc
header_name_form-IsToken (c ∷ s) h = (omega arith, token_chars (c ∷ s) h)

header_value_form-IsPrintable : (s : Text) → header_value_form s ≡ true → IsPrintable s
unfolding header_value_form
header_value_form-IsPrintable [] h = tt
header_value_form-IsPrintable (c ∷ s) h =
    ((ground (arith, h), ground (arith, h)), header_value_form-IsPrintable s (and_second _ _ h))

pub record IsSafe (events : List ResponseEvent) : Type 0 where
  pub status : ℕ
  pub headers : List (Text × Text)
  pub body : Value
  pub in_order : events ≡ response_start status headers ∷ response_body body ∷ []
  pub at_least : 100 ≤ status
  pub at_most : status ≤ 599
  pub safe : All IsSafeHeader headers
  pub ascending : Ascending (map (λ p. p.0) headers)

response_status-Bounded : (v : Value) → OnOk (λ n. (100 ≤ n) × (n ≤ 599)) (response_status v)
unfolding response_status
response_status-Bounded (number (integer (pos n))) =
    require-OnOk (λ n. (100 ≤ n) × (n ≤ 599)) (leb 100 n && leb n 599) type_error (ok n)
      λ e. (ground arith, ground arith)
response_status-Bounded _ = tt

header_text-OnOk : (v : Value) → OnOk IsPrintable (header_text v)
unfolding header_text
header_text-OnOk (string s) =
    require-OnOk IsPrintable (header_value_form s) type_error (ok s)
      (header_value_form-IsPrintable s)
header_text-OnOk _ = tt

response_headers-Safe : (ms : List (Key × Value)) → OnOk (All IsSafeHeader) (response_headers ms)
unfolding response_headers
response_headers-Safe [] = tt
response_headers-Safe ((symbol_key n, v) ∷ ms) = tt
response_headers-Safe ((name s, v) ∷ ms) =
    require-OnOk (All IsSafeHeader) (header_name_form s) type_error _ λ token.
      >>=-OnOk (All IsSafeHeader) (header_text v) _ λ t e.
        >>=-OnOk (All IsSafeHeader) (response_headers ms) _ λ rest f. (
          (header_name_form-IsToken s token, OnOk_elim IsPrintable _ (header_text-OnOk v) e),
          OnOk_elim (All IsSafeHeader) _ (response_headers-Safe ms) f,
        )

headers_value-Safe : (h : DataHeap) (v : Value) → OnOk (All IsSafeHeader) (headers_value h v)
unfolding headers_value
headers_value-Safe h (ref r) =
    require-OnOk (All IsSafeHeader) _ type_error _ λ _. response_headers-Safe (h r).members
headers_value-Safe h _ = tt

abbrev IsChecked : RouterResponse → Type 0
IsChecked c = (100 ≤ c.status) × (c.status ≤ 599) × All IsSafeHeader c.headers

check_router_response-IsChecked :
    (h : DataHeap) (v : Value) → OnOk IsChecked (check_router_response h v)
unfolding check_router_response
check_router_response-IsChecked h (ref r) =
    let ps : List (Key × Value) = (h r).members in
    let made : ℕ → List (Text × Text) → RouterResponse =
      λ n hs. record { status = n; headers = hs; body = get_value (codes "body") ps } in
    let given : Outcome (List (Text × Text)) = headers_value h (get_value (codes "headers") ps) in
    let rest : ℕ → Outcome RouterResponse = λ n. given >>= λ hs. ok (made n hs) in
    let status : Outcome ℕ = response_status (get_value (codes "status") ps) in
    require-OnOk IsChecked (h r).is_ordinary type_error
      (require (has_response_keys ps) type_error >> (status >>= rest))
      λ _. require-OnOk IsChecked (has_response_keys ps) type_error (status >>= rest) λ _.
        >>=-OnOk IsChecked status rest λ n e.
          >>=-OnOk IsChecked given (λ hs. ok (made n hs))
            λ hs f.
              let bounds : (100 ≤ n) × (n ≤ 599) =
                OnOk_elim (λ n. (100 ≤ n) × (n ≤ 599)) status
                  (response_status-Bounded (get_value (codes "status") ps)) e in
              (
                bounds.0,
                bounds.1,
                OnOk_elim (All IsSafeHeader) given
                    (headers_value-Safe h (get_value (codes "headers") ps)) f,
              )
check_router_response-IsChecked h _ = tt

insert_header-All :
    (p : Text × Text) (qs : List (Text × Text))
    → IsSafeHeader p
    → All IsSafeHeader qs
    → All IsSafeHeader (insert_header p qs)
unfolding insert_header
insert_header-All p [] s h = (s, tt)
insert_header-All p (q ∷ qs) s h = elim (Bool-cases (text_lt q.0 p.0)) [
  | inl less ↦ rw less (h.0, insert_header-All p qs s h.1)
  | inr more ↦ rw more (s, h)
]

sort_headers-All :
    (ps : List (Text × Text)) → All IsSafeHeader ps → All IsSafeHeader (sort_headers ps)
unfolding sort_headers
sort_headers-All [] h = tt
sort_headers-All (p ∷ ps) h = insert_header-All p (sort_headers ps) h.0 (sort_headers-All ps h.1)

insert_header-names :
    (p : Text × Text) (qs : List (Text × Text))
    → map (λ p. p.0) (insert_header p qs) ≡ insert_key p.0 (map (λ p. p.0) qs)
unfolding insert_header insert_key
insert_header-names p [] = refl
insert_header-names p (q ∷ qs) = elim (Bool-cases (text_lt q.0 p.0)) [
  | inl less ↦ rw less (ap (λ ks. q.0 ∷ ks) (insert_header-names p qs))
  | inr more ↦ rw more refl
]

sort_headers-names :
    (ps : List (Text × Text)) → map (λ p. p.0) (sort_headers ps) ≡ sort_keys (map (λ p. p.0) ps)
unfolding sort_headers sort_keys
sort_headers-names [] = refl
sort_headers-names (p ∷ ps) =
    rw (insert_header-names p (sort_headers ps), sort_headers-names ps) refl

module _ (lower_case : Text → Text)
    (lower_case_token : (s : Text) → IsToken s → lower_case s ≡ s) where
  lowered-All :
      (ps : List (Text × Text))
      → All IsSafeHeader ps
      → All IsSafeHeader (map (λ p. (lower_case p.0, p.1)) ps)
  lowered-All [] h = tt
  lowered-All (p ∷ ps) h = ((rw (lower_case_token p.0 (h.0.0)) (h.0.0), h.0.1), lowered-All ps h.1)

  -- Where lower case leaves a lower-case token as it is, the events that are made of a response
  -- whose properties are all data, if it is not refused, are one start and one body; its status is
  -- at least 100 and at most 599, every header has a lower-case token for its name and printable
  -- ASCII for its value, so that none can end its line, and the names ascend.
  pub to_response_events-IsSafe :
      (h : DataHeap) (response : Value) → OnOk IsSafe (to_response_events lower_case h response)
  unfolding to_response_events
  to_response_events-IsSafe h response = >>=-OnOk IsSafe (check_router_response h response) _ λ c e.
      let (low, high, safe) =
        OnOk_elim IsChecked _ (check_router_response-IsChecked h response) e in
      let named : List (Text × Text) = map (λ p. (lower_case p.0, p.1)) c.headers in
      record {
        status = c.status;
        headers = sort_headers named;
        body = c.body;
        in_order = refl;
        at_least = low;
        at_most = high;
        safe = sort_headers-All named (lowered-All c.headers safe);
        ascending =
            subst Ascending (sym (sort_headers-names named))
              (sort_keys-Ascending (map (λ p. p.0) named));
      }
