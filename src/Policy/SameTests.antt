-- ===== src/Policy/SameTests.antt =====
-- pkg/directive/validate.go, internal/core/directive/assemble.go and internal/core/proxy/response_rewrite.go:
-- the tests of headers that two packages have.
use directive_proxy.Prelude.{
  ◌==◌, ◌≡◌, refl, ap, Bool, false, not, ◌&&◌, ◌||◌, List, [], ◌∷◌, leb, if◌then◌else◌, Text,
  is_empty, arith,
}
use directive_proxy.Headers.{is_token, all_tokens}
use directive_proxy.Policy.{
  valid_header_name, valid_header_value, all_values, all_token_chars, is_valid_header_name,
  is_valid_header_value, all_valid_values,
}

if_and : (a b c : Bool) → b ≡ c → (if not a then false else b) ≡ (a && c)
if_and a b c h = ground arith

if_not_and : (a b c : Bool) → b ≡ c → (if a then false else b) ≡ (not a && c)
if_not_and a b c h = ground arith

-- The tests of the two packages are the same.
all_token_chars_lem : (t : Text) → all_token_chars t ≡ all_tokens t
unfolding all_token_chars all_tokens
all_token_chars_lem [] = refl
all_token_chars_lem (c ∷ t) =
    if_and (is_token c) (all_token_chars t) (all_tokens t) (all_token_chars_lem t)

pub is_valid_header_name_lem : (t : Text) → is_valid_header_name t ≡ valid_header_name t
unfolding is_valid_header_name valid_header_name
is_valid_header_name_lem t =
    if_not_and (is_empty t) (all_token_chars t) (all_tokens t) (all_token_chars_lem t)

pub is_valid_header_value_lem : (t : Text) → is_valid_header_value t ≡ valid_header_value t
unfolding is_valid_header_value valid_header_value
is_valid_header_value_lem [] = refl
is_valid_header_value_lem (c ∷ t) =
    ap (λ b. if c == b'\t' || (leb 0x20 c && not (c == 0x7f)) then b else false)
      (is_valid_header_value_lem t)

pub all_valid_values_lem : (vs : List Text) → all_valid_values vs ≡ all_values vs
unfolding all_valid_values all_values
all_valid_values_lem [] = refl
all_valid_values_lem (v ∷ vs) =
    rw (is_valid_header_value_lem v) (
      if_and (valid_header_value v) (all_valid_values vs) (all_values vs) (all_valid_values_lem vs))
