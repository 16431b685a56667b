-- ===== src/Policy.antt =====
-- pkg/directive/validate.go, internal/core/directive/assemble.go and
-- internal/core/proxy/response_rewrite.go: the header policy of a directive, from what is written to the
-- operations on headers. Whether path.Match takes a glob (well_formed) is an argument.
pub mod Spaces
mod SameTests
mod Accepted
pub mod Compiled
mod Tests
use directive_proxy.Prelude.{
  ℕ, ◌==◌, Bool, true, false, not, ◌&&◌, ◌||◌, Option, none, some, List, [], ◌∷◌, ltb, leb, length,
  if◌then◌else◌, Text, text_eq, trim_space, is_empty, codes,
}
use directive_proxy.Headers.{
  is_token, Action, action_add, action_set, action_del, other_action, Selector, selector_exact,
  selector_glob, other_selector, SelectorKind, Op, to_lower, equal_fold, has_prefix, all_tokens,
  is_system_header,
}

pub data Side : Type 0 where
  side_request side_response other_side : Side

pub record Mutation : Type 0 where
  pub side : Side
  pub mutation_action : Action
  pub mutation_name : Text
  pub glob : Text
  pub mutation_values : List Text

unfoldable pub valid_header_name : Text → Bool
unfolding all_tokens
valid_header_name t = not (is_empty t) && all_tokens t

-- On the code points: each byte of one from 0x80 on is valid.
unfoldable pub valid_header_value : Text → Bool
valid_header_value [] = true
valid_header_value (c ∷ cs) =
    if c == b'\t' || (leb 0x20 c && not (c == 0x7f)) then valid_header_value cs else false

unfoldable pub all_values : List Text → Bool
unfolding valid_header_value
all_values [] = true
all_values (v ∷ vs) = valid_header_value v && all_values vs

unfoldable pub one_of : Text → List Text → Bool
unfolding text_eq
one_of t [] = false
one_of t (n ∷ ns) = text_eq t n || one_of t ns

unfoldable pub protected_names : List Text
protected_names =
    codes "connection"
    ∷ codes "content-length"
    ∷ codes "date"
    ∷ codes "host"
    ∷ codes "keep-alive"
    ∷ codes "proxy-authenticate"
    ∷ codes "proxy-authorization"
    ∷ codes "proxy-connection"
    ∷ codes "te"
    ∷ codes "trailer"
    ∷ codes "transfer-encoding"
    ∷ codes "upgrade"
    ∷ []

unfoldable pub protected_response_header : Text → Bool
unfolding to_lower trim_space has_prefix one_of
protected_response_header value =
    let v = to_lower (trim_space value) in
    if has_prefix v (codes "x-dp-") then true else one_of v protected_names

-- The switch on the action, with the lengths that it allows.
unfoldable pub valid_count : Action → ℕ → Bool
valid_count action_add n = not (n == 0)
valid_count action_set n = n == 1
valid_count action_del n = n == 0
valid_count other_action n = false

abbrev pub is_add : Action → Bool
is_add action_add = true
is_add action_set = false
is_add action_del = false
is_add other_action = false

abbrev pub is_request : Side → Bool
is_request side_request = true
is_request side_response = false
is_request other_side = false

abbrev pub is_response : Side → Bool
is_response side_request = false
is_response side_response = true
is_response other_side = false

-- (a == b) of two Booleans.
abbrev pub same : Bool → Bool → Bool
same a b = if a then b else not b

abbrev pub cons : {A : Type 0} → Option A → Option (List A) → Option (List A)
cons none xs = none
cons (some x) none = none
cons (some x) (some xs) = some (x ∷ xs)

-- splitHeaderMutations.
unfoldable pub split_header_mutations :
    (allow_response : Bool) → List Mutation → Option (List Mutation × List Mutation)
split_header_mutations allow_response [] = some ([], [])
split_header_mutations allow_response (m ∷ ms) = elim (split_header_mutations allow_response ms) [
  | none ↦ none
  | some (requests, responses) ↦
      if is_request m.side
      then some (m ∷ requests, responses)
      else if is_response m.side && allow_response
      then some (requests, m ∷ responses)
      else none
]

-- The tests of parseRequestHeaderMutations and of parseResponseHeaderMutations.
abbrev pub is_exact : SelectorKind → Bool
is_exact selector_exact = true
is_exact selector_glob = false
is_exact other_selector = false

unfoldable pub allowed_request : Op → Bool
unfolding equal_fold is_system_header
allowed_request op =
    if is_exact op.selector.kind
      && equal_fold op.selector.pattern_text (codes "Host")
      && (is_add op.action || ltb 1 (length op.op_values))
    then false
    else if is_exact op.selector.kind && is_system_header op.selector.pattern_text
    then false
    else true

unfoldable pub protected_response_headers : List Text
protected_response_headers =
    codes "connection"
    ∷ codes "content-length"
    ∷ codes "date"
    ∷ codes "host"
    ∷ codes "keep-alive"
    ∷ codes "proxy-authenticate"
    ∷ codes "proxy-authorization"
    ∷ codes "proxy-connection"
    ∷ codes "te"
    ∷ codes "trailer"
    ∷ codes "transfer-encoding"
    ∷ codes "upgrade"
    ∷ []

-- IsResponseHeaderProtected.
unfoldable pub is_response_header_protected : Text → Bool
unfolding to_lower trim_space is_system_header one_of
is_response_header_protected name =
    let n = to_lower (trim_space name) in
    if is_system_header n then true else one_of n protected_response_headers

unfoldable pub allowed_response : Op → Bool
unfolding is_response_header_protected
allowed_response op =
    if is_exact op.selector.kind && is_response_header_protected op.selector.pattern_text
    then false
    else true

unfoldable pub allowed_all : (Op → Bool) → List Op → Bool
allowed_all allowed [] = true
allowed_all allowed (op ∷ ops) = if allowed op then allowed_all allowed ops else false

abbrev pub check : (Op → Bool) → Option (List Op) → Option (List Op)
check allowed none = none
check allowed (some ops) = if allowed_all allowed ops then some ops else none

abbrev pub pair_up : Option (List Op) → Option (List Op) → Option (List Op × List Op)
pair_up none ps = none
pair_up (some qs) none = none
pair_up (some qs) (some ps) = some (qs, ps)

-- The same tests, as internal/core/directive has them.
unfoldable pub all_token_chars : Text → Bool
unfolding is_token
all_token_chars [] = true
all_token_chars (c ∷ cs) = if not (is_token c) then false else all_token_chars cs

unfoldable pub is_valid_header_name : Text → Bool
unfolding all_token_chars
is_valid_header_name t = if is_empty t then false else all_token_chars t

unfoldable pub is_valid_header_value : Text → Bool
is_valid_header_value [] = true
is_valid_header_value (c ∷ cs) =
    if c == b'\t' || (leb 0x20 c && not (c == 0x7f)) then is_valid_header_value cs else false

unfoldable pub all_valid_values : List Text → Bool
unfolding is_valid_header_value
all_valid_values [] = true
all_valid_values (v ∷ vs) = if not (is_valid_header_value v) then false else all_valid_values vs

-- The second switch of parseHeaderMutations.
unfoldable pub valid_op_values : Action → List Text → Bool
unfolding all_valid_values
valid_op_values action_add vs = not (length vs == 0) && all_valid_values vs
valid_op_values action_set [] = false
valid_op_values action_set (v ∷ []) = is_valid_header_value v
valid_op_values action_set (v ∷ w ∷ vs) = false
valid_op_values action_del vs = length vs == 0
valid_op_values other_action vs = false

module _ (well_formed : Text → Bool) where
  -- One turn of the loop of normalizeHeaderPolicy.
  unfoldable pub normalize_mutation : (allow_response : Bool) → Mutation → Option Mutation
  unfolding trim_space to_lower has_prefix equal_fold valid_header_name all_values valid_count
      protected_response_header
  normalize_mutation allow_response m =
      let name = trim_space m.mutation_name in
      let glob = trim_space m.glob in
      if not (is_request m.side) && (not (is_response m.side) || not allow_response)
      then none
      else if same (is_empty name) (is_empty glob)
      then none
      else if not (is_empty name) && not (valid_header_name name)
      then none
      else if not (is_empty glob) && not (well_formed (to_lower glob))
      then none
      else if not (valid_count m.mutation_action (length m.mutation_values))
      then none
      else if not (all_values m.mutation_values)
      then none
      else if not (is_empty name) && has_prefix (to_lower name) (codes "x-dp-")
      then none
      else if is_request m.side
          && not (is_empty name)
          && equal_fold name (codes "Host")
          && (is_add m.mutation_action || ltb 1 (length m.mutation_values))
      then none
      else if is_response m.side && not (is_empty name) && protected_response_header name
      then none
      else some (record m { mutation_name = name; glob = glob })

  unfoldable pub normalize_mutations :
      (allow_response : Bool) → List Mutation → Option (List Mutation)
  unfolding normalize_mutation
  normalize_mutations allow_response [] = some []
  normalize_mutations allow_response (m ∷ ms) =
      cons (normalize_mutation allow_response m) (normalize_mutations allow_response ms)

  -- One turn of the loop of parseHeaderMutations.
  unfoldable pub parse_mutation : Mutation → Option Op
  unfolding trim_space to_lower is_valid_header_name valid_op_values
  parse_mutation m =
      let name = trim_space m.mutation_name in
      let glob = trim_space m.glob in
      if same (is_empty name) (is_empty glob)
      then none
      else if not (is_empty glob) && not (well_formed (to_lower glob))
      then none
      else if is_empty glob && not (is_valid_header_name name)
      then none
      else if not (valid_op_values m.mutation_action m.mutation_values)
      then none
      else some (record {
        action = m.mutation_action;
        selector =
            if is_empty glob
            then record { kind = selector_exact; pattern_text = name }
            else record { kind = selector_glob; pattern_text = glob };
        op_values = m.mutation_values;
      })

  unfoldable pub parse_mutations : List Mutation → Option (List Op)
  unfolding parse_mutation
  parse_mutations [] = some []
  parse_mutations (m ∷ ms) = cons (parse_mutation m) (parse_mutations ms)

  unfoldable pub parse_policy : List Mutation × List Mutation → Option (List Op × List Op)
  parse_policy (requests, responses) =
      pair_up (check allowed_request (parse_mutations requests))
        (check allowed_response (parse_mutations responses))

  -- The headers of CompilePayload, after NormalizePayload.
  unfoldable pub compile_policy : List Mutation → Option (List Op × List Op)
  compile_policy ms = elim (split_header_mutations true ms) [
    | none ↦ none
    | some sides ↦ parse_policy sides
  ]
