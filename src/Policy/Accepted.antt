-- ===== src/Policy/Accepted.antt =====
-- pkg/directive/validate.go and internal/core/directive/assemble.go: one mutation of a header that was
-- accepted, and its operation.
use directive_proxy.Prelude.{
  ◌≡◌, refl, ◌∙◌, subst, Bool, true, false, Bool-cases, not, ◌&&◌, ◌||◌, Option, none, some, List,
  [], ◌∷◌, ltb, length, if◌then◌else◌, Text, trim_space, is_empty, codes, arith, inl, inr,
}
use mathlib.Core.Option.{some-injective}
use directive_proxy.Headers.{
  Action, action_add, action_set, action_del, other_action, selector_exact, selector_glob, Op,
  to_lower, equal_fold, has_prefix, all_tokens, is_system_header,
}
use directive_proxy.Policy.{
  Mutation, valid_header_name, all_values, valid_count, protected_response_header, is_add,
  is_request, is_response, same, allowed_request, allowed_response, is_response_header_protected,
  valid_op_values, normalize_mutation, parse_mutation,
}
use directive_proxy.Policy.{protected_names, protected_response_headers}
use directive_proxy.Policy.SameTests.{
  is_valid_header_name_lem, is_valid_header_value_lem, all_valid_values_lem,
}
use directive_proxy.Policy.Spaces.{
  trim_space-twice, no_space, trim_space-no_space, no_space-all_tokens, no_space-to_lower,
  to_lower-twice,
}

-- The operation that a mutation means.
abbrev pub meant : Mutation → Op
meant m = record {
  action = m.mutation_action;
  selector =
      if is_empty m.glob
      then record { kind = selector_exact; pattern_text = m.mutation_name }
      else record { kind = selector_glob; pattern_text = m.glob };
  op_values = m.mutation_values;
}

valid_op_values_lem :
    (a : Action) (vs : List Text)
    → valid_count a (length vs) ≡ true
    → all_values vs ≡ true
    → valid_op_values a vs ≡ true
unfolding valid_count all_values valid_op_values
valid_op_values_lem action_add vs h v = ground (arith, all_valid_values_lem vs)
valid_op_values_lem action_set [] h v = ground arith
valid_op_values_lem action_set (x ∷ []) h v = ground (arith, is_valid_header_value_lem x)
valid_op_values_lem action_set (x ∷ y ∷ vs) h v = ground arith
valid_op_values_lem action_del vs h v = h
valid_op_values_lem other_action vs h v = ground arith

-- A name without spaces is protected for the tools when it is for the server.
protected_lem :
    (n : Text) → no_space n ≡ true → is_response_header_protected n ≡ protected_response_header n
unfolding is_response_header_protected protected_response_header is_system_header protected_names
    protected_response_headers
protected_lem n h =
    rw
      (
        trim_space-no_space n h,
        trim_space-no_space (to_lower n) (no_space-to_lower n ∙ h),
        to_lower-twice n,
      )
      refl

system_lem :
    (n : Text) → no_space n ≡ true → is_system_header n ≡ has_prefix (to_lower n) (codes "x-dp-")
unfolding is_system_header
system_lem n h = rw (trim_space-no_space n h) refl

passed :
    (b : Bool) (x : Option Mutation) (n : Mutation)
    → (if b then none else x) ≡ some n
    → (b ≡ false) × (x ≡ some n)
passed b x n h = ground arith

holds : (b : Bool) → not b ≡ false → b ≡ true
holds b h = ground arith

-- The tests, without what they test: either the name is empty (e) or the glob (g).
name_tested : (e g v : Bool) → same e g ≡ false → (not e && not v) ≡ false → (g && not v) ≡ false
name_tested e g v s h = ground arith

tokens_tested :
    (e g t : Bool) → same e g ≡ false → (not e && not (not e && t)) ≡ false → g ≡ true → t ≡ true
tokens_tested e g t s h hg = ground arith

request_tested :
    (e g r host more system : Bool)
    → same e g ≡ false
    → g ≡ true
    → r ≡ true
    → (not e && system) ≡ false
    → (r && not e && host && more) ≡ false
    → (if host && more then false else if system then false else true) ≡ true
request_tested e g r host more system s hg hr hs hh = ground arith

response_tested :
    (e g r guarded : Bool)
    → same e g ≡ false
    → g ≡ true
    → r ≡ true
    → (r && not e && guarded) ≡ false
    → (if guarded then false else true) ≡ true
response_tested e g r guarded s hg hr h = ground arith

sided : (r p : Bool) → r ≡ false → (not r && (not p || not true)) ≡ false → (p && true) ≡ true
sided r p hr h = ground arith

module _ (well_formed : Text → Bool) where
  -- What the tests leave of a mutation.
  abbrev pub Accepted : Mutation → Type 0
  Accepted n =
      ((not (is_request n.side) && (not (is_response n.side) || not true)) ≡ false)
      × (same (is_empty n.mutation_name) (is_empty n.glob) ≡ false)
      × ((not (is_empty n.mutation_name) && not (valid_header_name n.mutation_name)) ≡ false)
      × ((not (is_empty n.glob) && not (well_formed (to_lower n.glob))) ≡ false)
      × (not (valid_count n.mutation_action (length n.mutation_values)) ≡ false)
      × (not (all_values n.mutation_values) ≡ false)
      × ((not (is_empty n.mutation_name) && has_prefix (to_lower n.mutation_name) (codes "x-dp-"))
          ≡ false)
      × ((is_request n.side
            && not (is_empty n.mutation_name)
            && equal_fold n.mutation_name (codes "Host")
            && (is_add n.mutation_action || ltb 1 (length n.mutation_values)))
          ≡ false)
      × ((is_response n.side
            && not (is_empty n.mutation_name)
            && protected_response_header n.mutation_name)
          ≡ false)
      × (trim_space n.mutation_name ≡ n.mutation_name)
      × (trim_space n.glob ≡ n.glob)

  trimmed : Mutation → Mutation
  trimmed m = record m { mutation_name = trim_space m.mutation_name; glob = trim_space m.glob }

  pub normalize_mutation-Accepted :
      (m n : Mutation) → normalize_mutation well_formed true m ≡ some n → Accepted n
  unfolding normalize_mutation trimmed
  normalize_mutation-Accepted m n h =
      let (a1, h1) = passed _ _ n h in
      let (a2, h2) = passed _ _ n h1 in
      let (a3, h3) = passed _ _ n h2 in
      let (a4, h4) = passed _ _ n h3 in
      let (a5, h5) = passed _ _ n h4 in
      let (a6, h6) = passed _ _ n h5 in
      let (a7, h7) = passed _ _ n h6 in
      let (a8, h8) = passed _ _ n h7 in
      let (a9, h9) = passed _ _ n h8 in
      subst Accepted (some-injective (trimmed m) n h9) (
        a1,
        a2,
        a3,
        a4,
        a5,
        a6,
        a7,
        a8,
        a9,
        trim_space-twice m.mutation_name,
        trim_space-twice m.glob,
      )

  pub parse_mutation_lem :
      (n : Mutation) → Accepted n → parse_mutation well_formed n ≡ some (meant n)
  unfolding parse_mutation
  parse_mutation_lem n (a1, a2, a3, a4, a5, a6, a7, a8, a9, tn, tg) =
      let name : (is_empty n.glob && not (valid_header_name n.mutation_name)) ≡ false =
        name_tested (is_empty n.mutation_name) (is_empty n.glob) _ a2 a3 in
      let values : valid_op_values n.mutation_action n.mutation_values ≡ true =
        valid_op_values_lem n.mutation_action n.mutation_values (holds _ a5) (holds _ a6) in
      rw (tn, tg, is_valid_header_name_lem n.mutation_name, a2, a4, name, values) refl

  -- The name of an operation on one header has no space.
  exact_no_space :
      (n : Mutation) → Accepted n → is_empty n.glob ≡ true → no_space n.mutation_name ≡ true
  unfolding valid_header_name
  exact_no_space n a e = no_space-all_tokens n.mutation_name (
      tokens_tested (is_empty n.mutation_name) (is_empty n.glob) (all_tokens n.mutation_name) a.1
        a.2 e)

  pub allowed_request_lem :
      (n : Mutation) → Accepted n → is_request n.side ≡ true → allowed_request (meant n) ≡ true
  unfolding allowed_request
  allowed_request_lem n a r = elim (Bool-cases (is_empty n.glob)) [
    | inl e ↦
        rw (e, system_lem n.mutation_name (exact_no_space n a e))
          (request_tested (is_empty n.mutation_name) (is_empty n.glob) (is_request n.side)
            (equal_fold n.mutation_name (codes "Host"))
            (is_add n.mutation_action || ltb 1 (length n.mutation_values))
            (has_prefix (to_lower n.mutation_name) (codes "x-dp-")) a.1 e r a.6 a.7)
    | inr e ↦ rw e refl
  ]

  pub allowed_response_lem :
      (n : Mutation) → Accepted n → is_response n.side ≡ true → allowed_response (meant n) ≡ true
  unfolding allowed_response
  allowed_response_lem n a r = elim (Bool-cases (is_empty n.glob)) [
    | inl e ↦
        rw (e, protected_lem n.mutation_name (exact_no_space n a e))
          (response_tested (is_empty n.mutation_name) (is_empty n.glob) (is_response n.side)
            (protected_response_header n.mutation_name) a.1 e r a.8)
    | inr e ↦ rw e refl
  ]
