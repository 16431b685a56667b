-- ===== src/Policy/Compiled.antt =====
-- pkg/directive/validate.go and internal/core/directive/assemble.go: what is compiled of a header policy
-- that was accepted.
use directive_proxy.Prelude.{
  All, ◌≡◌, refl, subst, Bool, true, false, Bool-cases, not, ◌&&◌, ◌||◌, Option, none, some, List,
  [], ◌∷◌, if◌then◌else◌, Text, arith, inl, inr,
}
use mathlib.Core.Option.{some-injective}
use directive_proxy.Headers.{Op}
use directive_proxy.Policy.{
  Side, side_request, side_response, other_side, Mutation, is_request, is_response, cons,
  split_header_mutations, allowed_request, allowed_response, allowed_all, check, normalize_mutation,
  normalize_mutations, parse_mutations, pair_up, parse_policy, compile_policy,
}
use directive_proxy.Policy.Accepted.{
  meant, Accepted, normalize_mutation-Accepted, parse_mutation_lem, allowed_request_lem,
  allowed_response_lem,
}

unfoldable pub meant_of : (Side → Bool) → List Mutation → List Op
meant_of is_side [] = []
meant_of is_side (m ∷ ms) =
    if is_side m.side then meant m ∷ meant_of is_side ms else meant_of is_side ms

split_side :
    (side : Side) (m : Mutation) (requests responses : List Mutation)
    → (not (is_request side) && (not (is_response side) || not true)) ≡ false
    → (if◌then◌else◌ {A = Option (List Mutation × List Mutation)}
        (is_request side)
        (some (m ∷ requests, responses))
        (if is_response side && true then some (requests, m ∷ responses) else none))
      ≡ some (
        (if is_request side then m ∷ requests else requests),
        (if is_response side then m ∷ responses else responses),
      )
split_side side_request m requests responses h = refl
split_side side_response m requests responses h = refl
split_side other_side m requests responses h = ground arith

checked :
    (allowed : Op → Bool) {x : Option (List Op)} {ops : List Op}
    → x ≡ some ops
    → allowed_all allowed ops ≡ true
    → check allowed x ≡ some ops
checked allowed e h = rw (e, h) refl

paired :
    (x y : Option (List Op)) {qs ps : List Op}
    → x ≡ some qs
    → y ≡ some ps
    → pair_up x y ≡ some (qs, ps)
paired x y e f = rw (e, f) refl

unfoldable only : (Side → Bool) → List Mutation → List Mutation
only is_side [] = []
only is_side (m ∷ ms) = if is_side m.side then m ∷ only is_side ms else only is_side ms

module _ (well_formed : Text → Bool) where
  cons-Accepted :
      (x : Option Mutation) (xs : Option (List Mutation)) (ns : List Mutation)
      → ((n : Mutation) → x ≡ some n → Accepted well_formed n)
      → ((ns : List Mutation) → xs ≡ some ns → All (Accepted well_formed) ns)
      → cons x xs ≡ some ns
      → All (Accepted well_formed) ns
  cons-Accepted none xs ns f g h = ground arith
  cons-Accepted (some n) none ns f g h = ground arith
  cons-Accepted (some n) (some xs) ns f g h =
      subst (All (Accepted well_formed)) (some-injective (n ∷ xs) ns h) (f n refl, g xs refl)

  All-Accepted :
      (ms ns : List Mutation)
      → normalize_mutations well_formed true ms ≡ some ns
      → All (Accepted well_formed) ns
  unfolding normalize_mutations
  All-Accepted [] ns h = subst (All (Accepted well_formed)) (some-injective [] ns h) tt
  All-Accepted (m ∷ ms) ns h =
      cons-Accepted (normalize_mutation well_formed true m)
        (normalize_mutations well_formed true ms) ns (normalize_mutation-Accepted well_formed m)
        (All-Accepted ms) h

  split_header_mutations_lem :
      (ns : List Mutation)
      → All (Accepted well_formed) ns
      → split_header_mutations true ns ≡ some (only is_request ns, only is_response ns)
  unfolding split_header_mutations only
  split_header_mutations_lem [] a = refl
  split_header_mutations_lem (n ∷ ns) (a, rest) =
      rw (split_header_mutations_lem ns rest)
        (split_side n.side n (only is_request ns) (only is_response ns) a.0)

  parse_mutations_lem :
      (is_side : Side → Bool) (ns : List Mutation)
      → All (Accepted well_formed) ns
      → parse_mutations well_formed (only is_side ns) ≡ some (meant_of is_side ns)
  unfolding parse_mutations only meant_of
  parse_mutations_lem is_side [] a = refl
  parse_mutations_lem is_side (n ∷ ns) (a, rest) = elim (Bool-cases (is_side n.side)) [
    | inl h ↦ rw (h, parse_mutation_lem well_formed n a, parse_mutations_lem is_side ns rest) refl
    | inr h ↦ rw h (parse_mutations_lem is_side ns rest)
  ]

  allowed_all_lem :
      (is_side : Side → Bool) (allowed : Op → Bool)
      → ((n : Mutation) → Accepted well_formed n → is_side n.side ≡ true → allowed (meant n) ≡ true)
      → (ns : List Mutation) → All (Accepted well_formed) ns
      → allowed_all allowed (meant_of is_side ns) ≡ true
  unfolding allowed_all meant_of
  allowed_all_lem is_side allowed f [] a = refl
  allowed_all_lem is_side allowed f (n ∷ ns) (a, rest) = elim (Bool-cases (is_side n.side)) [
    | inl h ↦ rw (h, f n a h) (allowed_all_lem is_side allowed f ns rest)
    | inr h ↦ rw h (allowed_all_lem is_side allowed f ns rest)
  ]

  parse_policy_lem :
      (ns : List Mutation)
      → All (Accepted well_formed) ns
      → parse_policy well_formed (only is_request ns, only is_response ns)
        ≡ some (meant_of is_request ns, meant_of is_response ns)
  unfolding parse_policy
  parse_policy_lem ns rest =
      paired (check allowed_request (parse_mutations well_formed (only is_request ns)))
        (check allowed_response (parse_mutations well_formed (only is_response ns)))
        (checked allowed_request (parse_mutations_lem is_request ns rest)
          (allowed_all_lem is_request allowed_request (allowed_request_lem well_formed) ns rest))
        (checked allowed_response (parse_mutations_lem is_response ns rest)
          (allowed_all_lem is_response allowed_response (allowed_response_lem well_formed) ns rest))

  -- Headers that NormalizePayload has accepted compile: CompilePayload never rejects them, and the
  -- plan has exactly the operations that the mutations mean, those of the request and those of the
  -- response each in their order.
  pub compile_policy-normalize_mutations :
      (ms ns : List Mutation)
      → normalize_mutations well_formed true ms ≡ some ns
      → compile_policy well_formed ns ≡ some (meant_of is_request ns, meant_of is_response ns)
  unfolding compile_policy
  compile_policy-normalize_mutations ms ns h =
      let rest = All-Accepted ms ns h in
      rw (compile_policy, split_header_mutations_lem ns rest) (parse_policy_lem ns rest)
