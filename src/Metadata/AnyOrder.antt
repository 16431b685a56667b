-- ===== src/Metadata/AnyOrder.antt =====
-- internal/core/metadata/metadata.go: Go reads a map in any order, and Compile gives the same in all.
use directive_proxy.Prelude.{
  suc, ◌+◌, ◌≡◌, ap, refl, sym, ◌∙◌, ◌&&◌, ◌||◌, Option, none, some, List, [], ◌∷◌, length, arith,
  Bool-cases, inl, inr,
}
use directive_proxy.Metadata.{Text, Entry, text_eq, get, compile, bytes, valid_key, valid_value}
use directive_proxy.Metadata.Accepts.{
  all_valid, weight, acceptable, has_key, Distinct, text_eq_iff, compile_lem, get-build_nil,
}

-- The same entries in another order.
pub data Reordered : List Entry → List Entry → Type 0 where
  done : Reordered [] []
  skip : (e : Entry) {xs ys : List Entry} → Reordered xs ys → Reordered (e ∷ xs) (e ∷ ys)
  swap : (e f : Entry) (xs : List Entry) → Reordered (e ∷ f ∷ xs) (f ∷ e ∷ xs)
  trans : {xs ys zs : List Entry} → Reordered xs ys → Reordered ys zs → Reordered xs zs

length-Reordered : {xs ys : List Entry} → Reordered xs ys → length xs ≡ length ys
length-Reordered done = refl
length-Reordered (skip e r) = ap (λ n. suc n) (length-Reordered r)
length-Reordered (swap e f xs) = refl
length-Reordered (trans r t) = length-Reordered r ∙ length-Reordered t

weight-Reordered : {xs ys : List Entry} → Reordered xs ys → weight xs ≡ weight ys
unfolding weight
weight-Reordered done = refl
weight-Reordered (skip (k, v) r) = ap (λ n. bytes k + bytes v + n) (weight-Reordered r)
weight-Reordered (swap (k, v) (j, w) xs) = omega arith
weight-Reordered (trans r t) = weight-Reordered r ∙ weight-Reordered t

all_valid-Reordered : {xs ys : List Entry} → Reordered xs ys → all_valid xs ≡ all_valid ys
unfolding all_valid
all_valid-Reordered done = refl
all_valid-Reordered (skip (k, v) r) =
    ap (λ b. valid_key k && valid_value v && b) (all_valid-Reordered r)
all_valid-Reordered (swap (k, v) (j, w) xs) = ground arith
all_valid-Reordered (trans r t) = all_valid-Reordered r ∙ all_valid-Reordered t

acceptable-Reordered : {xs ys : List Entry} → Reordered xs ys → acceptable xs ≡ acceptable ys
unfolding acceptable
acceptable-Reordered r = rw (length-Reordered r, weight-Reordered r, all_valid-Reordered r) refl

has_key-Reordered : (j : Text) {xs ys : List Entry} → Reordered xs ys → has_key j xs ≡ has_key j ys
has_key-Reordered j done = refl
has_key-Reordered j (skip (k, v) r) = ap (λ b. text_eq k j || b) (has_key-Reordered j r)
has_key-Reordered j (swap (k, v) (i, w) xs) = ground arith
has_key-Reordered j (trans r t) = has_key-Reordered j r ∙ has_key-Reordered j t

text_eq_sym : (a b : Text) → text_eq a b ≡ text_eq b a
text_eq_sym a b = ground (arith, text_eq_iff a b, text_eq_iff b a)

Distinct-Reordered : {xs ys : List Entry} → Reordered xs ys → Distinct xs → Distinct ys
Distinct-Reordered done d = d
Distinct-Reordered (skip (k, v) r) (fresh, d) =
    (sym (has_key-Reordered k r) ∙ fresh, Distinct-Reordered r d)
Distinct-Reordered (swap (k, v) (j, w) xs) (fresh, (fresh', d)) =
    (ground (arith, text_eq_sym j k), (ground arith, d))
Distinct-Reordered (trans r t) d = Distinct-Reordered t (Distinct-Reordered r d)

get-Reordered :
    (j : Text) {xs ys : List Entry} → Reordered xs ys → Distinct xs → get j xs ≡ get j ys
unfolding get
get-Reordered j done d = refl
get-Reordered j (skip (k, v) r) (fresh, d) = ground (arith, get-Reordered j r d)
get-Reordered j (swap (k, v) (i, w) xs) (fresh, (fresh', d)) =
    ground (arith, text_eq_iff k j, text_eq_iff i j, text_eq_iff i k)
get-Reordered j (trans r t) d = get-Reordered j r d ∙ get-Reordered j t (Distinct-Reordered r d)

-- Two results of Compile that cannot be told apart.
abbrev pub Agree : Option (List Entry) → Option (List Entry) → Type 0
Agree none none = Unit
Agree none (some fields) = ⊥
Agree (some fields) none = ⊥
Agree (some fields) (some others) = (j : Text) → get j fields ≡ get j others

-- Go reads a map's entries in any order: for two orders of the same entries, with different keys,
-- Compile fails for both, or gives sets that have the same value for each key.
pub compile-Agree :
    (xs ys : List Entry) → Reordered xs ys → Distinct xs → Agree (compile xs) (compile ys)
compile-Agree xs ys r d =
    let accepted = acceptable-Reordered r in
    elim (Bool-cases (acceptable xs)) [
      | inl h ↦
          rw (compile_lem xs, compile_lem ys, ← accepted, h)
            (λ j.
              get-build_nil j xs d
              ∙ get-Reordered j r d
              ∙ sym (get-build_nil j ys (Distinct-Reordered r d)))
      | inr h ↦ rw (compile_lem xs, compile_lem ys, ← accepted, h) tt
    ]
