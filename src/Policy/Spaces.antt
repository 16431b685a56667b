-- ===== src/Policy/Spaces.antt =====
-- strings.TrimSpace, on its own result and on names without spaces.
use directive_proxy.Prelude.{
  ℕ, ◌≡◌, refl, ◌∙◌, ap, Bool, true, false, Bool-cases, not, ◌&&◌, [], ◌∷◌, ◌++◌, Text, is_space,
  trim_left, trim_space, arith, inl, inr,
}
use mathlib.Core.List.{reverse, reverse-cons, reverse-append, reverse-reverse}
use directive_proxy.Headers.{lower, to_lower, is_token, all_tokens}

trim_left-twice : (t : Text) → trim_left (trim_left t) ≡ trim_left t
unfolding trim_left
trim_left-twice [] = refl
trim_left-twice (c ∷ cs) = elim (Bool-cases (is_space c)) [
  | inl h ↦ rw h (trim_left-twice cs)
  | inr h ↦ rw (h, h) refl
]

-- A last character that is no space stays.
trim_left-append :
    (c : ℕ) (t : Text) → is_space c ≡ false → trim_left (t ++ (c ∷ [])) ≡ trim_left t ++ (c ∷ [])
unfolding trim_left
trim_left-append c [] h = rw h refl
trim_left-append c (d ∷ t) h = elim (Bool-cases (is_space d)) [
  | inl e ↦ rw e (trim_left-append c t h)
  | inr e ↦ rw e refl
]

abbrev trim_right : Text → Text
trim_right t = reverse (trim_left (reverse t))

trim_right-twice : (t : Text) → trim_right (trim_right t) ≡ trim_right t
trim_right-twice t = rw (reverse-reverse (trim_left (reverse t)), trim_left-twice (reverse t)) refl

-- A first character that is no space stays.
trim_right-cons : (c : ℕ) (t : Text) → is_space c ≡ false → trim_right (c ∷ t) ≡ c ∷ trim_right t
trim_right-cons c t h =
    rw
      (
        reverse-cons c t,
        trim_left-append c (reverse t) h,
        reverse-append (trim_left (reverse t)) (c ∷ []),
      )
      refl

trim_left-trim_right : (t : Text) → trim_left (trim_right (trim_left t)) ≡ trim_right (trim_left t)
unfolding trim_left
trim_left-trim_right [] = refl
trim_left-trim_right (c ∷ cs) = elim (Bool-cases (is_space c)) [
  | inl h ↦ rw h (trim_left-trim_right cs)
  | inr h ↦ rw (h, trim_right-cons c cs h, h) refl
]

pub trim_space-twice : (t : Text) → trim_space (trim_space t) ≡ trim_space t
unfolding trim_space
trim_space-twice t = ap trim_right (trim_left-trim_right t) ∙ trim_right-twice (trim_left t)

unfoldable pub no_space : Text → Bool
no_space [] = true
no_space (c ∷ cs) = not (is_space c) && no_space cs

no_space-append : (s t : Text) → no_space (s ++ t) ≡ (no_space s && no_space t)
unfolding no_space
no_space-append [] t = refl
no_space-append (c ∷ s) t = ground (arith, no_space-append s t)

no_space-reverse : (t : Text) → no_space (reverse t) ≡ no_space t
unfolding no_space
no_space-reverse [] = refl
no_space-reverse (c ∷ t) =
    rw (reverse-cons c t, no_space-append (reverse t) (c ∷ []), no_space-reverse t) (ground arith)

trim_left-no_space : (t : Text) → no_space t ≡ true → trim_left t ≡ t
unfolding no_space trim_left
trim_left-no_space [] h = refl
trim_left-no_space (c ∷ t) h = ground arith

pub trim_space-no_space : (t : Text) → no_space t ≡ true → trim_space t ≡ t
unfolding trim_space
trim_space-no_space t h =
    rw (trim_left-no_space t h, trim_left-no_space (reverse t) (no_space-reverse t ∙ h))
      (reverse-reverse t)

is_space-is_token : (c : ℕ) → is_token c ≡ true → is_space c ≡ false
unfolding is_space is_token
is_space-is_token c h = ground arith

is_space-lower : (c : ℕ) → is_space (lower c) ≡ is_space c
unfolding is_space lower
is_space-lower c = ground arith

both : (a b : Bool) → (a && b) ≡ true → (a ≡ true) × (b ≡ true)
both a b h = ground arith

both_hold : (a b : Bool) → a ≡ true → b ≡ true → (a && b) ≡ true
both_hold a b ha hb = ground arith

not_hold : (a : Bool) → a ≡ false → not a ≡ true
not_hold a h = ground arith

all_tokens_cons :
    (c : ℕ) (t : Text) → all_tokens (c ∷ t) ≡ true → (is_token c ≡ true) × (all_tokens t ≡ true)
unfolding all_tokens
all_tokens_cons c t h = both (is_token c) (all_tokens t) h

pub no_space-all_tokens : (t : Text) → all_tokens t ≡ true → no_space t ≡ true
unfolding no_space
no_space-all_tokens [] h = refl
no_space-all_tokens (c ∷ t) h =
    let (a, b) = all_tokens_cons c t h in
    both_hold (not (is_space c)) (no_space t) (not_hold (is_space c) (is_space-is_token c a))
      (no_space-all_tokens t b)

pub no_space-to_lower : (t : Text) → no_space (to_lower t) ≡ no_space t
unfolding no_space to_lower
no_space-to_lower [] = refl
no_space-to_lower (c ∷ t) = ground (arith, is_space-lower c, no_space-to_lower t)

lower-twice : (c : ℕ) → lower (lower c) ≡ lower c
unfolding lower
lower-twice c = ground arith

pub to_lower-twice : (t : Text) → to_lower (to_lower t) ≡ to_lower t
unfolding to_lower
to_lower-twice [] = refl
to_lower-twice (c ∷ t) = rw (lower-twice c) (ap (λ u. lower c ∷ u) (to_lower-twice t))
