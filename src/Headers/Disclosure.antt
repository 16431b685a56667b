-- ===== src/Headers/Disclosure.antt =====
-- internal/core/httpheader/apply.go: the headers before the operations of a plan.
use directive_proxy.Prelude.{
  ◌≡◌, refl, sym, ◌∙◌, subst, Bool, true, false, ◌||◌, ◌&&◌, ◌==◌, ==_iff, ap, List, ◌∷◌, codes,
  arith, Bool-cases, none, [], ◌∷◌, inl, inr, Text, text_eq, text_eq_iff,
}
use directive_proxy.Headers.{
  has_prefix, to_lower, lower, Values, Headers, RequestPlan, lookup, del_all, canonical_header_key,
  strip_hop_by_hop, disclosing, is_proxy_disclosure_header, strip_proxy_disclosure_headers,
}
use directive_proxy.Headers.Apply.{before_ops}
use directive_proxy.Headers.Lookups.{lookup-del_all, is_canonical_of}

head_found :
    (n m : Text) (vs : Values) (h : Headers)
    → is_proxy_disclosure_header m ≡ true
    → text_eq (canonical_header_key m) n ≡ true
    → is_canonical_of n (disclosing ((m, vs) ∷ h)) ≡ true
unfolding disclosing is_canonical_of
head_found n m vs h d c = rw d (rw c)

or_false : (a b : Bool) → (a || b) ≡ false → b ≡ false
or_false true b e = cc
or_false false b e = e

tail_absent :
    (n m : Text) (vs : Values) (h : Headers)
    → is_canonical_of n (disclosing ((m, vs) ∷ h)) ≡ false
    → is_canonical_of n (disclosing h) ≡ false
unfolding disclosing is_canonical_of
tail_absent n m vs h e = elim (Bool-cases (is_proxy_disclosure_header m)) [
  | inl d ↦ or_false (text_eq (canonical_header_key m) n) _ (rw (d, is_canonical_of) at e)
  | inr d ↦ rw (d, is_canonical_of) at e
]

found_is_disclosing :
    (n : Text) (h : Headers)
    → is_proxy_disclosure_header n ≡ true
    → canonical_header_key n ≡ n
    → is_canonical_of n (disclosing h) ≡ false
    → lookup n h ≡ none
unfolding lookup
found_is_disclosing n [] d c e = refl
found_is_disclosing n ((m, vs) ∷ h) d c e = elim (Bool-cases (text_eq m n)) [
  | inl same ↦
      let is : m ≡ n = (text_eq_iff m n).0 same in
      let dm : is_proxy_disclosure_header m ≡ true =
        subst (λ k. is_proxy_disclosure_header k ≡ true) (sym is) d in
      let cm : text_eq (canonical_header_key m) n ≡ true =
        subst (λ k. text_eq (canonical_header_key k) n ≡ true) (sym is)
          ((text_eq_iff (canonical_header_key n) n).1 c) in
      absurd (let f : ⊥ = cc (e, head_found n m vs h dm cm) in f)
  | inr other ↦ rw other (found_is_disclosing n h d c (tail_absent n m vs h e))
]

-- The headers by which a proxy names itself or the client, in the form that net/http gives to names.
abbrev pub identifying : List Text
identifying =
    codes "Forwarded"
    ∷ codes "Via"
    ∷ codes "X-Original-Forwarded-For"
    ∷ codes "X-Real-Ip"
    ∷ codes "Client-Ip"
    ∷ codes "X-Client-Ip"
    ∷ codes "True-Client-Ip"
    ∷ codes "Cf-Connecting-Ip"
    ∷ codes "Cf-Connecting-Ipv6"
    ∷ codes "Fastly-Client-Ip"
    ∷ codes "X-Cluster-Client-Ip"
    ∷ codes "X-Proxyuser-Ip"
    ∷ codes "Proxy-Client-Ip"
    ∷ codes "Wl-Proxy-Client-Ip"
    ∷ codes "Cdn-Loop"
    ∷ []

unfoldable pub is_among : Text → List Text → Bool
unfolding text_eq
is_among n [] = false
is_among n (m ∷ ms) = text_eq m n || is_among n ms

-- Whether a name is one of these, or begins with X-Forwarded-.
unfoldable pub identifies : Text → Bool
unfolding is_among has_prefix
identifies n = is_among n identifying || has_prefix n (codes "X-Forwarded-")

both : (a b : Bool) → (a && b) ≡ true → (a ≡ true) × (b ≡ true)
both a b h = ground arith

either : (a b : Bool) → a ≡ false → (a || b) ≡ true → b ≡ true
either a b e h = ground arith

left_holds : (a b : Bool) → a ≡ true → (a || b) ≡ true
left_holds a b h = ground arith

unfoldable all_disclosing : List Text → Bool
all_disclosing [] = true
all_disclosing (m ∷ ms) = is_proxy_disclosure_header m && all_disclosing ms

identifying_disclose : all_disclosing identifying ≡ true
unfolding all_disclosing is_proxy_disclosure_header
identifying_disclose = refl

one_of_disclosing :
    (n : Text) (ms : List Text)
    → all_disclosing ms ≡ true
    → is_among n ms ≡ true
    → is_proxy_disclosure_header n ≡ true
unfolding all_disclosing is_among
one_of_disclosing n [] a o = absurd (let f : ⊥ = cc o in f)
one_of_disclosing n (m ∷ ms) a o =
    let (d, ds) = both (is_proxy_disclosure_header m) (all_disclosing ms) a in
    elim (Bool-cases (text_eq m n)) [
      | inl e ↦ subst (λ k. is_proxy_disclosure_header k ≡ true) ((text_eq_iff m n).0 e) d
      | inr e ↦ one_of_disclosing n ms ds (either (text_eq m n) (is_among n ms) e o)
    ]

both_hold : (a b : Bool) → a ≡ true → b ≡ true → (a && b) ≡ true
both_hold a b ha hb = ground arith

has_prefix-to_lower :
    (n p : Text) → has_prefix n p ≡ true → has_prefix (to_lower n) (to_lower p) ≡ true
unfolding has_prefix to_lower
has_prefix-to_lower n [] h = refl
has_prefix-to_lower [] (d ∷ p) h = h
has_prefix-to_lower (c ∷ n) (d ∷ p) h =
    let (e, r) = both (c == d) (has_prefix n p) h in
    both_hold (lower c == lower d) (has_prefix (to_lower n) (to_lower p))
      ((==_iff (lower c) (lower d)).1 (ap lower ((==_iff c d).0 e))) (has_prefix-to_lower n p r)

prefix_discloses :
    (n : Text)
    → has_prefix (to_lower n) (codes "x-forwarded-") ≡ true
    → is_proxy_disclosure_header n ≡ true
unfolding is_proxy_disclosure_header
prefix_discloses n h = left_holds (has_prefix (to_lower n) (codes "x-forwarded-")) _ h

lower_prefix : to_lower (codes "X-Forwarded-") ≡ codes "x-forwarded-"
unfolding to_lower lower
lower_prefix = refl

identifies-disclosing : (n : Text) → identifies n ≡ true → is_proxy_disclosure_header n ≡ true
unfolding identifies
identifies-disclosing n h = elim (Bool-cases (is_among n identifying)) [
  | inl o ↦ one_of_disclosing n identifying identifying_disclose o
  | inr o ↦ prefix_discloses n (
      subst (λ p. has_prefix (to_lower n) p ≡ true) lower_prefix
        (has_prefix-to_lower n (codes "X-Forwarded-")
          (either (is_among n identifying) (has_prefix n (codes "X-Forwarded-")) o h)))
]

none_disclosing :
    (matches : (pattern_text name : Text) → Bool) (original : Headers) (plan : RequestPlan)
    (n : Text)
    → plan.preserve_proxy_disclosure ≡ false
    → is_proxy_disclosure_header n ≡ true
    → canonical_header_key n ≡ n
    → lookup n (before_ops matches original plan) ≡ none
unfolding before_ops strip_proxy_disclosure_headers
none_disclosing matches original plan n p d c =
    let h = del_all plan.strip_before_ops (strip_hop_by_hop original) in
    rw p (
      lookup-del_all n (disclosing h) h ∙ (elim (Bool-cases (is_canonical_of n (disclosing h))) [
        | inl e ↦ rw e
        | inr e ↦ rw e (found_is_disclosing n h d c e)
      ]))

-- What the plan's operations start from names neither a proxy nor the client: unless the plan preserves
-- these headers, none of the fifteen that are listed is left, nor any that begins with X-Forwarded-,
-- whatever the original has. A name is in its canonical form.
pub before_ops_hides :
    (matches : (pattern_text name : Text) → Bool) (original : Headers) (plan : RequestPlan)
    (n : Text)
    → plan.preserve_proxy_disclosure ≡ false
    → identifies n ≡ true
    → canonical_header_key n ≡ n
    → lookup n (before_ops matches original plan) ≡ none
before_ops_hides matches original plan n p i c =
    none_disclosing matches original plan n p (identifies-disclosing n i) c
