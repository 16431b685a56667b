-- ===== src/Headers/Lookups.antt =====
-- internal/core/httpheader/apply.go: what a name has in the map after each of its operations.
use directive_proxy.Prelude.{
  ◌≡◌, refl, ◌∙◌, ap, subst, Bool, true, false, ◌||◌, Bool-cases, none, some, List, [], ◌∷◌,
  if◌then◌else◌, inl, inr, arith, Text, text_eq, text_eq_iff, codes,
}
use directive_proxy.Headers.{
  Values, Headers, lookup, delete, put, header_del, del_all, canonical_header_key,
  hop_by_hop_headers, strip_hop_by_hop, nominated, values,
}
use directive_proxy.Headers.Apply.{copy_headers}

pub lookup-delete :
    (j k : Text) (h : Headers) → lookup j (delete k h) ≡ (if text_eq k j then none else lookup j h)
unfolding lookup delete
lookup-delete j k [] = ground arith
lookup-delete j k ((n, vs) ∷ h) =
    ground (arith, text_eq_iff n k, text_eq_iff k j, text_eq_iff n j, lookup-delete j k h)

pub lookup-put :
    (j k : Text) (ws : Values) (h : Headers)
    → lookup j (put k ws h) ≡ (if text_eq k j then some ws else lookup j h)
unfolding lookup put
lookup-put j k ws [] = refl
lookup-put j k ws ((n, vs) ∷ h) =
    ground (arith, text_eq_iff n k, text_eq_iff k j, text_eq_iff n j, lookup-put j k ws h)

-- The name is the canonical form of one of the list.
unfoldable pub is_canonical_of : Text → List Text → Bool
is_canonical_of n [] = false
is_canonical_of n (m ∷ ms) = text_eq (canonical_header_key m) n || is_canonical_of n ms

unfoldable pub is_hop_by_hop : Text → Bool
unfolding is_canonical_of canonical_header_key
is_hop_by_hop n = is_canonical_of n hop_by_hop_headers

pub lookup-del_all :
    (n : Text) (ms : List Text) (h : Headers)
    → lookup n (del_all ms h) ≡ (if is_canonical_of n ms then none else lookup n h)
unfolding del_all header_del is_canonical_of
lookup-del_all n [] h = refl
lookup-del_all n (m ∷ ms) h = ground (
  arith,
  lookup-del_all n ms (delete (canonical_header_key m) h),
  lookup-delete n (canonical_header_key m) h,
)

pub stripped :
    (n : Text) (h : Headers) → is_hop_by_hop n ≡ true → lookup n (strip_hop_by_hop h) ≡ none
unfolding strip_hop_by_hop is_hop_by_hop
stripped n h e =
    let g = del_all (nominated (values (codes "Connection") h)) h in
    lookup-del_all n hop_by_hop_headers g ∙ ap (λ (b : Bool). if b then none else lookup n g) e

abbrev pub Distinct : Headers → Type 0
Distinct [] = Unit
Distinct ((n, vs) ∷ h) = (lookup n h ≡ none) × Distinct h

copy_absent :
    (n : Text) (dst src : Headers)
    → lookup n src ≡ none
    → lookup n (copy_headers dst src) ≡ lookup n dst
unfolding copy_headers lookup
copy_absent n dst [] e = refl
copy_absent n dst ((m, vs) ∷ src) e = elim (Bool-cases (text_eq m n)) [
  | inl same ↦ absurd (let f : ⊥ = cc (rw (same, lookup) at e) in f)
  | inr other ↦
      copy_absent n (put m vs dst) src (rw (other, lookup) at e) ∙ lookup-put n m vs dst ∙ rw other
]

pub lookup-copy :
    (n : Text) (dst src : Headers)
    → Distinct src
    → lookup n dst ≡ none
    → lookup n (copy_headers dst src) ≡ lookup n src
unfolding copy_headers lookup
lookup-copy n dst [] d e = e
lookup-copy n dst ((m, vs) ∷ src) d e = elim (Bool-cases (text_eq m n)) [
  | inl same ↦
      let absent : lookup n src ≡ none =
        subst (λ k. lookup k src ≡ none) ((text_eq_iff m n).0 same) d.0 in
      copy_absent n (put m vs dst) src absent ∙ lookup-put n m vs dst ∙ rw (same, lookup) refl
  | inr other ↦
      lookup-copy n (put m vs dst) src d.1 (lookup-put n m vs dst ∙ rw other e)
      ∙ rw (other, lookup) refl
]
