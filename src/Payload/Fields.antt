-- ===== src/Payload/Fields.antt =====
-- pkg/directive/validate.go and internal/core/metadata/metadata.go: the two checks of metadata.
use directive_proxy.Prelude.{
  ℕ, suc, ◌+◌, ◌≤◌, ◌≡◌, refl, Bool, true, false, ◌&&◌, Option, none, some, List, [], ◌∷◌, leb,
  if◌then◌else◌, Text, arith, bytes, text_eq, trim_space, is_empty, ltb, not, ◌||◌,
}
use directive_proxy.Metadata.{
  Entry, max_total_bytes, valid_rest, valid_chars, valid_key, valid_value, has_break, compile,
}
use directive_proxy.Metadata.Accepts.{all_valid, weight, acceptable, compile_lem}
use directive_proxy.Payload.{
  valid_name_from, contains_break, valid_fields, valid_metadata, max_metadata_name_bytes,
  max_metadata_value_bytes,
}

valid_name_from-suc : (n : ℕ) (cs : Text) → valid_name_from (suc n) cs ≡ valid_rest cs
unfolding valid_name_from valid_rest
valid_name_from-suc n [] = refl
valid_name_from-suc n (c ∷ cs) = ground (arith, valid_name_from-suc (suc n) cs)

valid_name_lem : (c : ℕ) (cs : Text) → valid_name_from 0 (c ∷ cs) ≡ valid_chars (c ∷ cs)
unfolding valid_name_from valid_chars
valid_name_lem c cs = ground (arith, valid_name_from-suc 0 cs)

contains_break_lem : (cs : Text) → contains_break cs ≡ has_break cs
unfolding contains_break
contains_break_lem [] = refl
contains_break_lem (c ∷ cs) = ground (arith, contains_break_lem cs)

-- One field: the tests of validMetadata, against those of Compile.
abbrev named : Text → Text → Bool
named k v =
    is_empty k
    || ltb max_metadata_name_bytes (bytes k)
    || not (text_eq k (trim_space k))
    || is_empty v
    || ltb max_metadata_value_bytes (bytes v)
    || not (text_eq v (trim_space v))
    || contains_break v

leb_lem : (n m : ℕ) → not (ltb m n) ≡ leb n m
leb_lem n m = ground arith

-- The tests, without what they test.
tests_lem :
    (a b c d e f g x : Bool)
    → (if a || b || not c || d || e || not f || g then false else if not x then false else true)
      ≡ ((not (a || b || not c) && x) && (not d && f && not e && not g))
tests_lem a b c d e f g x = ground arith

named_lem :
    (k v : Text)
    → (if named k v then false else if not (valid_name_from 0 k) then false else true)
      ≡ (valid_key k && valid_value v)
unfolding valid_key valid_value
named_lem [] v = refl
named_lem (c ∷ cs) v =
    rw (valid_name_lem c cs, contains_break_lem v, ← leb_lem (bytes v) max_metadata_value_bytes)
      (tests_lem false (ltb max_metadata_name_bytes (bytes (c ∷ cs)))
        (text_eq (c ∷ cs) (trim_space (c ∷ cs))) (is_empty v)
        (ltb max_metadata_value_bytes (bytes v)) (text_eq v (trim_space v)) (has_break v)
        (valid_chars (c ∷ cs)))

valid_fields_lem :
    (total : ℕ) (es : List Entry)
    → total ≤ max_total_bytes
    → valid_fields total es ≡ (all_valid es && leb (total + weight es) max_total_bytes)
unfolding valid_fields all_valid weight
valid_fields_lem total [] h = ground arith
valid_fields_lem total ((k, v) ∷ es) h =
    ground (arith, named_lem k v, valid_fields_lem (total + (bytes k + bytes v)) es)

abbrev pub is_some : Option (List Entry) → Bool
is_some none = false
is_some (some fields) = true

-- The two checks of metadata agree: validMetadata, of NormalizePayload, lets a map through exactly when
-- Compile makes a set of it.
pub valid_metadata-compile :
    (values : List Entry) → valid_metadata values ≡ is_some (compile values)
unfolding valid_metadata acceptable
valid_metadata-compile values =
    ground (arith, compile_lem values, valid_fields_lem 0 values (omega arith))
