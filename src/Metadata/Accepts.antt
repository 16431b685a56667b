-- ===== src/Metadata/Accepts.antt =====
-- internal/core/metadata/metadata.go: what Compile accepts, whatever the order of the map's entries.
use directive_proxy.Prelude.{
  ℕ, ◌+◌, ◌≤◌, ◌≡◌, refl, ◌∙◌, Bool, true, false, ◌&&◌, ◌||◌, Bool-cases, Option, none, some, List,
  [], ◌∷◌, leb, length, if◌then◌else◌, arith, inl, inr,
}
pub use directive_proxy.Prelude.{text_eq_iff}
use directive_proxy.Metadata.{
  Text, Entry, max_fields, max_total_bytes, bytes, valid_key, valid_value, text_eq, assign, get,
  collect, compile,
}

-- The limits of a field and of all fields, with no order: an entry's validity, and the sum of the
-- bytes.
unfoldable pub all_valid : List Entry → Bool
all_valid [] = true
all_valid ((k, v) ∷ es) = valid_key k && valid_value v && all_valid es

unfoldable pub weight : List Entry → ℕ
weight [] = 0
weight ((k, v) ∷ es) = bytes k + bytes v + weight es

unfoldable pub build : List Entry → List Entry → List Entry
build fields [] = fields
build fields ((k, v) ∷ es) = build (assign k v fields) es

collect_lem :
    (total : ℕ) (fields es : List Entry)
    → total ≤ max_total_bytes
    → collect total fields es ≡ (
        if all_valid es && leb (total + weight es) max_total_bytes
        then some (build fields es)
        else none)
unfolding collect all_valid weight build
collect_lem total fields [] h = ground arith
collect_lem total fields ((k, v) ∷ es) h =
    ground (arith, collect_lem (total + bytes k + bytes v) (assign k v fields) es)

-- What Compile accepts: the number of fields, each key and value, and the bytes of all.
unfoldable pub acceptable : List Entry → Bool
unfolding all_valid weight
acceptable input =
    leb (length input) max_fields && all_valid input && leb (weight input) max_total_bytes

pub compile_lem :
    (input : List Entry)
    → compile input ≡ (if acceptable input then some (build [] input) else none)
unfolding compile acceptable
compile_lem input = ground (arith, collect_lem 0 [] input (omega arith))

abbrev pub has_key : Text → List Entry → Bool
has_key key [] = false
has_key key ((k, v) ∷ es) = text_eq k key || has_key key es

-- The entries of a map have different keys.
abbrev pub Distinct : List Entry → Type 0
Distinct [] = Unit
Distinct ((k, v) ∷ es) = (has_key k es ≡ false) × Distinct es

get-assign :
    (j k v : Text) (fields : List Entry)
    → get j (assign k v fields) ≡ (if text_eq k j then v else get j fields)
unfolding get assign
get-assign j k v [] = refl
get-assign j k v ((i, w) ∷ fields) =
    ground (arith, text_eq_iff k j, text_eq_iff i k, text_eq_iff i j, get-assign j k v fields)

-- A key that is not there a second time.
no_second :
    (j k : Text) (es : List Entry)
    → has_key k es ≡ false
    → text_eq k j ≡ true
    → has_key j es ≡ false
no_second j k es h e = rw (← (text_eq_iff k j).0 e) h

get-build :
    (j : Text) (fields es : List Entry)
    → Distinct es
    → get j (build fields es) ≡ (if has_key j es then get j es else get j fields)
unfolding get build
get-build j fields [] d = refl
get-build j fields ((k, v) ∷ es) (fresh, d) =
    ground
      (arith, get-build j (assign k v fields) es d, get-assign j k v fields, no_second j k es fresh)

get-missing : (j : Text) (es : List Entry) → has_key j es ≡ false → get j es ≡ []
unfolding get
get-missing j [] h = refl
get-missing j ((k, v) ∷ es) h = ground (arith, get-missing j es)

pub get-build_nil : (j : Text) (es : List Entry) → Distinct es → get j (build [] es) ≡ get j es
get-build_nil j es d = elim (Bool-cases (has_key j es)) [
  | inl h ↦ get-build j [] es d ∙ (rw h refl)
  | inr h ↦ get-build j [] es d ∙ (rw (h, get-missing j es h) (get-missing j [] refl))
]

-- A result of Compile, against its input.
abbrev pub Compiles : List Entry → Option (List Entry) → Type 0
Compiles input none = acceptable input ≡ false
Compiles input (some fields) = (acceptable input ≡ true) × ((j : Text) → get j fields ≡ get j input)

-- Compile, in one statement: if the number of fields, each key and value and the bytes of all are
-- within the limits, it gives a set in which each key has the value of the input; else it fails. The
-- keys of the input are different.
pub compile-Compiles : (input : List Entry) → Distinct input → Compiles input (compile input)
compile-Compiles input d = elim (Bool-cases (acceptable input)) [
  | inl h ↦ rw (compile_lem input, h) (h, λ j. get-build_nil j input d)
  | inr h ↦ rw (compile_lem input, h) h
]
