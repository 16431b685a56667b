-- ===== src/Metadata.antt =====
-- internal/core/metadata/metadata.go: the correlation fields of a directive, and their limits.
-- A string is its code points, and its length is that of their UTF-8. A map is the list of its entries
-- in the order of the loop that reads it.
pub mod Accepts
pub mod AnyOrder
mod Tests
use directive_proxy.Prelude.{
  ℕ, ◌+◌, ◌==◌, Bool, true, false, not, ◌&&◌, ◌||◌, Option, none, some, List, [], ◌∷◌, ◌++◌, ltb,
  leb, length, if◌then◌else◌,
}
unfoldable pub use directive_proxy.Prelude.{
  Text, bytes, is_space, trim_left, trim_space, text_eq, is_empty,
}

abbrev pub max_fields : ℕ
max_fields = 16

abbrev pub max_name_bytes : ℕ
max_name_bytes = 64

abbrev pub max_value_bytes : ℕ
max_value_bytes = 512

abbrev pub max_total_bytes : ℕ
max_total_bytes = 8192

abbrev pub is_letter : ℕ → Bool
is_letter c = leb b'a' c && leb c b'z'

-- The code points of a key after the first.
unfoldable pub valid_rest : Text → Bool
valid_rest [] = true
valid_rest (c ∷ cs) = (is_letter c || (leb b'0' c && leb c b'9') || c == b'_') && valid_rest cs

unfoldable pub valid_chars : Text → Bool
unfolding valid_rest
valid_chars [] = true
valid_chars (c ∷ cs) = is_letter c && valid_rest cs

unfoldable pub valid_key : Text → Bool
unfolding bytes trim_space text_eq valid_chars
valid_key key =
    not (is_empty key || ltb max_name_bytes (bytes key) || not (text_eq key (trim_space key)))
    && valid_chars key

abbrev pub has_break : Text → Bool
has_break [] = false
has_break (c ∷ cs) = c == b'\r' || c == b'\n' || has_break cs

unfoldable pub valid_value : Text → Bool
unfolding bytes trim_space text_eq
valid_value value =
    not (is_empty value)
    && text_eq value (trim_space value)
    && leb (bytes value) max_value_bytes
    && not (has_break value)

abbrev pub Entry : Type 0
Entry = Text × Text

-- fields[key] = value.
unfoldable pub assign : Text → Text → List Entry → List Entry
unfolding text_eq
assign key value [] = (key, value) ∷ []
assign key value ((k, v) ∷ es) =
    if text_eq k key then (key, value) ∷ es else (k, v) ∷ assign key value es

-- The value of a missing key is the empty string.
unfoldable pub get : Text → List Entry → Text
unfolding text_eq
get key [] = []
get key ((k, v) ∷ es) = if text_eq k key then v else get key es

-- The loop of Compile.
unfoldable pub collect : (total : ℕ) (fields : List Entry) → List Entry → Option (List Entry)
unfolding valid_key valid_value bytes assign
collect total fields [] = some fields
collect total fields ((key, value) ∷ es) =
    let total' = total + bytes key + bytes value in
    let rest = collect total' (assign key value fields) es in
    if not (valid_key key) || not (valid_value value)
    then none
    else if ltb max_total_bytes total'
    then none
    else rest

-- Compile; `none` is ErrInvalid.
unfoldable pub compile : List Entry → Option (List Entry)
unfolding collect
compile input = if ltb max_fields (length input) then none else collect 0 [] input
