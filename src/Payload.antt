-- ===== src/Payload.antt =====
-- pkg/directive/validate.go: what NormalizePayload checks, in the tools that write a directive and first
-- of all in CompilePayload. A map is the list of its entries in the order of the loop that reads it;
-- `none` and `false` are ErrInvalidPayload.
pub mod Fields
pub mod Modules
pub mod Names
mod Ranges
pub mod Statuses
mod Tests
use directive_proxy.Prelude.{
  ℕ, zero, suc, ◌+◌, ◌==◌, Bool, true, false, not, ◌&&◌, ◌||◌, Option, none, some, List, [], ◌∷◌,
  Int64, slt, sle, ltb, leb, length, if◌then◌else◌, Text, bytes, text_eq, trim_space, is_empty,
}
use directive_proxy.Transport.{StatusRange, StatusRange.from, StatusRange.to}

abbrev pub max_metadata_fields : ℕ
max_metadata_fields = 16

abbrev pub max_metadata_name_bytes : ℕ
max_metadata_name_bytes = 64

abbrev pub max_metadata_value_bytes : ℕ
max_metadata_value_bytes = 512

abbrev pub max_metadata_total_bytes : ℕ
max_metadata_total_bytes = 8192

abbrev pub max_recovery_capture_body_bytes : Int64
max_recovery_capture_body_bytes = 16777216

abbrev pub default_recovery_capture_bytes : Int64
default_recovery_capture_bytes = 65536

-- The loop over the code points of a key.
unfoldable pub valid_name_from : (index : ℕ) → Text → Bool
valid_name_from index [] = true
valid_name_from index (c ∷ cs) =
    if (leb b'a' c && leb c b'z')
      || (ltb 0 index && leb b'0' c && leb c b'9')
      || (ltb 0 index && c == b'_')
    then valid_name_from (suc index) cs
    else false

-- strings.ContainsAny(value, "\r\n").
unfoldable pub contains_break : Text → Bool
contains_break [] = false
contains_break (c ∷ cs) = (c == b'\r' || c == b'\n') || contains_break cs

-- The loop of validMetadata.
unfoldable pub valid_fields : (total : ℕ) → List (Text × Text) → Bool
unfolding bytes text_eq trim_space valid_name_from contains_break
valid_fields total [] = true
valid_fields total ((key, value) ∷ values) =
    let total' = total + (bytes key + bytes value) in
    let rest = valid_fields total' values in
    if is_empty key
      || ltb max_metadata_name_bytes (bytes key)
      || not (text_eq key (trim_space key))
      || is_empty value
      || ltb max_metadata_value_bytes (bytes value)
      || not (text_eq value (trim_space value))
      || contains_break value
    then false
    else if not (valid_name_from 0 key)
    then false
    else if ltb max_metadata_total_bytes total'
    then false
    else rest

unfoldable pub valid_metadata : List (Text × Text) → Bool
unfolding valid_fields
valid_metadata values =
    if ltb max_metadata_fields (length values) then false else valid_fields 0 values

pub record UnexpectedStatus : Type 0 where
  pub expected : List StatusRange
  pub capture_body_bytes : Int64

-- The order that sort.Slice is given. Ranges of which neither is before the other are equal, so it
-- has one result.
unfoldable pub before : StatusRange → StatusRange → Bool
before r q = slt r.from q.from || (r.from == q.from && slt r.to q.to)

unfoldable pub insert : StatusRange → List StatusRange → List StatusRange
unfolding before
insert r [] = r ∷ []
insert r (q ∷ qs) = if before q r then q ∷ insert r qs else r ∷ q ∷ qs

unfoldable pub sort_ranges : List StatusRange → List StatusRange
unfolding insert
sort_ranges [] = []
sort_ranges (r ∷ rs) = insert r (sort_ranges rs)

-- The loop over the sorted ranges.
unfoldable pub valid_ranges : (index : ℕ) (last_to : Int64) → List StatusRange → Bool
valid_ranges index last_to [] = true
valid_ranges index last_to (r ∷ rs) =
    let rest = valid_ranges (suc index) r.to rs in
    if slt r.from 200 || slt 599 r.to || slt r.to r.from || (ltb 0 index && sle r.from last_to)
    then false
    else rest

-- The part of normalizeRecovery for triggers.unexpected_status.
unfoldable pub normalize_capture : Int64 → Int64
normalize_capture n = if n == 0 then default_recovery_capture_bytes else n

unfoldable pub normalize_status : UnexpectedStatus → Option UnexpectedStatus
unfolding sort_ranges valid_ranges normalize_capture
normalize_status s =
    let rs = sort_ranges s.expected in
    let n = normalize_capture s.capture_body_bytes in
    if length s.expected == 0
    then none
    else if not (valid_ranges 0 0 rs)
    then none
    else if slt n 1 || slt max_recovery_capture_body_bytes n
    then none
    else some (record { expected = rs; capture_body_bytes = n })
