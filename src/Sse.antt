-- ===== src/Sse.antt =====
-- internal/core/sse/parser.go: the parser of server-sent events, fed with pieces of a byte stream.
-- The calls of onEvent and onComment are appended to `events` and `comments`. A string is its bytes.
pub mod Lines
pub mod Splits
pub mod RoundTrip
mod Tests
use directive_proxy.Prelude.{
  ℕ, zero, suc, ◌+◌, ◌-◌, ◌*◌, ◌%◌, ◌==◌, Bool, true, false, not, ◌&&◌, ◌||◌, Option, none, some,
  List, [], ◌∷◌, ◌++◌, Int64, add64, sub64, sle, slt, ltb, leb, length, take, drop, if◌then◌else◌,
}

pub record Event : Type 0 where
  pub sequence : ℕ
  pub kind : List ℕ
  pub content : List ℕ
  pub id : List ℕ
  pub retry_millis : Option Int64
  pub truncated : Bool

pub record Parser : Type 0 where
  pub max_event_bytes : Int64
  pub pending : List ℕ
  pub lines : List (List ℕ)
  pub event_type : List ℕ
  pub last_event_id : List ℕ
  pub retry_millis : Option Int64
  pub event_bytes : Int64
  pub truncated : Bool
  pub sequence : ℕ
  pub first_line : Bool
  pub events : List Event
  pub comments : List (List ℕ)

unfoldable pub new_parser : Int64 → Parser
new_parser max = record {
  max_event_bytes = if sle max 0 then 1048576 else max;
  pending = [];
  lines = [];
  event_type = [];
  last_event_id = [];
  retry_millis = none;
  event_bytes = 0;
  truncated = false;
  sequence = 0;
  first_line = true;
  events = [];
  comments = [];
}

unfoldable pub reset_event : Parser → Parser
reset_event p = record p {
  lines = [];
  event_type = [];
  retry_millis = none;
  event_bytes = 0;
  truncated = false;
}

-- strings.Join with a line feed.
unfoldable pub join : List (List ℕ) → List ℕ
join [] = []
join (l ∷ []) = l
join (l ∷ m ∷ ls) = l ++ b'\n' ∷ join (m ∷ ls)

abbrev pub is_nil {ℓ} : {A : Type ℓ} → List A → Bool
is_nil [] = true
is_nil (x ∷ xs) = false

abbrev pub message : List ℕ
message = b'm' ∷ b'e' ∷ b's' ∷ b's' ∷ b'a' ∷ b'g' ∷ b'e' ∷ []

unfoldable pub dispatch : Parser → Parser
unfolding reset_event join
dispatch p =
    if is_nil p.lines && not p.truncated
    then reset_event p
    else (let n = (p.sequence + 1) % 18446744073709551616 in
        let event : Event = record {
          sequence = n;
          kind = if is_nil p.event_type then message else p.event_type;
          content = join p.lines;
          id = p.last_event_id;
          retry_millis = p.retry_millis;
          truncated = p.truncated;
        } in
        reset_event (record p { sequence = n; events = p.events ++ event ∷ [] }))

unfoldable pub append_data : Parser → List ℕ → Parser
append_data p value =
    let bytes = add64 p.event_bytes (length value) in
    if slt p.max_event_bytes bytes
    then record p { event_bytes = bytes; truncated = true }
    else record p { event_bytes = bytes; lines = p.lines ++ value ∷ [] }

-- Equality of byte strings.
unfoldable pub bytes_eq : List ℕ → List ℕ → Bool
bytes_eq [] [] = true
bytes_eq [] (b ∷ bs) = false
bytes_eq (a ∷ as') [] = false
bytes_eq (a ∷ as') (b ∷ bs) = a == b && bytes_eq as' bs

-- strings.Cut at the first colon.
unfoldable pub cut : List ℕ → List ℕ × Option (List ℕ)
cut [] = ([], none)
cut (c ∷ cs) =
    let (before, after) = cut cs in if c == b':' then ([], some cs) else (c ∷ before, after)

-- strings.TrimPrefix of one space.
abbrev pub trim_space : List ℕ → List ℕ
trim_space [] = []
trim_space (c ∷ cs) = if c == b' ' then cs else c ∷ cs

abbrev pub has_zero : List ℕ → Bool
has_zero [] = false
has_zero (c ∷ cs) = c == 0 || has_zero cs

-- The number of decimal digits, `none` for another byte.
unfoldable pub parse_digits : ℕ → List ℕ → Option ℕ
parse_digits n [] = some n
parse_digits n (c ∷ cs) =
    if leb b'0' c && leb c b'9' then parse_digits (n * 10 + (c - b'0')) cs else none

-- strconv.ParseInt to the base 10, with 64 bits, of what follows the sign.
unfoldable pub parse_magnitude : (negative : Bool) → List ℕ → Option Int64
unfolding parse_digits
parse_magnitude negative [] = none
parse_magnitude negative (c ∷ cs) = elim (parse_digits 0 (c ∷ cs)) [
  | none ↦ none
  | some n ↦
      if negative
      then (if leb n 9223372036854775808 then some (sub64 0 n) else none)
      else if ltb n 9223372036854775808
      then some n
      else none
]

unfoldable pub parse_int : List ℕ → Option Int64
unfolding parse_magnitude
parse_int [] = none
parse_int (c ∷ cs) =
    if c == b'+'
    then parse_magnitude false cs
    else if c == b'-'
    then parse_magnitude true cs
    else parse_magnitude false (c ∷ cs)

abbrev data_field : List ℕ
data_field = b'd' ∷ b'a' ∷ b't' ∷ b'a' ∷ []

abbrev event_field : List ℕ
event_field = b'e' ∷ b'v' ∷ b'e' ∷ b'n' ∷ b't' ∷ []

abbrev id_field : List ℕ
id_field = b'i' ∷ b'd' ∷ []

abbrev retry_field : List ℕ
retry_field = b'r' ∷ b'e' ∷ b't' ∷ b'r' ∷ b'y' ∷ []

unfoldable pub set_retry : Parser → List ℕ → Parser
unfolding parse_int
set_retry p value = elim (parse_int value) [
  | none ↦ p
  | some parsed ↦ if sle 0 parsed then record p { retry_millis = some parsed } else p
]

-- The switch on the field's name.
unfoldable pub set_field : Parser → List ℕ → List ℕ → Parser
unfolding append_data set_retry bytes_eq
set_field p field value =
    if bytes_eq field data_field
    then append_data p value
    else if bytes_eq field event_field
    then record p { event_type = value }
    else if bytes_eq field id_field
    then (if has_zero value then p else record p { last_event_id = value })
    else if bytes_eq field retry_field
    then set_retry p value
    else p

-- The byte order mark of UTF-8, taken off the first line.
abbrev pub trim_mark : List ℕ → List ℕ
trim_mark line = if bytes_eq (take 3 line) (0xef ∷ 0xbb ∷ 0xbf ∷ []) then drop 3 line else line

-- A line that is not empty.
unfoldable pub process_field : Parser → List ℕ → Parser
unfolding cut set_field
process_field p line =
    let (field, value) = cut line in
    set_field p field (elim value [ none ↦ [] | some v ↦ trim_space v ])

unfoldable pub process_trimmed : Parser → List ℕ → Parser
unfolding dispatch process_field
process_trimmed p [] = dispatch p
process_trimmed p (c ∷ cs) =
    if c == b':' then record p { comments = p.comments ++ cs ∷ [] } else process_field p (c ∷ cs)

unfoldable pub process_line : Parser → List ℕ → Parser
unfolding process_trimmed bytes_eq
process_line p line =
    if p.first_line
    then process_trimmed (record p { first_line = false }) (trim_mark line)
    else process_trimmed p line
