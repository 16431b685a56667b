-- ===== src/Sse/RoundTrip.antt =====
-- internal/core/sse/parser.go against the format of server-sent events: the lines of an event's data,
-- written one to a field, come back as the event's data.
use directive_proxy.Prelude.{
  ℕ, zero, suc, ◌+◌, ◌<◌, ◌≤◌, ◌≡◌, refl, ap, ◌∙◌, false, ◌%◌, none, some, List, [], ◌∷◌, ◌++◌,
  arith, length, length-append, if_cases, IsNatural, All,
}
use mathlib.Core.List.{append-nil, append_assoc}
use directive_proxy.Sse.{
  Parser, Event, process_line, append_data, dispatch, reset_event, join, message,
}
use directive_proxy.Sse.Lines.{take_line, has_break, drain, wait, feed}
use directive_proxy.Sse.Splits.{drain_goes_on}

-- A line of data, as the format writes it.
abbrev pub data_line : List ℕ → List ℕ
data_line l = b'd' ∷ b'a' ∷ b't' ∷ b'a' ∷ b':' ∷ b' ' ∷ l

-- An event with these lines of data: an empty line ends it.
abbrev pub render : List (List ℕ) → List ℕ
render [] = b'\n' ∷ []
render (l ∷ ls) = data_line l ++ b'\n' ∷ render ls

abbrev pub Unbroken : List ℕ → Type 0
Unbroken l = has_break l ≡ false

take_line-Unbroken : (l rest : List ℕ) → Unbroken l → take_line (l ++ b'\n' ∷ rest) ≡ some (l, rest)
unfolding take_line has_break
take_line-Unbroken [] rest h = refl
take_line-Unbroken (c ∷ cs) rest h = ground (arith, take_line-Unbroken cs rest)

data_line-Unbroken : (l : List ℕ) → Unbroken l → Unbroken (data_line l)
unfolding has_break
data_line-Unbroken l h = h

-- A line of data is appended; that the first line is past is noted.
abbrev past : Parser → Parser
past p = record p { first_line = false }

past_same : (p : Parser) → p.first_line ≡ false → p ≡ past p
past_same p h = ground arith

process_data_line :
    (p : Parser) (l : List ℕ) → process_line p (data_line l) ≡ append_data (past p) l
unfolding process_line
process_data_line p l =
    if_cases (λ (q : Parser). q ≡ append_data (past p) l) p.first_line (λ h. refl)
      (λ h. ap (λ q. append_data q l) (past_same p h))

process_end : (p : Parser) → process_line p [] ≡ dispatch (past p)
unfolding process_line
process_end p =
    if_cases (λ (q : Parser). q ≡ dispatch (past p)) p.first_line (λ h. refl)
      (λ h. ap dispatch (past_same p h))

-- The parser that has seen the lines of an event.
abbrev pub collect : Parser → List (List ℕ) → Parser
collect p [] = past p
collect p (l ∷ ls) = collect (append_data (past p) l) ls

drain_nothing : (f : ℕ) (p : Parser) → drain f [] p ≡ (p, [])
unfolding drain take_line
drain_nothing zero p = refl
drain_nothing (suc f) p = refl

drain-render :
    (f : ℕ) (ls : List (List ℕ)) (p : Parser)
    → length (render ls) < f
    → All Unbroken ls
    → drain f (render ls) p ≡ (dispatch (collect p ls), [])
unfolding has_break
drain-render zero ls p h u = absurd (omega arith)
drain-render (suc f) [] p h u =
    drain_goes_on f (b'\n' ∷ []) p [] [] (take_line-Unbroken [] [] refl)
    ∙ ap (drain f []) (process_end p)
    ∙ drain_nothing f (dispatch (past p))
drain-render (suc f) (l ∷ ls) p h (k, u) =
    drain_goes_on f (render (l ∷ ls)) p (data_line l) (render ls)
      (take_line-Unbroken (data_line l) (render ls) (data_line-Unbroken l k))
    ∙ ap (drain f (render ls)) (process_data_line p l)
    ∙ drain-render f ls (append_data (past p) l)
        (omega (arith, length-append (data_line l) (b'\n' ∷ render ls))) u

-- Enough room for the lines: their bytes are counted up to the largest event.
abbrev pub total : List (List ℕ) → ℕ
total [] = 0
total (l ∷ ls) = length l + total ls

-- The event that the lines make.
abbrev pub event_of : Parser → List (List ℕ) → Event
event_of p ls = record {
  sequence = (p.sequence + 1) % 18446744073709551616;
  kind = message;
  content = join ls;
  id = p.last_event_id;
  retry_millis = none;
  truncated = false;
}

append_data_fits :
    (p : Parser) (l : List ℕ)
    → IsNatural p.max_event_bytes
    → p.event_bytes + length l ≤ p.max_event_bytes
    → append_data p l
      ≡ record p { event_bytes = p.event_bytes + length l; lines = p.lines ++ l ∷ [] }
unfolding append_data
append_data_fits p l nat h = ground arith

collect_fits :
    (p : Parser) (ls : List (List ℕ))
    → IsNatural p.max_event_bytes
    → p.event_bytes + total ls ≤ p.max_event_bytes
    → collect p ls
      ≡ record (past p) { event_bytes = p.event_bytes + total ls; lines = p.lines ++ ls }
collect_fits p [] nat h = ground (arith, append-nil p.lines)
collect_fits p (l ∷ ls) nat h =
    let one = record (past p) {
      event_bytes = p.event_bytes + length l;
      lines = p.lines ++ l ∷ [];
    } in
    ap (λ q. collect q ls) (append_data_fits (past p) l nat (omega arith))
    ∙ collect_fits one ls nat (omega arith)
    ∙ ground (arith, append_assoc p.lines (l ∷ []) ls)

-- A parser between two events.
abbrev pub Ready : Parser → Type 0
Ready p =
    (p.pending ≡ [])
    × (p.lines ≡ [])
    × (p.event_type ≡ [])
    × (p.retry_millis ≡ none)
    × (p.event_bytes ≡ 0)
    × (p.truncated ≡ false)

feed_rendered :
    (p : Parser) (l : List ℕ) (ls : List (List ℕ))
    → p.pending ≡ []
    → All Unbroken (l ∷ ls)
    → feed p (render (l ∷ ls)) ≡ wait (dispatch (collect (record p { pending = [] }) (l ∷ ls)), [])
unfolding feed
feed_rendered p l ls e u =
    let p0 = record p { pending = [] } in
    let text = render (l ∷ ls) in
    ap (λ z. wait (drain (suc (length (z ++ text))) (z ++ text) p0)) e
    ∙ ap wait (drain-render (suc (length text)) (l ∷ ls) p0 (omega arith) u)

wait-events : (p : Parser) (q : List ℕ) → (wait (p, q)).events ≡ p.events
unfolding wait
wait-events p q = ground arith

dispatch-events :
    (p : Parser) (l : List ℕ) (ls : List (List ℕ))
    → p.lines ≡ l ∷ ls
    → p.event_type ≡ []
    → p.retry_millis ≡ none
    → p.truncated ≡ false
    → (dispatch p).events ≡ p.events ++ event_of p (l ∷ ls) ∷ []
unfolding dispatch reset_event
dispatch-events p l ls e t r f = ground arith

-- What the format writes, the parser reads: to a parser between two events, the text of an event with
-- one line of data or more is fed, no line of which has a line break; if the lines are within the
-- largest event together, exactly one event comes, with the next number, the type message, the last
-- event's id, and the lines joined by line feeds as its data.
pub feed-render :
    (p : Parser) (l : List ℕ) (ls : List (List ℕ))
    → Ready p
    → IsNatural p.max_event_bytes
    → total (l ∷ ls) ≤ p.max_event_bytes
    → All Unbroken (l ∷ ls)
    → (feed p (render (l ∷ ls))).events ≡ p.events ++ event_of p (l ∷ ls) ∷ []
feed-render p l ls (pending, lines, kind, retry, bytes, cut_short) nat room u =
    let p0 = record p { pending = [] } in
    let all = l ∷ ls in
    let fits = collect_fits p0 all nat (omega arith) in
    ap (λ (q : Parser). q.events) (feed_rendered p l ls pending u)
    ∙ wait-events (dispatch (collect p0 all)) []
    ∙ ap (λ q. (dispatch q).events) fits
    ∙ dispatch-events
        (record (past p0) { event_bytes = p.event_bytes + total all; lines = p.lines ++ all }) l ls
        (ap (λ z. z ++ all) lines) kind retry cut_short
