-- ===== src/Sse/Tests.antt =====
-- internal/core/sse/parser.go: the theorems at concrete inputs, and runs of the code.
use directive_proxy.Prelude.{ℕ, ◌≡◌, refl, none, some, List, [], ◌∷◌, ◌++◌, arith, length, map, suc}
use directive_proxy.Sse
use directive_proxy.Sse.{Parser, Event, new_parser}
use directive_proxy.Sse.Lines
use directive_proxy.Sse.Lines.{take_line, drain, feed}
use directive_proxy.Sse.Splits.{feed-append, drain_complete}
use directive_proxy.Sse.RoundTrip.{render, event_of, feed-render}

abbrev parser : Parser
parser = new_parser 100

-- "data: hi", a carriage return, and then the line feed of the same line's end.
abbrev hi_return : List ℕ
hi_return = b'd' ∷ b'a' ∷ b't' ∷ b'a' ∷ b':' ∷ b' ' ∷ b'h' ∷ b'i' ∷ b'\r' ∷ []

feed-append_example :
    feed parser (hi_return ++ b'\n' ∷ b'\n' ∷ [])
    ≡ feed (feed parser hi_return) (b'\n' ∷ b'\n' ∷ [])
unfolding new_parser drain take_line
feed-append_example = feed-append parser hi_return (b'\n' ∷ b'\n' ∷ []) refl

one_event :
    map (λ (e : Event). e.content) (feed (feed parser hi_return) (b'\n' ∷ b'\n' ∷ [])).events
    ≡ (b'h' ∷ b'i' ∷ []) ∷ []
unfolding new_parser feed Sse.process_line
one_event = refl

drain_complete_example : take_line (drain (suc (length hi_return)) hi_return parser).1 ≡ none
drain_complete_example = drain_complete (suc (length hi_return)) hi_return parser (omega arith)

feed-render_example :
    (feed parser (render ((b'h' ∷ b'i' ∷ []) ∷ (b'!' ∷ []) ∷ []))).events
    ≡ parser.events ++ event_of parser ((b'h' ∷ b'i' ∷ []) ∷ (b'!' ∷ []) ∷ []) ∷ []
unfolding new_parser Lines.has_break
feed-render_example =
    feed-render parser (b'h' ∷ b'i' ∷ []) ((b'!' ∷ []) ∷ []) (refl, refl, refl, refl, refl, refl)
      (omega arith) (omega arith) (refl, (refl, tt))

-- A retry time with a sign is a number, and one with a space is not.
retry_times :
    (Sse.parse_int (b'+' ∷ b'5' ∷ []) ≡ some 5) × (Sse.parse_int (b'5' ∷ b' ' ∷ []) ≡ none)
unfolding Sse.parse_int
retry_times = (refl, refl)
