-- ===== src/Sse/Lines.antt =====
-- internal/core/sse/parser.go: how Feed takes the lines from what is pending, and Close.
use directive_proxy.Prelude.{
  ℕ, zero, suc, ◌<◌, ◌≤◌, ◌≡◌, ◌==◌, refl, ap, Bool, true, false, not, ◌||◌, ◌&&◌, Option, none,
  some, List, [], ◌∷◌, ◌++◌, arith, add64, slt, length, take, if◌then◌else◌, Option-cases,
  Bool-cases, inl, inr,
}
use directive_proxy.Sse.{Parser, bytes_eq, process_line, reset_event, is_nil}

-- The rest after a carriage return, and the line feed that may follow it. Where nothing follows,
-- Feed waits.
unfoldable pub after_return : List ℕ → Option (List ℕ)
after_return [] = none
after_return (c ∷ cs) = if c == b'\n' then some cs else some (c ∷ cs)

-- The first line of what is pending, if it has ended, and the rest.
unfoldable pub take_line : List ℕ → Option (List ℕ × List ℕ)
unfolding after_return
take_line [] = none
take_line (c ∷ cs) =
    let line = take_line cs in
    if c == b'\n'
    then some ([], cs)
    else if c == b'\r'
    then (elim (after_return cs) [ none ↦ none | some rest ↦ some ([], rest) ])
    else elim line [ none ↦ none | some (l, rest) ↦ some (c ∷ l, rest) ]

-- Whether there is a carriage return or a line feed: bytes.IndexAny.
unfoldable pub has_break : List ℕ → Bool
has_break [] = false
has_break (c ∷ cs) = c == b'\n' || c == b'\r' || has_break cs

-- The lines that have ended are processed. Each takes a byte at least, so that the fuel suffices if
-- it is above the length of what is pending.
unfoldable pub drain : (fuel : ℕ) → List ℕ → Parser → Parser × List ℕ
unfolding take_line
drain zero pending p = (p, pending)
drain (suc fuel) pending p = elim (take_line pending) [
  | none ↦ (p, pending)
  | some (line, rest) ↦ drain fuel rest (process_line p line)
]

-- What Feed does when no further line has ended: an overlong line is cut.
unfoldable pub wait : Parser × List ℕ → Parser
unfolding has_break
wait (p, pending) =
    let limit = add64 p.max_event_bytes 64 in
    if not (has_break pending) && slt limit (length pending)
    then record p {
      truncated =
          p.truncated
          || bytes_eq (take 4 pending) (b'd' ∷ b'a' ∷ b't' ∷ b'a' ∷ [])
          || not (is_nil p.lines);
      pending = take limit pending;
    }
    else record p { pending = pending }

-- What is pending is taken out of the parser while its lines are processed, which do not look at it.
unfoldable pub feed : Parser → List ℕ → Parser
unfolding drain wait
feed p [] = p
feed p (b ∷ bs) =
    let pending = p.pending ++ b ∷ bs in
    wait (drain (suc (length pending)) pending (record p { pending = [] }))

abbrev pub ends_with_return : List ℕ → Bool
ends_with_return [] = false
ends_with_return (c ∷ []) = c == b'\r'
ends_with_return (c ∷ d ∷ cs) = ends_with_return (d ∷ cs)

unfoldable pub close : Parser → Parser
unfolding feed
close p =
    let fed = if ends_with_return p.pending then feed p (b'\n' ∷ []) else p in
    reset_event (record fed { pending = [] })

after_return-append :
    (q b rest : List ℕ) → after_return q ≡ some rest → after_return (q ++ b) ≡ some (rest ++ b)
unfolding after_return
after_return-append [] b rest h = cc
after_return-append (c ∷ cs) b rest h = ground arith

length-after_return : (q rest : List ℕ) → after_return q ≡ some rest → length rest ≤ length q
unfolding after_return
length-after_return [] rest h = cc
length-after_return (c ∷ cs) rest h = ground arith

-- The three ways in which a line is taken from a byte and what follows it.
data Taken (c : ℕ) (cs line rest : List ℕ) : Type 0 where
  at_feed : (c == b'\n') ≡ true → line ≡ [] → rest ≡ cs → Taken c cs line rest
  at_return :
      (c == b'\n') ≡ false
      → (c == b'\r') ≡ true
      → line ≡ []
      → after_return cs ≡ some rest
      → Taken c cs line rest
  later :
      (c == b'\n') ≡ false
      → (c == b'\r') ≡ false
      → (l : List ℕ) → line ≡ c ∷ l
      → take_line cs ≡ some (l, rest)
      → Taken c cs line rest

taken :
    (c : ℕ) (cs line rest : List ℕ) → take_line (c ∷ cs) ≡ some (line, rest) → Taken c cs line rest
unfolding take_line
taken c cs line rest h = elim (Bool-cases (c == b'\n')) [
  | inl n ↦ at_feed n (ground arith) (ground arith)
  | inr n ↦ elim (Bool-cases (c == b'\r')) [
    | inl r ↦ at_return n r (ground arith) (ground arith)
    | inr r ↦ elim (Option-cases (take_line cs)) [
      | inl e ↦ absurd (ground arith)
      | inr ((l, after), e) ↦ later n r l (ground arith) (ground arith)
    ]
  ]
]

-- A line that has ended is not changed by what follows.
pub take_line-append :
    (q b line rest : List ℕ)
    → take_line q ≡ some (line, rest)
    → take_line (q ++ b) ≡ some (line, rest ++ b)
unfolding take_line
take_line-append [] b line rest h = cc
take_line-append (c ∷ cs) b line rest h = elim (taken c cs line rest h) [
  | at_feed n e f ↦ rw (n, e, f) refl
  | at_return n r e f ↦ rw (n, r, e, after_return-append cs b rest f) refl
  | later n r l e f ↦ rw (n, r, e, take_line-append cs b l rest f) refl
]

-- A line takes a byte at least.
pub length-take_line :
    (q line rest : List ℕ) → take_line q ≡ some (line, rest) → length rest < length q
unfolding take_line
length-take_line [] line rest h = cc
length-take_line (c ∷ cs) line rest h = elim (taken c cs line rest h) [
  | at_feed n e f ↦ omega (arith, ap length f)
  | at_return n r e f ↦ omega (arith, length-after_return cs rest f)
  | later n r l e f ↦ omega (arith, length-take_line cs l rest f)
]
