-- ===== src/Sse/Splits.antt =====
-- internal/core/sse/parser.go: the events do not depend on how the stream is cut into pieces.
use directive_proxy.Prelude.{
  ℕ, zero, suc, ◌+◌, ◌<◌, ◌≤◌, ◌≡◌, refl, ap, sym, ◌∙◌, false, none, some, List, [], ◌∷◌, ◌++◌,
  arith, add64, slt, length, length-append, Option-cases, if_cases, inl, inr,
}
use mathlib.Core.List.{append_assoc, append-nil}
use directive_proxy.Sse.{
  Parser, process_line, dispatch, reset_event, append_data, set_retry, set_field, process_field,
  process_trimmed, trim_mark, trim_space, cut,
}
use directive_proxy.Sse.Lines.{take_line, drain, wait, feed, take_line-append, length-take_line}

pub drain_stops :
    (f : ℕ) (q : List ℕ) (p : Parser) → take_line q ≡ none → drain (suc f) q p ≡ (p, q)
unfolding drain
drain_stops f q p e = rw (e, drain) refl

pub drain_goes_on :
    (f : ℕ) (q : List ℕ) (p : Parser) (line rest : List ℕ)
    → take_line q ≡ some (line, rest)
    → drain (suc f) q p ≡ drain f rest (process_line p line)
unfolding drain
drain_goes_on f q p line rest e = rw (e, drain) refl

-- Any fuel above the length gives the same.
pub drain_fuel :
    (f g : ℕ) (q : List ℕ) (p : Parser) → length q < f → length q < g → drain f q p ≡ drain g q p
drain_fuel zero g q p hf hg = absurd (omega arith)
drain_fuel (suc f) zero q p hf hg = absurd (omega arith)
drain_fuel (suc f) (suc g) q p hf hg = elim (Option-cases (take_line q)) [
  | inl e ↦ drain_stops f q p e ∙ sym (drain_stops g q p e)
  | inr ((line, rest), e) ↦
      let shorter = length-take_line q line rest e in
      drain_goes_on f q p line rest e
      ∙ drain_fuel f g rest (process_line p line) (omega arith) (omega arith)
      ∙ sym (drain_goes_on g q p line rest e)
]

-- What is drained with more behind it is what is drained first, and then the rest with the more.
pub drain-append :
    (f g h : ℕ) (q b : List ℕ) (p : Parser)
    → length q + length b < f
    → length q < g
    → length q + length b < h
    → drain f (q ++ b) p ≡ drain h ((drain g q p).1 ++ b) (drain g q p).0
drain-append f zero h q b p hf hg hh = absurd (omega arith)
drain-append zero (suc g) h q b p hf hg hh = absurd (omega arith)
drain-append (suc f) (suc g) h q b p hf hg hh = elim (Option-cases (take_line q)) [
  | inl e ↦ rw (drain_stops g q p e) (
      drain_fuel (suc f) h (q ++ b) p (omega (arith, length-append q b))
        (omega (arith, length-append q b)))
  | inr ((line, rest), e) ↦
      let shorter = length-take_line q line rest e in
      rw (drain_goes_on g q p line rest e) (
        drain_goes_on f (q ++ b) p line (rest ++ b) (take_line-append q b line rest e)
        ∙ drain-append f g h rest b (process_line p line) (omega arith) (omega arith) (omega arith))
]

drain_shrinks : (f : ℕ) (q : List ℕ) (p : Parser) → length (drain f q p).1 ≤ length q
drain_shrinks zero q p = unfold drain in omega arith
drain_shrinks (suc f) q p = elim (Option-cases (take_line q)) [
  | inl e ↦ rw (drain_stops f q p e) (omega arith)
  | inr ((line, rest), e) ↦
      let shorter = length-take_line q line rest e in
      rw (drain_goes_on f q p line rest e)
        (omega (arith, drain_shrinks f rest (process_line p line)))
]

dispatch-pending : (p : Parser) → (dispatch p).pending ≡ p.pending
unfolding dispatch reset_event
dispatch-pending p = ground arith

append_data-pending : (p : Parser) (v : List ℕ) → (append_data p v).pending ≡ p.pending
unfolding append_data
append_data-pending p v = ground arith

set_retry-pending : (p : Parser) (v : List ℕ) → (set_retry p v).pending ≡ p.pending
unfolding set_retry
set_retry-pending p v = ground arith

set_field-pending : (p : Parser) (f v : List ℕ) → (set_field p f v).pending ≡ p.pending
unfolding set_field
set_field-pending p f v = ground (arith, append_data-pending p v, set_retry-pending p v)

process_field-pending : (p : Parser) (l : List ℕ) → (process_field p l).pending ≡ p.pending
unfolding process_field
process_field-pending p l =
    let (field, value) = cut l in
    set_field-pending p field (elim value [ none ↦ [] | some v ↦ trim_space v ])

process_trimmed-pending : (p : Parser) (l : List ℕ) → (process_trimmed p l).pending ≡ p.pending
unfolding process_trimmed
process_trimmed-pending p [] = dispatch-pending p
process_trimmed-pending p (c ∷ cs) = ground (arith, process_field-pending p (c ∷ cs))

process_line-pending : (p : Parser) (l : List ℕ) → (process_line p l).pending ≡ p.pending
unfolding process_line
process_line-pending p l =
    if_cases (λ (q : Parser). q.pending ≡ p.pending) p.first_line
      (λ h. process_trimmed-pending (record p { first_line = false }) (trim_mark l))
      (λ h. process_trimmed-pending p l)

drain-pending : (f : ℕ) (q : List ℕ) (p : Parser) → (drain f q p).0.pending ≡ p.pending
unfolding drain
drain-pending zero q p = refl
drain-pending (suc f) q p = elim (Option-cases (take_line q)) [
  | inl e ↦ rw (e, drain) refl
  | inr ((line, rest), e) ↦
      rw (e, drain) (drain-pending f rest (process_line p line) ∙ process_line-pending p line)
]

-- What is left when the lines of some bytes are taken, by a parser with nothing pending.
abbrev pub left_over : Parser → List ℕ → Parser × List ℕ
left_over p q = drain (suc (length q)) q (record p { pending = [] })

-- A rest that is within the limit is kept whole.
abbrev pub WithinLimit : Parser × List ℕ → Type 0
WithinLimit (p, rest) = slt (add64 p.max_event_bytes 64) (length rest) ≡ false

wait_keeps : (r : Parser × List ℕ) → WithinLimit r → wait r ≡ record r.0 { pending = r.1 }
unfolding wait
wait_keeps (p, q) h = ground arith

emptied : (p : Parser) → p.pending ≡ [] → record p { pending = [] } ≡ p
emptied p e = ground arith

-- Two pieces that are not empty.
feed_two :
    (p : Parser) (a : ℕ) (as' : List ℕ) (b : ℕ) (bs : List ℕ)
    → WithinLimit (left_over p (p.pending ++ a ∷ as'))
    → feed p ((a ∷ as') ++ b ∷ bs) ≡ feed (feed p (a ∷ as')) (b ∷ bs)
unfolding feed
feed_two p a as' b bs h =
    let q = p.pending ++ a ∷ as' in
    let more = b ∷ bs in
    let p0 = record p { pending = [] } in
    let r = left_over p q in
    let fuel = suc (length (q ++ more)) in
    let shrinks = drain_shrinks (suc (length q)) q p0 in
    ap (λ z. wait (drain (suc (length z)) z p0)) (sym (append_assoc p.pending (a ∷ as') more))
    ∙ ap wait (
        drain-append fuel (suc (length q)) fuel q more p0 (omega (arith, length-append q more))
          (omega arith) (omega (arith, length-append q more))
        ∙ drain_fuel fuel (suc (length (r.1 ++ more))) (r.1 ++ more) r.0
            (omega (arith, length-append q more, length-append r.1 more)) (omega arith))
    ∙ ap (λ z. wait (drain (suc (length (r.1 ++ more))) (r.1 ++ more) z))
        (sym (emptied r.0 (drain-pending (suc (length q)) q p0)))
    ∙ ap (λ z. feed z more) (sym (wait_keeps r h))

-- A stream is cut into pieces anywhere, also inside a line, a line's end or a character: feeding a
-- piece and then another gives the same parser, with the same events and comments, as feeding both
-- at once, if the unfinished line that the first piece leaves is within the limit of 64 bytes above
-- the largest event.
pub feed-append :
    (p : Parser) (a b : List ℕ)
    → WithinLimit (left_over p (p.pending ++ a))
    → feed p (a ++ b) ≡ feed (feed p a) b
unfolding feed
feed-append p [] b h = refl
feed-append p (a ∷ as') [] h = ap (feed p) (append-nil (a ∷ as'))
feed-append p (a ∷ as') (b ∷ bs) h = feed_two p a as' b bs h

-- Feed takes all lines: its loop ends because no line that has ended is left.
pub drain_complete :
    (f : ℕ) (q : List ℕ) (p : Parser) → length q < f → take_line (drain f q p).1 ≡ none
drain_complete zero q p hf = absurd (omega arith)
drain_complete (suc f) q p hf = elim (Option-cases (take_line q)) [
  | inl e ↦ rw (drain_stops f q p e) e
  | inr ((line, rest), e) ↦
      let shorter = length-take_line q line rest e in
      rw (drain_goes_on f q p line rest e)
        (drain_complete f rest (process_line p line) (omega arith))
]
