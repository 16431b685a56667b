-- ===== src/BodyStore/Store/Body/Clients.antt =====
-- internal/core/bodystore/store.go, Reader: what a client has got is a prefix of what was read
-- from the source, and all of it when the reader has ended with io.EOF.
use native.Mathlib.Nat.{add-zero}
use mathlib.Core.List.{append-nil}
use directive_proxy.Prelude.{
  ℕ, ◌+◌, ◌≤◌, ◌<◌, ◌≡◌, ap, subst, ◌∙◌, true, false, not, Option, none, some, String, List, ◌++◌,
  arith, length, length-append, length-take, length-drop, take, drop, take_all, take-extend,
  take-append_le, add64, slt, if_cases, ◌==◌,
}
use directive_proxy.BodyStore.Admission.{
  ContextError, Error, eof, context_error, Reservation, Controller,
}
use directive_proxy.BodyStore.Store.{Store}
use directive_proxy.BodyStore.Store.Chunks.{read_at_locked, read_at_locked-flatten}
use directive_proxy.BodyStore.Store.Reader.{
  Reader, got, failed, waits, Reading, read, close_with, at_end, end_error,
}
use directive_proxy.BodyStore.Store.Ingest.{Ingest}
use directive_proxy.BodyStore.Store.Body.{Client, received_by}
use directive_proxy.BodyStore.Store.Body.Invariant.{one_if, Mirrors, StoreInv, release-StoreInv}

-- What the goroutine has done, as far as the clients depend on it.
abbrev pub EofOk : (hashed : List ℕ) → Option (Option Error) → List ℕ → Option Error → Type 0
EofOk hashed stopped received (some eof) = (received ≡ hashed) × (stopped ≡ some none)
EofOk hashed stopped received _ = Unit

pub record ClientOk (hashed : List ℕ) (stopped : Option (Option Error)) (k : Client) : Type 0 where
  pub in_range : k.reader.offset ≤ length hashed
  pub prefix : k.received ≡ take k.reader.offset hashed
  pub at_eof : EofOk hashed stopped k.received k.last

-- The goroutine has not stopped with io.EOF as its error.
abbrev pub Honest : Option (Option Error) → Type 0
Honest (some (some eof)) = ⊥
Honest _ = Unit

-- A source that goes on appends to what was read.
pub ClientOk-append :
    (hashed bytes : List ℕ) (stopped : Option (Option Error)) {k : Client}
    → ClientOk hashed none k
    → ClientOk (hashed ++ bytes) stopped k
ClientOk-append hashed bytes stopped {k} v = record {
  in_range = omega (arith, length-append hashed bytes, v.in_range);
  prefix = rw (take-append_le k.reader.offset hashed bytes v.in_range) v.prefix;
  at_eof = not_ended k.last v.at_eof;
}
  where
    not_ended :
        (e : Option Error)
        → EofOk hashed none k.received e
        → EofOk (hashed ++ bytes) stopped k.received e
    not_ended none h = tt
    not_ended (some eof) h = cc
    not_ended (some _) h = tt

EofOk-end_error :
    (hashed : List ℕ) (stopped : Option (Option Error)) (received : List ℕ) (err : Option Error)
    → Honest stopped
    → stopped ≡ some err
    → received ≡ hashed
    → EofOk hashed stopped received (some (end_error err))
EofOk-end_error hashed stopped received none h e all = (all, e)
EofOk-end_error hashed stopped received (some eof) h e all = absurd (subst Honest e h)
EofOk-end_error hashed stopped received (some _) h e all = tt

abbrev pub open_of : Reader → ℕ
open_of r = one_if (not r.closed)

-- A read keeps the store and its client in step.
pub record ReadOk (digest : List ℕ → String) (r : Reservation) (others : ℕ) (g : Ingest)
    (k : Client) (out : Reading) : Type 0 where
  pub store : StoreInv digest r (others + open_of out.reader) out.store g
  pub client :
      ClientOk g.hashed g.stopped (received_by (record k { reader = out.reader }) out.outcome)

module _ (digest : List ℕ → String) (r : Reservation) (others : ℕ) (s : Store) (g : Ingest)
    (c : Controller) (k : Client) where
  abbrev Goal : Reading → Type 0
  Goal = ReadOk digest r others g k

  -- An open reader's store has given up nothing.
  holds-Mirrors :
      k.reader.closed ≡ false → StoreInv digest r (others + open_of k.reader) s g → Mirrors r s g
  holds-Mirrors live v = ground arith

  fail_with-ReadOk :
      (e : Error)
      → k.reader.closed ≡ false
      → EofOk g.hashed g.stopped k.received (some e)
      → StoreInv digest r (others + open_of k.reader) s g
      → ClientOk g.hashed g.stopped k
      → Goal (close_with c s k.reader (failed e))
  unfolding close_with
  fail_with-ReadOk e live ended v w =
      if_cases Goal k.reader.closed (λ shut. cc)
        (λ _. record {
          store =
              rw add-zero
                (release-StoreInv c (subst (λ n. StoreInv digest r n s g) (ground arith) v));
          client = record { in_range = w.in_range; prefix = w.prefix; at_eof = ended };
        })

  at_end-ReadOk :
      (ctx_err : Option ContextError)
      → k.reader.closed ≡ false
      → slt k.reader.offset s.size ≡ false
      → Honest g.stopped
      → StoreInv digest r (others + open_of k.reader) s g
      → ClientOk g.hashed g.stopped k
      → Goal (at_end c s k.reader ctx_err)
  unfolding at_end
  at_end-ReadOk ctx_err live past honest v w =
      if_cases Goal s.complete
        (λ done.
          fail_with-ReadOk (end_error s.result.err) live
            (EofOk-end_error g.hashed g.stopped k.received s.result.err honest (reports done)
              all_read)
            v w)
        (λ more. stays ctx_err)
    where
      m : Mirrors r s g
      m = holds-Mirrors live v

      all_read : k.received ≡ g.hashed
      all_read = w.prefix ∙ take_all k.reader.offset g.hashed (ground arith)

      reports : s.complete ≡ true → g.stopped ≡ some s.result.err
      reports done = ground arith

      stays :
          (e : Option ContextError)
          → Goal (elim e [
            | some e ↦ close_with c s k.reader (failed (context_error e))
            | none ↦ record { controller = c; store = s; reader = k.reader; outcome = waits }
          ])
      stays none = record { store = v; client = w }
      stays (some e) = fail_with-ReadOk (context_error e) live tt v w

  copied-ReadOk :
      (room : ℕ)
      → k.reader.closed ≡ false
      → slt k.reader.offset s.size ≡ true
      → StoreInv digest r (others + open_of k.reader) s g
      → ClientOk g.hashed g.stopped k
      → let bytes = read_at_locked s.chunks room k.reader.offset in
        Goal (record {
          controller = c;
          store = s;
          reader = record {
            offset = add64 k.reader.offset (length bytes);
            closed = k.reader.closed;
          };
          outcome = got bytes;
        })
  copied-ReadOk room live within v w = record {
    store = v;
    client = record {
      in_range = rw (new_offset, bytes_eq) range;
      prefix =
          rw (new_offset, bytes_eq)
            (rw w.prefix (take-extend k.reader.offset room g.hashed w.in_range));
      at_eof = not_yet k.last w.at_eof;
    };
  }
    where
      m : Mirrors r s g
      m = holds-Mirrors live v

      bytes_eq :
          read_at_locked s.chunks room k.reader.offset ≡ take room (drop k.reader.offset g.hashed)
      bytes_eq = rw (read_at_locked-flatten s.chunks room k.reader.offset, m.same_bytes)

      size_natural : length g.hashed < 9223372036854775808
      size_natural = omega (arith, v.total, v.within, v.small)

      range : k.reader.offset + length (take room (drop k.reader.offset g.hashed)) ≤ length g.hashed
      range = omega (
        arith,
        length-take room (drop k.reader.offset g.hashed),
        length-drop k.reader.offset g.hashed,
        w.in_range,
      )

      new_offset :
          add64 k.reader.offset (length (read_at_locked s.chunks room k.reader.offset))
          ≡ k.reader.offset + length (read_at_locked s.chunks room k.reader.offset)
      new_offset = rw bytes_eq (omega (arith, range, size_natural))

      short : length k.received < length g.hashed
      short = ground (
        arith,
        m.same_size,
        ap (length {A = ℕ}) w.prefix,
        length-take k.reader.offset g.hashed,
        w.in_range,
        size_natural,
      )

      not_yet :
          (e : Option Error)
          → EofOk g.hashed g.stopped k.received e
          → EofOk g.hashed g.stopped (k.received ++ read_at_locked s.chunks room k.reader.offset) e
      not_yet none h = tt
      not_yet (some eof) h = absurd (omega (arith, short, ap (length {A = ℕ}) h.0))
      not_yet (some _) h = tt

  pub read-ReadOk :
      (room : ℕ) (ctx_err : Option ContextError)
      → Honest g.stopped
      → StoreInv digest r (others + open_of k.reader) s g
      → ClientOk g.hashed g.stopped k
      → Goal (read c s k.reader room ctx_err)
  unfolding read
  read-ReadOk room ctx_err honest v w =
      if_cases Goal k.reader.closed
        (λ shut. record {
          store = v;
          client = record { in_range = w.in_range; prefix = w.prefix; at_eof = tt };
        })
        (λ live.
          if_cases Goal (room == 0)
            (λ none_asked. record {
              store = v;
              client = record {
                in_range = w.in_range;
                prefix = rw append-nil w.prefix;
                at_eof = rw append-nil w.at_eof;
              };
            })
            (λ asked.
              if_cases Goal (slt k.reader.offset s.size) (λ within. copied-ReadOk _ live within v w)
                (λ past. at_end-ReadOk ctx_err live past honest v w)))

  abbrev pub CloseOk : Reading → Type 0
  CloseOk out =
      StoreInv digest r (others + open_of out.reader) out.store g
      × ClientOk g.hashed g.stopped (record k { reader = out.reader })

  pub close_with-CloseOk :
      StoreInv digest r (others + open_of k.reader) s g
      → ClientOk g.hashed g.stopped k
      → CloseOk (close_with c s k.reader waits)
  unfolding close_with
  close_with-CloseOk v w =
      if_cases CloseOk k.reader.closed (λ shut. (v, w))
        (λ live. (
          rw add-zero (release-StoreInv c (subst (λ n. StoreInv digest r n s g) (ground arith) v)),
          record { in_range = w.in_range; prefix = w.prefix; at_eof = w.at_eof },
        ))
