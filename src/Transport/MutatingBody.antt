-- ===== src/Transport/MutatingBody.antt =====
-- internal/core/proxy/recovery_transport.go: a request body whose chunks the modules change while it
-- is sent.
use directive_proxy.Prelude.{
  Sum-cases, ℕ, zero, suc, ◌≡◌, ◌≢◌, refl, ap, sym, ◌∙◌, subst, Bool, true, false, Option, none,
  some, List, [], ◌∷◌, ◌++◌, ◌⊎◌, inl, inr, take, drop, take-append_drop, arith, if◌then◌else◌,
}
use mathlib.Core.List.{append_assoc}
use directive_proxy.Transport.{Error, eof}

-- One read of the source: the bytes that it gave, and the error that it gave with them.
abbrev pub SourceRead : Type 0
SourceRead = List ℕ × Option Error

-- The source is what its reads will give, and io.EOF after them.
pub record MutatingBody : Type 0 where
  pub source : List SourceRead
  pub pending : List ℕ
  pub terminal_err : Option Error
  pub closed : Bool

-- What the modules make of a chunk.
abbrev pub Mutate : Type 0
Mutate = List ℕ → Error ⊎ List ℕ

-- The error that stays when the source gave one too.
abbrev pub or_else : Option Error → Error → Option Error
or_else none e = some e
or_else (some f) e = some f

pub record Filled : Type 0 where
  pub source : List SourceRead
  pub pending : List ℕ
  pub terminal_err : Option Error

-- The loop of Read: reads until there are bytes or an error.
unfoldable pub fill : Mutate → List SourceRead → List ℕ → Option Error → Filled
fill mutate source (b ∷ bs) terminal = record {
  source = source;
  pending = b ∷ bs;
  terminal_err = terminal;
}
fill mutate source [] (some e) = record { source = source; pending = []; terminal_err = some e }
fill mutate [] [] none = record { source = []; pending = []; terminal_err = some eof }
fill mutate (([], err) ∷ source) [] none = fill mutate source [] err
fill mutate ((b ∷ bs, err) ∷ source) [] none = elim (mutate (b ∷ bs)) [
  | inl e ↦ fill mutate source [] (or_else err e)
  | inr changed ↦ fill mutate source changed err
]

-- What a read gives its caller.
pub record Reading : Type 0 where
  pub bytes : List ℕ
  pub err : Option Error
  pub after : MutatingBody

unfoldable pub give : ℕ → Filled → Reading
give size f = elim f.pending [
  | [] ↦ record {
    bytes = [];
    err = some (elim f.terminal_err [ none ↦ eof | some e ↦ e ]);
    after = record {
      source = f.source;
      pending = [];
      terminal_err = f.terminal_err;
      closed = true;
    };
  }
  | b ∷ bs ↦ record {
    bytes = take size (b ∷ bs);
    err = none;
    after = record {
      source = f.source;
      pending = drop size (b ∷ bs);
      terminal_err = f.terminal_err;
      closed = false;
    };
  }
]

-- Read into a target of a size.
unfoldable pub read : Mutate → MutatingBody → ℕ → Reading
unfolding fill give
read mutate b size =
    if b.closed then record { bytes = []; err = some eof; after = b } else elim size [
      | zero ↦ record { bytes = []; err = none; after = b }
      | suc n ↦ give (suc n) (fill mutate b.source b.pending b.terminal_err)
    ]

unfoldable pub close : MutatingBody → MutatingBody
close b = record b { closed = true }

-- All that a body still gives, and the error that it ends with: the chunks one after the other as the
-- modules change them, up to the first error of a mutation or of the source.
abbrev pub prepend : List ℕ → List ℕ × Error → List ℕ × Error
prepend bytes (rest, e) = (bytes ++ rest, e)

unfoldable pub whole : Mutate → List SourceRead → Option Error → List ℕ × Error
whole mutate source (some e) = ([], e)
whole mutate [] none = ([], eof)
whole mutate (([], err) ∷ source) none = whole mutate source err
whole mutate ((b ∷ bs, err) ∷ source) none = elim (mutate (b ∷ bs)) [
  | inl e ↦ whole mutate source (or_else err e)
  | inr changed ↦ prepend changed (whole mutate source err)
]

abbrev pub remaining : Mutate → MutatingBody → List ℕ × Error
remaining mutate b = prepend b.pending (whole mutate b.source b.terminal_err)

abbrev rest_of : Mutate → Filled → List ℕ × Error
rest_of mutate f = prepend f.pending (whole mutate f.source f.terminal_err)

module _ (mutate : Mutate) (b : ℕ) (bs : List ℕ) (err : Option Error)
    (source : List SourceRead) where
  fill_failed :
      {e : Error}
      → mutate (b ∷ bs) ≡ inl e
      → fill mutate ((b ∷ bs, err) ∷ source) [] none ≡ fill mutate source [] (or_else err e)
  unfolding fill
  fill_failed h = rw (h, fill) refl

  fill_changed :
      {changed : List ℕ}
      → mutate (b ∷ bs) ≡ inr changed
      → fill mutate ((b ∷ bs, err) ∷ source) [] none ≡ fill mutate source changed err
  unfolding fill
  fill_changed h = rw (h, fill) refl

  whole_failed :
      {e : Error}
      → mutate (b ∷ bs) ≡ inl e
      → whole mutate ((b ∷ bs, err) ∷ source) none ≡ whole mutate source (or_else err e)
  unfolding whole
  whole_failed h = rw (h, whole) refl

  whole_changed :
      {changed : List ℕ}
      → mutate (b ∷ bs) ≡ inr changed
      → whole mutate ((b ∷ bs, err) ∷ source) none ≡ prepend changed (whole mutate source err)
  unfolding whole
  whole_changed h = rw (h, whole) refl

-- The loop loses nothing of what the body still gives.
fill-whole :
    (mutate : Mutate) (source : List SourceRead) (pending : List ℕ) (terminal : Option Error)
    → let f = fill mutate source pending terminal in
      prepend f.pending (whole mutate f.source f.terminal_err)
      ≡ prepend pending (whole mutate source terminal)
unfolding fill whole
fill-whole mutate source (b ∷ bs) terminal = refl
fill-whole mutate source [] (some e) = refl
fill-whole mutate [] [] none = refl
fill-whole mutate (([], err) ∷ source) [] none = fill-whole mutate source [] err
fill-whole mutate ((b ∷ bs, err) ∷ source) [] none = elim (Sum-cases (mutate (b ∷ bs))) [
  | inl (e, h) ↦
      ap (rest_of mutate) (fill_failed mutate b bs err source h)
      ∙ fill-whole mutate source [] (or_else err e)
      ∙ sym (whole_failed mutate b bs err source h)
  | inr (changed, h) ↦
      ap (rest_of mutate) (fill_changed mutate b bs err source h)
      ∙ fill-whole mutate source changed err
      ∙ sym (whole_changed mutate b bs err source h)
]

abbrev Ended : Option Error → Type 0
Ended terminal = (e : Error) × (terminal ≡ some e)

-- Where the loop ends with no bytes, it ends with an error.
fill-Ended :
    (mutate : Mutate) (source : List SourceRead) (pending : List ℕ) (terminal : Option Error)
    → (fill mutate source pending terminal).pending ≡ []
    → Ended (fill mutate source pending terminal).terminal_err
unfolding fill
fill-Ended mutate source (b ∷ bs) terminal h = absurd (ground arith)
fill-Ended mutate source [] (some e) h = (e, refl)
fill-Ended mutate [] [] none h = (eof, refl)
fill-Ended mutate (([], err) ∷ source) [] none h = fill-Ended mutate source [] err h
fill-Ended mutate ((b ∷ bs, err) ∷ source) [] none h = elim (Sum-cases (mutate (b ∷ bs))) [
  | inl (e, k) ↦ rw (k, fill) (fill-Ended mutate source [] (or_else err e) (rw (k, fill) at h))
  | inr (changed, k) ↦ rw (k, fill) (fill-Ended mutate source changed err (rw (k, fill) at h))
]

-- A read gives some bytes, which with what then remains are what remained; or nothing remained, and it
-- gives the error that the body ends with, and the body is closed.
abbrev pub Gives : Mutate → List ℕ × Error → Reading → Type 0
Gives mutate before r =
    ((r.err ≡ none)
      × (r.bytes ≢ [])
      × (prepend r.bytes (remaining mutate r.after) ≡ before)
      × (r.after.closed ≡ false))
    ⊎ ((r.bytes ≡ []) × (r.err ≡ some before.1) × (before.0 ≡ []) × (r.after.closed ≡ true))

give-Gives :
    (mutate : Mutate) (n : ℕ) (source : List SourceRead) (pending : List ℕ)
    (terminal : Option Error)
    → (pending ≡ [] → Ended terminal)
    → Gives mutate
        (prepend pending (whole mutate source terminal))
        (give (suc n) (record { source = source; pending = pending; terminal_err = terminal }))
unfolding give whole
give-Gives mutate n source [] (some e) ends = inr (refl, refl, refl, refl)
give-Gives mutate n source [] none ends = let (e, h) = ends refl in absurd (ground arith)
give-Gives mutate n source (b ∷ bs) terminal ends = inl (refl, cons-ne-nil, again, refl)
  where
    rest : List ℕ × Error
    rest = whole mutate source terminal

    cons-ne-nil : b ∷ take n bs ≢ []
    cons-ne-nil h = cc

    again : prepend (b ∷ take n bs) (prepend (drop n bs) rest) ≡ prepend (b ∷ bs) rest
    again =
        ap (λ (ys : List ℕ). let p : List ℕ × Error = (b ∷ ys, rest.1) in p)
          (sym (append_assoc (take n bs) (drop n bs) rest.0)
            ∙ ap (λ ys. ys ++ rest.0) (take-append_drop n bs))

-- However its caller sizes the reads, and however the source cuts its chunks, an open body gives the
-- chunks one after the other as the modules change them, and then its one ending: each read with room
-- gives at least a byte of what remains and leaves the rest, or else nothing remains and it gives the
-- error and closes the body.
pub read-Gives :
    (mutate : Mutate) (b : MutatingBody) (n : ℕ)
    → b.closed ≡ false
    → Gives mutate (remaining mutate b) (read mutate b (suc n))
unfolding read
read-Gives mutate b n open_body =
    let f = fill mutate b.source b.pending b.terminal_err in
    rw open_body (
      subst (λ before. Gives mutate before (give (suc n) f))
        (fill-whole mutate b.source b.pending b.terminal_err)
        (give-Gives mutate n f.source f.pending f.terminal_err
          (fill-Ended mutate b.source b.pending b.terminal_err)))
