-- ===== src/BodyStore/Store/Ingest.antt =====
-- internal/core/bodystore/store.go, ingest: the goroutine that reads the request's body into the
-- store. One iteration of its loop is a `turn`; what the source, the observer and the contexts
-- answer in it is given.
use directive_proxy.Prelude.{
  ℕ, ◌==◌, Bool, true, false, not, ◌&&◌, Option, none, some, String, List, [], ◌++◌, Int64, add64,
  slt, sle, length, if◌then◌else◌,
}
use directive_proxy.BodyStore.Admission.{
  ContextError, Error, eof, unexpected_eof, exceeds_declared_length, context_error, body_too_large,
  Controller,
}
use directive_proxy.BodyStore.Store.{
  Result, Store, finish, append, close_source, release_ref_locked,
}

pub record Turn : Type 0 where
  pub ctx_err : Option ContextError
  pub bytes : List ℕ
  pub chunk_err : Option Error
  pub read_err : Option Error
  pub ctx_err_after : Option ContextError

-- `hashed` is what the hasher was given. `stopped` is set when the loop has returned, with
-- terminalErr; the deferred function then finishes the store, and leaves it.
pub record Ingest : Type 0 where
  pub total : Int64
  pub hashed : List ℕ
  pub stopped : Option (Option Error)
  pub finished : Bool
  pub left : Bool

abbrev pub new_ingest : Ingest
new_ingest = record { total = 0; hashed = []; stopped = none; finished = false; left = false }

abbrev pub stop : Ingest → Option Error → Ingest
stop g e = record g { stopped = some e }

-- io.EOF ends the body, which then has its declared length or is cut short.
abbrev pub at_eof : Store → Ingest → Ingest
at_eof s g =
    if sle 0 s.expected && not (g.total == s.expected)
    then stop g (some unexpected_eof)
    else stop g none

-- What follows a chunk that is kept: the error of the read, or the context's in its place.
unfoldable pub after_read : Store → Ingest → Option Error → Option ContextError → Ingest
after_read s g none ctx_err = g
after_read s g (some eof) ctx_err = at_eof s g
after_read s g (some e) none = stop g (some e)
after_read s g (some e) (some c) = stop g (some (context_error c))

unfoldable pub keep_chunk : Store → Ingest → Turn → Store × Ingest
unfolding append after_read
keep_chunk s g t =
    let s' = append s t.bytes in
    let g' : Ingest = record g {
      total = add64 g.total (length t.bytes);
      hashed = g.hashed ++ t.bytes;
    } in
    (s', after_read s' g' t.read_err t.ctx_err_after)

-- The checks of a chunk that is not empty.
unfoldable pub check_chunk : Store → Ingest → Turn → Store × Ingest
unfolding keep_chunk
check_chunk s g t =
    let after = add64 g.total (length t.bytes) in
    if sle 0 s.expected && slt s.expected after
    then (s, stop g (some exceeds_declared_length))
    else if slt s.max_body after
    then (s, stop g (some body_too_large))
    else elim t.chunk_err [ some e ↦ (s, stop g (some e)) | none ↦ keep_chunk s g t ]

unfoldable pub turn : Store → Ingest → Turn → Store × Ingest
unfolding check_chunk after_read
turn s g t = elim t.ctx_err [
  | some c ↦ (s, stop g (some (context_error c)))
  | none ↦
      if length t.bytes == 0
      then (s, after_read s g t.read_err t.ctx_err_after)
      else check_chunk s g t
]

abbrev is_none : Option Error → Bool
is_none none = true
is_none (some e) = false

unfoldable pub result_of : (digest : List ℕ → String) → Ingest → Option Error → Result
result_of digest g err = record {
  total = g.total;
  sha256 = digest g.hashed;
  complete = is_none err;
  err = err;
}

-- The deferred function, up to s.finish.
unfoldable pub end_ingest : (digest : List ℕ → String) → Store → Ingest → Store × Ingest
unfolding finish result_of
end_ingest digest s g = elim g.stopped [
  | none ↦ (s, g)
  | some err ↦
      if g.finished
      then (s, g)
      else (finish s (result_of digest g err), record g { finished = true })
]

-- Its rest: the source is closed, and the goroutine's reference is dropped.
unfoldable pub leave_ingest : Controller → Store → Ingest → Controller × Store × Ingest
unfolding release_ref_locked close_source
leave_ingest c s g =
    if g.finished && not g.left
    then (let (c', s') = release_ref_locked c (record (close_source s) { ingesting = false }) in
        (c', s', record g { left = true }))
    else (c, s, g)
