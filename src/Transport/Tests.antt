-- ===== src/Transport/Tests.antt =====
-- internal/core/proxy/recovery_transport.go: the theorems at concrete inputs, and runs of the code.
use directive_proxy.Prelude.{
  zero, suc, ◌≡◌, refl, true, false, none, some, [], ◌∷◌, ◌++◌, inl, inr, arith,
}
use directive_proxy.Transport.{eof, foreign, Response, capture_recovery_response, matches}
use directive_proxy.Transport.Capture.{Captures, capture-Captures}
use directive_proxy.Transport.MutatingBody.{
  MutatingBody, Mutate, Gives, remaining, read, read-Gives,
}
use directive_proxy.Transport.MutatingBody

abbrev response : Response
response = record {
  status = 503;
  content_length = 18446744073709551615;
  body = record { content = 1 ∷ 2 ∷ 3 ∷ []; ending = eof };
}

capture-Captures_example : Captures response 2 (capture_recovery_response response 2)
capture-Captures_example = capture-Captures response 2 (omega arith) (omega arith) (omega arith)

unexpected : matches (record { from = 200; to = 299 } ∷ []) 503 ≡ true
unfolding matches
unexpected = refl

-- Modules that double each chunk, and refuse one that begins with a zero.
abbrev doubles : Mutate
doubles [] = inr []
doubles (zero ∷ bs) = inl (foreign 7)
doubles (suc b ∷ bs) = inr ((suc b ∷ bs) ++ suc b ∷ bs)

abbrev body : MutatingBody
body = record {
  source = (1 ∷ 2 ∷ [], none) ∷ (3 ∷ [], none) ∷ [];
  pending = [];
  terminal_err = none;
  closed = false;
}

read-Gives_example : Gives doubles (remaining doubles body) (read doubles body (suc 2))
read-Gives_example = read-Gives doubles body 2 refl

first_read : (read doubles body 3).bytes ≡ 1 ∷ 2 ∷ 1 ∷ []
unfolding read
first_read = refl

-- A refused chunk that came together with io.EOF ends the body as if it were whole.
error_lost : remaining doubles (record body { source = (0 ∷ [], some eof) ∷ [] }) ≡ ([], eof)
unfolding MutatingBody.whole
error_lost = refl
