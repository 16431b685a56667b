-- ===== src/BodyStore/Store/Chunks.antt =====
-- internal/core/bodystore/store.go, readAtLocked: the bytes at an offset of a list of chunks.
use mathlib.Core.List.{append-nil}
use directive_proxy.Prelude.{
  ℕ, ◌-◌, ◌==◌, ◌≡◌, List, [], ◌∷◌, ◌++◌, arith, length, length-take, take, drop, leb,
  if◌then◌else◌, true, false, Bool-cases, inl, inr, take-append, drop-append_lt, drop-append_le,
  take-nil, drop-nil,
}

abbrev pub flatten : List (List ℕ) → List ℕ
flatten [] = []
flatten (chunk ∷ chunks) = chunk ++ flatten chunks

-- The loop: chunks before the offset are passed over, and then copied until `room` bytes are there.
unfoldable pub read_at_locked : List (List ℕ) → (room offset : ℕ) → List ℕ
read_at_locked [] room offset = []
read_at_locked (chunk ∷ chunks) room offset =
    let skipped = read_at_locked chunks room (offset - length chunk) in
    let part = take room (drop offset chunk) in
    let more = read_at_locked chunks (room - length part) 0 in
    if leb (length chunk) offset
    then skipped
    else if length part == room
    then part
    else part ++ more

-- One chunk's copy and what is copied after it.
copy-split :
    (room : ℕ) (a ys : List ℕ)
    → (if length (take room a) == room
        then take room a
        else take room a ++ take (room - length (take room a)) ys)
      ≡ take room a ++ take (room - length a) ys
copy-split room a ys = elim (Bool-cases (leb room (length a))) [
  | inl full ↦
      let e : room - length a ≡ 0 = ground arith in
      let all : (length (take room a) == room) ≡ true = ground (arith, length-take room a) in
      rw (all, e) (rw append-nil)
  | inr short ↦
      let e : length (take room a) ≡ length a = ground (arith, length-take room a) in
      let part : (length a == room) ≡ false = ground arith in rw (e, part)
]

-- However a body is cut into chunks, readAtLocked copies the slice of the whole body at the
-- offset that fits the room.
pub read_at_locked-flatten :
    (chunks : List (List ℕ)) (room offset : ℕ)
    → read_at_locked chunks room offset ≡ take room (drop offset (flatten chunks))
unfolding read_at_locked
read_at_locked-flatten [] room offset = rw (drop-nil, take-nil)
read_at_locked-flatten (chunk ∷ chunks) room offset =
    elim (Bool-cases (leb (length chunk) offset)) [
      | inl past ↦ rw past (
          rw (drop-append_le offset chunk (flatten chunks) (ground arith))
            (read_at_locked-flatten chunks room (offset - length chunk)))
      | inr here ↦ rw here (
          rw (drop-append_lt offset chunk (flatten chunks) (ground arith)) (
            rw take-append (
              rw (read_at_locked-flatten chunks (room - length (take room (drop offset chunk))) 0)
                (copy-split room (drop offset chunk) (flatten chunks)))))
    ]
