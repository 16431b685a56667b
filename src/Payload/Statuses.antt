-- ===== src/Payload/Statuses.antt =====
-- pkg/directive/validate.go: the expected statuses of a recovery, in ascending order.
use directive_proxy.Prelude.{
  ℕ, suc, ◌==◌, ◌≡◌, refl, ◌∙◌, Bool, true, false, Bool-cases, not, ◌&&◌, Option, none, some, List,
  [], ◌∷◌, Int64, slt, sle, length, if◌then◌else◌, arith, inl, inr,
}
use directive_proxy.Transport.{StatusRange, matches}
use directive_proxy.Payload.{
  before, insert, sort_ranges, valid_ranges, UnexpectedStatus, normalize_capture, normalize_status,
  max_recovery_capture_body_bytes,
}
use directive_proxy.Payload.Ranges.{
  proper, apart, all_proper, apart_from, disjoint, at_least, ordered, length-sort_ranges,
  disjoint-sort_ranges, all_proper-sort_ranges, matches-sort_ranges, ordered-sort_ranges,
}

unfoldable all_after : Int64 → List StatusRange → Bool
all_after n [] = true
all_after n (q ∷ qs) = slt n q.from && all_after n qs

all_after-at_least :
    (m n : Int64) (rs : List StatusRange)
    → slt m n ≡ true
    → at_least n rs ≡ true
    → all_after m rs ≡ true
unfolding all_after at_least
all_after-at_least m n [] h a = refl
all_after-at_least m n (q ∷ rs) h a = ground (arith, all_after-at_least m n rs)

-- In ascending order, two ranges are apart if the second starts after the first.
apart_from-ordered :
    (r : StatusRange) (rs : List StatusRange)
    → proper r ≡ true
    → all_proper rs ≡ true
    → at_least r.from rs ≡ true
    → apart_from r rs ≡ all_after r.to rs
unfolding apart_from all_proper at_least all_after proper apart
apart_from-ordered r [] p ps a = refl
apart_from-ordered r (q ∷ rs) p ps a = ground (arith, apart_from-ordered r rs)

valid_ranges-suc :
    (n : ℕ) (last_to : Int64) (rs : List StatusRange)
    → ordered rs ≡ true
    → valid_ranges (suc n) last_to rs ≡ (all_after last_to rs && (all_proper rs && disjoint rs))
unfolding valid_ranges all_after all_proper disjoint ordered proper
valid_ranges-suc n last_to [] o = refl
valid_ranges-suc n last_to (q ∷ rs) o = ground (
  arith,
  valid_ranges-suc (suc n) q.to rs,
  apart_from-ordered q rs,
  all_after-at_least last_to q.from rs,
)

valid_ranges_lem :
    (rs : List StatusRange)
    → ordered rs ≡ true
    → valid_ranges 0 0 rs ≡ (all_proper rs && disjoint rs)
unfolding valid_ranges all_proper disjoint ordered proper
valid_ranges_lem [] o = refl
valid_ranges_lem (q ∷ rs) o = ground (arith, valid_ranges-suc 0 q.to rs, apart_from-ordered q rs)

valid_ranges-sort_ranges :
    (rs : List StatusRange) → valid_ranges 0 0 (sort_ranges rs) ≡ (all_proper rs && disjoint rs)
valid_ranges-sort_ranges rs =
    valid_ranges_lem (sort_ranges rs) (ordered-sort_ranges rs)
    ∙ rw (all_proper-sort_ranges rs, disjoint-sort_ranges rs)

-- Whether a trigger is accepted, in the order in which it was written.
unfoldable pub acceptable : UnexpectedStatus → Bool
unfolding normalize_capture
acceptable s =
    let n = normalize_capture s.capture_body_bytes in
    not (length s.expected == 0)
    && (all_proper s.expected && disjoint s.expected)
    && (sle 1 n && sle n max_recovery_capture_body_bytes)

unfoldable normalized : UnexpectedStatus → UnexpectedStatus
normalized s = record {
  expected = sort_ranges s.expected;
  capture_body_bytes = normalize_capture s.capture_body_bytes;
}

normalize_status_lem :
    (s : UnexpectedStatus)
    → normalize_status s ≡ (if acceptable s then some (normalized s) else none)
unfolding normalize_status acceptable normalized
normalize_status_lem s = ground (arith, valid_ranges-sort_ranges s.expected)

-- What normalizeRecovery makes of a trigger.
abbrev pub Normalizes : UnexpectedStatus → Option UnexpectedStatus → Type 0
Normalizes s none = acceptable s ≡ false
Normalizes s (some t) =
    (acceptable s ≡ true)
    × (ordered t.expected ≡ true)
    × ((status : Int64) → matches t.expected status ≡ matches s.expected status)
    × (t.capture_body_bytes ≡ (if s.capture_body_bytes == 0 then 65536 else s.capture_body_bytes))
    × (normalize_status t ≡ some t)

insert-after :
    (r : StatusRange) (rs : List StatusRange)
    → proper r ≡ true
    → all_after r.to rs ≡ true
    → insert r rs ≡ r ∷ rs
unfolding insert before all_after proper
insert-after r [] p a = refl
insert-after r (q ∷ rs) p a = ground arith

sort_ranges-disjoint :
    (rs : List StatusRange)
    → ordered rs ≡ true
    → all_proper rs ≡ true
    → disjoint rs ≡ true
    → sort_ranges rs ≡ rs
unfolding sort_ranges ordered all_proper disjoint
sort_ranges-disjoint [] o p d = refl
sort_ranges-disjoint (r ∷ rs) o p d =
    ground (arith, sort_ranges-disjoint rs, insert-after r rs, apart_from-ordered r rs)

normalize_capture-twice :
    (n : Int64) → normalize_capture (normalize_capture n) ≡ normalize_capture n
unfolding normalize_capture
normalize_capture-twice n = ground arith

acceptable-normalized : (s : UnexpectedStatus) → acceptable (normalized s) ≡ acceptable s
unfolding acceptable normalized
acceptable-normalized s = rw (
  length-sort_ranges s.expected,
  all_proper-sort_ranges s.expected,
  disjoint-sort_ranges s.expected,
  normalize_capture-twice s.capture_body_bytes,
)

-- The ranges of an accepted trigger.
disjoint_expected :
    (s : UnexpectedStatus)
    → acceptable s ≡ true
    → (all_proper s.expected ≡ true) × (disjoint s.expected ≡ true)
unfolding acceptable
disjoint_expected s h = ground arith

sort_ranges-twice :
    (rs : List StatusRange)
    → all_proper rs ≡ true
    → disjoint rs ≡ true
    → sort_ranges (sort_ranges rs) ≡ sort_ranges rs
sort_ranges-twice rs p d =
    sort_ranges-disjoint (sort_ranges rs) (ordered-sort_ranges rs) (all_proper-sort_ranges rs ∙ p)
      (disjoint-sort_ranges rs ∙ d)

normalized-twice :
    (s : UnexpectedStatus) → acceptable s ≡ true → normalized (normalized s) ≡ normalized s
unfolding normalized
normalized-twice s h =
    let (p, d) = disjoint_expected s h in
    rw (sort_ranges-twice s.expected p d, normalize_capture-twice s.capture_body_bytes)

normalize_status-twice :
    (s : UnexpectedStatus)
    → acceptable s ≡ true
    → normalize_status (normalized s) ≡ some (normalized s)
normalize_status-twice s h =
    rw (normalize_status_lem (normalized s), acceptable-normalized s, h, normalized-twice s h)

normalized-Normalizes :
    (s : UnexpectedStatus) → acceptable s ≡ true → Normalizes s (some (normalized s))
unfolding normalized normalize_capture
normalized-Normalizes s h = (
  h,
  ordered-sort_ranges s.expected,
  (λ status. matches-sort_ranges status s.expected),
  refl,
  normalize_status-twice s h,
)

-- Unexpected statuses, in one statement. normalizeRecovery rejects the trigger exactly when it has no
-- range, when a range is not one of 200 to 599, when two ranges overlap, whatever their order, or when
-- the bytes to capture are out of their bounds. Else the ranges are in ascending order, every status is
-- expected as it was before, a missing number of bytes is the default, and normalizing the result
-- again changes nothing.
pub normalize_status-Normalizes : (s : UnexpectedStatus) → Normalizes s (normalize_status s)
normalize_status-Normalizes s = elim (Bool-cases (acceptable s)) [
  | inl h ↦ rw (normalize_status_lem s, h) (normalized-Normalizes s h)
  | inr h ↦ rw (normalize_status_lem s, h) h
]
