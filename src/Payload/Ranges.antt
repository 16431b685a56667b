-- ===== src/Payload/Ranges.antt =====
-- pkg/directive/validate.go: what sorting the ranges of statuses keeps, and the order that it makes.
use directive_proxy.Prelude.{
  suc, ◌≡◌, refl, ap, ◌∙◌, Bool, true, ◌&&◌, ◌||◌, List, [], ◌∷◌, Int64, slt, sle, length, arith,
}
use directive_proxy.Transport.{StatusRange, matches}
use directive_proxy.Payload.{before, insert, sort_ranges}

-- A range of HTTP statuses.
unfoldable pub proper : StatusRange → Bool
proper r = sle 200 r.from && sle r.to 599 && sle r.from r.to

-- Two ranges, one after the other.
unfoldable pub apart : StatusRange → StatusRange → Bool
apart r q = slt r.to q.from || slt q.to r.from

unfoldable pub all_proper : List StatusRange → Bool
all_proper [] = true
all_proper (r ∷ rs) = proper r && all_proper rs

unfoldable pub apart_from : StatusRange → List StatusRange → Bool
unfolding apart
apart_from r [] = true
apart_from r (q ∷ qs) = apart r q && apart_from r qs

-- No status is in two ranges.
unfoldable pub disjoint : List StatusRange → Bool
unfolding apart_from
disjoint [] = true
disjoint (r ∷ rs) = apart_from r rs && disjoint rs

pub apart_comm : (r q : StatusRange) → apart r q ≡ apart q r
unfolding apart
apart_comm r q = ground arith

-- What sorting keeps.
apart_from-insert :
    (r q : StatusRange) (rs : List StatusRange)
    → apart_from r (insert q rs) ≡ (apart r q && apart_from r rs)
unfolding insert apart_from
apart_from-insert r q [] = refl
apart_from-insert r q (x ∷ rs) = ground (arith, apart_from-insert r q rs)

disjoint-insert :
    (q : StatusRange) (rs : List StatusRange)
    → disjoint (insert q rs) ≡ (apart_from q rs && disjoint rs)
unfolding insert disjoint
disjoint-insert q [] = refl
disjoint-insert q (x ∷ rs) =
    ground (arith, disjoint-insert q rs, apart_from-insert x q rs, apart_comm x q)

all_proper-insert :
    (q : StatusRange) (rs : List StatusRange)
    → all_proper (insert q rs) ≡ (proper q && all_proper rs)
unfolding insert all_proper
all_proper-insert q [] = refl
all_proper-insert q (x ∷ rs) = ground (arith, all_proper-insert q rs)

matches-insert :
    (status : Int64) (q : StatusRange) (rs : List StatusRange)
    → matches (insert q rs) status ≡ matches (q ∷ rs) status
unfolding insert matches
matches-insert status q [] = refl
matches-insert status q (x ∷ rs) = ground (arith, matches-insert status q rs)

pub apart_from-sort_ranges :
    (r : StatusRange) (rs : List StatusRange) → apart_from r (sort_ranges rs) ≡ apart_from r rs
unfolding sort_ranges apart_from
apart_from-sort_ranges r [] = refl
apart_from-sort_ranges r (q ∷ rs) =
    ground (arith, apart_from-insert r q (sort_ranges rs), apart_from-sort_ranges r rs)

pub disjoint-sort_ranges : (rs : List StatusRange) → disjoint (sort_ranges rs) ≡ disjoint rs
unfolding sort_ranges disjoint
disjoint-sort_ranges [] = refl
disjoint-sort_ranges (r ∷ rs) = ground (
  arith,
  disjoint-insert r (sort_ranges rs),
  apart_from-sort_ranges r rs,
  disjoint-sort_ranges rs,
)

pub all_proper-sort_ranges : (rs : List StatusRange) → all_proper (sort_ranges rs) ≡ all_proper rs
unfolding sort_ranges all_proper
all_proper-sort_ranges [] = refl
all_proper-sort_ranges (r ∷ rs) =
    ground (arith, all_proper-insert r (sort_ranges rs), all_proper-sort_ranges rs)

pub matches-sort_ranges :
    (status : Int64) (rs : List StatusRange) → matches (sort_ranges rs) status ≡ matches rs status
unfolding sort_ranges matches
matches-sort_ranges status [] = refl
matches-sort_ranges status (r ∷ rs) =
    ground (arith, matches-insert status r (sort_ranges rs), matches-sort_ranges status rs)

-- Ranges in the order of their first statuses.
unfoldable pub at_least : Int64 → List StatusRange → Bool
at_least n [] = true
at_least n (q ∷ qs) = sle n q.from && at_least n qs

unfoldable pub ordered : List StatusRange → Bool
unfolding at_least
ordered [] = true
ordered (r ∷ rs) = at_least r.from rs && ordered rs

at_least-insert :
    (n : Int64) (q : StatusRange) (rs : List StatusRange)
    → at_least n (insert q rs) ≡ (sle n q.from && at_least n rs)
unfolding insert at_least
at_least-insert n q [] = refl
at_least-insert n q (x ∷ rs) = ground (arith, at_least-insert n q rs)

at_least_trans :
    (m n : Int64) (rs : List StatusRange)
    → sle m n ≡ true
    → at_least n rs ≡ true
    → at_least m rs ≡ true
unfolding at_least
at_least_trans m n [] h a = refl
at_least_trans m n (x ∷ rs) h a = ground (arith, at_least_trans m n rs)

ordered-insert :
    (q : StatusRange) (rs : List StatusRange) → ordered rs ≡ true → ordered (insert q rs) ≡ true
unfolding insert ordered before
ordered-insert q [] h = refl
ordered-insert q (x ∷ rs) h =
    ground
      (arith, ordered-insert q rs, at_least-insert x.from q rs, at_least_trans q.from x.from rs)

pub ordered-sort_ranges : (rs : List StatusRange) → ordered (sort_ranges rs) ≡ true
unfolding sort_ranges ordered
ordered-sort_ranges [] = refl
ordered-sort_ranges (r ∷ rs) = ordered-insert r (sort_ranges rs) (ordered-sort_ranges rs)

length-insert : (q : StatusRange) (rs : List StatusRange) → length (insert q rs) ≡ suc (length rs)
unfolding insert
length-insert q [] = refl
length-insert q (x ∷ rs) = ground (arith, length-insert q rs)

pub length-sort_ranges : (rs : List StatusRange) → length (sort_ranges rs) ≡ length rs
unfolding sort_ranges
length-sort_ranges [] = refl
length-sort_ranges (r ∷ rs) = length-insert r (sort_ranges rs) ∙ ap suc (length-sort_ranges rs)
