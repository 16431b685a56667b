-- ===== src/Program/Calls/Failures.antt =====
-- internal/core/program/scope.go, mountedInstance.call and finish: what the interleaved calls of a
-- module do once one has failed.
use directive_proxy.Prelude.{
  ℕ, ◌+◌, ◌==◌, ◌≡◌, refl, sym, ◌∙◌, ap, subst, Bool, true, false, ◌||◌, List, [], ◌∷◌, ◌++◌,
  if◌then◌else◌, if_cases, arith,
}
use mathlib.Core.List.{append_assoc, append-nil}
use directive_proxy.Program.Scope.{Outcome, returned, failed_with, panicked_with, update}
use directive_proxy.Program.Calls.{
  Stage, outside, let_through, handler_failed, flag_stored, in_finish, finish_raised, Mark,
  turned_away, passes, stores, tells, enters_finish, ran, finish_ran, Instance, Move, loads_flag,
  stores_flag, tells_health, begins_finish, runs_handler, ends_finish, to, after_run, after_finish,
  load_flag, run_handler, store_flag, tell_health, begin_finish, end_finish, move, moves,
  new_instance,
}

abbrev pub fails : Outcome → ℕ
fails returned = 0
fails (failed_with e) = 1
fails (panicked_with e) = 1

-- One mark, as goroutine g has a part in it: 1 or 0.
abbrev pub of : ℕ → ℕ → ℕ → ℕ
of g h n = if h == g then n else 0

abbrev pub passed_mark : ℕ → Mark → ℕ
passed_mark g (passes h) = of g h 1
passed_mark g _ = 0

abbrev pub ran_mark : ℕ → Mark → ℕ
ran_mark g (ran h o) = of g h 1
ran_mark g _ = 0

abbrev pub told_mark : ℕ → Mark → ℕ
told_mark g (tells h) = of g h 1
told_mark g _ = 0

-- A failure of a handler or of Finish.
abbrev pub failure_mark : ℕ → Mark → ℕ
failure_mark g (ran h o) = of g h (fails o)
failure_mark g (finish_ran h o) = of g h (fails o)
failure_mark g _ = 0

-- The number of the marks of one kind.
unfoldable pub count : (Mark → ℕ) → List Mark → ℕ
count f [] = 0
count f (k ∷ ks) = f k + count f ks

count-snoc : (f : Mark → ℕ) (ks : List Mark) (k : Mark) → count f (ks ++ k ∷ []) ≡ count f ks + f k
unfolding count
count-snoc f [] k = omega arith
count-snoc f (x ∷ ks) k = ground (arith, count-snoc f ks k)

abbrev is_store : Mark → Bool
is_store (stores g) = true
is_store _ = false

-- The flag was stored.
unfoldable pub stored : List Mark → Bool
stored [] = false
stored (k ∷ ks) = is_store k || stored ks

stored-snoc : (ks : List Mark) (k : Mark) → stored (ks ++ k ∷ []) ≡ stored ks || is_store k
unfolding stored
stored-snoc [] k = ground arith
stored-snoc (x ∷ ks) k = ground (arith, stored-snoc ks k)

-- A call is let through before the flag was stored, and turned away after it.
abbrev pub Fits : List Mark → Mark → Type 0
Fits before (passes g) = stored before ≡ false
Fits before (turned_away g) = stored before ≡ true
Fits before _ = Unit

abbrev pub InTime : List Mark → List Mark → Type 0
InTime before [] = Unit
InTime before (k ∷ ks) = Fits before k × InTime (before ++ k ∷ []) ks

InTime-snoc :
    (before ks : List Mark) (k : Mark)
    → InTime before ks
    → Fits (before ++ ks) k
    → InTime before (ks ++ k ∷ [])
InTime-snoc before [] k q f = (subst (λ ks. Fits ks k) (append-nil before) f, tt)
InTime-snoc before (x ∷ ks) k q f = (
  q.0,
  InTime-snoc (before ++ x ∷ []) ks k q.1
      (subst (λ zs. Fits zs k) (sym (append_assoc before (x ∷ []) ks)) f),
)

-- A handler that was let through and has not yet run; a failure that was not yet told.
abbrev pub to_run : Stage → ℕ
to_run let_through = 1
to_run _ = 0

abbrev pub to_tell : Stage → ℕ
to_tell handler_failed = 1
to_tell flag_stored = 1
to_tell finish_raised = 1
to_tell _ = 0

pub record Orderly (m : Instance) : Type 0 where
  pub flag : m.failed ≡ stored m.marks
  pub in_time : InTime [] m.marks
  pub run_once :
      (g : ℕ) → count (passed_mark g) m.marks ≡ count (ran_mark g) m.marks + to_run (m.stage g)
  pub all_told :
      (g : ℕ) → count (failure_mark g) m.marks ≡ count (told_mark g) m.marks + to_tell (m.stage g)

-- A step, by its mark and by the stages before it and after it.
record Marked (m : Instance) (g : ℕ) (s : Stage) (k : Mark) (flag : Bool) : Type 0 where
  fits : Fits m.marks k
  flag_kept : flag ≡ m.failed || is_store k
  runs : (j : ℕ) → passed_mark j k + of j g (to_run (m.stage g)) ≡ ran_mark j k + of j g (to_run s)
  told :
      (j : ℕ) → failure_mark j k + of j g (to_tell (m.stage g)) ≡ told_mark j k + of j g (to_tell s)

to-Orderly :
    (m : Instance) (g : ℕ) (s : Stage) (k : Mark) (flag : Bool)
    → Orderly m
    → Marked m g s k flag
    → Orderly (to (record m { failed = flag }) g s k)
to-Orderly m g s k flag v e = record {
  flag = e.flag_kept ∙ ap (λ b. b || is_store k) v.flag ∙ sym (stored-snoc m.marks k);
  in_time = InTime-snoc [] m.marks k v.in_time e.fits;
  run_once = λ j. balanced (passed_mark j) (ran_mark j) to_run m g j s k (v.run_once j) (e.runs j);
  all_told =
      λ j. balanced (failure_mark j) (told_mark j) to_tell m g j s k (v.all_told j) (e.told j);
}
  where
    balanced :
        (f h : Mark → ℕ) (due : Stage → ℕ) (m : Instance) (g j : ℕ) (s : Stage) (k : Mark)
        → count f m.marks ≡ count h m.marks + due (m.stage j)
        → f k + of j g (due (m.stage g)) ≡ h k + of j g (due s)
        → count f (m.marks ++ k ∷ []) ≡ count h (m.marks ++ k ∷ []) + due (update g s m.stage j)
    balanced f h due m g j s k v e = ground (arith, count-snoc f m.marks k, count-snoc h m.marks k)

to_run-after_run : (o : Outcome) → to_run (after_run o) ≡ 0
to_run-after_run returned = refl
to_run-after_run (failed_with e) = refl
to_run-after_run (panicked_with e) = refl

to_tell-after_run : (o : Outcome) → to_tell (after_run o) ≡ fails o
to_tell-after_run returned = refl
to_tell-after_run (failed_with e) = refl
to_tell-after_run (panicked_with e) = refl

to_run-after_finish : (o : Outcome) → to_run (after_finish o) ≡ 0
to_run-after_finish returned = refl
to_run-after_finish (failed_with e) = refl
to_run-after_finish (panicked_with e) = refl

to_tell-after_finish : (o : Outcome) → to_tell (after_finish o) ≡ fails o
to_tell-after_finish returned = refl
to_tell-after_finish (failed_with e) = refl
to_tell-after_finish (panicked_with e) = refl

-- The kinds of steps.
load_flag-Orderly :
    (m : Instance) (g : ℕ) (s : Stage) → m.stage g ≡ s → Orderly m → Orderly (load_flag m g s)
unfolding load_flag
load_flag-Orderly m g outside e v =
    if_cases (λ t. Orderly t) m.failed
      (λ f. to-Orderly m g outside (turned_away g) m.failed v (record {
        fits = sym v.flag ∙ f;
        flag_kept = ground arith;
        runs = λ j. rw e refl;
        told = λ j. rw e refl;
      }))
      (λ f. to-Orderly m g let_through (passes g) m.failed v (record {
        fits = sym v.flag ∙ f;
        flag_kept = ground arith;
        runs = λ j. rw e (ground arith);
        told = λ j. rw e refl;
      }))
load_flag-Orderly m g _ e v = v

run_handler-Orderly :
    (m : Instance) (g : ℕ) (o : Outcome) (s : Stage)
    → m.stage g ≡ s
    → Orderly m
    → Orderly (run_handler m g o s)
unfolding run_handler
run_handler-Orderly m g o let_through e v =
    to-Orderly m g (after_run o) (ran g o) m.failed v (record {
      fits = tt;
      flag_kept = ground arith;
      runs = λ j. rw (e, to_run-after_run o) (ground arith);
      told = λ j. rw (e, to_tell-after_run o) (ground arith);
    })
run_handler-Orderly m g o _ e v = v

store_flag-Orderly :
    (m : Instance) (g : ℕ) (s : Stage) → m.stage g ≡ s → Orderly m → Orderly (store_flag m g s)
unfolding store_flag
store_flag-Orderly m g handler_failed e v =
    to-Orderly m g flag_stored (stores g) true v
      (record { fits = tt; flag_kept = ground arith; runs = λ j. rw e refl; told = λ j. rw e refl })
store_flag-Orderly m g _ e v = v

tell_health-Orderly :
    (m : Instance) (g : ℕ) (s : Stage) → m.stage g ≡ s → Orderly m → Orderly (tell_health m g s)
unfolding tell_health
tell_health-Orderly m g flag_stored e v = to-Orderly m g outside (tells g) m.failed v (record {
  fits = tt;
  flag_kept = ground arith;
  runs = λ j. rw e refl;
  told = λ j. rw e (ground arith);
})
tell_health-Orderly m g finish_raised e v = to-Orderly m g outside (tells g) m.failed v (record {
  fits = tt;
  flag_kept = ground arith;
  runs = λ j. rw e refl;
  told = λ j. rw e (ground arith);
})
tell_health-Orderly m g _ e v = v

begin_finish-Orderly :
    (m : Instance) (g : ℕ) (s : Stage) → m.stage g ≡ s → Orderly m → Orderly (begin_finish m g s)
unfolding begin_finish
begin_finish-Orderly m g outside e v =
    to-Orderly m g in_finish (enters_finish g) m.failed v
      (record { fits = tt; flag_kept = ground arith; runs = λ j. rw e refl; told = λ j. rw e refl })
begin_finish-Orderly m g _ e v = v

end_finish-Orderly :
    (m : Instance) (g : ℕ) (o : Outcome) (s : Stage)
    → m.stage g ≡ s
    → Orderly m
    → Orderly (end_finish m g o s)
unfolding end_finish
end_finish-Orderly m g o in_finish e v =
    to-Orderly m g (after_finish o) (finish_ran g o) m.failed v (record {
      fits = tt;
      flag_kept = ground arith;
      runs = λ j. rw (e, to_run-after_finish o) refl;
      told = λ j. rw (e, to_tell-after_finish o) (ground arith);
    })
end_finish-Orderly m g o _ e v = v

move-Orderly : (m : Instance) (x : Move) → Orderly m → Orderly (move m x)
unfolding move
move-Orderly m (loads_flag g) v = load_flag-Orderly m g (m.stage g) refl v
move-Orderly m (runs_handler g o) v = run_handler-Orderly m g o (m.stage g) refl v
move-Orderly m (stores_flag g) v = store_flag-Orderly m g (m.stage g) refl v
move-Orderly m (tells_health g) v = tell_health-Orderly m g (m.stage g) refl v
move-Orderly m (begins_finish g) v = begin_finish-Orderly m g (m.stage g) refl v
move-Orderly m (ends_finish g o) v = end_finish-Orderly m g o (m.stage g) refl v

keeps_order : (m : Instance) (xs : List Move) → Orderly m → Orderly (moves m xs)
unfolding moves
keeps_order m [] v = v
keeps_order m (x ∷ xs) v = keeps_order (move m x) xs (move-Orderly m x v)

-- After any interleaving of the steps of a module's calls and of its Finish, by any goroutines, with any
-- results: a call is let through before a failed call has stored the flag, and turned away after it; of
-- each goroutine, the handlers that ran are those that were let through, but for one that is about to
-- run; and the health was told once for each failure of a handler or of Finish, but for one failure that
-- is about to be told.
pub moves-Orderly : (xs : List Move) → Orderly (moves new_instance xs)
unfolding count stored
moves-Orderly xs =
    keeps_order new_instance xs
      (record { flag = refl; in_time = tt; run_once = λ g. refl; all_told = λ g. refl })
