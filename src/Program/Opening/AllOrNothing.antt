-- ===== src/Program/Opening/AllOrNothing.antt =====
-- internal/core/program/scope.go, openScope: either all modules are open, or those that were opened
-- are finished.
use directive_proxy.Prelude.{
  ℕ, zero, suc, ◌+◌, ◌≤◌, ◌≡◌, refl, sym, ◌∙◌, ap, Bool, true, false, List, [], ◌∷◌, ◌++◌, inl, inr,
  arith, ◌⊎◌, Int64, length,
}
use mathlib.Core.List.{append_assoc, append-nil}
use directive_proxy.Exchange.{finish_failed as finish_failed_cause}
use directive_proxy.Program.{Error}
use directive_proxy.Program.Registry.{Compiled}
use directive_proxy.Program.Scope.{Scope, World, Code, Outcome, Event, settle, update}
use directive_proxy.Program.Sets.{Bindings, Opened, open_error, no_instance, opened, set_scope}
use directive_proxy.Program.Sets.Finishing.{finished, settle-Finishes, finish_scope_lem}
use directive_proxy.Program.Opening.{
  OpenResult, open_failed, nil_instance, bind_failed, scope_opened, mount, add_lane, give_up,
  after_bind, after_open, open_items, new_scope, open_scope,
}

abbrev pub is_open : OpenResult → Bool
is_open (scope_opened s) = true
is_open _ = false

-- `n` instances from `i` on.
unfoldable pub upto : ℕ → ℕ → List ℕ
upto i zero = []
upto i (suc n) = i ∷ upto (i + 1) n

-- All modules are mounted in the scope, in order, and none was finished; or the first `opens` of
-- them are, the scope is closed, and exactly its modules were finished, once each and in order.
pub record AllOpen (s i : ℕ) (items : List Compiled) (w : World) (x : World × OpenResult)
    : Type 0 where
  pub success : is_open x.1 ≡ true
  pub active : (x.0.scope_at s).closed ≡ false
  pub mounts : (x.0.scope_at s).mounted ≡ (w.scope_at s).mounted ++ upto i (length items)
  pub keeps : finished x.0.log ≡ finished w.log

pub record Undone (s i : ℕ) (items : List Compiled) (w : World) (x : World × OpenResult)
    : Type 0 where
  pub failure : is_open x.1 ≡ false
  pub closes : (x.0.scope_at s).closed ≡ true
  pub opens : ℕ
  pub within : opens ≤ length items
  pub mounts : (x.0.scope_at s).mounted ≡ (w.scope_at s).mounted ++ upto i opens
  pub finishes : finished x.0.log ≡ finished w.log ++ (x.0.scope_at s).mounted

abbrev pub Opening : ℕ → ℕ → List Compiled → World → World × OpenResult → Type 0
Opening s i items w x = AllOpen s i items w x ⊎ Undone s i items w x

-- One module more is mounted.
record Mounts (s i : ℕ) (w w' : World) : Type 0 where
  active : (w'.scope_at s).closed ≡ false
  mounts : (w'.scope_at s).mounted ≡ (w.scope_at s).mounted ++ i ∷ []
  keeps : finished w'.log ≡ finished w.log

first_of :
    (s i : ℕ) (item : Compiled) (items : List Compiled) {w w' : World} {x : World × OpenResult}
    → Mounts s i w w'
    → Opening s (i + 1) items w' x
    → Opening s i (item ∷ items) w x
unfolding upto
first_of s i item items {w} m (inl a) = inl (record {
  success = a.success;
  active = a.active;
  mounts = a.mounts ∙ rw m.mounts (append_assoc (w.scope_at s).mounted (i ∷ []) _);
  keeps = a.keeps ∙ m.keeps;
})
first_of s i item items {w} m (inr u) = inr (record {
  failure = u.failure;
  closes = u.closes;
  opens = suc u.opens;
  within = omega arith;
  mounts = u.mounts ∙ rw m.mounts (append_assoc (w.scope_at s).mounted (i ∷ []) _);
  finishes = u.finishes ∙ rw m.keeps;
})

pub update_self {ℓ} : {A : Type ℓ} (i : ℕ) (x : A) (f : ℕ → A) → update i x f i ≡ x
update_self i x f = ground arith

mount-Mounts :
    (w : World) (s i : ℕ) (item : Compiled) (b : Bindings)
    → (w.scope_at s).closed ≡ false
    → Mounts s i w (mount w s i item b)
unfolding mount set_scope
mount-Mounts w s i item b e = record {
  active = ap (λ x. x.closed) (update_self s _ w.scope_at) ∙ e;
  mounts = ap (λ x. x.mounted) (update_self s _ w.scope_at);
  keeps = refl;
}

settle-Mounts :
    (w w' : World) (s i : ℕ) (o : Outcome) → Mounts s i w w' → Mounts s i w (settle w' i o).0
settle-Mounts w w' s i o m =
    let f = settle-Finishes w' i o in
    record {
      active = rw f.scopes m.active;
      mounts = rw f.scopes m.mounts;
      keeps = f.told ∙ append-nil _ ∙ m.keeps;
    }

module _ (code : Code) (open_module : List Event → ℕ → Opened) (left : ℕ → ℕ) where
  give_up_lem :
      (w : World) (s i : ℕ) (items : List Compiled) (r : OpenResult)
      → is_open r ≡ false
      → (w.scope_at s).closed ≡ false
      → Undone s i items w (give_up code open_module left w s r)
  unfolding give_up upto
  give_up_lem w s i items r e f =
      let (told, scopes) = finish_scope_lem code w left finish_failed_cause s f in
      let here = ap (λ (at : ℕ → Scope). at s) scopes ∙ update_self s _ w.scope_at in
      record {
        failure = e;
        closes = ap (λ x. x.closed) here;
        opens = 0;
        within = omega arith;
        mounts = ap (λ x. x.mounted) here ∙ sym (append-nil _);
        finishes = told ∙ ap (λ is. finished w.log ++ is) (sym (ap (λ x. x.mounted) here));
      }

  module _ (s i : ℕ) (item : Compiled) (items : List Compiled) (go : World → World × OpenResult)
      (keep : (w : World) → (w.scope_at s).closed ≡ false → Opening s (i + 1) items w (go w)) where
    after_bind_lem :
        (w : World) (x : World × List Error)
        → Mounts s i w x.0
        → Opening s i (item ∷ items) w (after_bind code open_module left x s i go)
    unfolding after_bind add_lane
    after_bind_lem w (w', []) m =
        first_of s i item items (record { active = m.active; mounts = m.mounts; keeps = m.keeps })
          (keep (add_lane w' i) m.active)
    after_bind_lem w (w', e ∷ es) m =
        first_of s i item items m (inr (give_up_lem w' s (i + 1) items bind_failed refl m.active))

    after_open_lem :
        (o : Opened) (w : World)
        → (w.scope_at s).closed ≡ false
        → Opening s i (item ∷ items) w (after_open code open_module left o w s i item go)
    unfolding after_open
    after_open_lem open_error w e = inr (give_up_lem w s i (item ∷ items) open_failed refl e)
    after_open_lem no_instance w e = inr (give_up_lem w s i (item ∷ items) nil_instance refl e)
    after_open_lem (opened b) w e =
        after_bind_lem w (settle (mount w s i item b) i b.outcome)
          (settle-Mounts w (mount w s i item b) s i b.outcome (mount-Mounts w s i item b e))

  open_items_lem :
      (items : List Compiled) (s i : ℕ) (w : World)
      → (w.scope_at s).closed ≡ false
      → Opening s i items w (open_items code open_module left s i items w)
  unfolding open_items upto
  open_items_lem [] s i w e =
      inl (record { success = refl; active = e; mounts = sym (append-nil _); keeps = refl })
  open_items_lem (item ∷ items) s i w e =
      after_open_lem s i item items (open_items code open_module left s (i + 1) items)
        (λ w' e'. open_items_lem items s (i + 1) w' e') (open_module w.log item.code) w e

  -- Opening a scope for one module or more ends in one of two ways, whatever the modules do: all are
  -- mounted, in their order, the scope is open and no module was finished; or openScope fails, the
  -- first of the modules are mounted, the scope is closed, and exactly these were finished, once each and in their
  -- order.
  pub open_scope-Opening :
      (s i : ℕ) (n : Int64) (item : Compiled) (items : List Compiled) (w : World)
      → Opening s i
          (item ∷ items)
          (set_scope s (new_scope code open_module left n) w)
          (open_scope code open_module left s i n (item ∷ items) w)
  unfolding open_scope set_scope
  open_scope-Opening s i n item items w =
      open_items_lem (item ∷ items) s i (set_scope s (new_scope code open_module left n) w)
        (ap (λ x. x.closed) (update_self s _ w.scope_at))
