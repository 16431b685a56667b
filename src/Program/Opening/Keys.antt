-- ===== src/Program/Opening/Keys.antt =====
-- internal/core/program/scope.go, openScope: an opened module has the order and the name of its place
-- in the directive.
use directive_proxy.Prelude.{
  ℕ, ◌+◌, ◌<◌, ◌≡◌, refl, ◌∙◌, ap, true, false, List, [], ◌∷◌, ◌++◌, map, inl, inr, arith, Text,
  Int64, length,
}
use directive_proxy.Program.{Error}
use directive_proxy.Program.Registry.{Compiled}
use directive_proxy.Program.Scope.{
  World, Code, Outcome, returned, failed_with, panicked_with, Event, settle, fail,
}
use directive_proxy.Program.Sets.{Bindings, Opened, open_error, no_instance, opened, set_scope}
use directive_proxy.Program.Opening.{
  OpenResult, open_failed, nil_instance, bind_failed, new_mounted, mount, add_lane, give_up,
  after_bind, after_open, open_items, new_scope, open_scope,
}
use directive_proxy.Program.Opening.AllOrNothing.{is_open, upto, open_scope-Opening, update_self}

abbrev pub Key : Type 0
Key = ℕ × Text

abbrev pub key_at : World → ℕ → Key
key_at w i = ((w.instance_at i).order, (w.instance_at i).module_name)

abbrev pub key_of : Compiled → Key
key_of item = (item.order, item.module_name)

-- One module is put in the place `i`; the places below stay.
record Puts (i : ℕ) (key : Key) (w w' : World) : Type 0 where
  here : key_at w' i ≡ key
  below : (j : ℕ) → j < i → key_at w' j ≡ key_at w j

abbrev Keyed : ℕ → List Compiled → World → World × OpenResult → Type 0
Keyed i items w x =
    is_open x.1 ≡ true
    → (map (key_at x.0) (upto i (length items)) ≡ map key_of items)
      × ((j : ℕ) → j < i → key_at x.0 j ≡ key_at w j)

mount-Puts :
    (w : World) (s i : ℕ) (item : Compiled) (b : Bindings)
    → Puts i (key_of item) w (mount w s i item b)
unfolding mount new_mounted set_scope
mount-Puts w s i item b = record { here = ground arith; below = λ j h. ground arith }

settle-Puts :
    (w w' : World) (i : ℕ) (key : Key) (o : Outcome)
    → Puts i key w w'
    → Puts i key w (settle w' i o).0
unfolding settle fail
settle-Puts w w' i key returned p = p
settle-Puts w w' i key (failed_with e) p = record {
  here = ground (arith, p.here);
  below = λ j h. ground (arith, p.below j h);
}
settle-Puts w w' i key (panicked_with e) p = record {
  here = ground (arith, p.here);
  below = λ j h. ground (arith, p.below j h);
}

add_lane-Puts : (w w' : World) (i : ℕ) (key : Key) → Puts i key w w' → Puts i key w (add_lane w' i)
unfolding add_lane
add_lane-Puts w w' i key p = record {
  here = ground (arith, p.here);
  below = λ j h. ground (arith, p.below j h);
}

first_key :
    (i : ℕ) (item : Compiled) (items : List Compiled) {w w' : World} (x : World × OpenResult)
    → Puts i (key_of item) w w'
    → Keyed (i + 1) items w' x
    → Keyed i (item ∷ items) w x
unfolding upto
first_key i item items x p k e =
    let (ks, below) = k e in
    ((λ t. (below i (omega arith) ∙ p.here) t ∷ ks t), λ j h. below j (omega arith) ∙ p.below j h)

module _ (code : Code) (open_module : List Event → ℕ → Opened) (left : ℕ → ℕ) where
  given_up-Keyed :
      (i : ℕ) (items : List Compiled) (w w' : World) (s : ℕ) (r : OpenResult)
      → is_open r ≡ false
      → Keyed i items w (give_up code open_module left w' s r)
  unfolding give_up
  given_up-Keyed i items w w' s r f e = cc

  module _ (s i : ℕ) (item : Compiled) (items : List Compiled) (go : World → World × OpenResult)
      (keep : (w : World) → Keyed (i + 1) items w (go w)) where
    after_bind-Keyed :
        (w : World) (x : World × List Error)
        → Puts i (key_of item) w x.0
        → Keyed i (item ∷ items) w (after_bind code open_module left x s i go)
    unfolding after_bind
    after_bind-Keyed w (w', []) p =
        first_key i item items (go (add_lane w' i)) (add_lane-Puts w w' i _ p)
          (keep (add_lane w' i))
    after_bind-Keyed w (w', e ∷ es) p = given_up-Keyed i (item ∷ items) w w' s bind_failed refl

    after_open-Keyed :
        (o : Opened) (w : World)
        → Keyed i (item ∷ items) w (after_open code open_module left o w s i item go)
    unfolding after_open
    after_open-Keyed open_error w = given_up-Keyed i (item ∷ items) w w s open_failed refl
    after_open-Keyed no_instance w = given_up-Keyed i (item ∷ items) w w s nil_instance refl
    after_open-Keyed (opened b) w =
        after_bind-Keyed w (settle (mount w s i item b) i b.outcome)
          (settle-Puts w (mount w s i item b) i _ b.outcome (mount-Puts w s i item b))

  pub open_items-Keyed :
      (items : List Compiled) (s i : ℕ) (w : World)
      → Keyed i items w (open_items code open_module left s i items w)
  unfolding open_items upto
  open_items-Keyed [] s i w = λ e. (refl, λ j h. refl)
  open_items-Keyed (item ∷ items) s i w =
      after_open-Keyed s i item items (open_items code open_module left s (i + 1) items)
        (λ w'. open_items-Keyed items s (i + 1) w') (open_module w.log item.code) w

  -- A scope that was opened has the modules that were compiled, in their order, each with its place in
  -- the directive and its name.
  pub opened_keys :
      (s i : ℕ) (n : Int64) (item : Compiled) (items : List Compiled) (w : World)
      → is_open (open_scope code open_module left s i n (item ∷ items) w).1 ≡ true
      → let w' = (open_scope code open_module left s i n (item ∷ items) w).0 in
        map (key_at w') (w'.scope_at s).mounted ≡ map key_of (item ∷ items)
  unfolding open_scope
  opened_keys s i n item items w e =
      let w0 = set_scope s (new_scope code open_module left n) w in
      elim (open_scope-Opening code open_module left s i n item items w) [
        | inl a ↦
            ap (map (key_at (open_items code open_module left s i (item ∷ items) w0).0))
              (a.mounts ∙ ap (λ is. is ++ upto i (length (item ∷ items))) (fresh s w n))
            ∙ (open_items-Keyed (item ∷ items) s i w0 e).0
        | inr u ↦ absurd (let f : ⊥ = cc (u.failure, e) in f)
      ]
    where
      fresh :
          (s : ℕ) (w : World) (n : Int64)
          → ((set_scope s (new_scope code open_module left n) w).scope_at s).mounted ≡ []
      fresh s w n = ap (λ x. x.mounted) (update_self s _ w.scope_at)
