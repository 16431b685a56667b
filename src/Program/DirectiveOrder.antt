-- ===== src/Program/DirectiveOrder.antt =====
-- internal/core/program/registry.go and scope.go: the modules of both lifetimes together are called in
-- the order of the directive.
use directive_proxy.Prelude.{
  ℕ, ◌+◌, ◌≤◌, ◌<◌, ◌==◌, ◌≡◌, ◌≢◌, refl, sym, ◌∙◌, ap, subst, true, false, Option, none, some,
  List, [], ◌∷◌, ◌++◌, map, if◌then◌else◌, inl, inr, arith, Text, trim_space, leb, All, Sum-cases,
}
use mathlib.Core.List.{append_assoc, append-nil, map-append}
use directive_proxy.Program.Registry.{
  Catalog, Spec, Compiled, Executable, Lifetime, exchange, round_trip, other_lifetime, compile,
  compile_from, compile_spec, compile_found, compile_definition, take_binding, add, no_modules,
  check_lifetime,
}
use directive_proxy.Program.Opening.Keys.{Key, key_at, key_of}
use directive_proxy.Program.Scope.{World}
use directive_proxy.Program.Sets.{
  ScopeSet, insert, sort_stable, active, entries, new_scope_set, seen_before, unless_empty,
}

-- The modules of a directive with their places.
unfoldable pub numbered : ℕ → List Spec → List Key
numbered n [] = []
numbered n (spec ∷ specs) = (n, trim_space spec.module_name) ∷ numbered (n + 1) specs

-- The third list is made of the others, each in its order.
data Merge : List Key → List Key → List Key → Type 0 where
  done : Merge [] [] []
  left : {xs ys zs : List Key} (z : Key) → Merge xs ys zs → Merge (z ∷ xs) ys (z ∷ zs)
  right : {xs ys zs : List Key} (z : Key) → Merge xs ys zs → Merge xs (z ∷ ys) (z ∷ zs)

-- Insertion by the place, on keys.
insert_key : Key → List Key → List Key
insert_key k [] = k ∷ []
insert_key k (x ∷ xs) = if leb k.0 x.0 then k ∷ x ∷ xs else x ∷ insert_key k xs

sort_keys : List Key → List Key
unfolding insert_key
sort_keys [] = []
sort_keys (k ∷ ks) = insert_key k (sort_keys ks)

insert_key_comm :
    (a b : Key) (xs : List Key)
    → a.0 < b.0
    → insert_key a (insert_key b xs) ≡ insert_key b (insert_key a xs)
unfolding insert_key
insert_key_comm a b [] h = ground arith
insert_key_comm a b (x ∷ xs) h = ground (arith, insert_key_comm a b xs)

abbrev Above : ℕ → List Key → Type 0
Above n ks = All (λ (k : Key). n ≤ k.0) ks

insert_key_least : (z : Key) (xs : List Key) → Above z.0 xs → insert_key z xs ≡ z ∷ xs
unfolding insert_key
insert_key_least z [] h = refl
insert_key_least z (x ∷ xs) h = ground arith

sort_keys_middle :
    (xs ys : List Key) (z : Key)
    → Above (z.0 + 1) xs
    → sort_keys (xs ++ (z ∷ ys)) ≡ insert_key z (sort_keys (xs ++ ys))
unfolding sort_keys
sort_keys_middle [] ys z h = refl
sort_keys_middle (x ∷ xs) ys z h =
    rw (sort_keys_middle xs ys z h.1)
      (sym (insert_key_comm z x (sort_keys (xs ++ ys)) (omega arith)))

merge_left-Above : (n : ℕ) {xs ys zs : List Key} → Merge xs ys zs → Above n zs → Above n xs
merge_left-Above n done h = tt
merge_left-Above n (left z m) h = (h.0, merge_left-Above n m h.1)
merge_left-Above n (right z m) h = merge_left-Above n m h.1

abbrev Ascending : List Key → Type 0
Ascending [] = Unit
Ascending (k ∷ ks) = Above (k.0 + 1) ks × Ascending ks

Above-weaken : (n m : ℕ) (ks : List Key) → n ≤ m → Above m ks → Above n ks
Above-weaken n m [] h a = tt
Above-weaken n m (k ∷ ks) h a = (omega arith, Above-weaken n m ks h a.1)

sort_keys-merge : {xs ys zs : List Key} → Merge xs ys zs → Ascending zs → sort_keys (xs ++ ys) ≡ zs
unfolding sort_keys
sort_keys-merge done a = refl
sort_keys-merge (left {zs = zs} z m) a =
    rw (sort_keys-merge m a.1)
      (insert_key_least z zs (Above-weaken z.0 (z.0 + 1) zs (omega arith) a.0))
sort_keys-merge (right {xs = xs} {ys = ys} {zs = zs} z m) a =
    sort_keys_middle xs ys z (merge_left-Above (z.0 + 1) m a.0)
    ∙ rw (sort_keys-merge m a.1)
        (insert_key_least z zs (Above-weaken z.0 (z.0 + 1) zs (omega arith) a.0))

numbered-Above : (n m : ℕ) (specs : List Spec) → m ≤ n → Above m (numbered n specs)
unfolding numbered
numbered-Above n m [] h = tt
numbered-Above n m (spec ∷ specs) h = (h, numbered-Above (n + 1) m specs (omega arith))

numbered-Ascending : (n : ℕ) (specs : List Spec) → Ascending (numbered n specs)
unfolding numbered
numbered-Ascending n [] = tt
numbered-Ascending n (spec ∷ specs) =
    (numbered-Above (n + 1) (n + 1) specs (omega arith), numbered-Ascending (n + 1) specs)

abbrev entry_key : World → ℕ × ℕ → Key
entry_key w e = key_at w e.1

map-insert :
    (w : World) (e : ℕ × ℕ) (es : List (ℕ × ℕ))
    → map (entry_key w) (insert w e es) ≡ insert_key (entry_key w e) (map (entry_key w) es)
unfolding insert insert_key
map-insert w e [] = refl
map-insert w e (f ∷ es) = ground (arith, map-insert w e es)

map-sort :
    (w : World) (es : List (ℕ × ℕ))
    → map (entry_key w) (sort_stable w es) ≡ sort_keys (map (entry_key w) es)
unfolding sort_stable sort_keys
map-sort w [] = refl
map-sort w (e ∷ es) =
    map-insert w e (sort_stable w es) ∙ ap (insert_key (entry_key w e)) (map-sort w es)

-- What a turn of the loop of compile adds.
compile_spec_lem :
    (c : Catalog) (index : ℕ) (seen : List Text) (spec : Spec) {l : Lifetime} {item : Compiled}
    → compile_spec c index seen spec ≡ inr (l, item)
    → (key_of item ≡ (index, trim_space spec.module_name)) × (check_lifetime l ≡ true)
unfolding compile_spec compile_found compile_definition take_binding
compile_spec_lem c index seen spec e = ground arith

record Adds (x x' : Executable) (zs : List Key) : Type 0 where
  exchanges : List Key
  round_trips : List Key
  exchange_keys : map key_of x'.exchange_modules ≡ map key_of x.exchange_modules ++ exchanges
  round_trip_keys :
      map key_of x'.round_trip_modules ≡ map key_of x.round_trip_modules ++ round_trips
  merge : Merge exchanges round_trips zs

add_first :
    (x x' : Executable) (l : Lifetime) (item : Compiled) {zs : List Key}
    → check_lifetime l ≡ true
    → Adds (add x l item) x' zs
    → Adds x x' (key_of item ∷ zs)
unfolding add check_lifetime
add_first x x' exchange item h a = record {
  exchanges = key_of item ∷ a.exchanges;
  round_trips = a.round_trips;
  exchange_keys =
      a.exchange_keys
      ∙ ap (λ ks. ks ++ a.exchanges) (map-append key_of x.exchange_modules (item ∷ []))
      ∙ append_assoc (map key_of x.exchange_modules) (key_of item ∷ []) a.exchanges;
  round_trip_keys = a.round_trip_keys;
  merge = left (key_of item) a.merge;
}
add_first x x' round_trip item h a = record {
  exchanges = a.exchanges;
  round_trips = key_of item ∷ a.round_trips;
  exchange_keys = a.exchange_keys;
  round_trip_keys =
      a.round_trip_keys
      ∙ ap (λ ks. ks ++ a.round_trips) (map-append key_of x.round_trip_modules (item ∷ []))
      ∙ append_assoc (map key_of x.round_trip_modules) (key_of item ∷ []) a.round_trips;
  merge = right (key_of item) a.merge;
}
add_first x x' other_lifetime item h a = absurd (let e : ⊥ = cc in e)

compile_from_lem :
    (c : Catalog) (index : ℕ) (seen : List Text) (x : Executable) (specs : List Spec)
    {x' : Executable}
    → compile_from c index seen x specs ≡ inr x'
    → Adds x x' (numbered index specs)
unfolding compile_from numbered
compile_from_lem c index seen x [] {x'} e =
    let same : x ≡ x' = cc in
    subst (λ y. Adds x y []) same
      (record {
        exchanges = [];
        round_trips = [];
        exchange_keys = sym (append-nil _);
        round_trip_keys = sym (append-nil _);
        merge = done;
      })
compile_from_lem c index seen x (spec ∷ specs) {x'} e =
    elim (Sum-cases (compile_spec c index seen spec)) [
      | inl (err, f) ↦ absurd (let g : ⊥ = cc (rw (f, compile_from) at e) in g)
      | inr ((l, item), f) ↦
          let (key, valid) = compile_spec_lem c index seen spec f in
          let rest =
            compile_from_lem c (index + 1) (trim_space spec.module_name ∷ seen) (add x l item) specs
              (rw (f, compile_from) at e) in
          subst (λ k. Adds x x' (k ∷ numbered (index + 1) specs)) key
            (add_first x x' l item valid rest)
    ]

-- The keys of a scope's modules; a nil scope has none.
unfoldable pub keys_of : World → Option ℕ → List Key
keys_of w none = []
keys_of w (some s) = map (key_at w) (w.scope_at s).mounted

unfoldable pub set_keys : World → Option ScopeSet → List Key
set_keys w none = []
set_keys w (some s) = map (entry_key w) s.mounted

map-pairs :
    (w : World) (s : ℕ) (is : List ℕ) → map (entry_key w) (map (λ i. (s, i)) is) ≡ map (key_at w) is
map-pairs w s [] = refl
map-pairs w s (i ∷ is) = ap (λ ks. key_at w i ∷ ks) (map-pairs w s is)

set_keys-unless_empty :
    (w : World) (all : List (ℕ × ℕ)) (ss : List ℕ)
    → set_keys w (unless_empty all (record { scopes = ss; mounted = sort_stable w all }))
      ≡ sort_keys (map (entry_key w) all)
unfolding set_keys sort_keys
set_keys-unless_empty w [] ss = refl
set_keys-unless_empty w (e ∷ es) ss = map-sort w (e ∷ es)

-- Two scopes, which are not the same one.
abbrev pub Different : Option ℕ → Option ℕ → Type 0
Different (some s) (some t) = s ≢ t
Different _ _ = Unit

one_scope :
    (w : World) (s : ℕ)
    → map (entry_key w) (map (λ i. (s, i)) (w.scope_at s).mounted ++ [])
      ≡ map (key_at w) (w.scope_at s).mounted
one_scope w s = rw append-nil (map-pairs w s (w.scope_at s).mounted)

entries_lem :
    (w : World) (a b : Option ℕ)
    → Different a b
    → map (entry_key w) (entries w (active [] (a ∷ b ∷ []))) ≡ keys_of w a ++ keys_of w b
unfolding entries active seen_before keys_of
entries_lem w none none d = refl
entries_lem w none (some t) d = one_scope w t
entries_lem w (some s) none d = one_scope w s ∙ sym (append-nil _)
entries_lem w (some s) (some t) d =
    let differ : (s == t) ≡ false = ground (arith, d) in
    rw differ (
      map-append (entry_key w) (map (λ i. (s, i)) (w.scope_at s).mounted) _
      ∙ (λ j. map-pairs w s (w.scope_at s).mounted j ++ one_scope w t j))

set_keys_lem :
    (w : World) (a b : Option ℕ)
    → Different a b
    → set_keys w (new_scope_set w (a ∷ b ∷ [])) ≡ sort_keys (keys_of w a ++ keys_of w b)
unfolding new_scope_set
set_keys_lem w a b d = set_keys-unless_empty w _ _ ∙ ap sort_keys (entries_lem w a b d)

-- The modules of both lifetimes together are in the order of the directive: when the specs compile,
-- and the scope of the exchange and that of the round trip have the modules that were compiled for
-- them, NewScopeSet of both lists, place by place, the modules that the directive names, and no
-- others. The scopes are not the same one; a scope that is nil has no modules.
pub directive_order :
    (c : Catalog) (specs : List Spec) (x : Executable) (w : World) (a b : Option ℕ)
    → compile c specs ≡ inr x
    → keys_of w a ≡ map key_of x.exchange_modules
    → keys_of w b ≡ map key_of x.round_trip_modules
    → Different a b
    → set_keys w (new_scope_set w (a ∷ b ∷ [])) ≡ numbered 0 specs
unfolding compile
directive_order c specs x w a b e ka kb h =
    let adds = compile_from_lem c 0 [] no_modules specs e in
    set_keys_lem w a b h
    ∙ rw (ka, kb, adds.exchange_keys, adds.round_trip_keys)
        (sort_keys-merge adds.merge (numbered-Ascending 0 specs))
