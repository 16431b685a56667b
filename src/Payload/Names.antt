-- ===== src/Payload/Names.antt =====
-- pkg/directive/validate.go and internal/core/module/catalog.go: the names of the modules of a directive.
-- How the catalog's programs read a configuration (encode) is an argument.
use directive_proxy.Prelude.{
  ℕ, ◌+◌, ◌≡◌, refl, sym, subst, Bool, true, false, Bool-cases, not, ◌&&◌, ◌||◌, Option, none, some,
  List, [], ◌∷◌, map, if◌then◌else◌, Text, text_eq, text_eq_iff, trim_space, is_empty, arith, inl,
  inr, ◌⊎◌,
}
use mathlib.Core.Option.{some-injective}
use directive_proxy.Program.Registry.{
  Lifetime, check_lifetime, Catalog, Definition, Spec, Compiled, CompileError, empty_name,
  module_repeated, not_registered, no_program, invalid_lifetime, compile_failed, binding_missing,
  Executable, mem, look_up, take_binding, nil_binding, compile_error, binding, CompileResult,
  compile_definition, compile_found, compile_spec, add, compile_from, compile,
}
use directive_proxy.Payload.Modules.{ModuleSpec, put_spec, normalize_specs, normalize_modules}

-- Whether compile fails because of the names.
abbrev pub names_rejected : {A : Type 0} → CompileError ⊎ A → Bool
names_rejected (inl empty_name) = true
names_rejected (inl module_repeated) = true
names_rejected (inl not_registered) = false
names_rejected (inl no_program) = false
names_rejected (inl invalid_lifetime) = false
names_rejected (inl compile_failed) = false
names_rejected (inl binding_missing) = false
names_rejected (inr x) = false

-- The names of specs that were accepted.
unfoldable fresh : List Text → List ModuleSpec → Bool
unfolding mem text_eq trim_space
fresh seen [] = true
fresh seen (spec ∷ specs) =
    (not (is_empty spec.spec_name)
      && text_eq spec.spec_name (trim_space spec.spec_name)
      && not (mem spec.spec_name seen))
    && fresh (spec.spec_name ∷ seen) specs

abbrev pub to_spec : (Text → ℕ) → ModuleSpec → Spec
to_spec encode spec = record { module_name = spec.spec_name; config = encode spec.spec_config }

take_binding_lem :
    (i : ℕ) (name : Text) (r : CompileResult) → names_rejected (take_binding i name r) ≡ false
unfolding take_binding
take_binding_lem i name compile_error = refl
take_binding_lem i name nil_binding = refl
take_binding_lem i name (binding b) = refl

both_hold : {a b : Bool} → a ≡ true → b ≡ true → (a && b) ≡ true
both_hold ha hb = ground arith

compile_taken :
    (d : Definition) (r : CompileError ⊎ Compiled)
    → names_rejected r ≡ false
    → names_rejected {A = Lifetime × Compiled}
        (elim r [ inl e ↦ inl e | inr item ↦ inr (d.lifetime, item) ])
      ≡ false
compile_taken d (inl e) h = h
compile_taken d (inr item) h = refl

compile_definition_lem :
    (i : ℕ) (name : Text) (spec : Spec) (d : Definition)
    → names_rejected (compile_definition i name spec d) ≡ false
unfolding compile_definition
compile_definition_lem i name spec d = elim (Bool-cases d.program) [
  | inr h ↦ rw (compile_definition, h) refl
  | inl h ↦ elim (Bool-cases (check_lifetime d.lifetime)) [
    | inr l ↦ rw (compile_definition, h, l) refl
    | inl l ↦
        rw (compile_definition, h, l)
          (compile_taken d (take_binding i name (d.compile_program spec.config))
            (take_binding_lem i name (d.compile_program spec.config)))
  ]
]

compile_found_lem :
    (i : ℕ) (name : Text) (spec : Spec) (d : Option Definition)
    → names_rejected (compile_found i name spec d) ≡ false
unfolding compile_found
compile_found_lem i name spec none = refl
compile_found_lem i name spec (some d) = compile_definition_lem i name spec d

four :
    (a e m f : Bool)
    → ((not a && e && not m) && f) ≡ true
    → (a ≡ false) × (e ≡ true) × (m ≡ false) × (f ≡ true)
four a e m f h = ground arith

fresh_step :
    (seen : List Text) (spec : ModuleSpec) (specs : List ModuleSpec)
    → fresh seen (spec ∷ specs) ≡ true
    → ((not (is_empty spec.spec_name)
          && text_eq spec.spec_name (trim_space spec.spec_name)
          && not (mem spec.spec_name seen))
        && fresh (spec.spec_name ∷ seen) specs)
      ≡ true
unfolding fresh
fresh_step seen spec specs h = h

fresh_cons :
    (seen : List Text) (spec : ModuleSpec) (specs : List ModuleSpec)
    → fresh seen (spec ∷ specs) ≡ true
    → (is_empty spec.spec_name ≡ false)
      × (trim_space spec.spec_name ≡ spec.spec_name)
      × (mem spec.spec_name seen ≡ false)
      × (fresh (spec.spec_name ∷ seen) specs ≡ true)
fresh_cons seen spec specs h =
    let (a, e, m, f) =
      four (is_empty spec.spec_name) (text_eq spec.spec_name (trim_space spec.spec_name))
        (mem spec.spec_name seen) (fresh (spec.spec_name ∷ seen) specs)
        (fresh_step seen spec specs h) in
    (a, sym ((text_eq_iff spec.spec_name (trim_space spec.spec_name)).0 e), m, f)

compile_spec_lem :
    (c : Catalog) (i : ℕ) (encode : Text → ℕ) (seen : List Text) (spec : ModuleSpec)
    (specs : List ModuleSpec)
    → fresh seen (spec ∷ specs) ≡ true
    → names_rejected (compile_spec c i seen (to_spec encode spec)) ≡ false
unfolding compile_spec
compile_spec_lem c i encode seen spec specs h =
    let (a, t, m, f) = fresh_cons seen spec specs h in
    rw (compile_spec, t, a, m)
      (compile_found_lem i spec.spec_name (to_spec encode spec) (look_up c spec.spec_name))

-- One turn of compile, and the turns after it.
compile_rest :
    (c : Catalog) (i : ℕ) (seen : List Text) (x : Executable) (spec : Spec) (specs : List Spec)
    (r : CompileError ⊎ (Lifetime × Compiled))
    → compile_spec c i seen spec ≡ r
    → names_rejected r ≡ false
    → ((y : Executable)
        → names_rejected (compile_from c (i + 1) (trim_space spec.module_name ∷ seen) y specs)
          ≡ false)
    → names_rejected (compile_from c i seen x (spec ∷ specs)) ≡ false
unfolding compile_from
compile_rest c i seen x spec specs (inl e) q h rest = rw (compile_from, q) h
compile_rest c i seen x spec specs (inr (l, item)) q h rest =
    rw (compile_from, q) (rest (add x l item))

compile_from_lem :
    (c : Catalog) (i : ℕ) (encode : Text → ℕ) (seen : List Text) (x : Executable)
    (specs : List ModuleSpec)
    → fresh seen specs ≡ true
    → names_rejected (compile_from c i seen x (map (to_spec encode) specs)) ≡ false
unfolding compile_from
compile_from_lem c i encode seen x [] h = refl
compile_from_lem c i encode seen x (spec ∷ specs) h =
    let (a, t, m, f) = fresh_cons seen spec specs h in
    compile_rest c i seen x (to_spec encode spec) (map (to_spec encode) specs)
      (compile_spec c i seen (to_spec encode spec)) refl
      (compile_spec_lem c i encode seen spec specs h)
      (λ y. rw t (compile_from_lem c (i + 1) encode (spec.spec_name ∷ seen) y specs f))

passed_step :
    (b m : Bool) (x : Option (List ModuleSpec)) (result : List ModuleSpec)
    → (if b then none else if m then none else x) ≡ some result
    → (b ≡ false) × (m ≡ false) × (x ≡ some result)
passed_step b m x result h = ground arith

fresh_nil : (seen : List Text) → fresh seen [] ≡ true
unfolding fresh
fresh_nil seen = refl

fresh_put :
    (name config : Text) (rest : List ModuleSpec) (seen : List Text)
    → (not (is_empty name) && text_eq name (trim_space name) && not (mem name seen)) ≡ true
    → fresh (name ∷ seen) rest ≡ true
    → fresh seen ((record { spec_name = name; spec_config = config }) ∷ rest) ≡ true
unfolding fresh
fresh_put name config rest seen g f = both_hold g f

put_spec_lem :
    (name : Text) (config : Option Text) (specs : Option (List ModuleSpec))
    (result : List ModuleSpec) (seen : List Text)
    → put_spec name config specs ≡ some result
    → ((rest : List ModuleSpec) → specs ≡ some rest → fresh (name ∷ seen) rest ≡ true)
    → (not (is_empty name) && text_eq name (trim_space name) && not (mem name seen)) ≡ true
    → fresh seen result ≡ true
put_spec_lem name none specs result seen h f g = ground arith
put_spec_lem name (some config) none result seen h f g = ground arith
put_spec_lem name (some config) (some rest) result seen h f g =
    subst (λ specs. fresh seen specs ≡ true) (some-injective _ result h)
      (fresh_put name config rest seen g (f rest refl))

passed_one :
    (b : Bool) (x : Option (List ModuleSpec)) (result : List ModuleSpec)
    → (if b then none else x) ≡ some result
    → x ≡ some result
passed_one b x result h = ground arith

tests_passed :
    (e t l v m : Bool)
    → (e || not t || l || not v) ≡ false
    → m ≡ false
    → (not e && t && not m) ≡ true
tests_passed e t l v m h g = ground arith

module _ (valid : Text → Bool) (compact : Text → Option Text) where
  normalize_specs_lem :
      (seen : List Text) (specs result : List ModuleSpec)
      → normalize_specs valid compact seen specs ≡ some result
      → fresh seen result ≡ true
  unfolding normalize_specs
  normalize_specs_lem seen [] result h =
      subst (λ specs. fresh seen specs ≡ true) (some-injective [] result h) (fresh_nil seen)
  normalize_specs_lem seen (spec ∷ specs) result h =
      let (a, m, e) = passed_step _ _ _ result h in
      put_spec_lem spec.spec_name _ _ result seen e
        (normalize_specs_lem (spec.spec_name ∷ seen) specs)
        (tests_passed (is_empty spec.spec_name) _ _ _ _ a m)

  normalize_modules_lem :
      (specs result : List ModuleSpec)
      → normalize_modules valid compact specs ≡ some result
      → fresh [] result ≡ true
  unfolding normalize_modules
  normalize_modules_lem specs result h =
      normalize_specs_lem [] specs result (passed_one _ _ result h)

  -- Modules that NormalizePayload has accepted never fail to compile because of their names, whatever
  -- the catalog is: none is empty and none is repeated.
  pub compile-normalize_modules :
      (c : Catalog) (encode : Text → ℕ) (specs result : List ModuleSpec)
      → normalize_modules valid compact specs ≡ some result
      → names_rejected (compile c (map (to_spec encode) result)) ≡ false
  unfolding compile
  compile-normalize_modules c encode specs result h =
      compile_from_lem c 0 encode [] _ result (normalize_modules_lem specs result h)
