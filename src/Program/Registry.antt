-- ===== src/Program/Registry.antt =====
-- internal/core/program/registry.go and internal/core/module/catalog.go: the modules that are
-- registered, and the compilation of a directive's modules into those of each lifetime.
use directive_proxy.Prelude.{
  ℕ, ◌+◌, Bool, true, false, ◌||◌, not, Option, none, some, List, [], ◌∷◌, ◌++◌, ◌⊎◌, inl, inr,
  if◌then◌else◌, Text, text_eq, trim_space, is_empty,
}

pub data Lifetime : Type 0 where
  exchange round_trip other_lifetime : Lifetime

-- What CompileProgram of a module returns; a binding is its number.
pub data CompileResult : Type 0 where
  compile_error nil_binding : CompileResult
  binding : ℕ → CompileResult

-- A module's definition. `program` says whether it implements ProgramDefinition, and a module's
-- configuration is a number.
pub record Definition : Type 0 where
  pub name : Text
  pub program : Bool
  pub lifetime : Lifetime
  pub compile_program : ℕ → CompileResult

abbrev pub Catalog : Type 0
Catalog = List Definition

unfoldable pub look_up : Catalog → Text → Option Definition
unfolding text_eq
look_up [] name = none
look_up (d ∷ ds) name = if text_eq d.name name then some d else look_up ds name

abbrev pub registered : Catalog → Text → Bool
registered c name = elim (look_up c name) [ none ↦ false | some d ↦ true ]

unfoldable pub register_all : Catalog → List (Option Definition) → Option Catalog
unfolding look_up trim_space
register_all c [] = some c
register_all c (none ∷ ds) = none
register_all c (some d ∷ ds) =
    let name = trim_space d.name in
    let rest = register_all (c ++ d ∷ []) ds in
    if is_empty name || not (text_eq name d.name)
    then none
    else if registered c name
    then none
    else rest

-- NewCatalog; `none` is an error.
unfoldable pub new_catalog : List (Option Definition) → Option Catalog
unfolding register_all
new_catalog ds = register_all [] ds

unfoldable pub names : Catalog → List Text
names [] = []
names (d ∷ ds) = if d.program then d.name ∷ names ds else names ds

pub record Spec : Type 0 where
  pub module_name : Text
  pub config : ℕ

pub record Compiled : Type 0 where
  pub order : ℕ
  pub module_name : Text
  pub code : ℕ

pub data CompileError : Type 0 where
  empty_name module_repeated not_registered no_program invalid_lifetime : CompileError
  compile_failed binding_missing : CompileError

unfoldable pub mem : Text → List Text → Bool
unfolding text_eq
mem t [] = false
mem t (x ∷ xs) = text_eq x t || mem t xs

unfoldable pub check_lifetime : Lifetime → Bool
check_lifetime other_lifetime = false
check_lifetime _ = true

unfoldable pub take_binding : ℕ → Text → CompileResult → CompileError ⊎ Compiled
take_binding index name compile_error = inl compile_failed
take_binding index name nil_binding = inl binding_missing
take_binding index name (binding b) = inr (record { order = index; module_name = name; code = b })

unfoldable pub compile_definition :
    ℕ → Text → Spec → Definition → CompileError ⊎ (Lifetime × Compiled)
unfolding check_lifetime take_binding
compile_definition index name spec d =
    if not d.program
    then inl no_program
    else if not (check_lifetime d.lifetime)
    then inl invalid_lifetime
    else elim (take_binding index name (d.compile_program spec.config)) [
      | inl e ↦ inl e
      | inr item ↦ inr (d.lifetime, item)
    ]

unfoldable pub compile_found :
    ℕ → Text → Spec → Option Definition → CompileError ⊎ (Lifetime × Compiled)
unfolding compile_definition
compile_found index name spec none = inl not_registered
compile_found index name spec (some d) = compile_definition index name spec d

-- One turn of the loop of compile.
unfoldable pub compile_spec : Catalog → ℕ → List Text → Spec → CompileError ⊎ (Lifetime × Compiled)
unfolding trim_space mem look_up compile_found
compile_spec c index seen spec =
    let name = trim_space spec.module_name in
    if is_empty name
    then inl empty_name
    else if mem name seen
    then inl module_repeated
    else compile_found index name spec (look_up c name)

pub record Executable : Type 0 where
  pub exchange_modules : List Compiled
  pub round_trip_modules : List Compiled

unfoldable pub add : Executable → Lifetime → Compiled → Executable
add x exchange item = record x { exchange_modules = x.exchange_modules ++ item ∷ [] }
add x round_trip item = record x { round_trip_modules = x.round_trip_modules ++ item ∷ [] }
add x other_lifetime item = x

-- The loop of compile; `seen` has the names of the specs before.
unfoldable pub compile_from :
    Catalog → ℕ → List Text → Executable → List Spec → CompileError ⊎ Executable
unfolding compile_spec add trim_space
compile_from c index seen x [] = inr x
compile_from c index seen x (spec ∷ specs) = elim (compile_spec c index seen spec) [
  | inl e ↦ inl e
  | inr (lifetime, item) ↦
      compile_from c (index + 1) (trim_space spec.module_name ∷ seen) (add x lifetime item) specs
]

abbrev pub no_modules : Executable
no_modules = record { exchange_modules = []; round_trip_modules = [] }

unfoldable pub compile : Catalog → List Spec → CompileError ⊎ Executable
unfolding compile_from
compile c specs = compile_from c 0 [] no_modules specs
