-- ===== src/Payload/Modules.antt =====
-- pkg/directive/validate.go: the modules of a directive. What jsontext says of a configuration (valid) and
-- makes of it (compact) are arguments.
use directive_proxy.Prelude.{
  ℕ, ◌+◌, ◌==◌, Bool, true, false, not, ◌&&◌, ◌||◌, Option, none, some, List, [], ◌∷◌, ltb, leb,
  length, if◌then◌else◌, Text, bytes, text_eq, trim_space, is_empty, codes,
}
use directive_proxy.Program.Registry.{mem}

abbrev pub max_module_specs : ℕ
max_module_specs = 16

abbrev pub max_module_name_bytes : ℕ
max_module_name_bytes = 64

abbrev pub max_module_config_bytes : ℕ
max_module_config_bytes = 65536

pub record ModuleSpec : Type 0 where
  pub spec_name : Text
  pub spec_config : Text

-- The loop of validModuleName; an index counts bytes.
unfoldable pub valid_name_chars : (size index : ℕ) → Text → Bool
unfolding bytes
valid_name_chars size index [] = true
valid_name_chars size index (c ∷ cs) =
    if (leb b'a' c && leb c b'z')
      || (leb b'0' c && leb c b'9')
      || ((c == b'-' || c == b'.') && ltb 0 index && ltb (index + 1) size)
    then valid_name_chars size (index + bytes (c ∷ [])) cs
    else false

unfoldable pub valid_module_name : Text → Bool
unfolding valid_name_chars bytes
valid_module_name value = valid_name_chars (bytes value) 0 value

abbrev pub put_spec : Text → Option Text → Option (List ModuleSpec) → Option (List ModuleSpec)
put_spec name none specs = none
put_spec name (some config) none = none
put_spec name (some config) (some specs) =
    some ((record { spec_name = name; spec_config = config }) ∷ specs)

module _ (valid : Text → Bool) (compact : Text → Option Text) where
  -- What becomes of the configuration of a spec.
  unfoldable pub normalize_config : Text → Option Text
  unfolding bytes
  normalize_config config =
      let c = if is_empty config then codes "{}" else config in
      if ltb max_module_config_bytes (bytes c) || not (valid c) then none else compact c

  -- The loop of normalizeModules; `seen` has the names before.
  unfoldable pub normalize_specs : (seen : List Text) → List ModuleSpec → Option (List ModuleSpec)
  unfolding bytes trim_space text_eq valid_module_name mem
  normalize_specs seen [] = some []
  normalize_specs seen (spec ∷ specs) =
      if is_empty spec.spec_name
        || not (text_eq spec.spec_name (trim_space spec.spec_name))
        || ltb max_module_name_bytes (bytes spec.spec_name)
        || not (valid_module_name spec.spec_name)
      then none
      else if mem spec.spec_name seen
      then none
      else put_spec spec.spec_name (normalize_config spec.spec_config)
          (normalize_specs (spec.spec_name ∷ seen) specs)

  unfoldable pub normalize_modules : List ModuleSpec → Option (List ModuleSpec)
  unfolding normalize_specs
  normalize_modules specs =
      if ltb max_module_specs (length specs) then none else normalize_specs [] specs
