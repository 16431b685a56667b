-- ===== src/Payload/Tests.antt =====
-- pkg/directive/validate.go: the theorems at concrete inputs, and runs of the code.
use directive_proxy.Prelude.{
  ℕ, ◌≡◌, refl, Bool, true, false, Option, none, some, List, [], ◌∷◌, map, Text, codes,
}
use directive_proxy.Metadata.{compile}
use directive_proxy.Program.Registry.{compile as compile_specs}
use directive_proxy.Transport.{StatusRange}
use directive_proxy.Payload.{UnexpectedStatus, valid_metadata, normalize_status}
use directive_proxy.Payload.Fields.{is_some, valid_metadata-compile}
use directive_proxy.Payload.Modules.{ModuleSpec, normalize_modules, normalize_config}
use directive_proxy.Payload.Names.{names_rejected, to_spec, compile-normalize_modules}
use directive_proxy.Payload.Statuses.{Normalizes, normalize_status-Normalizes}

abbrev one_field : List (Text × Text)
one_field = (codes "user_id", codes "u7") ∷ []

valid_metadata-compile_example : valid_metadata one_field ≡ is_some (compile one_field)
valid_metadata-compile_example = valid_metadata-compile one_field

one_field_is_valid : valid_metadata one_field ≡ true
unfolding valid_metadata
one_field_is_valid = refl

digit_first : valid_metadata ((codes "7", codes "u") ∷ []) ≡ false
unfolding valid_metadata
digit_first = refl

abbrev redirects : StatusRange
redirects = record { from = 300; to = 399 }

abbrev successes : StatusRange
successes = record { from = 200; to = 299 }

abbrev descending : UnexpectedStatus
descending = record { expected = redirects ∷ successes ∷ []; capture_body_bytes = 0 }

normalize_status-Normalizes_example : Normalizes descending (normalize_status descending)
normalize_status-Normalizes_example = normalize_status-Normalizes descending

sorted_and_filled :
    normalize_status descending
    ≡ some (record { expected = successes ∷ redirects ∷ []; capture_body_bytes = 65536 })
unfolding normalize_status
sorted_and_filled = refl

overlapping :
    normalize_status (record {
      expected = successes ∷ (record { from = 299; to = 300 }) ∷ [];
      capture_body_bytes = 1;
    })
    ≡ none
unfolding normalize_status
overlapping = refl

abbrev any_config : Text → Bool
any_config config = true

abbrev as_written : Text → Option Text
as_written config = some config

abbrev one_number : Text → ℕ
one_number config = 0

abbrev written : List ModuleSpec
written =
    (record { spec_name = codes "capture"; spec_config = [] })
    ∷ (record { spec_name = codes "llm.observe"; spec_config = codes "1" })
    ∷ []

abbrev with_configs : List ModuleSpec
with_configs =
    (record { spec_name = codes "capture"; spec_config = codes "{}" })
    ∷ (record { spec_name = codes "llm.observe"; spec_config = codes "1" })
    ∷ []

written_is_accepted : normalize_modules any_config as_written written ≡ some with_configs
unfolding normalize_modules normalize_config
written_is_accepted = refl

compile-normalize_modules_example :
    names_rejected (compile_specs [] (map (to_spec one_number) with_configs)) ≡ false
compile-normalize_modules_example =
    compile-normalize_modules any_config as_written [] one_number written with_configs
      written_is_accepted
