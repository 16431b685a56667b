-- ===== src/Metadata/Tests.antt =====
-- internal/core/metadata/metadata.go: the theorems at concrete inputs, and runs of the code.
use directive_proxy.Prelude.{◌≡◌, refl, false, some, [], ◌∷◌}
use directive_proxy.Metadata.{Entry, compile, valid_key, text_eq}
use directive_proxy.Metadata.Accepts.{Compiles, compile-Compiles}
use directive_proxy.Metadata.AnyOrder.{Agree, compile-Agree, swap}

abbrev user : Entry
user = (b'i' ∷ b'd' ∷ [], b'7' ∷ [])

abbrev key : Entry
key = (b'k' ∷ [], b'x' ∷ b' ' ∷ b'y' ∷ [])

compile-Compiles_example : Compiles (user ∷ key ∷ []) (compile (user ∷ key ∷ []))
unfolding text_eq
compile-Compiles_example = compile-Compiles (user ∷ key ∷ []) (refl, (refl, tt))

compile-Agree_example : Agree (compile (user ∷ key ∷ [])) (compile (key ∷ user ∷ []))
unfolding text_eq
compile-Agree_example =
    compile-Agree (user ∷ key ∷ []) (key ∷ user ∷ []) (swap user key []) (refl, (refl, tt))

keys_are_lower_case : valid_key (b'I' ∷ b'd' ∷ []) ≡ false
unfolding valid_key
keys_are_lower_case = refl

two_fields : compile (user ∷ key ∷ []) ≡ some (user ∷ key ∷ [])
unfolding compile
two_fields = refl
