-- ===== src/Headers/Tests.antt =====
-- internal/core/httpheader: a request with an operation on a system header.
use directive_proxy.Prelude.{◌≡◌, refl, Bool, true, false, none, [], ◌∷◌, Text, All, codes, text_eq}
use directive_proxy.Headers.{
  Headers, Op, RequestPlan, action_set, selector_exact, lookup, canonical_header_key,
  is_proxy_disclosure_header, disclosing,
}
use directive_proxy.Headers.Apply.{apply_request, before_ops}
use directive_proxy.Headers.Lookups.{is_hop_by_hop}
use directive_proxy.Headers.Clean.{IsForeign, transport, apply_request_clean}
use directive_proxy.Headers.Disclosure.{identifies, before_ops_hides}

abbrev no_matches : (pattern_text name : Text) → Bool
no_matches p n = false

abbrev original : Headers
original =
    (codes "Connection", codes "Upgrade, X-Secret" ∷ [])
    ∷ (codes "Upgrade", codes "websocket" ∷ [])
    ∷ (codes "X-Secret", codes "1" ∷ [])
    ∷ (codes "Via", codes "a" ∷ [])
    ∷ (codes "X-Forwarded-For", codes "c" ∷ [])
    ∷ (codes "Accept", codes "b" ∷ [])
    ∷ []

abbrev sets_system : Op
sets_system = record {
  action = action_set;
  selector = record { kind = selector_exact; pattern_text = codes "X-DP-Trace" };
  op_values = codes "c" ∷ [];
}

abbrev plan : RequestPlan
plan = record { preserve_proxy_disclosure = false; strip_before_ops = []; ops = sets_system ∷ [] }

apply_request_clean_example :
    let h = (apply_request no_matches original plan true).header in
    All IsForeign h
    × ((n : Text) → is_hop_by_hop n ≡ true → lookup n h ≡ lookup n (transport original true))
apply_request_clean_example = apply_request_clean no_matches original plan true

before_ops_hides_example :
    lookup (codes "X-Forwarded-For") (before_ops no_matches original plan) ≡ none
unfolding identifies canonical_header_key
before_ops_hides_example =
    before_ops_hides no_matches original plan (codes "X-Forwarded-For") refl refl refl

goes_out :
    (apply_request no_matches original plan true).header
    ≡ (codes "Accept", codes "b" ∷ [])
      ∷ (codes "Connection", codes "Upgrade" ∷ [])
      ∷ (codes "Upgrade", codes "websocket" ∷ [])
      ∷ (codes "User-Agent", [])
      ∷ []
unfolding apply_request disclosing is_proxy_disclosure_header text_eq
goes_out = refl
