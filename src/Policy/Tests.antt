-- ===== src/Policy/Tests.antt =====
-- pkg/directive/validate.go and internal/core/directive/assemble.go: the theorem at a concrete policy, and
-- runs of the code.
use directive_proxy.Prelude.{◌≡◌, refl, Bool, true, none, some, List, [], ◌∷◌, Text, codes}
use directive_proxy.Headers.{action_set, action_del}
use directive_proxy.Policy.{
  side_request, side_response, Mutation, is_request, is_response, normalize_mutation,
  normalize_mutations, compile_policy, protected_names,
}
use directive_proxy.Policy.Compiled.{meant_of, compile_policy-normalize_mutations}

abbrev any_glob : Text → Bool
any_glob glob = true

abbrev set_accept : Text → Mutation
set_accept name = record {
  side = side_request;
  mutation_action = action_set;
  mutation_name = name;
  glob = [];
  mutation_values = codes "text/*" ∷ [];
}

abbrev drop_cookies : Mutation
drop_cookies = record {
  side = side_response;
  mutation_action = action_del;
  mutation_name = [];
  glob = codes "Set-*";
  mutation_values = [];
}

abbrev drop_date : Mutation
drop_date = record {
  side = side_response;
  mutation_action = action_del;
  mutation_name = codes "Date";
  glob = [];
  mutation_values = [];
}

abbrev trimmed_policy : List Mutation
trimmed_policy = drop_cookies ∷ set_accept (codes "Accept") ∷ []

trimmed_policy_is_accepted :
    normalize_mutations any_glob true (drop_cookies ∷ set_accept (codes " Accept ") ∷ [])
    ≡ some trimmed_policy
unfolding normalize_mutations
trimmed_policy_is_accepted = refl

compile_policy-normalize_mutations_example :
    compile_policy any_glob trimmed_policy
    ≡ some (meant_of is_request trimmed_policy, meant_of is_response trimmed_policy)
compile_policy-normalize_mutations_example =
    compile_policy-normalize_mutations any_glob (drop_cookies ∷ set_accept (codes " Accept ") ∷ [])
      trimmed_policy trimmed_policy_is_accepted

protected_is_rejected : normalize_mutation any_glob true drop_date ≡ none
unfolding normalize_mutation protected_names
protected_is_rejected = refl
