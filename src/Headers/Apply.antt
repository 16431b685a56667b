-- ===== src/Headers/Apply.antt =====
-- internal/core/httpheader/apply.go: the operations of a plan, and ApplyRequest.
use directive_proxy.Prelude.{
  ◌==◌, Bool, true, false, not, ◌&&◌, ◌||◌, List, [], ◌∷◌, ◌++◌, ltb, if◌then◌else◌, Text, text_eq,
  trim_space, is_empty, codes,
}
use directive_proxy.Headers.{
  Values, Headers, Action, action_add, action_set, action_del, other_action, SelectorKind,
  selector_exact, selector_glob, other_selector, Selector, Op, RequestPlan, Request, to_lower,
  equal_fold, canonical_header_key, put, values, header_del, header_set, header_add, del_all,
  strip_system_headers, split, strip_hop_by_hop, strip_proxy_disclosure_headers,
}

unfoldable pub any_part : Text → List Text → Bool
unfolding equal_fold trim_space
any_part token [] = false
any_part token (p ∷ ps) = equal_fold (trim_space p) token || any_part token ps

unfoldable pub header_token_contains : Values → Text → Bool
unfolding any_part split
header_token_contains [] token = false
header_token_contains (v ∷ vs) token = any_part token (split v) || header_token_contains vs token

abbrev pub first : Values → Text
first [] = []
first (v ∷ vs) = v

unfoldable pub upgrade_test : Headers → Bool
unfolding header_token_contains values trim_space
upgrade_test h =
    header_token_contains (values (codes "Connection") h) (codes "upgrade")
    && not (is_empty (trim_space (first (values (codes "Upgrade") h))))

unfoldable pub upgrade_headers : Headers → Headers
unfolding upgrade_test values
upgrade_headers h =
    if upgrade_test h
    then (codes "Connection", codes "Upgrade" ∷ [])
      ∷ (codes "Upgrade", values (codes "Upgrade") h)
      ∷ []
    else []

unfoldable pub te_headers : Headers → Headers
unfolding header_token_contains values
te_headers h =
    if header_token_contains (values (codes "Te") h) (codes "trailers")
    then (codes "Te", codes "trailers" ∷ []) ∷ []
    else []

unfoldable pub trusted_transport_headers : Headers → Headers
unfolding upgrade_headers te_headers
trusted_transport_headers h = upgrade_headers h ++ te_headers h

unfoldable pub copy_headers : Headers → Headers → Headers
unfolding put
copy_headers dst [] = dst
copy_headers dst ((n, vs) ∷ h) = copy_headers (put n vs dst) h

-- sort.Strings.
unfoldable pub text_le : Text → Text → Bool
text_le [] b = true
text_le (a ∷ cs) [] = false
text_le (a ∷ cs) (b ∷ bs) = ltb a b || (a == b && text_le cs bs)

unfoldable pub insert_text : Text → List Text → List Text
unfolding text_le
insert_text t [] = t ∷ []
insert_text t (x ∷ xs) = if text_le t x then t ∷ x ∷ xs else x ∷ insert_text t xs

unfoldable pub sort_texts : List Text → List Text
unfolding insert_text
sort_texts [] = []
sort_texts (t ∷ ts) = insert_text t (sort_texts ts)

unfoldable pub add_each : Text → Values → Headers → Headers
unfolding header_add
add_each n [] h = h
add_each n (v ∷ vs) h = add_each n vs (header_add n v h)

unfoldable pub set_first : Text → Values → Headers → Headers
unfolding header_set
set_first n [] h = h
set_first n (v ∷ vs) h = header_set n v h

unfoldable pub apply_action : Action → Text → Values → Headers → Headers
unfolding add_each set_first header_del
apply_action action_add n vs h = add_each n vs h
apply_action action_set n vs h = set_first n vs h
apply_action action_del n vs h = header_del n h
apply_action other_action n vs h = h

unfoldable pub apply_op : Headers → Text → Op → Headers
unfolding apply_action
apply_op h name op = apply_action op.action name op.op_values h

unfoldable pub apply_names : Op → List Text → Headers → Headers
unfolding apply_op
apply_names op [] h = h
apply_names op (n ∷ ns) h = apply_names op ns (apply_op h n op)

abbrev pub set_host : Action → Text → Text → Text
set_host action_set value host = value
set_host action_add value host = value
set_host action_del value host = if is_empty host || text_eq host value then [] else host
set_host other_action value host = host

unfoldable pub host_after : Action → Values → Text → Text
unfolding trim_space
host_after a [] host = []
host_after a (v ∷ vs) host = set_host a (trim_space v) host

unfoldable pub apply_host_op : Request → Op → Request
unfolding host_after header_del
apply_host_op r op = record {
  host = host_after op.action op.op_values r.host;
  header = header_del (codes "Host") r.header;
}

unfoldable pub has_user_agent : Headers → Bool
unfolding equal_fold
has_user_agent [] = false
has_user_agent ((n, vs) ∷ h) = equal_fold n (codes "User-Agent") || has_user_agent h

unfoldable pub suppress_default_user_agent : Headers → Headers
unfolding has_user_agent put
suppress_default_user_agent h = if has_user_agent h then h else put (codes "User-Agent") [] h

module _ (matches : (pattern_text name : Text) → Bool) where
  unfoldable pub glob_names : Text → Headers → List Text
  unfolding equal_fold to_lower
  glob_names p [] = []
  glob_names p ((n, vs) ∷ h) =
      if equal_fold n (codes "Host")
      then glob_names p h
      else if matches p (to_lower n)
      then n ∷ glob_names p h
      else glob_names p h

  unfoldable pub names_of : SelectorKind → Text → Headers → List Text
  unfolding glob_names sort_texts canonical_header_key to_lower
  names_of selector_exact p h = canonical_header_key p ∷ []
  names_of selector_glob p h = sort_texts (glob_names (to_lower p) h)
  names_of other_selector p h = []

  unfoldable pub matching_names : Headers → Selector → List Text
  unfolding names_of trim_space
  matching_names h s =
      let p = trim_space s.pattern_text in if is_empty p then [] else names_of s.kind p h

  -- Apply.
  unfoldable pub apply : Headers → List Op → Headers
  unfolding apply_names matching_names
  apply h [] = h
  apply h (op ∷ ops) = apply (apply_names op (matching_names h op.selector) h) ops

  abbrev pub is_host_selector : SelectorKind → Text → Bool
  is_host_selector selector_exact p = equal_fold (trim_space p) (codes "Host")
  is_host_selector _ p = false

  unfoldable pub apply_request_ops : Request → List Op → Request
  unfolding apply apply_host_op
  apply_request_ops r [] = r
  apply_request_ops r (op ∷ ops) =
      apply_request_ops
        (if is_host_selector op.selector.kind op.selector.pattern_text
          then apply_host_op r op
          else record r { header = apply r.header (op ∷ []) })
        ops

  -- The headers before the operations.
  unfoldable pub before_ops : Headers → RequestPlan → Headers
  unfolding strip_hop_by_hop del_all strip_proxy_disclosure_headers
  before_ops original plan =
      let h = del_all plan.strip_before_ops (strip_hop_by_hop original) in
      if plan.preserve_proxy_disclosure then h else strip_proxy_disclosure_headers h

  -- ApplyRequest: the host and the headers of the request that goes out.
  unfoldable pub apply_request : Headers → RequestPlan → (preserve_transport : Bool) → Request
  unfolding before_ops apply_request_ops strip_system_headers strip_hop_by_hop copy_headers
      trusted_transport_headers suppress_default_user_agent
  apply_request original plan preserve_transport =
      let transport = if preserve_transport then trusted_transport_headers original else [] in
      let r =
        apply_request_ops (record { host = []; header = before_ops original plan }) plan.ops in
      let h = strip_hop_by_hop (strip_system_headers r.header) in
      record r { header = suppress_default_user_agent (copy_headers h transport) }
