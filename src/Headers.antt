-- ===== src/Headers.antt =====
-- internal/core/httpheader: the headers of a request that goes to the upstream. A header map is the
-- list of its entries; names are ASCII. The matching of a glob (path.Match) is an argument, of any
-- behaviour.
pub mod Apply
pub mod Lookups
pub mod Clean
pub mod Disclosure
mod Tests
use directive_proxy.Prelude.{
  ℕ, zero, suc, ◌+◌, ◌-◌, ◌==◌, Bool, true, false, not, ◌&&◌, ◌||◌, Option, none, some, List, [],
  ◌∷◌, ◌++◌, map, ltb, leb, if◌then◌else◌, Text, text_eq, trim_space, is_empty, codes,
}

abbrev pub Values : Type 0
Values = List Text

abbrev pub Headers : Type 0
Headers = List (Text × Values)

pub data Action : Type 0 where
  action_add action_set action_del other_action : Action

pub data SelectorKind : Type 0 where
  selector_exact selector_glob other_selector : SelectorKind

pub record Selector : Type 0 where
  pub kind : SelectorKind
  pub pattern_text : Text

pub record Op : Type 0 where
  pub action : Action
  pub selector : Selector
  pub op_values : Values

pub record RequestPlan : Type 0 where
  pub preserve_proxy_disclosure : Bool
  pub strip_before_ops : List Text
  pub ops : List Op

pub record Request : Type 0 where
  pub host : Text
  pub header : Headers

-- strings.ToLower and the letters of http.CanonicalHeaderKey.
unfoldable pub lower : ℕ → ℕ
lower c = if leb b'A' c && leb c b'Z' then c + 32 else c

unfoldable pub upper : ℕ → ℕ
upper c = if leb b'a' c && leb c b'z' then c - 32 else c

unfoldable pub to_lower : Text → Text
unfolding lower
to_lower = map lower

unfoldable pub equal_fold : Text → Text → Bool
unfolding to_lower text_eq
equal_fold a b = text_eq (to_lower a) (to_lower b)

unfoldable pub has_prefix : Text → Text → Bool
has_prefix t [] = true
has_prefix [] (p ∷ ps) = false
has_prefix (c ∷ cs) (p ∷ ps) = c == p && has_prefix cs ps

unfoldable pub is_token : ℕ → Bool
is_token c =
    (leb b'a' c && leb c b'z')
    || (leb b'A' c && leb c b'Z')
    || (leb b'0' c && leb c b'9')
    || c == b'!'
    || c == b'#'
    || c == b'$'
    || c == b'%'
    || c == b'&'
    || c == 39
    || c == b'*'
    || c == b'+'
    || c == b'-'
    || c == b'.'
    || c == b'^'
    || c == b'_'
    || c == 96
    || c == b'|'
    || c == b'~'

unfoldable pub all_tokens : Text → Bool
unfolding is_token
all_tokens [] = true
all_tokens (c ∷ cs) = is_token c && all_tokens cs

unfoldable pub canonical_from : (start : Bool) → Text → Text
unfolding lower upper
canonical_from start [] = []
canonical_from start (c ∷ cs) = (if start then upper c else lower c) ∷ canonical_from (c == b'-') cs

unfoldable pub canonical_header_key : Text → Text
unfolding all_tokens canonical_from
canonical_header_key t = if all_tokens t then canonical_from true t else t

-- The methods of http.Header, and of the map below it.
unfoldable pub lookup : Text → Headers → Option Values
unfolding text_eq
lookup k [] = none
lookup k ((n, vs) ∷ h) = if text_eq n k then some vs else lookup k h

unfoldable pub delete : Text → Headers → Headers
unfolding text_eq
delete k [] = []
delete k ((n, vs) ∷ h) = if text_eq n k then delete k h else (n, vs) ∷ delete k h

unfoldable pub put : Text → Values → Headers → Headers
unfolding text_eq
put k ws [] = (k, ws) ∷ []
put k ws ((n, vs) ∷ h) = if text_eq n k then (n, ws) ∷ h else (n, vs) ∷ put k ws h

abbrev pub values_or_none : Option Values → Values
values_or_none none = []
values_or_none (some vs) = vs

unfoldable pub values : Text → Headers → Values
unfolding canonical_header_key lookup
values k h = values_or_none (lookup (canonical_header_key k) h)

unfoldable pub header_del : Text → Headers → Headers
unfolding canonical_header_key delete
header_del k h = delete (canonical_header_key k) h

unfoldable pub header_set : Text → Text → Headers → Headers
unfolding canonical_header_key put
header_set k v h = put (canonical_header_key k) (v ∷ []) h

unfoldable pub header_add : Text → Text → Headers → Headers
unfolding canonical_header_key put values
header_add k v h = put (canonical_header_key k) (values k h ++ v ∷ []) h

unfoldable pub del_all : List Text → Headers → Headers
unfolding header_del
del_all [] h = h
del_all (n ∷ ns) h = del_all ns (header_del n h)

abbrev pub proxy_disclosure_headers : List Text
proxy_disclosure_headers =
    codes "Forwarded"
    ∷ codes "Via"
    ∷ codes "X-Forwarded-For"
    ∷ codes "X-Forwarded-Host"
    ∷ codes "X-Forwarded-Proto"
    ∷ codes "X-Forwarded-Port"
    ∷ codes "X-Forwarded-Scheme"
    ∷ codes "X-Forwarded-Server"
    ∷ codes "X-Original-Forwarded-For"
    ∷ codes "X-Real-IP"
    ∷ codes "Client-IP"
    ∷ codes "X-Client-IP"
    ∷ codes "True-Client-IP"
    ∷ codes "CF-Connecting-IP"
    ∷ codes "CF-Connecting-IPv6"
    ∷ codes "Fastly-Client-IP"
    ∷ codes "X-Cluster-Client-IP"
    ∷ codes "X-ProxyUser-IP"
    ∷ codes "Proxy-Client-IP"
    ∷ codes "WL-Proxy-Client-IP"
    ∷ codes "CDN-Loop"
    ∷ []

abbrev pub hop_by_hop_headers : List Text
hop_by_hop_headers =
    codes "Connection"
    ∷ codes "Proxy-Connection"
    ∷ codes "Keep-Alive"
    ∷ codes "Proxy-Authenticate"
    ∷ codes "Proxy-Authorization"
    ∷ codes "Te"
    ∷ codes "Trailer"
    ∷ codes "Transfer-Encoding"
    ∷ codes "Upgrade"
    ∷ []

unfoldable pub is_system_header : Text → Bool
unfolding to_lower has_prefix trim_space
is_system_header n = has_prefix (to_lower (trim_space n)) (codes "x-dp-")

unfoldable pub any_fold : Text → List Text → Bool
unfolding equal_fold
any_fold n [] = false
any_fold n (d ∷ ds) = equal_fold n d || any_fold n ds

unfoldable pub is_proxy_disclosure_header : Text → Bool
unfolding any_fold has_prefix to_lower
is_proxy_disclosure_header n =
    has_prefix (to_lower n) (codes "x-forwarded-") || any_fold n proxy_disclosure_headers

unfoldable pub strip_system_headers : Headers → Headers
unfolding is_system_header
strip_system_headers [] = []
strip_system_headers ((n, vs) ∷ h) =
    if is_system_header n then strip_system_headers h else (n, vs) ∷ strip_system_headers h

-- strings.Split at commas.
unfoldable pub split_from : (current : Text) → Text → List Text
split_from current [] = current ∷ []
split_from current (c ∷ cs) =
    let next = if c == b',' then [] else current ++ c ∷ [] in
    let rest = split_from next cs in if c == b',' then current ∷ rest else rest

unfoldable pub split : Text → List Text
unfolding split_from
split t = split_from [] t

unfoldable pub nominated : Values → List Text
unfolding split trim_space
nominated [] = []
nominated (v ∷ vs) = map trim_space (split v) ++ nominated vs

unfoldable pub strip_hop_by_hop : Headers → Headers
unfolding del_all nominated values
strip_hop_by_hop h =
    del_all hop_by_hop_headers (del_all (nominated (values (codes "Connection") h)) h)

-- The names are taken from the map at the start of the loop.
unfoldable pub disclosing : Headers → List Text
disclosing [] = []
disclosing ((n, vs) ∷ h) = if is_proxy_disclosure_header n then n ∷ disclosing h else disclosing h

unfoldable pub strip_proxy_disclosure_headers : Headers → Headers
unfolding disclosing del_all
strip_proxy_disclosure_headers h = del_all (disclosing h) h
