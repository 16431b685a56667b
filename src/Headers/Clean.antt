-- ===== src/Headers/Clean.antt =====
-- internal/core/httpheader/apply.go, ApplyRequest: what reaches the upstream, whatever the operations are.
use directive_proxy.Prelude.{
  ◌≡◌, refl, sym, ◌∙◌, subst, Bool, true, false, Bool-cases, List, [], ◌∷◌, ◌++◌, if◌then◌else◌,
  if_cases, inl, inr, ◌⊎◌, Text, text_eq, text_eq_iff, codes, All,
}
use directive_proxy.Headers.{
  Values, Headers, RequestPlan, lookup, delete, put, header_del, del_all, canonical_header_key,
  hop_by_hop_headers, is_system_header, strip_system_headers, strip_hop_by_hop, nominated, values,
}
use directive_proxy.Headers.Apply.{
  header_token_contains, upgrade_test, upgrade_headers, te_headers, trusted_transport_headers,
  copy_headers, has_user_agent, suppress_default_user_agent, apply_request, apply_request_ops,
  before_ops,
}
use directive_proxy.Headers.Lookups.{lookup-put, lookup-copy, stripped, Distinct, is_hop_by_hop}

upgrade_cases :
    (h : Headers)
    → (upgrade_headers h ≡ [])
      ⊎ (upgrade_headers h
          ≡ (codes "Connection", codes "Upgrade" ∷ [])
            ∷ (codes "Upgrade", values (codes "Upgrade") h)
            ∷ [])
unfolding upgrade_headers values
upgrade_cases h = elim (Bool-cases (upgrade_test h)) [
  | inl e ↦ inr (rw (upgrade_headers, e) refl)
  | inr e ↦ inl (rw (upgrade_headers, e) refl)
]

te_cases :
    (h : Headers) → (te_headers h ≡ []) ⊎ (te_headers h ≡ (codes "Te", codes "trailers" ∷ []) ∷ [])
unfolding te_headers
te_cases h = elim (Bool-cases (header_token_contains (values (codes "Te") h) (codes "trailers"))) [
  | inl e ↦ inr (rw (te_headers, e) refl)
  | inr e ↦ inl (rw (te_headers, e) refl)
]

trusted_rule :
    (P : Headers → Type 0) (h : Headers)
    → P []
    → P ((codes "Te", codes "trailers" ∷ []) ∷ [])
    → ((vs : Values) → P ((codes "Connection", codes "Upgrade" ∷ []) ∷ (codes "Upgrade", vs) ∷ []))
    → ((vs : Values)
        → P (
            (codes "Connection", codes "Upgrade" ∷ [])
            ∷ (codes "Upgrade", vs)
            ∷ (codes "Te", codes "trailers" ∷ [])
            ∷ []))
    → P (trusted_transport_headers h)
unfolding trusted_transport_headers
trusted_rule P h none_there te up both =
    let vs = values (codes "Upgrade") h in
    elim (upgrade_cases h) [
      | inl u ↦ elim (te_cases h) [
        | inl t ↦ subst P (λ i. sym u i ++ sym t i) none_there
        | inr t ↦ subst P (λ i. sym u i ++ sym t i) te
      ]
      | inr u ↦ elim (te_cases h) [
        | inl t ↦ subst P (λ i. sym u i ++ sym t i) (up vs)
        | inr t ↦ subst P (λ i. sym u i ++ sym t i) (both vs)
      ]
    ]

trusted-Distinct : (h : Headers) → Distinct (trusted_transport_headers h)
unfolding lookup
trusted-Distinct h =
    trusted_rule Distinct h tt (refl, tt) (λ vs. (refl, (refl, tt)))
      (λ vs. (refl, (refl, (refl, tt))))

not_user_agent : (n : Text) → is_hop_by_hop n ≡ true → text_eq (codes "User-Agent") n ≡ false
unfolding is_hop_by_hop text_eq
not_user_agent n e = elim (Bool-cases (text_eq (codes "User-Agent") n)) [
  | inl same ↦ absurd (
      let f : ⊥ = cc (
        agent_is_end_to_end,
        subst (λ m. is_hop_by_hop m ≡ true) (sym ((text_eq_iff (codes "User-Agent") n).0 same)) e,
      ) in
      f)
  | inr other ↦ other
]
  where
    agent_is_end_to_end : is_hop_by_hop (codes "User-Agent") ≡ false
    agent_is_end_to_end = refl

lookup-suppress :
    (n : Text) (h : Headers)
    → is_hop_by_hop n ≡ true
    → lookup n (suppress_default_user_agent h) ≡ lookup n h
unfolding suppress_default_user_agent
lookup-suppress n h e =
    if_cases (λ g. lookup n g ≡ lookup n h) (has_user_agent h) (λ _. refl)
      (λ _. lookup-put n (codes "User-Agent") [] h ∙ rw (not_user_agent n e))

abbrev pub IsForeign : Text × Values → Type 0
IsForeign (n, vs) = is_system_header n ≡ false

strip-Foreign : (h : Headers) → All IsForeign (strip_system_headers h)
unfolding strip_system_headers
strip-Foreign [] = tt
strip-Foreign ((n, vs) ∷ h) = elim (Bool-cases (is_system_header n)) [
  | inl e ↦ rw e (strip-Foreign h)
  | inr e ↦ rw e (e, strip-Foreign h)
]

delete-Foreign : (k : Text) (h : Headers) → All IsForeign h → All IsForeign (delete k h)
unfolding delete
delete-Foreign k [] a = tt
delete-Foreign k ((n, vs) ∷ h) a =
    if_cases (All IsForeign) (text_eq n k) (λ _. delete-Foreign k h a.1)
      (λ _. (a.0, delete-Foreign k h a.1))

del_all-Foreign : (ms : List Text) (h : Headers) → All IsForeign h → All IsForeign (del_all ms h)
unfolding del_all header_del
del_all-Foreign [] h a = a
del_all-Foreign (m ∷ ms) h a = del_all-Foreign ms _ (delete-Foreign (canonical_header_key m) h a)

put-Foreign :
    (k : Text) (ws : Values) (h : Headers)
    → is_system_header k ≡ false
    → All IsForeign h
    → All IsForeign (put k ws h)
unfolding put
put-Foreign k ws [] e a = (e, tt)
put-Foreign k ws ((n, vs) ∷ h) e a =
    if_cases (All IsForeign) (text_eq n k) (λ _. (a.0, a.1)) (λ _. (a.0, put-Foreign k ws h e a.1))

copy-Foreign :
    (src dst : Headers)
    → All IsForeign src
    → All IsForeign dst
    → All IsForeign (copy_headers dst src)
unfolding copy_headers
copy-Foreign [] dst s d = d
copy-Foreign ((n, vs) ∷ src) dst s d =
    copy-Foreign src (put n vs dst) s.1 (put-Foreign n vs dst s.0 d)

trusted-Foreign : (h : Headers) → All IsForeign (trusted_transport_headers h)
unfolding is_system_header
trusted-Foreign h =
    trusted_rule (All IsForeign) h tt (refl, tt) (λ vs. (refl, (refl, tt)))
      (λ vs. (refl, (refl, (refl, tt))))

suppress-Foreign : (h : Headers) → All IsForeign h → All IsForeign (suppress_default_user_agent h)
unfolding suppress_default_user_agent is_system_header
suppress-Foreign h a =
    if_cases (All IsForeign) (has_user_agent h) (λ _. a)
      (λ _. put-Foreign (codes "User-Agent") [] h refl a)

strip_hop-Foreign : (h : Headers) → All IsForeign h → All IsForeign (strip_hop_by_hop h)
unfolding strip_hop_by_hop
strip_hop-Foreign h a =
    del_all-Foreign hop_by_hop_headers _
      (del_all-Foreign (nominated (values (codes "Connection") h)) h a)

unfoldable pub transport : Headers → Bool → Headers
transport original preserve = if preserve then trusted_transport_headers original else []

transport-Foreign :
    (original : Headers) (preserve : Bool) → All IsForeign (transport original preserve)
unfolding transport
transport-Foreign original true = trusted-Foreign original
transport-Foreign original false = tt

transport-Distinct : (original : Headers) (preserve : Bool) → Distinct (transport original preserve)
unfolding transport
transport-Distinct original true = trusted-Distinct original
transport-Distinct original false = tt

module _ (matches : (pattern_text name : Text) → Bool) where
  -- Whatever the original headers, the operations of the plan and the globs' matches are: the request that goes out has no
  -- header of the system (x-dp-), and of each hop-by-hop header exactly what the transport may
  -- trust: nothing unless the transport is preserved, else what trustedTransportHeaders took from the original for an
  -- upgrade or for trailers.
  pub apply_request_clean :
      (original : Headers) (plan : RequestPlan) (preserve : Bool)
      → let h = (apply_request matches original plan preserve).header in
        All IsForeign h
        × ((n : Text)
            → is_hop_by_hop n ≡ true
            → lookup n h ≡ lookup n (transport original preserve))
  unfolding apply_request transport
  apply_request_clean original plan preserve =
      let r =
        apply_request_ops matches (record { host = []; header = before_ops matches original plan })
          plan.ops in
      let h = strip_hop_by_hop (strip_system_headers r.header) in
      (
        suppress-Foreign (copy_headers h (transport original preserve)) (
            copy-Foreign (transport original preserve) h (transport-Foreign original preserve)
              (strip_hop-Foreign _ (strip-Foreign r.header))),
        λ n e.
            lookup-suppress n (copy_headers h (transport original preserve)) e
            ∙ lookup-copy n h (transport original preserve) (transport-Distinct original preserve)
                (stripped n (strip_system_headers r.header) e),
      )
