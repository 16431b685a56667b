-- ===== src/Exchange/RoundTrips/System/Told.antt =====
-- internal/core/exchange/exchange.go: what the modules are told of a response leaves the account alone.
use directive_proxy.Prelude.{◌≡◌, refl, some, Int64, if_cases}
use directive_proxy.Exchange.{Exchange, upstream_response_started, downstream_response_started}
use directive_proxy.Exchange.Lifecycle.{observe_upstream_response, response_headers}
use directive_proxy.Exchange.RoundTrips.System.Account.{account, account-dispatch_locked}

pub account-observe_upstream_response :
    (s : Exchange) (n status : Int64) → account (observe_upstream_response s n status) ≡ account s
unfolding observe_upstream_response
account-observe_upstream_response s n status =
    if_cases (λ t. account t ≡ account s) (s.round_trips n).closed (λ h. refl)
      (λ h. account-dispatch_locked s (some n) (upstream_response_started status))

pub account-response_headers :
    (s : Exchange) (status : Int64) → account (response_headers s status) ≡ account s
unfolding account response_headers
account-response_headers s status =
    account-dispatch_locked
      (record s { response_status = status; downstream_round_trip = s.current }) s.current
      (downstream_response_started status)
