-- ===== src/Http/Tests.antt =====
-- The HTTP client before a server that answers 403.
use vpc_route_controller.Common.{
  ℕ, suc, ◌≡◌, refl, none, done, ok, err, Error, plain, op_error, url_error, List, [], ◌∷◌, ◌++◌,
  map,
}
use vpc_route_controller.Http.Kop.{Transport, HttpRequest, set_url, new_kop_client}
use vpc_route_controller.Http.Names.{get_server_name}
use vpc_route_controller.Http.Client.{NetHttp, NotifyMessage, new_notifier_client, notify}
use vpc_route_controller.Http.Posting.{Posts, request_for, notify_sends_all}
use vpc_route_controller.Http.Retry.{EndsAtOnce}

-- The world counts the requests; one attempt is made.
abbrev refusing : Transport ℕ
refusing = record {
  parse_scheme = λ s. ok "http";
  request_error = λ method url. none;
  canonical_key = λ key. key;
  encode = λ query. "q";
  sign = λ keys service region request w. (done (ok request), w);
  send_request =
      λ insecure request w. (done (ok (record { status_code = 403; body = ok "denied" })), suc w);
  random_string = λ w. (done "abc", w);
  retry_do = λ b p m w. m w;
}

refusing_ends : EndsAtOnce refusing
refusing_ends = record { success = λ b p m w w' bytes e. e; refusal = λ b p m w w' e h no. h }

abbrev post_failure : Error
post_failure = url_error "Post" "http://api" (op_error "dial" "connection refused")

-- A network that refuses every request, and the list of those.
abbrev busy_net : NetHttp (List HttpRequest)
busy_net = record {
  request_error = λ method url. none;
  send_request = λ req w. (done (err (plain "refused")), w ++ req ∷ []);
  query_escape = λ s. s;
}

busy_net-Posts : Posts busy_net (λ w. w)
busy_net-Posts = record {
  makes = λ url. refl;
  sends = λ req w. (err (plain "refused"), w ++ req ∷ [], refl, refl);
}

abbrev alarm : NotifyMessage
alarm = record { name = "vpc"; priority = "2"; content = "down"; no_deal = "0"; product = "" }

notify_sends_all_example :
    (v : List HttpRequest) × (notify busy_net new_notifier_client (alarm ∷ alarm ∷ []) []
      ≡ (done tt, v))
    × (v ≡ [] ++ map (request_for busy_net new_notifier_client) (alarm ∷ alarm ∷ []))
notify_sends_all_example =
    notify_sends_all busy_net (λ w. w) busy_net-Posts new_notifier_client (alarm ∷ alarm ∷ []) []

-- The host of the endpoint stands for a client without a signer.
host_name :
    get_server_name (set_url "v1" (new_kop_client "http://internal.api.ksyun.com"))
    ≡ "internal.api.ksyun.com"
unfolding get_server_name
host_name = refl
