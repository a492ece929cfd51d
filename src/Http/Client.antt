-- ===== src/Http/Client.antt =====
-- `Client` of pkg/http/http.go, over package net/http, and `Notify` of
-- pkg/ksyun/openstack_client/notifier/notifier.go, which posts forms with it. Logs are left out.
use vpc_route_controller.Common.{
  ℕ, String, Option, none, some, List, [], ◌∷◌, ◌||◌, ltb, if◌then◌else◌, concat, decimal, Dict,
  Action, Result, ok, err, Error, plain, pure, ◌>>=◌, ◌>>◌,
}
use vpc_route_controller.Http.Kop.{HttpRequest, HttpResponse, post}
use vpc_route_controller.Util.Form.{encode}

-- `Modifier`: the request as it leaves it, and its error.
abbrev pub Modifier : Type 0 → Type 0
Modifier W = HttpRequest → Action W (HttpRequest × Option Error)

-- What package net/http and `url.QueryEscape` do: `http.NewRequest` may refuse a URL.
pub record NetHttp (W : Type 0) : Type 0 where
  pub request_error : String → String → Option Error
  pub send_request : HttpRequest → Action W (Result HttpResponse)
  pub query_escape : String → String

-- `Error` of pkg/http/error.go, by its text.
abbrev pub http_error : ℕ → String → Error
http_error code text =
    plain (concat ("http error: code " ∷ decimal code ∷ ", message " ∷ text ∷ []))

module _ {W : Type 0} (t : NetHttp W) where
  -- The loop of `Do` over the modifiers; a nil one is passed over.
  unfoldable pub modify_all :
      List (Option (Modifier W)) → HttpRequest → Action W (Result HttpRequest)
  modify_all [] req = pure (ok req)
  modify_all (none ∷ modifiers) req = modify_all modifiers req
  modify_all (some modify ∷ modifiers) req = do
    modified ← modify req
    elim modified.1 [ some e ↦ pure (err e) | none ↦ modify_all modifiers modified.0 ]

  -- `Client.Do`
  unfoldable pub send_modified :
      List (Option (Modifier W)) → HttpRequest → Action W (Result HttpResponse)
  unfolding modify_all
  send_modified modifiers req = do
    modified ← modify_all modifiers req
    elim modified [ err e ↦ pure (err e) | ok req' ↦ t.send_request req' ]

  -- What `DoRequest` makes of the response.
  unfoldable pub accept : HttpResponse → Result String
  accept response = elim response.body [
    | err e ↦ err e
    | ok data_ ↦
        if ltb response.status_code 200 || ltb 299 response.status_code
        then err (http_error response.status_code data_)
        else ok data_
  ]

  -- `DoRequest`
  unfoldable pub do_request : List (Option (Modifier W)) → HttpRequest → Action W (Result String)
  unfolding send_modified accept
  do_request modifiers req = do
    answer ← send_modified modifiers req
    elim answer [ err e ↦ pure (err e) | ok response ↦ pure (accept response) ]

  -- `post`; no body is the empty one.
  unfoldable pub post_body :
      List (Option (Modifier W)) → String → String → String → Action W (Result String)
  unfolding do_request
  post_body modifiers url content_type body = elim (t.request_error post url) [
    | some e ↦ pure (err e)
    | none ↦ do_request modifiers (record {
      method = post;
      url = url;
      header = ("Content-Type", content_type ∷ []) ∷ [];
      body = body;
    })
  ]

  -- `PostJson`, at what `json.Marshal` makes of its first argument, if it has one.
  unfoldable pub post_json :
      List (Option (Modifier W)) → String → Option (Result String) → Action W (Result String)
  unfolding post_body
  post_json modifiers url none = post_body modifiers url "application/json" ""
  post_json modifiers url (some (err e)) = pure (err e)
  post_json modifiers url (some (ok bytes)) = post_body modifiers url "application/json" bytes

  -- `PostForm`
  unfoldable pub post_form :
      List (Option (Modifier W)) → String → Dict String → Action W (Result String)
  unfolding post_body
  post_form modifiers url param_map =
      post_body modifiers url "application/x-www-form-urlencoded" (encode t.query_escape param_map)

-- `NotifyMessage`
pub record NotifyMessage : Type 0 where
  pub name : String
  pub priority : String
  pub content : String
  pub no_deal : String
  pub product : String

-- `NotifierClient`
pub record NotifierClient : Type 0 where
  pub alarm_url : String
  pub product : String

-- `NewNotifierClient`
abbrev pub new_notifier_client : NotifierClient
new_notifier_client = record {
  alarm_url = "http://alarm.inner.sdns.ksyun.com/alarm/receptor";
  product = "CONTAINER_NETWORK";
}

-- The form of a message; the message's own product is not read.
abbrev pub form_of : NotifierClient → NotifyMessage → Dict String
form_of notifier message =
    ("name", message.name)
    ∷ ("product", notifier.product)
    ∷ ("priority", message.priority)
    ∷ ("content", message.content)
    ∷ ("no_deal", message.no_deal)
    ∷ []

-- `Notify`, with a client that has no modifiers; a failed message is passed over.
unfoldable pub notify :
    {W : Type 0} → NetHttp W → NotifierClient → List NotifyMessage → Action W (Unit {0})
unfolding post_form
notify t notifier [] = pure tt
notify t notifier (message ∷ messages) = do
  post_form t [] notifier.alarm_url (form_of notifier message)
  notify t notifier messages
