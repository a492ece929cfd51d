-- ===== src/Http/Posting.antt =====
-- What `Client` of pkg/http/http.go and `Notify` (pkg/ksyun/openstack_client/notifier/notifier.go) send.
use mathlib.Core.List.{append_assoc, append-nil}
use vpc_route_controller.Common.{
  String, Option, none, some, List, [], ◌∷◌, ◌++◌, ◌≡◌, refl, sym, ap, ◌∙◌, map, Action, done,
  Result, ok, err, Error,
}
use vpc_route_controller.Http.Kop.{HttpRequest, HttpResponse, post}
use vpc_route_controller.Http.Client.{
  NetHttp, Modifier, NotifyMessage, NotifierClient, form_of, modify_all, send_modified, accept,
  do_request, post_body, post_form, notify,
}
use vpc_route_controller.Util.Form.{encode}

-- Every URL makes a request, every request is sent and answered somehow, and `sent` lists them.
pub record Posts {W : Type 0} (t : NetHttp W) (sent : W → List HttpRequest) : Type 0 where
  pub makes : (url : String) → t.request_error post url ≡ none
  pub sends :
      (req : HttpRequest) (w : W)
      → (answer : Result HttpResponse) × (v : W) × (t.send_request req w ≡ (done answer, v))
        × (sent v ≡ sent w ++ req ∷ [])

-- The request for a message: its form, with the product of the client.
abbrev pub request_for : {W : Type 0} → NetHttp W → NotifierClient → NotifyMessage → HttpRequest
request_for t notifier message = record {
  method = post;
  url = notifier.alarm_url;
  header = ("Content-Type", "application/x-www-form-urlencoded" ∷ []) ∷ [];
  body = encode t.query_escape (form_of notifier message);
}

module _ {W : Type 0} (t : NetHttp W) where
  -- When a modifier fails, the request is not sent: Do answers that error, and the world is as the modifier
  -- left it.
  pub send_modified_stops :
      (modify : Modifier W) (modifiers : List (Option (Modifier W))) (req req' : HttpRequest)
      (e : Error) (w v : W)
      → modify req w ≡ (done (req', some e), v)
      → send_modified t (none ∷ some modify ∷ modifiers) req w ≡ (done (err e), v)
  unfolding send_modified modify_all
  send_modified_stops modify modifiers req req' e w v failed =
      rw (failed, send_modified, modify_all) refl

  module _ (sent : W → List HttpRequest) (posts : Posts t sent) where
    abbrev Posted : HttpRequest → Action W (Result String) → W → Type 0
    Posted req m w =
        (answer : Result String) × (v : W) × (m w ≡ (done answer, v))
        × (sent v ≡ sent w ++ req ∷ [])

    do_request-Posted : (req : HttpRequest) (w : W) → Posted req (do_request t [] req) w
    unfolding do_request send_modified modify_all
    do_request-Posted req w =
        let (answer, v, e, log) = posts.sends req w in by_answer answer v e log
      where
        by_answer :
            (answer : Result HttpResponse) (v : W)
            → t.send_request req w ≡ (done answer, v)
            → sent v ≡ sent w ++ req ∷ []
            → Posted req (do_request t [] req) w
        by_answer (err x) v e log =
            (err x, v, unfold do_request send_modified modify_all in rw e refl, log)
        by_answer (ok response) v e log =
            (accept t response, v, unfold do_request send_modified modify_all in rw e refl, log)

    post_form-Posted :
        (notifier : NotifierClient) (message : NotifyMessage) (w : W)
        → Posted
            (request_for t notifier message)
            (post_form t [] notifier.alarm_url (form_of notifier message))
            w
    unfolding post_form post_body
    post_form-Posted notifier message w =
        rw (posts.makes notifier.alarm_url, post_form, post_body)
          (do_request-Posted (request_for t notifier message) w)

    -- When every request can be made and is answered somehow, Notify returns, and has sent one
    -- form for each message, in order, whatever the answers are.
    pub notify_sends_all :
        (notifier : NotifierClient) (messages : List NotifyMessage) (w : W)
        → (v : W) × (notify t notifier messages w ≡ (done tt, v))
          × (sent v ≡ sent w ++ map (request_for t notifier) messages)
    unfolding notify
    notify_sends_all notifier [] w = (w, refl, sym (append-nil (sent w)))
    notify_sends_all notifier (message ∷ messages) w =
        let (answer, w1, posted, log) = post_form-Posted notifier message w in
        let (v, rest, log') = notify_sends_all notifier messages w1 in
        (
          v,
          rw (posted, notify) rest,
          log'
              ∙ (ap (λ l. l ++ map (request_for t notifier) messages) log
                  ∙ append_assoc (sent w) _ _),
        )
