-- ===== src/Ksyun/Sending.antt =====
-- What a method of the route client makes of the answer of a service that keeps entries
-- (pkg/ksyun/openstack_client/neutron/route.go over pkg/http/kophttp.go).
use vpc_route_controller.Common.{
  ℕ, String, Bool, true, false, not, ◌&&◌, ◌||◌, Option, none, some, List, [], ◌∷◌, ◌≡◌, refl, ap,
  ◌∙◌, ◌==◌, Bool-cases, Result-cases, inl, inr, concat, contains, contains-append_left,
  contains_middle, decimal, message, is_some, Dict, Action, done, ok, err, Error, plain, kop, arith,
}
use vpc_route_controller.Http.Kop.{
  Keys, KopClient, HttpResponse, post, put, set_endpoint, set_header,
}
use vpc_route_controller.Http.Send.{
  is_timeout_error, base_request, set_values, own_headers, gen_request_id, buffer_string,
  is_success, read_response, send, should_retry, effective_backoff, go,
}
use vpc_route_controller.Ksyun.Types.{Config, Services, RouteSetType, Aksk}
use vpc_route_controller.Ksyun.Call.{
  Client, Session, Request, endpoint_of, set_body_if, with_client, set_up, go_client, go_renewing,
  call,
}
use vpc_route_controller.Ksyun.Vpc.{url_of, Responds, Succeeds, Refuses, CanSend}

-- A request that needs a body has one.
abbrev HasBody : Request → Type 0
HasBody q = ((q.method == post || q.method == put) && not (is_some q.body)) ≡ false

set_body_if-endpoint :
    (body : Option String) (c : KopClient) → (set_body_if body c).endpoint ≡ c.endpoint
set_body_if-endpoint none c = refl
set_body_if-endpoint (some body) c = refl

has_body :
    (takes : Bool) (body : Option String) (c : KopClient)
    → (takes && not (is_some body)) ≡ false
    → (takes && not (is_some (set_body_if body c).body)) ≡ false
has_body takes none c has = ground (arith, has)
has_body takes (some body) c has = has

-- A method of a client of its own ends as the method does.
pub with_client-ends :
    {W A : Type 0} (c : Client) (m : Action (Session W) A) (w : W) (s : Session W) (a : A)
    → m (record { client = c; world = w }) ≡ (done a, s)
    → with_client c m w ≡ (done a, s.world)
with_client-ends c m w s a ended = ap (λ out. (out.0, out.1.world)) ended

module _ {W : Type 0} (env : Services W) (conf : Config) where
  pub set_endpoint_lem :
      (value : String) (client : KopClient)
      → (set_endpoint env.transport value client).endpoint ≡ value
  set_endpoint_lem value client = elim (Result-cases (env.transport.parse_scheme value)) [
    | inl (scheme, e) ↦ elim (Bool-cases (scheme == "https")) [
      | inl y ↦ rw e (rw y refl)
      | inr n ↦ rw e (rw n refl)
    ]
    | inr (x, e) ↦ rw e refl
  ]

  set_up-url :
      (q : Request) (aksk : Aksk) (c : Client)
      → (set_up env conf q aksk c).kop.url ≡ url_of env conf q.query
  unfolding set_up set_header
  set_up-url q aksk c =
      rw (set_body_if-endpoint q.body _, set_endpoint_lem (endpoint_of conf) c.kop) refl

  set_up-HasBody :
      (q : Request) (aksk : Aksk) (c : Client)
      → HasBody q
      → let kop = (set_up env conf q aksk c).kop in
        ((kop.method == post || kop.method == put) && not (is_some kop.body)) ≡ false
  unfolding set_up set_header
  set_up-HasBody q aksk c has = has_body (q.method == post || q.method == put) q.body _ has

  module _ (entries : W → List RouteSetType) (can : CanSend env conf entries) where
    -- The client of a request that is set up sends it, and reads the response.
    pub sends :
        (c : KopClient) (keys : Keys) (query : Dict String) (w : W) (P : HttpResponse → W → Type 0)
        → c.signer ≡ some keys
        → c.url ≡ url_of env conf query
        → ((c.method == post || c.method == put) && not (is_some c.body)) ≡ false
        → ((u : W) → entries u ≡ entries w → Responds env conf c.method query u P)
        → (response : HttpResponse) × (v : W) × (send env.transport c w
            ≡ (done (read_response env.transport response), v))
          × P response v
    unfolding send base_request
    sends c keys query w P signer url has responds =
        let (drawn, w1, letters, t1) = can.letters w in
        let (signed, u, signing, m, l, t2) =
          can.signs keys c.servername c.region
            (record {
              method = c.method;
              url = c.url;
              header = [];
              body = buffer_string env.transport c.body;
            })
            w1 in
        let made : base_request env.transport c w1 ≡ (done (ok signed), u) =
          rw (can.makes c.method c.url, base_request) (rw has (rw signer signing)) in
        let header =
          set_values env.transport c.headers
            (own_headers env.transport (gen_request_id env.transport c drawn) signed.header) in
        let (response, v, answered, p) =
          responds u (t2 ∙ t1) c.insecure (record signed { header = header }) m (l ∙ url) in
        (response, v, rw (letters, send) (rw made (rw answered refl)), p)

    -- What is told of the responses to the query of a request, in every world with the entries of the
    -- session's.
    abbrev RespondsTo : Request → Session W → (HttpResponse → W → Type 0) → Type 0
    RespondsTo q s P =
        (u : W) → entries u ≡ entries s.world → Responds env conf q.method q.query u P

    call_sends :
        (q : Request) (s : Session W) (P : HttpResponse → W → Type 0)
        → HasBody q
        → RespondsTo q s P
        → (aksk : Aksk) × (w : W) × (response : HttpResponse) × (v : W) × (env.get_aksk s.world
            ≡ (done (ok aksk), w))
          × (send env.transport (set_up env conf q aksk s.client).kop w
              ≡ (done (read_response env.transport response), v))
          × P response v
    call_sends q s P has responds =
        let (aksk, w, got, t) = can.keys s.world in
        let client = set_up env conf q aksk s.client in
        let (response, v, sent, p) =
          sends client.kop (record { ak = aksk.ak; sk = aksk.sk }) q.query w P
            (unfold set_up in refl) (set_up-url q aksk s.client)
            (set_up-HasBody q aksk s.client has)
            (unfold set_up in λ u same. responds u (same ∙ t)) in
        (aksk, w, response, v, got, sent, p)

    pub read_success :
        (response : HttpResponse) (bytes : String)
        → is_success env.transport response.status_code ≡ true
        → response.body ≡ ok bytes
        → read_response env.transport response ≡ ok bytes
    unfolding read_response
    read_success response bytes good body = rw (body, read_response) (rw good refl)

    read_refusal :
        (response : HttpResponse) (bytes : String)
        → is_success env.transport response.status_code ≡ false
        → response.body ≡ ok bytes
        → read_response env.transport response ≡ err (kop response.status_code bytes)
    unfolding read_response
    read_refusal response bytes bad body = rw (body, read_response) (rw bad refl)

    -- A method whose request is answered with a success ends with the body, and with the world after.
    pub call-Succeeds :
        (q : Request) (s : Session W) (P : String → W → Type 0)
        → HasBody q
        → RespondsTo q s (Succeeds env conf P)
        → (bytes : String) × (s' : Session W) × (call env conf q s ≡ (done (ok bytes), s'))
          × (s'.client.product_tag ≡ s.client.product_tag)
          × P bytes s'.world
    unfolding call go_renewing go_client go
    call-Succeeds q s P has responds =
        let (aksk, w, response, v, got, sent, (bytes, good, body, p)) =
          call_sends q s _ has responds in
        let client = set_up env conf q aksk s.client in
        let went =
          can.ends.success (effective_backoff env.transport client.kop.backoff) should_retry
            (send env.transport client.kop) w v bytes
            (rw (read_success response bytes good body) at sent) in
        (
          bytes,
          record { client = client; world = v },
          rw (got, call) (rw went refl),
          unfold set_up in refl,
          p,
        )

    -- The error of a method whose request is refused.
    abbrev pub refusal_of : Request → ℕ → String → Error
    refusal_of q code bytes =
        plain (concat ("kop " ∷ q.what ∷ " err: " ∷ message (kop code bytes) ∷ []))

    pub refusal_quotes :
        (q : Request) (code : ℕ) (bytes t : String)
        → contains bytes t ≡ true
        → contains (message (refusal_of q code bytes)) t ≡ true
    unfolding message
    refusal_quotes q code bytes t has = contains-append_left "kop " _ t (
        contains-append_left q.what _ t (
          contains_middle " err: " (message (kop code bytes)) "" t (
            contains-append_left "Kop Error: Status Code: " _ t (
              contains-append_left (decimal code) _ t
                (contains_middle " Message: " bytes "" t has)))))

    -- A method whose request is answered with another status, and not for an expired token, ends with
    -- an error that quotes the body.
    pub call_refused :
        (q : Request) (s : Session W) (P : ℕ → String → W → Type 0)
        → HasBody q
        → RespondsTo q s (Refuses env conf P)
        → (code : ℕ) × (bytes : String) × (s' : Session W) × (call env conf q s
            ≡ (done (err (refusal_of q code bytes)), s'))
          × P code bytes s'.world
    unfolding call go_renewing go_client go
    call_refused q s P has responds =
        let (aksk, w, response, v, got, sent, (bytes, bad, body, other, p)) =
          call_sends q s _ has responds in
        let client = set_up env conf q aksk s.client in
        let went =
          can.ends.refusal (effective_backoff env.transport client.kop.backoff) should_retry
            (send env.transport client.kop) w v (kop response.status_code bytes)
            (rw (read_refusal response bytes bad body) at sent)
            (unfold should_retry in unfold is_timeout_error in refl) in
        (
          response.status_code,
          bytes,
          record { client = client; world = v },
          rw (got, call) (rw went (rw other refl)),
          p,
        )
