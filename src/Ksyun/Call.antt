-- ===== src/Ksyun/Call.antt =====
-- What every method of the service clients does around a request: take the keys, set the HTTP client
-- up, send, and send once more with new keys when the token has expired. The lock of the client is
-- held throughout.
use vpc_route_controller.Common.{
  String, Option, none, some, [], ◌∷◌, ◌==◌, if◌then◌else◌, concat, contains, Dict, insert, Action,
  Result, ok, err, Error, plain, message, pure, modify, ◌>>=◌, ◌>>◌,
}
use vpc_route_controller.Http.Kop.{
  KopClient, set_endpoint, set_header, set_byte_body, set_url_query, set_method, set_signer,
}
use vpc_route_controller.Http.Send.{go}
use vpc_route_controller.Ksyun.Types.{Config, Aksk, Services, default_network_endpoint}

-- The fields of `RouteClient`, `ServerClient` and `AlarmClient` that change; only the first has a tag.
pub record Client : Type 0 where
  pub headers : Dict String
  pub kop : KopClient
  pub product_tag : String

pub record Session (W : Type 0) : Type 0 where
  pub client : Client
  pub world : W

abbrev pub security_token : String
security_token = "X-Ksc-Security-Token"

abbrev pub token_expired : String
token_expired = "SecurityTokenExpired"

-- The endpoint, which the constructors set to the default where it is missing.
abbrev pub endpoint_of : Config → String
endpoint_of conf =
    if conf.network_endpoint == "" then default_network_endpoint else conf.network_endpoint

-- A request of a client's method: the headers that it sets first, and the words for its errors.
pub record Request : Type 0 where
  pub service : String
  pub headers : Dict String → Dict String
  pub body : Option String
  pub method : String
  pub query : Dict String
  pub what : String

module _ {W A : Type 0} where
  abbrev pub with_world : Action W A → Action (Session W) A
  with_world m s = let (a, w) = m s.world in (a, record s { world = w })

  -- Calls methods on a client of their own.
  abbrev pub with_client : Client → Action (Session W) A → Action W A
  with_client c m w = let (a, s) = m (record { client = c; world = w }) in (a, s.world)

-- `if len(aksk.SecurityToken) != 0 { c.headers[...] = aksk.SecurityToken }`
abbrev pub put_token : Aksk → Dict String → Dict String
put_token aksk h =
    if aksk.security_token == "" then h else insert security_token aksk.security_token h

abbrev pub set_body_if : Option String → KopClient → KopClient
set_body_if none kop = kop
set_body_if (some body) kop = set_byte_body body kop

module _ {W : Type 0} (env : Services W) (conf : Config) where
  -- The setters, from `SetEndpoint` to `SetSigner`.
  unfoldable pub set_up : Request → Aksk → Client → Client
  set_up q aksk c =
      let h = put_token aksk (q.headers c.headers) in
      record c {
        headers = h;
        kop = set_signer q.service conf.region aksk.ak aksk.sk (
            set_method q.method (
              set_url_query env.transport "" q.query (
                set_body_if q.body
                  (set_header h (set_endpoint env.transport (endpoint_of conf) c.kop)))));
      }

  -- `aksk` after `ReloadAKSK`: the client's headers and the signer change.
  unfoldable pub renew : Request → Aksk → Client → Client
  renew q aksk c = record c {
    headers = put_token aksk c.headers;
    kop = set_signer q.service conf.region aksk.ak aksk.sk c.kop;
  }

  -- `c.client.Go()`
  unfoldable pub go_client : Action (Session W) (Result String)
  go_client s = with_world (go env.transport s.client.kop) s

  abbrev on_client : (Client → Client) → Action (Session W) (Unit {0})
  on_client f = modify (λ s. record s { client = f s.client })

  abbrev pub retry_error : Request → Error → Error
  retry_error q e =
      plain (concat ("retry kop " ∷ q.what ∷ " after reloading aksk err: " ∷ message e ∷ []))

  -- The second `Go`, with its error.
  unfoldable pub go_again : Request → Action (Session W) (Result String)
  unfolding go_client
  go_again q = do
    answer ← go_client
    elim answer [ ok bytes ↦ pure (ok bytes) | err e ↦ pure (err (retry_error q e)) ]

  -- `ReloadAKSK`, and the second `Go`.
  unfoldable pub reload : Request → Action (Session W) (Result String)
  unfolding renew go_again
  reload q = do
    renewed ← with_world env.reload_aksk
    elim renewed [
      | err e ↦
          pure (err (plain (concat ("kop " ∷ q.what ∷ " and reload aksk err: " ∷ message e ∷ []))))
      | ok aksk ↦ do on_client (renew q aksk); go_again q
    ]

  -- From the first `Go` to the bytes of the answer.
  unfoldable pub go_renewing : Request → Action (Session W) (Result String)
  unfolding reload go_client
  go_renewing q = do
    answer ← go_client
    elim answer [
      | ok bytes ↦ pure (ok bytes)
      | err e ↦
          if contains (message e) token_expired
          then reload q
          else pure (err (plain (concat ("kop " ∷ q.what ∷ " err: " ∷ message e ∷ []))))
    ]

  unfoldable pub call : Request → Action (Session W) (Result String)
  unfolding set_up go_renewing
  call q = do
    got ← with_world env.get_aksk
    elim got [ err e ↦ pure (err e) | ok aksk ↦ do on_client (set_up q aksk); go_renewing q ]
