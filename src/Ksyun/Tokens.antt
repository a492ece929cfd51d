-- ===== src/Ksyun/Tokens.antt =====
-- What the clients send when the security token has expired (pkg/ksyun/openstack_client).
use vpc_route_controller.Common.{String, ◌≡◌, refl, ap, Outcome, done, panicked, Result, ok, err}
use vpc_route_controller.Http.Kop.{set_signer}
use vpc_route_controller.Http.Send.{go}
use vpc_route_controller.Ksyun.Types.{Config, Services, Aksk}
use vpc_route_controller.Ksyun.Call.{
  Session, Request, put_token, renew, go_client, go_again, reload,
}

module _ {W : Type 0} (env : Services W) (conf : Config) (q : Request) where
  KeepsClient : Session W → Outcome (Result String) × W → Type 0
  KeepsClient s r =
      (go env.transport s.client.kop s.world ≡ r) → (go_again env conf q s).1.client ≡ s.client

  go_again_keeps : (s : Session W) (r : Outcome (Result String) × W) → KeepsClient s r
  unfolding KeepsClient go_again go_client
  go_again_keeps s (done (ok bytes), w) e = rw (e, go_client) refl
  go_again_keeps s (done (err x), w) e = rw (e, go_client) refl
  go_again_keeps s (panicked, w) e = rw (e, go_client) refl

  reload_client :
      (s : Session W) (w : W) (aksk : Aksk)
      → env.reload_aksk s.world ≡ (done (ok aksk), w)
      → (reload env conf q s).1.client ≡ renew env conf q aksk s.client
  unfolding reload KeepsClient
  reload_client s w aksk e =
      rw (e, reload)
        (go_again_keeps (record s { client = renew env conf q aksk s.client; world = w }) _ refl)

  -- The world after a second `Go` is the one after the client's own `go`.
  go_again_world :
      (s : Session W) (r : Outcome (Result String) × W)
      → go env.transport s.client.kop s.world ≡ r
      → (go_again env conf q s).1.world ≡ r.1
  unfolding go_again go_client
  go_again_world s (done (ok bytes), w) e = rw (e, go_client) refl
  go_again_world s (done (err x), w) e = rw (e, go_client) refl
  go_again_world s (panicked, w) e = rw (e, go_client) refl

  reload_world :
      (s : Session W) (w : W) (aksk : Aksk)
      → env.reload_aksk s.world ≡ (done (ok aksk), w)
      → (reload env conf q s).1.world
        ≡ (go env.transport (set_signer q.service conf.region aksk.ak aksk.sk s.client.kop) w).1
  unfolding reload renew
  reload_world s w aksk e =
      rw (e, reload)
        (go_again_world (record s { client = renew env conf q aksk s.client; world = w }) _ refl)

  -- After ReloadAKSK succeeded, the world is left as one Go of the HTTP client of the first
  -- request leaves it, with the signer of the new keys and the headers of the first request, so
  -- that the new token is not sent; only the headers of the client itself have it.
  pub reload_sends_old_headers :
      (s : Session W) (w : W) (aksk : Aksk)
      → env.reload_aksk s.world ≡ (done (ok aksk), w)
      → let (_, s') = reload env conf q s in
        (s'.world
          ≡ (go env.transport (set_signer q.service conf.region aksk.ak aksk.sk s.client.kop) w).1)
        × ((set_signer q.service conf.region aksk.ak aksk.sk s.client.kop).headers
            ≡ s.client.kop.headers)
        × (s'.client.kop.headers ≡ s.client.kop.headers)
        × (s'.client.headers ≡ put_token aksk s.client.headers)
  unfolding renew
  reload_sends_old_headers s w aksk e = (
    reload_world s w aksk e,
    refl,
    ap (λ c. c.kop.headers) (reload_client s w aksk e),
    ap (λ c. c.headers) (reload_client s w aksk e),
  )
