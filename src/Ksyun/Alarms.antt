-- ===== src/Ksyun/Alarms.antt =====
-- The alarms of pkg/ksyun/ksyun.go, which pkg/ksyun/openstack_client/nova sends, before services that answer
-- and leave a list of entries alone.
use vpc_route_controller.Common.{
  String, Bool, true, false, none, List, Action, when, pure, ◌>>◌, ◌≡◌, refl, done, Error,
}
use vpc_route_controller.Http.Kop.{set_header}
use vpc_route_controller.Http.Send.{send, should_retry, effective_backoff, go}
use vpc_route_controller.Ksyun.Types.{Config, Services, RouteSetType, AlarmArgs}
use vpc_route_controller.Ksyun.Call.{Client, Session, with_client, endpoint_of, go_client}
use vpc_route_controller.Ksyun.Nova.{new_client, set_up_alarm, create_alarm}
use vpc_route_controller.Ksyun.Routes.{alarm_args, raise_alarm}
use vpc_route_controller.Ksyun.Vpc.{url_of, alarm_query, Succeeds, CanSend, KeepsEntries}
use vpc_route_controller.Ksyun.Sending.{set_endpoint_lem, sends, read_success, with_client-ends}

when-Leaves :
    {W A : Type 0} (kept : W → A) (on : Bool) (m : Action W (Unit {0})) (w v : W)
    → m w ≡ (done tt, v)
    → kept v ≡ kept w
    → (u : W) × (when on m w ≡ (done tt, u)) × (kept u ≡ kept w)
when-Leaves kept true m w v ran t = (v, ran, t)
when-Leaves kept false m w v ran t = (w, refl, refl)

module _ {W : Type 0} (env : Services W) (conf : Config) (trusted : Bool)
    (entries : W → List RouteSetType) (can : CanSend env conf entries)
    (keeps : KeepsEntries env conf trusted entries) where
  set_up_alarm-url :
      (args : AlarmArgs) (c : Client)
      → (set_up_alarm env conf args c).kop.url ≡ url_of env conf alarm_query
  unfolding set_header
  set_up_alarm-url args c = rw (set_endpoint_lem env conf (endpoint_of conf) c.kop) refl

  create_alarm_lem :
      (args : AlarmArgs) (s : Session W)
      → (s' : Session W) × (create_alarm env conf args s ≡ (done none, s'))
        × (entries s'.world ≡ entries s.world)
  unfolding create_alarm go_client go
  create_alarm_lem args s =
      let client = set_up_alarm env conf args s.client in
      let (response, v, sent, (bytes, good, body, t)) =
        sends env conf entries can client.kop (record { ak = env.alarm_ak; sk = env.alarm_sk })
          alarm_query s.world (Succeeds env conf (λ bytes v. entries v ≡ entries s.world)) refl
          (set_up_alarm-url args s.client) refl (λ u same. rw (← same) (keeps.alarms u)) in
      let went =
        can.ends.success (effective_backoff env.transport client.kop.backoff) should_retry
          (send env.transport client.kop) s.world v bytes
          (rw (read_success env conf entries can response bytes good body) at sent) in
      (record { client = client; world = v }, rw (went, create_alarm) refl, t)

  -- An alarm is raised, or not, and leaves the entries alone.
  pub raise_alarm_lem :
      (name : String) (e : Error) (w : W)
      → (v : W) × (raise_alarm env conf name e w ≡ (done tt, v)) × (entries v ≡ entries w)
  raise_alarm_lem name e w =
      let args = alarm_args env conf name e in
      let c = new_client env.kop_endpoint in
      let (s, raised, t) = create_alarm_lem args (record { client = c; world = w }) in
      let (v, ran, t') =
        when-Leaves entries conf.alarm_enabled
          (with_client c (create_alarm env conf args) >> pure tt) w s.world
          (rw (with_client-ends c (create_alarm env conf args) w s none raised, raised) refl) t in
      (v, ran, t')
