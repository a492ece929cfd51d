-- ===== src/Ksyun/Nova.antt =====
-- `ServerClient` (pkg/ksyun/openstack_client/nova/server.go) and `AlarmClient`
-- (pkg/ksyun/openstack_client/alarm/alarm.go).
use vpc_route_controller.Common.{
  String, Option, none, some, List, [], ◌∷◌, if◌then◌else◌, concat, contains, Action, Result, ok,
  err, Error, plain, message, pure, modify, ◌>>=◌, ◌>>◌,
}
use vpc_route_controller.Http.Kop.{
  KopClient, new_kop_client, get, post, set_endpoint, set_header, set_byte_body, set_url_query,
  set_method, set_signer,
}
use vpc_route_controller.Ksyun.Types.{Config, Services, Instance, InstanceArgs, AlarmArgs}
use vpc_route_controller.Ksyun.Call.{Client, Session, call, go_client, endpoint_of, token_expired}

-- The clients as `NewServerClient` and `NewAlarmClient` make them.
abbrev pub new_client : String → Client
new_client endpoint = record {
  headers =
      ("User-Agent", "vpc-route-controller")
      ∷ ("Content-Type", "application/json")
      ∷ ("Accept", "application/json")
      ∷ [];
  kop = new_kop_client endpoint;
  product_tag = "";
}

abbrev first_instance : String → List Instance → Result Instance
first_instance what [] = err (plain (concat ("kop get instance " ∷ what ∷ " err: not found" ∷ [])))
first_instance what (i ∷ is) = ok i

abbrev unmarshal_error : String → Error → Error
unmarshal_error bytes e = plain (concat ("json unmarshal " ∷ bytes ∷ " err: " ∷ message e ∷ []))

module _ {W : Type 0} (env : Services W) (conf : Config) where
  -- `DescribeInstances`
  unfoldable pub describe_instances : InstanceArgs → Action (Session W) (Result Instance)
  describe_instances args = do
    answer ← call env conf (record {
      service = "kec";
      headers = λ h. h;
      body = none;
      method = get;
      query =
          ("Action", "DescribeInstances")
          ∷ ("Version", "2016-03-04")
          ∷ ("Filter.1.Name", "vpc-id")
          ∷ ("Filter.1.Value.1", args.domain_id)
          ∷ ("Filter.2.Name", "private-ip-address")
          ∷ ("Filter.2.Value.1", args.instance_private_ip)
          ∷ [];
      what = concat ("get instances " ∷ env.codec.show_instance_args args ∷ []);
    })
    elim answer [
      | err e ↦ pure (err e)
      | ok bytes ↦ elim (env.codec.read_instances bytes) [
        | err e ↦ pure (err (unmarshal_error bytes e))
        | ok found ↦ pure (first_instance (env.codec.show_instance_args args) found)
      ]
    ]

  abbrev pub sign_alarm : KopClient → KopClient
  sign_alarm = set_signer "alarm" conf.region env.alarm_ak env.alarm_sk

  abbrev pub set_up_alarm : AlarmArgs → Client → Client
  set_up_alarm args c = record c {
    kop = sign_alarm (
        set_method post (
          set_url_query env.transport ""
            (("Action", "AlarmReceptor") ∷ ("Version", "2019-01-30") ∷ [])
            (set_byte_body (env.codec.alarm_args_json args)
              (set_header c.headers (set_endpoint env.transport (endpoint_of conf) c.kop)))));
  }

  -- `CreateAlarm`: no keys are fetched, and an expired token is answered by a second try.
  unfoldable pub create_alarm : AlarmArgs → Action (Session W) (Option Error)
  create_alarm args = do
    modify (λ s. record s { client = set_up_alarm args s.client })
    answer ← go_client env conf
    elim answer [
      | ok bytes ↦ pure none
      | err e ↦
          if contains (message e) token_expired
          then (do
            modify (λ s. record s { client = record s.client { kop = sign_alarm s.client.kop } })
            again ← go_client env conf
            elim again [
              | ok bytes ↦ pure none
              | err e' ↦ pure (
                  some (
                    plain (
                      concat (
                        "retry kop create alarm "
                        ∷ env.codec.show_alarm_args args
                        ∷ " after reloading aksk err: "
                        ∷ message e'
                        ∷ []))))
            ])
          else pure (
              some (
                plain (
                  concat (
                    "kop create alarm "
                    ∷ env.codec.show_alarm_args args
                    ∷ " err: "
                    ∷ message e
                    ∷ []))))
    ]
