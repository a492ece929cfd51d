-- ===== src/Ksyun/Settings.antt =====
-- `GetNeutronConfig` and `getErrorString` of pkg/ksyun/ksyun.go. The variable NET_CONF and `json.Unmarshal` are
-- parameters; `init` ends the program where this fails.
use vpc_route_controller.Common.{
  String, Bool, Option, none, some, [], ◌∷◌, ◌==◌, if◌then◌else◌, concat, Result, ok, err, Error,
  plain, message,
}
use vpc_route_controller.Ksyun.Types.{Config}

-- The fields of `config.Config` that say where the keys come from, beside those that the clients read.
pub record NetConf : Type 0 where
  pub client : Config
  pub aksk_type : String
  pub aksk_file_path : String
  pub encrypt : Bool

-- `NewEnvAKSKProvider` and `NewFileAKSKProvider`, with their arguments.
pub data AkskProvider : Type 0 where
  env_provider : Bool → String → AkskProvider
  file_provider : String → String → AkskProvider

-- The choice of the provider.
unfoldable pub provider_of : String → NetConf → Result AkskProvider
provider_of default_cipher_key c =
    if c.aksk_type == "env"
    then ok (env_provider c.encrypt default_cipher_key)
    else if c.aksk_type == "file"
    then ok (file_provider c.aksk_file_path default_cipher_key)
    else err (plain "please set aksk type.")

-- `GetNeutronConfig`
unfoldable pub get_neutron_config :
    String → (String → Result NetConf) → String → Result (NetConf × AkskProvider)
unfolding provider_of
get_neutron_config default_cipher_key unmarshal content =
    if content == "" then err (plain "net config is null.") else elim (unmarshal content) [
      | err e ↦ err (plain (concat ("json unmarshal " ∷ content ∷ " error: " ∷ message e ∷ [])))
      | ok c ↦ elim (provider_of default_cipher_key c) [
        | err e ↦ err e
        | ok provider ↦ ok (c, provider)
      ]
    ]

-- `getErrorString`
unfoldable pub get_error_string : Option Error → String
get_error_string none = ""
get_error_string (some e) = message e
