-- ===== src/Http/Kop.antt =====
-- `KopClient` of pkg/http/kophttp.go with its setters, and the third-party code below it. The tracing
-- spans, and the context, which is never cancelled here, are left out.
use vpc_route_controller.Common.{
  ℕ, String, Bool, true, false, Option, none, some, List, [], ◌∷◌, ◌==◌, if◌then◌else◌, concat,
  Dict, insert, Action, Result, ok, err, Error,
}

-- `wait.Backoff`: durations in milliseconds, `Factor` and `Jitter` in tenths.
pub record Backoff : Type 0 where
  pub duration : ℕ
  pub factor : ℕ
  pub jitter : ℕ
  pub steps : ℕ
  pub cap : ℕ

-- `DefaultBackOff`
abbrev pub default_backoff : Backoff
default_backoff = record { duration = 500; factor = 15; jitter = 20; steps = 10; cap = 5000 }

-- An access key and its secret.
pub record Keys : Type 0 where
  pub ak : String
  pub sk : String

-- `KopClient`. `insecure` tells that `client` was replaced by the one that takes any certificate.
pub record KopClient : Type 0 where
  pub endpoint : String
  pub tenant_id : String
  pub instance_id : String
  pub method : String
  pub url : String
  pub request_id_prefix : String
  pub headers : Dict String
  pub body : Option String
  pub insecure : Bool
  pub signer : Option Keys
  pub region : String
  pub servername : String
  pub backoff : Option Backoff

-- `http.Request`, as far as it is sent.
pub record HttpRequest : Type 0 where
  pub method : String
  pub url : String
  pub header : Dict (List String)
  pub body : String

-- `http.Response`: the status, and what `ioutil.ReadAll` makes of the body.
pub record HttpResponse : Type 0 where
  pub status_code : ℕ
  pub body : Result String

-- Third-party code: the scheme that `url.Parse` finds, the error of `http.NewRequest` at a method and
-- a URL, `textproto.CanonicalMIMEHeaderKey`, `url.Values.Encode`, the signer, `http.Client.Do`, the
-- letters that package random draws, and `retry.Do` at a delay and a `RetryIf`.
pub record Transport (W : Type 0) : Type 0 where
  pub parse_scheme : String → Result String
  pub request_error : String → String → Option Error
  pub canonical_key : String → String
  pub encode : Dict String → String
  pub sign : Keys → String → String → HttpRequest → Action W (Result HttpRequest)
  pub send_request : Bool → HttpRequest → Action W (Result HttpResponse)
  pub random_string : Action W String
  pub retry_do : Backoff → (Error → Bool) → Action W (Result String) → Action W (Result String)

abbrev pub post : String
post = "POST"

abbrev pub put : String
put = "PUT"

abbrev pub get : String
get = "GET"

abbrev pub delete : String
delete = "DELETE"

abbrev pub agent : String
agent = "vpc-route-controller"

-- `NewKopClient`, at the endpoint of package http.
abbrev pub new_kop_client : String → KopClient
new_kop_client endpoint = record {
  endpoint = endpoint;
  tenant_id = "";
  instance_id = "";
  method = "";
  url = "";
  request_id_prefix = agent;
  headers = [];
  body = none;
  insecure = false;
  signer = none;
  region = "";
  servername = "";
  backoff = some default_backoff;
}

-- Writes every entry of a map into another.
unfoldable pub insert_all : Dict String → Dict String → Dict String
insert_all [] m = m
insert_all ((k, v) ∷ entries) m = insert_all entries (insert k v m)

abbrev after_scheme : Result String → KopClient → KopClient
after_scheme (err e) kop = kop
after_scheme (ok scheme) kop = if scheme == "https" then record kop { insecure = true } else kop

module _ {W : Type 0} (t : Transport W) where
  -- `SetEndpoint`
  abbrev pub set_endpoint : String → KopClient → KopClient
  set_endpoint value kop = after_scheme (t.parse_scheme value) (record kop { endpoint = value })

  -- `SetUrlQuery` at a `url.Values`, of which only the first value of a key counts.
  abbrev pub set_url_query : String → Dict String → KopClient → KopClient
  set_url_query value query kop =
      if value == ""
      then record kop { url = concat (kop.endpoint ∷ "?" ∷ t.encode query ∷ []) }
      else record kop { url = concat (kop.endpoint ∷ "/" ∷ value ∷ "?" ∷ t.encode query ∷ []) }

-- `SetInstanceId`
abbrev pub set_instance_id : String → KopClient → KopClient
set_instance_id value kop = record kop { instance_id = value }

-- `SetTenantId`
abbrev pub set_tenant_id : String → KopClient → KopClient
set_tenant_id value kop = record kop { tenant_id = value }

-- `SetRequestIdPrefix`
abbrev pub set_request_id_prefix : String → KopClient → KopClient
set_request_id_prefix value kop = record kop {
  request_id_prefix = if value == "" then agent else value;
}

-- `SetMethod`
abbrev pub set_method : String → KopClient → KopClient
set_method value kop = record kop { method = value }

-- `SetHeader`: the client copies the entries.
unfoldable pub set_header : Dict String → KopClient → KopClient
set_header value kop = record kop { headers = insert_all value kop.headers }

-- `SetBackOff`
abbrev pub set_back_off : Option Backoff → KopClient → KopClient
set_back_off value kop = record kop { backoff = value }

-- `SetByteBody`, and `SetBody` at the JSON of the value.
abbrev pub set_byte_body : String → KopClient → KopClient
set_byte_body value kop = record kop { body = some value }

-- `SetUrl`
abbrev pub set_url : String → KopClient → KopClient
set_url value kop = record kop { url = concat (kop.endpoint ∷ "/" ∷ value ∷ []) }

-- `SetSigner`
abbrev pub set_signer : String → String → String → String → KopClient → KopClient
set_signer server_name region ak sk kop = record kop {
  region = region;
  servername = server_name;
  signer = some (record { ak = ak; sk = sk });
}
