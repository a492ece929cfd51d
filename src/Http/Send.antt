-- ===== src/Http/Send.antt =====
-- `send`, `shouldRetry` and `Go` of pkg/http/kophttp.go.
use vpc_route_controller.Common.{
  ℕ, String, Bool, true, false, ◌||◌, ◌&&◌, Option, none, some, List, [], ◌∷◌, ◌++◌, ◌==◌, nat_eq,
  if◌then◌else◌, concat, Dict, lookup, insert, Action, Result, ok, err, Error, plain, status_error,
  kop, timeout_error, eof, unexpected_eof, dns_error, op_error, url_error, pure, panic, not,
  is_some, ◌>>=◌,
}
use vpc_route_controller.Http.Kop.{
  Backoff, default_backoff, KopClient, HttpRequest, HttpResponse, Transport, agent, post, put,
}

-- The error types with a method `Timeout() bool`, which is all that `err.(TimeoutError)` asks of the
-- error: package net's own, and `*url.Error`.
unfoldable pub is_timeout_error : Error → Bool
is_timeout_error (timeout_error s) = true
is_timeout_error (dns_error s) = true
is_timeout_error (op_error o s) = true
is_timeout_error (url_error o u e) = true
is_timeout_error _ = false

abbrev is_safe_op : String → Bool
is_safe_op op = op == "Get" || op == "Put" || op == "Delete" || op == "Head"

-- `shouldRetry`, at an error that is not nil.
unfoldable pub should_retry : Error → Bool
unfolding is_timeout_error
should_retry (url_error op url e) =
    let rest = should_retry e in
    if is_timeout_error (url_error op url e) then true else if is_safe_op op then rest else false
should_retry (plain s) = if is_timeout_error (plain s) then true else false
should_retry (status_error r s) = if is_timeout_error (status_error r s) then true else false
should_retry (kop code text) = if is_timeout_error (kop code text) then true else false
should_retry (timeout_error s) = if is_timeout_error (timeout_error s) then true else false
should_retry eof = true
should_retry unexpected_eof = true
should_retry (dns_error s) = if is_timeout_error (dns_error s) then true else true
should_retry (op_error op s) =
    if is_timeout_error (op_error op s) then true else op == "read" || op == "write"

module _ {W : Type 0} (t : Transport W) where
  -- `http.Header.Add`
  abbrev add_value : String → String → Dict (List String) → Dict (List String)
  add_value key value h =
      let k = t.canonical_key key in
      insert k (elim (lookup k h) [ none ↦ value ∷ [] | some values ↦ values ++ value ∷ [] ]) h

  -- `http.Header.Set`, for every entry of a map.
  unfoldable pub set_values : Dict String → Dict (List String) → Dict (List String)
  set_values [] h = h
  set_values ((key, value) ∷ entries) h =
      set_values entries (insert (t.canonical_key key) (value ∷ []) h)

  abbrev pub own_headers : String → Dict (List String) → Dict (List String)
  own_headers request_id h = add_value "X-Openstack-Request-Id" request_id (
      add_value "X-Request-ID" request_id (
        add_value "User-Agent" agent
          (add_value "Accept" "*/*" (add_value "Content-Type" "application/json" h))))

  -- `(*bytes.Buffer).String()`, which a nil buffer answers as well.
  abbrev pub buffer_string : Option String → String
  buffer_string none = "<nil>"
  buffer_string (some body) = body

  -- `http.NewRequest` is given the buffer, of which it takes the length: that panics on a nil one.
  abbrev takes_buffer : KopClient → Bool
  takes_buffer c = c.method == post || c.method == put

  abbrev unsigned_body : KopClient → String
  unsigned_body c = if takes_buffer c then elim c.body [ none ↦ "" | some body ↦ body ] else ""

  -- The request that `send` makes before it adds the headers.
  unfoldable pub base_request : KopClient → Action W (Result HttpRequest)
  base_request c = elim (t.request_error c.method c.url) [
    | some e ↦ pure (err e)
    | none ↦ if takes_buffer c && not (is_some c.body) then panic else elim c.signer [
      | none ↦
          pure (ok (record { method = c.method; url = c.url; header = []; body = unsigned_body c }))
      | some keys ↦
          t.sign keys c.servername c.region
            (record { method = c.method; url = c.url; header = []; body = buffer_string c.body })
    ]
  ]

  -- The statuses that count as success.
  abbrev pub is_success : ℕ → Bool
  is_success code = nat_eq code 200 || nat_eq code 201 || nat_eq code 202 || nat_eq code 204

  unfoldable pub read_response : HttpResponse → Result String
  read_response response = elim response.body [
    | err e ↦ err e
    | ok bytes ↦
        if is_success response.status_code then ok bytes else err (kop response.status_code bytes)
  ]

  -- `genRequestId`, over the letters that `generator` draws.
  abbrev pub gen_request_id : KopClient → String → String
  gen_request_id c letters = concat (c.request_id_prefix ∷ "-" ∷ letters ∷ [])

  -- `send`
  unfoldable pub send : KopClient → Action W (Result String)
  unfolding base_request set_values read_response
  send c = do
    letters ← t.random_string
    made ← base_request c
    elim made [
      | err e ↦ pure (err e)
      | ok request ↦ do
        answer ← t.send_request c.insecure (record request {
          header = set_values c.headers (own_headers (gen_request_id c letters) request.header);
        })
        elim answer [ err e ↦ pure (err e) | ok response ↦ pure (read_response response) ]
    ]

  abbrev is_zero_backoff : Backoff → Bool
  is_zero_backoff b =
      nat_eq b.duration 0
      && nat_eq b.factor 0
      && nat_eq b.jitter 0
      && nat_eq b.steps 0
      && nat_eq b.cap 0

  unfoldable pub effective_backoff : Option Backoff → Backoff
  effective_backoff none = default_backoff
  effective_backoff (some b) = if is_zero_backoff b then default_backoff else b

  -- `util.RetryWithBackOff` (pkg/util/retry.go), which hands its arguments to `retry.Do`.
  abbrev pub retry_with_back_off :
      Backoff → Action W (Result String) → (Error → Bool) → Action W (Result String)
  retry_with_back_off b fn should = t.retry_do b should fn

  -- `Go`
  unfoldable pub go : KopClient → Action W (Result String)
  unfolding should_retry send effective_backoff
  go c = retry_with_back_off (effective_backoff c.backoff) (send c) should_retry
