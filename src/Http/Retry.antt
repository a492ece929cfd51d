-- ===== src/Http/Retry.antt =====
-- Which failures of a request are tried again: `shouldRetry` under `Go` (pkg/http/kophttp.go).
use vpc_route_controller.Common.{
  ℕ, String, Bool, true, false, ◌||◌, ◌≡◌, refl, ap, ◌∙◌, if◌then◌else◌, Action, done, Result, ok,
  err, Error, plain, status_error, kop, timeout_error, eof, unexpected_eof, dns_error, op_error,
  url_error,
}
use vpc_route_controller.Http.Kop.{Backoff, KopClient, Transport}
use vpc_route_controller.Http.Send.{
  is_timeout_error, should_retry, is_success, read_response, send, effective_backoff, go,
}

abbrev pub is_eof : Error → Bool
is_eof eof = true
is_eof unexpected_eof = true
is_eof _ = false

-- A failure is tried again exactly when its type has a method Timeout or it is an end of file; the
-- operation of a url.Error, and so the method of the request, makes no difference.
pub should_retry_lem : (e : Error) → should_retry e ≡ (is_timeout_error e || is_eof e)
unfolding should_retry is_timeout_error
should_retry_lem (plain s) = refl
should_retry_lem (status_error r s) = refl
should_retry_lem (kop c s) = refl
should_retry_lem (timeout_error s) = refl
should_retry_lem eof = refl
should_retry_lem unexpected_eof = refl
should_retry_lem (dns_error s) = refl
should_retry_lem (op_error o s) = refl
should_retry_lem (url_error o u e) = refl

-- What the source relies on: `retry.Do` ends with the first success, and with the first failure that
-- `RetryIf` does not want tried again.
pub record EndsAtOnce {W : Type 0} (t : Transport W) : Type 0 where
  pub success :
      (b : Backoff) (p : Error → Bool) (m : Action W (Result String)) (w w' : W) (bytes : String)
      → m w ≡ (done (ok bytes), w')
      → t.retry_do b p m w ≡ (done (ok bytes), w')
  pub refusal :
      (b : Backoff) (p : Error → Bool) (m : Action W (Result String)) (w w' : W) (e : Error)
      → m w ≡ (done (err e), w')
      → p e ≡ false
      → t.retry_do b p m w ≡ (done (err e), w')

module _ {W : Type 0} (t : Transport W) (ends : EndsAtOnce t) where
  -- For any retry.Do that stops at a failure which RetryIf refuses: when the server answers with a
  -- status that is no success, Go returns that status and the body as its error, after that one
  -- request.
  pub go_refused :
      (c : KopClient) (w w' : W) (code : ℕ) (bytes : String)
      → send t c w ≡ (done (read_response t (record { status_code = code; body = ok bytes })), w')
      → is_success t code ≡ false
      → go t c w ≡ (done (err (kop code bytes)), w')
  unfolding go should_retry read_response
  go_refused c w w' code bytes sent bad =
      ends.refusal (effective_backoff t c.backoff) should_retry (send t c) w w' (kop code bytes)
        (sent ∙ ap (λ b. (done (if b then ok bytes else err (kop code bytes)), w')) bad) refl
