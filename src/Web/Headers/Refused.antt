-- ===== src/Web/Headers/Refused.antt =====
-- What a request gets whose cookie is refused, from the bytes of its header on.
use tvpvrd.Prelude.{◌≡◌, true, []}
use tvpvrd.Prelude.Int.{ℤ, negsuc}
use tvpvrd.Prelude.Text.{Bytes}
use tvpvrd.Recs.State.{returns, Ensures, Ensures-then}
use tvpvrd.Web.Cookies.{web_validate_login}
use tvpvrd.Web.Commands.{WebState, Settings}
use tvpvrd.Web.Access.Guards.{Allowed, web_process_httprequest-Allowed}
use tvpvrd.Web.Headers.{Headers, web_parse_httpreq, web_serve}

module _ (given : Settings) (locked : given.require_web_password ≡ true) (w : WebState) where
  -- If a password is required and the cookie in the header of a request is refused, then whatever the
  -- request asks for, no setting changes, and the answer, if there is one, is the login page, a file
  -- with a public extension, the first page with its token for the right user and password, or the
  -- page without a command and without a token.
  pub web_serve-Allowed :
      (req : Bytes) (answer : ℤ) (headers : Headers)
      → web_parse_httpreq given req ≡ returns (answer, headers)
      → web_validate_login given.secrets headers.cookie ≡ returns (negsuc 0, [])
      → Ensures (λ r. (r.1 ≡ w) × Allowed given.secrets r.2) (web_serve given req w)
  unfolding web_serve
  web_serve-Allowed req answer headers parsed refused = rw parsed (
      Ensures-then (λ r. (r.0 ≡ w) × Allowed given.secrets r.1)
        (λ r. (r.1 ≡ w) × Allowed given.secrets r.2) _ _
        (web_process_httprequest-Allowed given locked w headers.get headers.cookie refused)
        (λ r q. q))
