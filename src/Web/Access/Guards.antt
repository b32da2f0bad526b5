-- ===== src/Web/Access/Guards.antt =====
-- What a browser that is not logged in can get.
use tvpvrd.Prelude.{
  ◌≡◌, refl, ap, inl, inr, true, false, [], ◌&&◌, not, ltb, if◌then◌else◌, Option, none, some,
  length, Bool-cases, Option-cases,
}
use tvpvrd.Prelude.Int.{negsuc}
use tvpvrd.Prelude.Text.{Bytes, codes}
use tvpvrd.Recs.State.{returns, aborts, Ensures, Ensures-bind, Ensures-then, Ensures-if}
use tvpvrd.Freqmap.Rows.{same_string}
use tvpvrd.Freqmap.Exact.{and_both}
use tvpvrd.Web.Cookies.{Secrets, create_login_cookie, validate_login, web_validate_login}
use tvpvrd.Web.Get.{Args, Request, web_parse_httpget}
use tvpvrd.Web.Commands.{get_assoc_value_s, WebState, Settings, Reply, main_page, login_page}
use tvpvrd.Web.Access.{
  submitted_login, entered, web_cmd_login, web_dispatch_httpget_staticfile, is_public, exec_request,
  exec_parsed, web_exec_httpget, or_main_page, web_process_httprequest,
}

-- The login page, a file with the extension of a public one, the first page for the right user and
-- password, or the page without a command.
pub data Allowed (given : Secrets) : Reply → Type 0 where
  asked : Allowed given login_page
  public_file :
      (r : Request) → is_public r.file ≡ true → Allowed given (web_dispatch_httpget_staticfile r)
  logged_in :
      (user pwd : Bytes)
      → validate_login given user pwd ≡ true
      → Allowed given (main_page (codes "v") (create_login_cookie given user pwd))
  no_command : Allowed given (main_page [] [])

abbrev AllowedOption : Secrets → Option Reply → Type 0
AllowedOption given none = Unit
AllowedOption given (some reply) = Allowed given reply

submitted_login-valid :
    (given : Secrets) (args : Args) → Allowed given (entered given (submitted_login given args))
unfolding submitted_login
submitted_login-valid given args = elim (Option-cases (get_assoc_value_s args (codes "user"))) [
  | inl missing ↦ rw (missing, entered) asked
  | inr (user, u) ↦ elim (Option-cases (get_assoc_value_s args (codes "pwd"))) [
    | inl missing ↦ rw (u, missing, entered) asked
    | inr (pwd, p) ↦ elim (Option-cases (get_assoc_value_s args (codes "submit_login"))) [
      | inl missing ↦ rw (u, p, missing, entered) asked
      | inr (submit, s) ↦
          elim (Bool-cases (same_string submit (codes "Login") && validate_login given user pwd)) [
            | inl right ↦
                rw (u, p, s, right, entered)
                  (logged_in user pwd
                    (and_both (same_string submit (codes "Login")) (validate_login given user pwd)
                      right).1)
            | inr wrong ↦ rw (u, p, s, wrong, entered) asked
          ]
    ]
  ]
]

module _ (given : Settings) (locked : given.require_web_password ≡ true) (w : WebState) where
  abbrev Unchanged : WebState × Option Reply → Type 0
  Unchanged (w', reply) = (w' ≡ w) × AllowedOption given.secrets reply

  web_cmd_login-Allowed : (args : Args) → Allowed given.secrets (web_cmd_login given args)
  unfolding web_cmd_login
  web_cmd_login-Allowed args = rw locked (submitted_login-valid given.secrets args)

  exec_request-Unchanged : (r : Request) → Ensures Unchanged (exec_request given r [] w)
  unfolding exec_request
  exec_request-Unchanged r =
      let shut : not given.require_web_password ≡ false = ap not locked in
      rw shut (
        Ensures-if Unchanged (same_string r.file (codes "login")) _ _
          (refl, web_cmd_login-Allowed r.args)
          (Ensures-if Unchanged (ltb (length r.file) 4) aborts _ tt (public r)))
    where
      public :
          (r : Request)
          → Ensures Unchanged (
              if is_public r.file
              then returns (w, some (web_dispatch_httpget_staticfile r))
              else returns (w, some login_page))
      public r = elim (Bool-cases (is_public r.file)) [
        | inl yes_it_is ↦ rw yes_it_is (refl, public_file r yes_it_is)
        | inr other ↦ rw other (refl, asked)
      ]

  exec_parsed-Unchanged : (r : Option Request) → Ensures Unchanged (exec_parsed given [] w r)
  exec_parsed-Unchanged none = (refl, tt)
  exec_parsed-Unchanged (some r) = exec_request-Unchanged r

  or_main_page-Allowed :
      (r : WebState × Option Reply)
      → Unchanged r
      → ((or_main_page [] r).0 ≡ w) × Allowed given.secrets (or_main_page [] r).1
  or_main_page-Allowed (w', none) (same, allowed) = (same, no_command)
  or_main_page-Allowed (w', some reply) (same, allowed) = (same, allowed)

  -- If a password is required and the cookie of the request is refused, then whatever the request
  -- asks for, no setting changes, and the answer, if there is one, is the login page, a file with a
  -- public extension, the first page with its token for the right user and password, or the page
  -- without a command and without a token.
  pub web_process_httprequest-Allowed :
      (get cookie : Option Bytes)
      → web_validate_login given.secrets cookie ≡ returns (negsuc 0, [])
      → Ensures
          (λ r. (r.0 ≡ w) × Allowed given.secrets r.1)
          (web_process_httprequest given get cookie w)
  unfolding web_process_httprequest web_exec_httpget
  web_process_httprequest-Allowed get cookie refused = rw refused (
      Ensures-then Unchanged (λ r. (r.0 ≡ w) × Allowed given.secrets r.1) _ _
        (Ensures-bind Unchanged (web_parse_httpget get 255 255 20) (exec_parsed given [] w)
          exec_parsed-Unchanged)
        or_main_page-Allowed)
