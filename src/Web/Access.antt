-- ===== src/Web/Access.antt =====
-- Which requests are answered with what: the table of commands, `web_dispatch_httpget_cmd`,
-- `web_exec_httpget` and `web_process_httprequest` of tvwebcmd.c, after the headers are read. A read
-- before the start of the file name ends in `aborts`.
pub mod Guards
pub mod Deletes
use tvpvrd.Prelude.{
  ℕ, zero, suc, ◌+◌, ◌-◌, Bool, true, false, List, [], ◌∷◌, ◌++◌, ◌&&◌, ◌||◌, not, ltb, leb, ◌==◌,
  if◌then◌else◌, Option, none, some, length, take, drop,
}
use tvpvrd.Prelude.Int.{ℤ, pos, negsuc}
use tvpvrd.Prelude.Text.{Bytes, codes}
use tvpvrd.Recs.State.{Outcome, returns, aborts, ◌>>=◌}
use tvpvrd.Freqmap.Rows.{same_string}
use tvpvrd.Web.Cookies.{Secrets, create_login_cookie, validate_login, web_validate_login}
use tvpvrd.Web.Get.{Args, Request, web_parse_httpget}
use tvpvrd.Web.Commands.{
  get_assoc_value_s, WebState, Settings, Reply, main_page, login_page, static_file, page,
  web_cmd_addrec, delrec_command, killrec_command, addqrec_command,
}

pub data Command : Type 0 where
  login logout addrec addqrec delrec chwt killrec cmd default : Command

-- Name, number of arguments and function; all paths are "/".
unfoldable pub web_cmds : Bool → List (Bytes × ℕ × Command)
web_cmds advanced =
    (codes "login", 3, login)
    ∷ (codes "logout", 0, logout)
    ∷ (codes "addrec", (if advanced then 13 else 11), addrec)
    ∷ (codes "addqrec", 6, addqrec)
    ∷ (codes "delrec", 3, delrec)
    ∷ (codes "chwt", 1, chwt)
    ∷ (codes "killrec", 1, killrec)
    ∷ (codes "cmd", 1, cmd)
    ∷ ([], 0, default)
    ∷ []

-- The form of the login page, with the right user and password.
unfoldable pub submitted_login : Secrets → Args → Option (Bytes × Bytes)
submitted_login given args = elim (get_assoc_value_s args (codes "user")) [
  | none ↦ none
  | some user ↦ elim (get_assoc_value_s args (codes "pwd")) [
    | none ↦ none
    | some pwd ↦ elim (get_assoc_value_s args (codes "submit_login")) [
      | none ↦ none
      | some submit ↦
          if same_string submit (codes "Login") && validate_login given user pwd
          then some (user, pwd)
          else none
    ]
  ]
]

abbrev entered : Secrets → Option (Bytes × Bytes) → Reply
entered given none = login_page
entered given (some (user, pwd)) = main_page (codes "v") (create_login_cookie given user pwd)

unfoldable pub web_cmd_login : Settings → Args → Reply
web_cmd_login given args =
    if given.require_web_password
    then entered given.secrets (submitted_login given.secrets args)
    else main_page (codes "v") []

abbrev new_theme : Bytes → WebState → Option Bytes → WebState × Option Reply
new_theme token w none = (w, none)
new_theme token w (some t) =
    (record w { web_theme = take 31 t }, some (main_page (codes "t") token))

unfoldable pub run_command : Settings → Command → Args → Bytes → WebState → WebState × Option Reply
run_command given login args token w = (w, some (web_cmd_login given args))
run_command given logout args token w = (w, some login_page)
run_command given addrec args token w = web_cmd_addrec given args token w
run_command given addqrec args token w = (w, page token (addqrec_command args))
run_command given delrec args token w = (w, page token (delrec_command args))
run_command given chwt args token w = new_theme token w (get_assoc_value_s args (codes "t"))
run_command given killrec args token w = (w, page token (killrec_command args))
run_command given cmd args token w = (w, page token (get_assoc_value_s args (codes "c")))
run_command given default args token w = (w, some (main_page (codes "t") token))

-- The first command of that name.
unfoldable pub find_command : Bytes → List (Bytes × ℕ × Command) → Option (ℕ × Command)
find_command name [] = none
find_command name ((n, numargs, c) ∷ cmds) =
    let rest = find_command name cmds in if same_string name n then some (numargs, c) else rest

unfoldable pub web_dispatch_httpget_cmd :
    Settings → Request → Bytes → WebState → WebState × Option Reply
web_dispatch_httpget_cmd given r token w =
    elim (if same_string r.dir (codes "/")
      then find_command r.file (web_cmds given.display_advanced_rec_control)
      else none) [
        | none ↦ (w, none)
        | some (numargs, c) ↦
            let done = run_command given c r.args token w in
            if numargs == length r.args then done else (w, none)
      ]

-- The name below the root of the web pages.
unfoldable pub web_dispatch_httpget_staticfile : Request → Reply
web_dispatch_httpget_staticfile r = static_file (
    take 254
      (if same_string r.dir (codes "/") then codes "/" ++ r.file else r.dir ++ codes "/" ++ r.file))

-- The last four bytes of the name.
unfoldable pub is_public : Bytes → Bool
is_public file =
    let extension = drop (length file - 4) file in
    same_string extension (codes ".css")
    || same_string extension (codes ".jpg")
    || same_string extension (codes ".png")
    || same_string extension (codes ".ico")

abbrev or_file : Request → WebState × Option Reply → WebState × Option Reply
or_file r (w, none) = (w, some (web_dispatch_httpget_staticfile r))
or_file r (w, some reply) = (w, some reply)

-- What the answer to a parsed request is.
unfoldable pub exec_request :
    Settings → Request → Bytes → WebState → Outcome (WebState × Option Reply)
exec_request given r token w =
    if not (length token == 0) || not given.require_web_password
    then returns (or_file r (web_dispatch_httpget_cmd given r token w))
    else if same_string r.file (codes "login")
    then returns (w, some (web_cmd_login given r.args))
    else if ltb (length r.file) 4
    then aborts
    else if is_public r.file
    then returns (w, some (web_dispatch_httpget_staticfile r))
    else returns (w, some login_page)

abbrev exec_parsed :
    Settings → Bytes → WebState → Option Request → Outcome (WebState × Option Reply)
exec_parsed given token w none = returns (w, none)
exec_parsed given token w (some r) = exec_request given r token w

-- No reply stands for -1.
unfoldable pub web_exec_httpget :
    Settings → Option Bytes → Bytes → WebState → Outcome (WebState × Option Reply)
web_exec_httpget given get token w = do
  r ← web_parse_httpget get 255 255 20
  exec_parsed given token w r

abbrev or_main_page : Bytes → WebState × Option Reply → WebState × Reply
or_main_page token (w, none) = (w, main_page [] token)
or_main_page token (w, some reply) = (w, reply)

-- With the fields GET and Cookie of the headers.
unfoldable pub web_process_httprequest :
    Settings → Option Bytes → Option Bytes → WebState → Outcome (WebState × Reply)
web_process_httprequest given get cookie w = do
  (answer, token) ← web_validate_login given.secrets cookie
  r ← web_exec_httpget given get token w
  returns (or_main_page token r)
