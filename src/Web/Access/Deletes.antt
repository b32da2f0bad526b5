-- ===== src/Web/Access/Deletes.antt =====
-- The deletion of a recording from the web interface, from the request to the command.
use tvpvrd.Prelude.{
  ◌≤◌, ◌<◌, ◌≡◌, refl, Bool, true, false, [], ◌∷◌, ◌++◌, ◌==◌, if◌then◌else◌, Option, some, length,
  take, All, arith,
}
use tvpvrd.Prelude.Int.{pos}
use tvpvrd.Prelude.Text.{Bytes, codes}
use tvpvrd.Recs.State.{returns}
use tvpvrd.Freqmap.Rows.{same_string}
use tvpvrd.Utils.Url.{url_encode, encode_char, unreserved}
use tvpvrd.Web.Cookies.{web_validate_login}
use tvpvrd.Web.Get.{Args}
use tvpvrd.Web.Get.Encoded.{IsArg}
use tvpvrd.Web.Get.Paths.{request_line}
use tvpvrd.Web.Get.RoundTrip.{web_parse_httpget-request_line}
use tvpvrd.Web.Commands.{get_assoc_value_s, WebState, Settings, main_page, delrec_command}
use tvpvrd.Web.Access.{
  web_cmds, run_command, find_command, web_dispatch_httpget_cmd, exec_request, web_exec_httpget,
  web_process_httprequest,
}

-- The form for deletion.
abbrev pub delete_form : Bytes → Bool → Args
delete_form recid series =
    (codes "recid", recid)
    ∷ (codes "delserie", if series then codes "Yes" else codes "No")
    ∷ (codes "submit_delrec", codes "Delete")
    ∷ []

abbrev pub delete_command : Bytes → Bool → Bytes
delete_command recid series = take 126 ((if series then codes "dr " else codes "d ") ++ recid)

dispatch-delete :
    (given : Settings) (recid : Bytes) (series : Bool) (token : Bytes) (w : WebState)
    → web_dispatch_httpget_cmd given
        (record { dir = codes "/"; file = codes "delrec"; args = delete_form recid series })
        token
        w
      ≡ (w, some (main_page (delete_command recid series) token))
unfolding web_dispatch_httpget_cmd web_cmds find_command run_command same_string delrec_command
    get_assoc_value_s
dispatch-delete given recid true token w = refl
dispatch-delete given recid false token w = refl

abbrev delete_request : Bytes → Bool → Bytes
delete_request recid series = request_line [] (codes "delrec") (delete_form recid series)

delete_form-IsArg :
    (recid : Bytes) (series : Bool)
    → All (λ c. c < 256) recid
    → length (url_encode recid) < 255
    → All IsArg (delete_form recid series)
unfolding url_encode encode_char unreserved
delete_form-IsArg recid true bytes short =
    ((ground arith, bytes, omega arith, short), (ground arith, (ground arith, tt)))
delete_form-IsArg recid false bytes short =
    ((ground arith, bytes, omega arith, short), (ground arith, (ground arith, tt)))

-- For a browser whose cookie is accepted, the form for deletion, sent with the number of the
-- recording encoded in a request line of at most 512 bytes, runs the command that deletes that
-- recording, or its series, and changes no setting.
pub web_process_httprequest-deletes :
    (given : Settings) (cookie : Option Bytes) (token recid : Bytes) (series : Bool) (w : WebState)
    → web_validate_login given.secrets cookie ≡ returns (pos 0, token)
    → 0 < length token
    → All (λ c. c < 256) recid
    → length (url_encode recid) < 255
    → length (request_line [] (codes "delrec") (delete_form recid series)) ≤ 512
    → web_process_httprequest given
        (some (request_line [] (codes "delrec") (delete_form recid series)))
        cookie
        w
      ≡ returns (w, main_page (delete_command recid series) token)
unfolding web_process_httprequest web_exec_httpget exec_request
web_process_httprequest-deletes given cookie token recid series w accepted some_byte bytes short
      fits =
    let parsed =
      web_parse_httpget-request_line [] (codes "delrec") (delete_form recid series) 255 255 20 tt
        (
          (refl, refl),
          ((refl, refl), ((refl, refl), ((refl, refl), ((refl, refl), ((refl, refl), tt))))),
        )
        (delete_form-IsArg recid series bytes short) fits (omega arith) (omega arith)
        (omega arith) in
    let inside : (length token == 0) ≡ false = ground arith in
    rw (accepted, parsed, inside, dispatch-delete given recid series token w) refl
