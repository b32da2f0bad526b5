-- ===== src/Tests/Web.antt =====
-- Requests of a browser: a page, its cookies and a form.
use tvpvrd.Prelude.{
  List, map, ◌≡◌, refl, arith, All, true, false, [], ◌∷◌, ◌++◌, length, some, none,
}
use tvpvrd.Prelude.Int.{pos, negsuc}
use tvpvrd.Prelude.Text.{Bytes, codes}
use tvpvrd.Recs.State.{◌>>=◌, returns, aborts, Ensures}
use tvpvrd.Freqmap.Rows.{same_string}
use tvpvrd.Utils.Url.{
  from_hex, hex_char, plain_char, url_decode, url_encode, encode_char, unreserved, to_hex,
}
use tvpvrd.Xstr.{cut, xsubstr, xstrtrim, xstrlcpy, xstrlcat, xstrfilify, trailing, leading}
use tvpvrd.Xstr.Trimming.{spaces, xstrtrim_removes}
use tvpvrd.Web.Cookies.{
  Secrets, scramble, scrambled, create_login_cookie, validate_login, cookie_end, find_cookie,
  web_get_cookie, web_validate_login,
}
use tvpvrd.Web.Cookies.Written.{Jar, cookie_header, more_cookies, value_of, IsCookie, answer}
use tvpvrd.Web.Cookies.Found.{web_get_cookie_finds}
use tvpvrd.Web.Cookies.Tokens.{
  token, granted, holds_token, web_validate_login_decides, web_validate_login-create_login_cookie,
}
use tvpvrd.Web.Get.{until, Args, web_parse_httpget}
use tvpvrd.Web.Get.Encoded.{IsArg, more_args}
use tvpvrd.Web.Get.Paths.{arguments, request_line}
use tvpvrd.Web.Get.RoundTrip.{web_parse_httpget-request_line}
use tvpvrd.Web.Commands.{get_assoc_value_s, WebState, Settings, main_page}
use tvpvrd.Web.Access.Guards.{Allowed}
use tvpvrd.Web.Access.Deletes.{delete_form}
use tvpvrd.Web.Headers.{
  answer_of, read_row, end_row, next_row, read_fields, finish_headers, no_headers, before_zero,
  url_decode_inplace, is_mobile_connection, web_parse_httpreq, web_serve,
}
use tvpvrd.Web.Headers.Refused.{web_serve-Allowed}
use tvpvrd.Web.Headers.Written.{IsField, Field, header_rows, web_parse_httpreq-header_rows, decoded}
use tvpvrd.Web.Headers.Served.{with_cookie, web_serve-deletes}

trimmed : xstrtrim (codes "  a b ") ≡ codes "a b"
unfolding xstrtrim trailing leading
trimmed = refl

xstrtrim_removes_example : xstrtrim (spaces 2 ++ codes "a b" ++ spaces 1) ≡ codes "a b"
xstrtrim_removes_example = xstrtrim_removes 2 1 (codes "a b") (ground arith)

copied : xstrlcpy (codes "abcd") 3 ≡ (2, codes "ab")
unfolding xstrlcpy
copied = refl

not_appended : xstrlcat (codes "ab") (codes "cd") 4 ≡ (2, codes "ab")
unfolding xstrlcat
not_appended = refl

filified : xstrfilify (codes "a/b: c") b'_' ≡ codes "a_b__c"
unfolding xstrfilify
filified = refl

abbrev secrets : Secrets
secrets = record {
  seed = codes "424bbb61";
  hostname = codes "tv";
  web_user = codes "me";
  web_password = codes "pw";
}

abbrev jar : Jar
jar = (codes "tvpvrd", token secrets) ∷ (codes "a", codes "1") ∷ []

abbrev other_jar : Jar
other_jar = (codes "a", codes "1") ∷ (codes "b", codes "22") ∷ []

other_jar-IsCookie : All IsCookie other_jar
other_jar-IsCookie = ground arith

web_get_cookie_finds_example :
    web_get_cookie (codes "b") 80 (some (cookie_header other_jar))
    ≡ returns (answer 80 (value_of (codes "b") other_jar))
web_get_cookie_finds_example =
    web_get_cookie_finds (codes "b") 80 other_jar other_jar-IsCookie
      (unfold cookie_header more_cookies in omega arith)

-- A header that ends with ';' is read behind its end.
header_overread : web_get_cookie (codes "b") 80 (some (codes "a=1;")) ≡ aborts
unfolding web_get_cookie find_cookie cookie_end xsubstr cut same_string
header_overread = refl

token-short : length (token secrets) ≡ 6
unfolding token create_login_cookie scrambled scramble
token-short = refl

web_validate_login_decides_example :
    web_validate_login secrets (some (cookie_header other_jar))
    ≡ returns (
        granted (holds_token (token secrets) (value_of (codes "tvpvrd") other_jar)) (token secrets))
web_validate_login_decides_example =
    web_validate_login_decides secrets other_jar other_jar-IsCookie
      (unfold cookie_header more_cookies in omega arith) (omega (arith, token-short))
      (omega (arith, token-short))

own_cookie_accepted :
    web_validate_login secrets (
      some (
        cookie_header
          ((codes "tvpvrd", create_login_cookie secrets (codes "me") (codes "pw")) ∷ other_jar)))
    ≡ returns (pos 0, create_login_cookie secrets (codes "me") (codes "pw"))
unfolding token
own_cookie_accepted =
    web_validate_login-create_login_cookie secrets (codes "me") (codes "pw") other_jar
      (unfold validate_login same_string in refl) other_jar-IsCookie
      (unfold cookie_header more_cookies create_login_cookie scrambled scramble in omega arith)
      (omega (arith, token-short)) (omega (arith, token-short))

abbrev form : Args
form = (codes "c", codes "l & q") ∷ (codes "x", []) ∷ []

form-IsArg : All IsArg form
unfolding url_encode encode_char unreserved to_hex
form-IsArg = ground arith

web_parse_httpget-request_line_example :
    web_parse_httpget (some (request_line (codes "/a") (codes "cmd") form)) 255 255 20
    ≡ returns (some (record { dir = codes "/a"; file = codes "cmd"; args = form }))
web_parse_httpget-request_line_example =
    web_parse_httpget-request_line (codes "/a") (codes "cmd") form 255 255 20 (refl, (refl, tt))
      ((refl, refl), ((refl, refl), ((refl, refl), tt))) form-IsArg
      (unfold request_line arguments more_args url_encode encode_char unreserved to_hex in
        omega arith)
      (omega arith) (omega arith) (omega arith)

abbrev settings : Settings
settings = record {
  secrets = secrets;
  require_web_password = true;
  display_advanced_rec_control = false;
  strtol = λ s. none;
  use_mobile = true;
  names_mobile = λ a. false;
}

abbrev web_state : WebState
web_state = record {
  initial_start_number = pos 1;
  default_repeat_name_mangle_type = pos 0;
  web_theme = codes "metal";
}

other_jar_refused :
    web_validate_login secrets (some (cookie_header other_jar)) ≡ returns (negsuc 0, [])
unfolding value_of same_string
other_jar_refused =
    web_validate_login_decides secrets other_jar other_jar-IsCookie
      (unfold cookie_header more_cookies in omega arith) (omega (arith, token-short))
      (omega (arith, token-short))

abbrev own_cookie : Bytes
own_cookie = create_login_cookie secrets (codes "me") (codes "pw")

abbrev raw : Bytes → Bytes
raw cookie =
    codes "GET /cmd?c=dn%25201 HTTP/1.1\r\nUser-Agent: Lynx\r\nCookie: "
    ++ cookie
    ++ codes "\r\n\r\n"

read_header :
    web_parse_httpreq settings (raw (codes "a=1"))
    ≡ returns (
      pos 0,
      record {
        get = some (codes "/cmd?c=dn%201 HTTP/1.1");
        cookie = some (codes "a=1");
        ismobile = false;
      },
    )
unfolding web_parse_httpreq finish_headers read_fields next_row end_row read_row get_assoc_value_s
    until before_zero url_decode_inplace is_mobile_connection url_decode plain_char hex_char
    from_hex xsubstr cut xstrtrim trailing leading same_string
read_header = refl

no_get : web_parse_httpreq settings (codes "POST / HTTP/1.1\r\n\r\n") ≡ aborts
unfolding web_parse_httpreq finish_headers read_fields next_row end_row read_row get_assoc_value_s
    until before_zero url_decode_inplace is_mobile_connection url_decode plain_char hex_char
    from_hex xsubstr cut xstrtrim trailing leading same_string
no_get = refl

-- A browser that sends no name, and one whose page is cut at a decoded zero.
no_agent : web_parse_httpreq settings (codes "GET / HTTP/1.1\r\n\r\n") ≡ aborts
unfolding web_parse_httpreq finish_headers read_fields next_row end_row read_row get_assoc_value_s
    until before_zero url_decode_inplace is_mobile_connection url_decode plain_char hex_char
    from_hex xsubstr cut xstrtrim trailing leading same_string
no_agent = refl

cut_at_zero : url_decode_inplace (codes "/a%00b") ≡ codes "/a"
unfolding url_decode_inplace before_zero url_decode plain_char hex_char from_hex
cut_at_zero = refl

cut_off : web_parse_httpreq settings (codes "GET / HTTP/1.1\r\nHost") ≡ returns (pos 0, no_headers)
unfolding web_parse_httpreq finish_headers read_fields next_row end_row read_row xstrtrim trailing
    leading until xsubstr
cut_off = refl

-- The command of a browser that is not logged in is not run.
web_serve-Allowed_example :
    Ensures
      (λ r. (r.1 ≡ web_state) × Allowed secrets r.2)
      (web_serve settings (raw (cookie_header other_jar)) web_state)
web_serve-Allowed_example =
    web_serve-Allowed settings refl web_state (raw (cookie_header other_jar)) (pos 0)
      (record {
        get = some (codes "/cmd?c=dn%201 HTTP/1.1");
        cookie = some (cookie_header other_jar);
        ismobile = false;
      })
      (unfold web_parse_httpreq finish_headers read_fields next_row end_row read_row
          get_assoc_value_s until before_zero url_decode_inplace is_mobile_connection url_decode
          plain_char hex_char from_hex xsubstr cut xstrtrim trailing leading same_string
          cookie_header more_cookies in
        refl)
      other_jar_refused

abbrev own_jar : Bytes
own_jar = cookie_header ((codes "tvpvrd", own_cookie) ∷ other_jar)

abbrev delete_12 : Bytes
delete_12 = request_line [] (codes "delrec") (delete_form (codes "12") true)

abbrev agent_field : List Field
agent_field = (codes "User-Agent", true, codes "Lynx") ∷ []

agent_field-known : is_mobile_connection settings (map decoded agent_field) ≡ returns false
unfolding is_mobile_connection get_assoc_value_s same_string
agent_field-known = refl

delete_12-fields : All IsField (with_cookie delete_12 own_jar agent_field)
unfolding request_line arguments more_args url_encode encode_char unreserved cookie_header
    more_cookies create_login_cookie scrambled scramble
delete_12-fields = ground arith

delete_12-decoded : url_decode_inplace delete_12 ≡ delete_12
unfolding request_line arguments more_args url_encode encode_char unreserved url_decode_inplace
    before_zero url_decode plain_char
delete_12-decoded = refl

own_jar-decoded : url_decode_inplace own_jar ≡ own_jar
unfolding cookie_header more_cookies create_login_cookie scrambled scramble url_decode_inplace
    before_zero url_decode plain_char
own_jar-decoded = refl

web_serve-deletes_example :
    web_serve settings (header_rows (with_cookie delete_12 own_jar agent_field)) web_state
    ≡ returns (pos 0, web_state, main_page (codes "dr 12") own_cookie)
web_serve-deletes_example =
    web_serve-deletes settings false delete_12 own_jar agent_field own_cookie (codes "12") true
      web_state delete_12-fields (omega arith)
      (unfold header_rows request_line arguments more_args url_encode encode_char unreserved
          cookie_header more_cookies create_login_cookie scrambled scramble in
        omega arith)
      agent_field-known delete_12-decoded (rw own_jar-decoded own_cookie_accepted)
      (unfold create_login_cookie scrambled in omega arith) (omega arith) (ground arith)
      (unfold url_encode encode_char unreserved in omega arith)
      (unfold request_line arguments more_args url_encode encode_char unreserved in omega arith)

abbrev host_field : List Field
host_field = (codes "User-Agent", true, codes "Lynx") ∷ (codes "Cookie", true, codes "a=1") ∷ []

page_and_host : All IsField ((codes "GET", false, codes "/ HTTP/1.1") ∷ host_field)
page_and_host = ground arith

web_parse_httpreq-header_rows_example :
    web_parse_httpreq settings (header_rows ((codes "GET", false, codes "/ HTTP/1.1") ∷ host_field))
    ≡ (is_mobile_connection settings (map decoded host_field) >>= λ mobile. returns (
      answer_of (url_decode_inplace (codes "/ HTTP/1.1")),
      record {
        get = some (url_decode_inplace (codes "/ HTTP/1.1"));
        cookie = get_assoc_value_s (map decoded host_field) (codes "Cookie");
        ismobile = mobile;
      },
    ))
web_parse_httpreq-header_rows_example =
    web_parse_httpreq-header_rows settings (codes "/ HTTP/1.1") host_field page_and_host
      (omega arith) (unfold header_rows in omega arith)
