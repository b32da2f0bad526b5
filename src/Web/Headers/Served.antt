-- ===== src/Web/Headers/Served.antt =====
-- What a request for deletion does, from the bytes of its header on.
use tvpvrd.Prelude.{
  ℕ, zero, suc, take, map, All-map, ap, ◌∙◌, ◌++◌, ◌≤◌, ◌<◌, ◌≡◌, refl, Bool, true, false, List, [],
  ◌∷◌, some, length, All, arith,
}
use tvpvrd.Prelude.Int.{pos}
use tvpvrd.Prelude.Text.{Bytes, codes}
use tvpvrd.Recs.State.{returns, ◌>>=◌}
use tvpvrd.Freqmap.Rows.{same_string}
use tvpvrd.Utils.Url.{url_encode}
use tvpvrd.Web.Cookies.{web_validate_login}
use tvpvrd.Web.Get.Paths.{request_line}
use tvpvrd.Web.Commands.{get_assoc_value_s, WebState, Settings, main_page}
use tvpvrd.Web.Access.Deletes.{delete_form, delete_command, web_process_httprequest-deletes}
use tvpvrd.Web.Headers.{
  is_mobile_connection, url_decode_inplace, answer_of, web_parse_httpreq, web_serve,
}
use tvpvrd.Web.Headers.Written.{Field, decoded, IsField, header_rows, web_parse_httpreq-header_rows}

-- The fields GET and Cookie, and others behind them.
abbrev pub with_cookie : Bytes → Bytes → List Field → List Field
with_cookie page sent fs = (codes "GET", false, page) ∷ (codes "Cookie", true, sent) ∷ fs

take_all : (n : ℕ) (xs : Bytes) → length xs ≤ n → take n xs ≡ xs
take_all zero [] h = refl
take_all zero (x ∷ xs) h = absurd (omega arith)
take_all (suc n) [] h = refl
take_all (suc n) (x ∷ xs) h = ap (λ ys. x ∷ ys) (take_all n xs (omega arith))

-- What the command interpreter is given.
abbrev pub delete_text : Bytes → Bool → Bytes
delete_text recid true = codes "dr " ++ recid
delete_text recid false = codes "d " ++ recid

delete_command_whole :
    (recid : Bytes) (series : Bool)
    → length recid ≤ 123
    → delete_command recid series ≡ delete_text recid series
delete_command_whole recid true h = take_all 126 (codes "dr " ++ recid) (omega arith)
delete_command_whole recid false h = take_all 126 (codes "d " ++ recid) (omega arith)

web_parse_httpreq-with_cookie :
    (given : Settings) (mobile : Bool) (page sent : Bytes) (fs : List Field)
    → All IsField (with_cookie page sent fs)
    → length fs ≤ 23
    → length (header_rows (with_cookie page sent fs)) ≤ 4096
    → is_mobile_connection given (map decoded fs) ≡ returns mobile
    → web_parse_httpreq given (header_rows (with_cookie page sent fs))
      ≡ returns (
        answer_of (url_decode_inplace page),
        record {
          get = some (url_decode_inplace page);
          cookie = some (url_decode_inplace sent);
          ismobile = mobile;
        },
      )
unfolding is_mobile_connection get_assoc_value_s same_string
web_parse_httpreq-with_cookie given mobile page sent fs h few short known =
    web_parse_httpreq-header_rows given page ((codes "Cookie", true, sent) ∷ fs) h (omega arith)
      short
    ∙ ap
        (λ m. m >>= λ b. returns (
          answer_of (url_decode_inplace page),
          record {
            get = some (url_decode_inplace page);
            cookie = some (url_decode_inplace sent);
            ismobile = b;
          },
        ))
        known

-- A header of at most 4096 bytes with a GET field, a Cookie field and at most 23 others, whose names
-- are of 1 to 79 bytes without space, colon, carriage return and line feed, and whose values are of 1
-- to 254 bytes without carriage return and line feed and do not end in a space: if it can be found
-- out from the others whether the browser is a mobile one, the cookie in it is accepted with a token,
-- and GET is, when decoded, the form for deletion with a number of the recording of at most 123
-- bytes, none of them zero, encoded in at most 254 bytes in a request line of at most 512 bytes, then
-- the command that deletes that recording, or its series, is run, and no setting changes.
pub web_serve-deletes :
    (given : Settings) (mobile : Bool) (page sent : Bytes) (fs : List Field) (token recid : Bytes)
    (series : Bool) (w : WebState)
    → All IsField (with_cookie page sent fs)
    → length fs ≤ 23
    → length (header_rows (with_cookie page sent fs)) ≤ 4096
    → is_mobile_connection given (map decoded fs) ≡ returns mobile
    → url_decode_inplace page ≡ request_line [] (codes "delrec") (delete_form recid series)
    → web_validate_login given.secrets (some (url_decode_inplace sent)) ≡ returns (pos 0, token)
    → 0 < length token
    → length recid ≤ 123
    → All (λ c. (0 < c) × (c < 256)) recid
    → length (url_encode recid) < 255
    → length (request_line [] (codes "delrec") (delete_form recid series)) ≤ 512
    → web_serve given (header_rows (with_cookie page sent fs)) w
      ≡ returns (pos 0, w, main_page (delete_text recid series) token)
unfolding web_serve request_line
web_serve-deletes given mobile page sent fs token recid series w fields few short known is_form
      accepted some_byte whole bytes encoded fits =
    let in_range : All (λ c. c < 256) recid =
      All-map (λ c. (0 < c) × (c < 256)) (λ c. c < 256) recid (λ c h. h.1) bytes in
    rw
      (
        web_parse_httpreq-with_cookie given mobile page sent fs fields few short known,
        is_form,
        web_process_httprequest-deletes given (some (url_decode_inplace sent)) token recid series w
            accepted some_byte in_range encoded fits,
        delete_command_whole recid series whole,
      )
      refl
