-- ===== src/Web/Headers.antt =====
-- `web_parse_httpreq` of httpreq.c: the fields of the header of a request. A write behind the arrays
-- and a read of a field that is not there end in `aborts`. The match of a browser's name against
-- those of mobile ones is the regular expression library's: a parameter, `names_mobile`.
pub mod Refused
pub mod Rows
pub mod Written
pub mod Served
use tvpvrd.Prelude.{
  true, false, not, ℕ, zero, suc, ◌+◌, ◌-◌, Bool, [], ◌∷◌, ◌||◌, ltb, leb, ◌==◌, if◌then◌else◌,
  Option, none, some, length,
}
use tvpvrd.Prelude.Int.{ℤ, pos, negsuc}
use tvpvrd.Prelude.Text.{Bytes, codes}
use tvpvrd.Recs.State.{Outcome, returns, aborts, ◌>>=◌}
use tvpvrd.Utils.Url.{url_decode}
use tvpvrd.Xstr.{size_max, wrap, byte_at, xsubstr, xstrtrim}
use tvpvrd.Web.Get.{Args, until}
use tvpvrd.Web.Commands.{get_assoc_value_s, WebState, Settings, Reply}
use tvpvrd.Web.Access.{web_process_httprequest}

-- The loop that copies a row, with the bytes that `row` has left, and what it leaves of the request.
unfoldable pub read_row : ℕ → Bytes → Bytes × Bytes
read_row zero req = ([], req)
read_row (suc room) [] = ([], [])
read_row (suc room) (c ∷ []) = ([], c ∷ [])
read_row (suc room) (c ∷ d ∷ req) =
    let (row, rest) = read_row room (d ∷ req) in
    if c == 13 || d == 10 then ([], c ∷ d ∷ req) else (c ∷ row, rest)

-- The row without the spaces around it, with the room and the bytes that are left, if carriage return
-- and line feed follow.
unfoldable pub end_row : ℕ → Bytes × Bytes → Option (Bytes × ℕ × Bytes)
end_row room (row, []) = none
end_row room (row, c ∷ []) = none
end_row room (row, c ∷ d ∷ req) =
    if ltb (length row) room
    then if c == 13
      then if d == 10 then some (xstrtrim row, room - length row - 2, req) else none
      else none
    else none

unfoldable pub next_row : ℕ → Bytes → Option (Bytes × ℕ × Bytes)
next_row room req = end_row room (read_row room req)

abbrev pub name_stop : ℕ → Bool
name_stop c = c == b' ' || c == b':'

abbrev pub field_key : Bytes → ℕ → Bytes
field_key row k = (xsubstr 80 row 0 (wrap (k + size_max))).1

abbrev pub field_val : Bytes → ℕ → Bytes
field_val row k = (xsubstr 1024 row (if byte_at row k == b':' then k + 2 else k + 1) size_max).1

-- The bytes before the first zero, as `strncpy` copies them.
unfoldable pub before_zero : Bytes → Bytes
before_zero [] = []
before_zero (c ∷ cs) = let rest = before_zero cs in if c == 0 then [] else c ∷ rest

unfoldable pub url_decode_inplace : Bytes → Bytes
url_decode_inplace str = before_zero (url_decode str)

-- -1, the end of the request in a row, or all fields.
pub data Fields : Type 0 where
  refused truncated : Fields
  complete : Args → Fields

abbrev with_field : Bytes × Bytes → Outcome Fields → Outcome Fields
with_field f (returns (complete fs)) = returns (complete (f ∷ fs))
with_field f (returns refused) = returns refused
with_field f (returns truncated) = returns truncated
with_field f aborts = aborts

-- The loop over the rows, from a row that was read on, with the places that the array of fields has
-- left.
unfoldable pub read_fields : ℕ → Option (Bytes × ℕ × Bytes) → Outcome Fields
read_fields zero none = returns truncated
read_fields (suc places) none = returns truncated
read_fields zero (some ([], room, req)) = returns (complete [])
read_fields (suc places) (some ([], room, req)) = returns (complete [])
read_fields zero (some (c ∷ row, room, req)) = aborts
read_fields (suc places) (some (c ∷ row, room, req)) =
    let k = until name_stop 80 0 (c ∷ row) in
    let val = field_val (c ∷ row) k in
    let rest = read_fields places (next_row room req) in
    if leb 80 k
    then returns refused
    else if leb 255 (length val)
    then aborts
    else with_field (field_key (c ∷ row) k, url_decode_inplace val) rest

-- The fields that are used later.
pub record Headers : Type 0 where
  pub get : Option Bytes
  pub cookie : Option Bytes
  pub ismobile : Bool

abbrev pub no_headers : Headers
no_headers = record { get = none; cookie = none; ismobile = false }

-- `matchcmd` takes the length of the name of the browser, also where there is none.
abbrev agent_is_mobile : (Bytes → Bool) → Option Bytes → Outcome Bool
agent_is_mobile names_mobile none = aborts
agent_is_mobile names_mobile (some agent) = returns (names_mobile agent)

unfoldable pub is_mobile_connection : Settings → Args → Outcome Bool
is_mobile_connection given fields =
    if not given.use_mobile
    then returns false
    else elim (get_assoc_value_s fields (codes "X-Wap-Profile")) [
      | some wap ↦ returns true
      | none ↦ agent_is_mobile given.names_mobile (get_assoc_value_s fields (codes "User-Agent"))
    ]

abbrev pub answer_of : Bytes → ℤ
answer_of [] = negsuc 0
answer_of (c ∷ cs) = pos 0

-- `*headers->Get` is read, also where there is none.
abbrev shortcuts : Option Bytes → Option Bytes → Bool → Outcome (ℤ × Headers)
shortcuts none cookie mobile = aborts
shortcuts (some get) cookie mobile =
    returns (answer_of get, record { get = some get; cookie = cookie; ismobile = mobile })

unfoldable pub finish_headers : Settings → Fields → Outcome (ℤ × Headers)
finish_headers given refused = returns (negsuc 0, no_headers)
finish_headers given truncated = returns (pos 0, no_headers)
finish_headers given (complete fields) =
    is_mobile_connection given fields
    >>= shortcuts (get_assoc_value_s fields (codes "GET"))
        (get_assoc_value_s fields (codes "Cookie"))

abbrev pub first_row : Settings → Option (Bytes × ℕ × Bytes) → Outcome (ℤ × Headers)
first_row given none = returns (negsuc 0, no_headers)
first_row given (some r) = read_fields 25 (some r) >>= finish_headers given

unfoldable pub web_parse_httpreq : Settings → Bytes → Outcome (ℤ × Headers)
web_parse_httpreq given req = first_row given (next_row 4096 req)

-- The whole of `web_process_httprequest`; a page that says that nothing was found goes first where
-- the header is refused.
unfoldable pub web_serve : Settings → Bytes → WebState → Outcome (ℤ × WebState × Reply)
web_serve given req w = do
  (answer, headers) ← web_parse_httpreq given req
  (w', reply) ← web_process_httprequest given headers.get headers.cookie w
  returns (answer, w', reply)
