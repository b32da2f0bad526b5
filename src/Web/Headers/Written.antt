-- ===== src/Web/Headers/Written.antt =====
-- The header of a request as a browser writes it, and that `web_parse_httpreq` reads what was written.
use mathlib.Core.Path.{subst}
use mathlib.Core.List.{append_assoc}
use tvpvrd.Prelude.{
  ℕ, zero, suc, ◌+◌, ◌-◌, ◌≤◌, ◌<◌, ◌≡◌, ◌≢◌, refl, ap, sym, ◌∙◌, inr, Bool, true, false, List, [],
  ◌∷◌, ◌++◌, leb, ◌==◌, if◌then◌else◌, Option, none, some, length, All, All-append, All-map, map,
  length-append, arith,
}
use tvpvrd.Prelude.Text.{Bytes, codes}
use tvpvrd.Recs.State.{returns, ◌>>=◌}
use tvpvrd.Freqmap.Rows.{same_string}
use tvpvrd.Web.Headers.{url_decode_inplace, is_mobile_connection}
use tvpvrd.Xstr.{size_max, wrap, byte_at, xsubstr}
use tvpvrd.Xstr.Cutting.{xsubstr-part, xsubstr-end, fitting_short}
use tvpvrd.Xstr.Trimming.{IsTrimmed, byte_at-append}
use tvpvrd.Web.Get.{Args, until}
use tvpvrd.Web.Get.Encoded.{Halts, until-part}
use tvpvrd.Web.Commands.{Settings, get_assoc_value_s}
use tvpvrd.Web.Headers.{
  next_row, name_stop, field_key, field_val, complete, read_fields, answer_of, finish_headers,
  first_row, web_parse_httpreq,
}
use tvpvrd.Web.Headers.Rows.{IsInRow, next_row-row}

-- What stands between the name and the value.
abbrev pub separator : Bool → Bytes
separator true = codes ": "
separator false = codes " "

abbrev pub Field : Type 0
Field = Bytes × Bool × Bytes

abbrev pub IsInName : ℕ → Type 0
IsInName c = (name_stop c ≡ false) × IsInRow c

abbrev pub IsField : Field → Type 0
IsField (name, colon, value) =
    (0 < length name)
    × (length name < 80)
    × All IsInName name
    × (0 < length value)
    × (length value < 255)
    × All IsInRow value
    × (byte_at value (length value - 1) ≢ b' ')

abbrev pub field_row : Field → Bytes
field_row (name, colon, value) = name ++ (separator colon ++ value)

unfoldable pub header_rows : List Field → Bytes
header_rows [] = codes "\r\n"
header_rows (f ∷ fs) = field_row f ++ 13 ∷ 10 ∷ header_rows fs

abbrev pub decoded : Field → Bytes × Bytes
decoded (name, colon, value) = (name, url_decode_inplace value)

separator-Halts :
    (colon : Bool) (p : ℕ) (value : Bytes) → Halts name_stop 80 p (separator colon ++ value)
separator-Halts true p value = inr refl
separator-Halts false p value = inr refl

length-separator : (colon : Bool) → length (separator colon) ≤ 2
length-separator true = omega arith
length-separator false = omega arith

separator-IsInRow : (colon : Bool) → All IsInRow (separator colon)
separator-IsInRow true = ((refl, refl), ((refl, refl), tt))
separator-IsInRow false = ((refl, refl), tt)

byte_at-separator : (name s : Bytes) → byte_at (name ++ s) (length name) ≡ byte_at s 0
byte_at-separator name s = ap (byte_at (name ++ s)) (omega arith) ∙ byte_at-append name s 0

value-start :
    (name : Bytes) (colon : Bool) (value : Bytes)
    → (if byte_at (name ++ (separator colon ++ value)) (length name) == b':'
        then length name + 2
        else length name + 1)
      ≡ length (name ++ separator colon)
value-start name true value =
    rw (byte_at-separator name (separator true ++ value))
      (sym (length-append name (separator true)))
value-start name false value =
    rw (byte_at-separator name (separator false ++ value))
      (sym (length-append name (separator false)))

module _ (name : Bytes) (colon : Bool) (value : Bytes) (is : IsField (name, colon, value)) where
  until-field : until name_stop 80 0 (field_row (name, colon, value)) ≡ length name
  until-field =
      until-part name_stop 80 0 name (separator colon ++ value)
        (All-map IsInName (λ c. name_stop c ≡ false) name (λ c h. h.0) is.2) (omega (arith, is.1))
        (separator-Halts colon (0 + length name) value)
      ∙ omega arith

  field_key-field : field_key (field_row (name, colon, value)) (length name) ≡ name
  field_key-field =
      let last : wrap (length name + size_max) ≡ length name - 1 = omega (arith, is.0, is.1) in
      rw (field_key, last)
        (xsubstr-part 80 [] name (separator colon ++ value) (length name - 1) (omega (arith, is.0))
            (omega (arith, is.1))
          ∙ fitting_short 80 name is.1)

  field_row-grouped : field_row (name, colon, value) ≡ (name ++ separator colon) ++ value
  field_row-grouped = sym (append_assoc name (separator colon) value)

  value-end :
      (n : ℕ)
      → length (name ++ separator colon) ≡ n
      → (xsubstr 1024 (field_row (name, colon, value)) n size_max).1 ≡ value
  value-end n at = rw field_row-grouped (
      subst (λ k. (xsubstr 1024 ((name ++ separator colon) ++ value) k size_max).1 ≡ value) at
        (xsubstr-end 1024 (name ++ separator colon) value (omega (arith, is.3)) (
            omega
              (arith, is.1, is.4, at, length-append name (separator colon), length-separator colon))
          ∙ fitting_short 1024 value (omega (arith, is.4))))

  field_val-field : field_val (field_row (name, colon, value)) (length name) ≡ value
  field_val-field =
      rw (field_val, value-start name colon value)
        (value-end (length (name ++ separator colon)) refl)

  field_row-IsInRow : All IsInRow (field_row (name, colon, value))
  field_row-IsInRow =
      All-append IsInRow name (separator colon ++ value)
        (All-map IsInName IsInRow name (λ c h. h.1) is.2)
        (All-append IsInRow (separator colon) value (separator-IsInRow colon) is.5)

  field_row-last :
      byte_at (field_row (name, colon, value)) (length (field_row (name, colon, value)) - 1) ≢ b' '
  field_row-last =
      let at : length ((name ++ separator colon) ++ value) - 1
          ≡ length (name ++ separator colon) + (length value - 1) =
        omega (arith, is.3, length-append (name ++ separator colon) value) in
      rw (field_row-grouped, at, byte_at-append (name ++ separator colon) value (length value - 1))
        is.6

not_space : (c : ℕ) → name_stop c ≡ false → c ≢ b' '
not_space c h = ground arith

next_row-end : (room : ℕ) → 0 < room → next_row room (codes "\r\n") ≡ some ([], room - 0 - 2, [])
next_row-end room some_room = next_row-row room [] [] tt (ground arith, ground arith) some_room

pub read_fields-rows :
    (fs : List Field) (places room : ℕ)
    → All IsField fs
    → length fs ≤ places
    → length (header_rows fs) ≤ room
    → read_fields places (next_row room (header_rows fs)) ≡ returns (complete (map decoded fs))
unfolding read_fields header_rows
read_fields-rows [] zero room h enough within = rw (next_row-end room (omega arith)) refl
read_fields-rows [] (suc places) room h enough within = rw (next_row-end room (omega arith)) refl
read_fields-rows (f ∷ fs) zero room h enough within = absurd (omega arith)
read_fields-rows (([], colon, value) ∷ fs) (suc places) room (is, h) enough within =
    absurd (omega (arith, is.0))
read_fields-rows ((c ∷ cs, colon, value) ∷ fs) (suc places) room (is, h) enough within =
    let name : Bytes = c ∷ cs in
    let row : Bytes = field_row (name, colon, value) in
    let size : length (row ++ 13 ∷ 10 ∷ header_rows fs)
        ≡ length row + (2 + length (header_rows fs)) =
      omega (arith, length-append row (13 ∷ 10 ∷ header_rows fs)) in
    let trimmed : IsTrimmed row = (not_space c is.2.0.0, field_row-last name colon value is) in
    let read : next_row room (row ++ 13 ∷ 10 ∷ header_rows fs)
        ≡ some (row, room - length row - 2, header_rows fs) =
      next_row-row room row (header_rows fs) (field_row-IsInRow name colon value is) trimmed
        (omega (arith, size)) in
    let short : leb 80 (length name) ≡ false = ground (arith, is.1) in
    let fits : leb 255 (length value) ≡ false = ground (arith, is.4) in
    rw
      (
        read,
        until-field name colon value is,
        field_key-field name colon value is,
        field_val-field name colon value is,
        short,
        fits,
        read_fields-rows fs places (room - length row - 2) h (omega arith) (omega (arith, size)),
      )
      refl

first_row-complete :
    (given : Settings) (row : Option (Bytes × ℕ × Bytes)) (fields : Args)
    → read_fields 25 row ≡ returns (complete fields)
    → first_row given row ≡ finish_headers given (complete fields)
unfolding read_fields
first_row-complete given none fields e = cc
first_row-complete given (some row) fields e = rw e refl

-- A GET field and at most 24 fields behind it, in at most 4096 bytes, where each name is of 1 to 79
-- bytes without space, colon, carriage return and line feed, and each value is of 1 to 254 bytes
-- without carriage return and line feed and does not end in a space: if it can be found out from the
-- fields behind GET whether the browser is a mobile one, then what is read is the value of GET, and
-- that of the first Cookie field, each decoded and cut at a decoded zero, with the answer 0 unless
-- that of GET is empty. If not, as where mobile ones are asked for and the browser is not named, the
-- call reads behind a null pointer.
pub web_parse_httpreq-header_rows :
    (given : Settings) (page : Bytes) (fs : List Field)
    → All IsField ((codes "GET", false, page) ∷ fs)
    → length fs ≤ 24
    → length (header_rows ((codes "GET", false, page) ∷ fs)) ≤ 4096
    → web_parse_httpreq given (header_rows ((codes "GET", false, page) ∷ fs)) ≡ (
        is_mobile_connection given (map decoded fs) >>= λ mobile. returns (
          answer_of (url_decode_inplace page),
          record {
            get = some (url_decode_inplace page);
            cookie = get_assoc_value_s (map decoded fs) (codes "Cookie");
            ismobile = mobile;
          },
        ))
unfolding web_parse_httpreq finish_headers is_mobile_connection get_assoc_value_s same_string
web_parse_httpreq-header_rows given page fs h few short =
    first_row-complete given (next_row 4096 (header_rows ((codes "GET", false, page) ∷ fs)))
      (map decoded ((codes "GET", false, page) ∷ fs))
      (read_fields-rows ((codes "GET", false, page) ∷ fs) 25 4096 h (omega arith) short)
