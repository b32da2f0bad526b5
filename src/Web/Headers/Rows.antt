-- ===== src/Web/Headers/Rows.antt =====
-- Rows of a header, written by a browser and read by `web_parse_httpreq`.
use mathlib.Core.List.{append-nil}
use tvpvrd.Prelude.{
  ℕ, zero, suc, ◌-◌, ◌<◌, ◌≡◌, refl, ap, sym, ◌∙◌, true, false, [], ◌∷◌, ◌++◌, ltb, ◌==◌, some,
  length, All, arith,
}
use tvpvrd.Prelude.Text.{Bytes}
use tvpvrd.Xstr.{xstrtrim}
use tvpvrd.Xstr.Trimming.{IsTrimmed, xstrtrim_removes}
use tvpvrd.Web.Headers.{read_row, end_row, next_row}

-- Neither a carriage return nor a line feed.
abbrev pub IsInRow : ℕ → Type 0
IsInRow c = ((c == 13) ≡ false) × ((c == 10) ≡ false)

read_row-stops :
    (room : ℕ) (row req : Bytes)
    → All IsInRow row
    → length row < room
    → read_row room (row ++ 13 ∷ 10 ∷ req) ≡ (row, 13 ∷ 10 ∷ req)
unfolding read_row
read_row-stops zero row req h lt = absurd (omega arith)
read_row-stops (suc room) [] req h lt = refl
read_row-stops (suc room) (c ∷ []) req ((cr, lf), h) lt =
    rw (cr, read_row-stops room [] req tt (omega arith)) refl
read_row-stops (suc room) (c ∷ d ∷ row) req ((cr, lf), h) lt =
    rw (cr, h.0.1, read_row-stops room (d ∷ row) req h (omega arith)) refl

-- A row without spaces around it, that ends within the room.
pub next_row-row :
    (room : ℕ) (row req : Bytes)
    → All IsInRow row
    → IsTrimmed row
    → length row < room
    → next_row room (row ++ 13 ∷ 10 ∷ req) ≡ some (row, room - length row - 2, req)
unfolding next_row end_row
next_row-row room row req h trimmed lt =
    let inside : ltb (length row) room ≡ true = ground arith in
    let same : xstrtrim row ≡ row =
      ap xstrtrim (sym (append-nil row)) ∙ xstrtrim_removes 0 0 row trimmed in
    rw (read_row-stops room row req h lt, inside, same) refl
