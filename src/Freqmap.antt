-- ===== src/Freqmap.antt =====
-- freqmap.c: the frequency maps and the stations. `curr_fmap` and `station_map` are the state;
-- `initfreqtable` has run, so the size of a map is the length of its table.
pub mod Rows
pub mod Tables
pub mod Exact
pub mod Stations
use tvpvrd.Prelude.{
  ℕ, zero, suc, ◌+◌, ◌-◌, ◌*◌, ◌%◌, ◌^◌, Bool, true, false, List, [], ◌∷◌, ◌++◌, Option, none, some,
  ◌&&◌, ◌||◌, ltb, leb, ◌==◌, if◌then◌else◌, length, get_elem?, take,
}
use tvpvrd.Recs.Entry.{Bytes}
use tvpvrd.Recs.State.{Outcome, returns, aborts, ◌>>=◌}
use tvpvrd.Freqmap.Rows.{Freqch, codes, xstricmp_equal}
use tvpvrd.Freqmap.Tables.EuropeWest.{europe_west_chtable}
use tvpvrd.Freqmap.Tables.EuropeEast.{europe_east_chtable}
use tvpvrd.Freqmap.Tables.France.{france_chtable}
use tvpvrd.Freqmap.Tables.Ireland.{ireland_chtable}
use tvpvrd.Freqmap.Tables.Italy.{italy_chtable}
use tvpvrd.Freqmap.Tables.Australia.{australia_chtable}
use tvpvrd.Freqmap.Tables.Newzealand.{newzealand_chtable}
use tvpvrd.Freqmap.Tables.Usbcast.{usbcast_chtable}
use tvpvrd.Freqmap.Tables.Uscable.{uscable_chtable}
use tvpvrd.Freqmap.Tables.UscableHrc.{uscable_hrc_chtable}
use tvpvrd.Freqmap.Tables.UscableIrc.{uscable_irc_chtable}
use tvpvrd.Freqmap.Tables.JapanBcast.{japan_bcast_chtable}
use tvpvrd.Freqmap.Tables.JapanCable.{japan_cable_chtable}
use tvpvrd.Freqmap.Tables.ChinaBcast.{china_bcast_chtable}
use tvpvrd.Freqmap.Tables.Southafrica.{southafrica_chtable}
use tvpvrd.Freqmap.Tables.Argentina.{argentina_chtable}
use tvpvrd.Freqmap.Tables.AustraliaOptus.{australia_optus_chtable}

-- `struct freqmap`; its size is the length of the table.
pub record Freqmap : Type 0 where
  pub name : Bytes
  pub tbl : List Freqch

-- `struct station_map_entry`
pub record Station : Type 0 where
  pub name : Bytes
  pub channel : Bytes

pub record Freqs : Type 0 where
  pub curr_fmap : ℕ
  pub station_map : List Station

-- `frequence_map` as `initfreqtable` leaves it, the sentinel included.
unfoldable pub frequence_map : List Freqmap
frequence_map =
    record { name = codes "europe-west"; tbl = europe_west_chtable }
    ∷ record { name = codes "europe-east"; tbl = europe_east_chtable }
    ∷ record { name = codes "france"; tbl = france_chtable }
    ∷ record { name = codes "ireland"; tbl = ireland_chtable }
    ∷ record { name = codes "italy"; tbl = italy_chtable }
    ∷ record { name = codes "australia"; tbl = australia_chtable }
    ∷ record { name = codes "newzealand"; tbl = newzealand_chtable }
    ∷ record { name = codes "us-bcast"; tbl = usbcast_chtable }
    ∷ record { name = codes "us-cable"; tbl = uscable_chtable }
    ∷ record { name = codes "us-cable-hrc"; tbl = uscable_hrc_chtable }
    ∷ record { name = codes "us-cable-irc"; tbl = uscable_irc_chtable }
    ∷ record { name = codes "japan-bcast"; tbl = japan_bcast_chtable }
    ∷ record { name = codes "japan-cable"; tbl = japan_cable_chtable }
    ∷ record { name = codes "china-bcast"; tbl = china_bcast_chtable }
    ∷ record { name = codes "southafrica"; tbl = southafrica_chtable }
    ∷ record { name = codes "argentina"; tbl = argentina_chtable }
    ∷ record { name = codes "australia-optus"; tbl = australia_optus_chtable }
    ∷ record { name = []; tbl = [] }
    ∷ []

-- The loop of `getfmapidx`, from map `i` on.
unfoldable pub fmapidx_from : Bytes → List Freqmap → ℕ → Option ℕ
fmapidx_from name [] i = none
fmapidx_from name (m ∷ ms) i =
    let rest = fmapidx_from name ms (i + 1) in
    if xstricmp_equal name m.name && ltb 0 (length m.tbl) then some i else rest

-- -1 is `none`.
unfoldable pub getfmapidx : Bytes → Option ℕ
getfmapidx name = fmapidx_from name frequence_map 0

unfoldable pub set_current_freqmap : Freqs → Bytes → Option (ℕ × Freqs)
set_current_freqmap s name = elim (getfmapidx name) [
  | none ↦ none
  | some idx ↦ some (idx, record s { curr_fmap = idx })
]

-- The table of a map; a number past the last map has none.
unfoldable pub table_of : ℕ → Option (List Freqch)
table_of i = elim (get_elem? frequence_map i) [ none ↦ none | some m ↦ some m.tbl ]

-- A product of unsigned ints.
abbrev pub in_hz : ℕ → ℕ
in_hz khz = khz * 1000 % 2 ^ 32

-- The loop of `getchfromfreq`.
unfoldable pub ch_at_freq : ℕ → List Freqch → Option Bytes
ch_at_freq freq [] = none
ch_at_freq freq (r ∷ rs) =
    let rest = ch_at_freq freq rs in if freq == in_hz r.freq then some r.ch else rest

unfoldable pub getchfromfreq : Freqs → ℕ → Option Bytes
getchfromfreq s freq = elim (table_of s.curr_fmap) [ none ↦ none | some t ↦ ch_at_freq freq t ]

-- The loop of `getfreqfromch`.
unfoldable pub freq_of_ch : Bytes → List Freqch → Option ℕ
freq_of_ch ch [] = none
freq_of_ch ch (r ∷ rs) =
    let rest = freq_of_ch ch rs in if xstricmp_equal ch r.ch then some (in_hz r.freq) else rest

unfoldable pub digits_value : ℕ → Bytes → ℕ
digits_value acc [] = acc
digits_value acc (c ∷ cs) =
    let rest = digits_value (acc * 10 + (c - b'0')) cs in
    if ltb c b'0' || ltb b'9' c then acc else rest

-- `xatoi`, made unsigned: blanks, a sign and digits. What is out of range for a long gives 0.
unfoldable pub skip_blanks : Bytes → Bytes
skip_blanks [] = []
skip_blanks (c ∷ cs) =
    let rest = skip_blanks cs in if c == 32 || (leb 9 c && leb c 13) then rest else c ∷ cs

-- The conversions from long to int and to unsigned.
abbrev pub to_unsigned : ℕ → ℕ
to_unsigned n = if ltb n (2 ^ 63) then n % 2 ^ 32 else 0

abbrev pub negated : ℕ → ℕ
negated n = if leb n (2 ^ 63) then (2 ^ 32 - n % 2 ^ 32) % 2 ^ 32 else 0

unfoldable pub xatoi_unsigned : Bytes → ℕ
xatoi_unsigned s = elim (skip_blanks s) [
  | [] ↦ 0
  | (c ∷ cs) ↦
      if c == b'+'
      then to_unsigned (digits_value 0 cs)
      else if c == b'-'
      then negated (digits_value 0 cs)
      else to_unsigned (digits_value 0 (c ∷ cs))
]

-- The frequency given as `@` and digits. `nch` has room for seven bytes and gets at most six, so
-- with six of them the byte behind is what the stack held: `nch6`, the bytes from there to a NUL.
unfoldable pub direct_freq : Bytes → Bytes → Option ℕ
direct_freq nch6 digits =
    if ltb (length digits) 4
    then none
    else let khz =
        xatoi_unsigned (if ltb (length digits) 6 then digits else take 6 digits ++ nch6) in
      if ltb khz 1000 || ltb 999999 khz then none else some (in_hz khz)

unfoldable pub getfreqfromch : Freqs → Bytes → Bytes → Option ℕ
getfreqfromch s nch6 ch = elim (table_of s.curr_fmap) [
  | none ↦ none
  | some t ↦ elim ch [
    | [] ↦ freq_of_ch [] t
    | (c ∷ cs) ↦ if c == b'@' then direct_freq nch6 cs else freq_of_ch (c ∷ cs) t
  ]
]

-- `get_chfromstation`; its buffer takes 32 bytes, the names in the map are shorter.
unfoldable pub chfromstation : Bytes → List Station → Option Bytes
chfromstation station [] = none
chfromstation station (m ∷ ms) =
    let rest = chfromstation station ms in
    if xstricmp_equal station m.name then some (take 31 m.channel) else rest

unfoldable pub getfreqfromstr : Freqs → Bytes → Bytes → Option ℕ
getfreqfromstr s nch6 name = elim (chfromstation name s.station_map) [
  | none ↦ getfreqfromch s nch6 name
  | some chbuffer ↦ getfreqfromch s nch6 chbuffer
]

-- A section of the station file, as iniparser gives it: its name, and its `channel` if set.
abbrev pub Section : Type 0
Section = Bytes × Option Bytes

-- The loop of `read_xawtvfile`. The array has 256 places; a write behind them is not checked.
unfoldable pub read_sections : Freqs → Bytes → List Section → Outcome (Bool × Freqs)
read_sections s nch6 [] = returns (true, s)
read_sections s nch6 ((sname, none) ∷ rest) = read_sections s nch6 rest
read_sections s nch6 ((sname, some channel_name) ∷ rest) =
    let stored : Station = record { name = take 31 sname; channel = take 31 channel_name } in
    let after = read_sections (record s { station_map = s.station_map ++ stored ∷ [] }) nch6 rest in
    if leb 256 (length s.station_map)
    then aborts
    else elim (getfreqfromch s nch6 channel_name) [ none ↦ returns (false, s) | some freq ↦ after ]
