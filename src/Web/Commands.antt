-- ===== src/Web/Commands.antt =====
-- The commands of the web interface in tvwebcmd.c: which command of the interpreter a request becomes,
-- and what it changes. Pages are replies; their text is not modelled. `strtol` comes from the C
-- library: no value stands for no digits or a value out of range.
use tvpvrd.Prelude.{
  ◌-◌, Bool, true, false, [], ◌∷◌, ◌++◌, ◌&&◌, ◌==◌, if◌then◌else◌, Option, none, some, length,
  take,
}
use tvpvrd.Prelude.Int.{to_int, ℤ, pos, leb_ℤ}
use tvpvrd.Prelude.Text.{Bytes, codes}
use tvpvrd.Freqmap.Rows.{same_string}
use tvpvrd.Web.Cookies.{Secrets}
use tvpvrd.Web.Get.{Args}

-- `get_assoc_value_s` of utils.c: the value of the first pair with the key.
unfoldable pub get_assoc_value_s : Args → Bytes → Option Bytes
get_assoc_value_s [] key = none
get_assoc_value_s ((k, v) ∷ kv) key =
    let rest = get_assoc_value_s kv key in if same_string k key then some v else rest

infixl 5 ◌>>=◌
abbrev ◌>>=◌ {ℓ κ} : {A : Type ℓ} {B : Type κ} → Option A → (A → Option B) → Option B
none >>= k = none
some a >>= k = k a

abbrev guard : Bool → Option (Unit {0})
guard true = some tt
guard false = none

abbrev int_of : Option ℤ → ℤ
int_of none = pos 0
int_of (some n) = to_int n

unfoldable pub xatoi : (Bytes → Option ℤ) → Bytes → ℤ
xatoi strtol str = int_of (strtol str)

-- The variables that the commands set.
pub record WebState : Type 0 where
  pub initial_start_number : ℤ
  pub default_repeat_name_mangle_type : ℤ
  pub web_theme : Bytes

pub record Settings : Type 0 where
  pub secrets : Secrets
  pub require_web_password : Bool
  pub display_advanced_rec_control : Bool
  pub strtol : Bytes → Option ℤ
  pub use_mobile : Bool
  pub names_mobile : Bytes → Bool

-- The main page runs a command; it holds the login token.
pub data Reply : Type 0 where
  main_page : Bytes → Bytes → Reply
  login_page : Reply
  static_file : Bytes → Reply

-- `strncat` to `cmdstr`, of 255 bytes, with what `snprintf` put in `tmpcmd`, of 128 bytes.
abbrev append_part : Bytes → Bytes → Bytes
append_part cmdstr part = cmdstr ++ take (254 - length cmdstr) (take 126 part)

abbrev is_empty : Bytes → Bool
is_empty s = length s == 0

unfoldable pub addrec_command : Args → Option Bytes
unfolding get_assoc_value_s same_string
addrec_command args = do
  repeat ← get_assoc_value_s args (codes "repeat")
  repeatcount ← get_assoc_value_s args (codes "repeatcount")
  channel ← get_assoc_value_s args (codes "channel")
  sd ← get_assoc_value_s args (codes "start_day")
  sh ← get_assoc_value_s args (codes "start_hour")
  smin ← get_assoc_value_s args (codes "start_min")
  eh ← get_assoc_value_s args (codes "end_hour")
  emin ← get_assoc_value_s args (codes "end_min")
  profile ← get_assoc_value_s args (codes "profile")
  title ← get_assoc_value_s args (codes "title")
  submit ← get_assoc_value_s args (codes "submit_addrec")
  _ ← guard (same_string submit (codes "Add"))
  let single : Bytes = codes "a " ++ channel
  let repeated : Bytes =
      codes "ar " ++ repeat ++ codes " " ++ repeatcount ++ codes " " ++ channel ++ codes " "
  let command : Bytes = take 253 (if is_empty repeat then single else repeated)
  let dated : Bytes = append_part command (codes " " ++ sd ++ codes " ")
  let day : Bytes = if is_empty sd then command else dated
  let start : Bytes = append_part day (codes " " ++ sh ++ codes ":" ++ smin ++ codes " ")
  let end : Bytes = append_part start (codes " " ++ eh ++ codes ":" ++ emin ++ codes " ")
  some (append_part end (codes " " ++ title ++ codes " @" ++ profile ++ codes " "))

abbrev between : ℤ → ℤ → ℤ → Bool
between low n high = leb_ℤ low n && leb_ℤ n high

-- With the advanced controls, the two settings are made before the command runs, the first even if
-- the second is refused.
unfoldable pub advanced_settings : Settings → Args → WebState → WebState × Bool
advanced_settings given args w = elim (get_assoc_value_s args (codes "startnum")) [
  | none ↦ (w, false)
  | some startnum ↦ elim (get_assoc_value_s args (codes "name_mangling")) [
    | none ↦ (w, false)
    | some name_mangling ↦
        let snum = xatoi given.strtol startnum in
        let nmt = xatoi given.strtol name_mangling in
        let started = record w { initial_start_number = snum } in
        if between (pos 1) snum (pos 30)
        then if between (pos 0) nmt (pos 2)
          then (record started { default_repeat_name_mangle_type = nmt }, true)
          else (started, false)
        else (w, false)
  ]
]

abbrev pub page : Bytes → Option Bytes → Option Reply
page token none = none
page token (some cmd) = some (main_page cmd token)

-- No reply stands for -1.
unfoldable pub web_cmd_addrec : Settings → Args → Bytes → WebState → WebState × Option Reply
web_cmd_addrec given args token w = elim (addrec_command args) [
  | none ↦ (w, none)
  | some cmd ↦
      let (w', done) = advanced_settings given args w in
      if given.display_advanced_rec_control
      then (w', if done then some (main_page cmd token) else none)
      else (w, some (main_page cmd token))
]

unfoldable pub delrec_command : Args → Option Bytes
delrec_command args = do
  recid ← get_assoc_value_s args (codes "recid")
  delserie ← get_assoc_value_s args (codes "delserie")
  submit ← get_assoc_value_s args (codes "submit_delrec")
  _ ← guard (same_string submit (codes "Delete"))
  some
      (take 126 ((if same_string delserie (codes "Yes") then codes "dr " else codes "d ") ++ recid))

unfoldable pub killrec_command : Args → Option Bytes
killrec_command args = do
  recid ← get_assoc_value_s args (codes "rid")
  some (take 126 (codes "! " ++ recid))

unfoldable pub addqrec_command : Args → Option Bytes
addqrec_command args = do
  channel ← get_assoc_value_s args (codes "channel")
  length_hour ← get_assoc_value_s args (codes "length_hour")
  length_min ← get_assoc_value_s args (codes "length_min")
  profile ← get_assoc_value_s args (codes "profile")
  title ← get_assoc_value_s args (codes "title")
  submit ← get_assoc_value_s args (codes "submit_qaddrec")
  _ ← guard (same_string submit (codes "Start"))
  some (
      take 126 (
        codes "q "
        ++ channel
        ++ codes " "
        ++ length_hour
        ++ codes ":"
        ++ length_min
        ++ codes " "
        ++ title
        ++ codes " @"
        ++ profile
        ++ codes " "))
