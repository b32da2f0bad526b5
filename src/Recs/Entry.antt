-- ===== src/Recs/Entry.antt =====
-- `struct recording_entry` and `newrec`. A string is the list of its bytes, without the final zero;
-- `strncpy` into a buffer of n bytes, closed by a zero, is `take (n - 1)`.
use tvpvrd.Prelude.{ℕ, zero, suc, ◌-◌, ◌^◌, Bool, List, [], ◌∷◌, replicate, take}
pub use tvpvrd.Prelude.Text.{Bytes}
use tvpvrd.Prelude.Int.{ℤ}

abbrev pub rec_max_ntitle : ℕ
rec_max_ntitle = 256

abbrev pub rec_max_nchannel : ℕ
rec_max_nchannel = 128

abbrev pub rec_max_nfilename : ℕ
rec_max_nfilename = 128

abbrev pub rec_max_tprofile_len : ℕ
rec_max_tprofile_len = 16

abbrev pub rec_max_tprofiles : ℕ
rec_max_tprofiles = 5

-- `recurrence` is an int that is only tested against 0. The list of profiles has all five slots.
pub record Entry : Type 0 where
  pub seqnbr : ℕ
  pub title : Bytes
  pub channel : Bytes
  pub filename : Bytes
  pub ts_start : ℤ
  pub ts_end : ℤ
  pub transcoding_profiles : List Bytes
  pub recurrence : Bool
  pub recurrence_type : ℕ
  pub recurrence_num : ℕ
  pub recurrence_mangling : ℕ
  pub recurrence_mangling_prefix : Bytes
  pub recurrence_id : ℕ
  pub recurrence_filename : Bytes
  pub recurrence_title : Bytes
  pub recurrence_start_number : ℕ
  pub video : ℕ

-- The first loop over `profiles`: it stops at the end of the argument and at an empty name.
pub copy_profiles : ℕ → List Bytes → List Bytes
copy_profiles zero ps = []
copy_profiles (suc n) [] = replicate (suc n) []
copy_profiles (suc n) ([] ∷ ps) = replicate (suc n) []
copy_profiles (suc n) ((c ∷ p) ∷ ps) = take (rec_max_tprofile_len - 1) (c ∷ p) ∷ copy_profiles n ps

-- `if( i == 0 )`: no name was copied.
abbrev pub or_default : Bytes → List Bytes → List Bytes
or_default default ([] ∷ ps) = take (rec_max_tprofile_len - 1) default ∷ ps
or_default default ps = ps

-- The entry that `newrec` returns. The fields that it leaves to `calloc` are zero; `seqnbr` is -1
-- as an unsigned number. `default` is `default_transcoding_profile`, and the last argument is the
-- value of `initial_recurrence_start_number`.
unfoldable pub new_entry :
    Bytes → Bytes → Bytes → ℤ → ℤ → Bytes → Bool → ℕ → ℕ → ℕ → List Bytes → ℕ → Entry
unfolding copy_profiles
new_entry default title filename start end channel recurrence type num mangling profiles number =
    record {
      seqnbr = 2 ^ 32 - 1;
      title = take (rec_max_ntitle - 1) title;
      channel = take (rec_max_nchannel - 1) channel;
      filename = take (rec_max_nfilename - 1) filename;
      ts_start = start;
      ts_end = end;
      transcoding_profiles = or_default default (copy_profiles rec_max_tprofiles profiles);
      recurrence = recurrence;
      recurrence_type = type;
      recurrence_num = num;
      recurrence_mangling = mangling;
      recurrence_mangling_prefix = b'_' ∷ [];
      recurrence_id = 0;
      recurrence_filename = [];
      recurrence_title = [];
      recurrence_start_number = number;
      video = 0;
    }
