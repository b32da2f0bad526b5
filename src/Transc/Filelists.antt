-- ===== src/Transc/Filelists.antt =====
-- The queue of file lists, and the thread `_transcode_filelist` that works one of them off. A list is
-- known by the address of its parameter. Each function holds `filelist_mutex`.
pub mod Queue
pub mod Worked
pub mod Shared
use tvpvrd.Prelude.{
  ℕ, zero, suc, ◌+◌, List, [], ◌∷◌, ◌++◌, Option, none, some, Bool, true, false, leb, ltb, ◌==◌,
  set, take, if◌then◌else◌, length,
}
use tvpvrd.Prelude.Int.{ℤ, pos, negsuc, ◌+ℤ◌, ◌-ℤ◌}
use tvpvrd.Prelude.Text.{Bytes}
use tvpvrd.Transc.Slots.{find_free}

-- `struct filelist_queue`
pub record Filelist : Type 0 where
  pub filelist_param : ℕ
  pub idx : ℕ
  pub nentries : ℕ
  pub start : ℤ

pub record Filelists : Type 0 where
  pub ongoing : List (Option Filelist)
  pub num_filelists : ℤ

-- `struct transc_filelistparam`, at its address; the names stand before the empty one that ends them.
pub record Param : Type 0 where
  pub address : ℕ
  pub dirpath : Bytes
  pub filelist : List Bytes
  pub profilename : Bytes

abbrev pub max_filelists : ℕ
max_filelists = 5

abbrev pub max_filelist_entries : ℕ
max_filelist_entries = 200

abbrev pub no_filelists : Filelists
no_filelists = record { ongoing = none ∷ none ∷ none ∷ none ∷ none ∷ []; num_filelists = pos 0 }

-- The names up to the first empty one, at most as many as the first argument says.
unfoldable pub count_names : ℕ → List Bytes → ℕ
count_names zero names = 0
count_names (suc most) [] = 0
count_names (suc most) ([] ∷ names) = 0
count_names (suc most) ((c ∷ cs) ∷ names) = suc (count_names most names)

unfoldable pub enqueue_filelist : Param → ℤ → Filelists → ℤ × Filelists
enqueue_filelist p now q =
    let i = find_free q.ongoing in
    let entry : Filelist = record {
      filelist_param = p.address;
      idx = 0;
      nentries = count_names max_filelist_entries p.filelist;
      start = now;
    } in
    if ltb i max_filelists
    then (
      pos 0,
      record { ongoing = set q.ongoing i (some entry); num_filelists = q.num_filelists +ℤ pos 1 },
    )
    else (negsuc 0, q)

abbrev pub holds : ℕ → Option Filelist → Bool
holds address none = false
holds address (some l) = l.filelist_param == address

-- The first slot with the list, or the number of slots.
unfoldable pub find_filelist : ℕ → List (Option Filelist) → ℕ
find_filelist address [] = 0
find_filelist address (x ∷ xs) =
    let rest = suc (find_filelist address xs) in if holds address x then 0 else rest

unfoldable pub dequeue_filelist : ℕ → Filelists → ℤ × Filelists
dequeue_filelist address q =
    let i = find_filelist address q.ongoing in
    if ltb i max_filelists
    then (
      pos 0,
      record { ongoing = set q.ongoing i none; num_filelists = q.num_filelists -ℤ pos 1 },
    )
    else (negsuc 0, q)

-- One list in a slot moves on; the rest of the slots is not looked at.
unfoldable pub inc_slot : ℕ → List (Option Filelist) → ℤ × List (Option Filelist)
inc_slot address [] = (negsuc 0, [])
inc_slot address (none ∷ xs) = let rest = inc_slot address xs in (rest.0, none ∷ rest.1)
inc_slot address (some l ∷ xs) =
    let rest = inc_slot address xs in
    if l.filelist_param == address
    then (
      (if ltb l.nentries (suc l.idx) then negsuc 0 else pos 0),
      some (record l { idx = suc l.idx }) ∷ xs,
    )
    else (rest.0, some l ∷ rest.1)

unfoldable pub incidx_fillist : ℕ → Filelists → ℤ × Filelists
unfolding inc_slot
incidx_fillist address q = let r = inc_slot address q.ongoing in (r.0, record q { ongoing = r.1 })

-- The path in `buffer`, cut off at its size.
unfoldable pub path_of : Bytes → Bytes → Bytes
path_of [] name = take 511 name
path_of (c ∷ cs) name = take 511 ((c ∷ cs) ++ b'/' ∷ name)

-- A call of one of the three functions, which hold the lock of the queue.
pub data Call : Type 0 where
  enqueue : Param → ℤ → Call
  dequeue : ℕ → Call
  incidx : ℕ → Call

abbrev pub call : Call → Filelists → ℤ × Filelists
call (enqueue p now) q = enqueue_filelist p now q
call (dequeue address) q = dequeue_filelist address q
call (incidx address) q = incidx_fillist address q

unfoldable pub calls : List Call → Filelists → Filelists
calls [] q = q
calls (c ∷ cs) q = calls cs (call c q).1

-- The loop: the answers of `transcode_file`, by the number of the call, end it when one is -1. The
-- calls that other threads make meanwhile are `others`, by the number of the file before which they
-- are made. What is submitted comes back with the queue. An empty name ends the list.
unfoldable pub submit_from :
    (ℕ → List Call) → (ℕ → ℤ) → Param → ℕ → List Bytes → Filelists → List Bytes × Filelists
submit_from others answers p k [] q = ([], calls (others k) q)
submit_from others answers p k ([] ∷ names) q = ([], calls (others k) q)
submit_from others answers p k ((c ∷ cs) ∷ names) q =
    let path = path_of p.dirpath (c ∷ cs) in
    let q1 = calls (others k) q in
    let rest = submit_from others answers p (suc k) names (incidx_fillist p.address q1).1 in
    elim (answers k) [ negsuc n ↦ (path ∷ [], q1) | pos n ↦ (path ∷ rest.0, rest.1) ]

unfoldable pub transcode_filelist_thread :
    (ℕ → List Call) → (ℕ → ℤ) → Param → ℤ → Filelists → List Bytes × Filelists
transcode_filelist_thread others answers p now q =
    if leb 256 (length p.dirpath)
    then ([], q)
    else let r = submit_from others answers p 0 p.filelist (enqueue_filelist p now q).1 in
      (r.0, (dequeue_filelist p.address r.1).1)
