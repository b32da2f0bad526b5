-- ===== src/Lib.antt =====
-- Verification library of the TV recording server tvpvrd.
--
-- The server keeps a list of pending recordings for each video stream. Commands of the clients and
-- the XML database insert recordings, single or repeated (`insertrec`), and delete them
-- (`delete_recid`); the thread `chkrec` looks at the first recording of each list, starts it when it
-- is due and takes it out; the shutdown logic asks for the next one (`get_nextsched_rec`). Repeated
-- recordings are expanded to single ones with the date functions. Channel names are turned into
-- frequencies with the frequency maps. What is recorded is transcoded by threads that share two
-- slots, and so are files and lists of files on command; the shutdown waits for all of them. A
-- browser that has logged in sends commands as requests.
--
-- Parts and files (paths from the root of the repository):
--   Datetime (src/datetimeutil.c): the type `Parts` is the six int variables of a date, `Dates` the
--     variables that `increcdays` moves. `increcdays`, `adjust_initital_repeat_date`,
--     `totimestamp` and `fromtimestamp` are the C functions; Datetime/Relative is
--     `getreldatefromdayname`. Datetime/Utc is a calendar for tests.
--   Recs (src/recs.c): `Recs` is the state in its global arrays and counters. Recs/Entry has
--     `struct recording_entry` and `newrec`; Recs/Sorting the order; Recs/State the lists;
--     Recs/Names `rec_title_mangling`; Recs/Overlap `isentryoverlapping`; Recs/Insert `insertrec`;
--     Recs/Delete `delete_recid`, `remove_toprec` and `update_profile`; Recs/Exclusion the table of
--     deleted numbers; Recs/Next `get_nextsched_rec`. Recs/Invariant is what the operations keep.
--   Freqmap (src/freqmap.c, with `xstricmp` and `xatoi` of src/xstr.c): the tables, in
--     Freqmap/Tables, and the lookups; the state is the number of the map in use and the stations.
--   Server (src/tvpvrsrv.c): one round of the loop of `chkrec`; Server/Clients the session of a
--     client (`clientsrv`) and the slots that connections take; Server/Shutdown is
--     `check_for_shutdown` (src/tvshutdown.c).
--   Transc (src/transc.c): Transc/Slots the search for a free slot that its arrays share;
--     Transc/Ongoing the array of the transcodings that run; Transc/Threads the threads that run
--     them, as phases that go on one step at a time, in any order (`Step`, `Reachable`);
--     Transc/Filelists the queue of file lists and the thread of a list; Transc/Waiting
--     `wait_to_transcode` and the array of those that wait.
--   Mail (src/libsmtpmail/base64ed.c, src/libsmtpmail/quotprinted.c): the base64 coding, and the
--     encoded words of subject lines.
--   Utils (src/utils.c): the encodings for URLs and HTML.
--   Rkey (src/rkey.c): the replacement of keywords in templates.
--   History (src/tvhistory.c): the list of past recordings.
--   Wakelan (src/tvpowerd/wakelan.c): the MAC address and the packet that wakes the server.
--   Powerd (src/tvpowerd/tvpowerd.c): a round of `server_loop` of the power daemon, which shuts a
--     remote server down and wakes it for its next recording.
--   Stats (src/stats.c): the statistics of the transcoding profiles.
--   Xstr (src/xstr.c): the cutting, trimming and copying of strings.
--   Web (src/httpreq.c, src/tvwebcmd.c): Web/Headers the header of a request; Web/Get the
--     parsing of its GET field; Web/Cookies the cookie of a login; Web/Commands the commands that
--     requests become; Web/Access which requests are answered with what.
--   Prelude: tests on numbers, lists, integers and permutations. Tests: samples and examples.
--
-- The C library's `mktime`, `localtime_r`, `qsort`, `basename`, `dirname`, `strcasecmp` and
-- `strtol` are parameters (`LibcTime`, `Qsort`, `Config`, `Settings`), with what the code relies
-- on as named laws (`WeekdaysStep`, `NormalNow`, the fields of `Qsort`). `exit`, a
-- failed assertion, a division by zero, a read or write out of bounds, through a null pointer or of
-- what was never set end in `aborts`. That `mktime` gives no time before 1970, nor -1, is assumed
-- only of the dates that a series visits (`InTime`). The regular expression library's test for a
-- mobile browser is a parameter of `Settings`.
--
-- Bounds and fuel: the loops over days in `increcdays` have fuel 7, since each type of
-- repetition has a day in every week; the digits of a number have its own value as fuel. The
-- counters are natural numbers and do not wrap, as they grow by one with each recording.
-- Frequencies are products modulo 2 ^ 32. Memory is always found, but for
-- `record_ongoingtranscoding`. `wait_to_transcode` has fuel of one for each reading of the load.
--
-- Not modelled: the listings of recordings and other text output, the command interpreter, the
-- text of web pages, the sending of mail, the files of statistics and of the
-- history, the command lines of the transcoding, the commands of the power daemon, the XML
-- database, the configuration, the control of the video cards and the bundled iniparser library:
-- system calls, text output or calls of libraries, or work that is left. The waiting loops of the
-- threads of transcodings are single steps. The calls of other threads come to the thread of a file
-- list as lists of calls, made between its own ones.
mod Prelude
pub mod Datetime
pub mod Recs
pub mod Freqmap
pub mod Server
pub mod Mail
pub mod Utils
pub mod Transc
pub mod Rkey
pub mod History
pub mod Wakelan
pub mod Powerd
pub mod Stats
pub mod Xstr
pub mod Web
mod Tests
