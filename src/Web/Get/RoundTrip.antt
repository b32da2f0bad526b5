-- ===== src/Web/Get/RoundTrip.antt =====
-- A request line with encoded arguments comes back from `web_parse_httpget`.
use mathlib.Core.Path.{subst}
use mathlib.Core.List.{append_assoc}
use tvpvrd.Prelude.{
  ℕ, suc, ◌+◌, ◌-◌, ◌≤◌, ◌<◌, ◌≡◌, refl, ap, sym, ◌∙◌, inr, true, false, [], ◌∷◌, ◌++◌, some, ◌==◌,
  if◌then◌else◌, length, min, All, All-append, All-map, length-append, arith,
}
use tvpvrd.Prelude.Int.{ℤ, pos}
use tvpvrd.Prelude.Text.{Bytes, codes}
use tvpvrd.Recs.State.{returns}
use tvpvrd.Xstr.{size_max, wrap, byte_at, xsubstr}
use tvpvrd.Xstr.Cutting.{xsubstr-part, fitting_short, xsubstr-fits}
use tvpvrd.Xstr.Trimming.{byte_at-append}
use tvpvrd.Web.Get.{
  Args, Request, ends_with, version_tests, until, parse_args, path_stop, make_request, parse_get,
  web_parse_httpget,
}
use tvpvrd.Web.Get.Encoded.{Halts, until-part, more_args, IsArg}
use tvpvrd.Web.Get.Arguments.{parse_args-args}
use tvpvrd.Utils.Url.{url_encode}
use tvpvrd.Web.Get.Paths.{
  arguments, request_line, IsName, version, ends_with-version, arguments-version, or_root, path,
  length-path, split_path-path,
}

abbrev both : ℤ → Bytes → ℤ × Bytes
both a b = (a, b)

both_of : (r : ℤ × Bytes) (a : ℤ) (b : Bytes) → r.0 ≡ a → r.1 ≡ b → r ≡ both a b
both_of (x, y) a b e f = rw (e, f) refl

arguments-Halts : (n p : ℕ) (args : Args) → Halts path_stop n p (arguments args)
unfolding arguments
arguments-Halts n p [] = inr refl
arguments-Halts n p ((k, v) ∷ args) = inr refl

module _ (dir file : Bytes) (args : Args) where
  abbrev line : Bytes
  line = path dir file ++ arguments args

  length-line : length line ≡ length (path dir file) + length (arguments args)
  length-line = length-append (path dir file) (arguments args)

  line-version : ends_with line (length line) version_tests ≡ returns true
  line-version =
      let (s, e) = arguments-version args in
      let split : line ≡ (path dir file ++ s) ++ version =
        ap (λ w. path dir file ++ w) e ∙ sym (append_assoc (path dir file) s version) in
      subst (λ z. ends_with z (length z) version_tests ≡ returns true) (sym split)
        (ends_with-version (path dir file ++ s))

  arguments-some : 0 < length (arguments args)
  arguments-some =
      let (s, e) = arguments-version args in
      subst (λ (z : Bytes). 0 < length z) (sym e) (omega (arith, length-append s version))

  until-path :
      (n : ℕ)
      → length (path dir file) ≤ n
      → All (λ c. path_stop c ≡ false) dir
      → All IsName file
      → until path_stop n 0 line ≡ length (path dir file)
  until-path n h hdir hfile =
      let plain : All (λ c. path_stop c ≡ false) (path dir file) =
        All-append (λ c. path_stop c ≡ false) dir (b'/' ∷ file) hdir
          (refl, All-map IsName _ file (λ c h. h.0) hfile) in
      until-part path_stop n 0 (path dir file) (arguments args) plain (omega arith)
        (arguments-Halts n (0 + length (path dir file)) args)
      ∙ omega arith

  fbuff_of_line :
      length line ≤ 512
      → xsubstr (length line) line 0 (wrap (length (path dir file) + size_max))
        ≡ both (pos 0) (path dir file)
  fbuff_of_line bound =
      let last : wrap (length (path dir file) + size_max) ≡ length (path dir file) - 1 =
        omega (arith, length-path dir file, length-line) in
      let at : suc (length (path dir file) - 1) ≡ 0 + length (path dir file) =
        omega (arith, length-path dir file) in
      rw last (
        both_of _ _ _
          (xsubstr-fits (length line) [] (path dir file) (arguments args)
            (length (path dir file) - 1) at (omega (arith, length-line))
            (omega (arith, length-path dir file)) (omega (arith, length-line, arguments-some)))
          (xsubstr-part (length line) [] (path dir file) (arguments args)
              (length (path dir file) - 1) at (omega (arith, length-line))
            ∙ fitting_short (length line) (path dir file)
                (omega (arith, length-line, arguments-some))))

abbrev request : Bytes → Bytes → Args → Request
request dir file args = record { dir = or_root dir; file = file; args = args }

-- The byte behind the path.
behind :
    (dir file post : Bytes)
    → byte_at (path dir file ++ post) (length (path dir file)) ≡ byte_at post 0
behind dir file post =
    let at : length (path dir file) ≡ length (path dir file) + 0 = omega arith in
    ap (byte_at (path dir file ++ post)) at ∙ byte_at-append (path dir file) post 0

args_of_line :
    (dir file : Bytes) (args : Args) (maxargs : ℕ)
    → All IsArg args
    → length args ≤ maxargs
    → length (line dir file args) ≤ 512
    → (if byte_at (line dir file args) (length (path dir file)) == b'?'
        then make_request
            (or_root dir, file)
            (parse_args maxargs (line dir file args) (length (path dir file)))
        else make_request (or_root dir, file) (some []))
      ≡ some (request dir file args)
unfolding arguments make_request
args_of_line dir file [] maxargs h room bound =
    let here : byte_at (line dir file []) (length (path dir file)) ≡ b' ' =
      behind dir file (b' ' ∷ codes "HTTP/1.1") in
    rw here refl
args_of_line dir file ((k, v) ∷ args) maxargs h room bound =
    let here : byte_at (line dir file ((k, v) ∷ args)) (length (path dir file)) ≡ b'?' =
      behind dir file (b'?' ∷ (url_encode k ++ b'=' ∷ (url_encode v ++ more_args args))) in
    rw (here, parse_args-args maxargs (path dir file) b'?' k v args (omega arith) h (omega arith))
      refl

-- For a directory and a file without spaces and question marks, the file without slashes too, that
-- fit their buffers, and for arguments of bytes that there is place for, each shorter than 255 bytes
-- when encoded: from a request line of at most 512 bytes with the encoded arguments,
-- `web_parse_httpget` gets back the directory, the file and the arguments.
pub web_parse_httpget-request_line :
    (dir file : Bytes) (args : Args) (maxdirlen maxfilelen maxargs : ℕ)
    → All (λ c. path_stop c ≡ false) dir
    → All IsName file
    → All IsArg args
    → length (request_line dir file args) ≤ 512
    → length dir < maxdirlen
    → length file < maxfilelen
    → length args ≤ maxargs
    → web_parse_httpget (some (request_line dir file args)) maxdirlen maxfilelen maxargs
      ≡ returns (some (record { dir = or_root dir; file = file; args = args }))
unfolding web_parse_httpget request_line parse_get
web_parse_httpget-request_line dir file args maxdirlen maxfilelen maxargs hdir hfile hargs bound
      short_dir short_file room =
    let all : min 512 (length (line dir file args)) ≡ length (line dir file args) = omega arith in
    let before : (length (path dir file) == length (line dir file args)) ≡ false =
      ground (arith, length-line dir file args, arguments-some dir file args) in
    rw
      (
        all,
        line-version dir file args,
        until-path dir file args (length (line dir file args))
            (omega (arith, length-line dir file args)) hdir hfile,
        before,
        fbuff_of_line dir file args bound,
        split_path-path dir file maxdirlen maxfilelen hfile
            (omega (arith, length-line dir file args)) short_dir short_file,
      )
      (ap returns (args_of_line dir file args maxargs hargs room bound))
