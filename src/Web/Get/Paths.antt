-- ===== src/Web/Get/Paths.antt =====
-- The path and the version of a request line in `web_parse_httpget`.
use mathlib.Core.Path.{subst}
use mathlib.Core.List.{append_assoc}
use tvpvrd.Prelude.{
  ℕ, zero, suc, ◌+◌, ◌-◌, ◌≤◌, ◌<◌, ◌≡◌, refl, ap, sym, ◌∙◌, Bool, true, false, List, [], ◌∷◌, ◌++◌,
  ltb, ◌==◌, length, All, length-append, arith,
}
use tvpvrd.Prelude.Text.{Bytes, codes}
use tvpvrd.Recs.State.{returns}
use tvpvrd.Xstr.{size_max, byte_at, xsubstr}
use tvpvrd.Xstr.Cutting.{xsubstr-part, xsubstr-end, fitting_short}
use tvpvrd.Xstr.Trimming.{byte_at-append}
use tvpvrd.Web.Get.{Args, ends_with, version_tests, slash_back, split_path, path_stop}
use tvpvrd.Web.Get.Encoded.{more_args}
use tvpvrd.Utils.Url.{url_encode}

-- The arguments behind the path, and the version.
unfoldable pub arguments : Args → Bytes
arguments [] = codes " HTTP/1.1"
arguments ((k, v) ∷ args) = b'?' ∷ (url_encode k ++ b'=' ∷ (url_encode v ++ more_args args))

unfoldable pub request_line : Bytes → Bytes → Args → Bytes
request_line dir file args = (dir ++ b'/' ∷ file) ++ arguments args

-- Neither a slash nor what ends the path.
abbrev pub IsName : ℕ → Type 0
IsName c = (path_stop c ≡ false) × ((c == b'/') ≡ false)

All-byte_at : (P : ℕ → Type 0) (xs : Bytes) (i : ℕ) → All P xs → i < length xs → P (byte_at xs i)
All-byte_at P [] i h lt = absurd (omega arith)
All-byte_at P (x ∷ xs) zero h lt = h.0
All-byte_at P (x ∷ xs) (suc i) h lt = All-byte_at P xs i h.1 (omega arith)

slash_back-slash : (s : Bytes) (n : ℕ) → (byte_at s n == b'/') ≡ true → slash_back s n ≡ n
unfolding slash_back
slash_back-slash s zero h = refl
slash_back-slash s (suc n) h = rw h refl

slash_back-file :
    (dir file : Bytes) (n : ℕ)
    → n ≤ length file
    → All IsName file
    → slash_back (dir ++ b'/' ∷ file) (length dir + n) ≡ length dir
unfolding slash_back
slash_back-file dir file zero h names =
    let slash : (byte_at (dir ++ b'/' ∷ file) (length dir + 0) == b'/') ≡ true =
      rw (byte_at-append dir (b'/' ∷ file) 0) refl in
    slash_back-slash (dir ++ b'/' ∷ file) (length dir + 0) slash ∙ omega arith
slash_back-file dir file (suc n) h names =
    let back : length dir + suc n ≡ suc (length dir + n) = omega arith in
    let other : (byte_at (dir ++ b'/' ∷ file) (suc (length dir + n)) == b'/') ≡ false =
      rw (← back, byte_at-append dir (b'/' ∷ file) (suc n))
        (All-byte_at IsName file n names (omega arith)).1 in
    rw (back, other) (slash_back-file dir file n (omega arith) names)

abbrev pub version : Bytes
version = codes " HTTP/1.1"

module _ (s : Bytes) where
  length-version : length (s ++ version) ≡ length s + 9
  length-version = length-append s version

  byte_at-version :
      (k : ℕ) → k ≤ 9 → byte_at (s ++ version) (length (s ++ version) - k) ≡ byte_at version (9 - k)
  byte_at-version k h =
      let at : length (s ++ version) - k ≡ length s + (9 - k) = omega (arith, length-version) in
      rw at (byte_at-append s version (9 - k))

  abbrev Passes : ℕ × (ℕ → Bool) → Type 0
  Passes (k, test) = (k ≤ 9) × (test (byte_at version (9 - k)) ≡ true)

  ends_with-passed :
      (tests : List (ℕ × (ℕ → Bool)))
      → All Passes tests
      → ends_with (s ++ version) (length (s ++ version)) tests ≡ returns true
  unfolding ends_with
  ends_with-passed [] h = refl
  ends_with-passed ((k, test) ∷ tests) ((within, passed), h) =
      let inside : ltb (length (s ++ version)) k ≡ false = ground (arith, length-version) in
      rw (inside, byte_at-version k within, passed) (ends_with-passed tests h)

  pub ends_with-version :
      ends_with (s ++ version) (length (s ++ version)) version_tests ≡ returns true
  ends_with-version = ends_with-passed version_tests (
    (omega arith, refl),
    (
      (omega arith, refl),
      (
        (omega arith, refl),
        (
          (omega arith, refl),
          (
            (omega arith, refl),
            (
              (omega arith, refl),
              ((omega arith, refl), ((omega arith, refl), ((omega arith, refl), tt))),
            ),
          ),
        ),
      ),
    ),
  )

encoded-version :
    (k v post s : Bytes)
    → post ≡ s ++ version
    → url_encode k ++ b'=' ∷ (url_encode v ++ post)
      ≡ (url_encode k ++ b'=' ∷ (url_encode v ++ s)) ++ version
encoded-version k v post s e =
    ap (λ p. url_encode k ++ b'=' ∷ (url_encode v ++ p)) e
    ∙ sym (
        append_assoc (url_encode k) (b'=' ∷ (url_encode v ++ s)) version
        ∙ ap (λ w. url_encode k ++ b'=' ∷ w) (append_assoc (url_encode v) s version))

more_args-version : (args : Args) → (s : Bytes) × (more_args args ≡ s ++ version)
unfolding more_args
more_args-version [] = ([], refl)
more_args-version ((k, v) ∷ args) =
    let (s, e) = more_args-version args in
    (
      b'&' ∷ (url_encode k ++ b'=' ∷ (url_encode v ++ s)),
      ap (λ w. b'&' ∷ w) (encoded-version k v (more_args args) s e),
    )

pub arguments-version : (args : Args) → (s : Bytes) × (arguments args ≡ s ++ version)
unfolding arguments
arguments-version [] = ([], refl)
arguments-version ((k, v) ∷ args) =
    let (s, e) = more_args-version args in
    (
      b'?' ∷ (url_encode k ++ b'=' ∷ (url_encode v ++ s)),
      ap (λ w. b'?' ∷ w) (encoded-version k v (more_args args) s e),
    )

-- The directory of a file in the root.
abbrev pub or_root : Bytes → Bytes
or_root [] = codes "/"
or_root (c ∷ cs) = c ∷ cs

module _ (dir file : Bytes) where
  abbrev pub path : Bytes
  path = dir ++ b'/' ∷ file

  pub length-path : length path ≡ length dir + 1 + length file
  length-path = omega (arith, length-append dir (b'/' ∷ file))

  path-file : path ≡ (dir ++ b'/' ∷ []) ++ file
  path-file = sym (append_assoc dir (b'/' ∷ []) file)

  slash_back-path : All IsName file → slash_back path (length path - 1) ≡ length dir
  slash_back-path names =
      ap (slash_back path) (omega (arith, length-path))
      ∙ slash_back-file dir file (length file) (omega arith) names

  xsubstr-file :
      (m : ℕ)
      → length file < m
      → length path ≤ size_max
      → (xsubstr m path (length dir + 1) size_max).1 ≡ file
  xsubstr-file m short bound =
      let start : length (dir ++ b'/' ∷ []) ≡ length dir + 1 = length-append dir (b'/' ∷ []) in
      subst (λ n. (xsubstr m path n size_max).1 ≡ file) start
        (subst (λ z. (xsubstr m z (length (dir ++ b'/' ∷ [])) size_max).1 ≡ file) (sym path-file)
          (xsubstr-end m (dir ++ b'/' ∷ []) file (omega (arith, start))
              (omega (arith, start, length-path))
            ∙ fitting_short m file short))

pub split_path-path :
    (dir file : Bytes) (maxdirlen maxfilelen : ℕ)
    → All IsName file
    → length (path dir file) ≤ size_max
    → length dir < maxdirlen
    → length file < maxfilelen
    → split_path maxdirlen maxfilelen (path dir file) ≡ (or_root dir, file)
unfolding split_path
split_path-path [] file maxdirlen maxfilelen names bound short_dir short_file =
    rw (slash_back-path [] file names, xsubstr-file [] file maxfilelen short_file bound) refl
split_path-path (c ∷ dir) file maxdirlen maxfilelen names bound short_dir short_file =
    let cut : (xsubstr maxdirlen (path (c ∷ dir) file) 0 (length (c ∷ dir) - 1)).1 ≡ c ∷ dir =
      xsubstr-part maxdirlen [] (c ∷ dir) (b'/' ∷ file) (length (c ∷ dir) - 1) (omega arith)
        (omega (arith, length-path (c ∷ dir) file))
      ∙ fitting_short maxdirlen (c ∷ dir) short_dir in
    let below : (length (c ∷ dir) == 0) ≡ false = ground arith in
    rw
      (
        slash_back-path (c ∷ dir) file names,
        below,
        cut,
        xsubstr-file (c ∷ dir) file maxfilelen short_file bound,
      )
      refl
