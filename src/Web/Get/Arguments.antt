-- ===== src/Web/Get/Arguments.antt =====
-- Encoded arguments come back from `parse_args`.
use mathlib.Core.Path.{subst}
use mathlib.Core.List.{append_assoc}
use tvpvrd.Prelude.{
  ℕ, zero, suc, ◌+◌, ◌-◌, ◌≤◌, ◌<◌, ◌≡◌, refl, ap, sym, ◌∙◌, inl, inr, Bool, true, false, [], ◌∷◌,
  ◌++◌, some, leb, ◌==◌, if◌then◌else◌, length, drop, All, All-append, All-map, length-append,
  arith,
}
use tvpvrd.Prelude.Text.{Bytes}
use tvpvrd.Utils.Url.{url_encode}
use tvpvrd.Xstr.{size_max, byte_at}
use tvpvrd.Xstr.Cutting.{drop-append}
use tvpvrd.Xstr.Trimming.{byte_at-append}
use tvpvrd.Web.Get.Encoded.{
  IsPlain, url_encode-IsPlain, Halts, until-part, more_args, IsArg, more_args-ends,
  decoded_part-encoded,
}
use tvpvrd.Web.Get.{Args, until, decoded_part, with_arg, parse_args}

-- One argument: `pre` is what was passed, and `mark` the byte before the argument.
module _ (pre : Bytes) (mark : ℕ) (k v : Bytes) (post : Bytes) where
  abbrev pub text : Bytes
  text = pre ++ (mark ∷ (url_encode k ++ b'=' ∷ (url_encode v ++ post)))

  abbrev key_from : Bytes
  key_from = pre ++ mark ∷ []

  abbrev val_from : Bytes
  val_from = key_from ++ (url_encode k ++ b'=' ∷ [])

  text-key : text ≡ key_from ++ (url_encode k ++ b'=' ∷ (url_encode v ++ post))
  text-key = sym (append_assoc pre (mark ∷ []) (url_encode k ++ b'=' ∷ (url_encode v ++ post)))

  text-val : text ≡ val_from ++ (url_encode v ++ post)
  text-val =
      text-key
      ∙ sym (
          append_assoc key_from (url_encode k ++ b'=' ∷ []) (url_encode v ++ post)
          ∙ ap (λ w. key_from ++ w)
              (append_assoc (url_encode k) (b'=' ∷ []) (url_encode v ++ post)))

  abbrev pub key_end : ℕ
  key_end = suc (length pre) + length (url_encode k)

  abbrev pub val_end : ℕ
  val_end = suc key_end + length (url_encode v)

  length-text : length text ≡ val_end + length post
  length-text = omega (
    arith,
    length-append pre (mark ∷ (url_encode k ++ b'=' ∷ (url_encode v ++ post))),
    length-append (url_encode k) (b'=' ∷ (url_encode v ++ post)),
    length-append (url_encode v) post,
  )

  length-key_from : length key_from ≡ length pre + 1
  length-key_from = omega (arith, length-append pre (mark ∷ []))

  length-val_from : length val_from ≡ suc key_end
  length-val_from = omega (
    arith,
    length-append key_from (url_encode k ++ b'=' ∷ []),
    length-append (url_encode k) (b'=' ∷ []),
    length-key_from,
  )

  abbrev rest_of_text : Bytes
  rest_of_text = url_encode k ++ b'=' ∷ (url_encode v ++ post)

  drop-text : drop (length pre + 1) text ≡ rest_of_text
  drop-text =
      subst (λ n. drop n text ≡ rest_of_text) length-key_from
        (subst (λ z. drop (length key_from) z ≡ rest_of_text) (sym text-key)
          (drop-append key_from rest_of_text))

  abbrev arg_stop : ℕ → Bool
  arg_stop c = c == b'&'

  until-arg :
      9 ≤ length post
      → Halts arg_stop (length text - 9) val_end post
      → until arg_stop (length text - 9) (length pre + 1) (drop (length pre + 1) text) ≡ val_end
  until-arg version halt =
      let plain : All (λ c. arg_stop c ≡ false) (url_encode k ++ b'=' ∷ url_encode v) =
        All-append (λ c. arg_stop c ≡ false) (url_encode k) (b'=' ∷ url_encode v)
          (All-map IsPlain _ (url_encode k) (λ c h. h.0) (url_encode-IsPlain k))
          (refl, All-map IsPlain _ (url_encode v) (λ c h. h.0) (url_encode-IsPlain v)) in
      let size : length pre + 1 + length (url_encode k ++ b'=' ∷ url_encode v) ≡ val_end =
        omega (arith, length-append (url_encode k) (b'=' ∷ url_encode v)) in
      ap (until arg_stop (length text - 9) (length pre + 1))
        (drop-text ∙ sym (append_assoc (url_encode k) (b'=' ∷ url_encode v) post))
      ∙ until-part arg_stop (length text - 9) (length pre + 1) (url_encode k ++ b'=' ∷ url_encode v)
          post plain (omega (arith, length-text))
          (subst (λ p. Halts arg_stop (length text - 9) p post) (sym size) halt)
      ∙ size

  until-key : until (λ c. c == b'=') val_end (length pre + 1) (drop (length pre + 1) text) ≡ key_end
  until-key =
      ap (until (λ c. c == b'=') val_end (length pre + 1)) drop-text
      ∙ until-part (λ c. c == b'=') val_end (length pre + 1) (url_encode k)
          (b'=' ∷ (url_encode v ++ post))
          (All-map IsPlain _ (url_encode k) (λ c h. h.1) (url_encode-IsPlain k)) (omega arith)
          (inr refl)
      ∙ omega arith

  decoded-key :
      IsArg (k, v) → length text < size_max → decoded_part text (length pre + 1) (key_end - 1) ≡ k
  decoded-key (hk, hv, short_k, short_v) bound =
      subst (λ n. decoded_part text n (key_end - 1) ≡ k) length-key_from
        (subst (λ z. decoded_part z (length key_from) (key_end - 1) ≡ k) (sym text-key)
          (decoded_part-encoded key_from k (b'=' ∷ (url_encode v ++ post)) (key_end - 1) hk short_k
            (omega (arith, length-key_from)) (omega (arith, length-text))))

  decoded-val :
      IsArg (k, v) → length text < size_max → decoded_part text (key_end + 1) (val_end - 1) ≡ v
  decoded-val (hk, hv, short_k, short_v) bound =
      subst (λ n. decoded_part text n (val_end - 1) ≡ v) (length-val_from ∙ omega arith)
        (subst (λ z. decoded_part z (length val_from) (val_end - 1) ≡ v) (sym text-val)
          (decoded_part-encoded val_from v post (val_end - 1) hv short_v
            (omega (arith, length-val_from)) (omega (arith, length-text))))

  abbrev done : Bytes
  done = val_from ++ url_encode v

  text-done : text ≡ done ++ post
  text-done = text-val ∙ sym (append_assoc val_from (url_encode v) post)

  length-done : length done ≡ val_end
  length-done = omega (arith, length-append val_from (url_encode v), length-val_from)

  byte_at-val_end : byte_at text val_end ≡ byte_at post 0
  byte_at-val_end =
      let here : val_end ≡ length done + 0 = omega (arith, length-done) in
      rw (here, text-done) (byte_at-append done post 0)

  -- One round of the loop.
  parse_args-round :
      (room : ℕ)
      → IsArg (k, v)
      → 9 ≤ length post
      → Halts arg_stop (length text - 9) val_end post
      → length text < size_max
      → parse_args (suc room) text (length pre) ≡ (
          if byte_at post 0 == b'&'
          then with_arg (k, v) (parse_args room text val_end)
          else some ((k, v) ∷ []))
  unfolding parse_args
  parse_args-round room arg version halt bound =
      let more : leb val_end key_end ≡ false = ground arith in
      rw
        (
          until-arg version halt,
          until-key,
          more,
          byte_at-val_end,
          decoded-key arg bound,
          decoded-val arg bound,
        )
        refl

pub parse_args-args :
    (room : ℕ) (pre : Bytes) (mark : ℕ) (k v : Bytes) (args : Args)
    → length args < room
    → All IsArg ((k, v) ∷ args)
    → length (text pre mark k v (more_args args)) < size_max
    → parse_args room (text pre mark k v (more_args args)) (length pre) ≡ some ((k, v) ∷ args)
parse_args-args zero pre mark k v args enough h bound = absurd (omega arith)
parse_args-args (suc room) pre mark k v [] enough (arg, h) bound =
    let halt : Halts (λ c. c == b'&') (length (text pre mark k v (more_args [])) - 9)
        (val_end pre mark k v (more_args [])) (more_args []) =
      unfold more_args in inl (ground (arith, length-text pre mark k v (more_args []))) in
    parse_args-round pre mark k v (more_args []) room arg (more_args-ends []) halt bound
    ∙ (unfold more_args in refl)
parse_args-args (suc room) pre mark k v ((k2, v2) ∷ args) enough (arg, h) bound =
    let post = more_args ((k2, v2) ∷ args) in
    let later : text pre mark k v post ≡ text (done pre mark k v post) b'&' k2 v2 (more_args args) =
      unfold more_args in text-done pre mark k v post in
    let ih =
      parse_args-args room (done pre mark k v post) b'&' k2 v2 args (omega arith) h
        (subst (λ (s : Bytes). length s < size_max) later bound) in
    let goes_on : (byte_at post 0 == b'&') ≡ true = unfold more_args in refl in
    let inner : parse_args room (text pre mark k v post) (val_end pre mark k v post)
        ≡ some ((k2, v2) ∷ args) =
      subst (λ n. parse_args room (text pre mark k v post) n ≡ some ((k2, v2) ∷ args))
        (length-done pre mark k v post)
        (subst (λ s. parse_args room s (length (done pre mark k v post)) ≡ some ((k2, v2) ∷ args))
          (sym later) ih) in
    parse_args-round pre mark k v post room arg (more_args-ends ((k2, v2) ∷ args))
      (unfold more_args in inr refl) bound
    ∙ rw goes_on (ap (with_arg (k, v)) inner)
