-- ===== src/Web/Get/Encoded.antt =====
-- The encoding of keys and values, and the loops of `parse_args` on an encoded text.
use mathlib.Core.Path.{subst}
use tvpvrd.Prelude.{
  ℕ, zero, suc, ◌+◌, ◌/◌, ◌≤◌, ◌<◌, ◌≡◌, refl, ap, sym, ◌∙◌, ◌⊎◌, inl, inr, Bool, true, false, [],
  ◌∷◌, ◌++◌, leb, ◌==◌, length, All, All-append, Bool-cases, length-append, arith,
}
use tvpvrd.Prelude.Text.{Bytes, codes}
use tvpvrd.Utils.Url.{
  to_hex, unreserved, encode_char, url_encode, hex_char, plain_char, url_decode, decode_within,
  url_decode_buff,
}
use tvpvrd.Utils.Url.RoundTrip.{url_decode-url_encode}
use tvpvrd.Xstr.{size_max, xsubstr}
use tvpvrd.Xstr.Cutting.{fitting, xsubstr-part}
use tvpvrd.Web.Get.{Args, until, decoded_part}

-- What ends neither a key nor a value.
abbrev pub IsPlain : ℕ → Type 0
IsPlain c = ((c == b'&') ≡ false) × ((c == b'=') ≡ false)

to_hex-IsPlain : (c : ℕ) → IsPlain (to_hex c)
unfolding to_hex
to_hex-IsPlain c = ground arith

encode_char-IsPlain : (c : ℕ) → All IsPlain (encode_char c)
unfolding encode_char
encode_char-IsPlain c = elim (Bool-cases (unreserved c)) [
  | inl kept ↦ let plain : IsPlain c = unfold unreserved in ground arith in rw kept (plain, tt)
  | inr coded ↦ elim (Bool-cases (c == b' ')) [
    | inl blank ↦ rw (coded, blank) ((refl, refl), tt)
    | inr other ↦
        rw (coded, other) ((refl, refl), (to_hex-IsPlain (c / 16), (to_hex-IsPlain c, tt)))
  ]
]

pub url_encode-IsPlain : (s : Bytes) → All IsPlain (url_encode s)
unfolding url_encode
url_encode-IsPlain [] = tt
url_encode-IsPlain (c ∷ s) =
    All-append IsPlain (encode_char c) (url_encode s) (encode_char-IsPlain c) (url_encode-IsPlain s)

-- In a buffer that is as long as the text, the whole text is decoded.
decode_within_all : (n : ℕ) (s : Bytes) → length s ≤ n → (decode_within n s).1 ≡ url_decode s
unfolding decode_within url_decode
decode_within_all zero [] h = refl
decode_within_all zero (c ∷ s) h = absurd (omega arith)
decode_within_all (suc n) [] h = refl
decode_within_all (suc n) (c ∷ []) h = elim (Bool-cases (c == b'%')) [
  | inl percent ↦ rw percent (decode_within_all n [] (omega arith))
  | inr plain ↦ rw plain (ap (λ r. plain_char c ∷ r) (decode_within_all n [] (omega arith)))
]
decode_within_all (suc n) (c ∷ x ∷ []) h =
    let ih = decode_within_all n (x ∷ []) (omega arith) in
    elim (Bool-cases (c == b'%')) [
      | inl percent ↦ rw percent ih
      | inr plain ↦ rw plain (ap (λ r. plain_char c ∷ r) ih)
    ]
decode_within_all (suc n) (c ∷ x ∷ y ∷ rest) h = elim (Bool-cases (c == b'%')) [
  | inl percent ↦ rw percent (ap (λ r. hex_char x y ∷ r) (decode_within_all n rest (omega arith)))
  | inr plain ↦
      rw plain (ap (λ r. plain_char c ∷ r) (decode_within_all n (x ∷ y ∷ rest) (omega arith)))
]

-- Where the loop stops: at the limit, at a byte that stops it, or at the end.
abbrev pub Halts : (ℕ → Bool) → ℕ → ℕ → Bytes → Type 0
Halts stop limit p [] = Unit
Halts stop limit p (c ∷ cs) = (leb limit p ≡ true) ⊎ (stop c ≡ true)

pub until-part :
    (stop : ℕ → Bool) (limit i : ℕ) (t post : Bytes)
    → All (λ c. stop c ≡ false) t
    → i + length t ≤ limit
    → Halts stop limit (i + length t) post
    → until stop limit i (t ++ post) ≡ i + length t
unfolding until
until-part stop limit i [] [] h le halt = omega arith
until-part stop limit i [] (c ∷ post) h le (inl at) =
    let here : leb limit i ≡ true = ground arith in rw here (omega arith)
until-part stop limit i [] (c ∷ post) h le (inr stops) = elim (Bool-cases (leb limit i)) [
  | inl here ↦ rw here (omega arith)
  | inr before ↦ rw (before, stops) (omega arith)
]
until-part stop limit i (c ∷ t) post (go, h) le halt =
    let before : leb limit i ≡ false = ground arith in
    let at : i + length (c ∷ t) ≡ suc i + length t = omega arith in
    rw (before, go)
      (until-part stop limit (suc i) t post h (omega arith)
          (subst (λ p. Halts stop limit p post) at halt)
        ∙ sym at)

-- The arguments behind the first mark, and the version.
unfoldable pub more_args : Args → Bytes
more_args [] = codes " HTTP/1.1"
more_args ((k, v) ∷ args) = b'&' ∷ (url_encode k ++ b'=' ∷ (url_encode v ++ more_args args))

-- Bytes, each encoded text within the buffers.
abbrev pub IsArg : Bytes × Bytes → Type 0
IsArg (k, v) =
    All (λ c. c < 256) k
    × All (λ c. c < 256) v
    × (length (url_encode k) < 255)
    × (length (url_encode v) < 255)

pub more_args-ends : (args : Args) → 9 ≤ length (more_args args)
unfolding more_args
more_args-ends [] = omega arith
more_args-ends ((k, v) ∷ args) =
    let ih = more_args-ends args in
    omega (
      arith,
      length-append (url_encode k) (b'=' ∷ (url_encode v ++ more_args args)),
      length-append (url_encode v) (more_args args),
    )

pub decoded_part-encoded :
    (pre t post : Bytes) (e : ℕ)
    → All (λ c. c < 256) t
    → length (url_encode t) < 255
    → suc e ≡ length pre + length (url_encode t)
    → e < size_max
    → decoded_part (pre ++ (url_encode t ++ post)) (length pre) e ≡ t
unfolding decoded_part fitting url_decode_buff
decoded_part-encoded pre t post e bytes short at bound =
    let fits : leb 255 (length (url_encode t)) ≡ false = ground arith in
    let cut : (xsubstr 255 (pre ++ (url_encode t ++ post)) (length pre) e).1 ≡ url_encode t =
      xsubstr-part 255 pre (url_encode t) post e at bound ∙ rw fits refl in
    ap (λ z. (url_decode_buff 255 z).1) cut
    ∙ decode_within_all 254 (url_encode t) (omega arith)
    ∙ url_decode-url_encode t bytes
