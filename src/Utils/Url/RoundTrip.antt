-- ===== src/Utils/Url/RoundTrip.antt =====
-- Decoding undoes encoding.
use tvpvrd.Prelude.{
  ℕ, zero, suc, ◌+◌, ◌/◌, ◌≤◌, ◌<◌, ◌≡◌, refl, ◌∙◌, ap, sym, ◌⊎◌, inl, inr, arith, true, false, [],
  ◌∷◌, ◌++◌, ◌==◌, ==_iff, length, All, Bool-cases, check_below, check_below-holds,
}
use tvpvrd.Prelude.Int.{ℤ, pos, negsuc}
use tvpvrd.Prelude.Text.{Bytes}
use tvpvrd.Freqmap.Rows.{tolower}
use tvpvrd.Utils.Url.{
  from_hex, to_hex, unreserved, encode_char, url_encode, hex_char, plain_char, url_decode,
  write_char, decode_within, url_decode_buff,
}

hex_table : check_below 256 (λ c. hex_char (to_hex (c / 16)) (to_hex c) == c) ≡ true
unfolding check_below hex_char from_hex to_hex tolower
hex_table = refl

pub hex-to_hex : (c : ℕ) → c < 256 → hex_char (to_hex (c / 16)) (to_hex c) ≡ c
hex-to_hex c lt =
    (==_iff _ c).0
      (check_below-holds 256 (λ c. hex_char (to_hex (c / 16)) (to_hex c) == c) c hex_table lt)

decode-plain :
    (c : ℕ) (rest : Bytes)
    → (c == b'%') ≡ false
    → url_decode (c ∷ rest) ≡ plain_char c ∷ url_decode rest
unfolding url_decode
decode-plain c [] h = rw h refl
decode-plain c (x ∷ []) h = rw h refl
decode-plain c (x ∷ y ∷ rest) h = rw h refl

decode-encode_char :
    (c : ℕ) (rest : Bytes) → c < 256 → url_decode (encode_char c ++ rest) ≡ c ∷ url_decode rest
unfolding encode_char
decode-encode_char c rest lt = elim (Bool-cases (unreserved c)) [
  | inl kept ↦
      let no_percent : (c == b'%') ≡ false = (unfold unreserved in ground arith) in
      let no_plus : plain_char c ≡ c = (unfold unreserved plain_char in ground arith) in
      rw (kept, decode-plain c rest no_percent, no_plus) refl
  | inr coded ↦ elim (Bool-cases (c == b' ')) [
    | inl blank ↦
        let space : plain_char b'+' ≡ c = (unfold plain_char in ground arith) in
        rw (coded, blank) (decode-plain b'+' rest refl ∙ ap (λ d. d ∷ url_decode rest) space)
    | inr other ↦ rw (coded, other) (unfold url_decode in rw (hex-to_hex c lt) refl)
  ]
]

-- Every string of bytes comes back.
pub url_decode-url_encode : (s : Bytes) → All (λ c. c < 256) s → url_decode (url_encode s) ≡ s
unfolding url_encode
url_decode-url_encode [] h = unfold url_decode in refl
url_decode-url_encode (c ∷ cs) h =
    decode-encode_char c (url_encode cs) h.0 ∙ ap (λ t. c ∷ t) (url_decode-url_encode cs h.1)

abbrev Decoded : Bytes → ℤ × Bytes → Type 0
Decoded t r = (r.0 ≡ negsuc 0) ⊎ ((r.0 ≡ pos 0) × (r.1 ≡ t))

abbrev Within : ℕ → Bytes → ℤ × Bytes → Type 0
Within n s r = (length r.1 ≤ n) × Decoded (url_decode s) r

Within-keep :
    (n c : ℕ) (s : Bytes) (r : ℤ × Bytes) (t : Bytes)
    → t ≡ url_decode s
    → Within n s r
    → (length (write_char c r).1 ≤ suc n) × Decoded (c ∷ t) (write_char c r)
Within-keep n c s r t e h = (
  omega (arith, h.0),
  elim h.1 [
    | inl short ↦ inl short
    | inr (done, same) ↦ inr (done, ap (λ x. c ∷ x) (same ∙ sym e))
  ],
)

decode_within-Within : (n : ℕ) (s : Bytes) → Within n s (decode_within n s)
unfolding decode_within url_decode
decode_within-Within zero [] = (omega arith, inr (refl, refl))
decode_within-Within zero (c ∷ cs) = (omega arith, inl refl)
decode_within-Within (suc n) [] = (omega arith, inr (refl, refl))
decode_within-Within (suc n) (c ∷ []) =
    let ih = decode_within-Within n [] in
    elim (Bool-cases (c == b'%')) [
      | inl percent ↦ rw percent (omega (arith, ih.0), ih.1)
      | inr plain ↦ rw plain (Within-keep n (plain_char c) [] _ _ refl ih)
    ]
decode_within-Within (suc n) (c ∷ x ∷ []) =
    let ih = decode_within-Within n (x ∷ []) in
    elim (Bool-cases (c == b'%')) [
      | inl percent ↦ rw percent (omega (arith, ih.0), ih.1)
      | inr plain ↦ rw plain (Within-keep n (plain_char c) (x ∷ []) _ _ refl ih)
    ]
decode_within-Within (suc n) (c ∷ x ∷ y ∷ rest) = elim (Bool-cases (c == b'%')) [
  | inl percent ↦
      rw percent (Within-keep n (hex_char x y) rest _ _ refl (decode_within-Within n rest))
  | inr plain ↦
      rw plain (
        Within-keep n (plain_char c) (x ∷ y ∷ rest) _ _ refl
          (decode_within-Within n (x ∷ y ∷ rest)))
]

-- With a buffer of at least one byte, the text with its final zero fits, whatever the string; and
-- either the answer is -1, or it is 0 and the text is the decoded string.
pub url_decode_buff-fits :
    (n : ℕ) (s : Bytes)
    → (length (url_decode_buff (suc n) s).1 + 1 ≤ suc n)
      × (((url_decode_buff (suc n) s).0 ≡ negsuc 0)
          ⊎ (((url_decode_buff (suc n) s).0 ≡ pos 0)
              × ((url_decode_buff (suc n) s).1 ≡ url_decode s)))
unfolding url_decode_buff
url_decode_buff-fits n s = let h = decode_within-Within n s in (omega (arith, h.0), h.1)
