-- ===== src/Mail/Quotprinted/Decoded.antt =====
-- A reader of encoded words, which knows nothing of the encoder, gets the text back.
use tvpvrd.Prelude.{
  ℕ, ◌+◌, ◌-◌, ◌*◌, ◌≤◌, ◌<◌, ◌≡◌, ◌≢◌, refl, ap, sym, ◌∙◌, ◌⊎◌, inl, inr, Bool, true, false, [],
  ◌∷◌, ◌++◌, ◌||◌, ltb, leb, ◌==◌, if◌then◌else◌, some, length, All, All-append, length-append,
  Bool-cases, arith,
}
use mathlib.Core.List.{append_assoc}
use tvpvrd.Prelude.Int.{pos}
use tvpvrd.Prelude.Text.{Bytes, codes}
use tvpvrd.Recs.State.{returns}
use tvpvrd.Utils.Url.{hex_char}
use tvpvrd.Utils.Url.RoundTrip.{hex-to_hex}
use tvpvrd.Mail.Quotprinted.{
  hex_code, must_code, Loop, prefix, write, round, encode_loop, finish_word, qprint_encode_word,
}

-- The text of an encoded word behind the prefix, up to the end mark.
unfoldable pub read_word : Bytes → Bytes
read_word [] = []
read_word (c ∷ []) = []
read_word (c ∷ x ∷ []) = []
read_word (c ∷ x ∷ y ∷ rest) =
    let coded = hex_char x y ∷ read_word rest in
    let plain = (if c == b'_' then 32 else c) ∷ read_word (x ∷ y ∷ rest) in
    if c == b'?' then [] else if c == b'=' then coded else plain

-- What the encoder takes: bytes up to 'z', none of them a line feed or carriage return, and bytes
-- above 127 with another byte behind each.
pub data Encodable : Bytes → Type 0 where
  finished : Encodable []
  single : (c : ℕ) (cs : Bytes) → c ≤ b'z' → c ≢ 10 → c ≢ 13 → Encodable cs → Encodable (c ∷ cs)
  double :
      (c d : ℕ) (cs : Bytes) → 127 < c → c < 256 → d < 256 → Encodable cs → Encodable (c ∷ d ∷ cs)

abbrev end_mark : Bytes
end_mark = codes "?="

-- What a loop with enough room leaves behind.
record Reads (inp : Bytes) (encoded : Bool) (n : ℕ) (r : Loop) : Type 0 where
  body : Bytes
  now_encoded : Bool
  left : ℕ
  result : r ≡ returns (some (body, now_encoded, left))
  room : n ≤ left + 3 * length inp
  enough : read_word (body ++ end_mark) ≡ inp
  kept : encoded ≡ true → now_encoded ≡ true
  unmarked : now_encoded ≡ false → All (λ c. c ≢ b'=') inp

read_word-plain :
    (c : ℕ) (body : Bytes)
    → c ≢ b'?'
    → c ≢ b'='
    → read_word (c ∷ (body ++ end_mark))
      ≡ (if c == b'_' then 32 else c) ∷ read_word (body ++ end_mark)
unfolding read_word
read_word-plain c [] q e = ground arith
read_word-plain c (x ∷ []) q e = ground arith
read_word-plain c (x ∷ y ∷ body) q e = ground arith

read_word-hex_code :
    (c : ℕ) (rest : Bytes) → c < 256 → read_word (hex_code c ++ rest) ≡ c ∷ read_word rest
unfolding read_word
read_word-hex_code c rest lt = ap (λ d. d ∷ read_word rest) (hex-to_hex c lt)

-- What is written for the text `t`, and is read as it.
Reads-write :
    (t out cs : Bytes) (encoded encoded' : Bool) (n k : ℕ) (r : Loop)
    → k ≤ 3 * length t
    → 9 + k ≤ n
    → ((body : Bytes) → read_word (out ++ (body ++ end_mark)) ≡ t ++ read_word (body ++ end_mark))
    → (encoded ≡ true → encoded' ≡ true)
    → ((encoded' ≡ true) ⊎ All (λ c. c ≢ b'=') t)
    → Reads cs encoded' (n - k) r
    → Reads (t ++ cs) encoded n (write n k out r)
Reads-write t out cs encoded encoded' n k r small room reads grows marked ih =
    let fits : ltb n (9 + k) ≡ false = ground arith in
    record {
      body = out ++ ih.body;
      now_encoded = ih.now_encoded;
      left = ih.left;
      result = rw (fits, ih.result) refl;
      room = omega (arith, ih.room, length-append t cs);
      enough =
          ap read_word (append_assoc out ih.body end_mark)
          ∙ reads ih.body
          ∙ ap (λ w. t ++ w) ih.enough;
      kept = λ e. ih.kept (grows e);
      unmarked = λ e. elim marked [
        | inl now ↦ absurd (differs (sym (ih.kept now) ∙ e))
        | inr plain ↦ All-append (λ c. c ≢ b'=') t cs plain (ih.unmarked e)
      ];
    }
  where
    differs : true ≡ false → ⊥
    differs e = cc

encode_loop-round :
    (c : ℕ) (cs : Bytes) (encoded : Bool) (n : ℕ)
    → (pair : Loop) × (encode_loop (c ∷ cs) encoded n
        ≡ round c n encoded
            (encode_loop cs encoded n)
            (write n 1 (b'_' ∷ []) (encode_loop cs true (n - 1)))
            (write n 3 (hex_code c) (encode_loop cs true (n - 3)))
            (write n 1 (c ∷ []) (encode_loop cs encoded (n - 1)))
            pair)
unfolding encode_loop
encode_loop-round c [] encoded n = (_, refl)
encode_loop-round c (d ∷ ds) encoded n = (_, refl)

encode_loop-double :
    (c d : ℕ) (cs : Bytes) (encoded : Bool) (n : ℕ)
    → 127 < c
    → c < 256
    → d < 256
    → 15 ≤ n
    → Reads cs true (n - 6) (encode_loop cs true (n - 6))
    → Reads (c ∷ d ∷ cs) encoded n (encode_loop (c ∷ d ∷ cs) encoded n)
unfolding encode_loop
encode_loop-double c d cs encoded n high lt_c lt_d room ih =
    let some_room : (n == 0) ≡ false = ground arith in
    let no_line : (c == 10 || c == 13) ≡ false = ground arith in
    let no_space : (c == 32) ≡ false = ground arith in
    let free : must_code c ≡ false = ground arith in
    let large : leb c b'z' ≡ false = ground arith in
    let above : ltb 127 c ≡ true = ground arith in
    let wide : ltb n 6 ≡ false = ground arith in
    rw (some_room, no_line, no_space, free, large, above, wide)
      (Reads-write (c ∷ d ∷ []) (hex_code c ++ hex_code d) cs encoded true n 6 _ (omega arith)
        (omega arith)
        (λ body.
          read_word-hex_code c (hex_code d ++ (body ++ end_mark)) lt_c
          ∙ ap (λ w. c ∷ w) (read_word-hex_code d (body ++ end_mark) lt_d))
        (λ e. refl) (inl refl) ih)

encode_loop-Reads :
    (inp : Bytes) (h : Encodable inp) (encoded : Bool) (n : ℕ)
    → 12 + 3 * length inp ≤ n
    → Reads inp encoded n (encode_loop inp encoded n)
encode_loop-Reads _ finished encoded n room =
    unfold encode_loop read_word in
    record {
      body = [];
      now_encoded = encoded;
      left = n;
      result = refl;
      room = omega arith;
      enough = refl;
      kept = λ e. e;
      unmarked = λ e. tt;
    }
encode_loop-Reads _ (single c cs below no_lf no_cr h) encoded n room =
    let (pair, step) = encode_loop-round c cs encoded n in
    let some_room : (n == 0) ≡ false = ground arith in
    let no_line : (c == 10 || c == 13) ≡ false = ground arith in
    elim (Bool-cases (c == 32)) [
      | inl blank ↦
          let is_space : c ≡ 32 = ground arith in
          rw (step, some_room, no_line, blank)
            (Reads-write (c ∷ []) (b'_' ∷ []) cs encoded true n 1 _ (omega arith) (omega arith)
              (λ body.
                read_word-plain b'_' body (ground arith) (ground arith)
                ∙ ap (λ d. d ∷ read_word (body ++ end_mark)) (sym is_space))
              (λ e. refl) (inl refl) (encode_loop-Reads cs h true (n - 1) (omega arith)))
      | inr other ↦ elim (Bool-cases (must_code c)) [
        | inl must ↦
            let wide : ltb n 3 ≡ false = ground arith in
            rw (step, some_room, no_line, other, must, wide)
              (Reads-write (c ∷ []) (hex_code c) cs encoded true n 3 _ (omega arith) (omega arith)
                (λ body. read_word-hex_code c (body ++ end_mark) (omega arith)) (λ e. refl)
                (inl refl) (encode_loop-Reads cs h true (n - 3) (omega arith)))
        | inr free ↦
            let small : leb c b'z' ≡ true = ground arith in
            let not_mark : c ≢ b'=' = ground arith in
            let not_query : c ≢ b'?' = ground arith in
            let kept_as : (if c == b'_' then 32 else c) ≡ c = ground arith in
            rw (step, some_room, no_line, other, free, small)
              (Reads-write (c ∷ []) (c ∷ []) cs encoded encoded n 1 _ (omega arith) (omega arith)
                (λ body.
                  read_word-plain c body not_query not_mark
                  ∙ ap (λ d. d ∷ read_word (body ++ end_mark)) kept_as)
                (λ e. e) (inr (not_mark, tt))
                (encode_loop-Reads cs h encoded (n - 1) (omega arith)))
      ]
    ]
encode_loop-Reads _ (double c d cs high lt_c lt_d h) encoded n room =
    encode_loop-double c d cs encoded n high lt_c lt_d (omega arith)
      (encode_loop-Reads cs h true (n - 6) (omega arith))

-- A text that can be encoded, in a buffer of at least 12 bytes and three for each of its bytes: the
-- answer is 0, and the output is the text itself, which then has no '=', or an encoded word that a
-- reader of such words reads as the text.
pub qprint_encode_word_reads :
    (inp : Bytes) (maxlen : ℕ)
    → Encodable inp
    → 12 + 3 * length inp ≤ maxlen
    → (out : Bytes) × (qprint_encode_word inp maxlen ≡ returns (pos 0, out))
      × (((out ≡ inp) × All (λ c. c ≢ b'=') inp)
          ⊎ ((w : Bytes) × (out ≡ prefix ++ w) × (read_word w ≡ inp)))
unfolding qprint_encode_word finish_word
qprint_encode_word_reads inp maxlen h room =
    let r = encode_loop-Reads inp h false maxlen room in
    let big : ltb maxlen 11 ≡ false = ground arith in
    let wide : ltb r.left 3 ≡ false = ground (arith, r.room) in
    let inside : ltb r.left 12 ≡ false = ground (arith, r.room) in
    let fits : leb maxlen (length inp) ≡ false = ground arith in
    elim (Bool-cases r.now_encoded) [
      | inl coded ↦ (
        prefix ++ (r.body ++ end_mark),
        rw (big, r.result, wide, inside, coded) refl,
        inr (r.body ++ end_mark, refl, r.enough),
      )
      | inr copied ↦
          (inp, rw (big, r.result, wide, inside, copied, fits) refl, inl (refl, r.unmarked copied))
    ]
