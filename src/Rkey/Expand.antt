-- ===== src/Rkey/Expand.antt =====
-- What becomes of a template that is made of text and known keywords.
use tvpvrd.Prelude.{
  ℕ, zero, suc, ◌+◌, ◌*◌, ◌<◌, ◌≤◌, ◌≡◌, ◌≢◌, ◌↔◌, inl, inr, refl, ap, arith, Bool, true, false,
  List, [], ◌∷◌, ◌++◌, none, some, ltb, leb, ◌==◌, length, take, All, length-append, length-take-le,
  Bool-cases,
}
use tvpvrd.Prelude.Int.{pos}
use tvpvrd.Prelude.Text.{Bytes}
use tvpvrd.Recs.State.{returns, aborts}
use tvpvrd.Rkey.{
  Keypair, max_keypair_val_size, scan_name, find_key, value_at, keyword_at, replace_from,
  buffer_size, replace_keywords,
}

-- A byte of text, or a keyword with the value it stands for.
pub data Piece : Type 0 where
  text : ℕ → Piece
  field : Bytes → Bytes → Piece

-- The template as it is written, and as it is to be.
unfoldable pub written : List Piece → Bytes
written [] = []
written (text c ∷ ps) = c ∷ written ps
written (field name v ∷ ps) = b'[' ∷ name ++ b']' ∷ written ps

unfoldable pub expanded : List Piece → Bytes
expanded [] = []
expanded (text c ∷ ps) = c ∷ expanded ps
expanded (field name v ∷ ps) = take max_keypair_val_size v ++ expanded ps

unfoldable pub fields : List Piece → ℕ
fields [] = 0
fields (text c ∷ ps) = fields ps
fields (field name v ∷ ps) = suc (fields ps)

scan-name :
    (most : ℕ) (name rest : Bytes)
    → All (λ c. c ≢ b']') name
    → length name ≤ most
    → scan_name most (name ++ b']' ∷ rest) ≡ (name, b']' ∷ rest)
unfolding scan_name
scan-name zero [] rest h le = refl
scan-name zero (c ∷ name) rest h le = absurd (omega (arith, le))
scan-name (suc most) [] rest h le = refl
scan-name (suc most) (c ∷ name) rest h le =
    let other : (c == b']') ≡ false = (let ne = h.0 in ground arith) in
    rw other (rw (scan-name most name rest h.1 (omega (arith, le))) refl)

module _ (same : Bytes → Bytes → Bool) (keys : List Keypair) where
  -- Text has no opening bracket; a name has no closing one, is at most 254 bytes long, and is a
  -- keyword with the value.
  abbrev pub Known : Piece → Type 0
  Known (text c) = c ≢ b'['
  Known (field name v) =
      All (λ c. c ≢ b']') name × (length name ≤ 254) × (find_key same name keys ≡ some v)

  keyword-text : (c : ℕ) (s : Bytes) → c ≢ b'[' → keyword_at same keys (c ∷ s) ≡ none
  unfolding keyword_at
  keyword-text c s ne = let other : (c == b'[') ≡ false = ground arith in rw other refl

  keyword-field :
      (name v rest : Bytes)
      → Known (field name v)
      → keyword_at same keys (b'[' ∷ name ++ b']' ∷ rest) ≡ some (v, rest)
  unfolding keyword_at
  keyword-field name v rest h = rw (scan-name 254 name rest h.0 h.1) (rw (value_at, h.2) refl)

  replaced :
      (size fuel n : ℕ) (ps : List Piece)
      → All Known ps
      → length (written ps) ≤ fuel
      → n + length (written ps) ≤ size
      → replace_from same keys size fuel n (written ps) ≡ expanded ps
  unfolding replace_from written expanded
  replaced size zero n [] h f le = refl
  replaced size (suc fuel) n [] h f le = refl
  replaced size zero n (text c ∷ ps) h f le = absurd (omega (arith, f))
  replaced size (suc fuel) n (text c ∷ ps) h f le =
      let more : ltb n size ≡ true = ground arith in
      rw (replace_from, more, keyword-text c (written ps) h.0)
        (ap (λ s. c ∷ s) (replaced size fuel (n + 1) ps h.1 (omega (arith, f)) (omega (arith, le))))
  replaced size zero n (field name v ∷ ps) h f le = absurd (omega (arith, f))
  replaced size (suc fuel) n (field name v ∷ ps) h f le =
      let l = length-append name (b']' ∷ written ps) in
      let more : ltb n size ≡ true = ground arith in
      rw (replace_from, more, keyword-field name v (written ps) h.0)
        (ap (λ s. take max_keypair_val_size v ++ s)
          (replaced size fuel n ps h.1 (omega (arith, f, l)) (omega (arith, le, l))))

-- Each keyword is at most as long as a value may be.
length-expanded : (ps : List Piece) → length (expanded ps) ≤ length (written ps) + fields ps * 1024
unfolding expanded written fields
length-expanded [] = omega arith
length-expanded (text c ∷ ps) = omega (arith, length-expanded ps)
length-expanded (field name v ∷ ps) = omega (
  arith,
  length-expanded ps,
  length-append name (b']' ∷ written ps),
  length-append (take 1024 v) (expanded ps),
  length-take-le 1024 v,
)

-- A keyword takes two bytes at least for its brackets.
shorter :
    (ps : List Piece)
    → 0 < fields ps
    → length (expanded ps) < length (written ps) + fields ps * 1024
unfolding expanded written fields
shorter [] h = absurd (omega (arith, h))
shorter (text c ∷ ps) h = omega (arith, shorter ps h)
shorter (field name v ∷ ps) h = omega (
  arith,
  length-expanded ps,
  length-append name (b']' ∷ written ps),
  length-append (take 1024 v) (expanded ps),
  length-take-le 1024 v,
)

module _ (same : Bytes → Bytes → Bool) (keys : List Keypair) (ps : List Piece) where
  out :
      (size : ℕ)
      → All (Known same keys) ps
      → length (written ps) ≤ size
      → replace_from same keys size (length (written ps)) 0 (written ps) ≡ expanded ps
  out size h le =
      replaced same keys size (length (written ps)) 0 ps h (omega arith) (omega (arith, le))

  room :
      0 < length keys
      → fields ps ≤ length keys
      → length (expanded ps) < length (written ps) + 1024 * length keys
  room some_key few = elim (Bool-cases (ltb 0 (fields ps))) [
    | inl any ↦ omega (arith, shorter ps (ground arith), few)
    | inr none_at_all ↦
        let zero_fields : fields ps ≡ 0 = ground arith in
        omega (arith, length-expanded ps, zero_fields, some_key)
  ]

  -- Let a template be made of text without an opening bracket and of keywords in brackets, of which
  -- it has at most as many as there are in the list, which is not empty. Then the whole template is
  -- replaced, each keyword by the first 1024 bytes of its value, so that a longer value is cut, and the
  -- rest as it is, within the working buffer, if the caller's buffer is large enough.
  pub replace_keywords_expands :
      (maxlen : ℕ)
      → All (Known same keys) ps
      → 0 < length keys
      → fields ps ≤ length keys
      → length (expanded ps) < maxlen
      → replace_keywords same keys maxlen (written ps) ≡ returns (pos 0, expanded ps)
  unfolding replace_keywords
  replace_keywords_expands maxlen h some_key few large =
      let fits = room some_key few in
      let whole = out (buffer_size same keys (written ps)) h (omega arith) in
      let inside : leb (buffer_size same keys (written ps)) (length (expanded ps)) ≡ false =
        ground arith in
      let answer : ltb (length (expanded ps)) maxlen ≡ true = ground arith in
      rw whole (rw inside (rw answer refl))

  -- A template that is made of text without an opening bracket and of keywords in brackets makes the
  -- code write or read behind its working buffer exactly when the result is at least as long as the
  -- template and 1024 bytes for each keyword of the list together.
  pub replace_keywords_overflows :
      (maxlen : ℕ)
      → All (Known same keys) ps
      → (replace_keywords same keys maxlen (written ps) ≡ aborts)
        ↔ (length (written ps) + 1024 * length keys ≤ length (expanded ps))
  unfolding replace_keywords
  replace_keywords_overflows maxlen h =
      let whole = out (buffer_size same keys (written ps)) h (omega arith) in
      elim (Bool-cases (leb (buffer_size same keys (written ps)) (length (expanded ps)))) [
        | inl over ↦ rw whole (rw over ((λ e. ground arith), λ le. refl))
        | inr inside ↦ elim (Bool-cases (ltb (length (expanded ps)) maxlen)) [
          | inl large ↦ rw whole (rw inside (rw large ((λ e. cc e), λ le. absurd (ground arith))))
          | inr small ↦ rw whole (rw inside (rw small ((λ e. cc e), λ le. absurd (ground arith))))
        ]
      ]
