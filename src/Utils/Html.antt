-- ===== src/Utils/Html.antt =====
-- `html_encode` and `esc_percentsign`.
use tvpvrd.Prelude.{
  ℕ, zero, suc, ◌≡◌, refl, ◌∙◌, ap, sym, inl, inr, ==_iff, Bool-cases, false, [], ◌∷◌, ◌++◌, ◌==◌,
  if◌then◌else◌, ◌+◌,
}
use tvpvrd.Prelude.Text.{Bytes, codes}

-- What the `switch` writes.
unfoldable pub html_char : ℕ → Bytes
html_char c =
    if c == b'<'
    then codes "&lt;"
    else if c == b'>'
    then codes "&gt;"
    else if c == b'&'
    then codes "&amp;"
    else if c == b'"'
    then codes "&quot;"
    else c ∷ []

unfoldable pub html_encode : Bytes → Bytes
html_encode [] = []
html_encode (c ∷ cs) = html_char c ++ html_encode cs

unfoldable pub esc_percentsign : Bytes → Bytes
esc_percentsign [] = []
esc_percentsign (c ∷ cs) =
    if c == b'%' then b'%' ∷ b'%' ∷ esc_percentsign cs else c ∷ esc_percentsign cs

-- The character of a named entity and the bytes behind its first letter, by that letter.
abbrev entity : ℕ → ℕ × ℕ
entity c =
    if c == b'l'
    then (b'<', 2)
    else if c == b'g'
    then (b'>', 2)
    else if c == b'a'
    then (b'&', 3)
    else (b'"', 4)

-- What a browser shows of a text whose entities are those four; the number counts bytes to skip.
unfoldable pub shown_after : ℕ → Bytes → Bytes
shown_after skip [] = []
shown_after (suc skip) (c ∷ cs) = shown_after skip cs
shown_after zero (c ∷ []) = c ∷ []
shown_after zero (c ∷ d ∷ cs) =
    let named = (entity d).0 ∷ shown_after ((entity d).1 + 1) (d ∷ cs) in
    let plain = c ∷ shown_after zero (d ∷ cs) in if c == b'&' then named else plain

abbrev pub shown : Bytes → Bytes
shown s = shown_after 0 s

shown-plain : (c : ℕ) (cs : Bytes) → (c == b'&') ≡ false → shown (c ∷ cs) ≡ c ∷ shown cs
unfolding shown_after
shown-plain c [] h = refl
shown-plain c (d ∷ cs) h = rw h refl

shown-html_char : (c : ℕ) (cs : Bytes) → shown (html_char c ++ cs) ≡ c ∷ shown cs
unfolding html_char
shown-html_char c cs = elim (Bool-cases (c == b'<')) [
  | inl less ↦ rw less (unfold shown_after in ap (λ d. d ∷ shown cs) (sym ((==_iff c b'<').0 less)))
  | inr l ↦ elim (Bool-cases (c == b'>')) [
    | inl more ↦
        rw (l, more) (unfold shown_after in ap (λ d. d ∷ shown cs) (sym ((==_iff c b'>').0 more)))
    | inr g ↦ elim (Bool-cases (c == b'&')) [
      | inl amp ↦
          rw (l, g, amp)
            (unfold shown_after in ap (λ d. d ∷ shown cs) (sym ((==_iff c b'&').0 amp)))
      | inr a ↦ elim (Bool-cases (c == b'"')) [
        | inl quote ↦
            rw (l, g, a, quote)
              (unfold shown_after in ap (λ d. d ∷ shown cs) (sym ((==_iff c b'"').0 quote)))
        | inr q ↦ rw (l, g, a, q) (shown-plain c cs a)
      ]
    ]
  ]
]

-- A page that contains the encoded text shows the text, whatever its bytes.
pub shown-html_encode : (s : Bytes) → shown (html_encode s) ≡ s
unfolding html_encode
shown-html_encode [] = unfold shown_after in refl
shown-html_encode (c ∷ cs) =
    shown-html_char c (html_encode cs) ∙ ap (λ t. c ∷ t) (shown-html_encode cs)
