-- ===== src/Tests/Encodings.antt =====
-- The encodings of the mail library and of utils.c, on short strings.
use tvpvrd.Prelude.{
  ◌⊎◌, ℕ, ◌<◌, ◌+◌, ◌≡◌, ◌≢◌, refl, arith, All, List, [], ◌∷◌, ◌++◌, length, replicate, some,
}
use tvpvrd.Mail.Quotprinted.{prefix, encode_loop, finish_word, qprint_encode_word}
use tvpvrd.Mail.Quotprinted.Decoded.{
  read_word, Encodable, single, double, finished, qprint_encode_word_reads,
}
use tvpvrd.Prelude.Int.{pos}
use tvpvrd.Prelude.Text.{Bytes, codes}
use tvpvrd.Recs.State.{returns, aborts}
use tvpvrd.Utils.Url.{to_hex}
use tvpvrd.Rkey.{Keypair, find_key, replace_keywords}
use tvpvrd.Rkey.Expand.{
  Piece, text, field, written, expanded, fields, Known, replace_keywords_expands,
}
use tvpvrd.Wakelan.{repeat, wakeup_packet}
use tvpvrd.Wakelan.Parse.{mac_text, wakeup_packet-mac_text}
use tvpvrd.History.{Histrec}
use tvpvrd.Freqmap.Rows.{xstricmp_equal}

-- A list of one keyword, and a template that has it once.
abbrev titles : List Keypair
titles = record { key = codes "TITLE"; val = codes "News" } ∷ []

abbrev template : List Piece
template = text b'"' ∷ field (codes "TITLE") (codes "News") ∷ text b'"' ∷ []

title-Known : Known xstricmp_equal titles (field (codes "TITLE") (codes "News"))
unfolding find_key xstricmp_equal
title-Known = (
  (
    other (omega arith),
    (other (omega arith), (other (omega arith), (other (omega arith), (other (omega arith), tt)))),
  ),
  omega arith,
  refl,
)
  where
    other : {c : ℕ} → c < 93 → c ≢ 93
    other lt e = absurd (omega (arith, lt, e))

template-Known : All (Known xstricmp_equal titles) template
template-Known =
    ((λ e. absurd (omega (arith, e))), (title-Known, ((λ e. absurd (omega (arith, e))), tt)))

replace_keywords_expands_example :
    replace_keywords xstricmp_equal titles 100 (written template)
    ≡ returns (pos 0, expanded template)
unfolding find_key written expanded fields
replace_keywords_expands_example =
    replace_keywords_expands xstricmp_equal titles template 100 (template-Known) (omega arith)
      (omega arith) (omega arith)

wakeup_packet-mac_text_example :
    (wakeup_packet (codes "00:1A:2B:3C:4D:FF")
      ≡ some (replicate 6 255 ++ repeat 16 (0 ∷ 26 ∷ 43 ∷ 60 ∷ 77 ∷ 255 ∷ [])))
    × (length (replicate 6 255 ++ repeat 16 (0 ∷ 26 ∷ 43 ∷ 60 ∷ 77 ∷ 255 ∷ [])) ≡ 102)
unfolding mac_text to_hex
wakeup_packet-mac_text_example =
    wakeup_packet-mac_text 0 (26 ∷ 43 ∷ 60 ∷ 77 ∷ 255 ∷ [])
      (omega arith, (omega arith, (omega arith, (omega arith, (omega arith, (omega arith, tt))))))
      refl

abbrev seen : ℕ → Histrec
seen start = record {
  title = codes "News";
  ts_start = pos start;
  ts_end = pos (start + 3600);
  filepath = codes "news.mp4";
  profile = codes "normal";
}

abbrev subject : Bytes
subject = b'a' ∷ 195 ∷ 164 ∷ b'=' ∷ []

subject-Encodable : Encodable subject
subject-Encodable = single b'a' _ (omega arith) (omega arith) (omega arith) (
    double 195 164 _ (omega arith) (omega arith) (omega arith)
      (single b'=' _ (omega arith) (omega arith) (omega arith) finished))

qprint_encode_word_reads_example :
    (out : Bytes) × (qprint_encode_word subject 24 ≡ returns (pos 0, out))
    × (((out ≡ subject) × All (λ c. c ≢ b'=') subject)
        ⊎ ((w : Bytes) × (out ≡ prefix ++ w) × (read_word w ≡ subject)))
qprint_encode_word_reads_example =
    qprint_encode_word_reads subject 24 subject-Encodable (omega arith)

-- The prefix is not counted: an encoded text of seven bytes is written behind a buffer of thirteen.
word_overflow : qprint_encode_word (codes "a bcdef") 13 ≡ aborts
unfolding qprint_encode_word finish_word encode_loop
word_overflow = refl

-- Line feeds are kept where nothing is encoded.
line_feed_kept : qprint_encode_word (codes "a\nb") 40 ≡ returns (pos 0, codes "a\nb")
unfolding qprint_encode_word finish_word encode_loop
line_feed_kept = refl
