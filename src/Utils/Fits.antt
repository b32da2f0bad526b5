-- ===== src/Utils/Fits.antt =====
-- The buffers of `url_encode`, `html_encode` and `esc_percentsign`.
use tvpvrd.Prelude.{ℕ, ◌+◌, ◌*◌, ◌≤◌, arith, [], ◌∷◌, length, length-append}
use tvpvrd.Prelude.Text.{Bytes}
use tvpvrd.Utils.Url.{encode_char, url_encode}
use tvpvrd.Utils.Html.{html_char, html_encode, esc_percentsign}

encode_char_le : (c : ℕ) → length (encode_char c) ≤ 3
unfolding encode_char
encode_char_le c = ground arith

html_char_le : (c : ℕ) → length (html_char c) ≤ 6
unfolding html_char
html_char_le c = ground arith

esc_percentsign_le : (s : Bytes) → length (esc_percentsign s) ≤ length s * 2
unfolding esc_percentsign
esc_percentsign_le [] = omega arith
esc_percentsign_le (c ∷ cs) = ground (arith, esc_percentsign_le cs)

url_encode_le : (s : Bytes) → length (url_encode s) ≤ length s * 3
unfolding url_encode
url_encode_le [] = omega arith
url_encode_le (c ∷ cs) =
    omega (arith, length-append (encode_char c) (url_encode cs), encode_char_le c, url_encode_le cs)

html_encode_le : (s : Bytes) → length (html_encode s) ≤ length s * 6
unfolding html_encode
html_encode_le [] = omega arith
html_encode_le (c ∷ cs) =
    omega (arith, length-append (html_char c) (html_encode cs), html_char_le c, html_encode_le cs)

-- Whatever the string, the three results fit, with their final zeros, the buffers that are
-- allocated for them: three, six and three bytes for each byte, and one.
pub encoded_fits :
    (s : Bytes)
    → (length (url_encode s) + 1 ≤ length s * 3 + 1)
      × (length (html_encode s) + 1 ≤ length s * 6 + 1)
      × (length (esc_percentsign s) + 1 ≤ length s * 3 + 1)
encoded_fits s = (
  omega (arith, url_encode_le s),
  omega (arith, html_encode_le s),
  omega (arith, esc_percentsign_le s),
)
