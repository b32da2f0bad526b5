-- ===== src/Mail/Base64/RoundTrip.antt =====
-- What is encoded is decoded again.
use tvpvrd.Prelude.{◌<◌, All}
use tvpvrd.Prelude.Text.{Bytes}

abbrev IsBytes : Bytes → Type 0
IsBytes = All (λ c. c < 256)
