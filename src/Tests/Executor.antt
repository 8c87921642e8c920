-- ===== src/Tests/Executor.antt =====
-- Encoding a text with a reserved byte and a byte above ASCII.
use scrape_kdl.Common.Text.{Bytes}
use scrape_kdl.Common.{◌+◌, ◌*◌, [], ◌∷◌, length, all, true, some, ◌≡◌, refl}
use scrape_kdl.Executor.Encoding.{
  percent_decode, decode-percent_encode, is_safe, reserved_count, percent_encode-safe,
}
use scrape_kdl.Executor.Template.{percent_encode}

-- The bytes of `a/é`.
abbrev sample : Bytes
sample = b'a' ∷ b'/' ∷ 0xC3 ∷ 0xA9 ∷ []

decode-percent_encode_example : percent_decode (percent_encode sample) ≡ some sample
decode-percent_encode_example = decode-percent_encode sample refl

percent_encode-safe_example :
    (all is_safe (percent_encode sample) ≡ true)
    × (length (percent_encode sample) ≡ length sample + 2 * reserved_count sample)
percent_encode-safe_example = percent_encode-safe sample refl
