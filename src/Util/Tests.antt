-- ===== src/Util/Tests.antt =====
-- Concrete runs of the theorems on numbers and URLs.
use napi.Prelude.{◌≡◌, refl, ◌==◌, [], ◌∷◌, ◌++◌, arith}
use napi.Util.{strip_file_url, file_scheme, localhost}
use napi.Util.Urls.{percent_encode, strip_file_url-encode}

strip_file_url-encode_example :
    (strip_file_url (file_scheme ++ percent_encode (λ c. c == b'/') (b'/' ∷ 0x20 ∷ []))
      ≡ b'/' ∷ 0x20 ∷ [])
    × (strip_file_url
          (file_scheme ++ localhost ++ percent_encode (λ c. c == b'/') (b'/' ∷ 0x20 ∷ []))
        ≡ b'/' ∷ 0x20 ∷ [])
strip_file_url-encode_example =
    strip_file_url-encode (λ c. c == b'/') (0x20 ∷ []) refl refl (omega arith, tt)
