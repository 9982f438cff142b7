-- ===== src/Platform/ColumnExamples.antt =====
-- Columns on concrete input, and the theorems at them.
use kota.Base.{ℕ, ◌≡◌, refl, List, [], ◌∷◌, ok, err}
use kota.Primitives.{active}
use kota.Session.Types.{collecting}
use kota.Platform.Columns.{
  StringCodec, not_parsed, encode_wallet_status, decode_wallet_status, encode_session_status,
  decode_session_status, encode_fingerprint, decode_fingerprint, wallet_status_text,
  parse_wallet_status, columns-roundtrip,
}

-- A column that is the text itself.
abbrev plain : StringCodec (List ℕ)
plain = record { encode = λ s. s; decode = λ s. ok s; decode-encode = λ s. refl }

-- The bytes from 100 on.
abbrev bytes : List ℕ
bytes =
    100 ∷ 101 ∷ 102 ∷ 103 ∷ 104 ∷ 105 ∷ 106 ∷ 107 ∷ 108 ∷ 109 ∷ 110 ∷ 111 ∷ 112 ∷ 113 ∷ 114 ∷ 115
    ∷ 116 ∷ 117 ∷ 118 ∷ 119 ∷ 120 ∷ 121 ∷ 122 ∷ 123 ∷ 124 ∷ 125 ∷ 126 ∷ 127 ∷ 128 ∷ 129 ∷ 130 ∷ 0
    ∷ []

unknown_refused : decode_wallet_status plain (b'o' ∷ b'n' ∷ []) ≡ err not_parsed
unfolding decode_wallet_status parse_wallet_status wallet_status_text
unknown_refused = refl

columns-roundtrip_example :
    (decode_wallet_status plain (encode_wallet_status plain active) ≡ ok active)
    × (decode_session_status plain (encode_session_status plain collecting) ≡ ok collecting)
    × (decode_fingerprint plain (encode_fingerprint plain bytes) ≡ ok bytes)
columns-roundtrip_example = columns-roundtrip plain active collecting bytes refl refl
