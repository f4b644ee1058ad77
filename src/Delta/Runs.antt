-- ===== src/Delta/Runs.antt =====
-- cmd/seekfs/trigram_index.go: the codec at concrete ids.
use seekfs.Common.{◌≡◌, [], ◌∷◌, arith}
use seekfs.Delta.Defs.{encode_delta_uvarint32, decode_delta_uvarint32}
use seekfs.Delta.Laws.{decode-encode}

decode-encode_example :
    decode_delta_uvarint32 (encode_delta_uvarint32 (7 ∷ 300 ∷ 4 ∷ [])) ≡ (7 ∷ 300 ∷ 4 ∷ [])
decode-encode_example =
    decode-encode (7 ∷ 300 ∷ 4 ∷ []) (omega arith, (omega arith, (omega arith, tt)))
