-- ===== src/Tests/CoretypesTests.antt =====
-- The theorems on zcm/zcm_coretypes.h at small buffers.
use zcm.Prelude.{ℕ, ◌*◌, ◌^◌, ◌≤◌, ◌<◌, ◌≡◌, ◌⊎◌, refl, arith, true, List, [], ◌∷◌, ◌++◌, length}
use zcm.Coretypes.{Result, refused, done}
use zcm.Coretypes.Numbers.{int16, int32, big, little, encode_of, decode_of, int16_t_encode_array}
use zcm.Coretypes.RoundTrip.{decode_of-encode_of}
use zcm.Coretypes.Bounds.{is_fault, decode_of_safe, decode_of_overruns}
use zcm.Coretypes.Text.RoundTrip.{
  texts, put_of, strings_encode_of, strings_decode_of, strings_decode_of-encode_of,
}

encode_test :
    int16_t_encode_array (9 ∷ 0 ∷ 0 ∷ 0 ∷ 0 ∷ 9 ∷ []) 1 4 (0x1234 ∷ 0xfffe ∷ [])
    ≡ done 4 (9 ∷ 0x12 ∷ 0x34 ∷ 0xff ∷ 0xfe ∷ 9 ∷ [])
unfolding int16_t_encode_array zcm.Coretypes.encode_with zcm.Coretypes.encode_loop
    zcm.Coretypes.write_wrapping
encode_test = refl

decode_of-encode_of_example :
    (bytes : List ℕ) × (length bytes ≡ 4)
    × (encode_of int16 little (7 ∷ 0 ∷ 0 ∷ 0 ∷ 0 ∷ 8 ∷ []) 1 5 (0x1234 ∷ 0xfffe ∷ [])
        ≡ done 4 (7 ∷ (bytes ++ (8 ∷ []))))
    × (decode_of int16 little (7 ∷ (bytes ++ (8 ∷ []))) 1 5 2 ≡ done 4 (0x1234 ∷ 0xfffe ∷ []))
decode_of-encode_of_example =
    decode_of-encode_of int16 little (0x1234 ∷ 0xfffe ∷ []) (7 ∷ []) (0 ∷ 0 ∷ 0 ∷ 0 ∷ []) (8 ∷ []) 5
      (omega arith) (omega arith) (omega arith) (omega arith) (omega arith)

decode_of_safe_example :
    let result = decode_of int32 big (1 ∷ 2 ∷ 3 ∷ 4 ∷ 5 ∷ []) 1 4 1 in
    ((4 < 4 * 1) × (result ≡ refused))
    ⊎ ((4 * 1 ≤ 4) × (vs : List ℕ) × (result ≡ done (4 * 1) vs) × (length vs ≡ 1))
decode_of_safe_example =
    decode_of_safe int32 big (1 ∷ 2 ∷ 3 ∷ 4 ∷ 5 ∷ []) 1 4 1 (omega arith) (omega arith)
      (omega arith)

-- A variable array of 2 ^ 30 elements in a datagram of 5 bytes.
decode_of_overruns_example :
    is_fault (decode_of int32 big (1 ∷ 2 ∷ 3 ∷ 4 ∷ 5 ∷ []) 4 1 (2 ^ 30)) ≡ true
decode_of_overruns_example =
    decode_of_overruns int32 big (1 ∷ 2 ∷ 3 ∷ 4 ∷ 5 ∷ []) 4 1 (2 ^ 30) (omega arith) (omega arith)
      (omega arith) (omega arith)

strings_decode_of-encode_of_example :
    let bytes = texts (put_of big) ((104 ∷ 105 ∷ []) ∷ []) in
    (strings_encode_of big (9 ∷ 0 ∷ 0 ∷ 0 ∷ 0 ∷ 0 ∷ 0 ∷ 0 ∷ []) 1 7 ((104 ∷ 105 ∷ []) ∷ [])
      ≡ done 7 (9 ∷ (bytes ++ [])))
    × (strings_decode_of big (9 ∷ (bytes ++ [])) 1 7 1 ≡ done 7 ((104 ∷ 105 ∷ 0 ∷ []) ∷ []))
strings_decode_of-encode_of_example =
    strings_decode_of-encode_of big ((104 ∷ 105 ∷ []) ∷ []) (9 ∷ [])
      (0 ∷ 0 ∷ 0 ∷ 0 ∷ 0 ∷ 0 ∷ 0 ∷ []) [] 7 (omega arith) (omega arith) (omega arith) (omega arith)
