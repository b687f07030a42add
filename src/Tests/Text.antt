-- ===== src/Tests/Text.antt =====
-- The text functions of linux/src/client/rootherald_linux.c and the transfers of
-- linux/src/transport/http_curl.c on small inputs.
use sdk_native.Prelude.{
  ℕ, ◌+◌, ◌-◌, ◌^◌, ◌<◌, ◌≡◌, ◌≢◌, refl, List, [], ◌∷◌, ◌++◌, true, false, none, some, codes,
  length, replicate, arith, ltb, take, if◌then◌else◌, pos, minus_one,
}
use sdk_native.Memory.{Buffer, store, memcpy, overlay, text_at}
use sdk_native.Base64.{base64_encode, base64_decode, decoded_size}
use sdk_native.Base64.Encode.{encoding, length-encoding, base64_encode_lem}
use sdk_native.Base64.Decode.{decoding, size_of, base64_decode_lem}
use sdk_native.Base64.RoundTrip.{base64_decode-base64_encode}
use sdk_native.Json.{
  starts_with, escape_char, json_get, json_append_string, json_append_raw, quoted,
}
use sdk_native.Json.Value.{lookup, filled, json_get_lem}
use sdk_native.Json.Field.{built, escape, string_field, raw_field, field_text, field_head}
use sdk_native.Json.Overflow.{json_append_string-cases, json_append_raw-cases}
use sdk_native.Json.RoundTrip.{json_field_round_trip}
use sdk_native.Hex.{bytes_to_hex, hex_text, unhex, bytes_to_hex_lem}
use sdk_native.Pem.{der_to_pem, pem_text, der_to_pem_lem}
use sdk_native.Transport.{Curl, Method, Request, perform}
use sdk_native.Transport.Collect.{response, perform_lem}

abbrev light : List ℕ
light = codes "light w"

abbrev cells : ℕ → Buffer
cells n = replicate n 7

encode_light : base64_encode light (cells 14) 1 13 ≡ some (12, 7 ∷ codes "bGlnaHQgdw==" ++ 0 ∷ [])
unfolding base64_encode store memcpy
encode_light = refl

-- A single `=` has the decoded size 2^64 - 1, and nothing is written.
decode_lone_pad : base64_decode (codes "=") (cells 4) 4 ≡ some (2 ^ 64 - 1, cells 4)
unfolding base64_decode decoded_size
decode_lone_pad = refl

base64_encode_example : base64_encode light (cells 14) 1 13 ≡ (
    if ltb (length (encoding light)) 13
    then some (length (encoding light), overlay (cells 14) 1 (encoding light ++ 0 ∷ []))
    else some (length (encoding light) + 1, cells 14))
base64_encode_example = base64_encode_lem light (cells 14) 1 13 (omega arith) (omega arith)

light_ne : light ≢ []
light_ne e = cc

encoding_ne : codes "bGlnaHQgdw==" ≢ []
encoding_ne e = cc

base64_decode_example :
    base64_decode (codes "bGlnaHQgdw==") (cells 8) 8
    ≡ some (
      size_of (codes "bGlnaHQgdw=="),
      if ltb 8 (size_of (codes "bGlnaHQgdw=="))
          then cells 8
          else overlay
              (cells 8)
              0
              (take (size_of (codes "bGlnaHQgdw==")) (decoding (codes "bGlnaHQgdw=="))),
    )
base64_decode_example =
    base64_decode_lem (codes "bGlnaHQgdw==") (cells 8) 8 encoding_ne (omega arith) (omega arith)
      (omega arith)

base64_example :
    (base64_encode light (cells 14) 0 14
      ≡ some (length (encoding light), overlay (cells 14) 0 (encoding light ++ 0 ∷ [])))
    × (base64_decode (encoding light) (cells 8) 8 ≡ some (7, overlay (cells 8) 0 light))
base64_example =
    base64_decode-base64_encode light (cells 14) 14 (cells 8) 8 light_ne (omega arith) (omega arith)
      (omega (arith, length-encoding light)) (omega arith) (omega arith) (omega arith) (omega arith)

abbrev request : List ℕ
request = codes "{\"id\": \"a1\",\"n\":{\"x\":[1,2]},\"k\":true}"

json_get_example :
    json_get request (codes "n") (cells 6) 6
    ≡ some (length (lookup request (codes "n")), filled 6 (cells 6) (lookup request (codes "n")))
json_get_example = json_get_lem request (codes "n") (cells 6) 6 (omega arith) (omega arith)

json_append_string_example :
    json_append_string (cells 12) 12 3 (codes "k") (codes "a\"bcd") false ≡ (
      if ltb (3 + length (field_head false (codes "k"))) 12
      then some (
        overlay (cells 12) 3 (field_text 9 false (codes "k") (codes "a\"bcd") ++ 0 ∷ []),
        3 + length (field_text 9 false (codes "k") (codes "a\"bcd")),
      )
      else none)
json_append_string_example =
    json_append_string-cases (cells 12) 12 3 (codes "k") (codes "a\"bcd") false refl (omega arith)
      (omega arith)

json_append_raw_example : json_append_raw (cells 12) 12 3 (codes "k") (codes "false") false ≡ (
    if ltb (3 + length (raw_field false (codes "k") (codes "false"))) 12
    then some (
      overlay (cells 12) 3 (raw_field false (codes "k") (codes "false") ++ 0 ∷ []),
      3 + length (raw_field false (codes "k") (codes "false")),
    )
    else none)
json_append_raw_example =
    json_append_raw-cases (cells 12) 12 3 (codes "k") (codes "false") false refl (omega arith)
      (omega arith)

bytes_to_hex_example :
    (bytes_to_hex (0 ∷ 171 ∷ []) (cells 6)
      ≡ some (overlay (cells 6) 0 (hex_text (0 ∷ 171 ∷ []) ++ 0 ∷ [])))
    × (length (hex_text (0 ∷ 171 ∷ [])) ≡ 4)
    × (unhex (hex_text (0 ∷ 171 ∷ [])) ≡ 0 ∷ 171 ∷ [])
bytes_to_hex_example =
    bytes_to_hex_lem (0 ∷ 171 ∷ []) (cells 6) (omega arith, (omega arith, tt)) (omega arith)

der_to_pem_example : der_to_pem light (cells 80) 80 ≡ (
    if ltb (length (pem_text light)) 80
    then some (pos 0, overlay (cells 80) 0 (pem_text light ++ 0 ∷ []))
    else some (minus_one, cells 80))
der_to_pem_example = der_to_pem_lem light (cells 80) 80 (omega arith) (omega arith)

abbrev some_request : Request
some_request = record {
  url = codes "https://h/x";
  method = Method.get;
  headers = [];
  timeout = 30;
  connect_timeout = 10;
  follow_location = true;
  max_redirs = 3;
  ssl_verify_peer = true;
  ssl_verify_host = 2;
  user_agent = "u";
}

abbrev two_chunks : Curl
two_chunks r =
    some (record { chunks = codes "abc" ∷ codes "defg" ∷ []; is_ok = true; http_code = 200 })

perform_example :
    perform two_chunks some_request (cells 7) 6
    ≡ some (response (cells 7) 6 (two_chunks some_request))
perform_example = perform_lem two_chunks some_request (cells 7) 6 (omega arith) (omega arith)

field_fits : 1 + length (string_field true (codes "k") (codes "a\"b")) < 20
unfolding string_field field_head escape escape_char
field_fits = omega arith

key_unseen :
    starts_with
      (quoted (codes "k"))
      (codes "{" ++ quoted (codes "k") ++ b':' ∷ b'"' ∷ (escape (codes "a\"b") ++ b'"' ∷ []))
    ≡ false
unfolding starts_with escape escape_char
key_unseen = refl

json_field_round_trip_example :
    (json_append_string (built (cells 20) (codes "{")).0 20 1 (codes "k") (codes "a\"b") true
      ≡ some (built (cells 20) (codes "{" ++ string_field true (codes "k") (codes "a\"b"))))
    × (text_at (built (cells 20) (codes "{" ++ string_field true (codes "k") (codes "a\"b"))).0 0
        ≡ some (codes "{" ++ string_field true (codes "k") (codes "a\"b")))
    × (json_get (codes "{" ++ string_field true (codes "k") (codes "a\"b")) (codes "k") (cells 5) 5
        ≡ some (3, overlay (cells 5) 0 (codes "a\"b" ++ 0 ∷ [])))
json_field_round_trip_example =
    json_field_round_trip (cells 20) 20 (codes "{") (codes "k") (codes "a\"b") true (cells 5) 5
      (omega arith) (omega arith) field_fits (omega arith) (omega arith, tt) (omega arith, tt)
      (omega arith, (omega arith, (omega arith, tt))) (key_unseen, tt) (omega arith) (omega arith)
