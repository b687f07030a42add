-- ===== src/Driver/Parts.antt =====
-- What RootHeraldEnroll and RootHeraldAttest of linux/src/client/rootherald_linux.c share: arrays on
-- the stack, encodings of what the TPM gave, requests and fields of the answer.
use sdk_native.Prelude.{
  ℕ, List, [], ◌∷◌, ◌++◌, Bool, true, false, Option, none, some, codes, length, take, leb, ◌==◌,
  if◌then◌else◌, ◌>>=◌, ℤ, pos, negsuc, String,
}
use sdk_native.Memory.{Buffer, text_at, snprintf}
use sdk_native.Base64.{base64_encode}
use sdk_native.Json.{json_get, json_append_string}
use sdk_native.Host.{uninit, begin_object, end_object}
use sdk_native.Transport.{Curl, http_post_json}
use sdk_native.Tpm.{Output}

-- `rc == n` for an int.
abbrev pub is_code : ℕ → ℤ → Bool
is_code n (pos m) = m == n
is_code n (negsuc m) = false

-- The bytes that a call left in its array: `none` is a length beyond it.
abbrev pub output_bytes : Output → Option (List ℕ)
output_bytes output = elim output.buf [
  | none ↦ none
  | some buf ↦ if leb output.len (length buf) then some (take output.len buf) else none
]

module _ (garbage : ℕ → ℕ) where
  -- `char out[n]; base64_encode(bytes, ..., out, n);` and the text in `out`.
  unfoldable pub encoded : List ℕ → ℕ → Option (List ℕ)
  encoded bytes n = do (len, buf) ← base64_encode bytes (uninit garbage n) 0 n; text_at buf 0

  -- `char dst[n]; json_get(response, key, dst, n);` and the text in `dst`.
  unfoldable pub field_of : List ℕ → String → ℕ → Option (List ℕ)
  field_of response key n = do
    (len, dst) ← json_get response (codes key) (uninit garbage n) n
    text_at dst 0

  -- An object of texts in an array of `n` cells.
  unfoldable pub object_fields :
      ℕ → List (List ℕ × List ℕ) → Bool → Buffer × ℕ → Option (Buffer × ℕ)
  object_fields n [] is_first built = some built
  object_fields n ((key, value) ∷ fields) is_first built = do
    built' ← json_append_string built.0 n built.1 key value is_first
    object_fields n fields false built'

  unfoldable pub object_of : ℕ → List (List ℕ × List ℕ) → Option (List ℕ)
  object_of n fields = do
    start ← begin_object (uninit garbage n)
    (buf, off) ← object_fields n fields true start
    (buf', off') ← end_object buf n off
    text_at buf' 0

  -- `snprintf(url, sizeof(url), "%s<path>", server_url)` and the POST, with a response of `n` cells.
  unfoldable pub post : Curl → List ℕ → String → List ℕ → ℕ → Option (ℤ × List ℕ)
  post curl server_url path body n = do
    url_buf ← snprintf (uninit garbage 2048) 0 2048 (server_url ++ codes path)
    url ← text_at url_buf 0
    (rc, response_buf) ← http_post_json curl (some url) (some body) (some (uninit garbage n)) n
    response ← elim response_buf [ none ↦ none | some buf ↦ text_at buf 0 ]
    some (rc, response)
