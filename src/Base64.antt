-- ===== src/Base64.antt =====
-- base64_encode, b64_decode_char and base64_decode of linux/src/client/rootherald_linux.c.
-- The arrays are never NULL at a call, so the tests `!dst` and `!src` have no counterpart.
pub mod Encode
pub mod Decode
pub mod RoundTrip
use mathlib.Core.Option.{get_or}
use sdk_native.Prelude.{
  ℕ, ◌+◌, ◌-◌, ◌*◌, ◌/◌, bit_and, bit_or, List, [], ◌∷◌, Bool, true, false, ◌&&◌, Option, none,
  some, codes, length, get_or as nth, ltb, leb, ◌==◌, if◌then◌else◌, ◌>>=◌, ℤ, pos, minus_one,
}
use sdk_native.Prelude.Bits.{◌<<<◌, ◌>>>◌, u64, u64_mod}
use sdk_native.Memory.{Buffer, store, memcpy}

abbrev pub b64_table : List ℕ
b64_table = codes "ABCDEFGHIJKLMNOPQRSTUVWXYZabcdefghijklmnopqrstuvwxyz0123456789+/"

-- `b64_table[x & 0x3F]`
pub sextet : ℕ → ℕ
sextet x = nth b64_table (bit_and x 0x3f) 0

-- `i + k < src_len`, of the byte that stands there
present : Option ℕ → Bool
present none = false
present (some b) = true

-- The four characters of one round; `b` and `c` are absent at the end of the input.
pub encode_group : ℕ → Option ℕ → Option ℕ → List ℕ
unfolding sextet present
encode_group a b c =
    let triple = bit_or (bit_or (a <<< 16) (get_or b 0 <<< 8)) (get_or c 0) in
    sextet (triple >>> 18)
    ∷ sextet (triple >>> 12)
    ∷ (if present b then sextet (triple >>> 6) else b'=')
    ∷ (if present c then sextet triple else b'=')
    ∷ []

-- The list is what the loop has not reached, and `dst[di++] = …` is done four times a round.
encode_loop : List ℕ → Buffer → ℕ → ℕ → Option (ℕ × Buffer)
encode_loop [] dst base di = some (di, dst)
encode_loop (a ∷ []) dst base di = do
  dst' ← memcpy dst (base + di) (encode_group a none none)
  some (di + 4, dst')
encode_loop (a ∷ b ∷ []) dst base di = do
  dst' ← memcpy dst (base + di) (encode_group a (some b) none)
  some (di + 4, dst')
encode_loop (a ∷ b ∷ c ∷ rest) dst base di = do
  dst' ← memcpy dst (base + di) (encode_group a (some b) (some c))
  encode_loop rest dst' base (di + 4)

abbrev pub encode_needed : ℕ → ℕ
encode_needed src_len = u64 (4 * (u64 (src_len + 2) / 3) + 1)

-- `dst` points to cell `base` of its buffer. The result is the returned size and the buffer.
unfoldable pub base64_encode : List ℕ → Buffer → ℕ → ℕ → Option (ℕ × Buffer)
unfolding encode_loop encode_group
base64_encode src dst base dst_len =
    if ltb dst_len (encode_needed (length src)) then some (encode_needed (length src), dst) else do
      (di, dst') ← encode_loop src dst base 0
      dst'' ← store dst' (base + di) 0
      some (di, dst'')

-- Bytes stand for `char`; those from 128 on fall in no range, as the negative ones do.
pub b64_decode_char : ℕ → ℤ
b64_decode_char c =
    if leb b'A' c && leb c b'Z'
    then pos (c - b'A')
    else if leb b'a' c && leb c b'z'
    then pos (c - b'a' + 26)
    else if leb b'0' c && leb c b'9'
    then pos (c - b'0' + 52)
    else if c == b'+'
    then pos 62
    else if c == b'/'
    then pos 63
    else minus_one

-- `if (a < 0) a = 0`
pub digit : ℕ → ℕ
unfolding b64_decode_char
digit c = elim (b64_decode_char c) [ pos n ↦ n | _ ↦ 0 ]

-- `if (di < out_len) dst[di++] = v`
emit : ℕ → ℕ → Buffer → ℕ → Option (ℕ × Buffer)
emit out_len v dst di =
    if ltb di out_len then (do dst' ← store dst di v; some (di + 1, dst')) else some (di, dst)

-- One round of the loop on the values of its four characters.
decode_group : ℕ → ℕ → ℕ → ℕ → ℕ → Buffer → ℕ → Option (ℕ × Buffer)
unfolding emit
decode_group out_len a b c d dst di =
    let triple = bit_or (bit_or (bit_or (a <<< 18) (b <<< 12)) (c <<< 6)) d in
    do
      (di1, dst1) ← emit out_len (bit_and (triple >>> 16) 0xff) dst di
      (di2, dst2) ← emit out_len (bit_and (triple >>> 8) 0xff) dst1 di1
      emit out_len (bit_and triple 0xff) dst2 di2

decode_loop : ℕ → List ℕ → Buffer → ℕ → Option (ℕ × Buffer)
decode_loop out_len [] dst di = some (di, dst)
decode_loop out_len (a ∷ []) dst di = decode_group out_len (digit a) 0 0 0 dst di
decode_loop out_len (a ∷ b ∷ []) dst di = decode_group out_len (digit a) (digit b) 0 0 dst di
decode_loop out_len (a ∷ b ∷ c ∷ []) dst di =
    decode_group out_len (digit a) (digit b) (digit c) 0 dst di
decode_loop out_len (a ∷ b ∷ c ∷ d ∷ rest) dst di = do
  (di', dst') ← decode_group out_len (digit a) (digit b) (digit c) (digit d) dst di
  decode_loop out_len rest dst' di'

-- The last two characters that are `=`.
pub padding : List ℕ → ℕ
padding src =
    let n = length src in
    (if ltb 0 n && (nth src (n - 1) 0 == b'=') then 1 else 0)
    + (if ltb 1 n && (nth src (n - 2) 0 == b'=') then 1 else 0)

-- `(src_len / 4) * 3 - padding` in size_t, which wraps below 0.
unfoldable pub decoded_size : List ℕ → ℕ
unfolding padding
decoded_size src = u64 (length src / 4 * 3 + u64_mod - padding src)

unfoldable pub base64_decode : List ℕ → Buffer → ℕ → Option (ℕ × Buffer)
unfolding decode_loop decode_group digit decoded_size
base64_decode [] dst dst_len = some (0, dst)
base64_decode (a ∷ rest) dst dst_len =
    let out_len = decoded_size (a ∷ rest) in
    if ltb dst_len out_len then some (out_len, dst) else decode_loop out_len (a ∷ rest) dst 0
