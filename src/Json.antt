-- ===== src/Json.antt =====
-- json_get, json_append_string and json_append_raw of linux/src/client/rootherald_linux.c. The host
-- (linux/native_host/native_host.c) has the same three functions, text for text.
-- The pointers are never NULL at a call, so the tests for it have no counterpart. `*pos` is 0 where
-- the suffix that stands for `pos` is empty.
pub mod Value
pub mod Field
pub mod Overflow
pub mod Build
pub mod RoundTrip
use sdk_native.Prelude.{
  ℕ, zero, suc, ◌+◌, ◌-◌, ◌%◌, List, [], ◌∷◌, ◌++◌, Bool, true, false, not, ◌&&◌, ◌||◌, Option,
  none, some, codes, drop, length, ltb, leb, ◌==◌, if◌then◌else◌, ◌>>=◌,
}
use sdk_native.Prelude.Bits.{u64, u64_mod}
use sdk_native.Memory.{Buffer, store, memcpy, snprintf}

unfoldable pub starts_with : List ℕ → List ℕ → Bool
starts_with [] s = true
starts_with (p ∷ ps) [] = false
starts_with (p ∷ ps) (c ∷ s) = p == c && starts_with ps s

-- The C library's strstr: the suffix that begins with the first occurrence.
unfoldable pub strstr : List ℕ → List ℕ → Option (List ℕ)
unfolding starts_with
strstr [] pat = if starts_with pat [] then some [] else none
strstr (c ∷ s) pat = if starts_with pat (c ∷ s) then some (c ∷ s) else strstr s pat

unfoldable pub is_space : ℕ → Bool
is_space c = c == b' ' || c == 9 || c == 10 || c == 13

unfoldable pub skip_space : List ℕ → List ℕ
unfolding is_space
skip_space [] = []
skip_space (c ∷ s) = if is_space c then skip_space s else c ∷ s

-- The character that a backslash and `c` stand for.
unfoldable pub unescape : ℕ → ℕ
unescape c = if c == b'n' then 10 else if c == b't' then 9 else c

-- `if (di + 1 < dst_len) dst[di] = ch`
unfoldable pub put_char : ℕ → ℕ → Buffer → ℕ → Option Buffer
put_char dst_len ch dst di = if ltb (di + 1) dst_len then store dst di ch else some dst

-- The loop over a string value, from the character after its quote.
unfoldable pub string_loop : ℕ → List ℕ → Buffer → ℕ → Option (ℕ × Buffer)
string_loop dst_len [] dst di = some (di, dst)
string_loop dst_len (c ∷ []) dst di =
    if c == b'"' then some (di, dst) else do dst' ← put_char dst_len c dst di; some (di + 1, dst')
string_loop dst_len (c ∷ e ∷ rest) dst di = elim (c == b'"') [
  | true ↦ some (di, dst)
  | false ↦ elim (c == 0x5c) [
    | true ↦ do dst' ← put_char dst_len (unescape e) dst di; string_loop dst_len rest dst' (di + 1)
    | false ↦ do dst' ← put_char dst_len c dst di; string_loop dst_len (e ∷ rest) dst' (di + 1)
  ]
]

abbrev pub opens : ℕ → Bool
opens c = c == b'{' || c == b'['

abbrev pub closes : ℕ → Bool
closes c = c == b'}' || c == b']'

-- What one character of a value that is no string does: it ends the value (`none`), or leaves the
-- depth of brackets for the next.
unfoldable pub raw_depth : ℕ → ℕ → Option ℕ
raw_depth c depth =
    if opens c
    then some (depth + 1)
    else if closes c
    then (if depth == 0 then none else some (depth - 1))
    else if depth == 0 && (c == b',' || c == b'}')
    then none
    else some depth

unfoldable pub raw_loop : ℕ → List ℕ → Buffer → ℕ → ℕ → Option (ℕ × Buffer)
raw_loop dst_len [] dst di depth = some (di, dst)
raw_loop dst_len (c ∷ rest) dst di depth = elim (raw_depth c depth) [
  | none ↦ some (di, dst)
  | some depth' ↦ do dst' ← put_char dst_len c dst di; raw_loop dst_len rest dst' (di + 1) depth'
]

-- The NUL behind the value, or in the last cell if the value was cut.
unfoldable pub end_value : ℕ → ℕ × Buffer → Option (ℕ × Buffer)
end_value dst_len (di, dst) =
    if ltb di dst_len
    then (do dst' ← store dst di 0; some (di, dst'))
    else (do dst' ← store dst (dst_len - 1) 0; some (di, dst'))

unfoldable pub get_value : List ℕ → Buffer → ℕ → Option (ℕ × Buffer)
get_value [] dst dst_len = end_value dst_len (0, dst)
get_value (c ∷ rest) dst dst_len =
    if c == b'"'
    then (string_loop dst_len rest dst 0 >>= end_value dst_len)
    else (raw_loop dst_len (c ∷ rest) dst 0 0 >>= end_value dst_len)

-- From behind the key: a colon, and the value.
unfoldable pub after_key : List ℕ → Buffer → ℕ → Option (ℕ × Buffer)
after_key [] dst dst_len = some (0, dst)
after_key (c ∷ rest) dst dst_len =
    if c == b':' then get_value (skip_space rest) dst dst_len else some (0, dst)

abbrev pub quoted : List ℕ → List ℕ
quoted key = b'"' ∷ key ++ b'"' ∷ []

-- `search` has 256 cells; a key that does not fit in it with its quotes is not looked for.
unfoldable pub json_get : List ℕ → List ℕ → Buffer → ℕ → Option (ℕ × Buffer)
json_get json key dst dst_len = if dst_len == 0 then some (0, dst) else do
  dst' ← store dst 0 0
  if leb 256 (length (quoted key)) then some (0, dst') else elim (strstr json (quoted key)) [
    | none ↦ some (0, dst')
    | some pos ↦ after_key (skip_space (drop (length (quoted key)) pos)) dst' dst_len
  ]

-- `buf_len - off` in size_t
abbrev pub room_left : ℕ → ℕ → ℕ
room_left buf_len off = u64 (buf_len + u64_mod - off)

-- `if (!is_first && off + 1 < buf_len) buf[off++] = ','`
unfoldable pub put_comma : Buffer → ℕ → ℕ → Bool → Option (Buffer × ℕ)
put_comma buf buf_len off is_first =
    if not is_first && ltb (off + 1) buf_len
    then (do buf' ← store buf off b','; some (buf', off + 1))
    else some (buf, off)

-- What one character of the value is written as.
unfoldable pub escape_char : ℕ → List ℕ
escape_char c =
    if c == b'"' || c == 0x5c then 0x5c ∷ c ∷ [] else if c == 10 then 0x5c ∷ b'n' ∷ [] else c ∷ []

unfoldable pub escape_loop : List ℕ → Buffer → ℕ → ℕ → Option (Buffer × ℕ)
escape_loop [] buf buf_len off = some (buf, off)
escape_loop (c ∷ value) buf buf_len off =
    if ltb (off + 2) buf_len
    then (do
      buf' ← memcpy buf off (escape_char c)
      escape_loop value buf' buf_len (off + length (escape_char c)))
    else some (buf, off)

-- `if (off + 1 < buf_len) buf[off++] = '"'`, and the NUL that is written whatever `off` is.
unfoldable pub end_string : Buffer → ℕ → ℕ → Option (Buffer × ℕ)
end_string buf buf_len off =
    if ltb (off + 1) buf_len
    then (do buf1 ← store buf off b'"'; buf2 ← store buf1 (off + 1) 0; some (buf2, off + 1))
    else (do buf1 ← store buf off 0; some (buf1, off))

abbrev pub string_header : List ℕ → List ℕ
string_header key = quoted key ++ b':' ∷ b'"' ∷ []

-- The result is the buffer and the new `*offset`.
unfoldable pub json_append_string : Buffer → ℕ → ℕ → List ℕ → List ℕ → Bool → Option (Buffer × ℕ)
json_append_string buf buf_len offset key value is_first = do
  (buf1, off1) ← put_comma buf buf_len offset is_first
  buf2 ← snprintf buf1 off1 (room_left buf_len off1) (string_header key)
  (buf3, off3) ← escape_loop value buf2 buf_len (off1 + length (string_header key))
  end_string buf3 buf_len off3

abbrev pub raw_text : List ℕ → List ℕ → List ℕ
raw_text key raw_value = quoted key ++ b':' ∷ raw_value

pub json_append_raw : Buffer → ℕ → ℕ → List ℕ → List ℕ → Bool → Option (Buffer × ℕ)
json_append_raw buf buf_len offset key raw_value is_first = do
  (buf1, off1) ← put_comma buf buf_len offset is_first
  buf2 ← snprintf buf1 off1 (room_left buf_len off1) (raw_text key raw_value)
  let off2 = off1 + length (raw_text key raw_value)
  buf3 ← store buf2 off2 0
  some (buf3, off2)
