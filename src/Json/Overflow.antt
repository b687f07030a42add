-- ===== src/Json/Overflow.antt =====
-- json_append_string and json_append_raw write outside of the buffer where their text does not fit.
use sdk_native.Prelude.{
  ℕ, suc, ◌+◌, ◌-◌, ◌^◌, ◌<◌, ◌≤◌, ◌≡◌, List, [], ◌∷◌, ◌++◌, Bool, true, false, Option, none, some,
  length, ltb, if◌then◌else◌, ◌>>=◌, arith, Bool-cases, inl, inr, le→ltb, ltb→lt, ltb→le, refl,
}
use sdk_native.Memory.{Buffer, store, snprintf, overlay}
use sdk_native.Memory.Overlay.{length-overlay}
use sdk_native.Memory.Calls.{store_in, store_out, snprintf_cut}
use sdk_native.Json.{
  room_left, put_comma, escape_loop, end_string, string_header, json_append_string, raw_text,
  json_append_raw,
}
use sdk_native.Json.Field.{
  comma, field_head, field_text, raw_field, room_left_lem, json_append_string_lem,
  json_append_raw_lem,
}

-- A continuation that faults behind the end of a buffer of `buf_len` cells.
abbrev FaultsBehind {ℓ} : {R : Type ℓ} → ℕ → (Buffer → ℕ → Option R) → Type ℓ
FaultsBehind buf_len rest =
    (b : Buffer) (o : ℕ) → length b ≡ buf_len → buf_len ≤ o → rest b o ≡ none

text_overflow {ℓ} :
    {R : Type ℓ} (buf : Buffer) (buf_len off : ℕ) (text : List ℕ) (rest : Buffer → ℕ → Option R)
    → length buf ≡ buf_len
    → buf_len < 2 ^ 63
    → off < buf_len
    → buf_len ≤ off + length text
    → FaultsBehind buf_len rest
    → (snprintf buf off (room_left buf_len off) text >>= λ b. rest b (off + length text)) ≡ none
text_overflow buf buf_len off text rest e small inside over faults =
    let n = buf_len - off - 1 in
    let size : room_left buf_len off ≡ suc n =
      omega (arith, room_left_lem buf_len off (omega arith) small) in
    rw size (rw (snprintf_cut buf off n text (omega arith)) (faults _ _ (rw length-overlay e) over))

head_overflow {ℓ} :
    {R : Type ℓ} (buf : Buffer) (buf_len off : ℕ) (is_first : Bool) (text : List ℕ)
    (rest : Buffer → ℕ → Option R)
    → length buf ≡ buf_len
    → buf_len < 2 ^ 63
    → off < buf_len
    → 1 ≤ length text
    → buf_len ≤ off + length (comma is_first ++ text)
    → FaultsBehind buf_len rest
    → (put_comma buf buf_len off is_first >>= λ x.
        snprintf x.0 x.1 (room_left buf_len x.1) text >>= λ b. rest b (x.1 + length text))
      ≡ none
unfolding put_comma
head_overflow buf buf_len off true text rest e small inside some_text over faults =
    text_overflow buf buf_len off text rest e small inside over faults
head_overflow buf buf_len off false text rest e small inside some_text over faults =
    elim (Bool-cases (ltb (off + 1) buf_len)) [
      | inl room ↦
          let lt = ltb→lt (off + 1) buf_len room in
          rw room (
            rw (store_in buf off b',' (omega arith)) (
              text_overflow _ buf_len (off + 1) text rest (rw length-overlay e) small lt
                (omega arith) faults))
      | inr full ↦ rw full (
          text_overflow buf buf_len off text rest e small inside
            (omega (arith, ltb→le (off + 1) buf_len full)) faults)
    ]

escape_loop_behind :
    (value : List ℕ) (buf : Buffer) (buf_len off : ℕ)
    → buf_len ≤ off
    → escape_loop value buf buf_len off ≡ some (buf, off)
unfolding escape_loop
escape_loop_behind [] buf buf_len off h = refl
escape_loop_behind (c ∷ value) buf buf_len off h = rw (le→ltb (off + 2) buf_len (omega arith))

-- A key that does not fit, with the comma, the colon and the quotes, makes json_append_string write
-- its NUL behind the end of the buffer.
pub json_append_string_overflow :
    (buf : Buffer) (buf_len off : ℕ) (key value : List ℕ) (is_first : Bool)
    → length buf ≡ buf_len
    → buf_len < 2 ^ 63
    → off < buf_len
    → buf_len ≤ off + length (field_head is_first key)
    → json_append_string buf buf_len off key value is_first ≡ none
unfolding json_append_string field_head end_string
json_append_string_overflow buf buf_len off key value is_first e small inside over =
    head_overflow buf buf_len off is_first (string_header key)
      (λ b o. escape_loop value b buf_len o >>= λ x. end_string x.0 buf_len x.1) e small inside
      (omega arith) over
      (λ b o k behind.
        rw (escape_loop_behind value b buf_len o behind)
          (rw (le→ltb (o + 1) buf_len (omega arith)) (rw (store_out b o 0 (omega arith)))))

-- So does json_append_raw with a key and a value that do not fit: it does not cut the value.
pub json_append_raw_overflow :
    (buf : Buffer) (buf_len off : ℕ) (key value : List ℕ) (is_first : Bool)
    → length buf ≡ buf_len
    → buf_len < 2 ^ 63
    → off < buf_len
    → buf_len ≤ off + length (raw_field is_first key value)
    → json_append_raw buf buf_len off key value is_first ≡ none
unfolding json_append_raw raw_field
json_append_raw_overflow buf buf_len off key value is_first e small inside over =
    head_overflow buf buf_len off is_first (raw_text key value)
      (λ b o. store b o 0 >>= λ b'. some (b', o)) e small inside (omega arith) over
      (λ b o k behind. rw (store_out b o 0 (omega arith)))

-- At an offset inside of a buffer of fewer than 2^63 cells, json_append_string adds the field, its
-- value cut where the buffer is full, if the comma, the key, the colon and the opening quote fit
-- with a NUL; if they do not, it writes outside of the buffer.
pub json_append_string-cases :
    (buf : Buffer) (buf_len off : ℕ) (key value : List ℕ) (is_first : Bool)
    → length buf ≡ buf_len
    → buf_len < 2 ^ 63
    → off < buf_len
    → let text = field_text (buf_len - off) is_first key value in
      json_append_string buf buf_len off key value is_first ≡ (
        if ltb (off + length (field_head is_first key)) buf_len
        then some (overlay buf off (text ++ 0 ∷ []), off + length text)
        else none)
json_append_string-cases buf buf_len off key value is_first whole small inside =
    let n = off + length (field_head is_first key) in
    elim (Bool-cases (ltb n buf_len)) [
      | inl room ↦
          let lt = ltb→lt n buf_len room in
          rw room (json_append_string_lem buf buf_len off key value is_first (omega arith) small lt)
      | inr tight ↦
          let le = ltb→le n buf_len tight in
          rw tight
            (json_append_string_overflow buf buf_len off key value is_first whole small inside le)
    ]

-- At an offset inside of a buffer of fewer than 2^63 cells, json_append_raw adds the whole field if
-- it fits with a NUL; if it does not, it writes outside of the buffer.
pub json_append_raw-cases :
    (buf : Buffer) (buf_len off : ℕ) (key value : List ℕ) (is_first : Bool)
    → length buf ≡ buf_len
    → buf_len < 2 ^ 63
    → off < buf_len
    → let text = raw_field is_first key value in
      json_append_raw buf buf_len off key value is_first ≡ (
        if ltb (off + length text) buf_len
        then some (overlay buf off (text ++ 0 ∷ []), off + length text)
        else none)
json_append_raw-cases buf buf_len off key value is_first whole small inside =
    let n = off + length (raw_field is_first key value) in
    elim (Bool-cases (ltb n buf_len)) [
      | inl room ↦
          let lt = ltb→lt n buf_len room in
          rw room (json_append_raw_lem buf buf_len off key value is_first (omega arith) small lt)
      | inr tight ↦
          let le = ltb→le n buf_len tight in
          rw tight
            (json_append_raw_overflow buf buf_len off key value is_first whole small inside le)
    ]
