-- ===== src/Json/Field.antt =====
-- What json_append_string and json_append_raw add to a buffer, and when they run past its end.
use sdk_native.Prelude.{
  ℕ, ◌+◌, ◌-◌, ◌^◌, ◌<◌, ◌≤◌, ◌≡◌, refl, sym, ap, ◌∙◌, List, [], ◌∷◌, ◌++◌, Bool, true, false,
  Option, some, length, ltb, if◌then◌else◌, ◌>>=◌, arith, Bool-cases, inl, inr, lt→ltb, le→ltb,
  ltb→lt, ltb→le, length-append, append_assoc,
}
use mathlib.Core.Path.{ap₂}
use sdk_native.Memory.{Buffer, store, snprintf, overlay}
use sdk_native.Memory.Overlay.{
  length-overlay, overlay-nil, overlay-append, overlay_over, overlay_replace,
}
use sdk_native.Memory.Calls.{store_in, snprintf_in, memcpy_in}
use sdk_native.Json.{
  room_left, put_comma, escape_char, escape_loop, end_string, string_header, json_append_string,
  raw_text, json_append_raw,
}

-- A text that is being built from cell 0: the buffer holds it and a NUL, and the offset is behind it.
abbrev pub built : Buffer → List ℕ → Buffer × ℕ
built buf s = (overlay buf 0 (s ++ 0 ∷ []), length s)

abbrev pub comma : Bool → List ℕ
comma true = []
comma false = b',' ∷ []

-- The escaped value, and as much of it as the loop writes when `room` cells are left.
unfoldable pub escape : List ℕ → List ℕ
escape [] = []
escape (c ∷ value) = escape_char c ++ escape value

clip : ℕ → List ℕ → List ℕ
clip room [] = []
clip room (c ∷ value) =
    if ltb 2 room then escape_char c ++ clip (room - length (escape_char c)) value else []

pub length-escape_char : (c : ℕ) → (1 ≤ length (escape_char c)) × (length (escape_char c) ≤ 2)
unfolding escape_char
length-escape_char c = ground arith

-- It leaves room for the NUL.
length-clip : (room : ℕ) (value : List ℕ) → 0 < room → length (clip room value) < room
unfolding clip
length-clip room [] h = h
length-clip room (c ∷ value) h = elim (Bool-cases (ltb 2 room)) [
  | inl more ↦
      let rest = room - length (escape_char c) in
      rw more (
        rw length-append (
          omega (
            arith,
            ltb→lt _ _ more,
            length-escape_char c,
            length-clip rest value (omega (arith, ltb→lt _ _ more, length-escape_char c)),
          )))
  | inr full ↦ rw full h
]

-- Where the whole value fits, with its quote and the NUL, it is not cut.
clip-eq-escape :
    (room : ℕ) (value : List ℕ) → length (escape value) + 1 < room → clip room value ≡ escape value
unfolding clip escape
clip-eq-escape room [] h = refl
clip-eq-escape room (c ∷ value) h =
    let esc = escape_char c in
    let n = length-append esc (escape value) in
    rw (lt→ltb 2 room (omega (arith, length-escape_char c))) (
      ap (λ t. esc ++ t)
        (clip-eq-escape (room - length esc) value (omega (arith, length-escape_char c))))

pub buffer_eq :
    {n m : ℕ} {d e : Buffer}
    → d ≡ e
    → n ≡ m
    → ◌≡◌ {A = Option (Buffer × ℕ)} (some (d, n)) (some (e, m))
buffer_eq p q = cc

put_comma_lem :
    (buf : Buffer) (buf_len off : ℕ) (is_first : Bool)
    → buf_len ≤ length buf
    → off + 1 < buf_len
    → put_comma buf buf_len off is_first
      ≡ some (overlay buf off (comma is_first), off + length (comma is_first))
unfolding put_comma
put_comma_lem buf buf_len off true h k = buffer_eq (sym (overlay-nil buf off)) (omega arith)
put_comma_lem buf buf_len off false h k =
    rw (lt→ltb (off + 1) buf_len k) (rw (store_in buf off b',' (omega arith)))

pub room_left_lem :
    (buf_len off : ℕ) → off ≤ buf_len → buf_len < 2 ^ 63 → room_left buf_len off ≡ buf_len - off
room_left_lem buf_len off h k = omega arith

escape_loop_lem :
    (value : List ℕ) (buf : Buffer) (buf_len off : ℕ)
    → buf_len ≤ length buf
    → escape_loop value buf buf_len off
      ≡ some
          (overlay buf off (clip (buf_len - off) value), off + length (clip (buf_len - off) value))
unfolding escape_loop clip
escape_loop_lem [] buf buf_len off h = buffer_eq (sym (overlay-nil buf off)) (omega arith)
escape_loop_lem (c ∷ value) buf buf_len off h = elim (Bool-cases (ltb (off + 2) buf_len)) [
  | inl room ↦
      let lt = ltb→lt _ _ room in
      let esc = escape_char c in
      let n = length esc in
      let e : buf_len - (off + n) ≡ buf_len - off - n = omega arith in
      rw (room, lt→ltb 2 (buf_len - off) (omega arith))
        (rw (memcpy_in buf off esc (omega (arith, length-escape_char c))) (
          escape_loop_lem value (overlay buf off esc) buf_len (off + n) (rw length-overlay h)
          ∙ rw e (
              buffer_eq (overlay-append buf off (off + n) esc _ refl)
                (omega (arith, length-append esc (clip (buf_len - off - n) value))))))
  | inr full ↦
      rw (full, le→ltb 2 (buf_len - off) (omega (arith, ltb→le _ _ full)))
        (buffer_eq (sym (overlay-nil buf off)) (omega arith))
]

abbrev closing : ℕ → List ℕ
closing room = if ltb 1 room then b'"' ∷ [] else []

end_string_lem :
    (buf : Buffer) (buf_len off : ℕ)
    → buf_len ≤ length buf
    → off < buf_len
    → end_string buf buf_len off
      ≡ some (
        overlay buf off (closing (buf_len - off) ++ 0 ∷ []),
        off + length (closing (buf_len - off)),
      )
unfolding end_string
end_string_lem buf buf_len off h k = elim (Bool-cases (ltb (off + 1) buf_len)) [
  | inl room ↦
      let lt = ltb→lt _ _ room in
      rw (room, lt→ltb 1 (buf_len - off) (omega arith))
        (rw (store_in buf off b'"' (omega arith)) (
          rw (store_in (overlay buf off (b'"' ∷ [])) (off + 1) 0 (rw length-overlay (omega arith)))
            (buffer_eq (overlay-append buf off (off + 1) (b'"' ∷ []) (0 ∷ []) refl) refl)))
  | inr full ↦
      rw (full, le→ltb 1 (buf_len - off) (omega (arith, ltb→le _ _ full)))
        (rw (store_in buf off 0 (omega arith)) (buffer_eq refl (omega arith)))
]

-- The part that both functions share: the comma and the text that snprintf puts together.
head_lem {ℓ} :
    {R : Type ℓ} (buf : Buffer) (buf_len off : ℕ) (is_first : Bool) (text : List ℕ)
    (rest : Buffer → ℕ → Option R)
    → buf_len ≤ length buf
    → buf_len < 2 ^ 63
    → 1 ≤ length text
    → off + length (comma is_first ++ text) < buf_len
    → (put_comma buf buf_len off is_first >>= λ x.
        snprintf x.0 x.1 (room_left buf_len x.1) text >>= λ b. rest b (x.1 + length text))
      ≡ rest
          (overlay buf off ((comma is_first ++ text) ++ 0 ∷ []))
          (off + length (comma is_first ++ text))
head_lem buf buf_len off is_first text rest h small some_text k =
    let n = length-append (comma is_first) text in
    let off1 = off + length (comma is_first) in
    let buf1 = overlay buf off (comma is_first) in
    let size : room_left buf_len off1 ≡ buf_len - off1 =
      room_left_lem buf_len off1 (omega arith) small in
    rw (put_comma_lem buf buf_len off is_first h (omega arith)) (
      rw
        (snprintf_in buf1 off1 (room_left buf_len off1) text (omega arith)
          (rw length-overlay (omega arith)))
        (ap₂ rest
          (overlay-append buf off off1 (comma is_first) (text ++ 0 ∷ []) refl
            ∙ ap (overlay buf off) (sym (append_assoc (comma is_first) text (0 ∷ []))))
          (omega arith)))

-- What a call of json_append_string adds at `off`: the key, and the value as far as it fits.
unfoldable pub field_head : Bool → List ℕ → List ℕ
field_head is_first key = comma is_first ++ string_header key

field_body : ℕ → List ℕ → List ℕ
field_body room value = let text = clip room value in text ++ closing (room - length text)

pub field_text : ℕ → Bool → List ℕ → List ℕ → List ℕ
field_text room is_first key value =
    let head = field_head is_first key in head ++ field_body (room - length head) value

-- Three writes in a row, the first over the NUL of what stands before.
join_pieces :
    (buf : Buffer) (off : ℕ) (head text end : List ℕ)
    → let off1 = off + length head in
      let off2 = off1 + length text in
      let buf2 = overlay (overlay buf off (head ++ 0 ∷ [])) off1 text in
      ◌≡◌ {A = Option (Buffer × ℕ)} (some (overlay buf2 off2 (end ++ 0 ∷ []), off2 + length end)) (
        some (
          overlay buf off ((head ++ (text ++ end)) ++ 0 ∷ []),
          off + length (head ++ (text ++ end)),
        ))
join_pieces buf off head text end =
    let off1 = off + length head in
    let tail = end ++ 0 ∷ [] in
    buffer_eq
      (overlay-append (overlay buf off (head ++ 0 ∷ [])) off1 (off1 + length text) text tail refl
        ∙ overlay_over buf off off1 head (text ++ tail) refl
            (omega (arith, length-append text tail, length-append end (0 ∷ [])))
        ∙ ap (overlay buf off) (simp append_assoc))
      (omega (arith, length-append head (text ++ end), length-append text end))

-- If the key fits, the call adds that text and a NUL, and stays inside of the buffer.
pub json_append_string_lem :
    (buf : Buffer) (buf_len off : ℕ) (key value : List ℕ) (is_first : Bool)
    → buf_len ≤ length buf
    → buf_len < 2 ^ 63
    → off + length (field_head is_first key) < buf_len
    → let text = field_text (buf_len - off) is_first key value in
      json_append_string buf buf_len off key value is_first
      ≡ some (overlay buf off (text ++ 0 ∷ []), off + length text)
unfolding json_append_string field_text field_body field_head
json_append_string_lem buf buf_len off key value is_first h small k =
    let head = field_head is_first key in
    let off1 = off + length head in
    let room = buf_len - off - length head in
    let e : buf_len - off1 ≡ room = omega arith in
    let text = clip room value in
    let off2 = off1 + length text in
    let e2 : buf_len - off2 ≡ room - length text = omega arith in
    let fits = length-clip room value (omega arith) in
    let buf1 = overlay buf off (head ++ 0 ∷ []) in
    let buf2 = overlay buf1 off1 text in
    head_lem buf buf_len off is_first (string_header key)
      (λ b o. escape_loop value b buf_len o >>= λ x. end_string x.0 buf_len x.1) h small
      (omega arith) k
    ∙ rw (escape_loop_lem value buf1 buf_len off1 (rw length-overlay h)) (
        rw e (
          rw
            (end_string_lem buf2 buf_len off2 (rw (length-overlay, length-overlay) h) (omega arith))
            (rw e2 (join_pieces buf off head text (closing (room - length text))))))

-- It adds at most what leaves a cell for the NUL.
pub length-field_text :
    (room : ℕ) (is_first : Bool) (key value : List ℕ)
    → length (field_head is_first key) < room
    → length (field_text room is_first key value) < room
unfolding field_text field_body
length-field_text room is_first key value h =
    let head = field_head is_first key in
    let more = room - length head in
    let text = clip more value in
    let fits = length-clip more value (omega arith) in
    rw (length-append, length-append)
      (elim (Bool-cases (ltb 1 (more - length text))) [
        | inl yes' ↦ rw yes' (omega (arith, ltb→lt _ _ yes'))
        | inr no' ↦ rw no' (omega arith)
      ])

-- A field whose value is not cut.
unfoldable pub string_field : Bool → List ℕ → List ℕ → List ℕ
string_field is_first key value = field_head is_first key ++ (escape value ++ b'"' ∷ [])

pub field_text-eq-string_field :
    (room : ℕ) (is_first : Bool) (key value : List ℕ)
    → length (string_field is_first key value) < room
    → field_text room is_first key value ≡ string_field is_first key value
unfolding field_text field_body string_field
field_text-eq-string_field room is_first key value h =
    let head = field_head is_first key in
    let more = room - length head in
    let n = length-append head (escape value ++ b'"' ∷ []) in
    let m = length-append (escape value) (b'"' ∷ []) in
    rw (clip-eq-escape more value (omega arith))
      (rw (lt→ltb 1 (more - length (escape value)) (omega arith)))

unfoldable pub raw_field : Bool → List ℕ → List ℕ → List ℕ
raw_field is_first key value = comma is_first ++ raw_text key value

-- json_append_raw adds the whole field where it fits.
pub json_append_raw_lem :
    (buf : Buffer) (buf_len off : ℕ) (key value : List ℕ) (is_first : Bool)
    → buf_len ≤ length buf
    → buf_len < 2 ^ 63
    → off + length (raw_field is_first key value) < buf_len
    → let text = raw_field is_first key value in
      json_append_raw buf buf_len off key value is_first
      ≡ some (overlay buf off (text ++ 0 ∷ []), off + length text)
unfolding json_append_raw raw_field
json_append_raw_lem buf buf_len off key value is_first h small k =
    let text = raw_field is_first key value in
    let off1 = off + length text in
    head_lem buf buf_len off is_first (raw_text key value)
      (λ b o. store b o 0 >>= λ b'. some (b', o)) h small (omega arith) k
    ∙ rw (store_in (overlay buf off (text ++ 0 ∷ [])) off1 0 (rw length-overlay (omega arith)))
        (buffer_eq (overlay_replace buf off off1 text 0 [] 0 refl) refl)
