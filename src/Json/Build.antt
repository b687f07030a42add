-- ===== src/Json/Build.antt =====
-- Objects that are built field by field from the first cell of a buffer.
use sdk_native.Prelude.{
  ℕ, ◌+◌, ◌-◌, ◌^◌, ◌<◌, ◌≤◌, ◌≡◌, sym, ap, ◌∙◌, List, [], ◌∷◌, ◌++◌, Bool, Option, some, length,
  arith, length-append, append_assoc,
}
use sdk_native.Memory.{Buffer, overlay}
use sdk_native.Memory.Overlay.{length-overlay, overlay_over}
use sdk_native.Json.{json_append_string, json_append_raw}
use sdk_native.Json.Field.{
  built, buffer_eq, escape, string_field, raw_field, field_head, field_text-eq-string_field,
  json_append_string_lem, json_append_raw_lem,
}

grow :
    (buf : Buffer) (t text : List ℕ)
    → ◌≡◌ {A = Option (Buffer × ℕ)}
        (some (overlay (built buf t).0 (length t) (text ++ 0 ∷ []), length t + length text))
        (some (built buf (t ++ text)))
grow buf t text =
    buffer_eq
      (overlay_over buf 0 (length t) t (text ++ 0 ∷ []) (omega arith)
          (omega (arith, length-append text (0 ∷ [])))
        ∙ ap (overlay buf 0) (sym (append_assoc t text (0 ∷ []))))
      (sym (length-append t text))

pub append_string_built :
    (buf : Buffer) (buf_len : ℕ) (t key value : List ℕ) (is_first : Bool)
    → buf_len ≤ length buf
    → buf_len < 2 ^ 63
    → length t + length (string_field is_first key value) < buf_len
    → json_append_string (built buf t).0 buf_len (length t) key value is_first
      ≡ some (built buf (t ++ string_field is_first key value))
unfolding string_field
append_string_built buf buf_len t key value is_first h small k =
    let field = string_field is_first key value in
    let room = buf_len - length t in
    let field_fits = length-append (field_head is_first key) (escape value ++ b'"' ∷ []) in
    json_append_string_lem (built buf t).0 buf_len (length t) key value is_first
      (rw length-overlay h) small (omega arith)
    ∙ rw (field_text-eq-string_field room is_first key value (omega arith)) (grow buf t field)

pub append_raw_built :
    (buf : Buffer) (buf_len : ℕ) (t key value : List ℕ) (is_first : Bool)
    → buf_len ≤ length buf
    → buf_len < 2 ^ 63
    → length t + length (raw_field is_first key value) < buf_len
    → json_append_raw (built buf t).0 buf_len (length t) key value is_first
      ≡ some (built buf (t ++ raw_field is_first key value))
append_raw_built buf buf_len t key value is_first h small k =
    json_append_raw_lem (built buf t).0 buf_len (length t) key value is_first (rw length-overlay h)
      small k
    ∙ grow buf t (raw_field is_first key value)
