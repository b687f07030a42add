-- ===== src/Host/Object.antt =====
-- Objects that linux/native_host/native_host.c writes field by field into a local array.
use sdk_native.Prelude.{
  ℕ, ◌+◌, ◌*◌, ◌^◌, ◌<◌, ◌≤◌, ◌≡◌, refl, ap, ◌∙◌, sym, List, [], ◌∷◌, ◌++◌, Bool, true, false,
  Option, some, length, arith, ◌>>=◌, if◌then◌else◌, All, ◌≢◌, length-append, All-append, not, ◌&&◌,
  ◌||◌, ◌==◌, lt→ltb, append_assoc,
}
use sdk_native.Memory.{Buffer, overlay, text_at}
use sdk_native.Memory.Overlay.{length-overlay, overlay_over, overlay-append}
use sdk_native.Memory.Calls.{store_in, text_at-overlay}
use sdk_native.Json.{
  escape_char, quoted, string_header, raw_text, json_append_string, json_append_raw,
}
use sdk_native.Json.Field.{
  length-escape_char, built, buffer_eq, comma, escape, field_head, string_field, raw_field,
}
use sdk_native.Json.Build.{append_string_built, append_raw_built}
use sdk_native.Host.{begin_object, end_object}

-- The next call of a chain succeeds.
pub step {ℓ κ} :
    {A : Type ℓ} {B : Type κ} {m : Option A} {a : A} (f : A → Option B) {o : Option B}
    → m ≡ some a
    → f a ≡ o
    → (m >>= f) ≡ o
step f e h = ap (λ m. m >>= f) e ∙ h

pub begin_object-built :
    (buf : Buffer) → 1 < length buf → begin_object buf ≡ some (built buf (b'{' ∷ []))
unfolding begin_object
begin_object-built buf h = rw (store_in buf 0 b'{' (omega arith)) (
    rw (store_in (overlay buf 0 (b'{' ∷ [])) 1 0 (rw length-overlay h))
      (ap (λ b. some (b, 1)) (overlay-append buf 0 1 (b'{' ∷ []) (0 ∷ []) refl)))

pub end_object-built :
    (buf : Buffer) (buf_len : ℕ) (t : List ℕ)
    → buf_len ≤ length buf
    → length t + 1 < buf_len
    → end_object (built buf t).0 buf_len (length t) ≡ some (built buf (t ++ b'}' ∷ []))
unfolding end_object
end_object-built buf buf_len t h k =
    let n = length t in
    rw (lt→ltb (n + 1) buf_len k) (
      rw (store_in (overlay buf 0 (t ++ 0 ∷ [])) n b'}' (rw length-overlay (omega arith))) (
        rw
          (store_in (overlay (overlay buf 0 (t ++ 0 ∷ [])) n (b'}' ∷ [])) (n + 1) 0
            (rw length-overlay (rw length-overlay (omega arith))))
          (buffer_eq
            (overlay-append (overlay buf 0 (t ++ 0 ∷ [])) n (n + 1) (b'}' ∷ []) (0 ∷ []) refl
              ∙ overlay_over buf 0 n t (b'}' ∷ 0 ∷ []) (omega arith) (omega arith)
              ∙ ap (overlay buf 0) (sym (append_assoc t (b'}' ∷ []) (0 ∷ []))))
            (omega (arith, length-append t (b'}' ∷ []))))))

-- The text of a finished buffer.
pub text_of_built :
    (buf : Buffer) (t : List ℕ)
    → length t < length buf
    → All (λ c. c ≢ 0) t
    → text_at (built buf t).0 0 ≡ some t
text_of_built buf t fits plain = text_at-overlay buf 0 t plain (omega arith)

-- One call of json_append_string or json_append_raw: the key, and the value.
pub data Field : Type 0 where
  string : List ℕ → List ℕ → Field
  raw : List ℕ → List ℕ → Field

abbrev pub append : Field → Bool → ℕ → Buffer × ℕ → Option (Buffer × ℕ)
append (Field.string key value) is_first n (buf, off) =
    json_append_string buf n off key value is_first
append (Field.raw key value) is_first n (buf, off) = json_append_raw buf n off key value is_first

abbrev pub field_of : Bool → Field → List ℕ
field_of is_first (Field.string key value) = string_field is_first key value
field_of is_first (Field.raw key value) = raw_field is_first key value

-- The calls one after the other, and what follows them.
abbrev pub fields_then :
    List Field → Bool → ℕ → Buffer × ℕ → (Buffer × ℕ → Option (List ℕ)) → Option (List ℕ)
fields_then [] is_first n at k = k at
fields_then (f ∷ fs) is_first n at k =
    append f is_first n at >>= λ at'. fields_then fs false n at' k

-- The text `t` with the fields behind it.
abbrev pub grown : List ℕ → Bool → List Field → List ℕ
grown t is_first [] = t
grown t is_first (f ∷ fs) = grown (t ++ field_of is_first f) false fs

abbrev pub object_text : List Field → List ℕ
object_text fs = grown (b'{' ∷ []) true fs ++ b'}' ∷ []

abbrev pub size_of : Bool → Field → ℕ
size_of is_first (Field.string key value) =
    length (comma is_first) + length key + 5 + length (escape value)
size_of is_first (Field.raw key value) = length (comma is_first) + length key + 3 + length value

abbrev pub size : Bool → List Field → ℕ
size is_first [] = 0
size is_first (f ∷ fs) = size_of is_first f + size false fs

pub length-escape_le : (s : List ℕ) → length (escape s) ≤ 2 * length s
unfolding escape
length-escape_le [] = omega arith
length-escape_le (c ∷ s) =
    omega (
      arith,
      length-append (escape_char c) (escape s),
      (length-escape_char c).1,
      length-escape_le s,
    )

length-field_of : (is_first : Bool) (f : Field) → length (field_of is_first f) ≡ size_of is_first f
unfolding string_field field_head raw_field
length-field_of is_first (Field.string key value) =
    let n1 = length-append (comma is_first ++ string_header key) (escape value ++ b'"' ∷ []) in
    let n2 = length-append (comma is_first) (string_header key) in
    let n3 = length-append (escape value) (b'"' ∷ []) in
    let n4 = length-append (quoted key) (b':' ∷ b'"' ∷ []) in
    let n5 = length-append key (b'"' ∷ []) in omega arith
length-field_of is_first (Field.raw key value) =
    let n1 = length-append (comma is_first) (raw_text key value) in
    let n2 = length-append (quoted key) (b':' ∷ value) in
    let n3 = length-append key (b'"' ∷ []) in omega arith

pub length-grown :
    (t : List ℕ) (is_first : Bool) (fs : List Field)
    → length (grown t is_first fs) ≡ length t + size is_first fs
length-grown t is_first [] = omega arith
length-grown t is_first (f ∷ fs) = omega (
  arith,
  length-grown (t ++ field_of is_first f) false fs,
  length-append t (field_of is_first f),
  length-field_of is_first f,
)

pub append_lem :
    (buf : Buffer) (n : ℕ) (t : List ℕ) (is_first : Bool) (f : Field)
    → length buf ≡ n
    → n < 2 ^ 63
    → length t + size_of is_first f < n
    → append f is_first n (built buf t) ≡ some (built buf (t ++ field_of is_first f))
append_lem buf n t is_first (Field.string key value) whole small fits =
    let e = length-field_of is_first (Field.string key value) in
    append_string_built buf n t key value is_first (omega arith) small (omega arith)
append_lem buf n t is_first (Field.raw key value) whole small fits =
    let e = length-field_of is_first (Field.raw key value) in
    append_raw_built buf n t key value is_first (omega arith) small (omega arith)

pub fields_then_lem :
    (buf : Buffer) (n : ℕ) (t : List ℕ) (is_first : Bool) (fs : List Field)
    (k : Buffer × ℕ → Option (List ℕ))
    → length buf ≡ n
    → n < 2 ^ 63
    → length t + size is_first fs < n
    → fields_then fs is_first n (built buf t) k ≡ k (built buf (grown t is_first fs))
fields_then_lem buf n t is_first [] k whole small fits = refl
fields_then_lem buf n t is_first (f ∷ fs) k whole small fits =
    let e = length-append t (field_of is_first f) in
    let e' = length-field_of is_first f in
    step (λ at. fields_then fs false n at k)
      (append_lem buf n t is_first f whole small (omega arith))
      (fields_then_lem buf n (t ++ field_of is_first f) false fs k whole small (omega arith))

-- No byte of the text is the NUL.
abbrev pub IsText : List ℕ → Type 0
IsText s = All (λ c. c ≢ 0) s

abbrev pub is_text : List ℕ → Bool
is_text [] = true
is_text (c ∷ s) = not (c == 0) && is_text s

pub is_text_sound : (s : List ℕ) → is_text s ≡ true → IsText s
is_text_sound [] h = tt
is_text_sound (c ∷ s) h = ground (arith, is_text_sound s)

-- Keys and values of a field are texts.
abbrev pub IsPlainField : Field → Type 0
IsPlainField (Field.string key value) = IsText key × IsText value
IsPlainField (Field.raw key value) = IsText key × IsText value

pub if-IsText : (b : Bool) (s t : List ℕ) → IsText s → IsText t → IsText (if b then s else t)
if-IsText true s t h k = h
if-IsText false s t h k = k

join : (s t : List ℕ) → IsText s → IsText t → IsText (s ++ t)
join s t h k = All-append (λ c. c ≢ 0) s t h k

quote-IsText : IsText (b'"' ∷ [])
quote-IsText = is_text_sound (b'"' ∷ []) refl

comma-IsText : (is_first : Bool) → IsText (comma is_first)
comma-IsText true = tt
comma-IsText false = is_text_sound (b',' ∷ []) refl

quoted-IsText : (key : List ℕ) → IsText key → IsText (quoted key)
quoted-IsText key h =
    join (b'"' ∷ []) (key ++ b'"' ∷ []) quote-IsText (join key (b'"' ∷ []) h quote-IsText)

escape-IsText : (s : List ℕ) → IsText s → IsText (escape s)
unfolding escape escape_char
escape-IsText [] h = tt
escape-IsText (c ∷ s) h =
    All-append (λ c. c ≢ 0) (escape_char c) (escape s)
      (if-IsText (c == b'"' || c == 0x5c) (0x5c ∷ c ∷ []) _ (omega arith, (h.0, tt))
        (if-IsText (c == 10) (0x5c ∷ b'n' ∷ []) (c ∷ []) (is_text_sound (0x5c ∷ b'n' ∷ []) refl)
          (h.0, tt)))
      (escape-IsText s h.1)

field_of-IsText : (is_first : Bool) (f : Field) → IsPlainField f → IsText (field_of is_first f)
unfolding string_field field_head raw_field
field_of-IsText is_first (Field.string key value) h =
    join (comma is_first ++ string_header key) (escape value ++ b'"' ∷ [])
      (join (comma is_first) (string_header key) (comma-IsText is_first) (
        join (quoted key) (b':' ∷ b'"' ∷ []) (quoted-IsText key h.0)
          (is_text_sound (b':' ∷ b'"' ∷ []) refl)))
      (join (escape value) (b'"' ∷ []) (escape-IsText value h.1) quote-IsText)
field_of-IsText is_first (Field.raw key value) h =
    join (comma is_first) (raw_text key value) (comma-IsText is_first)
      (join (quoted key) (b':' ∷ value) (quoted-IsText key h.0) (omega arith, h.1))

grown-IsText :
    (t : List ℕ) (is_first : Bool) (fs : List Field)
    → IsText t
    → All IsPlainField fs
    → IsText (grown t is_first fs)
grown-IsText t is_first [] h k = h
grown-IsText t is_first (f ∷ fs) h k =
    grown-IsText (t ++ field_of is_first f) false fs
      (All-append (λ c. c ≢ 0) t (field_of is_first f) h (field_of-IsText is_first f k.0)) k.1

-- The whole object: what every array that the host fills holds at the end, if it fits.
abbrev pub object_then : List Field → ℕ → Buffer → (List ℕ → Option (List ℕ)) → Option (List ℕ)
object_then fs n buf k = begin_object buf >>= λ at.
    fields_then fs true n at (λ at'. end_object at'.0 n at'.1 >>= λ at''. text_at at''.0 0 >>= k)

pub length-object_text : (fs : List Field) → length (object_text fs) ≡ 2 + size true fs
length-object_text fs =
    omega (
      arith,
      length-append (grown (b'{' ∷ []) true fs) (b'}' ∷ []),
      length-grown (b'{' ∷ []) true fs,
    )

pub object-IsText : (fs : List Field) → All IsPlainField fs → IsText (object_text fs)
object-IsText fs plain =
    join (grown (b'{' ∷ []) true fs) (b'}' ∷ [])
      (grown-IsText (b'{' ∷ []) true fs (is_text_sound (b'{' ∷ []) refl) plain)
      (is_text_sound (b'}' ∷ []) refl)

pub object_then_lem :
    (fs : List Field) (n : ℕ) (buf : Buffer) (k : List ℕ → Option (List ℕ))
    → length buf ≡ n
    → n < 2 ^ 63
    → 2 + size true fs < n
    → All IsPlainField fs
    → object_then fs n buf k ≡ k (object_text fs)
object_then_lem fs n buf k whole small fits plain =
    let t = grown (b'{' ∷ []) true fs in
    let e = length-grown (b'{' ∷ []) true fs in
    let e' = length-append t (b'}' ∷ []) in
    step
      (λ at.
        fields_then fs true n at
          (λ at'. end_object at'.0 n at'.1 >>= λ at''. text_at at''.0 0 >>= k))
      (begin_object-built buf (omega arith))
      (fields_then_lem buf n (b'{' ∷ []) true fs
          (λ at'. end_object at'.0 n at'.1 >>= λ at''. text_at at''.0 0 >>= k) whole small
          (omega arith)
        ∙ step (λ at''. text_at at''.0 0 >>= k)
            (end_object-built buf n t (omega arith) (omega arith))
            (step k (text_of_built buf (object_text fs) (omega arith) (object-IsText fs plain))
              refl))
