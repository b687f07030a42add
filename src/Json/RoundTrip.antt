-- ===== src/Json/RoundTrip.antt =====
-- json_get reads back what json_append_string wrote.
use sdk_native.Prelude.{
  lt→leb, ℕ, ◌+◌, ◌-◌, ◌^◌, ◌<◌, ◌≤◌, ◌≡◌, ◌≢◌, refl, ap, ◌∙◌, List, [], ◌∷◌, ◌++◌, Bool, true,
  false, ◌||◌, ◌⊎◌, some, length, ◌==◌, arith, Bool-cases, inl, inr, length-append, All, All-append,
  take_all, append_assoc, drop_append, ==_iff, ne→==,
}
use sdk_native.Memory.{Buffer, overlay, text_at}
use sdk_native.Memory.Calls.{text_at-overlay}
use sdk_native.Json.{
  starts_with, strstr, skip_space, unescape, quoted, escape_char, string_header, json_append_string,
  json_get,
}
use sdk_native.Json.Build.{append_string_built}
use sdk_native.Json.Value.{string_value, value_text, behind_key, lookup, filled, json_get_lem}
use sdk_native.Json.Field.{built, comma, escape, field_head, string_field}

string_value_plain :
    (c : ℕ) (s : List ℕ) → c ≢ b'"' → c ≢ 0x5c → string_value (c ∷ s) ≡ c ∷ string_value s
unfolding string_value
string_value_plain c [] p q = rw (ne→== c b'"' p)
string_value_plain c (e ∷ s) p q = rw (ne→== c b'"' p, string_value) (rw (ne→== c 0x5c q))

string_value_quote : (rest : List ℕ) → string_value (b'"' ∷ rest) ≡ []
unfolding string_value
string_value_quote [] = refl
string_value_quote (c ∷ rest) = refl

escape_char-cases :
    (c : ℕ)
    → (((e : ℕ) × (escape_char c ≡ 0x5c ∷ e ∷ []) × (unescape e ≡ c))
        ⊎ ((escape_char c ≡ c ∷ []) × (c ≢ b'"') × (c ≢ 0x5c)))
unfolding escape_char unescape
escape_char-cases c = elim (Bool-cases (c == b'"' || c == 0x5c)) [
  | inl two ↦ inl (c, rw two, ground arith)
  | inr one ↦ elim (Bool-cases (c == 10)) [
    | inl newline ↦ inl (b'n', rw (one, newline), ground arith)
    | inr other ↦ inr (rw (one, other), ground arith, ground arith)
  ]
]

string_value-escape_char :
    (c : ℕ) (s : List ℕ) → string_value (escape_char c ++ s) ≡ c ∷ string_value s
string_value-escape_char c s = elim (escape_char-cases c) [
  | inl (e, two, same) ↦ rw two (unfold string_value in ap (λ d. d ∷ string_value s) same)
  | inr (one, p, q) ↦ rw one (string_value_plain c s p q)
]

-- The loop of json_get undoes the loop of json_append_string, on every value.
string_value-escape : (value rest : List ℕ) → string_value (escape value ++ b'"' ∷ rest) ≡ value
unfolding escape
string_value-escape [] rest = string_value_quote rest
string_value-escape (c ∷ value) rest =
    ap string_value (append_assoc (escape_char c) (escape value) (b'"' ∷ rest))
    ∙ string_value-escape_char c (escape value ++ b'"' ∷ rest)
    ∙ ap (λ t. c ∷ t) (string_value-escape value rest)

starts_with-append : (pat s : List ℕ) → starts_with pat (pat ++ s) ≡ true
unfolding starts_with
starts_with-append [] s = refl
starts_with-append (p ∷ pat) s = rw ((==_iff p p).1 refl) (starts_with-append pat s)

-- No occurrence of `pat` begins inside of `t`, before `rest`.
abbrev pub Unseen : List ℕ → List ℕ → List ℕ → Type 0
Unseen pat [] rest = Unit
Unseen pat (c ∷ t) rest = (starts_with pat (c ∷ (t ++ rest)) ≡ false) × Unseen pat t rest

strstr-Unseen :
    (p : ℕ) (pat t s : List ℕ)
    → Unseen (p ∷ pat) t ((p ∷ pat) ++ s)
    → strstr (t ++ ((p ∷ pat) ++ s)) (p ∷ pat) ≡ some ((p ∷ pat) ++ s)
unfolding strstr
strstr-Unseen p pat [] s h = rw (starts_with-append (p ∷ pat) s)
strstr-Unseen p pat (c ∷ t) s h = rw h.0 (strstr-Unseen p pat t s h.1)

-- The text behind a key in a field that is not cut.
abbrev field_value : List ℕ → List ℕ → List ℕ
field_value value more = b':' ∷ b'"' ∷ (escape value ++ b'"' ∷ more)

behind_key-field_value :
    (value more : List ℕ) → behind_key (skip_space (field_value value more)) ≡ value
unfolding behind_key value_text skip_space
behind_key-field_value value more = string_value-escape value more

lookup-field :
    (t key value more : List ℕ)
    → length key < 254
    → Unseen (quoted key) t (quoted key ++ field_value value more)
    → lookup (t ++ (quoted key ++ field_value value more)) key ≡ value
unfolding lookup
lookup-field t key value more short h =
    rw (lt→leb 256 (length (quoted key)) (omega (arith, length-append key (b'"' ∷ [])))) (
      rw (strstr-Unseen b'"' (key ++ b'"' ∷ []) t (field_value value more) h) (
        rw (drop_append (quoted key) (field_value value more)) (behind_key-field_value value more)))

abbrev NotNul : ℕ → Type 0
NotNul c = c ≢ 0

escape_char-NotNul : (c : ℕ) → NotNul c → All NotNul (escape_char c)
unfolding escape_char
escape_char-NotNul c h = elim (Bool-cases (c == b'"' || c == 0x5c)) [
  | inl two ↦ rw two (omega arith)
  | inr one ↦ elim (Bool-cases (c == 10)) [
    | inl newline ↦ rw (one, newline) (omega arith)
    | inr other ↦ rw (one, other) (omega arith)
  ]
]

comma-NotNul : (is_first : Bool) → All NotNul (comma is_first)
comma-NotNul true = tt
comma-NotNul false = omega arith

escape-NotNul : (value : List ℕ) → All NotNul value → All NotNul (escape value)
unfolding escape
escape-NotNul [] h = tt
escape-NotNul (c ∷ value) h =
    All-append NotNul (escape_char c) (escape value) (escape_char-NotNul c h.0)
      (escape-NotNul value h.1)

string_field-NotNul :
    (is_first : Bool) (key value : List ℕ)
    → All NotNul key
    → All NotNul value
    → All NotNul (string_field is_first key value)
unfolding string_field field_head
string_field-NotNul is_first key value hk hv =
    All-append NotNul (field_head is_first key) (escape value ++ b'"' ∷ [])
      (All-append NotNul (comma is_first) (string_header key) (comma-NotNul is_first) (
        omega arith,
        All-append NotNul (key ++ b'"' ∷ []) (b':' ∷ b'"' ∷ [])
            (All-append NotNul key (b'"' ∷ []) hk (omega arith)) (omega arith),
      ))
      (All-append NotNul (escape value) (b'"' ∷ []) (escape-NotNul value hv) (omega arith))

split_field :
    (t key value : List ℕ) (is_first : Bool)
    → t ++ string_field is_first key value
      ≡ (t ++ comma is_first) ++ (quoted key ++ field_value value [])
unfolding string_field field_head
split_field t key value is_first = simp append_assoc

-- In a buffer of fewer than 2^63 cells, a field is added to the text of an object that is being
-- built; the text, the key, which has fewer than 254 characters, and the value have no NUL. If the
-- field fits and the quoted key does not occur in what stands before, the buffer holds the longer
-- text and a NUL, and json_get of that text with an array that is long enough finds the value again,
-- byte for byte.
pub json_field_round_trip :
    (buf : Buffer) (buf_len : ℕ) (t key value : List ℕ) (is_first : Bool) (dst : Buffer)
    (dst_len : ℕ)
    → buf_len ≤ length buf
    → buf_len < 2 ^ 63
    → length t + length (string_field is_first key value) < buf_len
    → length key < 254
    → All NotNul t
    → All NotNul key
    → All NotNul value
    → Unseen (quoted key) (t ++ comma is_first) (quoted key ++ field_value value [])
    → length value < dst_len
    → dst_len ≤ length dst
    → let text = t ++ string_field is_first key value in
      (json_append_string (built buf t).0 buf_len (length t) key value is_first
        ≡ some (built buf text))
      × (text_at (built buf text).0 0 ≡ some text)
      × (json_get text key dst dst_len ≡ some (length value, overlay dst 0 (value ++ 0 ∷ [])))
unfolding filled
json_field_round_trip buf buf_len t key value is_first dst dst_len hb small fits short ht hk hv
      unseen room inside =
    let field = string_field is_first key value in
    let found : lookup (t ++ field) key ≡ value =
      rw (split_field t key value is_first)
        (lookup-field (t ++ comma is_first) key value [] short unseen) in
    (
      append_string_built buf buf_len t key value is_first hb small fits,
      text_at-overlay buf 0 (t ++ field)
          (All-append NotNul t field ht (string_field-NotNul is_first key value hk hv))
          (omega (arith, length-append t field)),
      json_get_lem (t ++ field) key dst dst_len (omega arith) inside
          ∙ rw found (rw (take_all (dst_len - 1) value (omega arith))),
    )
