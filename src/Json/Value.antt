-- ===== src/Json/Value.antt =====
-- What json_get finds, and that it writes that into the array and nothing else.
use sdk_native.Prelude.{
  ℕ, zero, suc, ◌+◌, ◌-◌, ◌<◌, ◌≤◌, ◌≡◌, refl, sym, ap, ◌∙◌, List, [], ◌∷◌, ◌++◌, true, false,
  Option, none, some, drop, take, length, ltb, leb, ◌==◌, if◌then◌else◌, ◌>>=◌, arith, Bool-cases,
  inl, inr, ltb→lt, ltb→le, Option-cases, length-take, take_nil, take_all, ne→==,
}
use native.Mathlib.Nat.{zero-add}
use sdk_native.Memory.{Buffer, overlay}
use sdk_native.Memory.Overlay.{length-overlay, overlay-nil, overlay-append, overlay_replace}
use sdk_native.Memory.Calls.{store_in, result_eq}
use sdk_native.Json.{
  strstr, skip_space, unescape, put_char, string_loop, raw_depth, raw_loop, end_value, get_value,
  after_key, quoted, json_get,
}

-- The characters of a string value up to its closing quote, with the escapes taken away.
unfoldable pub string_value : List ℕ → List ℕ
string_value [] = []
string_value (c ∷ []) = if c == b'"' then [] else c ∷ []
string_value (c ∷ e ∷ rest) = elim (c == b'"') [
  | true ↦ []
  | false ↦ elim (c == 0x5c) [
    | true ↦ unescape e ∷ string_value rest
    | false ↦ c ∷ string_value (e ∷ rest)
  ]
]

-- The characters of any other value, as they stand, up to the comma or bracket that ends it.
unfoldable pub raw_value : ℕ → List ℕ → List ℕ
raw_value depth [] = []
raw_value depth (c ∷ rest) = elim (raw_depth c depth) [
  | none ↦ []
  | some depth' ↦ c ∷ raw_value depth' rest
]

unfoldable pub value_text : List ℕ → List ℕ
value_text [] = []
value_text (c ∷ rest) = if c == b'"' then string_value rest else raw_value 0 (c ∷ rest)

unfoldable pub behind_key : List ℕ → List ℕ
behind_key [] = []
behind_key (c ∷ rest) = if c == b':' then value_text (skip_space rest) else []

-- The value of the first occurrence of the quoted key; empty where there is none.
unfoldable pub lookup : List ℕ → List ℕ → List ℕ
lookup json key = if leb 256 (length (quoted key)) then [] else elim (strstr json (quoted key)) [
  | none ↦ []
  | some pos ↦ behind_key (skip_space (drop (length (quoted key)) pos))
]

-- What `dst[di]` and the cells behind it become: as much of the text as leaves room for the NUL.
written : ℕ → Buffer → ℕ → List ℕ → Option (ℕ × Buffer)
written dst_len dst di v = some (di + length v, overlay dst di (take (dst_len - 1 - di) v))

suc_pred : (r : ℕ) → suc r - 1 ≡ r
suc_pred r = omega arith

cut_step :
    (r : ℕ) (dst : Buffer) (di ch : ℕ) (v : List ℕ)
    → overlay (overlay dst di (take r (ch ∷ []))) (di + 1) (take (r - 1) v)
      ≡ overlay dst di (take r (ch ∷ v))
cut_step zero dst di ch v = rw (overlay-nil, overlay-nil)
cut_step (suc r) dst di ch v =
    rw (take_nil r) (rw (suc_pred r) (overlay-append dst di (di + 1) (ch ∷ []) (take r v) refl))

put_char_lem :
    (dst_len ch : ℕ) (dst : Buffer) (di : ℕ)
    → dst_len ≤ length dst
    → put_char dst_len ch dst di ≡ some (overlay dst di (take (dst_len - 1 - di) (ch ∷ [])))
unfolding put_char
put_char_lem dst_len ch dst di h = elim (Bool-cases (ltb (di + 1) dst_len)) [
  | inl room ↦
      let e : dst_len - 1 - di ≡ suc (dst_len - 2 - di) = omega (arith, ltb→lt _ _ room) in
      rw room (
        rw e
          (rw (take_nil (dst_len - 2 - di)) (store_in dst di ch (omega (arith, ltb→lt _ _ room)))))
  | inr full ↦
      let e : dst_len - 1 - di ≡ 0 = omega (arith, ltb→le _ _ full) in
      rw full (rw e (rw overlay-nil))
]

-- One character, and then the rest of the loop.
char_step :
    (dst_len ch : ℕ) (dst : Buffer) (di : ℕ) (v : List ℕ) (rest : Buffer → Option (ℕ × Buffer))
    → dst_len ≤ length dst
    → ((dst' : Buffer) → length dst' ≡ length dst → rest dst' ≡ written dst_len dst' (di + 1) v)
    → (put_char dst_len ch dst di >>= rest) ≡ written dst_len dst di (ch ∷ v)
unfolding written
char_step dst_len ch dst di v rest h k = rw (put_char_lem dst_len ch dst di h) (
    k _ (length-overlay _ _ _)
    ∙ result_eq (omega arith) (
        ap
          (λ (r : ℕ).
            overlay (overlay dst di (take (dst_len - 1 - di) (ch ∷ []))) (di + 1) (take r v))
          (omega arith)
        ∙ cut_step (dst_len - 1 - di) dst di ch v))

-- The loop ends.
end_step :
    (dst_len : ℕ) (dst : Buffer) (di : ℕ)
    → ◌≡◌ {A = Option (ℕ × Buffer)} (some (di, dst)) (written dst_len dst di [])
unfolding written
end_step dst_len dst di =
    rw (take_nil (dst_len - 1 - di)) (result_eq (omega arith) (sym (overlay-nil dst di)))

string_loop_lem :
    (dst_len : ℕ) (s : List ℕ) (dst : Buffer) (di : ℕ)
    → dst_len ≤ length dst
    → string_loop dst_len s dst di ≡ written dst_len dst di (string_value s)
unfolding string_loop string_value
string_loop_lem dst_len [] dst di h = end_step dst_len dst di
string_loop_lem dst_len (c ∷ []) dst di h = elim (Bool-cases (c == b'"')) [
  | inl quote ↦ rw quote (end_step dst_len dst di)
  | inr other ↦
      rw other (char_step dst_len c dst di [] _ h (λ dst' e. end_step dst_len dst' (di + 1)))
]
string_loop_lem dst_len (c ∷ e ∷ rest) dst di h = elim (Bool-cases (c == b'"')) [
  | inl quote ↦ rw (quote, string_loop, string_value) (end_step dst_len dst di)
  | inr other ↦
      rw (other, string_loop, string_value)
        (elim (Bool-cases (c == 0x5c)) [
          | inl escape ↦ rw escape (
              char_step dst_len (unescape e) dst di (string_value rest) _ h
                (λ dst' k. string_loop_lem dst_len rest dst' (di + 1) (omega arith)))
          | inr plain ↦ rw plain (
              char_step dst_len c dst di (string_value (e ∷ rest)) _ h
                (λ dst' k. string_loop_lem dst_len (e ∷ rest) dst' (di + 1) (omega arith)))
        ])
]

raw_loop_lem :
    (dst_len : ℕ) (s : List ℕ) (dst : Buffer) (di depth : ℕ)
    → dst_len ≤ length dst
    → raw_loop dst_len s dst di depth ≡ written dst_len dst di (raw_value depth s)
unfolding raw_loop raw_value
raw_loop_lem dst_len [] dst di depth h = end_step dst_len dst di
raw_loop_lem dst_len (c ∷ rest) dst di depth h = elim (Option-cases (raw_depth c depth)) [
  | inl ends ↦ rw (ends, raw_loop, raw_value) (end_step dst_len dst di)
  | inr (depth', goes) ↦
      rw (goes, raw_loop, raw_value)
        (char_step dst_len c dst di (raw_value depth' rest) _ h
          (λ dst' k. raw_loop_lem dst_len rest dst' (di + 1) depth' (omega arith)))
]

-- The array after the call: the text as far as it fits, and a NUL.
unfoldable pub filled : ℕ → Buffer → List ℕ → Buffer
filled dst_len dst v = overlay dst 0 (take (dst_len - 1) v ++ 0 ∷ [])

end_value_lem :
    (dst_len : ℕ) (dst : Buffer) (v : List ℕ)
    → 0 < dst_len
    → dst_len ≤ length dst
    → (written dst_len dst 0 v >>= end_value dst_len) ≡ some (length v, filled dst_len dst v)
unfolding written end_value filled
end_value_lem dst_len dst v pos h = elim (Bool-cases (ltb (length v) dst_len)) [
  | inl short ↦
      let lt = ltb→lt (length v) dst_len short in
      let e : dst_len - 1 - 0 ≡ dst_len - 1 = omega arith in
      rw (e, zero-add)
        (rw short (
          rw (take_all (dst_len - 1) v (omega arith)) (
            rw (store_in (overlay dst 0 v) (length v) 0 (rw length-overlay (omega arith)))
              (result_eq refl (overlay-append dst 0 (length v) v (0 ∷ []) (omega arith))))))
  | inr long ↦
      let le = ltb→le (length v) dst_len long in
      let e : dst_len - 1 - 0 ≡ dst_len - 1 = omega arith in
      rw (e, zero-add)
        (rw long (
          rw
            (store_in (overlay dst 0 (take (dst_len - 1) v)) (dst_len - 1) 0
              (rw length-overlay (omega arith)))
            (result_eq refl (
              overlay-append dst 0 (dst_len - 1) (take (dst_len - 1) v) (0 ∷ [])
                (omega (arith, length-take (dst_len - 1) v))))))
]

get_value_lem :
    (s : List ℕ) (dst : Buffer) (dst_len : ℕ)
    → 0 < dst_len
    → dst_len ≤ length dst
    → get_value s dst dst_len ≡ some (length (value_text s), filled dst_len dst (value_text s))
unfolding get_value value_text
get_value_lem [] dst dst_len pos h =
    ap (λ (m : Option (ℕ × Buffer)). m >>= end_value dst_len) (end_step dst_len dst 0)
    ∙ end_value_lem dst_len dst [] pos h
get_value_lem (c ∷ rest) dst dst_len pos h = elim (Bool-cases (c == b'"')) [
  | inl quote ↦ rw quote (
      rw (string_loop_lem dst_len rest dst 0 h)
        (end_value_lem dst_len dst (string_value rest) pos h))
  | inr other ↦ rw other (
      rw (raw_loop_lem dst_len (c ∷ rest) dst 0 0 h)
        (end_value_lem dst_len dst (raw_value 0 (c ∷ rest)) pos h))
]

filled_again :
    (dst_len : ℕ) (dst : Buffer) (v : List ℕ)
    → filled dst_len (overlay dst 0 (0 ∷ [])) v ≡ filled dst_len dst v
unfolding filled
filled_again dst_len dst v = again (take (dst_len - 1) v)
  where
    again :
        (u : List ℕ)
        → overlay (overlay dst 0 (0 ∷ [])) 0 (u ++ 0 ∷ []) ≡ overlay dst 0 (u ++ 0 ∷ [])
    again [] = overlay_replace dst 0 0 [] 0 [] 0 (omega arith)
    again (c ∷ u) = overlay_replace dst 0 0 [] 0 (u ++ 0 ∷ []) c (omega arith)

missing :
    (dst_len : ℕ) (dst : Buffer)
    → ◌≡◌ {A = Option (ℕ × Buffer)}
        (some (0, overlay dst 0 (0 ∷ [])))
        (some (0, filled dst_len dst []))
unfolding filled
missing dst_len dst = rw (take_nil (dst_len - 1))

after_key_lem :
    (s : List ℕ) (dst : Buffer) (dst_len : ℕ)
    → 0 < dst_len
    → dst_len ≤ length dst
    → after_key s (overlay dst 0 (0 ∷ [])) dst_len
      ≡ some (length (behind_key s), filled dst_len dst (behind_key s))
unfolding after_key behind_key
after_key_lem [] dst dst_len pos h = missing dst_len dst
after_key_lem (c ∷ rest) dst dst_len pos h = elim (Bool-cases (c == b':')) [
  | inl colon ↦ rw colon (
      get_value_lem (skip_space rest) (overlay dst 0 (0 ∷ [])) dst_len pos (rw length-overlay h)
      ∙ result_eq refl (filled_again dst_len dst _))
  | inr other ↦ rw other (missing dst_len dst)
]

-- For an array of at least `dst_len` cells, with `dst_len` not 0: json_get returns the length of the
-- value that it looks up, and leaves the array with as much of the value as fits and a NUL, whatever
-- the text and the key. No call writes outside of the array, and what is not found reads as the
-- empty text.
pub json_get_lem :
    (json key : List ℕ) (dst : Buffer) (dst_len : ℕ)
    → 0 < dst_len
    → dst_len ≤ length dst
    → json_get json key dst dst_len
      ≡ some (length (lookup json key), filled dst_len dst (lookup json key))
unfolding json_get lookup
json_get_lem json key dst dst_len pos h = rw (ne→== dst_len 0 (omega arith)) (
    rw (store_in dst 0 0 (omega arith)) (elim (Bool-cases (leb 256 (length (quoted key)))) [
      | inl long ↦ rw long (missing dst_len dst)
      | inr fits ↦ rw fits (elim (Option-cases (strstr json (quoted key))) [
        | inl absent ↦ rw absent (missing dst_len dst)
        | inr (at, found) ↦ rw found (after_key_lem _ dst dst_len pos h)
      ])
    ]))
