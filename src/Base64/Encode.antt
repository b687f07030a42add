-- ===== src/Base64/Encode.antt =====
-- What base64_encode writes.
use sdk_native.Prelude.{
  ℕ, ◌+◌, ◌*◌, ◌/◌, ◌%◌, ◌^◌, ◌≤◌, ◌<◌, ◌≡◌, ◌≢◌, refl, sym, ◌∙◌, List, [], ◌∷◌, ◌++◌, Bool, true,
  ◌&&◌, not, none, some, length, get_or, ltb, ◌==◌, if◌then◌else◌, arith, ltb, le→ltb, lt→ltb,
  Bool-cases, inl, inr, ltb→lt, ltb→le,
}
use sdk_native.Prelude.Bits.{bit_and_3f, all_below, all_below_sound}
use native.Mathlib.Nat.{add-zero, zero-add}
use sdk_native.Memory.{Buffer, overlay}
use sdk_native.Memory.Overlay.{length-overlay, overlay-append, overlay-nil}
use sdk_native.Memory.Calls.{store_in, memcpy_in, result_eq}
use sdk_native.Base64.{
  b64_table, sextet, encode_group, encode_loop, encode_needed, base64_encode, digit,
}

-- The text of `src`: the groups of its rounds.
unfoldable pub encoding : List ℕ → List ℕ
encoding [] = []
encoding (a ∷ []) = encode_group a none none
encoding (a ∷ b ∷ []) = encode_group a (some b) none
encoding (a ∷ b ∷ c ∷ rest) = encode_group a (some b) (some c) ++ encoding rest

pub length-encoding : (src : List ℕ) → length (encoding src) ≡ 4 * ((length src + 2) / 3)
unfolding encoding encode_group
length-encoding [] = refl
length-encoding (a ∷ []) = refl
length-encoding (a ∷ b ∷ []) = refl
length-encoding (a ∷ b ∷ c ∷ rest) = omega (arith, length-encoding rest)

encode_loop-encoding :
    (src : List ℕ) (dst : Buffer) (base di : ℕ)
    → base + di + length (encoding src) ≤ length dst
    → encode_loop src dst base di
      ≡ some (di + length (encoding src), overlay dst (base + di) (encoding src))
unfolding encode_loop encoding encode_group
encode_loop-encoding [] dst base di h = result_eq (omega arith) (sym (overlay-nil dst (base + di)))
encode_loop-encoding (a ∷ []) dst base di h =
    rw (memcpy_in dst (base + di) (encode_group a none none) h)
encode_loop-encoding (a ∷ b ∷ []) dst base di h =
    rw (memcpy_in dst (base + di) (encode_group a (some b) none) h)
encode_loop-encoding (a ∷ b ∷ c ∷ rest) dst base di h =
    rw (memcpy_in dst (base + di) (encode_group a (some b) (some c)) (omega arith)) (
      encode_loop-encoding rest _ base (di + 4) (rw length-overlay (omega arith))
      ∙ result_eq (omega arith) (
          overlay-append dst (base + di) (base + (di + 4)) (encode_group a (some b) (some c)) _
            (omega arith)))

-- A character that a JSON text holds as it is: not NUL, a quote, a backslash or a newline.
abbrev pub IsPlain : ℕ → Type 0
IsPlain c = (c ≢ 0) × (c ≢ b'"') × (c ≢ 0x5c) × (c ≢ 10)

plain_digit : ℕ → ℕ → Bool
plain_digit i c =
    digit c == i
    && not (c == 0)
    && not (c == b'"')
    && not (c == 0x5c)
    && not (c == 10)
    && not (c == b'=')

table_ok : all_below 64 (λ i. plain_digit i (get_or b64_table i 0)) ≡ true
unfolding all_below plain_digit digit
table_ok = refl

plain_digit_sound : (i c : ℕ) → plain_digit i c ≡ true → (digit c ≡ i) × IsPlain c × (c ≢ b'=')
unfolding plain_digit
plain_digit_sound i c h = ground arith

pub sextet_lem : (x : ℕ) → (digit (sextet x) ≡ x % 64) × IsPlain (sextet x) × (sextet x ≢ b'=')
unfolding sextet
sextet_lem x =
    rw (bit_and_3f x)
      (plain_digit_sound (x % 64) _ (all_below_sound 64 _ (x % 64) table_ok (omega arith)))

-- The two branches: with `encode_needed` cells the text and a NUL are written and the text's length
-- is returned; with fewer, the size that is needed is returned and nothing is written.
pub base64_encode_fits :
    (src : List ℕ) (dst : Buffer) (base dst_len : ℕ)
    → length src < 2 ^ 61
    → length (encoding src) < dst_len
    → base + length (encoding src) < length dst
    → base64_encode src dst base dst_len
      ≡ some (length (encoding src), overlay dst base (encoding src ++ 0 ∷ []))
unfolding base64_encode
base64_encode_fits src dst base dst_len small room inside =
    let n = length (encoding src) in
    rw (le→ltb dst_len (encode_needed (length src)) (omega (arith, length-encoding src))) (
      rw (encode_loop-encoding src dst base 0 (omega arith)) (
        simp (zero-add, add-zero)
          (rw (store_in (overlay dst base (encoding src)) (base + n) 0 (rw length-overlay inside))
            (result_eq refl (overlay-append dst base (base + n) (encoding src) (0 ∷ []) refl)))))

base64_encode_small :
    (src : List ℕ) (dst : Buffer) (base dst_len : ℕ)
    → length src < 2 ^ 61
    → dst_len ≤ length (encoding src)
    → base64_encode src dst base dst_len ≡ some (length (encoding src) + 1, dst)
unfolding base64_encode
base64_encode_small src dst base dst_len small tight =
    rw (lt→ltb dst_len (encode_needed (length src)) (omega (arith, length-encoding src)))
      (result_eq (omega (arith, length-encoding src)) refl)

-- For fewer than 2^61 bytes and `dst_len` cells that lie inside of the buffer: where the cells hold
-- the text and its NUL, both are written and the length of the text is returned; where they do not,
-- the size that is needed is returned, and nothing is written.
pub base64_encode_lem :
    (src : List ℕ) (dst : Buffer) (base dst_len : ℕ)
    → length src < 2 ^ 61
    → base + dst_len ≤ length dst
    → base64_encode src dst base dst_len ≡ (
        if ltb (length (encoding src)) dst_len
        then some (length (encoding src), overlay dst base (encoding src ++ 0 ∷ []))
        else some (length (encoding src) + 1, dst))
base64_encode_lem src dst base dst_len small inside =
    elim (Bool-cases (ltb (length (encoding src)) dst_len)) [
      | inl room ↦
          let lt = ltb→lt (length (encoding src)) dst_len room in
          rw room (base64_encode_fits src dst base dst_len small lt (omega arith))
      | inr tight ↦
          let le = ltb→le (length (encoding src)) dst_len tight in
          rw tight (base64_encode_small src dst base dst_len small le)
    ]
