-- ===== src/Base64/Decode.antt =====
-- base64_decode on any text, well formed or not.
use sdk_native.Prelude.{
  ℕ, zero, suc, ◌+◌, ◌-◌, ◌*◌, ◌/◌, ◌^◌, ◌≤◌, ◌<◌, ◌≡◌, ◌≢◌, refl, sym, ap, ◌∙◌, bit_and, bit_or,
  List, [], ◌∷◌, ◌++◌, Option, some, length, ltb, if◌then◌else◌, arith, min, ltb, le→ltb, lt→ltb,
  take, drop, Bool-cases, ◌%◌, ◌==◌, inl, inr, ltb→le, ◌>>=◌, >>=-assoc, >>=-ext, >>=-some,
}
use sdk_native.Prelude.Bits.{◌<<<◌, ◌>>>◌}
use sdk_native.Memory.{Buffer, overlay}
use sdk_native.Memory.Overlay.{length-overlay, overlay-append, overlay-nil}
use sdk_native.Memory.Calls.{store_in, result_eq}
use sdk_native.Base64.{digit, emit, decode_group, decode_loop, padding, decoded_size, base64_decode}

-- The three bytes of the word that four digits make.
unfoldable pub triple_bytes : ℕ → ℕ → ℕ → ℕ → List ℕ
triple_bytes a b c d =
    let triple = bit_or (bit_or (bit_or (a <<< 18) (b <<< 12)) (c <<< 6)) d in
    bit_and (triple >>> 16) 0xff ∷ bit_and (triple >>> 8) 0xff ∷ bit_and triple 0xff ∷ []

-- All bytes that the rounds put together, before the cut at the decoded size.
unfoldable pub decoding : List ℕ → List ℕ
decoding [] = []
decoding (a ∷ []) = triple_bytes (digit a) 0 0 0
decoding (a ∷ b ∷ []) = triple_bytes (digit a) (digit b) 0 0
decoding (a ∷ b ∷ c ∷ []) = triple_bytes (digit a) (digit b) (digit c) 0
decoding (a ∷ b ∷ c ∷ d ∷ rest) =
    triple_bytes (digit a) (digit b) (digit c) (digit d) ++ decoding rest

pub length-decoding : (src : List ℕ) → length (decoding src) ≡ 3 * ((length src + 3) / 4)
unfolding decoding triple_bytes
length-decoding [] = refl
length-decoding (a ∷ []) = refl
length-decoding (a ∷ b ∷ []) = refl
length-decoding (a ∷ b ∷ c ∷ []) = refl
length-decoding (a ∷ b ∷ c ∷ d ∷ rest) = omega (arith, length-decoding rest)

-- `emit` over a list of bytes.
emit_all : ℕ → List ℕ → Buffer → ℕ → Option (ℕ × Buffer)
emit_all out_len [] dst di = some (di, dst)
emit_all out_len (v ∷ vs) dst di = do
  (di', dst') ← emit out_len v dst di
  emit_all out_len vs dst' di'

-- It writes the bytes that fit below `out_len`.
emit_all_lem :
    (room : ℕ) (vs : List ℕ) (dst : Buffer) (out_len di : ℕ)
    → out_len ≡ di + room
    → out_len ≤ length dst
    → emit_all out_len vs dst di ≡ some (di + min room (length vs), overlay dst di (take room vs))
unfolding emit_all emit
emit_all_lem zero [] dst out_len di e k = result_eq (omega arith) (sym (overlay-nil dst di))
emit_all_lem (suc room) [] dst out_len di e k = result_eq (omega arith) (sym (overlay-nil dst di))
emit_all_lem zero (v ∷ vs) dst out_len di e k =
    rw (le→ltb di out_len (omega arith))
      (emit_all_lem zero vs dst out_len di e k ∙ result_eq (omega arith) refl)
emit_all_lem (suc room) (v ∷ vs) dst out_len di e k = rw (lt→ltb di out_len (omega arith)) (
    rw (store_in dst di v (omega arith)) (
      emit_all_lem room vs (overlay dst di (v ∷ [])) out_len (di + 1) (omega arith)
        (rw length-overlay k)
      ∙ result_eq (omega arith) (overlay-append dst di (di + 1) (v ∷ []) (take room vs) refl)))

decode_group-emit_all :
    (out_len a b c d : ℕ) (dst : Buffer) (di : ℕ)
    → decode_group out_len a b c d dst di ≡ emit_all out_len (triple_bytes a b c d) dst di
unfolding decode_group emit_all triple_bytes
decode_group-emit_all out_len a b c d dst di = simp >>=-some

emit_all-append :
    (out_len : ℕ) (xs ys : List ℕ) (dst : Buffer) (di : ℕ)
    → (emit_all out_len xs dst di >>= λ x. emit_all out_len ys x.1 x.0)
      ≡ emit_all out_len (xs ++ ys) dst di
unfolding emit_all
emit_all-append out_len [] ys dst di = refl
emit_all-append out_len (v ∷ xs) ys dst di =
    >>=-assoc (emit out_len v dst di) _ _
    ∙ >>=-ext (emit out_len v dst di) _ _ (λ x. emit_all-append out_len xs ys x.1 x.0)

-- The loop writes what is decoded, byte by byte, while there is room below `out_len`.
decode_loop-decoding :
    (out_len : ℕ) (src : List ℕ) (dst : Buffer) (di : ℕ)
    → decode_loop out_len src dst di ≡ emit_all out_len (decoding src) dst di
unfolding decode_loop decoding emit_all
decode_loop-decoding out_len [] dst di = refl
decode_loop-decoding out_len (a ∷ []) dst di = decode_group-emit_all out_len _ _ _ _ dst di
decode_loop-decoding out_len (a ∷ b ∷ []) dst di = decode_group-emit_all out_len _ _ _ _ dst di
decode_loop-decoding out_len (a ∷ b ∷ c ∷ []) dst di = decode_group-emit_all out_len _ _ _ _ dst di
decode_loop-decoding out_len (a ∷ b ∷ c ∷ d ∷ rest) dst di =
    >>=-ext (decode_group out_len (digit a) (digit b) (digit c) (digit d) dst di) _ _
      (λ x. decode_loop-decoding out_len rest x.1 x.0)
    ∙ ap (λ (m : Option (ℕ × Buffer)). m >>= λ x. emit_all out_len (decoding rest) x.1 x.0)
        (decode_group-emit_all out_len (digit a) (digit b) (digit c) (digit d) dst di)
    ∙ emit_all-append out_len (triple_bytes (digit a) (digit b) (digit c) (digit d)) (decoding rest)
        dst di

pub padding-le : (src : List ℕ) → padding src ≤ 2
unfolding padding
padding-le src = ground arith

-- The size is the number of whole quads by three less the padding. It wraps where a text of less
-- than four characters ends in `=`, and only there.
pub decoded_size_lem :
    (src : List ℕ)
    → length src < 2 ^ 61
    → padding src ≤ length src / 4 * 3
    → decoded_size src ≡ length src / 4 * 3 - padding src
unfolding decoded_size
decoded_size_lem src small h = omega arith

decoded_size-le-decoding :
    (src : List ℕ)
    → length src < 2 ^ 61
    → decoded_size src < 2 ^ 63
    → decoded_size src ≤ length (decoding src)
unfolding decoded_size
decoded_size-le-decoding src small h = omega (arith, length-decoding src, padding-le src)

abbrev pub count_pads : List ℕ → ℕ
count_pads [] = 0
count_pads (c ∷ src) = (if c == b'=' then 1 else 0) + count_pads src

-- Three bytes for each whole quad, less one for each `=` among the last two characters, in size_t.
abbrev pub size_of : List ℕ → ℕ
size_of src = (length src / 4 * 3 + 2 ^ 64 - count_pads (drop (length src - 2) src)) % 2 ^ 64

padding-longer : (a b c : ℕ) (src : List ℕ) → padding (a ∷ b ∷ c ∷ src) ≡ padding (b ∷ c ∷ src)
unfolding padding
padding-longer a b c src =
    let n = length src in
    let last : suc (suc (suc n)) - 1 ≡ suc (suc n) = omega arith in
    let last' : suc (suc n) - 1 ≡ suc n = omega arith in
    let front : suc (suc (suc n)) - 2 ≡ suc n = omega arith in
    let front' : suc (suc n) - 2 ≡ n = omega arith in
    rw (last, last', front, front')
      (rw
        (
          lt→ltb 0 (suc (suc (suc n))) (omega arith),
          lt→ltb 1 (suc (suc (suc n))) (omega arith),
          lt→ltb 0 (suc (suc n)) (omega arith),
          lt→ltb 1 (suc (suc n)) (omega arith),
        )
        refl)

padding-count_pads : (src : List ℕ) → padding src ≡ count_pads (drop (length src - 2) src)
unfolding padding
padding-count_pads [] = refl
padding-count_pads (a ∷ []) = omega arith
padding-count_pads (a ∷ b ∷ []) = omega arith
padding-count_pads (a ∷ b ∷ c ∷ src) =
    let less : length (a ∷ b ∷ c ∷ src) - 2 ≡ suc (length (b ∷ c ∷ src) - 2) = omega arith in
    padding-longer a b c src
    ∙ padding-count_pads (b ∷ c ∷ src)
    ∙ ap (λ k. count_pads (drop k (a ∷ b ∷ c ∷ src))) (sym less)

decoded_size-size_of : (src : List ℕ) → decoded_size src ≡ size_of src
unfolding decoded_size
decoded_size-size_of src =
    ap (λ k. (length src / 4 * 3 + 2 ^ 64 - k) % 2 ^ 64) (padding-count_pads src)

pub base64_decode-decoded_size :
    (src : List ℕ) (dst : Buffer) (dst_len : ℕ)
    → src ≢ []
    → length src < 2 ^ 61
    → dst_len < 2 ^ 63
    → dst_len ≤ length dst
    → base64_decode src dst dst_len
      ≡ some (
        decoded_size src,
        if ltb dst_len (decoded_size src)
            then dst
            else overlay dst 0 (take (decoded_size src) (decoding src)),
      )
unfolding base64_decode
base64_decode-decoded_size [] dst dst_len ne small bound h = absurd (ne refl)
base64_decode-decoded_size (a ∷ rest) dst dst_len ne small bound h =
    let src = a ∷ rest in
    let size = decoded_size src in
    elim (Bool-cases (ltb dst_len size)) [
      | inl short ↦ rw short
      | inr fits ↦ rw fits (
          decode_loop-decoding size src dst 0
          ∙ emit_all_lem size (decoding src) dst size 0 (omega arith)
              (omega (arith, ltb→le _ _ fits))
          ∙ result_eq
              (omega (arith, decoded_size-le-decoding src small (omega (arith, ltb→le _ _ fits))))
              refl)
    ]

-- On every text that is not empty and has fewer than 2^61 characters, with an array of at least
-- `dst_len` cells, `dst_len` below 2^63: three bytes for each whole quad, less one for each `=` among
-- the last two characters, modulo 2^64, is returned on all branches; where it is at most `dst_len`
-- that many decoded bytes are written, and where it is more nothing is written. No call writes
-- outside of the array.
pub base64_decode_lem :
    (src : List ℕ) (dst : Buffer) (dst_len : ℕ)
    → src ≢ []
    → length src < 2 ^ 61
    → dst_len < 2 ^ 63
    → dst_len ≤ length dst
    → base64_decode src dst dst_len
      ≡ some (
        size_of src,
        if ltb dst_len (size_of src)
            then dst
            else overlay dst 0 (take (size_of src) (decoding src)),
      )
base64_decode_lem src dst dst_len ne small bound h =
    base64_decode-decoded_size src dst dst_len ne small bound h
    ∙ ap (λ n. some (n, if ltb dst_len n then dst else overlay dst 0 (take n (decoding src))))
        (decoded_size-size_of src)
