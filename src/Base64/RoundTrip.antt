-- ===== src/Base64/RoundTrip.antt =====
-- base64_decode reads back what base64_encode wrote.
use sdk_native.Prelude.{
  ℕ, ◌+◌, ◌-◌, ◌*◌, ◌/◌, ◌%◌, ◌^◌, ◌≤◌, ◌<◌, ◌≡◌, ◌≢◌, refl, ap, ◌∙◌, bit_or, List, [], ◌∷◌, ◌++◌,
  some, length, get_or, ◌==◌, arith, All, length-append, take_append, le→ltb, lt→ltb,
}
use mathlib.Core.Bool.{false}
use native.Mathlib.Nat.{zero-add, suc-add}
use sdk_native.Prelude.Bits.{◌<<<◌, ◌>>>◌, bit_and_ff, bit_or_disjoint}
use sdk_native.Memory.{Buffer, overlay}
use sdk_native.Base64.{
  sextet, digit, encode_group, padding, decoded_size, base64_encode, base64_decode,
}
use sdk_native.Base64.Encode.{encoding, length-encoding, sextet_lem, base64_encode_fits}
use sdk_native.Base64.Decode.{decoding, triple_bytes, base64_decode-decoded_size, decoded_size_lem}

abbrev pub IsByte : ℕ → Type 0
IsByte b = b < 256

or_join : (k x y z : ℕ) → y < 2 ^ k → z ≡ x * 2 ^ k → bit_or z y ≡ z + y
or_join k x y z h e = rw e (bit_or_disjoint k x y h)

-- The word of three bytes, and of four digits, as sums.
word_of_bytes :
    (a b c : ℕ)
    → b < 256
    → c < 256
    → bit_or (bit_or (a <<< 16) (b <<< 8)) c ≡ a * 65536 + b * 256 + c
word_of_bytes a b c hb hc =
    rw (or_join 16 a (b <<< 8) (a <<< 16) (omega arith) refl)
      (or_join 8 (a * 256 + b) c _ hc (omega arith))

word_of_digits :
    (a b c d : ℕ)
    → b < 64
    → c < 64
    → d < 64
    → bit_or (bit_or (bit_or (a <<< 18) (b <<< 12)) (c <<< 6)) d
      ≡ a * 262144 + b * 4096 + c * 64 + d
word_of_digits a b c d hb hc hd = rw (or_join 18 a (b <<< 12) (a <<< 18) (omega arith) refl) (
    rw (or_join 12 (a * 64 + b) (c <<< 6) ((a <<< 18) + (b <<< 12)) (omega arith) (omega arith))
      (or_join 6 (a * 4096 + b * 64 + c) d _ hd (omega arith)))

digit_pad : digit b'=' ≡ 0
unfolding digit
digit_pad = refl

three_eq :
    {x y z x' y' z' : ℕ}
    → x ≡ x'
    → y ≡ y'
    → z ≡ z'
    → ◌≡◌ {A = List ℕ} (x ∷ y ∷ z ∷ []) (x' ∷ y' ∷ z' ∷ [])
three_eq p q r = cc

triple_bytes_lem :
    (a b c d : ℕ)
    → b < 64
    → c < 64
    → d < 64
    → triple_bytes a b c d ≡ (a * 4 + b / 16) % 256 ∷ (b % 16 * 16 + c / 4) ∷ (c % 4 * 64 + d) ∷ []
unfolding triple_bytes
triple_bytes_lem a b c d hb hc hd =
    rw (word_of_digits a b c d hb hc hd)
      (simp bit_and_ff (three_eq (omega arith) (omega arith) (omega arith)))

-- The digits of the word of three bytes decode to the bytes.
group_bytes :
    (a b c : ℕ)
    → IsByte a
    → IsByte b
    → IsByte c
    → (w : ℕ) → w ≡ a * 65536 + b * 256 + c
    → triple_bytes (w / 262144 % 64) (w / 4096 % 64) (w / 64 % 64) (w % 64) ≡ a ∷ b ∷ c ∷ []
group_bytes a b c ha hb hc w e =
    triple_bytes_lem _ (w / 4096 % 64) (w / 64 % 64) (w % 64) (omega arith) (omega arith)
      (omega arith)
    ∙ three_eq (omega arith) (omega arith) (omega arith)

-- What the last round adds to the bytes: a zero for each `=`.
tail : List ℕ → List ℕ
tail [] = []
tail (a ∷ []) = 0 ∷ 0 ∷ []
tail (a ∷ b ∷ []) = 0 ∷ []
tail (a ∷ b ∷ c ∷ rest) = tail rest

quad_eq :
    {a b c d a' b' c' d' : ℕ}
    → a ≡ a'
    → b ≡ b'
    → c ≡ c'
    → d ≡ d'
    → triple_bytes a b c d ≡ triple_bytes a' b' c' d'
quad_eq p q r s = cc

-- The characters of a group, read back: `x` and `y` are the digits of its last two.
read_group :
    (a b c x y : ℕ)
    → IsByte a
    → IsByte b
    → IsByte c
    → let w = bit_or (bit_or (a <<< 16) (b <<< 8)) c in
      x ≡ w / 64 % 64
      → y ≡ w % 64
      → triple_bytes (digit (sextet (w >>> 18))) (digit (sextet (w >>> 12))) x y ≡ a ∷ b ∷ c ∷ []
read_group a b c x y ha hb hc ex ey =
    let w = bit_or (bit_or (a <<< 16) (b <<< 8)) c in
    quad_eq (sextet_lem (w >>> 18)).0 (sextet_lem (w >>> 12)).0 ex ey
    ∙ group_bytes a b c ha hb hc w (word_of_bytes a b c hb hc)

decoding-encoding : (src : List ℕ) → All IsByte src → decoding (encoding src) ≡ src ++ tail src
unfolding decoding encoding tail encode_group
decoding-encoding [] h = refl
decoding-encoding (a ∷ []) h =
    let e = word_of_bytes a 0 0 (omega arith) (omega arith) in
    ap (λ t. t ++ [])
      (read_group a 0 0 (digit b'=') (digit b'=') h.0 (omega arith) (omega arith)
        (omega (arith, digit_pad, e)) (omega (arith, digit_pad, e)))
decoding-encoding (a ∷ b ∷ []) h =
    let w = bit_or (bit_or (a <<< 16) (b <<< 8)) 0 in
    ap (λ t. t ++ [])
      (read_group a b 0 _ (digit b'=') h.0 h.1.0 (omega arith) (sextet_lem (w >>> 6)).0
        (omega (arith, digit_pad, word_of_bytes a b 0 h.1.0 (omega arith))))
decoding-encoding (a ∷ b ∷ c ∷ rest) h =
    let w = bit_or (bit_or (a <<< 16) (b <<< 8)) c in
    ap (λ t. t ++ decoding (encoding rest))
      (read_group a b c _ _ h.0 h.1.0 h.1.1.0 (sextet_lem (w >>> 6)).0 (sextet_lem w).0)
    ∙ ap (λ t. a ∷ b ∷ c ∷ t) (decoding-encoding rest h.1.1.1)

get_or-append : (xs ys : List ℕ) (i : ℕ) → get_or (xs ++ ys) (length xs + i) 0 ≡ get_or ys i 0
get_or-append [] ys i = rw zero-add
get_or-append (x ∷ xs) ys i = rw suc-add (get_or-append xs ys i)

-- The padding is told by the last two characters.
padding-append : (xs ys : List ℕ) → 2 ≤ length ys → padding (xs ++ ys) ≡ padding ys
unfolding padding
padding-append xs ys h =
    let n = length (xs ++ ys) in
    let m = length ys in
    let e : n ≡ length xs + m = length-append xs ys in
    let e1 : n - 1 ≡ length xs + (m - 1) = omega arith in
    let e2 : n - 2 ≡ length xs + (m - 2) = omega arith in
    simp (
      e1,
      e2,
      get_or-append,
      lt→ltb 0 n (omega arith),
      lt→ltb 1 n (omega arith),
      lt→ltb 0 m (omega arith),
      lt→ltb 1 m (omega arith),
    )

sextet-ne-pad : (x : ℕ) → (sextet x == b'=') ≡ false
sextet-ne-pad x = ground (arith, sextet_lem x)

padding-encoding : (src : List ℕ) → padding (encoding src) ≡ length (tail src)
unfolding encoding tail encode_group padding
padding-encoding [] = refl
padding-encoding (a ∷ []) = refl
padding-encoding (a ∷ b ∷ []) = rw sextet-ne-pad
padding-encoding (a ∷ b ∷ c ∷ []) = simp sextet-ne-pad
padding-encoding (a ∷ b ∷ c ∷ d ∷ rest) =
    padding-append (encode_group a (some b) (some c)) (encoding (d ∷ rest))
      (omega (arith, length-encoding (d ∷ rest)))
    ∙ padding-encoding (d ∷ rest)

length-tail : (src : List ℕ) → length src + length (tail src) ≡ (length src + 2) / 3 * 3
unfolding tail
length-tail [] = refl
length-tail (a ∷ []) = refl
length-tail (a ∷ b ∷ []) = refl
length-tail (a ∷ b ∷ c ∷ rest) = omega (arith, length-tail rest)

decoded_size-encoding :
    (src : List ℕ) → length src < 2 ^ 59 → decoded_size (encoding src) ≡ length src
decoded_size-encoding src h =
    let n = length-encoding src in
    let p = padding-encoding src in
    let t = length-tail src in
    decoded_size_lem (encoding src) (omega arith) (omega arith) ∙ omega arith

encoding-ne-nil : (src : List ℕ) → src ≢ [] → encoding src ≢ []
unfolding encoding encode_group
encoding-ne-nil [] ne e = ne refl
encoding-ne-nil (a ∷ []) ne e = cc
encoding-ne-nil (a ∷ b ∷ []) ne e = cc
encoding-ne-nil (a ∷ b ∷ c ∷ rest) ne e = cc

decode-encode :
    (src : List ℕ) (dst : Buffer) (dst_len : ℕ)
    → src ≢ []
    → All IsByte src
    → length src < 2 ^ 59
    → length src ≤ dst_len
    → dst_len < 2 ^ 63
    → dst_len ≤ length dst
    → base64_decode (encoding src) dst dst_len ≡ some (length src, overlay dst 0 src)
decode-encode src dst dst_len ne bytes small room bound inside =
    let size = decoded_size-encoding src small in
    let n = length-encoding src in
    base64_decode-decoded_size (encoding src) dst dst_len (encoding-ne-nil src ne) (omega arith)
      bound inside
    ∙ rw size
        (rw (le→ltb dst_len (length src) room) (rw (decoding-encoding src bytes) (rw take_append)))

-- For some bytes, fewer than 2^59, a buffer with room for their encoding and a NUL, and an array of
-- less than 2^63 cells with room for the bytes: base64_encode writes the encoding and a NUL into the
-- buffer and returns its length, and base64_decode of the encoding puts the bytes back and returns
-- their number.
pub base64_decode-base64_encode :
    (src : List ℕ) (buf : Buffer) (buf_len : ℕ) (dst : Buffer) (dst_len : ℕ)
    → src ≢ []
    → All IsByte src
    → length src < 2 ^ 59
    → length (encoding src) < buf_len
    → buf_len ≤ length buf
    → length src ≤ dst_len
    → dst_len < 2 ^ 63
    → dst_len ≤ length dst
    → (base64_encode src buf 0 buf_len
        ≡ some (length (encoding src), overlay buf 0 (encoding src ++ 0 ∷ [])))
      × (base64_decode (encoding src) dst dst_len ≡ some (length src, overlay dst 0 src))
base64_decode-base64_encode src buf buf_len dst dst_len ne bytes small fits inside room bound
      within =
    (
      base64_encode_fits src buf 0 buf_len (omega arith) fits (omega arith),
      decode-encode src dst dst_len ne bytes small room bound within,
    )
