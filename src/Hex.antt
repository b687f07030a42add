-- ===== src/Hex.antt =====
-- bytes_to_hex of linux/src/client/rootherald_linux.c.
use sdk_native.Prelude.{
  ℕ, ◌+◌, ◌-◌, ◌*◌, ◌<◌, ◌≤◌, ◌≡◌, refl, ap, ◌∙◌, List, [], ◌∷◌, ◌++◌, Bool, Option, some, codes,
  length, get_or, leb, ◌==◌, if◌then◌else◌, ◌>>=◌, arith, All, bit_and, sym, ==_iff,
}
use sdk_native.Prelude.Bits.{◌>>>◌, all_below, all_below_sound}
use sdk_native.Memory.{Buffer, store, overlay}
use sdk_native.Memory.Overlay.{length-overlay, overlay-nil, overlay-append}
use sdk_native.Memory.Calls.{store_in}

abbrev pub hex : List ℕ
hex = codes "0123456789abcdef"

-- `hex[src[i] >> 4]` and `hex[src[i] & 0x0F]`
high_digit : ℕ → ℕ
high_digit b = get_or hex (b >>> 4) 0

low_digit : ℕ → ℕ
low_digit b = get_or hex (bit_and b 0x0f) 0

hex_loop : List ℕ → Buffer → ℕ → Option Buffer
hex_loop [] dst i = some dst
hex_loop (b ∷ src) dst i = do
  dst1 ← store dst (i * 2) (high_digit b)
  dst2 ← store dst1 (i * 2 + 1) (low_digit b)
  hex_loop src dst2 (i + 1)

pub bytes_to_hex : List ℕ → Buffer → Option Buffer
unfolding hex_loop
bytes_to_hex src dst = do dst' ← hex_loop src dst 0; store dst' (length src * 2) 0

-- The text: two digits a byte.
pub hex_text : List ℕ → List ℕ
hex_text [] = []
hex_text (b ∷ src) = high_digit b ∷ low_digit b ∷ hex_text src

pub length-hex_text : (src : List ℕ) → length (hex_text src) ≡ length src * 2
unfolding hex_text
length-hex_text [] = refl
length-hex_text (b ∷ src) = omega (arith, length-hex_text src)

hex_loop-hex_text :
    (src : List ℕ) (dst : Buffer) (i p : ℕ)
    → p ≡ i * 2
    → i * 2 + length src * 2 ≤ length dst
    → hex_loop src dst i ≡ some (overlay dst p (hex_text src))
unfolding hex_loop hex_text
hex_loop-hex_text [] dst i p e h = ap some (sym (overlay-nil dst p))
hex_loop-hex_text (b ∷ src) dst i p e h = rw (← e) (
    rw (store_in dst p (high_digit b) (omega arith)) (
      rw
        (store_in (overlay dst p (high_digit b ∷ [])) (p + 1) (low_digit b)
          (rw length-overlay (omega arith)))
        (rw (overlay-append dst p (p + 1) (high_digit b ∷ []) (low_digit b ∷ []) refl) (
          hex_loop-hex_text src _ (i + 1) (p + 2) (omega arith) (rw length-overlay (omega arith))
          ∙ ap some (
              overlay-append dst p (p + 2) (high_digit b ∷ low_digit b ∷ []) (hex_text src)
                refl)))))

-- The reading of a digit, and of a text of digits.
hex_value : ℕ → ℕ
hex_value c = if leb b'a' c then c - b'a' + 10 else c - b'0'

pub unhex : List ℕ → List ℕ
unhex (c ∷ d ∷ s) = (hex_value c * 16 + hex_value d) ∷ unhex s
unhex _ = []

digits_ok :
    all_below 256 (λ b. hex_value (high_digit b) * 16 + hex_value (low_digit b) == b) ≡ Bool.true
unfolding all_below high_digit low_digit hex_value
digits_ok = refl

unhex-hex_text : (src : List ℕ) → All (λ b. b < 256) src → unhex (hex_text src) ≡ src
unfolding unhex hex_text
unhex-hex_text [] h = refl
unhex-hex_text (b ∷ src) h =
    cons_eq ((==_iff _ b).0 (all_below_sound 256 _ b digits_ok h.0)) (unhex-hex_text src h.1)
  where
    cons_eq : {x y : ℕ} {s t : List ℕ} → x ≡ y → s ≡ t → x ∷ s ≡ y ∷ t
    cons_eq p q = cc

-- With two cells for each byte and one for the NUL, bytes_to_hex writes two digits for each byte and
-- the NUL and nothing else; reading the digits gives the bytes.
pub bytes_to_hex_lem :
    (src : List ℕ) (dst : Buffer)
    → All (λ b. b < 256) src
    → length src * 2 < length dst
    → (bytes_to_hex src dst ≡ some (overlay dst 0 (hex_text src ++ 0 ∷ [])))
      × (length (hex_text src) ≡ length src * 2)
      × (unhex (hex_text src) ≡ src)
unfolding bytes_to_hex
bytes_to_hex_lem src dst bytes h = (
  rw (hex_loop-hex_text src dst 0 0 refl (omega arith)) (
      rw (store_in (overlay dst 0 (hex_text src)) (length src * 2) 0 (rw length-overlay h)) (
        ap some (
          overlay-append dst 0 (length src * 2) (hex_text src) (0 ∷ [])
            (omega (arith, length-hex_text src))))),
  length-hex_text src,
  unhex-hex_text src bytes,
)
