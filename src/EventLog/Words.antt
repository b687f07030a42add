-- ===== src/EventLog/Words.antt =====
-- Little-endian words: what the event log parser reads where one is written.
use sdk_native.Prelude.{
  ℕ, ◌+◌, ◌*◌, ◌/◌, ◌%◌, ◌^◌, ◌<◌, ◌≡◌, refl, ap, ◌∙◌, List, [], ◌∷◌, ◌++◌, some, arith, length,
  drop, le→ltb, length-append, bit_or,
}
use sdk_native.Prelude.Bits.{◌<<<◌, bit_or_disjoint, bit_or_comm}
use sdk_native.EventLog.Parse.{need, reads}
use sdk_native.EventLog.{got, read_u16_le, read_u32_le}

unfoldable pub write_u16_le : ℕ → List ℕ
write_u16_le v = v % 256 ∷ v / 256 ∷ []

unfoldable pub write_u32_le : ℕ → List ℕ
write_u32_le v = v % 256 ∷ v / 256 % 256 ∷ v / 65536 % 256 ∷ v / 16777216 ∷ []

or_above : (k x y : ℕ) → y < 2 ^ k → bit_or y (x <<< k) ≡ (x <<< k) + y
or_above k x y h = bit_or_comm y (x <<< k) ∙ bit_or_disjoint k x y h

pub read-write_u16_le :
    (v : ℕ) (rest : List ℕ) → v < 2 ^ 16 → read_u16_le (write_u16_le v ++ rest) 0 ≡ some v
unfolding read_u16_le write_u16_le
read-write_u16_le v rest h =
    ap some (rw (or_above 8 (v / 256) (v % 256) (omega arith)) (omega arith))

join32 :
    (a b c d : ℕ)
    → a < 256
    → b < 256
    → c < 256
    → d < 256
    → bit_or (bit_or (bit_or a (b <<< 8)) (c <<< 16)) (d <<< 24)
      ≡ a + 256 * b + 65536 * c + 16777216 * d
join32 a b c d ha hb hc hd = rw (or_above 8 b a ha) (
    rw (or_above 16 c ((b <<< 8) + a) (omega arith))
      (or_above 24 d ((c <<< 16) + ((b <<< 8) + a)) (omega arith) ∙ omega arith))

pub read-write_u32_le :
    (v : ℕ) (rest : List ℕ) → v < 2 ^ 32 → read_u32_le (write_u32_le v ++ rest) 0 ≡ some v
unfolding read_u32_le write_u32_le
read-write_u32_le v rest h = ap some (
    rw
      (join32 (v % 256) (v / 256 % 256) (v / 65536 % 256) (v / 16777216) (omega arith) (omega arith)
        (omega arith) (omega arith))
      (omega arith))

-- One after another, as the parser takes them.
pub reads_u16 :
    (v : ℕ) (rest : List ℕ) → v < 2 ^ 16 → reads (read_u16_le (write_u16_le v ++ rest) 0) ≡ got v
reads_u16 v rest h = ap reads (read-write_u16_le v rest h)

pub reads_u32 :
    (v : ℕ) (rest : List ℕ) → v < 2 ^ 32 → reads (read_u32_le (write_u32_le v ++ rest) 0) ≡ got v
reads_u32 v rest h = ap reads (read-write_u32_le v rest h)

pub need_u16 : (v : ℕ) (rest : List ℕ) → need 2 (write_u16_le v ++ rest) ≡ got tt
unfolding write_u16_le
need_u16 v rest = rw (le→ltb (length (write_u16_le v ++ rest)) 2 (omega arith)) refl

pub need_u32 : (v : ℕ) (rest : List ℕ) → need 4 (write_u32_le v ++ rest) ≡ got tt
unfolding write_u32_le
need_u32 v rest = rw (le→ltb (length (write_u32_le v ++ rest)) 4 (omega arith)) refl

pub need_all : (s rest : List ℕ) → need (length s) (s ++ rest) ≡ got tt
need_all s rest =
    rw (le→ltb (length (s ++ rest)) (length s) (omega (arith, length-append s rest))) refl

pub drop_u16 : (v : ℕ) (rest : List ℕ) → drop 2 (write_u16_le v ++ rest) ≡ rest
unfolding write_u16_le
drop_u16 v rest = refl

pub drop_u32 : (v : ℕ) (rest : List ℕ) → drop 4 (write_u32_le v ++ rest) ≡ rest
unfolding write_u32_le
drop_u32 v rest = refl
