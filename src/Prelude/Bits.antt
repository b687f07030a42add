-- ===== src/Prelude/Bits.antt =====
-- Shifts, masks and `|` on words as arithmetic, from the digit recursion of the native operations.
use Prim.Native.Nat.{
  ℕ, zero, suc, ◌+◌, ◌*◌, ◌/◌, ◌%◌, ◌^◌, ◌≤◌, ◌<◌, min, max, bit_and, bit_or, digits,
  bit_and-bitwise, bit_or-bitwise,
}
use mathlib.Core.Bool.{Bool, true, ◌&&◌}
use mathlib.Core.Path.{◌≡◌, refl, ap, sym, ◌∙◌}
use native.Mathlib.Nat.{pow-suc}
use native.Mathlib.Decide.{dec_lt}
use native.Mathlib.Omega.{arith}

infixl 70 ◌<<<◌ ◌>>>◌
abbrev pub ◌<<<◌ : ℕ → ℕ → ℕ
x <<< k = x * 2 ^ k

abbrev pub ◌>>>◌ : ℕ → ℕ → ℕ
x >>> k = x / 2 ^ k

abbrev pub u8 : ℕ → ℕ
u8 x = x % 2 ^ 8

abbrev pub u16 : ℕ → ℕ
u16 x = x % 2 ^ 16

abbrev pub u32 : ℕ → ℕ
u32 x = x % 2 ^ 32

abbrev pub u64 : ℕ → ℕ
u64 x = x % 2 ^ 64

abbrev pub u64_mod : ℕ
u64_mod = 2 ^ 64

-- Both operations go through the binary digits of the first number; what is left is the rest of it.
module _ (rest : ℕ → ℕ) (op : ℕ → ℕ → ℕ) where
  rounds : (a b n m : ℕ) → (a ≤ n) × (a ≤ m) → digits rest op n a b ≡ digits rest op m a b
  rounds zero b zero zero h = refl
  rounds zero b zero (suc m) h = refl
  rounds zero b (suc n) zero h = refl
  rounds zero b (suc n) (suc m) h = refl
  rounds (suc a) b zero m h = absurd (omega (arith, h.0))
  rounds (suc a) b (suc n) zero h = absurd (omega (arith, h.1))
  rounds (suc a) b (suc n) (suc m) h =
      ap (λ t. t * 2 + op (suc a % 2) (b % 2))
        (rounds (suc a / 2) (b / 2) n m (omega (arith, h.0), omega (arith, h.1)))

  unroll :
      (a b : ℕ)
      → digits rest op (suc a) (suc a) b
        ≡ digits rest op (suc a / 2) (suc a / 2) (b / 2) * 2 + op (suc a % 2) (b % 2)
  unroll a b =
      ap (λ t. t * 2 + op (suc a % 2) (b % 2))
        (rounds (suc a / 2) (b / 2) a (suc a / 2) (omega arith, omega arith))

left_zero : (b : ℕ) → (bit_and 0 b ≡ 0) × (bit_or 0 b ≡ b)
left_zero b = (bit_and-bitwise 0 b, bit_or-bitwise 0 b)

pub bit_and_step : (a b : ℕ) → bit_and a b ≡ bit_and (a / 2) (b / 2) * 2 + min (a % 2) (b % 2)
bit_and_step zero b = omega (arith, (left_zero b).0, (left_zero (b / 2)).0)
bit_and_step (suc a) b =
    bit_and-bitwise (suc a) b
    ∙ unroll (λ c. zero) min a b
    ∙ ap (λ t. t * 2 + min (suc a % 2) (b % 2)) (sym (bit_and-bitwise (suc a / 2) (b / 2)))

pub bit_or_step : (a b : ℕ) → bit_or a b ≡ bit_or (a / 2) (b / 2) * 2 + max (a % 2) (b % 2)
bit_or_step zero b = omega (arith, (left_zero b).1, (left_zero (b / 2)).1)
bit_or_step (suc a) b =
    bit_or-bitwise (suc a) b
    ∙ unroll (λ c. c) max a b
    ∙ ap (λ t. t * 2 + max (suc a % 2) (b % 2)) (sym (bit_or-bitwise (suc a / 2) (b / 2)))

right_zero : (bound a : ℕ) → a ≤ bound → (bit_and a 0 ≡ 0) × (bit_or a 0 ≡ a)
right_zero zero a small = rw (none_below a small) (refl, refl)
  where
    none_below : (a : ℕ) → a ≤ 0 → a ≡ 0
    none_below a small = omega arith
right_zero (suc bound) a small = elim (dec_lt 0 a) [
  | no tiny ↦ right_zero bound a (omega arith)
  | yes some_digit ↦
      let half = right_zero bound (a / 2) (omega arith) in
      (omega (arith, bit_and_step a 0, half.0), omega (arith, bit_or_step a 0, half.1))
]

pub bit_and-zero : (a : ℕ) → bit_and a 0 ≡ 0
bit_and-zero a = (right_zero a a (omega arith)).0

pub bit_or-zero : (a : ℕ) → bit_or a 0 ≡ a
bit_or-zero a = (right_zero a a (omega arith)).1

-- A mask of ones takes the low digits.
pub bit_and_one : (a : ℕ) → bit_and a 1 ≡ a % 2
bit_and_one a = omega (arith, bit_and_step a 1, bit_and-zero (a / 2))

pub bit_and_3 : (a : ℕ) → bit_and a 0x3 ≡ a % 4
bit_and_3 a = omega (arith, bit_and_step a 0x3, bit_and_one (a / 2))

pub bit_and_7 : (a : ℕ) → bit_and a 0x7 ≡ a % 8
bit_and_7 a = omega (arith, bit_and_step a 0x7, bit_and_3 (a / 2))

pub bit_and_0f : (a : ℕ) → bit_and a 0x0f ≡ a % 16
bit_and_0f a = omega (arith, bit_and_step a 0x0f, bit_and_7 (a / 2))

pub bit_and_1f : (a : ℕ) → bit_and a 0x1f ≡ a % 32
bit_and_1f a = omega (arith, bit_and_step a 0x1f, bit_and_0f (a / 2))

pub bit_and_3f : (a : ℕ) → bit_and a 0x3f ≡ a % 64
bit_and_3f a = omega (arith, bit_and_step a 0x3f, bit_and_1f (a / 2))

pub bit_and_7f : (a : ℕ) → bit_and a 0x7f ≡ a % 128
bit_and_7f a = omega (arith, bit_and_step a 0x7f, bit_and_3f (a / 2))

pub bit_and_ff : (a : ℕ) → bit_and a 0xff ≡ a % 256
bit_and_ff a = omega (arith, bit_and_step a 0xff, bit_and_7f (a / 2))

shift_suc : (k x : ℕ) → x * 2 ^ suc k ≡ x * 2 ^ k * 2
shift_suc k x = omega (arith, ap (λ (t : ℕ). x * t) (pow-suc 2 k))

shift_halves : (k x : ℕ) → (x * 2 ^ suc k / 2 ≡ x * 2 ^ k) × (x * 2 ^ suc k % 2 ≡ 0)
shift_halves k x = rw (shift_suc k x) (omega arith)

-- `|` of a shifted word and a word that fits below it is their sum.
pub bit_or_disjoint : (k x y : ℕ) → y < 2 ^ k → bit_or (x <<< k) y ≡ (x <<< k) + y
bit_or_disjoint zero x zero h = omega (arith, bit_or-zero (x * 2 ^ 0))
bit_or_disjoint zero x (suc y) h = absurd (omega arith)
bit_or_disjoint (suc k) x y h = omega (
  arith,
  bit_or_step (x * 2 ^ suc k) y,
  shift_suc k x,
  ap (λ (t : ℕ). bit_or t (y / 2)) (shift_halves k x).0,
  shift_halves k x,
  bit_or_disjoint k x (y / 2) (omega (arith, pow-suc 2 k)),
)

-- A test of all numbers below a bound, from the greatest down, and what it tells of one of them.
unfoldable pub all_below : ℕ → (ℕ → Bool) → Bool
all_below zero test = true
all_below (suc bound) test = test bound && all_below bound test

pub all_below_sound :
    (bound : ℕ) (test : ℕ → Bool) (i : ℕ) → all_below bound test ≡ true → i < bound → test i ≡ true
unfolding all_below
all_below_sound zero test i passed inside = absurd (omega arith)
all_below_sound (suc bound) test i passed inside = ground (
  arith,
  λ (below : i < bound) (others : all_below bound test ≡ true).
      all_below_sound bound test i others below,
)

or_comm_below : (bound a b : ℕ) → a ≤ bound → bit_or a b ≡ bit_or b a
or_comm_below zero a b h = rw (none_left a h) ((left_zero b).1 ∙ sym (bit_or-zero b))
  where
    none_left : (a : ℕ) → a ≤ 0 → a ≡ 0
    none_left a small = omega arith
or_comm_below (suc bound) a b h = elim (dec_lt 0 a) [
  | no tiny ↦ or_comm_below bound a b (omega arith)
  | yes some_digit ↦
      omega
        (arith, bit_or_step a b, bit_or_step b a, or_comm_below bound (a / 2) (b / 2) (omega arith))
]

pub bit_or_comm : (a b : ℕ) → bit_or a b ≡ bit_or b a
bit_or_comm a b = or_comm_below a a b (omega arith)
