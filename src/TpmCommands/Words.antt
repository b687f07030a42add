-- ===== src/TpmCommands/Words.antt =====
-- Big-endian words of commands and responses: where they are read inside of a response, and what is
-- read where one was written.
use sdk_native.Prelude.{
  ℕ, ◌+◌, ◌*◌, ◌/◌, ◌%◌, ◌^◌, ◌≤◌, ◌<◌, ◌≡◌, refl, ap, sym, ◌∙◌, List, ◌++◌, Bool, true, false,
  Option, some, length, take, drop, ltb, bit_or, arith, Inside, get_elem?-inside, get_elem?-append,
  Inside-test, Bool-cases, inl, inr, append_assoc, length-append, le→ltb, ltb→le, take_append,
  drop_append,
}
use sdk_native.Prelude.Bits.{◌<<<◌, bit_or_disjoint, bit_and_ff}
use sdk_native.TpmCommands.{write_u16, write_u32, read_u16, read_u32, slice, is_success}

pub read_u16-Inside : (p : List ℕ) (i : ℕ) → i + 2 ≤ length p → Inside (read_u16 p i)
unfolding read_u16
read_u16-Inside p i h =
    let (a, ea) = get_elem?-inside p i (omega arith) in
    let (b, eb) = get_elem?-inside p (i + 1) (omega arith) in rw ea (rw eb (_, refl))

pub read_u32-Inside : (p : List ℕ) (i : ℕ) → i + 4 ≤ length p → Inside (read_u32 p i)
unfolding read_u32
read_u32-Inside p i h =
    let (a, ea) = get_elem?-inside p i (omega arith) in
    let (b, eb) = get_elem?-inside p (i + 1) (omega arith) in
    let (c, ec) = get_elem?-inside p (i + 2) (omega arith) in
    let (d, ed) = get_elem?-inside p (i + 3) (omega arith) in
    rw ea (rw eb (rw ec (rw ed (_, refl))))

pub slice-Inside :
    (p : List ℕ) (first count : ℕ) → first + count ≤ length p → Inside (slice p first count)
unfolding slice
slice-Inside p first count h = rw (le→ltb (length p) (first + count) h) (_, refl)

pub is_success-Inside : (n : ℕ) (resp : List ℕ) → 10 ≤ n → Inside (is_success n resp)
unfolding is_success
is_success-Inside n resp h =
    Inside-test (ltb (length resp) n) (λ short. (_, refl))
      λ fits.
        let room = ltb→le (length resp) n fits in
        let (rc, e) = read_u32-Inside resp 6 (omega arith) in rw e (_, refl)

-- A success is told by a response of that length.
pub is_success-length : (n : ℕ) (resp : List ℕ) → is_success n resp ≡ some true → n ≤ length resp
unfolding is_success
is_success-length n resp h = elim (Bool-cases (ltb (length resp) n)) [
  | inl short ↦ absurd (never (rw short at h))
  | inr fits ↦ ltb→le (length resp) n fits
]
  where
    never : ◌≡◌ {A = Option Bool} (some false) (some true) → ⊥
    never e = cc

join16 : (a b : ℕ) → b < 256 → bit_or (a <<< 8) b ≡ 256 * a + b
join16 a b h = bit_or_disjoint 8 a b h ∙ omega arith

pub read-write_u16 :
    (v : ℕ) (rest : List ℕ) → v < 2 ^ 16 → read_u16 (write_u16 v ++ rest) 0 ≡ some v
unfolding read_u16 write_u16
read-write_u16 v rest h =
    ap some (simp bit_and_ff (join16 (v / 256 % 256) (v % 256) (omega arith) ∙ omega arith))

or_join : (k x y z : ℕ) → y < 2 ^ k → z ≡ x * 2 ^ k → bit_or z y ≡ z + y
or_join k x y z h e = rw e (bit_or_disjoint k x y h)

join32 :
    (a b c d : ℕ)
    → b < 256
    → c < 256
    → d < 256
    → bit_or (bit_or (bit_or (a <<< 24) (b <<< 16)) (c <<< 8)) d
      ≡ 16777216 * a + 65536 * b + 256 * c + d
join32 a b c d hb hc hd = rw (or_join 24 a (b <<< 16) (a <<< 24) (omega arith) refl) (
    rw (or_join 16 (a * 256 + b) (c <<< 8) ((a <<< 24) + (b <<< 16)) (omega arith) (omega arith))
      (or_join 8 (a * 65536 + b * 256 + c) d _ hd (omega arith) ∙ omega arith))

pub read-write_u32 :
    (v : ℕ) (rest : List ℕ) → v < 2 ^ 32 → read_u32 (write_u32 v ++ rest) 0 ≡ some v
unfolding read_u32 write_u32
read-write_u32 v rest h = ap some (
    simp bit_and_ff (
      join32 (v / 16777216 % 256) (v / 65536 % 256) (v / 256 % 256) (v % 256) (omega arith)
        (omega arith) (omega arith)
      ∙ omega arith))

read_u16_after : (xs p : List ℕ) (i : ℕ) → i ≡ length xs → read_u16 (xs ++ p) i ≡ read_u16 p 0
unfolding read_u16
read_u16_after xs p i e =
    rw (get_elem?-append xs p i 0 i e (omega arith))
      (rw (get_elem?-append xs p i (0 + 1) (i + 1) e (omega arith)) refl)

read_u32_after : (xs p : List ℕ) (i : ℕ) → i ≡ length xs → read_u32 (xs ++ p) i ≡ read_u32 p 0
unfolding read_u32
read_u32_after xs p i e = rw (get_elem?-append xs p i 0 i e (omega arith)) (
    rw (get_elem?-append xs p i (0 + 1) (i + 1) e (omega arith)) (
      rw (get_elem?-append xs p i (0 + 2) (i + 2) e (omega arith))
        (rw (get_elem?-append xs p i (0 + 3) (i + 3) e (omega arith)) refl)))

-- The word that stands in a response after `xs`.
pub u16_at :
    (xs : List ℕ) (v : ℕ) (rest : List ℕ) (i : ℕ)
    → i ≡ length xs
    → v < 2 ^ 16
    → read_u16 (xs ++ (write_u16 v ++ rest)) i ≡ some v
u16_at xs v rest i e h = read_u16_after xs (write_u16 v ++ rest) i e ∙ read-write_u16 v rest h

pub u32_at :
    (xs : List ℕ) (v : ℕ) (rest : List ℕ) (i : ℕ)
    → i ≡ length xs
    → v < 2 ^ 32
    → read_u32 (xs ++ (write_u32 v ++ rest)) i ≡ some v
u32_at xs v rest i e h = read_u32_after xs (write_u32 v ++ rest) i e ∙ read-write_u32 v rest h

pub length-write_u16 : (v : ℕ) → length (write_u16 v) ≡ 2
unfolding write_u16
length-write_u16 v = refl

pub length-write_u32 : (v : ℕ) → length (write_u32 v) ≡ 4
unfolding write_u32
length-write_u32 v = refl

-- The bytes that stand in a response after `xs`.
pub slice_at :
    (xs s rest : List ℕ) (i : ℕ) → i ≡ length xs → slice (xs ++ (s ++ rest)) i (length s) ≡ some s
unfolding slice
slice_at xs s rest i e =
    let fits = length-append xs (s ++ rest) in
    let more = length-append s rest in
    rw (le→ltb (length (xs ++ (s ++ rest))) (i + length s) (omega arith)) (
      ap some (
        ap (take (length s)) (ap (λ k. drop k (xs ++ (s ++ rest))) e ∙ drop_append xs (s ++ rest))
        ∙ take_append s rest))

-- The beginning of a response that tells a success: tag and size, and the code.
pub success : List ℕ → List ℕ → List ℕ
success head body = head ++ (write_u32 0 ++ body)

pub success-is_success :
    (n : ℕ) (head body : List ℕ)
    → length head ≡ 6
    → n ≤ 10 + length body
    → is_success n (success head body) ≡ some true
unfolding is_success success
success-is_success n head body h k =
    let size = length-append head (write_u32 0 ++ body) in
    let size' = length-append (write_u32 0) body in
    rw
      (le→ltb (length (head ++ (write_u32 0 ++ body))) n
        (omega (arith, size, size', length-write_u32 0)))
      (rw (u32_at head 0 body 6 (omega arith) (omega arith)) refl)

pub length-success :
    (head body : List ℕ) → length head ≡ 6 → length (success head body) ≡ 10 + length body
unfolding success
length-success head body h = omega (
  arith,
  h,
  length-append head (write_u32 0 ++ body),
  length-append (write_u32 0) body,
  length-write_u32 0,
)

pub success_split :
    (head before rest : List ℕ)
    → success head (before ++ rest) ≡ (head ++ (write_u32 0 ++ before)) ++ rest
unfolding success
success_split head before rest =
    ap (λ t. head ++ t) (sym (append_assoc (write_u32 0) before rest))
    ∙ sym (append_assoc head (write_u32 0 ++ before) rest)

pub length-before :
    (head before : List ℕ)
    → length head ≡ 6
    → length (head ++ (write_u32 0 ++ before)) ≡ 10 + length before
length-before head before h = omega (
  arith,
  h,
  length-append head (write_u32 0 ++ before),
  length-append (write_u32 0) before,
  length-write_u32 0,
)

-- The word and the bytes of a successful response that stand in its body after `before`.
pub u16_in :
    (head before : List ℕ) (v : ℕ) (rest : List ℕ) (i : ℕ)
    → length head ≡ 6
    → i ≡ 10 + length before
    → v < 2 ^ 16
    → read_u16 (success head (before ++ (write_u16 v ++ rest))) i ≡ some v
u16_in head before v rest i h e small =
    ap (λ r. read_u16 r i) (success_split head before (write_u16 v ++ rest))
    ∙ u16_at (head ++ (write_u32 0 ++ before)) v rest i (omega (arith, length-before head before h))
        small

pub u32_in :
    (head before : List ℕ) (v : ℕ) (rest : List ℕ) (i : ℕ)
    → length head ≡ 6
    → i ≡ 10 + length before
    → v < 2 ^ 32
    → read_u32 (success head (before ++ (write_u32 v ++ rest))) i ≡ some v
u32_in head before v rest i h e small =
    ap (λ r. read_u32 r i) (success_split head before (write_u32 v ++ rest))
    ∙ u32_at (head ++ (write_u32 0 ++ before)) v rest i (omega (arith, length-before head before h))
        small

pub slice_in :
    (head before s rest : List ℕ) (i : ℕ)
    → length head ≡ 6
    → i ≡ 10 + length before
    → slice (success head (before ++ (s ++ rest))) i (length s) ≡ some s
slice_in head before s rest i h e =
    ap (λ r. slice r i (length s)) (success_split head before (s ++ rest))
    ∙ slice_at (head ++ (write_u32 0 ++ before)) s rest i
        (omega (arith, length-before head before h))
