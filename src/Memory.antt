-- ===== src/Memory.antt =====
-- The memory that the C functions write to. A buffer is the list of its cells, one number a byte,
-- and an access outside of it is a fault, `none`. A pointer to a NUL-terminated text that is only
-- read is the list of its bytes without the NUL, so a pointer that moves along it is a suffix.
-- Here are the library calls that the code makes on such buffers: memcpy, snprintf, strncpy.
pub mod Overlay
pub mod Calls
pub mod Cells
use sdk_native.Prelude.{
  ℕ, zero, suc, ◌+◌, ◌-◌, ◌<◌, ◌≡◌, List, [], ◌∷◌, ◌++◌, Option, none, some, ltb, ◌==◌, length,
  take, drop, codes, min, if◌then◌else◌, ◌>>=◌,
}

abbrev pub Buffer : Type 0
Buffer = List ℕ

-- `buf[i] = v`
unfoldable pub store : Buffer → ℕ → ℕ → Option Buffer
store [] i v = none
store (x ∷ xs) zero v = some (v ∷ xs)
store (x ∷ xs) (suc i) v = do ys ← store xs i v; some (x ∷ ys)

-- `memcpy(buf + i, src, len)` for the `len` bytes of `src`
unfoldable pub memcpy : Buffer → ℕ → List ℕ → Option Buffer
memcpy buf i [] = some buf
memcpy buf i (v ∷ src) = do buf' ← store buf i v; memcpy buf' (i + 1) src

-- The text that starts at cell `i`; a text with no NUL in the buffer is a fault.
unfoldable pub text_at : Buffer → ℕ → Option (List ℕ)
text_at [] i = none
text_at (x ∷ xs) (suc i) = text_at xs i
text_at (x ∷ xs) zero =
    let rest = text_at xs zero in if x == 0 then some [] else do s ← rest; some (x ∷ s)

-- What `buf` is with `s` written from cell `i` on, as far as the buffer goes.
pub overlay : Buffer → ℕ → List ℕ → Buffer
overlay [] i s = []
overlay (x ∷ xs) (suc i) s = x ∷ overlay xs i s
overlay (x ∷ xs) zero [] = x ∷ xs
overlay (x ∷ xs) zero (v ∷ s) = v ∷ overlay xs zero s

-- `snprintf(buf + i, size, ...)` of a text that is already put together: at most `size - 1` bytes
-- of it and a NUL, and nothing at all where `size` is 0. The result is the text's whole length; a
-- negative result (a text of 2^31 bytes or more) does not occur in the calls that are modelled.
unfoldable pub snprintf : Buffer → ℕ → ℕ → List ℕ → Option Buffer
unfolding memcpy
snprintf buf i zero s = some buf
snprintf buf i (suc n) s = memcpy buf i (take n s ++ 0 ∷ [])

-- `strncpy(buf, s, n)`: the bytes of `s`, then NULs up to `n` cells.
zeros : ℕ → List ℕ
zeros zero = []
zeros (suc n) = 0 ∷ zeros n

unfoldable pub strncpy : Buffer → List ℕ → ℕ → Option Buffer
unfolding memcpy zeros
strncpy buf s n = memcpy buf 0 (take n s ++ zeros (n - length s))
