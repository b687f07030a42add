-- ===== src/Memory/Calls.antt =====
-- What the library calls do to a buffer: an overlay where they stay inside, a fault elsewhere.
use sdk_native.Prelude.{
  ℕ, zero, suc, ◌+◌, ◌<◌, ◌≤◌, ◌≡◌, refl, ap, ◌∙◌, Option, List, [], ◌∷◌, ◌++◌, none, some, length,
  arith, ◌>>=◌, All, ◌≢◌, length-append, length-take, take, take_all,
}
use sdk_native.Memory.{Buffer, store, memcpy, overlay, text_at, snprintf}
use native.Mathlib.Decide.{dec_lt}
use sdk_native.Memory.Overlay.{length-overlay, overlay-nil, overlay-append}

-- A size and a buffer, returned.
pub result_eq :
    {n m : ℕ} {d e : Buffer}
    → n ≡ m
    → d ≡ e
    → ◌≡◌ {A = Option (ℕ × Buffer)} (some (n, d)) (some (m, e))
result_eq p q = cc

pub store_in :
    (buf : Buffer) (i v : ℕ) → i < length buf → store buf i v ≡ some (overlay buf i (v ∷ []))
unfolding store overlay
store_in [] i v h = absurd (omega arith)
store_in (x ∷ []) zero v h = refl
store_in (x ∷ y ∷ xs) zero v h = refl
store_in (x ∷ xs) (suc i) v h = ap (λ o. o >>= λ ys. some (x ∷ ys)) (store_in xs i v (omega arith))

pub store_out : (buf : Buffer) (i v : ℕ) → length buf ≤ i → store buf i v ≡ none
unfolding store
store_out [] i v h = refl
store_out (x ∷ xs) zero v h = absurd (omega arith)
store_out (x ∷ xs) (suc i) v h =
    ap (λ o. o >>= λ ys. some (x ∷ ys)) (store_out xs i v (omega arith))

pub memcpy_in :
    (buf : Buffer) (i : ℕ) (src : List ℕ)
    → i + length src ≤ length buf
    → memcpy buf i src ≡ some (overlay buf i src)
unfolding memcpy
memcpy_in buf i [] h = rw overlay-nil
memcpy_in buf i (v ∷ src) h = rw (store_in buf i v (omega arith)) (
    memcpy_in (overlay buf i (v ∷ [])) (i + 1) src (rw length-overlay (omega arith))
    ∙ ap some (overlay-append buf i (i + 1) (v ∷ []) src refl))

-- A copy that runs past the end is a fault.
pub memcpy_out :
    (buf : Buffer) (i : ℕ) (v : ℕ) (src : List ℕ)
    → length buf < i + length (v ∷ src)
    → memcpy buf i (v ∷ src) ≡ none
unfolding memcpy
memcpy_out buf i v [] h = rw (store_out buf i v (omega arith))
memcpy_out buf i v (w ∷ src) h = elim (dec_lt i (length buf)) [
  | yes p ↦
      rw (store_in buf i v p)
        (memcpy_out (overlay buf i (v ∷ [])) (i + 1) w src (rw length-overlay (omega arith)))
  | no p ↦ rw (store_out buf i v (omega arith))
]

pub snprintf_in :
    (buf : Buffer) (i size : ℕ) (s : List ℕ)
    → length s < size
    → i + length s < length buf
    → snprintf buf i size s ≡ some (overlay buf i (s ++ 0 ∷ []))
unfolding snprintf
snprintf_in buf i zero s h k = absurd (omega arith)
snprintf_in buf i (suc n) s h k =
    rw (take_all n s (omega arith)) (memcpy_in buf i (s ++ 0 ∷ []) (rw length-append (omega arith)))

-- A text that is too long for `size` is cut.
pub snprintf_cut :
    (buf : Buffer) (i n : ℕ) (s : List ℕ)
    → i + suc n ≤ length buf
    → snprintf buf i (suc n) s ≡ some (overlay buf i (take n s ++ 0 ∷ []))
unfolding snprintf
snprintf_cut buf i n s h =
    memcpy_in buf i (take n s ++ 0 ∷ [])
      (omega (arith, length-append (take n s) (0 ∷ []), length-take n s))

-- The text that was written is read back, if no byte of it is the NUL.
pub text_at-overlay :
    (buf : Buffer) (i : ℕ) (s : List ℕ)
    → All (λ c. c ≢ 0) s
    → i + length s < length buf
    → text_at (overlay buf i (s ++ 0 ∷ [])) i ≡ some s
unfolding text_at overlay
text_at-overlay [] i s h k = absurd (omega arith)
text_at-overlay (x ∷ xs) (suc i) s h k = text_at-overlay xs i s h (omega arith)
text_at-overlay (x ∷ xs) zero [] h k = refl
text_at-overlay (x ∷ xs) zero (v ∷ s) h k = ground (arith, text_at-overlay xs zero s h.1, h.0)
