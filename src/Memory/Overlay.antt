-- ===== src/Memory/Overlay.antt =====
-- Laws of `overlay`.
use sdk_native.Prelude.{
  ℕ, zero, suc, ◌+◌, ◌≤◌, ◌≡◌, refl, ap, List, [], ◌∷◌, ◌++◌, length, arith, drop,
}
use sdk_native.Memory.{Buffer, overlay}

pub length-overlay : (buf : Buffer) (i : ℕ) (s : List ℕ) → length (overlay buf i s) ≡ length buf
unfolding overlay
length-overlay [] i s = refl
length-overlay (x ∷ xs) (suc i) s = ap suc (length-overlay xs i s)
length-overlay (x ∷ xs) zero [] = refl
length-overlay (x ∷ xs) zero (v ∷ s) = ap suc (length-overlay xs zero s)

pub overlay-nil : (buf : Buffer) (i : ℕ) → overlay buf i [] ≡ buf
unfolding overlay
overlay-nil [] i = refl
overlay-nil (x ∷ xs) (suc i) = ap (λ t. x ∷ t) (overlay-nil xs i)
overlay-nil (x ∷ xs) zero = refl

-- Two writes, one right after the other, are one.
pub overlay-append :
    (buf : Buffer) (i j : ℕ) (s t : List ℕ)
    → j ≡ i + length s
    → overlay (overlay buf i s) j t ≡ overlay buf i (s ++ t)
unfolding overlay
overlay-append [] i j s t e = refl
overlay-append (x ∷ xs) (suc i) zero s t e = absurd (omega arith)
overlay-append (x ∷ xs) (suc i) (suc j) s t e =
    ap (λ r. x ∷ r) (overlay-append xs i j s t (omega arith))
overlay-append (x ∷ xs) zero zero [] t e = refl
overlay-append (x ∷ xs) zero (suc j) [] t e = absurd (omega arith)
overlay-append (x ∷ xs) zero zero (v ∷ s) t e = absurd (omega arith)
overlay-append (x ∷ xs) zero (suc j) (v ∷ s) t e =
    ap (λ r. v ∷ r) (overlay-append xs zero j s t (omega arith))

-- A write from inside of the last one replaces the rest of it: the NUL that each step leaves.
pub overlay_replace :
    (buf : Buffer) (i j : ℕ) (s : List ℕ) (c : ℕ) (t : List ℕ) (d : ℕ)
    → j ≡ i + length s
    → overlay (overlay buf i (s ++ c ∷ [])) j (d ∷ t) ≡ overlay buf i (s ++ d ∷ t)
unfolding overlay
overlay_replace [] i j s c t d e = refl
overlay_replace (x ∷ xs) (suc i) zero s c t d e = absurd (omega arith)
overlay_replace (x ∷ xs) (suc i) (suc j) s c t d e =
    ap (λ r. x ∷ r) (overlay_replace xs i j s c t d (omega arith))
overlay_replace (x ∷ []) zero zero [] c t d e = refl
overlay_replace (x ∷ y ∷ xs) zero zero [] c t d e = refl
overlay_replace (x ∷ xs) zero (suc j) [] c t d e = absurd (omega arith)
overlay_replace (x ∷ xs) zero zero (v ∷ s) c t d e = absurd (omega arith)
overlay_replace (x ∷ xs) zero (suc j) (v ∷ s) c t d e =
    ap (λ r. v ∷ r) (overlay_replace xs zero j s c t d (omega arith))

-- The first `length s` cells of a buffer into which `s` was written at 0.
pub overlay_front :
    (buf : Buffer) (s : List ℕ) → length s ≤ length buf → overlay buf 0 s ≡ s ++ drop (length s) buf
unfolding overlay
overlay_front [] [] h = refl
overlay_front [] (v ∷ s) h = absurd (omega arith)
overlay_front (x ∷ xs) [] h = refl
overlay_front (x ∷ xs) (v ∷ s) h = ap (λ r. v ∷ r) (overlay_front xs s (omega arith))

-- The same for any text that is not empty.
pub overlay_over :
    (buf : Buffer) (i j : ℕ) (s t : List ℕ)
    → j ≡ i + length s
    → 1 ≤ length t
    → overlay (overlay buf i (s ++ 0 ∷ [])) j t ≡ overlay buf i (s ++ t)
overlay_over buf i j s [] e h = absurd (omega arith)
overlay_over buf i j s (d ∷ t) e h = overlay_replace buf i j s 0 t d e
