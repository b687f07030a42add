-- ===== src/Memory/Cells.antt =====
-- One cell of a buffer that a text was written into.
use sdk_native.Prelude.{
  ℕ, zero, suc, ◌<◌, ◌≡◌, ◌≢◌, refl, ap, List, [], ◌∷◌, ◌++◌, some, length, get_or, arith, All,
}
use sdk_native.Memory.{Buffer, overlay, text_at}
use sdk_native.Memory.Overlay.{overlay-nil}

pub overlay_at :
    (buf : Buffer) (t zs : List ℕ) (c d n : ℕ)
    → n ≡ length t
    → overlay (overlay buf 0 (t ++ c ∷ zs)) n (d ∷ []) ≡ overlay buf 0 (t ++ d ∷ zs)
unfolding overlay
overlay_at [] t zs c d n e = refl
overlay_at (x ∷ buf) [] zs c d zero e = ap (λ r. d ∷ r) (overlay-nil (overlay buf 0 zs) 0)
overlay_at (x ∷ buf) [] zs c d (suc n) e = absurd (omega arith)
overlay_at (x ∷ buf) (y ∷ t) zs c d zero e = absurd (omega arith)
overlay_at (x ∷ buf) (y ∷ t) zs c d (suc n) e =
    ap (λ r. y ∷ r) (overlay_at buf t zs c d n (omega arith))

pub get_or-overlay :
    (buf : Buffer) (t zs : List ℕ) (c n : ℕ)
    → n ≡ length t
    → n < length buf
    → get_or (overlay buf 0 (t ++ c ∷ zs)) n 0 ≡ c
unfolding overlay
get_or-overlay [] t zs c n e h = absurd (omega arith)
get_or-overlay (x ∷ buf) [] zs c zero e h = refl
get_or-overlay (x ∷ buf) [] zs c (suc n) e h = absurd (omega arith)
get_or-overlay (x ∷ buf) (y ∷ t) zs c zero e h = absurd (omega arith)
get_or-overlay (x ∷ buf) (y ∷ t) zs c (suc n) e h =
    get_or-overlay buf t zs c n (omega arith) (omega arith)

pub text_at-zeros :
    (buf : Buffer) (s zs : List ℕ)
    → All (λ c. c ≢ 0) s
    → length s < length buf
    → text_at (overlay buf 0 (s ++ 0 ∷ zs)) 0 ≡ some s
unfolding overlay text_at
text_at-zeros [] s zs h k = absurd (omega arith)
text_at-zeros (x ∷ xs) [] zs h k = refl
text_at-zeros (x ∷ xs) (v ∷ s) zs h k = ground (arith, text_at-zeros xs s zs h.1, h.0)
