-- ===== src/Host/Texts.antt =====
-- Texts in the arrays of linux/native_host/native_host.c and linux/src/client/rootherald_linux.c.
use sdk_native.Prelude.{
  ℕ, zero, suc, ◌≡◌, ◌≢◌, [], ◌∷◌, false, ◌==◌, arith, Ends, gives, Ends-test, fails, Ends-from,
  Ends-at,
}
use sdk_native.Memory.{Buffer, text_at}
use sdk_native.Host.Object.{IsText}

not_nul : (x : ℕ) → (x == 0) ≡ false → x ≢ 0
not_nul x h e = ground arith

-- A text that is read from an array holds no NUL.
pub text_at-IsText : (buf : Buffer) (i : ℕ) → Ends IsText (text_at buf i)
unfolding text_at
text_at-IsText [] i = fails
text_at-IsText (x ∷ xs) (suc i) = text_at-IsText xs i
text_at-IsText (x ∷ xs) zero =
    Ends-test (x == 0) (λ _. gives tt)
      λ h.
        Ends-from (text_at xs zero) _
          λ s e. gives (not_nul x h, Ends-at IsText (text_at-IsText xs zero) e)
