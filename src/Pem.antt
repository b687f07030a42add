-- ===== src/Pem.antt =====
-- der_to_pem of linux/src/client/rootherald_linux.c.
use sdk_native.Prelude.{
  ℕ, ◌+◌, ◌-◌, ◌*◌, ◌/◌, ◌^◌, ◌<◌, ◌≤◌, ◌≡◌, refl, ap, ◌∙◌, List, [], ◌∷◌, ◌++◌, Option, some,
  codes, length, ltb, if◌then◌else◌, ◌>>=◌, arith, ℤ, pos, minus_one, lt→ltb, le→ltb, length-append,
  append_assoc, Bool-cases, inl, inr, ltb→lt, ltb→le,
}
use sdk_native.Prelude.Bits.{u64}
use sdk_native.Memory.{Buffer, store, memcpy, overlay}
use sdk_native.Memory.Overlay.{length-overlay, overlay-append, overlay_over}
use sdk_native.Memory.Calls.{store_in, memcpy_in}
use sdk_native.Base64.{base64_encode}
use sdk_native.Base64.Encode.{encoding, length-encoding, base64_encode_fits}

pub pem_header : List ℕ
pem_header = codes "-----BEGIN CERTIFICATE-----" ++ 10 ∷ []

pub pem_footer : List ℕ
pem_footer = 10 ∷ codes "-----END CERTIFICATE-----"

abbrev pub pem_needed : ℕ → ℕ
pem_needed der_len =
    u64 (length pem_header + u64 (4 * (u64 (der_len + 2) / 3)) + length pem_footer + 1)

-- The result is the returned code and the array.
pub der_to_pem : List ℕ → Buffer → ℕ → Option (ℤ × Buffer)
der_to_pem der pem pem_len =
    let off1 = length pem_header in
    let off2 = off1 + u64 (4 * (u64 (length der + 2) / 3)) in
    if ltb pem_len (pem_needed (length der)) then some (minus_one, pem) else do
      pem1 ← memcpy pem 0 pem_header
      (n, pem2) ← base64_encode der pem1 off1 (pem_len - off1)
      pem3 ← memcpy pem2 off2 pem_footer
      pem4 ← store pem3 (off2 + length pem_footer) 0
      some (pos 0, pem4)

pub pem_text : List ℕ → List ℕ
pem_text der = pem_header ++ (encoding der ++ pem_footer)

length-pem_header : length pem_header ≡ 28
unfolding pem_header
length-pem_header = refl

length-pem_footer : length pem_footer ≡ 26
unfolding pem_footer
length-pem_footer = refl

pub length-pem_text : (der : List ℕ) → length (pem_text der) ≡ 4 * ((length der + 2) / 3) + 54
unfolding pem_text
length-pem_text der = omega (
  arith,
  length-encoding der,
  length-pem_header,
  length-pem_footer,
  length-append (encoding der) pem_footer,
  length-append pem_header (encoding der ++ pem_footer),
)

-- The four writes of the function are one.
pem_writes :
    (pem : Buffer) (s t u : List ℕ) (i j k : ℕ)
    → i ≡ length s
    → j ≡ i + length t
    → k ≡ j + length u
    → 1 ≤ length u
    → overlay (overlay (overlay (overlay pem 0 s) i (t ++ 0 ∷ [])) j u) k (0 ∷ [])
      ≡ overlay pem 0 ((s ++ (t ++ u)) ++ 0 ∷ [])
pem_writes pem s t u i j k ei ej ek h =
    overlay-append _ j k u (0 ∷ []) ek
    ∙ overlay_over (overlay pem 0 s) i j t (u ++ 0 ∷ []) ej
        (omega (arith, length-append u (0 ∷ [])))
    ∙ overlay-append pem 0 i s (t ++ (u ++ 0 ∷ [])) (omega arith)
    ∙ ap (overlay pem 0) (simp append_assoc)

pem_text_written :
    (pem : Buffer) (der : List ℕ) (j : ℕ)
    → j ≡ length pem_header + length (encoding der)
    → overlay
        (overlay
          (overlay (overlay pem 0 pem_header) (length pem_header) (encoding der ++ 0 ∷ []))
          j
          pem_footer)
        (j + length pem_footer)
        (0 ∷ [])
      ≡ overlay pem 0 (pem_text der ++ 0 ∷ [])
unfolding pem_text
pem_text_written pem der j e =
    pem_writes pem pem_header (encoding der) pem_footer (length pem_header) j
      (j + length pem_footer) refl e refl (omega (arith, length-pem_footer))

-- For fewer than 2^61 bytes and an array of at least `pem_len` cells: where the text and its NUL fit
-- in `pem_len` cells, 0 is returned and the array begins with the header line, the base64 text, the
-- footer line and a NUL; where they do not, -1 is returned and nothing is written.
pub der_to_pem_lem :
    (der : List ℕ) (pem : Buffer) (pem_len : ℕ)
    → length der < 2 ^ 61
    → pem_len ≤ length pem
    → der_to_pem der pem pem_len ≡ (
        if ltb (length (pem_text der)) pem_len
        then some (pos 0, overlay pem 0 (pem_text der ++ 0 ∷ []))
        else some (minus_one, pem))
unfolding der_to_pem
der_to_pem_lem der pem pem_len small h =
    let hl = length-pem_header in
    let fl = length-pem_footer in
    let n = length-encoding der in
    let m = length-pem_text der in
    let off1 = length pem_header in
    let off2 = off1 + u64 (4 * (u64 (length der + 2) / 3)) in
    let pem1 = overlay pem 0 pem_header in
    let pem2 = overlay pem1 off1 (encoding der ++ 0 ∷ []) in
    let pem3 = overlay pem2 off2 pem_footer in
    elim (Bool-cases (ltb (length (pem_text der)) pem_len)) [
      | inl fits ↦
          let lt = ltb→lt (length (pem_text der)) pem_len fits in
          rw (fits, le→ltb pem_len (pem_needed (length der)) (omega arith))
            (rw (memcpy_in pem 0 pem_header (omega arith)) (
              rw
                (base64_encode_fits der pem1 off1 (pem_len - off1) small (omega arith)
                  (rw length-overlay (omega arith)))
                (rw
                  (memcpy_in pem2 off2 pem_footer
                    (rw (length-overlay, length-overlay) (omega arith)))
                  (rw
                    (store_in pem3 (off2 + length pem_footer) 0
                      (rw (length-overlay, length-overlay, length-overlay) (omega arith)))
                    (ap (λ (b : Buffer). some (pos 0, b))
                      (pem_text_written pem der off2 (omega arith)))))))
      | inr tight ↦
          let le = ltb→le (length (pem_text der)) pem_len tight in
          rw (tight, lt→ltb pem_len (pem_needed (length der)) (omega arith))
    ]
