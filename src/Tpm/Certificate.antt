-- ===== src/Tpm/Certificate.antt =====
-- tpm_read_ek_cert of linux/src/tpm/tpm_esapi.c: the EK certificate, read from NV piece by piece.
use sdk_native.Prelude.{
  ℕ, zero, suc, ◌+◌, ◌-◌, ◌^◌, ◌<◌, ◌≤◌, ◌≡◌, refl, ap, ◌∙◌, sym, List, [], ◌∷◌, ◌++◌, Bool, true,
  false, Option, none, some, length, take, drop, min, ltb, if◌then◌else◌, ◌>>=◌, pos, minus_one,
  arith, Bool-cases, inl, inr, ltb→lt, lt→ltb, le→ltb, ltb→le, length-take, length-drop, take_all,
  take_nil,
}
use sdk_native.Prelude.Bits.{u16}
use sdk_native.Memory.{Buffer, memcpy, overlay}
use sdk_native.Memory.Overlay.{length-overlay, overlay-append, overlay-nil}
use sdk_native.Memory.Calls.{memcpy_in}
use sdk_native.Tpm.{Esys, Output, World}
use sdk_native.Tpm.Keys.{failed}

abbrev pub ek_cert_nv_index : ℕ
ek_cert_nv_index = 0x01C00002

-- The size of the next piece, in 16 bits.
nv_chunk : Esys → ℕ → ℕ → ℕ
nv_chunk esys nv_size offset =
    let chunk = u16 (nv_size + 2 ^ 16 - u16 offset) in
    if ltb esys.max_nv_buffer_size chunk then esys.max_nv_buffer_size else chunk

module _ (esys : Esys) where
  -- The loop. It ends when `nv_size` bytes were read; a device that gives no bytes makes it run for
  -- ever, so it is on fuel, and `none` is also the lack of it. The result is `none` inside where a
  -- read failed.
  pub nv_loop : ℕ → ℕ → ℕ → ℕ → Buffer → esys.Dev → Option (Bool × Buffer × esys.Dev)
  nv_loop zero handle nv_size offset out_cert dev = none
  nv_loop (suc fuel) handle nv_size offset out_cert dev =
      if ltb offset nv_size
      then (let (result, dev') =
            esys.nv_read handle (nv_chunk esys nv_size offset) (u16 offset) dev in
          elim result [
            | none ↦ some (false, out_cert, dev')
            | some bytes ↦ do
              out_cert' ← memcpy out_cert offset bytes
              nv_loop fuel handle nv_size (offset + length bytes) out_cert' dev'
          ])
      else some (true, out_cert, dev)

  unfoldable pub tpm_read_ek_cert :
      ℕ → Option Buffer → ℕ → World esys → Option (Output × World esys)
  tpm_read_ek_cert fuel out_cert out_cert_len w =
      let (handle, dev1) = esys.tr_from_tpm_public ek_cert_nv_index w.dev in
      elim handle [
        | none ↦ some (failed out_cert out_cert_len, record w { dev = dev1 })
        | some nv ↦
            let (size, dev2) = esys.nv_data_size nv dev1 in
            elim size [
              | none ↦ some (failed out_cert out_cert_len, record w { dev = dev2 })
              | some nv_size ↦ elim out_cert [
                | none ↦
                    some (record { rc = pos 0; buf = none; len = nv_size }, record w { dev = dev2 })
                | some buf ↦
                    if ltb out_cert_len nv_size
                    then some (
                      record { rc = minus_one; buf = some buf; len = nv_size },
                      record w { dev = dev2 },
                    )
                    else do
                      (is_read, buf', dev3) ← nv_loop fuel nv nv_size 0 buf dev2
                      some (
                        if is_read
                            then record { rc = pos 0; buf = some buf'; len = nv_size }
                            else record { rc = minus_one; buf = some buf'; len = out_cert_len },
                        record w { dev = dev3 },
                      )
              ]
            ]
      ]

-- A device whose index for the certificate holds `content`: each opening of the index gives a handle of
-- it, the handle tells the size, and a read of bytes inside of the content gives these bytes. Nothing
-- is asked of a read that goes beyond, or of any other handle.
pub record Holds (esys : Esys) (content : List ℕ) : Type 1 where
  pub Refers : ℕ → Type 0
  pub is_open :
      (dev : esys.Dev)
      → (nv : ℕ) × ((esys.tr_from_tpm_public ek_cert_nv_index dev).0 ≡ some nv) × Refers nv
  pub has_size :
      (nv : ℕ) (dev : esys.Dev) → Refers nv → (esys.nv_data_size nv dev).0 ≡ some (length content)
  pub gives :
      (nv n offset : ℕ) (dev : esys.Dev)
      → Refers nv
      → 0 < n
      → n ≤ esys.max_nv_buffer_size
      → offset + n ≤ length content
      → (esys.nv_read nv n offset dev).0 ≡ some (take n (drop offset content))

suc_add : (n m : ℕ) → suc (n + m) ≡ suc n + m
suc_add n m = omega arith

zero_add : (m : ℕ) → m ≡ 0 + m
zero_add m = omega arith

take-drop : (n m : ℕ) (s : List ℕ) → take n s ++ take m (drop n s) ≡ take (n + m) s
take-drop zero m s = ap (λ k. take k s) (zero_add m)
take-drop (suc n) m [] = rw (take_nil {A = ℕ} m, take_nil {A = ℕ} (suc n + m)) refl
take-drop (suc n) m (x ∷ s) =
    ap (λ t. x ∷ t) (take-drop n m s) ∙ ap (λ k. take k (x ∷ s)) (suc_add n m)

nv_chunk_lem :
    (esys : Esys) (nv_size offset : ℕ)
    → offset < nv_size
    → nv_size < 2 ^ 16
    → nv_chunk esys nv_size offset ≡ min esys.max_nv_buffer_size (nv_size - offset)
unfolding nv_chunk
nv_chunk_lem esys nv_size offset lt small = ground arith

module _ (esys : Esys) (content : List ℕ) (holds : Holds esys content) where
  nv_loop-next :
      (nv : ℕ) (refers : holds.Refers nv) (fuel offset c : ℕ) (buf : Buffer) (dev : esys.Dev)
      → c ≡ nv_chunk esys (length content) offset
      → 0 < esys.max_nv_buffer_size
      → length content < 2 ^ 16
      → length content ≤ length buf
      → offset < length content
      → nv_loop esys (suc fuel) nv (length content) offset (overlay buf 0 (take offset content)) dev
        ≡ nv_loop esys fuel nv
            (length content)
            (offset + c)
            (overlay buf 0 (take (offset + c) content))
            (esys.nv_read nv c offset dev).1
  unfolding nv_loop
  nv_loop-next nv refers fuel offset c buf dev chunk some_bytes small room lt =
      let size = nv_chunk_lem esys (length content) offset lt small in
      let same : u16 offset ≡ offset = omega arith in
      let piece = take c (drop offset content) in
      let n : length piece ≡ c =
        omega (arith, length-take c (drop offset content), length-drop offset content) in
      let m : length (take offset content) ≡ offset = omega (arith, length-take offset content) in
      rw (lt→ltb offset (length content) lt) (
        rw (← chunk) (
          rw same (
            rw (holds.gives nv c offset dev refers (omega arith) (omega arith) (omega arith)) (
              rw
                (memcpy_in (overlay buf 0 (take offset content)) offset piece
                  (rw length-overlay (omega arith)))
                (rw n (
                  rw (← chunk) (
                    rw same (
                      ap
                        (λ b.
                          nv_loop esys fuel nv (length content) (offset + c) b
                            (esys.nv_read nv c offset dev).1)
                        (overlay-append buf 0 offset (take offset content) piece (omega arith)
                          ∙ ap (overlay buf 0) (take-drop offset c content))))))))))

  -- After `offset` bytes were read: the loop ends, and the buffer has the whole content.
  nv_loop_lem :
      (nv : ℕ) (refers : holds.Refers nv) (fuel offset : ℕ) (buf : Buffer) (dev : esys.Dev)
      → 0 < esys.max_nv_buffer_size
      → length content < 2 ^ 16
      → length content ≤ length buf
      → offset ≤ length content
      → length content - offset < fuel
      → (dev' : esys.Dev) × (nv_loop esys fuel nv
            (length content)
            offset
            (overlay buf 0 (take offset content))
            dev
          ≡ some (true, overlay buf 0 content, dev'))
  unfolding nv_loop
  nv_loop_lem nv refers zero offset buf dev some_bytes small room le enough = absurd (omega arith)
  nv_loop_lem nv refers (suc fuel) offset buf dev some_bytes small room le enough =
      elim (Bool-cases (ltb offset (length content))) [
        | inl more ↦
            let lt = ltb→lt offset (length content) more in
            let c = nv_chunk esys (length content) offset in
            let size = nv_chunk_lem esys (length content) offset lt small in
            let next =
              nv_loop_lem nv refers fuel (offset + c) buf (esys.nv_read nv c offset dev).1
                some_bytes small room (omega arith) (omega arith) in
            (
              next.0,
              nv_loop-next nv refers fuel offset c buf dev refl some_bytes small room lt ∙ next.1,
            )
        | inr done ↦
            let ge = ltb→le offset (length content) done in
            (
              dev,
              rw done (ap (λ t. some (true, overlay buf 0 t, dev)) (take_all offset content ge)),
            )
      ]

  -- For a device whose index holds a certificate of fewer than 2^16 bytes and that gives each piece
  -- inside of it that it is asked for: given room for the certificate, tpm_read_ek_cert ends within as many rounds as
  -- it has bytes and one, returns 0 and its length, and leaves the whole certificate at the start of
  -- the buffer.
  pub tpm_read_ek_cert_lem :
      (fuel : ℕ) (buf : Buffer) (len : ℕ) (w : World esys)
      → 0 < esys.max_nv_buffer_size
      → length content < 2 ^ 16
      → length content ≤ len
      → len ≤ length buf
      → length content < fuel
      → (w' : World esys) × (tpm_read_ek_cert esys fuel (some buf) len w
          ≡ some
              (record { rc = pos 0; buf = some (overlay buf 0 content); len = length content }, w'))
  unfolding tpm_read_ek_cert
  tpm_read_ek_cert_lem fuel buf len w some_bytes small room inside enough =
      let (nv, opened, refers) = holds.is_open w.dev in
      let dev1 = (esys.tr_from_tpm_public ek_cert_nv_index w.dev).1 in
      let dev2 = (esys.nv_data_size nv dev1).1 in
      let read =
        nv_loop_lem nv refers fuel 0 buf dev2 some_bytes small (omega arith) (omega arith)
          (omega arith) in
      (
        record w { dev = read.0 },
        rw (opened, tpm_read_ek_cert)
            (rw (holds.has_size nv dev1 refers) (
              rw (le→ltb len (length content) room) (
                ap
                  (λ o. o >>= λ r. some (
                    if r.0
                        then record { rc = pos 0; buf = some r.1; len = length content }
                        else record { rc = minus_one; buf = some r.1; len = len },
                    record w { dev = r.2 },
                  ))
                  (ap (λ b. nv_loop esys fuel nv (length content) 0 b dev2)
                      (sym (overlay-nil buf 0))
                    ∙ read.1)))),
      )
