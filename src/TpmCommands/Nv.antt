-- ===== src/TpmCommands/Nv.antt =====
-- windows/src/tpm/tpm_commands.cpp: ReadNvCertificate and ReadIntelOdcaIntermediates.
use sdk_native.Prelude.{
  ℕ, zero, suc, ◌+◌, ◌-◌, List, [], ◌∷◌, ◌++◌, Bool, true, false, not, ◌||◌, Option, none, some,
  length, ltb, ◌==◌, if◌then◌else◌, ◌>>=◌, min,
}
use sdk_native.Prelude.Bits.{u16}
use sdk_native.TpmCommands.{
  tpm2_cc_nv_read, tpm2_cc_nv_read_public, tpm2_st_no_sessions, tpm2_st_sessions, write_u16,
  write_u32, begin_command, read_u16, slice, password_auth, TpmCommands, Tbs, send_command,
  is_success,
}

abbrev pub nv_read_public_command : ℕ → List ℕ
nv_read_public_command nv_index =
    begin_command tpm2_st_no_sessions tpm2_cc_nv_read_public ++ write_u32 nv_index

-- The size of the data; `some none` is `return false`.
unfoldable pub nv_data_size : List ℕ → Option (Option ℕ)
nv_data_size resp = do
  ok ← is_success 10 resp
  (if not ok || ltb (length resp) 12 then some none else (do
    nv_pub_size ← read_u16 resp 10
    (if ltb (length resp) (12 + nv_pub_size) || ltb (length resp) 24 then some none else (do
      policy_size ← read_u16 resp 22
      (if ltb (length resp) (24 + policy_size + 2) then some none else (do
        data_size ← read_u16 resp (24 + policy_size)
        some (if data_size == 0 then none else some data_size)))))))

abbrev pub k_chunk : ℕ
k_chunk = 1024

abbrev pub nv_read_command : ℕ → ℕ → ℕ → List ℕ
nv_read_command nv_index want read_offset =
    begin_command tpm2_st_sessions tpm2_cc_nv_read
    ++ (write_u32 nv_index
        ++ (write_u32 nv_index ++ (password_auth ++ (write_u16 want ++ write_u16 read_offset))))

-- The piece in a response; `some none` is the failure that clears the certificate.
unfoldable pub nv_piece : List ℕ → Option (Option (List ℕ))
nv_piece resp = do
  ok ← is_success 10 resp
  (if not ok || ltb (length resp) 16 then some none else (do
    got ← read_u16 resp 14
    (if got == 0 || ltb (length resp) (16 + got)
        then some none
        else (slice resp 16 got >>= λ piece. some (some piece)))))

-- `while (readOffset < dataSize)`; `none` is a read outside, or the end of the fuel.
unfoldable pub nv_read_loop :
    Tbs → ℕ → ℕ → ℕ → ℕ → List ℕ → TpmCommands → Option (Option (List ℕ) × TpmCommands)
nv_read_loop tbs nv_index zero data_size read_offset cert t = none
nv_read_loop tbs nv_index (suc fuel) data_size read_offset cert t =
    if ltb read_offset data_size
    then (let (resp, t') =
          send_command tbs
            (nv_read_command nv_index (min (data_size - read_offset) k_chunk) read_offset) t in
        do
          piece ← nv_piece resp
          (elim piece [
            | none ↦ some (none, t')
            | some bytes ↦
                nv_read_loop tbs nv_index fuel data_size (u16 (read_offset + length bytes))
                  (cert ++ bytes) t'
          ]))
    else some (some cert, t)

-- Whether it succeeds, and `outCert`.
abbrev pub nv_result : Option (List ℕ) → Bool × List ℕ
nv_result none = (false, [])
nv_result (some []) = (false, [])
nv_result (some (b ∷ cert)) = (true, b ∷ cert)

-- The fuel is one more than the bytes, for a TPM that gives no more than what it is asked for.
unfoldable pub read_nv_certificate : Tbs → ℕ → TpmCommands → Option ((Bool × List ℕ) × TpmCommands)
read_nv_certificate tbs nv_index t =
    let (resp, t1) = send_command tbs (nv_read_public_command nv_index) t in
    do
      size ← nv_data_size resp
      (elim size [
        | none ↦ some ((false, []), t1)
        | some data_size ↦ nv_read_loop tbs nv_index (suc data_size) data_size 0 [] t1 >>= λ r.
            some (nv_result r.0, r.1)
      ])

-- `for (i = 0; i < 16; ++i)`, with `rounds` of it left.
unfoldable pub read_intel_odca_intermediates :
    Tbs → ℕ → ℕ → List (List ℕ) → TpmCommands → Option (List (List ℕ) × TpmCommands)
read_intel_odca_intermediates tbs zero i certs t = some (certs, t)
read_intel_odca_intermediates tbs (suc rounds) i certs t = do
  ((found, cert), t') ← read_nv_certificate tbs (0x01C00100 + i) t
  read_intel_odca_intermediates tbs rounds (i + 1) (if found then certs ++ cert ∷ [] else certs) t'
