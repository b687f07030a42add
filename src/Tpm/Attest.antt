-- ===== src/Tpm/Attest.antt =====
-- Quotes, PCR values and the activation of a credential in linux/src/tpm/tpm_esapi.c.
use sdk_native.Prelude.{
  ℕ, zero, suc, ◌/◌, ◌%◌, List, [], ◌∷◌, Bool, true, false, Option, none, some, length, take, ltb,
  leb, if◌then◌else◌, ◌>>=◌, pos, bit_or,
}
use sdk_native.Prelude.Bits.{◌<<<◌, u8}
use sdk_native.Memory.{Buffer, memcpy}
use sdk_native.Tpm.{Esys, Event, TpmContext, Output, World, copy_out, flush}
use sdk_native.Tpm.Keys.{failed}

-- `pcrSelect[i] |= 1 << (idx % 8)` on the bytes of the map.
unfoldable pub set_bit : List ℕ → ℕ → ℕ → List ℕ
set_bit [] i bit = []
set_bit (b ∷ select) zero bit = u8 (bit_or b (1 <<< bit)) ∷ select
set_bit (b ∷ select) (suc i) bit = b ∷ set_bit select i bit

-- The loop `for (i = 0; i < pcr_count && i < 24; i++)` over the indices, `room` of them still to come.
unfoldable pub select_pcrs : ℕ → List ℕ → List ℕ → List ℕ
select_pcrs zero indices select = select
select_pcrs (suc room) [] select = select
select_pcrs (suc room) (idx ∷ indices) select =
    select_pcrs room indices (if ltb idx 24 then set_bit select (idx / 8) (idx % 8) else select)

module _ (esys : Esys) where
  -- The bytes that a nonce of `nonce_len` bytes at `nonce` contributes; `none` is a read outside.
  unfoldable pub qualifying_data : List ℕ → ℕ → Option (List ℕ)
  qualifying_data nonce nonce_len =
      let n = if ltb esys.data_size nonce_len then esys.data_size else nonce_len in
      if leb n (length nonce) then some (take n nonce) else none

  -- The copy of the quoted structure, which returns early only where it does not fit.
  unfoldable pub copy_quoted : List ℕ → Option Buffer → ℕ → Option (Bool × Option Buffer)
  copy_quoted quoted none len = some (true, none)
  copy_quoted quoted (some buf) len =
      if ltb len (length quoted)
      then some (false, some buf)
      else do buf' ← memcpy buf 0 quoted; some (true, some buf')

  -- The outputs are those for the quoted structure and for the signature; the result is that of the
  -- second, and the first has -1 where the structure did not fit.
  unfoldable pub tpm_quote :
      TpmContext
      → List ℕ
      → ℕ
      → List ℕ
      → Option Buffer
      → ℕ
      → Option Buffer
      → ℕ
      → World esys
      → Option (Output × Output × World esys)
  tpm_quote ctx nonce nonce_len pcr_indices out_quoted out_quoted_len out_sig out_sig_len w =
      elim ctx.ak_handle [
        | none ↦ some (failed out_quoted out_quoted_len, failed out_sig out_sig_len, w)
        | some ak ↦ do
          qualifying ← qualifying_data nonce nonce_len
          let (result, dev) =
              esys.quote ak qualifying (select_pcrs 24 pcr_indices (0 ∷ 0 ∷ 0 ∷ [])) w.dev
          let w1 = record w { dev = dev }
          elim result [
            | none ↦ some (failed out_quoted out_quoted_len, failed out_sig out_sig_len, w1)
            | some (quoted, signature) ↦ do
              (fits, quoted_buf) ← copy_quoted quoted out_quoted out_quoted_len
              let quoted_output : Output = record {
                rc = pos 0;
                buf = quoted_buf;
                len = length quoted;
              }
              (if fits
                  then elim (esys.marshal_signature signature) [
                    | none ↦ some (quoted_output, failed out_sig out_sig_len, w1)
                    | some bytes ↦ do
                      sig_output ← copy_out bytes out_sig out_sig_len
                      some (quoted_output, sig_output, w1)
                  ]
                  else some (failed quoted_buf (length quoted), failed out_sig out_sig_len, w1))
          ]
      ]

  unfoldable pub tpm_pcr_read : ℕ → Option Buffer → ℕ → World esys → Option (Output × World esys)
  tpm_pcr_read pcr_index out_digest out_digest_len w =
      if ltb 23 pcr_index
      then some (failed out_digest out_digest_len, w)
      else (let (result, dev) =
            esys.pcr_read (set_bit (0 ∷ 0 ∷ 0 ∷ []) (pcr_index / 8) (pcr_index % 8)) w.dev in
          let w1 = record w { dev = dev } in
          elim result [
            | none ↦ some (failed out_digest out_digest_len, w1)
            | some [] ↦ some (failed out_digest out_digest_len, w1)
            | some (digest ∷ digests) ↦ do
              output ← copy_out digest out_digest out_digest_len
              some (output, w1)
          ])

  -- From the policy session on; the session is flushed where the policy fails.
  unfoldable pub activate_in_session :
      ℕ → ℕ → ℕ → List ℕ → List ℕ → Option Buffer → ℕ → World esys → Option (Output × World esys)
  activate_in_session ak ek session cred secret out_cert_info out_cert_info_len w =
      let (is_satisfied, dev1) = esys.policy_secret session w.dev in
      let w1 = record w { dev = dev1 } in
      if is_satisfied
      then (let (result, dev2) = esys.activate_credential ak ek session cred secret dev1 in
          let w2 = record w1 { dev = dev2 } in
          elim result [
            | none ↦ some (failed out_cert_info out_cert_info_len, w2)
            | some cert_info ↦ do
              output ← copy_out cert_info out_cert_info out_cert_info_len
              some (output, w2)
          ])
      else some (failed out_cert_info out_cert_info_len, flush esys session w1)

  unfoldable pub tpm_activate_credential :
      TpmContext → List ℕ → List ℕ → Option Buffer → ℕ → World esys → Option (Output × World esys)
  tpm_activate_credential ctx cred_blob secret out_cert_info out_cert_info_len w =
      elim ctx.ak_handle [
        | none ↦ some (failed out_cert_info out_cert_info_len, w)
        | some ak ↦ elim ctx.ek_handle [
          | none ↦ some (failed out_cert_info out_cert_info_len, w)
          | some ek ↦
              if ltb esys.id_object_size (length cred_blob)
              then some (failed out_cert_info out_cert_info_len, w)
              else if ltb esys.encrypted_secret_size (length secret)
              then some (failed out_cert_info out_cert_info_len, w)
              else (let (result, dev) = esys.start_policy_session w.dev in
                  elim result [
                    | none ↦ some (failed out_cert_info out_cert_info_len, record w { dev = dev })
                    | some session ↦
                        activate_in_session ak ek session cred_blob secret out_cert_info
                          out_cert_info_len
                          (record { dev = dev; trace = Event.session session ∷ w.trace })
                  ])
        ]
      ]
