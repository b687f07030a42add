-- ===== src/TpmCommands/Pcr.antt =====
-- windows/src/tpm/tpm_commands.cpp: PcrRead and Quote.
use sdk_native.Prelude.{
  ℕ, zero, suc, ◌+◌, ◌/◌, ◌%◌, List, [], ◌∷◌, ◌++◌, not, ◌&&◌, ◌||◌, Option, none, some, length,
  drop, leb, ltb, if◌then◌else◌, ◌>>=◌, get_elem?, bit_or,
}
use sdk_native.Prelude.Bits.{u8, ◌<<<◌}
use sdk_native.TpmCommands.{
  tpm2_cc_pcr_read, tpm2_cc_quote, tpm2_st_no_sessions, tpm2_st_sessions, tpm2_alg_sha256,
  tpm2_alg_rsassa, write_u16, write_u32, write_tpm2b, begin_command, read_u16, read_u32, slice,
  password_auth, TpmCommands, Tbs, send_command, is_success,
}

-- `bitmap[idx / 8] |= 1 << (idx % 8)`
abbrev pub or_at : ℕ → ℕ → List ℕ → List ℕ
or_at i bit [] = []
or_at zero bit (b ∷ bitmap) = bit_or b bit ∷ bitmap
or_at (suc i) bit (b ∷ bitmap) = b ∷ or_at i bit bitmap

unfoldable pub mark_pcrs : List ℕ → List ℕ → List ℕ
mark_pcrs [] bitmap = bitmap
mark_pcrs (idx ∷ indices) bitmap =
    mark_pcrs indices (if ltb idx 24 then or_at (idx / 8) (u8 (1 <<< (idx % 8))) bitmap else bitmap)

-- One selection of SHA-256 and three bytes.
abbrev pub pcr_selection : List ℕ → List ℕ
pcr_selection indices =
    write_u32 1 ++ (write_u16 tpm2_alg_sha256 ++ (3 ∷ mark_pcrs indices (0 ∷ 0 ∷ 0 ∷ [])))

abbrev pub pcr_read_command : ℕ → List ℕ
pcr_read_command pcr_index =
    begin_command tpm2_st_no_sessions tpm2_cc_pcr_read ++ pcr_selection (pcr_index ∷ [])

-- The loop over the selections of the response; the inner `none` is `return {}`.
unfoldable pub skip_selections : List ℕ → ℕ → ℕ → Option (Option ℕ)
skip_selections resp zero offset = some (some offset)
skip_selections resp (suc count) offset = if leb (length resp) (offset + 2) then some none else do
  select_size ← get_elem? resp (offset + 2)
  skip_selections resp count (offset + 2 + (1 + select_size))

-- The digest list at `offset`.
unfoldable pub first_digest : List ℕ → ℕ → Option (List ℕ)
first_digest resp offset = if ltb (length resp) (offset + 4) then some [] else do
  digest_count ← read_u32 resp offset
  let start = offset + 4
  (if ltb 0 digest_count && leb (start + 2) (length resp)
      then (do
        digest_size ← read_u16 resp start
        (if leb (start + 2 + digest_size) (length resp)
            then slice resp (start + 2) digest_size
            else some []))
      else some [])

unfoldable pub pcr_digest : List ℕ → Option (List ℕ)
pcr_digest resp = do
  ok ← is_success 10 resp
  (if ok
      then (if ltb (length resp) 18 then some [] else (do
        sel_count ← read_u32 resp 14
        end ← skip_selections resp sel_count 18
        elim end [ none ↦ some [] | some offset ↦ first_digest resp offset ]))
      else some [])

unfoldable pub pcr_read : Tbs → ℕ → TpmCommands → Option (List ℕ × TpmCommands)
pcr_read tbs pcr_index t =
    let (resp, t') = send_command tbs (pcr_read_command pcr_index) t in
    pcr_digest resp >>= λ digest. some (digest, t')

abbrev pub quote_command : ℕ → List ℕ → List ℕ → List ℕ
quote_command ak_handle nonce indices =
    begin_command tpm2_st_sessions tpm2_cc_quote
    ++ (write_u32 ak_handle
        ++ (password_auth
            ++ (write_tpm2b nonce
                ++ (write_u16 tpm2_alg_rsassa
                    ++ (write_u16 tpm2_alg_sha256 ++ pcr_selection indices)))))

-- What Quote leaves in its two vectors; the inner `none` is false.
pub record Quoted : Type 0 where
  pub quoted : List ℕ
  pub signature : List ℕ

unfoldable pub split_quote : List ℕ → List ℕ → Option (Option Quoted)
split_quote resp old_signature = do
  ok ← is_success 10 resp
  (if not ok || ltb (length resp) 16 then some none else (do
    param_size ← read_u32 resp 10
    attest_size ← read_u16 resp 14
    (if ltb (length resp) (16 + attest_size) then some none else (do
      quoted ← slice resp 16 attest_size
      some (
          some (record {
            quoted = quoted;
            signature =
                if ltb (16 + attest_size) (length resp)
                then drop (16 + attest_size) resp
                else old_signature;
          }))))))

unfoldable pub quote :
    Tbs → ℕ → List ℕ → List ℕ → List ℕ → TpmCommands → Option (Option Quoted × TpmCommands)
quote tbs ak_handle nonce indices old_signature t =
    let (resp, t') = send_command tbs (quote_command ak_handle nonce indices) t in
    split_quote resp old_signature >>= λ result. some (result, t')
