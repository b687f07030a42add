-- ===== src/TpmCommands/Activate.antt =====
-- windows/src/tpm/tpm_commands.cpp: ActivateCredential, with its policy session.
use sdk_native.Prelude.{
  ℕ, zero, suc, ◌+◌, ◌*◌, List, [], ◌∷◌, ◌++◌, Option, none, some, length, ltb, ◌==◌, if◌then◌else◌,
  ◌>>=◌,
}
use sdk_native.Prelude.Bits.{u8}
use sdk_native.TpmCommands.{
  tpm2_cc_start_auth_session, tpm2_cc_policy_secret, tpm2_cc_activate_credential,
  tpm2_st_no_sessions, tpm2_st_sessions, write_u16, write_u32, begin_command, read_u16, read_u32,
  slice, session_auth, with_size, password_auth, TpmCommands, Tbs, send_command, is_success,
  flush_context,
}

-- `sessionNonce[i] = (uint8_t)(i * 7 + 3)` for the indices from `i` on.
abbrev pub session_nonce : ℕ → ℕ → List ℕ
session_nonce zero i = []
session_nonce (suc n) i = u8 (i * 7 + 3) ∷ session_nonce n (i + 1)

abbrev pub start_command : List ℕ
start_command =
    begin_command tpm2_st_no_sessions tpm2_cc_start_auth_session
    ++ (write_u32 0x40000007
        ++ (write_u32 0x40000007
            ++ (write_u16 32
                ++ (session_nonce 32 0
                    ++ (write_u16 0 ++ (1 ∷ (write_u16 0x0010 ++ write_u16 0x000B)))))))

abbrev pub policy_command : ℕ → List ℕ
policy_command session_handle =
    begin_command tpm2_st_sessions tpm2_cc_policy_secret
    ++ (write_u32 0x4000000B
        ++ (write_u32 session_handle
            ++ (password_auth ++ (write_u16 0 ++ (write_u16 0 ++ (write_u16 0 ++ write_u32 0))))))

-- The blobs are in TPM2B form already.
abbrev pub activate_command : ℕ → ℕ → ℕ → List ℕ → List ℕ → List ℕ
activate_command ak_handle ek_handle session_handle credential_blob encrypted_secret =
    begin_command tpm2_st_sessions tpm2_cc_activate_credential
    ++ (write_u32 ak_handle
        ++ (write_u32 ek_handle
            ++ (with_size (session_auth 0x40000009 ++ session_auth session_handle)
                ++ (credential_blob ++ encrypted_secret))))

-- Step 1: the session's handle, or 0, which is what it is at `Cleanup` if a step before failed.
unfoldable pub session_of : List ℕ → Option (Option ℕ)
session_of resp = do
  ok ← is_success 14 resp
  (if ok
      then (do
        tag ← read_u16 resp 0
        let handle_offset = if tag == tpm2_st_sessions then 14 else 10
        (if ltb (length resp) (handle_offset + 4)
            then some none
            else (read_u32 resp handle_offset >>= λ handle. some (some handle))))
      else some none)

-- The end of step 3: the secret, which stays empty where the response is refused.
unfoldable pub secret_of : List ℕ → Option (List ℕ)
secret_of resp = do
  ok ← is_success 10 resp
  (if ok
      then (do
        param_size ← read_u32 resp 10
        (if ltb param_size 2 then some [] else (do
          secret_size ← read_u16 resp 14
          (if ltb (length resp) (16 + secret_size) then some [] else slice resp 16 secret_size))))
      else some [])

-- Steps 2 and 3, from which every `goto Cleanup` leads to the same end.
unfoldable pub activate_in :
    Tbs → ℕ → ℕ → List ℕ → List ℕ → ℕ → TpmCommands → Option (List ℕ × TpmCommands)
activate_in tbs ak_handle ek_handle credential_blob encrypted_secret session_handle t =
    let (policy_resp, t1) = send_command tbs (policy_command session_handle) t in
    do
      ok ← is_success 10 policy_resp
      (if ok
          then (let (act_resp, t2) =
                send_command tbs
                  (activate_command ak_handle ek_handle session_handle credential_blob
                    encrypted_secret)
                  t1 in
              secret_of act_resp >>= λ secret. some (secret, t2))
          else some ([], t1))

-- `Cleanup: if (sessionHandle) FlushContext(sessionHandle);`
abbrev pub clean_up : Tbs → ℕ → TpmCommands → TpmCommands
clean_up tbs session_handle t =
    if session_handle == 0 then t else flush_context tbs session_handle t

-- What comes after the start, for the session it gave.
abbrev pub after_start :
    Tbs → ℕ → ℕ → List ℕ → List ℕ → Option ℕ → TpmCommands → Option (List ℕ × TpmCommands)
after_start tbs ak_handle ek_handle credential_blob encrypted_secret none t = some ([], t)
after_start tbs ak_handle ek_handle credential_blob encrypted_secret (some session_handle) t =
    activate_in tbs ak_handle ek_handle credential_blob encrypted_secret session_handle t
    >>= λ result. some (result.0, clean_up tbs session_handle result.1)

unfoldable pub activate_credential :
    Tbs → ℕ → ℕ → List ℕ → List ℕ → TpmCommands → Option (List ℕ × TpmCommands)
activate_credential tbs ak_handle ek_handle credential_blob encrypted_secret t =
    let (start_resp, t1) = send_command tbs start_command t in
    session_of start_resp >>= λ session.
    after_start tbs ak_handle ek_handle credential_blob encrypted_secret session t1
