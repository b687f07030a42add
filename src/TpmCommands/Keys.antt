-- ===== src/TpmCommands/Keys.antt =====
-- windows/src/tpm/tpm_commands.cpp: the key templates, CreateAndLoadAk, CreateEk, IsPersistentPresent
-- and EvictControl.
use sdk_native.Prelude.{
  ℕ, ◌+◌, ◌≡◌, refl, List, [], ◌∷◌, ◌++◌, Bool, true, false, ◌&&◌, Option, none, some, length, leb,
  ltb, if◌then◌else◌, ◌>>=◌, bit_or, replicate,
}
use sdk_native.Prelude.Bits.{u16, u32, ◌<<<◌}
use sdk_native.TpmCommands.{
  tpm2_cc_create_primary, tpm2_cc_read_public, tpm2_cc_evict_control, tpm2_st_no_sessions,
  tpm2_st_sessions, tpm2_rh_owner, write_u16, write_u32, begin_command, read_u16, read_u32, slice,
  password_auth, TpmCommands, Tbs, send_command, is_success,
}

-- The bits of fixedTPM, fixedParent, sensitiveDataOrigin, userWithAuth, restricted and sign.
abbrev pub ak_attributes : ℕ
ak_attributes = 0x50072

-- fixedTPM, fixedParent, sensitiveDataOrigin, adminWithPolicy, restricted and decrypt.
abbrev pub ek_attributes : ℕ
ek_attributes = 0x300b2

abbrev or_bits : List ℕ → ℕ
or_bits [] = 0
or_bits (n ∷ bits) = bit_or (1 <<< n) (or_bits bits)

ak_attributes_are : or_bits (1 ∷ 4 ∷ 5 ∷ 6 ∷ 16 ∷ 18 ∷ []) ≡ ak_attributes
ak_attributes_are = refl

ek_attributes_are : or_bits (1 ∷ 4 ∷ 5 ∷ 7 ∷ 16 ∷ 17 ∷ []) ≡ ek_attributes
ek_attributes_are = refl

abbrev pub ak_public : List ℕ
ak_public =
    write_u16 0x0001
    ++ (write_u16 0x000B
        ++ (write_u32 ak_attributes
            ++ (write_u16 0
                ++ (write_u16 0x0010
                    ++ (write_u16 0x0014
                        ++ (write_u16 0x000B
                            ++ (write_u16 2048
                                ++ (write_u32 0 ++ (write_u16 256 ++ replicate 256 0)))))))))

abbrev pub write_template : List ℕ → List ℕ
write_template public = write_u16 (u16 (length public)) ++ public

abbrev pub ek_policy : List ℕ
ek_policy =
    0x83 ∷ 0x71 ∷ 0x97 ∷ 0x67 ∷ 0x44 ∷ 0x84 ∷ 0xB3 ∷ 0xF8 ∷ 0x1A ∷ 0x90 ∷ 0xCC ∷ 0x8D ∷ 0x46 ∷ 0xA5
    ∷ 0xD7 ∷ 0x24 ∷ 0xFD ∷ 0x52 ∷ 0xD7 ∷ 0x6E ∷ 0x06 ∷ 0x52 ∷ 0x0B ∷ 0x64 ∷ 0xF2 ∷ 0xA1 ∷ 0xDA
    ∷ 0x1B ∷ 0x33 ∷ 0x14 ∷ 0x69 ∷ 0xAA ∷ []

abbrev pub ek_public : List ℕ
ek_public =
    write_u16 0x0001
    ++ (write_u16 0x000B
        ++ (write_u32 ek_attributes
            ++ (write_u16 32
                ++ (ek_policy
                    ++ (write_u16 0x0006
                        ++ (write_u16 128
                            ++ (write_u16 0x0043
                                ++ (write_u16 0x0010
                                    ++ (write_u16 2048
                                        ++ (write_u32 0
                                            ++ (write_u16 256 ++ replicate 256 0)))))))))))

abbrev pub create_primary_command : ℕ → List ℕ → List ℕ
create_primary_command hierarchy public =
    begin_command tpm2_st_sessions tpm2_cc_create_primary
    ++ (write_u32 hierarchy
        ++ (password_auth
            ++ (write_u16 4
                ++ (write_u16 0
                    ++ (write_u16 0 ++ (write_template public ++ (write_u16 0 ++ write_u32 0)))))))

-- The public area of the response, if it is asked for; `18 + paramSize` is a sum of 32 bits.
unfoldable pub public_of : List ℕ → List ℕ → Option (List ℕ)
public_of resp old_public = if leb (length resp) 18 then some old_public else do
  param_size ← read_u32 resp 14
  (if ltb 0 param_size && leb (u32 (18 + param_size)) (length resp)
      then (do
        pub_size ← read_u16 resp 18
        (if ltb 0 pub_size && leb (20 + pub_size) (length resp)
            then slice resp 18 (2 + pub_size)
            else some old_public))
      else some old_public)

-- The handle, or 0, and `*outPublicKey`, which is `none` for a null pointer.
unfoldable pub created_ak : List ℕ → Option (List ℕ) → Option (ℕ × Option (List ℕ))
created_ak resp out_public_key = do
  ok ← is_success 14 resp
  (if ok
      then (do
        handle ← read_u32 resp 10
        (elim out_public_key [
          | none ↦ some (handle, none)
          | some old_public ↦ public_of resp old_public >>= λ key. some (handle, some key)
        ]))
      else some (0, out_public_key))

unfoldable pub create_and_load_ak :
    Tbs → Option (List ℕ) → TpmCommands → Option ((ℕ × Option (List ℕ)) × TpmCommands)
create_and_load_ak tbs out_public_key t =
    let (resp, t') = send_command tbs (create_primary_command tpm2_rh_owner ak_public) t in
    created_ak resp out_public_key >>= λ result. some (result, t')

unfoldable pub create_ek : Tbs → TpmCommands → Option (ℕ × TpmCommands)
create_ek tbs t =
    let (resp, t') = send_command tbs (create_primary_command 0x4000000B ek_public) t in
    do ok ← is_success 14 resp; handle ← if ok then read_u32 resp 10 else some 0; some (handle, t')

abbrev pub read_public_command : ℕ → List ℕ
read_public_command handle =
    begin_command tpm2_st_no_sessions tpm2_cc_read_public ++ write_u32 handle

unfoldable pub is_persistent_present : Tbs → ℕ → TpmCommands → Option (Bool × TpmCommands)
is_persistent_present tbs persistent_handle t =
    let (resp, t') = send_command tbs (read_public_command persistent_handle) t in
    is_success 10 resp >>= λ present. some (present, t')

-- `object` is what is evicted, to or from the persistent handle.
abbrev pub evict_command : ℕ → ℕ → List ℕ
evict_command object persistent_handle =
    begin_command tpm2_st_sessions tpm2_cc_evict_control
    ++ (write_u32 tpm2_rh_owner
        ++ (write_u32 object ++ (password_auth ++ write_u32 persistent_handle)))

unfoldable pub evict_once : Tbs → ℕ → ℕ → TpmCommands → Option (Bool × TpmCommands)
evict_once tbs object persistent_handle t =
    let (resp, t') = send_command tbs (evict_command object persistent_handle) t in
    is_success 10 resp >>= λ ok. some (ok, t')

unfoldable pub evict_control : Tbs → ℕ → ℕ → TpmCommands → Option (Bool × TpmCommands)
evict_control tbs transient_handle persistent_handle t = do
  (present, t1) ← is_persistent_present tbs persistent_handle t
  (cleared, t2) ←
      if present then evict_once tbs persistent_handle persistent_handle t1 else some (true, t1)
  (if cleared then evict_once tbs transient_handle persistent_handle t2 else some (false, t2))
