-- ===== src/Tpm.antt =====
-- linux/src/tpm/tpm_esapi.c: the TPM context and its life cycle. tpm2-tss is a parameter: the record
-- Esys, whose calls take and give the state of the device. A call that fails gives `none`.
-- The calls that make and flush handles are kept in a trace, newest first. ESYS_TR_NONE is `none`.
-- Pointers to contexts and to lengths are never NULL here; the warnings to the log are left out.
pub mod Keys
pub mod Certificate
pub mod Attest
pub mod Handles
use sdk_native.Prelude.{
  ℕ, ◌+◌, ◌-◌, List, [], ◌∷◌, Bool, true, false, Option, none, some, length, ltb, if◌then◌else◌,
  ◌>>=◌, ℤ, pos, minus_one,
}
use sdk_native.Memory.{Buffer, memcpy}

-- The template and the hierarchy of a primary key.
pub data Primary : Type 0 where
  ek : Primary
  srk : Primary

pub record Esys : Type 1 where
  pub Dev : Type 0
  pub Public : Type 0
  pub Signature : Type 0
  -- TPM2_MAX_NV_BUFFER_SIZE, and the sizes of the arrays in TPM2B_DATA, TPM2B_ID_OBJECT and
  -- TPM2B_ENCRYPTED_SECRET.
  pub max_nv_buffer_size : ℕ
  pub data_size : ℕ
  pub id_object_size : ℕ
  pub encrypted_secret_size : ℕ
  pub initialize : Dev → Bool × Dev
  pub finalize : Dev → Dev
  pub flush_context : ℕ → Dev → Bool × Dev
  pub create_primary : Primary → Dev → Option (ℕ × Public) × Dev
  pub create : ℕ → Dev → Option (List ℕ × Public) × Dev
  pub load : ℕ → List ℕ → Public → Dev → Option ℕ × Dev
  pub read_public : ℕ → Dev → Option (Public × List ℕ) × Dev
  pub marshal_public : Public → Option (List ℕ)
  pub tr_from_tpm_public : ℕ → Dev → Option ℕ × Dev
  pub nv_data_size : ℕ → Dev → Option ℕ × Dev
  pub nv_read : ℕ → ℕ → ℕ → Dev → Option (List ℕ) × Dev
  pub quote : ℕ → List ℕ → List ℕ → Dev → Option (List ℕ × Signature) × Dev
  pub marshal_signature : Signature → Option (List ℕ)
  pub pcr_read : List ℕ → Dev → Option (List (List ℕ)) × Dev
  pub start_policy_session : Dev → Option ℕ × Dev
  pub policy_secret : ℕ → Dev → Bool × Dev
  pub activate_credential : ℕ → ℕ → ℕ → List ℕ → List ℕ → Dev → Option (List ℕ) × Dev

pub data Event : Type 0 where
  created : ℕ → Event
  flushed : ℕ → Event
  session : ℕ → Event

pub record TpmContext : Type 0 where
  pub ek_handle : Option ℕ
  pub srk_handle : Option ℕ
  pub ak_handle : Option ℕ

-- What a function with an out-parameter leaves: its result, the buffer (`none` for NULL) and `*len`.
pub record Output : Type 0 where
  pub rc : ℤ
  pub buf : Option Buffer
  pub len : ℕ

-- The end that these functions share: the size alone, a buffer that is too small, the copy.
unfoldable pub copy_out : List ℕ → Option Buffer → ℕ → Option Output
copy_out bytes none len = some (record { rc = pos 0; buf = none; len = length bytes })
copy_out bytes (some buf) len =
    if ltb len (length bytes)
    then some (record { rc = minus_one; buf = some buf; len = length bytes })
    else do
      buf' ← memcpy buf 0 bytes
      some (record { rc = pos 0; buf = some buf'; len = length bytes })

module _ (esys : Esys) where
  pub record World : Type 0 where
    pub dev : esys.Dev
    pub trace : List Event

  -- Esys_FlushContext, whose result is ignored; the trace holds that it was called.
  unfoldable pub flush : ℕ → World → World
  flush h w = record { dev = (esys.flush_context h w.dev).1; trace = Event.flushed h ∷ w.trace }

  -- `if (handle != ESYS_TR_NONE) Esys_FlushContext(handle)`
  unfoldable pub flush_slot : Option ℕ → World → World
  flush_slot none w = w
  flush_slot (some h) w = flush h w

  -- calloc does not fail here.
  unfoldable pub tpm_open : World → Option TpmContext × World
  tpm_open w =
      let (is_success, dev) = esys.initialize w.dev in
      if is_success
      then (
        some (record { ek_handle = none; srk_handle = none; ak_handle = none }),
        record w { dev = dev },
      )
      else (none, record w { dev = dev })

  unfoldable pub tpm_close : TpmContext → World → World
  tpm_close ctx w =
      let w1 = flush_slot ctx.ak_handle w in
      let w2 = flush_slot ctx.srk_handle w1 in
      let w3 = flush_slot ctx.ek_handle w2 in record w3 { dev = esys.finalize w3.dev }

-- `can_open` tells whether a device node opens; its descriptor is closed again.
unfoldable pub tpm_is_available : Bool → Bool → Bool
tpm_is_available can_open_tpmrm0 can_open_tpm0 =
    if can_open_tpmrm0 then true else if can_open_tpm0 then true else false
