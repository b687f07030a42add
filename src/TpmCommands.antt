-- ===== src/TpmCommands.antt =====
-- windows/src/tpm/tpm_commands.cpp: the TPM commands as bytes, what SendCommand does with them, and
-- the words of a response. A `Write...` appends what its function here gives.
use sdk_native.Prelude.{
  ℕ, ◌+◌, ◌*◌, ◌/◌, ◌%◌, ◌^◌, List, [], ◌∷◌, ◌++◌, Bool, true, false, Option, none, some, length,
  take, drop, leb, ltb, ◌==◌, if◌then◌else◌, ◌>>=◌, get_elem?, bit_and, bit_or, replicate, not,
}
use sdk_native.Prelude.Bits.{u8, u16, u32, ◌<<<◌, ◌>>>◌}
pub mod Pcr
pub mod Keys
pub mod Activate
pub mod Nv
pub mod Words
pub mod Inside
pub mod Sessions
pub mod NvArea
pub mod PcrValue

abbrev pub tpm2_cc_pcr_read : ℕ
tpm2_cc_pcr_read = 0x0000017E

abbrev pub tpm2_cc_quote : ℕ
tpm2_cc_quote = 0x00000158

abbrev pub tpm2_cc_flush_context : ℕ
tpm2_cc_flush_context = 0x00000165

abbrev pub tpm2_cc_create_primary : ℕ
tpm2_cc_create_primary = 0x00000131

abbrev pub tpm2_cc_activate_credential : ℕ
tpm2_cc_activate_credential = 0x00000147

abbrev pub tpm2_cc_start_auth_session : ℕ
tpm2_cc_start_auth_session = 0x00000176

abbrev pub tpm2_cc_policy_secret : ℕ
tpm2_cc_policy_secret = 0x00000151

abbrev pub tpm2_cc_evict_control : ℕ
tpm2_cc_evict_control = 0x00000120

abbrev pub tpm2_cc_read_public : ℕ
tpm2_cc_read_public = 0x00000173

abbrev pub tpm2_cc_nv_read : ℕ
tpm2_cc_nv_read = 0x0000014E

abbrev pub tpm2_cc_nv_read_public : ℕ
tpm2_cc_nv_read_public = 0x00000169

abbrev pub tpm2_st_no_sessions : ℕ
tpm2_st_no_sessions = 0x8001

abbrev pub tpm2_st_sessions : ℕ
tpm2_st_sessions = 0x8002

abbrev pub tpm2_alg_sha256 : ℕ
tpm2_alg_sha256 = 0x000B

abbrev pub tpm2_alg_rsassa : ℕ
tpm2_alg_rsassa = 0x0014

abbrev pub tpm2_rh_owner : ℕ
tpm2_rh_owner = 0x40000001

abbrev pub tpm2_rc_success : ℕ
tpm2_rc_success = 0

unfoldable pub write_u16 : ℕ → List ℕ
write_u16 v = bit_and (v >>> 8) 0xff ∷ bit_and v 0xff ∷ []

unfoldable pub write_u32 : ℕ → List ℕ
write_u32 v =
    bit_and (v >>> 24) 0xff ∷ bit_and (v >>> 16) 0xff ∷ bit_and (v >>> 8) 0xff ∷ bit_and v 0xff ∷ []

abbrev pub write_tpm2b : List ℕ → List ℕ
write_tpm2b bytes = write_u16 (u16 (length bytes)) ++ bytes

abbrev pub begin_command : ℕ → ℕ → List ℕ
begin_command tag code = write_u16 tag ++ (write_u32 0 ++ write_u32 code)

-- A pointer into a vector: `none` is a read behind its end.
unfoldable pub read_u16 : List ℕ → ℕ → Option ℕ
read_u16 p i = do a ← get_elem? p i; b ← get_elem? p (i + 1); some (bit_or (a <<< 8) b)

unfoldable pub read_u32 : List ℕ → ℕ → Option ℕ
read_u32 p i = do
  a ← get_elem? p i
  b ← get_elem? p (i + 1)
  c ← get_elem? p (i + 2)
  d ← get_elem? p (i + 3)
  some (bit_or (bit_or (bit_or (a <<< 24) (b <<< 16)) (c <<< 8)) d)

-- `assign(data + first, data + first + count)` and the constructor of that form.
unfoldable pub slice : List ℕ → ℕ → ℕ → Option (List ℕ)
slice p first count =
    if ltb (length p) (first + count) then none else some (take count (drop first p))

-- One session: handle, no nonce, continueSession, no hmac.
abbrev pub session_auth : ℕ → List ℕ
session_auth handle = write_u32 handle ++ (write_u16 0 ++ (1 ∷ write_u16 0))

abbrev pub with_size : List ℕ → List ℕ
with_size area = write_u32 (u32 (length area)) ++ area

abbrev pub password_auth : List ℕ
password_auth = with_size (session_auth 0x40000009)

-- Whether the context is open, and the commands that were submitted, the last one first.
pub record TpmCommands : Type 0 where
  pub is_open : Bool
  pub sent : List (List ℕ)

-- TBS: the answer to a command after those that came before; `none` is a failed submission.
abbrev pub Tbs : Type 0
Tbs = List (List ℕ) → List ℕ → Option (List ℕ)

-- `creates` is whether Tbsi_Context_Create succeeds.
unfoldable pub open_context : Bool → TpmCommands → Bool × TpmCommands
open_context creates t =
    if t.is_open
    then (true, t)
    else if creates
    then (true, record t { is_open = true })
    else (false, t)

unfoldable pub close_context : TpmCommands → TpmCommands
close_context t = record t { is_open = false }

unfoldable pub set_size : List ℕ → List ℕ
set_size cmd =
    if leb 6 (length cmd) then take 2 cmd ++ (write_u32 (u32 (length cmd)) ++ drop 6 cmd) else cmd

abbrev pub or_empty : Option (List ℕ) → List ℕ
or_empty none = []
or_empty (some resp) = resp

unfoldable pub send_command : Tbs → List ℕ → TpmCommands → List ℕ × TpmCommands
send_command tbs cmd t =
    if t.is_open
    then (or_empty (tbs t.sent (set_size cmd)), record t { sent = set_size cmd ∷ t.sent })
    else ([], t)

-- `resp.size() < n || ReadU32(resp.data() + 6) != TPM2_RC_SUCCESS`
unfoldable pub is_success : ℕ → List ℕ → Option Bool
is_success n resp =
    if ltb (length resp) n
    then some false
    else (do rc ← read_u32 resp 6; some (rc == tpm2_rc_success))

abbrev pub flush_command : ℕ → List ℕ
flush_command handle = begin_command tpm2_st_no_sessions tpm2_cc_flush_context ++ write_u32 handle

unfoldable pub flush_context : Tbs → ℕ → TpmCommands → TpmCommands
flush_context tbs handle t = (send_command tbs (flush_command handle) t).1
