-- ===== src/Tests/Commands.antt =====
-- The TPM commands of windows/src/tpm/tpm_commands.cpp against small TPMs.
use sdk_native.Prelude.{
  ℕ, zero, suc, ◌+◌, ◌-◌, ◌<◌, min, ◌≡◌, refl, List, [], ◌∷◌, ◌++◌, Bool, true, false, ◌&&◌, none,
  some, replicate, take, drop, arith, ◌==◌, if◌then◌else◌, Inside,
}
use sdk_native.TpmCommands.{
  TpmCommands, Tbs, send_command, set_size, write_u16, write_u32, read_u16, read_u32, is_success,
  flush_context, flush_command,
}
use sdk_native.TpmCommands.Pcr.{pcr_read, quote, pcr_read_command, mark_pcrs}
use sdk_native.TpmCommands.Keys.{evict_control, created_ak, public_of}
use sdk_native.TpmCommands.Activate.{
  session_of, secret_of, activate_in, activate_credential, start_command, policy_command,
}
use sdk_native.TpmCommands.Nv.{
  k_chunk, nv_read_command, nv_read_public_command, read_nv_certificate,
}
use sdk_native.TpmCommands.Words.{success}
use sdk_native.TpmCommands.Inside.{responses-Inside}
use sdk_native.TpmCommands.Sessions.{Cleaned, sent_also, activate_credential-Cleaned}
use sdk_native.TpmCommands.NvArea.{
  PublicParts, PieceParts, Serves, public_body, piece_body, read_nv_certificate_lem,
}
use sdk_native.TpmCommands.PcrValue.{PcrValues, IsPcrValues, values_response, pcr_read_lem}

abbrev opened : TpmCommands
opened = record { is_open = true; sent = [] }

abbrev silent : Tbs
silent sent cmd = some []

responses-Inside_example :
    Inside (pcr_read silent 7 opened)
    × Inside (quote silent 0x81000000 (1 ∷ 2 ∷ []) (0 ∷ 7 ∷ []) [] opened)
    × Inside (evict_control silent 0x80000000 0x81010001 opened)
responses-Inside_example =
    responses-Inside silent opened 7 0x81000000 (1 ∷ 2 ∷ []) (0 ∷ 7 ∷ []) [] 0x80000000 0x81010001

-- A TPM that starts a session and then refuses its policy.
abbrev refusing : Tbs
refusing [] cmd = some (0x80 ∷ 0x01 ∷ 0 ∷ 0 ∷ 0 ∷ 14 ∷ write_u32 0 ++ write_u32 0x03000000)
refusing (c ∷ sent) cmd = some (0x80 ∷ 0x01 ∷ 0 ∷ 0 ∷ 0 ∷ 10 ∷ write_u32 0x0000098E)

abbrev refused : List ℕ × TpmCommands
refused = (
  [],
  record {
    is_open = true;
    sent =
        set_size (flush_command 0x03000000)
        ∷ set_size (policy_command 0x03000000)
        ∷ set_size start_command
        ∷ [];
  },
)

activate_credential-Cleaned_example : Cleaned 1 2 (7 ∷ []) (8 ∷ []) (some 0x03000000) opened refused
unfolding activate_credential activate_in session_of is_success read_u16 read_u32 send_command
    flush_context write_u32
activate_credential-Cleaned_example =
    activate_credential-Cleaned 1 2 (7 ∷ []) (8 ∷ []) refusing opened (some 0x03000000) refused refl
      refl refl

abbrev same : List ℕ → List ℕ → Bool
same [] [] = true
same [] (b ∷ t) = false
same (a ∷ s) [] = false
same (a ∷ s) (b ∷ t) = a == b && same s t

abbrev small_area : List ℕ
small_area = 0x30 ∷ 0x82 ∷ 0x01 ∷ []

abbrev six : List ℕ
six = replicate 6 0

abbrev piece_command : ℕ → List ℕ
piece_command offset = set_size (nv_read_command 0x01C00002 (3 - offset) offset)

-- Without sessions: the tag 8001, and a name of 34 bytes.
abbrev public_parts : PublicParts
public_parts = record {
  head = 0x80 ∷ 0x01 ∷ 0 ∷ 0 ∷ 0 ∷ 62 ∷ [];
  fixed = 0x01 ∷ 0xC0 ∷ 0x00 ∷ 0x02 ∷ 0x00 ∷ 0x0B ∷ 0x62 ∷ 0x04 ∷ 0x40 ∷ 0x08 ∷ [];
  policy = [];
  name = 0 ∷ 34 ∷ 0x00 ∷ 0x0B ∷ replicate 32 5;
  head_size = refl;
  fixed_size = refl;
  policy_size = omega arith;
}

-- With a session: the tag 8002, the size of the parameters, and the session's answer at the end.
abbrev piece_parts : ℕ → PieceParts
piece_parts count = record {
  head = 0x80 ∷ 0x02 ∷ 0 ∷ 0 ∷ 0 ∷ (21 + count) ∷ [];
  param_size = 0 ∷ 0 ∷ 0 ∷ (2 + count) ∷ [];
  sessions = 0 ∷ 0 ∷ 1 ∷ 0 ∷ 0 ∷ [];
  head_size = refl;
  param_size_size = refl;
}

abbrev piece_answer : ℕ → List ℕ
piece_answer offset =
    let p = piece_parts (min (3 - offset) 2) in
    success p.head (piece_body p.param_size (take 2 (drop offset small_area)) p.sessions)

-- A TPM with three bytes in its area that gives two of them at once.
abbrev with_area : Tbs
with_area sent cmd =
    if same cmd (set_size (nv_read_public_command 0x01C00002))
    then some (
        success public_parts.head
          (public_body public_parts.fixed public_parts.policy 3 public_parts.name))
    else if same cmd (piece_command 0)
    then some (piece_answer 0)
    else if same cmd (piece_command 1)
    then some (piece_answer 1)
    else if same cmd (piece_command 2)
    then some (piece_answer 2)
    else none

gives :
    (sent : List (List ℕ)) (offset : ℕ)
    → offset < 3
    → (p : PieceParts) × (with_area sent
          (set_size (nv_read_command 0x01C00002 (min (3 - offset) k_chunk) offset))
        ≡ some (
            success p.head (
              piece_body p.param_size
                (take (min (min (3 - offset) k_chunk) 2) (drop offset small_area))
                p.sessions)))
unfolding set_size write_u16 write_u32
gives sent zero h = (piece_parts 2, refl)
gives sent (suc zero) h = (piece_parts 2, refl)
gives sent (suc (suc zero)) h = (piece_parts 1, refl)
gives sent (suc (suc (suc n))) h = absurd (omega arith)

with_area-Serves : Serves with_area 0x01C00002 2 small_area
unfolding set_size write_u16 write_u32
with_area-Serves = record { tells_size = λ sent. (public_parts, refl); gives_piece = gives }

read_nv_certificate_example :
    (t' : TpmCommands) × (read_nv_certificate with_area 0x01C00002 opened
      ≡ some ((true, small_area), t'))
read_nv_certificate_example =
    read_nv_certificate_lem with_area 0x01C00002 2 small_area opened with_area-Serves (omega arith)
      (omega arith) (omega arith) refl

abbrev values : PcrValues
values = record {
  head = six;
  counter = replicate 4 1;
  selections = (0x000B, 0x80 ∷ 0 ∷ 0 ∷ []) ∷ [];
  digest_count = 1;
  digest = replicate 32 5;
  others = [];
}

values-IsPcrValues : IsPcrValues values
values-IsPcrValues = record {
  head_size = refl;
  counter_size = refl;
  selections_fit = omega arith;
  some_digest = omega arith;
  count_fits = omega arith;
  digest_fits = omega arith;
}

abbrev with_values : Tbs
with_values sent cmd = some (values_response values)

pcr_read_example :
    pcr_read with_values 7 opened ≡ some (replicate 32 5, sent_also (pcr_read_command 7) opened)
pcr_read_example = pcr_read_lem with_values 7 opened values refl values-IsPcrValues refl

-- A response of ten bytes that tells a success is read behind its end.
short_success_faults : secret_of (six ++ write_u32 0) ≡ none
unfolding secret_of is_success read_u16 read_u32 write_u32
short_success_faults = refl

-- So is a response of nineteen bytes that announces one byte of parameters.
short_public_faults :
    created_ak
      (six ++ (write_u32 0 ++ (write_u32 0x80000000 ++ (write_u32 1 ++ (0 ∷ [])))))
      (some [])
    ≡ none
unfolding created_ak public_of is_success read_u16 read_u32 write_u32
short_public_faults = refl

-- The bits of two PCRs.
two_pcrs : mark_pcrs (0 ∷ 15 ∷ 24 ∷ []) (0 ∷ 0 ∷ 0 ∷ []) ≡ 1 ∷ 0x80 ∷ 0 ∷ []
unfolding mark_pcrs
two_pcrs = refl
