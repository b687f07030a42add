-- ===== src/Tests/Whole.antt =====
-- The host of linux/native_host/native_host.c with the driver on a machine whose TPM does not open.
use sdk_native.Prelude.{
  ℕ, ◌<◌, ◌≡◌, ◌≢◌, refl, List, [], ◌∷◌, Bool, true, false, none, some, codes, length, arith,
  if◌then◌else◌, ◌==◌, ◌+◌, pos, Bool-cases, inl, inr,
}
use sdk_native.Protocol.{RootHeraldResult}
use sdk_native.Base64.{base64_decode}
use sdk_native.Base64.Decode.{size_of, base64_decode_lem}
use sdk_native.Transport.{Curl}
use sdk_native.Tpm.{Esys, World, tpm_open, tpm_is_available}
use sdk_native.Host.{Client, main_loop, uninit, dispatch, c_text}
use sdk_native.Host.Frame.{framed}
use sdk_native.Host.Service.{answers, answer_to}
use sdk_native.Driver.{get_status, probe_tpm}
use sdk_native.Driver.Enroll.{no_info, enroll, root_herald_enroll}
use sdk_native.Driver.Attest.{empty_info, attest, root_herald_attest}
use sdk_native.Driver.Fits.{Driven, main_loop-driver, dispatch-driver}

abbrev unplugged : Esys
unplugged = record {
  Dev = ℕ;
  Public = List ℕ;
  Signature = List ℕ;
  max_nv_buffer_size = 4;
  data_size = 64;
  id_object_size = 68;
  encrypted_secret_size = 256;
  initialize = λ dev. (false, dev);
  finalize = λ dev. dev;
  flush_context = λ h dev. (true, dev);
  create_primary = λ p dev. (none, dev);
  create = λ parent dev. (none, dev);
  load = λ parent private public dev. (none, dev);
  read_public = λ h dev. (none, dev);
  marshal_public = λ public. some public;
  tr_from_tpm_public = λ index dev. (none, dev);
  nv_data_size = λ h dev. (none, dev);
  nv_read = λ h n offset dev. (none, dev);
  quote = λ h data_bytes select dev. (none, dev);
  marshal_signature = λ signature. some signature;
  pcr_read = λ select dev. (none, dev);
  start_policy_session = λ dev. (none, dev);
  policy_secret = λ h dev. (false, dev);
  activate_credential = λ ak ek session cred secret dev. (none, dev);
}

abbrev offline : Curl
offline request = none

abbrev dirt : ℕ → ℕ
dirt n = 204

abbrev plenty : ℕ → Bool
plenty n = true

abbrev start : World unplugged
start = record { dev = 0; trace = [] }

-- A nonce that decodes to nothing is refused before the device is opened.
abbrev refusal : List ℕ → RootHeraldResult
refusal n =
    if size_of n == 0
    then RootHeraldResult.rh_proto_err_invalid_param
    else RootHeraldResult.rh_proto_err_no_tpm

abbrev machine : Client
machine = record {
  get_status = (
    RootHeraldResult.rh_proto_ok,
    record { is_enrolled = false; device_id = []; platform = codes "linux"; has_tpm = false },
  );
  enroll = λ url force. (RootHeraldResult.rh_proto_err_no_tpm, no_info);
  attest = λ u s n len. (refusal n, empty_info);
}

gets_status :
    get_status unplugged true false none start
    ≡ some (machine.get_status.0, machine.get_status.1, start)
unfolding get_status probe_tpm tpm_open tpm_is_available
gets_status = refl

enrolls :
    (url : List ℕ)
    → root_herald_enroll unplugged offline dirt (some url) (pos 0) true 9 start
      ≡ some (RootHeraldResult.rh_proto_err_no_tpm, some no_info, start)
unfolding root_herald_enroll enroll tpm_open
enrolls url = refl

not_empty : (c : ℕ) (n : List ℕ) → (c ∷ n) ≢ []
not_empty c n e = cc

refused :
    (u s n : List ℕ)
    → n ≢ []
    → length n < 4096
    → root_herald_attest unplugged offline dirt none
        (some u)
        (some s)
        (some n)
        (length n)
        true
        start
      ≡ some (refusal n, some empty_info, start)
unfolding root_herald_attest attest tpm_open uninit
refused u s n ne k =
    rw (base64_decode_lem n (uninit dirt 256) 256 ne (omega arith) (omega arith) (omega arith))
      (elim (Bool-cases (size_of n == 0)) [ inl e ↦ rw e refl | inr e ↦ rw e refl ])

attests :
    (u s n : List ℕ)
    → length n < 4096
    → root_herald_attest unplugged offline dirt none
        (some u)
        (some s)
        (some n)
        (length n)
        true
        start
      ≡ some (refusal n, some empty_info, start)
unfolding root_herald_attest attest base64_decode
attests u s [] k = refl
attests u s (c ∷ n) k = refused u s (c ∷ n) (not_empty c n) k

machine-Driven : Driven unplugged offline dirt none true false none machine
machine-Driven = record {
  status_of = (start, start, gets_status);
  enroll_of = λ url. (9, start, start, enrolls url);
  attest_of = λ u s n k. (start, start, attests u s n k);
}

abbrev ask_enroll : List ℕ
ask_enroll = codes "{\"action\":\"enroll\",\"id\":\"7\",\"serverUrl\":\"https://rh\"}"

abbrev ask_status : List ℕ
ask_status = codes "{\"action\":\"status\",\"id\":\"8\"}"

main_loop-driver_example :
    main_loop dirt
      (length (framed (ask_enroll ∷ ask_status ∷ [])) + 1)
      plenty
      (λ i. machine)
      (framed (ask_enroll ∷ ask_status ∷ []))
    ≡ some (answers (λ i. machine) (ask_enroll ∷ ask_status ∷ []))
main_loop-driver_example =
    main_loop-driver unplugged offline dirt none true false none plenty (λ i. machine)
      (ask_enroll ∷ ask_status ∷ []) (λ i. machine-Driven) tt (λ i u s n k. omega arith)
      ((omega arith, refl), ((omega arith, refl), tt))

dispatch-driver_example :
    dispatch dirt machine (c_text ask_status) ≡ some (answer_to machine (c_text ask_status))
dispatch-driver_example =
    dispatch-driver unplugged offline dirt none true false none machine ask_status machine-Driven tt
      (λ u s n k. omega arith)
