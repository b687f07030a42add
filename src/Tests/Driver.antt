-- ===== src/Tests/Driver.antt =====
-- RootHeraldEnroll and RootHeraldAttest with a device in software and a server that answers one text.
use sdk_native.Prelude.{
  minus_one, ℕ, ◌+◌, ◌≡◌, refl, List, [], ◌∷◌, true, false, Option, none, some, codes, ◌==◌,
  if◌then◌else◌,
}
use sdk_native.Memory.{memcpy, store}
use sdk_native.Protocol.{RootHeraldResult}
use sdk_native.Host.{uninit}
use sdk_native.Transport.{Curl}
use sdk_native.Tpm.{
  Esys, World, Output, TpmContext, tpm_open, tpm_close, flush_slot, flush, copy_out,
}
use sdk_native.Tpm.Keys.{
  create_primary, load, load_ak, marshal_out, tpm_read_ek_pub, tpm_create_ak, tpm_get_ak_pub,
}
use sdk_native.Tpm.Attest.{tpm_quote, qualifying_data}
use sdk_native.Tpm.Handles.{live}
use sdk_native.Base64.{base64_decode, decoded_size}
use sdk_native.Driver.Enroll.{Enrolled, no_info, enroll_with_ak, enroll_keys}
use sdk_native.Driver.Attest.{Attested, empty_info, attest_open, attest}
use sdk_native.Driver.Closed.{enroll_keys-Closed, attest-Closed}
use sdk_native.Driver.Outcome.{Outcome, Verdict, enroll_keys-Outcome, attest-Verdict}

-- The device counts its handles, has no certificate and gives no quote.
abbrev bare : Esys
bare = record {
  Dev = ℕ;
  Public = List ℕ;
  Signature = List ℕ;
  max_nv_buffer_size = 4;
  data_size = 64;
  id_object_size = 68;
  encrypted_secret_size = 256;
  initialize = λ dev. (true, dev);
  finalize = λ dev. dev;
  flush_context = λ h dev. (true, dev);
  create_primary = λ p dev. (some (dev, codes "public"), dev + 1);
  create = λ parent dev. (some (codes "private", codes "public"), dev);
  load = λ parent private public dev. (some dev, dev + 1);
  read_public = λ h dev. (if h == 1 then some (codes "public", codes "name") else none, dev);
  marshal_public = λ public. some public;
  tr_from_tpm_public = λ index dev. (none, dev);
  nv_data_size = λ h dev. (none, dev);
  nv_read = λ h n offset dev. (none, dev);
  quote = λ h data_bytes select dev. (none, dev);
  marshal_signature = λ signature. some signature;
  pcr_read = λ select dev. (none, dev);
  start_policy_session = λ dev. (none, dev);
  policy_secret = λ h dev. (false, dev);
  activate_credential = λ ak ek session cred secret dev. (none, dev);
}

abbrev answering : Curl
answering request =
    some (record { chunks = codes "{\"deviceId\":\"d1\"}" ∷ []; is_ok = true; http_code = 201 })

abbrev sevens : ℕ → ℕ
sevens n = 7

abbrev start : World bare
start = record { dev = 1; trace = [] }

abbrev url : List ℕ
url = codes "https://rh"

abbrev enrolled_or :
    Option (Enrolled bare answering sevens url) → Enrolled bare answering sevens url
enrolled_or none = (RootHeraldResult.rh_proto_err_internal, no_info, start)
enrolled_or (some r) = r

abbrev no_certificate : Output
no_certificate = record { rc = minus_one; buf = none; len = 4096 }

abbrev opened : TpmContext
opened = record { ek_handle = none; srk_handle = none; ak_handle = none }

abbrev enrolled : Enrolled bare answering sevens url
enrolled = enrolled_or (enroll_keys bare answering sevens url no_certificate opened start)

-- Both keys are made, and the public area of the second is not read.
enrolls : enroll_keys bare answering sevens url no_certificate opened start ≡ some enrolled
unfolding enroll_keys enroll_with_ak tpm_read_ek_pub tpm_create_ak tpm_get_ak_pub load_ak load
    create_primary marshal_out copy_out memcpy flush uninit tpm_close flush_slot store
enrolls = refl

enroll_keys-Closed_example : live enrolled.2.trace ≡ []
unfolding live
enroll_keys-Closed_example =
    enroll_keys-Closed bare answering sevens url no_certificate opened start enrolled tt enrolls

enroll_keys-Outcome_example : Outcome enrolled.0 enrolled.1
enroll_keys-Outcome_example =
    enroll_keys-Outcome bare answering sevens url no_certificate opened start enrolled enrolls

abbrev attested_or :
    Option (Attested bare answering sevens none url (codes "s1"))
    → Attested bare answering sevens none url (codes "s1")
attested_or none = (RootHeraldResult.rh_proto_err_internal, empty_info, start)
attested_or (some r) = r

abbrev attested : Attested bare answering sevens none url (codes "s1")
attested = attested_or (attest bare answering sevens none url (codes "s1") (codes "AAAA") start)

-- The key is made, and the quote fails.
attests : attest bare answering sevens none url (codes "s1") (codes "AAAA") start ≡ some attested
unfolding attest attest_open tpm_create_ak tpm_quote qualifying_data load_ak load create_primary
    marshal_out copy_out memcpy tpm_open flush uninit tpm_close flush_slot store base64_decode
    decoded_size
attests = refl

attest-Closed_example : live attested.2.trace ≡ []
unfolding live
attest-Closed_example =
    attest-Closed bare answering sevens none url (codes "s1") (codes "AAAA") start attested refl
      attests

attest-Verdict_example : Verdict answering sevens url (codes "s1") attested.0 attested.1
attest-Verdict_example =
    attest-Verdict bare answering sevens none url (codes "s1") (codes "AAAA") start attested attests
