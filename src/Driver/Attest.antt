-- ===== src/Driver/Attest.antt =====
-- RootHeraldAttest of linux/src/client/rootherald_linux.c, and event_log_read of
-- linux/src/boot/event_log.c. The file of the event log is a parameter: its bytes, or `none` where it
-- does not open.
use sdk_native.Prelude.{
  ℕ, ◌+◌, ◌-◌, List, [], ◌∷◌, ◌++◌, Bool, true, false, Option, none, some, codes, length, take,
  replicate, ◌==◌, if◌then◌else◌, ◌>>=◌,
}
use sdk_native.Memory.{Buffer, text_at, snprintf, store}
use sdk_native.Protocol.{RootHeraldResult, RootHeraldAttestationInfo}
use sdk_native.Base64.{base64_decode}
use sdk_native.Hex.{bytes_to_hex}
use sdk_native.Json.{json_append_string, json_append_raw}
use sdk_native.Host.{uninit, same_text, begin_object, end_object}
use sdk_native.Transport.{Curl}
use sdk_native.Tpm.{Esys, World, TpmContext, Output, tpm_open, tpm_close}
use sdk_native.Tpm.Keys.{tpm_create_ak}
use sdk_native.Tpm.Attest.{tpm_quote, tpm_pcr_read}
use sdk_native.EventLog.Names.{to_string}
use sdk_native.Driver.Parts.{is_code, output_bytes, encoded, field_of, object_of, post}

abbrev pub empty_info : RootHeraldAttestationInfo
empty_info = record {
  session_id = [];
  status = [];
  authorization_code = [];
  redirect_uri = [];
  failure_reason = [];
}

abbrev pub pcr_indices : List ℕ
pcr_indices = 0 ∷ 1 ∷ 2 ∷ 3 ∷ 4 ∷ 7 ∷ []

-- What event_log_read leaves in an array of `n` cells; nothing where the file does not open.
unfoldable pub event_log_read : Option (List ℕ) → ℕ → List ℕ
event_log_read none n = []
event_log_read (some file) n = take n file

-- `snprintf(pcr_json + poff, sizeof(pcr_json) - poff, ...)` of a text, and the new offset.
unfoldable pub append_text : Buffer → ℕ → List ℕ → Option (Buffer × ℕ)
append_text buf off text = do
  buf' ← snprintf buf off (4096 - off) text
  some (buf', off + length text)

abbrev pub pcr_entry : Bool → ℕ → List ℕ → List ℕ
pcr_entry is_first idx hex_val =
    (if is_first then [] else codes ",")
    ++ codes "\""
    ++ to_string idx
    ++ codes "\":\""
    ++ hex_val
    ++ codes "\""

module _ (esys : Esys) (curl : Curl) (garbage : ℕ → ℕ) (event_log : Option (List ℕ))
    (server_url session_id : List ℕ) where
  abbrev pub Attested : Type 0
  Attested = RootHeraldResult × RootHeraldAttestationInfo × World esys

  abbrev pub attest_failed : TpmContext → World esys → Option Attested
  attest_failed tpm w =
      some (RootHeraldResult.rh_proto_err_attestation_failed, empty_info, tpm_close esys tpm w)

  -- The digest in hexadecimal, or 64 zeros where it is not read.
  unfoldable pub pcr_hex : ℕ → World esys → Option (List ℕ × World esys)
  pcr_hex idx w = do
    (digest, w1) ← tpm_pcr_read esys idx (some (uninit garbage 64)) 64 w
    (if is_code 0 digest.rc
        then (do
          bytes ← output_bytes digest
          hex_buf ← bytes_to_hex bytes (uninit garbage 129)
          hex_val ← text_at hex_buf 0
          some (hex_val, w1))
        else some (replicate 64 b'0', w1))

  unfoldable pub pcr_loop :
      List ℕ → Bool → Buffer × ℕ → World esys → Option ((Buffer × ℕ) × World esys)
  pcr_loop [] is_first built w = some (built, w)
  pcr_loop (idx ∷ indices) is_first built w = do
    (hex_val, w1) ← pcr_hex idx w
    built' ← append_text built.0 built.1 (pcr_entry is_first idx hex_val)
    pcr_loop indices false built' w1

  -- 5. The object of the PCR values.
  unfoldable pub pcr_object : World esys → Option (List ℕ × World esys)
  pcr_object w = do
    start ← append_text (uninit garbage 4096) 0 (codes "{\"sha256\":{")
    (built, w1) ← pcr_loop pcr_indices true start w
    (buf, off) ← append_text built.0 built.1 (codes "}}")
    buf' ← store buf off 0
    pcr_json ← text_at buf' 0
    some (pcr_json, w1)

  -- 6 and 7. The body of the request.
  unfoldable pub attest_body : List ℕ → List ℕ → List ℕ → Option (List ℕ)
  attest_body quoted sig pcr_json = do
    quoted_b64 ← encoded garbage quoted 8192
    sig_b64 ← encoded garbage sig 2048
    let log = event_log_read event_log 65536
    event_log_b64 ← if length log == 0 then some [] else encoded garbage log 131072
    quote_json ←
        object_of garbage 16384 ((codes "quoted", quoted_b64) ∷ (codes "signature", sig_b64) ∷ [])
    (b0, off0) ← begin_object (uninit garbage 262144)
    (b1, off1) ← json_append_string b0 262144 off0 (codes "sessionId") session_id true
    (b2, off2) ← json_append_raw b1 262144 off1 (codes "quote") quote_json false
    (b3, off3) ← json_append_raw b2 262144 off2 (codes "pcrValues") pcr_json false
    (b4, off4) ← json_append_string b3 262144 off3 (codes "eventLog") event_log_b64 false
    (b5, off5) ← end_object b4 262144 off4
    text_at b5 0

  -- 9. The answer; the texts are cut to the arrays of the struct.
  unfoldable pub read_attestation : List ℕ → TpmContext → World esys → Option Attested
  read_attestation response tpm w = do
    status ← field_of garbage response "status" 32
    auth_code ← field_of garbage response "authorizationCode" 128
    redirect_uri ← field_of garbage response "redirectUri" 2048
    reason ← field_of garbage response "reason" 512
    some (
      if same_text status (codes "verified")
          then RootHeraldResult.rh_proto_ok
          else RootHeraldResult.rh_proto_err_attestation_failed,
      record {
        session_id = take 63 session_id;
        status = take 31 status;
        authorization_code = take 127 auth_code;
        redirect_uri = take 2047 redirect_uri;
        failure_reason = take 511 reason;
      },
      tpm_close esys tpm w,
    )

  -- 4 to 8. What comes after the quote.
  unfoldable pub send_quote : Output → Output → TpmContext → World esys → Option Attested
  send_quote quoted sig tpm w = do
    (pcr_json, w1) ← pcr_object w
    quoted_bytes ← output_bytes quoted
    sig_bytes ← output_bytes sig
    body ← attest_body quoted_bytes sig_bytes pcr_json
    (http_code, response) ← post garbage curl server_url "/api/v1/attest" body 8192
    (if is_code 200 http_code then read_attestation response tpm w1 else attest_failed tpm w1)

  -- 3. The quote over the nonce.
  unfoldable pub attest_open : ℕ × Buffer → TpmContext → World esys → Option Attested
  attest_open (nonce_len, nonce) tpm w =
      let (rc, tpm1, w1) = tpm_create_ak esys tpm w in
      if is_code 0 rc
      then (do
        (quoted, sig, w2) ←
            tpm_quote esys tpm1 nonce nonce_len pcr_indices (some (uninit garbage 4096)) 4096
              (some (uninit garbage 1024)) 1024 w1
        (if is_code 0 sig.rc then send_quote quoted sig tpm1 w2 else attest_failed tpm1 w2))
      else attest_failed tpm1 w1

  abbrev pub attest_from : ℕ × Buffer → Option TpmContext × World esys → Option Attested
  attest_from nonce (none, w) = some (RootHeraldResult.rh_proto_err_no_tpm, empty_info, w)
  attest_from nonce (some tpm, w) = attest_open nonce tpm w

  -- With its pointers given.
  unfoldable pub attest : List ℕ → World esys → Option Attested
  attest nonce_b64 w = do
    nonce ← base64_decode nonce_b64 (uninit garbage 256) 256
    (if nonce.0 == 0
        then some (RootHeraldResult.rh_proto_err_invalid_param, empty_info, w)
        else attest_from nonce (tpm_open esys w))

module _ (esys : Esys) (curl : Curl) (garbage : ℕ → ℕ) (event_log : Option (List ℕ)) where
  -- The tests at the start: without one of the texts or a struct nothing is done, and the struct,
  -- `none` here, is left as it is. `nonce_len` is not used.
  unfoldable pub root_herald_attest :
      Option (List ℕ)
      → Option (List ℕ)
      → Option (List ℕ)
      → ℕ
      → Bool
      → World esys
      → Option (RootHeraldResult × Option RootHeraldAttestationInfo × World esys)
  root_herald_attest (some server_url) (some session_id) (some nonce_b64) nonce_len true w = do
    (result, info, w1) ← attest esys curl garbage event_log server_url session_id nonce_b64 w
    some (result, some info, w1)
  root_herald_attest server_url session_id nonce_b64 nonce_len has_out w =
      some (RootHeraldResult.rh_proto_err_invalid_param, none, w)
