-- ===== src/Driver/Enroll.antt =====
-- RootHeraldEnroll of linux/src/client/rootherald_linux.c.
use sdk_native.Prelude.{
  ℕ, ℤ, List, [], ◌∷◌, Bool, true, false, ◌&&◌, ◌||◌, Option, none, some, codes, take, replicate,
  leb, if◌then◌else◌, ◌>>=◌,
}
use sdk_native.Memory.{Buffer, text_at}
use sdk_native.Protocol.{RootHeraldResult, RootHeraldEnrollmentInfo}
use sdk_native.Pem.{der_to_pem}
use sdk_native.Base64.{base64_decode}
use sdk_native.Host.{uninit}
use sdk_native.Transport.{Curl}
use sdk_native.Tpm.{Esys, World, TpmContext, Output, tpm_open, tpm_close}
use sdk_native.Tpm.Keys.{failed, tpm_read_ek_pub, tpm_create_ak, tpm_get_ak_pub, tpm_get_ak_name}
use sdk_native.Tpm.Certificate.{tpm_read_ek_cert}
use sdk_native.Tpm.Attest.{tpm_activate_credential}
use sdk_native.Driver.Parts.{is_code, output_bytes, encoded, field_of, object_of, post}

abbrev pub no_info : RootHeraldEnrollmentInfo
no_info = record { device_id = []; credential_blob = []; encrypted_secret = [] }

abbrev pub is_empty : List ℕ → Bool
is_empty [] = true
is_empty (b ∷ s) = false

-- The texts of the request.
pub record EnrollKeys : Type 0 where
  pub ek_cert_pem : List ℕ
  pub ek_pub_b64 : List ℕ
  pub ak_pub_b64 : List ℕ
  pub ak_name_b64 : List ℕ

-- strncpy into the zeroed struct, one byte less than each array.
unfoldable pub partial_info : List ℕ → List ℕ → List ℕ → RootHeraldEnrollmentInfo
partial_info device_id cred_blob_b64 enc_secret_b64 = record {
  device_id = take 63 device_id;
  credential_blob = take 4095 cred_blob_b64;
  encrypted_secret = take 4095 enc_secret_b64;
}

abbrev pub enroll_fields : EnrollKeys → List (List ℕ × List ℕ)
enroll_fields keys =
    (codes "ekCertPem", keys.ek_cert_pem)
    ∷ (codes "ekPublicKey", keys.ek_pub_b64)
    ∷ (codes "akPublicArea", keys.ak_pub_b64)
    ∷ (codes "akName", keys.ak_name_b64)
    ∷ (codes "platform", codes "linux")
    ∷ []

abbrev pub activate_fields : List ℕ → List ℕ → List ℕ → List (List ℕ × List ℕ)
activate_fields device_id decrypted_b64 ak_pub_b64 =
    (codes "deviceId", device_id)
    ∷ (codes "decryptedSecret", decrypted_b64)
    ∷ (codes "akPublicKey", ak_pub_b64)
    ∷ []

module _ (esys : Esys) (curl : Curl) (garbage : ℕ → ℕ) (server_url : List ℕ) where
  abbrev pub Enrolled : Type 0
  Enrolled = RootHeraldResult × RootHeraldEnrollmentInfo × World esys

  -- `tpm_close(tpm); return result;`
  abbrev pub close_with :
      RootHeraldResult → RootHeraldEnrollmentInfo → TpmContext → World esys → Option Enrolled
  close_with result info tpm w = some (result, info, tpm_close esys tpm w)

  abbrev pub enroll_failed : TpmContext → World esys → Option Enrolled
  enroll_failed = close_with RootHeraldResult.rh_proto_err_enrollment_failed no_info

  -- 6. The encodings; the array of the certificate starts empty.
  unfoldable pub encode_keys : Output → Output → Output → Output → Option EnrollKeys
  encode_keys ek_cert ek_pub ak_pub ak_name = do
    ek_cert_pem ←
        if is_code 0 ek_cert.rc
        then (do
          der ← output_bytes ek_cert
          (rc, pem) ← der_to_pem der (replicate 8192 0) 8192
          text_at pem 0)
        else some []
    ek_pub_b64 ← output_bytes ek_pub >>= λ bytes. encoded garbage bytes 2048
    ak_pub_b64 ← output_bytes ak_pub >>= λ bytes. encoded garbage bytes 2048
    ak_name_b64 ← output_bytes ak_name >>= λ bytes. encoded garbage bytes 512
    some (record {
      ek_cert_pem = ek_cert_pem;
      ek_pub_b64 = ek_pub_b64;
      ak_pub_b64 = ak_pub_b64;
      ak_name_b64 = ak_name_b64;
    })

  -- 12. The second request, and the end.
  unfoldable pub confirm : List ℕ → List ℕ → Output → TpmContext → World esys → Option Enrolled
  confirm device_id ak_pub_b64 decrypted tpm w = do
    decrypted_b64 ← output_bytes decrypted >>= λ bytes. encoded garbage bytes 512
    body ← object_of garbage 8192 (activate_fields device_id decrypted_b64 ak_pub_b64)
    (http_code, response) ← post garbage curl server_url "/api/v1/devices/activate" body 4096
    (if is_code 200 http_code
        then close_with RootHeraldResult.rh_proto_ok (partial_info device_id [] []) tpm w
        else enroll_failed tpm w)

  -- A decoded size that wrapped is more than the call takes: it refuses it before it reads.
  unfoldable pub activate :
      TpmContext → ℕ × Buffer → ℕ × Buffer → World esys → Option (Output × World esys)
  activate tpm (cred_len, cred) (secret_len, secret) w =
      if leb cred_len 2048 && leb secret_len 2048
      then tpm_activate_credential esys tpm (take cred_len cred) (take secret_len secret)
          (some (uninit garbage 256)) 256 w
      else some (failed (some (uninit garbage 256)) 256, w)

  -- 10 and 11. The activation of the credential.
  unfoldable pub answer_challenge :
      List ℕ → List ℕ → List ℕ → List ℕ → TpmContext → World esys → Option Enrolled
  answer_challenge device_id cred_blob_b64 enc_secret_b64 ak_pub_b64 tpm w = do
    cred ← base64_decode cred_blob_b64 (uninit garbage 2048) 2048
    secret ← base64_decode enc_secret_b64 (uninit garbage 2048) 2048
    (decrypted, w1) ← activate tpm cred secret w
    (if is_code 0 decrypted.rc
        then confirm device_id ak_pub_b64 decrypted tpm w1
        else close_with RootHeraldResult.rh_proto_ok
            (partial_info device_id cred_blob_b64 enc_secret_b64) tpm w1)

  -- 9. The answer of the server.
  unfoldable pub read_enrollment : List ℕ → List ℕ → TpmContext → World esys → Option Enrolled
  read_enrollment response ak_pub_b64 tpm w = do
    device_id ← field_of garbage response "deviceId" 64
    cred_blob_b64 ← field_of garbage response "credentialBlob" 4096
    enc_secret_b64 ← field_of garbage response "encryptedSecret" 4096
    (if is_empty device_id || is_empty cred_blob_b64 || is_empty enc_secret_b64
        then (if is_empty device_id
            then enroll_failed tpm w
            else close_with RootHeraldResult.rh_proto_ok
                (partial_info device_id cred_blob_b64 enc_secret_b64) tpm w)
        else answer_challenge device_id cred_blob_b64 enc_secret_b64 ak_pub_b64 tpm w)

  -- 7 and 8. The first request.
  unfoldable pub post_enrollment : EnrollKeys → TpmContext → World esys → Option Enrolled
  post_enrollment keys tpm w = do
    body ← object_of garbage 16384 (enroll_fields keys)
    (http_code, response) ← post garbage curl server_url "/api/v1/devices/enroll" body 8192
    (if is_code 201 http_code || is_code 200 http_code
        then read_enrollment response keys.ak_pub_b64 tpm w
        else enroll_failed tpm w)

  -- 5. The attestation key that was made.
  unfoldable pub enroll_with_ak : Output → Output → TpmContext → World esys → Option Enrolled
  enroll_with_ak ek_cert ek_pub tpm w = do
    (ak_pub, w1) ← tpm_get_ak_pub esys tpm (some (uninit garbage 1024)) 1024 w
    (if is_code 0 ak_pub.rc
        then (do
          (ak_name, w2) ← tpm_get_ak_name esys tpm (some (uninit garbage 256)) 256 w1
          (if is_code 0 ak_name.rc
              then (do
                keys ← encode_keys ek_cert ek_pub ak_pub ak_name
                post_enrollment keys tpm w2)
              else enroll_failed tpm w2))
        else enroll_failed tpm w1)

  -- 3 to 12. What comes after the read of the certificate.
  unfoldable pub enroll_keys : Output → TpmContext → World esys → Option Enrolled
  enroll_keys ek_cert tpm w = do
    (ek_pub, tpm1, w1) ← tpm_read_ek_pub esys tpm (some (uninit garbage 1024)) 1024 w
    (if is_code 0 ek_pub.rc
        then (let (rc, tpm2, w2) = tpm_create_ak esys tpm1 w1 in
            if is_code 0 rc then enroll_with_ak ek_cert ek_pub tpm2 w2 else enroll_failed tpm2 w2)
        else close_with RootHeraldResult.rh_proto_err_no_tpm no_info tpm1 w1)

  -- 2. The certificate.
  unfoldable pub enroll_open : ℕ → TpmContext → World esys → Option Enrolled
  enroll_open fuel tpm w = do
    (ek_cert, w1) ← tpm_read_ek_cert esys fuel (some (uninit garbage 4096)) 4096 w
    enroll_keys ek_cert tpm w1

  abbrev pub enroll_from : ℕ → Option TpmContext × World esys → Option Enrolled
  enroll_from fuel (none, w) = some (RootHeraldResult.rh_proto_err_no_tpm, no_info, w)
  enroll_from fuel (some tpm, w) = enroll_open fuel tpm w

  -- With its pointers given; `fuel` bounds the pieces of the certificate.
  unfoldable pub enroll : ℕ → World esys → Option Enrolled
  enroll fuel w = enroll_from fuel (tpm_open esys w)

module _ (esys : Esys) (curl : Curl) (garbage : ℕ → ℕ) where
  -- The tests at the start: without a server's address or a struct nothing is done, and the struct,
  -- `none` here, is left as it is. `force_reenroll` is not used.
  unfoldable pub root_herald_enroll :
      Option (List ℕ)
      → ℤ
      → Bool
      → ℕ
      → World esys
      → Option (RootHeraldResult × Option RootHeraldEnrollmentInfo × World esys)
  root_herald_enroll (some server_url) force_reenroll true fuel w = do
    (result, info, w1) ← enroll esys curl garbage server_url fuel w
    some (result, some info, w1)
  root_herald_enroll server_url force_reenroll has_out fuel w =
      some (RootHeraldResult.rh_proto_err_invalid_param, none, w)
