-- ===== src/Driver/Outcome.antt =====
-- What RootHeraldEnroll and RootHeraldAttest return, and what their structs then hold.
use sdk_native.Prelude.{
  ℕ, ℤ, ◌≡◌, ◌≢◌, ◌<◌, refl, inl, inr, List, [], ◌∷◌, Bool, true, false, Option, none, some, length,
  take, ◌==◌, ◌&&◌, ◌||◌, if◌then◌else◌, ◌>>=◌, codes, Ends, gives, Ends-test, Ends-from, Ends-if,
  Ends-at, Bool-cases, arith, String, length-take, ==_iff, All-take,
}
use sdk_native.Memory.{Buffer}
use sdk_native.Base64.{base64_decode}
use sdk_native.Protocol.{RootHeraldResult, RootHeraldEnrollmentInfo, RootHeraldAttestationInfo}
use sdk_native.Json.{json_get}
use sdk_native.Transport.{Curl}
use sdk_native.Tpm.{Esys, World, TpmContext, Output, tpm_open}
use sdk_native.Tpm.Keys.{tpm_read_ek_pub, tpm_create_ak, tpm_get_ak_pub, tpm_get_ak_name}
use sdk_native.Tpm.Attest.{tpm_quote}
use sdk_native.Host.{uninit, same_text}
use sdk_native.Host.Object.{IsText}
use sdk_native.Host.Texts.{text_at-IsText}
use sdk_native.Driver.Parts.{is_code, output_bytes, encoded, field_of, object_of, post}
use sdk_native.Driver.Enroll.{
  Enrolled, EnrollKeys, no_info, is_empty, enroll_fields, activate_fields, partial_info,
  encode_keys, confirm, activate, answer_challenge, read_enrollment, post_enrollment,
  enroll_with_ak, enroll_keys,
}
use sdk_native.Driver.Attest.{
  Attested, empty_info, pcr_indices, pcr_object, attest_body, read_attestation, send_quote,
  attest_open, attest_from, attest,
}

-- The outcomes of an enrollment: OK with the id of a device that fits in its array and
-- holds no NUL, or one of two
-- errors with a struct that is all zero.
pub data Outcome : RootHeraldResult → RootHeraldEnrollmentInfo → Type 0 where
  enrolled :
      (info : RootHeraldEnrollmentInfo)
      → 0 < length info.device_id
      → length info.device_id < 64
      → IsText info.device_id
      → Outcome RootHeraldResult.rh_proto_ok info
  without_tpm : Outcome RootHeraldResult.rh_proto_err_no_tpm no_info
  refused : Outcome RootHeraldResult.rh_proto_err_enrollment_failed no_info

-- What a struct holds of an answer of the server: its fields, cut to the arrays, and the session that was
-- asked for.
pub record ReadFrom (garbage : ℕ → ℕ) (session_id response status : List ℕ)
    (info : RootHeraldAttestationInfo) : Type 0 where
  pub status_read : field_of garbage response "status" 32 ≡ some status
  pub status_is : info.status ≡ take 31 status
  pub session_is : info.session_id ≡ take 63 session_id
  pub code_is :
      (s : List ℕ) × (field_of garbage response "authorizationCode" 128 ≡ some s)
      × (info.authorization_code ≡ take 127 s)
  pub uri_is :
      (s : List ℕ) × (field_of garbage response "redirectUri" 2048 ≡ some s)
      × (info.redirect_uri ≡ take 2047 s)
  pub reason_is :
      (s : List ℕ) × (field_of garbage response "reason" 512 ≡ some s)
      × (info.failure_reason ≡ take 511 s)

-- The text is what the server answered, with the code 200, to some attestation that was posted to it.
pub record Answered (curl : Curl) (garbage : ℕ → ℕ) (server_url response : List ℕ) : Type 0 where
  pub body : List ℕ
  pub code : ℤ
  pub is_posted : post garbage curl server_url "/api/v1/attest" body 8192 ≡ some (code, response)
  pub is_accepted : is_code 200 code ≡ true

-- The outcomes of an attestation: OK for an answer whose status is "verified", a failure for one with
-- any other status, or an error with a struct that is all zero.
pub data Verdict (curl : Curl) (garbage : ℕ → ℕ) (server_url session_id : List ℕ)
    : RootHeraldResult → RootHeraldAttestationInfo → Type 0 where
  verified :
      (info : RootHeraldAttestationInfo) (response : List ℕ)
      → Answered curl garbage server_url response
      → ReadFrom garbage session_id response (codes "verified") info
      → Verdict curl garbage server_url session_id RootHeraldResult.rh_proto_ok info
  rejected :
      (info : RootHeraldAttestationInfo) (response status : List ℕ)
      → Answered curl garbage server_url response
      → ReadFrom garbage session_id response status info
      → status ≢ codes "verified"
      → Verdict curl garbage server_url session_id RootHeraldResult.rh_proto_err_attestation_failed
          info
  no_nonce :
      Verdict curl garbage server_url session_id RootHeraldResult.rh_proto_err_invalid_param
        empty_info
  no_device :
      Verdict curl garbage server_url session_id RootHeraldResult.rh_proto_err_no_tpm empty_info
  no_evidence :
      Verdict curl garbage server_url session_id RootHeraldResult.rh_proto_err_attestation_failed
        empty_info

pub field_of-IsText :
    (garbage : ℕ → ℕ) (response : List ℕ) (key : String) (n : ℕ) (s : List ℕ)
    → field_of garbage response key n ≡ some s
    → IsText s
unfolding field_of
field_of-IsText garbage response key n s e =
    Ends-at IsText
      (Ends-from (json_get response (codes key) (uninit garbage n) n) _ λ r _. text_at-IsText r.1 0)
      e

empty_or_not : (s : List ℕ) → is_empty s ≡ false → 0 < length s
empty_or_not [] h = cc
empty_or_not (b ∷ s) h = omega arith

named :
    (device_id cred secret : List ℕ)
    → is_empty device_id ≡ false
    → IsText device_id
    → Outcome RootHeraldResult.rh_proto_ok (partial_info device_id cred secret)
unfolding partial_info
named device_id cred secret h plain =
    let some_bytes = empty_or_not device_id h in
    let size = length-take 63 device_id in
    enrolled _ (omega (arith, some_bytes, size)) (omega (arith, size))
      (All-take (λ c. c ≢ 0) 63 device_id plain)

first_of : (a b c : Bool) → (a || b || c) ≡ false → a ≡ false
first_of true b c h = cc
first_of false b c h = refl

both_true : (a b : Bool) → (a && b) ≡ true → (a ≡ true) × (b ≡ true)
both_true true b h = (refl, h)
both_true false b h = cc

same_text_sound : (s t : List ℕ) → same_text s t ≡ true → s ≡ t
unfolding same_text
same_text_sound [] [] h = refl
same_text_sound [] (d ∷ t) h = cc
same_text_sound (c ∷ s) [] h = cc
same_text_sound (c ∷ s) (d ∷ t) h =
    let (first, others) = both_true (c == d) (same_text s t) h in
    let same : c ≡ d = (==_iff c d).0 first in let rest = same_text_sound s t others in cc

differs : (s t : List ℕ) → same_text s t ≡ false → s ≢ t
unfolding same_text
differs s t h e = never s (rw (← e) at h)
  where
    never : (s : List ℕ) → same_text s s ≡ false → ⊥
    never [] h = cc
    never (c ∷ s) h = never s (rw ((==_iff c c).1 refl) at h)

module _ (esys : Esys) (curl : Curl) (garbage : ℕ → ℕ) where
  module _ (server_url : List ℕ) where
    abbrev HasOutcome : Enrolled esys curl garbage server_url → Type 0
    HasOutcome r = Outcome r.0 r.1

    confirm-Outcome :
        (device_id ak_pub : List ℕ) (decrypted : Output) (tpm : TpmContext) (w : World esys)
        → is_empty device_id ≡ false
        → IsText device_id
        → Ends HasOutcome (confirm esys curl garbage server_url device_id ak_pub decrypted tpm w)
    unfolding confirm
    confirm-Outcome device_id ak_pub decrypted tpm w h plain =
        Ends-from (output_bytes decrypted >>= λ bytes. encoded garbage bytes 512) _ λ b64 _.
          Ends-from (object_of garbage 8192 (activate_fields device_id b64 ak_pub)) _ λ body _.
            Ends-from (post garbage curl server_url "/api/v1/devices/activate" body 4096) _ λ r _.
              Ends-if (is_code 200 r.0) (gives (named device_id [] [] h plain)) (gives refused)

    answer_challenge-Outcome :
        (device_id cred_b64 secret_b64 ak_pub : List ℕ) (tpm : TpmContext) (w : World esys)
        → is_empty device_id ≡ false
        → IsText device_id
        → Ends HasOutcome (
            answer_challenge esys curl garbage server_url device_id cred_b64 secret_b64 ak_pub tpm
              w)
    unfolding answer_challenge
    answer_challenge-Outcome device_id cred_b64 secret_b64 ak_pub tpm w h plain =
        Ends-from (base64_decode cred_b64 (uninit garbage 2048) 2048) _ λ cred _.
          Ends-from (base64_decode secret_b64 (uninit garbage 2048) 2048) _ λ secret _.
            Ends-from (activate esys curl garbage server_url tpm cred secret w) _ λ r _.
              Ends-if (is_code 0 r.0.rc) (confirm-Outcome device_id ak_pub r.0 tpm r.1 h plain)
                (gives (named device_id cred_b64 secret_b64 h plain))

    read_enrollment-Outcome :
        (response ak_pub : List ℕ) (tpm : TpmContext) (w : World esys)
        → Ends HasOutcome (read_enrollment esys curl garbage server_url response ak_pub tpm w)
    unfolding read_enrollment
    read_enrollment-Outcome response ak_pub tpm w =
        Ends-from (field_of garbage response "deviceId" 64) _ λ device_id e.
          let plain = field_of-IsText garbage response "deviceId" 64 device_id e in
          Ends-from (field_of garbage response "credentialBlob" 4096) _ λ cred _.
            Ends-from (field_of garbage response "encryptedSecret" 4096) _ λ secret _.
              Ends-test (is_empty device_id || is_empty cred || is_empty secret)
                (λ _.
                  Ends-test (is_empty device_id) (λ _. gives refused)
                    λ h. gives (named device_id cred secret h plain))
                λ h.
                  answer_challenge-Outcome device_id cred secret ak_pub tpm w (first_of _ _ _ h)
                    plain

    post_enrollment-Outcome :
        (keys : EnrollKeys) (tpm : TpmContext) (w : World esys)
        → Ends HasOutcome (post_enrollment esys curl garbage server_url keys tpm w)
    unfolding post_enrollment
    post_enrollment-Outcome keys tpm w =
        Ends-from (object_of garbage 16384 (enroll_fields keys)) _ λ body _.
          Ends-from (post garbage curl server_url "/api/v1/devices/enroll" body 8192) _ λ r _.
            Ends-if (is_code 201 r.0 || is_code 200 r.0)
              (read_enrollment-Outcome r.1 keys.ak_pub_b64 tpm w) (gives refused)

    enroll_with_ak-Outcome :
        (ek_cert ek_pub : Output) (tpm : TpmContext) (w : World esys)
        → Ends HasOutcome (enroll_with_ak esys curl garbage server_url ek_cert ek_pub tpm w)
    unfolding enroll_with_ak
    enroll_with_ak-Outcome ek_cert ek_pub tpm w =
        Ends-from (tpm_get_ak_pub esys tpm (some (uninit garbage 1024)) 1024 w) _ λ ak_pub _.
          Ends-if (is_code 0 ak_pub.0.rc)
            (Ends-from (tpm_get_ak_name esys tpm (some (uninit garbage 256)) 256 ak_pub.1) _
              λ ak_name _.
                Ends-if (is_code 0 ak_name.0.rc)
                  (Ends-from
                    (encode_keys esys curl garbage server_url ek_cert ek_pub ak_pub.0 ak_name.0) _
                    λ keys _. post_enrollment-Outcome keys tpm ak_name.1)
                  (gives refused))
            (gives refused)

    keys-Outcome :
        (ek_cert : Output) (tpm : TpmContext) (w : World esys)
        → Ends HasOutcome (enroll_keys esys curl garbage server_url ek_cert tpm w)
    unfolding enroll_keys
    keys-Outcome ek_cert tpm w =
        Ends-from (tpm_read_ek_pub esys tpm (some (uninit garbage 1024)) 1024 w) _ λ r _.
          let ak = tpm_create_ak esys r.1 r.2 in
          Ends-if (is_code 0 r.0.rc)
            (Ends-if (is_code 0 ak.0) (enroll_with_ak-Outcome ek_cert r.0 ak.1 ak.2)
              (gives refused))
            (gives without_tpm)

    -- RootHeraldEnroll from the read of the certificate on, whatever that read gave: where it returns
    -- OK, it gives a device id that is not empty and fits in its array with its NUL; elsewhere it
    -- returns NO_TPM or ENROLLMENT_FAILED with a struct that is all zero.
    pub enroll_keys-Outcome :
        (ek_cert : Output) (tpm : TpmContext) (w : World esys)
        (r : Enrolled esys curl garbage server_url)
        → enroll_keys esys curl garbage server_url ek_cert tpm w ≡ some r
        → Outcome r.0 r.1
    enroll_keys-Outcome ek_cert tpm w r e = Ends-at HasOutcome (keys-Outcome ek_cert tpm w) e

  module _ (event_log : Option (List ℕ)) (server_url session_id : List ℕ) where
    abbrev HasVerdict : Attested esys curl garbage event_log server_url session_id → Type 0
    HasVerdict r = Verdict curl garbage server_url session_id r.0 r.1

    judged :
        (response status : List ℕ) (info : RootHeraldAttestationInfo)
        → Answered curl garbage server_url response
        → ReadFrom garbage session_id response status info
        → Verdict curl garbage server_url session_id
            (if same_text status (codes "verified")
              then RootHeraldResult.rh_proto_ok
              else RootHeraldResult.rh_proto_err_attestation_failed)
            info
    judged response status info a h = elim (Bool-cases (same_text status (codes "verified"))) [
      | inl same ↦
          let k = rw (same_text_sound status (codes "verified") same) at h in
          rw same (verified info response a k)
      | inr other ↦
          rw other (rejected info response status a h (differs status (codes "verified") other))
    ]

    read_attestation-Verdict :
        (response : List ℕ) (tpm : TpmContext) (w : World esys)
        → Answered curl garbage server_url response
        → Ends HasVerdict
            (read_attestation esys curl garbage event_log server_url session_id response tpm w)
    unfolding read_attestation
    read_attestation-Verdict response tpm w a =
        Ends-from (field_of garbage response "status" 32) _ λ status e1.
          Ends-from (field_of garbage response "authorizationCode" 128) _ λ auth_code e2.
            Ends-from (field_of garbage response "redirectUri" 2048) _ λ redirect_uri e3.
              Ends-from (field_of garbage response "reason" 512) _ λ reason e4. gives (
                judged response status _ a (record {
                  status_read = e1;
                  status_is = refl;
                  session_is = refl;
                  code_is = (auth_code, e2, refl);
                  uri_is = (redirect_uri, e3, refl);
                  reason_is = (reason, e4, refl);
                }))

    send_quote-Verdict :
        (quoted sig : Output) (tpm : TpmContext) (w : World esys)
        → Ends HasVerdict
            (send_quote esys curl garbage event_log server_url session_id quoted sig tpm w)
    unfolding send_quote
    send_quote-Verdict quoted sig tpm w =
        Ends-from (pcr_object esys curl garbage event_log server_url session_id w) _ λ r _.
          Ends-from (output_bytes quoted) _ λ quoted_bytes _.
            Ends-from (output_bytes sig) _ λ sig_bytes _.
              Ends-from
                (attest_body esys curl garbage event_log server_url session_id quoted_bytes
                  sig_bytes r.0)
                _
                λ body _.
                  Ends-from (post garbage curl server_url "/api/v1/attest" body 8192) _ λ answer e.
                    Ends-test (is_code 200 answer.0)
                      (λ ok.
                        read_attestation-Verdict answer.1 tpm r.1 (record {
                          body = body;
                          code = answer.0;
                          is_posted = e;
                          is_accepted = ok;
                        }))
                      λ _. gives no_evidence

    attest_from-Verdict :
        (nonce : ℕ × Buffer) (ctx : Option TpmContext) (w : World esys)
        → Ends HasVerdict
            (attest_from esys curl garbage event_log server_url session_id nonce (ctx, w))
    unfolding attest_open
    attest_from-Verdict nonce none w = gives no_device
    attest_from-Verdict nonce (some tpm) w =
        let ak = tpm_create_ak esys tpm w in
        Ends-if (is_code 0 ak.0)
          (Ends-from
            (tpm_quote esys ak.1 nonce.1 nonce.0 pcr_indices (some (uninit garbage 4096)) 4096
              (some (uninit garbage 1024)) 1024 ak.2)
            _
            λ q _.
              Ends-if (is_code 0 q.1.rc) (send_quote-Verdict q.0 q.1 ak.1 q.2) (gives no_evidence))
          (gives no_evidence)

    -- Given its pointers, RootHeraldAttest returns OK only if the server answered 200 to what was
    -- posted, and the value of "status" in that answer, as far as it fits in 32 cells, is "verified";
    -- with any other status it returns ATTESTATION_FAILED. In both cases the struct holds status, code,
    -- address and reason of that answer and the session that was asked for, each cut to its array. On
    -- the other paths it returns INVALID_PARAM, NO_TPM or ATTESTATION_FAILED with a struct that is all
    -- zero.
    pub attest-Verdict :
        (nonce_b64 : List ℕ) (start : World esys)
        (r : Attested esys curl garbage event_log server_url session_id)
        → attest esys curl garbage event_log server_url session_id nonce_b64 start ≡ some r
        → Verdict curl garbage server_url session_id r.0 r.1
    unfolding attest
    attest-Verdict nonce_b64 start r e =
        Ends-at HasVerdict
          (Ends-from (base64_decode nonce_b64 (uninit garbage 256) 256) _ λ nonce _.
            Ends-if (nonce.0 == 0) (gives no_nonce)
              (attest_from-Verdict nonce (tpm_open esys start).0 (tpm_open esys start).1))
          e
