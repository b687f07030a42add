-- ===== src/Driver/Closed.antt =====
-- RootHeraldEnroll and RootHeraldAttest close what they open: no key that they made stays loaded.
use sdk_native.Prelude.{
  ℕ, ◌≡◌, ap, ◌∙◌, List, [], ◌∷◌, Bool, true, false, Option, none, some, leb, ◌==◌, ◌&&◌, ◌||◌,
  ◌>>=◌, codes, Ends, gives, Ends->>=, Ends-from, Ends-if, Ends-at,
}
use sdk_native.Memory.{Buffer, text_at, store}
use sdk_native.Hex.{bytes_to_hex}
use sdk_native.Base64.{base64_decode}
use sdk_native.Transport.{Curl}
use sdk_native.Tpm.{Esys, World, TpmContext, Output, tpm_open}
use sdk_native.Tpm.Keys.{tpm_read_ek_pub, tpm_create_ak}
use sdk_native.Tpm.Handles.{
  live, InContext, Tracked, tpm_close-live, tpm_create_ak-Tracked, tpm_read_ek_pub-Tracked,
  tpm_open-trace,
}
use sdk_native.Host.{uninit}
use sdk_native.Driver.Parts.{is_code, output_bytes, encoded, field_of, object_of, post}
use sdk_native.Driver.Enroll.{
  Enrolled, EnrollKeys, enroll_fields, activate_fields, encode_keys, confirm, activate,
  answer_challenge, read_enrollment, post_enrollment, enroll_with_ak, enroll_keys,
}
use sdk_native.Driver.Attest.{
  Attested, pcr_indices, append_text, pcr_entry, pcr_hex, pcr_loop, pcr_object, attest_body,
  read_attestation, send_quote, attest_open, attest_from, attest,
}
use sdk_native.Driver.Handles.{
  tpm_get_ak_pub-Live, tpm_get_ak_name-Live, tpm_pcr_read-Live, tpm_quote-Live,
  tpm_activate_credential-Live,
}

module _ (esys : Esys) (curl : Curl) (garbage : ℕ → ℕ) where
  abbrev pub Closed {ℓ} : {A B : Type ℓ} → A × B × World esys → Type 0
  Closed r = live r.2.trace ≡ []

  module _ (server_url : List ℕ) where
    confirm-Closed :
        (device_id ak_pub : List ℕ) (decrypted : Output) (tpm : TpmContext) (w : World esys)
        → Tracked esys tpm w
        → Ends Closed (confirm esys curl garbage server_url device_id ak_pub decrypted tpm w)
    unfolding confirm
    confirm-Closed device_id ak_pub decrypted tpm w h =
        let closed = tpm_close-live esys tpm w h in
        Ends-from (output_bytes decrypted >>= λ bytes. encoded garbage bytes 512) _ λ b64 _.
          Ends-from (object_of garbage 8192 (activate_fields device_id b64 ak_pub)) _ λ body _.
            Ends-from (post garbage curl server_url "/api/v1/devices/activate" body 4096) _
              λ r _. Ends-if (is_code 200 r.0) (gives closed) (gives closed)

    activate-Live :
        (tpm : TpmContext) (cred secret : ℕ × Buffer) (w : World esys)
        → Tracked esys tpm w
        → Ends
            (λ (r : Output × World esys). Tracked esys tpm r.1)
            (activate esys curl garbage server_url tpm cred secret w)
    unfolding activate
    activate-Live tpm cred secret w h =
        Ends-if (leb cred.0 2048 && leb secret.0 2048)
          (tpm_activate_credential-Live esys (InContext tpm) tpm _ _ _ 256 w h) (gives h)

    answer_challenge-Closed :
        (device_id cred_b64 secret_b64 ak_pub : List ℕ) (tpm : TpmContext) (w : World esys)
        → Tracked esys tpm w
        → Ends Closed (
            answer_challenge esys curl garbage server_url device_id cred_b64 secret_b64 ak_pub tpm
              w)
    unfolding answer_challenge
    answer_challenge-Closed device_id cred_b64 secret_b64 ak_pub tpm w h =
        Ends-from (base64_decode cred_b64 (uninit garbage 2048) 2048) _ λ cred _.
          Ends-from (base64_decode secret_b64 (uninit garbage 2048) 2048) _ λ secret _.
            Ends->>= _ (activate-Live tpm cred secret w h) λ r k.
              Ends-if (is_code 0 r.0.rc) (confirm-Closed device_id ak_pub r.0 tpm r.1 k)
                (gives (tpm_close-live esys tpm r.1 k))

    read_enrollment-Closed :
        (response ak_pub : List ℕ) (tpm : TpmContext) (w : World esys)
        → Tracked esys tpm w
        → Ends Closed (read_enrollment esys curl garbage server_url response ak_pub tpm w)
    unfolding read_enrollment
    read_enrollment-Closed response ak_pub tpm w h =
        let closed = tpm_close-live esys tpm w h in
        Ends-from (field_of garbage response "deviceId" 64) _ λ device_id _.
          Ends-from (field_of garbage response "credentialBlob" 4096) _ λ cred _.
            Ends-from (field_of garbage response "encryptedSecret" 4096) _ λ secret _.
              Ends-if _ (Ends-if _ (gives closed) (gives closed))
                (answer_challenge-Closed device_id cred secret ak_pub tpm w h)

    post_enrollment-Closed :
        (keys : EnrollKeys) (tpm : TpmContext) (w : World esys)
        → Tracked esys tpm w
        → Ends Closed (post_enrollment esys curl garbage server_url keys tpm w)
    unfolding post_enrollment
    post_enrollment-Closed keys tpm w h =
        Ends-from (object_of garbage 16384 (enroll_fields keys)) _ λ body _.
          Ends-from (post garbage curl server_url "/api/v1/devices/enroll" body 8192) _ λ r _.
            Ends-if (is_code 201 r.0 || is_code 200 r.0)
              (read_enrollment-Closed r.1 keys.ak_pub_b64 tpm w h)
              (gives (tpm_close-live esys tpm w h))

    enroll_with_ak-Closed :
        (ek_cert ek_pub : Output) (tpm : TpmContext) (w : World esys)
        → Tracked esys tpm w
        → Ends Closed (enroll_with_ak esys curl garbage server_url ek_cert ek_pub tpm w)
    unfolding enroll_with_ak
    enroll_with_ak-Closed ek_cert ek_pub tpm w h =
        Ends->>= _ (tpm_get_ak_pub-Live esys (InContext tpm) tpm _ 1024 w h) λ ak_pub k.
          Ends-if (is_code 0 ak_pub.0.rc)
            (Ends->>= _ (tpm_get_ak_name-Live esys (InContext tpm) tpm _ 256 ak_pub.1 k)
              λ ak_name k'.
                Ends-if (is_code 0 ak_name.0.rc)
                  (Ends-from
                    (encode_keys esys curl garbage server_url ek_cert ek_pub ak_pub.0 ak_name.0) _
                    λ keys _. post_enrollment-Closed keys tpm ak_name.1 k')
                  (gives (tpm_close-live esys tpm ak_name.1 k')))
            (gives (tpm_close-live esys tpm ak_pub.1 k))

    keys-Closed :
        (ek_cert : Output) (tpm : TpmContext) (w : World esys)
        → Tracked esys tpm w
        → Ends Closed (enroll_keys esys curl garbage server_url ek_cert tpm w)
    unfolding enroll_keys
    keys-Closed ek_cert tpm w h =
        Ends-from (tpm_read_ek_pub esys tpm (some (uninit garbage 1024)) 1024 w) _ λ r e.
          let k' =
            tpm_read_ek_pub-Tracked esys tpm r.1 (some (uninit garbage 1024)) 1024 w r.2 r.0 h e in
          let made = tpm_create_ak-Tracked esys r.1 r.2 k' in
          let ak = tpm_create_ak esys r.1 r.2 in
          Ends-if (is_code 0 r.0.rc)
            (Ends-if (is_code 0 ak.0) (enroll_with_ak-Closed ek_cert r.0 ak.1 ak.2 made)
              (gives (tpm_close-live esys ak.1 ak.2 made)))
            (gives (tpm_close-live esys r.1 r.2 k'))

    -- RootHeraldEnroll from the read of the certificate on, whatever that read gave: if each key that
    -- was made and on which Esys_FlushContext was not called stands in the context, then on each path
    -- on which the function returns, it has called Esys_FlushContext on all of these keys and on all
    -- that it has made itself, whatever the TPM and the server answer. Whether a flush succeeds is not
    -- looked at by the code, and is not stated.
    pub enroll_keys-Closed :
        (ek_cert : Output) (tpm : TpmContext) (w : World esys)
        (r : Enrolled esys curl garbage server_url)
        → Tracked esys tpm w
        → enroll_keys esys curl garbage server_url ek_cert tpm w ≡ some r
        → live r.2.trace ≡ []
    enroll_keys-Closed ek_cert tpm w r h e = Ends-at Closed (keys-Closed ek_cert tpm w h) e

  module _ (event_log : Option (List ℕ)) (server_url session_id : List ℕ) where
    abbrev Here : TpmContext → World esys → Type 0
    Here = Tracked esys

    pcr_hex-Live :
        (tpm : TpmContext) (idx : ℕ) (w : World esys)
        → Here tpm w
        → Ends
            (λ (r : List ℕ × World esys). Here tpm r.1)
            (pcr_hex esys curl garbage event_log server_url session_id idx w)
    unfolding pcr_hex
    pcr_hex-Live tpm idx w h =
        Ends->>= _ (tpm_pcr_read-Live esys (InContext tpm) idx (some (uninit garbage 64)) 64 w h)
          λ digest k.
            Ends-if (is_code 0 digest.0.rc)
              (Ends-from (output_bytes digest.0) _ λ bytes _.
                Ends-from (bytes_to_hex bytes (uninit garbage 129)) _
                  λ buf _. Ends-from (text_at buf 0) _ λ hex_val _. gives k)
              (gives k)

    pcr_loop-Live :
        (tpm : TpmContext) (indices : List ℕ) (is_first : Bool) (built : Buffer × ℕ)
        (w : World esys)
        → Here tpm w
        → Ends
            (λ (r : (Buffer × ℕ) × World esys). Here tpm r.1)
            (pcr_loop esys curl garbage event_log server_url session_id indices is_first built w)
    unfolding pcr_loop
    pcr_loop-Live tpm [] is_first built w h = gives h
    pcr_loop-Live tpm (idx ∷ indices) is_first built w h =
        Ends->>= _ (pcr_hex-Live tpm idx w h) λ r k.
          Ends-from (append_text built.0 built.1 (pcr_entry is_first idx r.0)) _
            λ built' _. pcr_loop-Live tpm indices false built' r.1 k

    pcr_object-Live :
        (tpm : TpmContext) (w : World esys)
        → Here tpm w
        → Ends
            (λ (r : List ℕ × World esys). Here tpm r.1)
            (pcr_object esys curl garbage event_log server_url session_id w)
    unfolding pcr_object
    pcr_object-Live tpm w h =
        Ends-from (append_text (uninit garbage 4096) 0 (codes "{\"sha256\":{")) _ λ start _.
          Ends->>= _ (pcr_loop-Live tpm pcr_indices true start w h) λ r k.
            Ends-from (append_text r.0.0 r.0.1 (codes "}}")) _ λ built _.
              Ends-from (store built.0 built.1 0) _
                λ buf _. Ends-from (text_at buf 0) _ λ pcr_json _. gives k

    read_attestation-Closed :
        (response : List ℕ) (tpm : TpmContext) (w : World esys)
        → Here tpm w
        → Ends Closed
            (read_attestation esys curl garbage event_log server_url session_id response tpm w)
    unfolding read_attestation
    read_attestation-Closed response tpm w h =
        Ends-from (field_of garbage response "status" 32) _ λ status _.
          Ends-from (field_of garbage response "authorizationCode" 128) _ λ auth_code _.
            Ends-from (field_of garbage response "redirectUri" 2048) _ λ redirect_uri _.
              Ends-from (field_of garbage response "reason" 512) _
                λ reason _. gives (tpm_close-live esys tpm w h)

    send_quote-Closed :
        (quoted sig : Output) (tpm : TpmContext) (w : World esys)
        → Here tpm w
        → Ends Closed
            (send_quote esys curl garbage event_log server_url session_id quoted sig tpm w)
    unfolding send_quote
    send_quote-Closed quoted sig tpm w h = Ends->>= _ (pcr_object-Live tpm w h) λ r k.
        Ends-from (output_bytes quoted) _ λ quoted_bytes _.
          Ends-from (output_bytes sig) _ λ sig_bytes _.
            Ends-from
              (attest_body esys curl garbage event_log server_url session_id quoted_bytes sig_bytes
                r.0)
              _
              λ body _.
                Ends-from (post garbage curl server_url "/api/v1/attest" body 8192) _ λ answer _.
                  Ends-if (is_code 200 answer.0) (read_attestation-Closed answer.1 tpm r.1 k)
                    (gives (tpm_close-live esys tpm r.1 k))

    attest_open-Closed :
        (nonce : ℕ × Buffer) (tpm : TpmContext) (w : World esys)
        → Here tpm w
        → Ends Closed (attest_open esys curl garbage event_log server_url session_id nonce tpm w)
    unfolding attest_open
    attest_open-Closed nonce tpm w h =
        let made = tpm_create_ak-Tracked esys tpm w h in
        let ak = tpm_create_ak esys tpm w in
        Ends-if (is_code 0 ak.0)
          (Ends->>= _
            (tpm_quote-Live esys (InContext ak.1) ak.1 nonce.1 nonce.0 pcr_indices
              (some (uninit garbage 4096)) 4096 (some (uninit garbage 1024)) 1024 ak.2 made)
            λ q k.
              Ends-if (is_code 0 q.1.rc) (send_quote-Closed q.0 q.1 ak.1 q.2 k)
                (gives (tpm_close-live esys ak.1 q.2 k)))
          (gives (tpm_close-live esys ak.1 ak.2 made))

    attest_from-Closed :
        (nonce : ℕ × Buffer) (ctx : Option TpmContext) (w : World esys)
        → live w.trace ≡ []
        → Ends Closed (attest_from esys curl garbage event_log server_url session_id nonce (ctx, w))
    attest_from-Closed nonce none w clean = gives clean
    attest_from-Closed nonce (some tpm) w clean = attest_open-Closed nonce tpm w (rw clean tt)

    -- From a state without live key handles, RootHeraldAttest leaves none, whatever the TPM and the
    -- server answer and on whichever path it returns. A handle is live until Esys_FlushContext is
    -- called on it; whether the call succeeds is not looked at by the code.
    pub attest-Closed :
        (nonce_b64 : List ℕ) (start : World esys)
        (r : Attested esys curl garbage event_log server_url session_id)
        → live start.trace ≡ []
        → attest esys curl garbage event_log server_url session_id nonce_b64 start ≡ some r
        → live r.2.trace ≡ []
    unfolding attest
    attest-Closed nonce_b64 start r clean e =
        Ends-at Closed
          (Ends-from (base64_decode nonce_b64 (uninit garbage 256) 256) _ λ nonce _.
            Ends-if (nonce.0 == 0) (gives clean) (
              attest_from-Closed nonce (tpm_open esys start).0 (tpm_open esys start).1
                (ap live (tpm_open-trace esys start) ∙ clean)))
          e
