-- ===== src/Host/Replies.antt =====
-- What the host answers: the handlers of linux/native_host/native_host.c on all branches.
use sdk_native.Prelude.{
  ℕ, zero, suc, ◌+◌, ◌*◌, ◌^◌, ◌<◌, ◌≡◌, refl, ap, ◌∙◌, List, [], ◌∷◌, ◌++◌, Bool, true, false,
  some, codes, length, arith, ◌>>=◌, if◌then◌else◌, All, ◌==◌, ◌||◌, All-append, ◌≢◌,
}
use sdk_native.Memory.Calls.{snprintf_in, text_at-overlay}
use sdk_native.Protocol.{RootHeraldResult, is_ok, RootHeraldAttestationInfo}
use sdk_native.Host.{
  build_response, uninit, bool_text, respond, error_payload, write_message, Client, handle_status,
  handle_enroll, handle_unknown, handle_attest, attest_payload,
}
use sdk_native.Host.Object.{
  step, Field, object_text, object_then_lem, size, length-object_text, object-IsText, IsText,
  IsPlainField, length-escape_le, append_lem, field_of, length-grown, end_object-built,
  begin_object-built, text_of_built,
}
use sdk_native.Host.Answer.{
  literal, response_fields, reply, IsShortText, bool-IsText, length-bool_text, error_fields,
  status_data, payload_fields, payload-plain, enrolled_text, enroll_data, enroll_answer,
  attest_data, attest_fields, attest_answer,
}

length-uninit : (garbage : ℕ → ℕ) (n : ℕ) → length (uninit garbage n) ≡ n
unfolding uninit
length-uninit garbage zero = refl
length-uninit garbage (suc n) = ap suc (length-uninit garbage n)

module _ (garbage : ℕ → ℕ) (request_id : List ℕ) (id_ok : IsShortText 64 request_id) where
  respond_lem :
      (n : ℕ) (fs : List Field)
      → n < 2 ^ 63
      → size true fs + 200 < n
      → All IsPlainField fs
      → respond garbage n request_id (object_text fs) ≡ some (reply request_id fs)
  unfolding respond reply build_response
  respond_lem n fs small fits plain =
      let e = length-escape_le request_id in
      let e' = length-escape_le (codes "response") in
      let e'' = length-object_text fs in
      step (λ resp. some (write_message resp))
        (object_then_lem (response_fields request_id (object_text fs)) n (uninit garbage n)
          (λ t. some t) (length-uninit garbage n) small (omega arith)
          (
            (literal (codes "id") refl, id_ok.1),
            (
              (literal (codes "type") refl, literal (codes "response") refl),
              ((literal (codes "payload") refl, object-IsText fs plain), tt),
            ),
          ))
        refl

  error_lem :
      (n : ℕ) (message : List ℕ)
      → 2 * length message + 30 < n
      → n < 2 ^ 63
      → IsText message
      → 2 * length message < 3000
      → (error_payload garbage n message >>= respond garbage 4096 request_id)
        ≡ some (reply request_id (error_fields message))
  unfolding error_payload
  error_lem n message fits small plain short =
      let e = length-escape_le message in
      step (respond garbage 4096 request_id)
        (object_then_lem (error_fields message) n (uninit garbage n) (λ t. some t)
          (length-uninit garbage n) small (omega arith) plain_fields)
        (respond_lem 4096 (error_fields message) (omega arith) (omega arith) plain_fields)
    where
      plain_fields : All IsPlainField (error_fields message)
      plain_fields = (
        (literal (codes "success") refl, literal (codes "false") refl),
        ((literal (codes "error") refl, plain), tt),
      )

  -- An unknown action is named in the answer, which is never cut.
  pub handle_unknown_lem :
      (action : List ℕ)
      → IsShortText 64 action
      → handle_unknown garbage request_id action
        ≡ some (reply request_id (error_fields (codes "Unknown action: " ++ action)))
  unfolding handle_unknown
  handle_unknown_lem action ok =
      let message = codes "Unknown action: " ++ action in
      let plain =
        All-append (λ c. c ≢ 0) (codes "Unknown action: ") action
          (literal (codes "Unknown action: ") refl) ok.1 in
      let e = length-uninit garbage 256 in
      step _ (snprintf_in (uninit garbage 256) 0 256 message (omega arith) (omega arith)) (
        step _ (text_at-overlay (uninit garbage 256) 0 message plain (omega arith))
          (error_lem 512 message (omega arith) (omega arith) plain (omega arith)))

  -- The answer to a status request tells the result and the whole status, for every status whose
  -- texts fit in their arrays.
  pub handle_status_lem :
      (client : Client)
      → let (result, status) = client.get_status in
        IsShortText 64 status.device_id
        → IsShortText 16 status.platform
        → handle_status garbage client request_id
          ≡ some (
              reply request_id
                (payload_fields client.get_status.0 (status_data client.get_status.1)))
  unfolding handle_status
  handle_status_lem client id_fits platform_fits =
      let result = client.get_status.0 in
      let status = client.get_status.1 in
      let enrolled = enrolled_text status.is_enrolled in
      let l1 =
        length-escape_le (if status.is_enrolled then codes "enrolled" else codes "not_enrolled") in
      let l2 = length-escape_le status.device_id in
      let l3 = length-escape_le status.platform in
      let l4 = length-bool_text status.has_tpm in
      let l5 = length-bool_text (is_ok result) in
      let l6 = length-object_text (status_data status) in
      let t1 =
        b'{' ∷ [] ++ field_of true (Field.raw (codes "success") (bool_text (is_ok result))) in
      let n1 =
        length-grown (b'{' ∷ []) true
          (Field.raw (codes "success") (bool_text (is_ok result)) ∷ []) in
      let n2 = length-grown (b'{' ∷ []) true (payload_fields result (status_data status)) in
      let data_field = Field.raw (codes "data") (object_text (status_data status)) in
      let p = uninit garbage 2048 in
      let whole = length-uninit garbage 2048 in
      step _ (begin_object-built p (omega arith)) (
        step _
          (append_lem p 2048 (b'{' ∷ []) true
            (Field.raw (codes "success") (bool_text (is_ok result))) whole (omega arith)
            (omega arith))
          (object_then_lem (status_data status) 1024 (uninit garbage 1024) _
              (length-uninit garbage 1024) (omega arith) (omega arith) data_plain
            ∙ step _ (append_lem p 2048 t1 false data_field whole (omega arith) (omega arith)) (
                step _
                  (end_object-built p 2048 (t1 ++ field_of false data_field) (omega arith)
                    (omega arith))
                  (step _
                    (text_of_built p (object_text (payload_fields result (status_data status)))
                      (omega
                        (arith, length-object_text (payload_fields result (status_data status))))
                      (object-IsText (payload_fields result (status_data status))
                        (payload-plain result (status_data status) data_plain)))
                    (respond_lem 4096 (payload_fields result (status_data status)) (omega arith)
                      (omega arith) (payload-plain result (status_data status) data_plain))))))
    where
      data_plain : All IsPlainField (status_data client.get_status.1)
      data_plain = (
        (literal (codes "status") refl, (enrolled_text client.get_status.1.is_enrolled).1),
        (
          (literal (codes "deviceId") refl, id_fits.1),
          (
            (literal (codes "platform") refl, platform_fits.1),
            ((literal (codes "hasTpm") refl, bool-IsText client.get_status.1.has_tpm), tt),
          ),
        ),
      )

  -- An enrolment is answered with the result and the device id, and one without a server's address
  -- with an error.
  pub handle_enroll_lem :
      (client : Client) (server_url : List ℕ)
      → IsShortText 64 (client.enroll server_url false).1.device_id
      → handle_enroll garbage client request_id server_url
        ≡ some (reply request_id (enroll_answer client server_url))
  unfolding handle_enroll enroll_answer
  handle_enroll_lem client [] fits =
      error_lem 256 (codes "serverUrl is required") (omega arith) (omega arith)
        (literal (codes "serverUrl is required") refl) (omega arith)
  handle_enroll_lem client (c ∷ url) fits =
      let result = (client.enroll (c ∷ url) false).0 in
      let info = (client.enroll (c ∷ url) false).1 in
      let l1 = length-escape_le info.device_id in
      let l2 = length-object_text (enroll_data info) in
      let l3 = length-bool_text (is_ok result) in
      object_then_lem (enroll_data info) 256 (uninit garbage 256) _ (length-uninit garbage 256)
        (omega arith) (omega arith) data_plain
      ∙ object_then_lem (payload_fields result (enroll_data info)) 1024 (uninit garbage 1024) _
          (length-uninit garbage 1024) (omega arith) (omega arith)
          (payload-plain result (enroll_data info) data_plain)
      ∙ respond_lem 4096 (payload_fields result (enroll_data info)) (omega arith) (omega arith)
          (payload-plain result (enroll_data info) data_plain)
    where
      data_plain : All IsPlainField (enroll_data (client.enroll (c ∷ url) false).1)
      data_plain = ((literal (codes "deviceId") refl, fits.1), tt)

  attest_answered :
      (result : RootHeraldResult) (info : RootHeraldAttestationInfo)
      → IsText info.authorization_code
      → IsText info.status
      → IsText info.redirect_uri
      → length (object_text (attest_data info)) < 4096
      → IsShortText 512 info.failure_reason
      → (attest_payload garbage result info >>= respond garbage 16384 request_id)
        ≡ some (reply request_id (attest_fields result info))
  unfolding attest_payload
  attest_answered result info code status uri fits reason =
      let l1 = length-escape_le info.failure_reason in
      let l2 = length-object_text (attest_data info) in
      let l3 = length-bool_text (is_ok result) in
      step (respond garbage 16384 request_id)
        (object_then_lem (attest_data info) 4096 (uninit garbage 4096) _
            (length-uninit garbage 4096) (omega arith) (omega arith) data_plain
          ∙ object_then_lem (attest_fields result info) 8192 (uninit garbage 8192) (λ t. some t)
              (length-uninit garbage 8192) (omega arith) (omega arith) fields_plain)
        (respond_lem 16384 (attest_fields result info) (omega arith) (omega arith) fields_plain)
    where
      data_plain : All IsPlainField (attest_data info)
      data_plain = (
        (literal (codes "authorizationCode") refl, code),
        ((literal (codes "status") refl, status), ((literal (codes "redirectUri") refl, uri), tt)),
      )

      fields_plain : All IsPlainField (attest_fields result info)
      fields_plain = (
        (literal (codes "success") refl, bool-IsText (is_ok result)),
        (
          (literal (codes "data") refl, object-IsText (attest_data info) data_plain),
          ((literal (codes "error") refl, reason.1), tt),
        ),
      )

  -- For a request id that fits in its array, and texts of the attestation without a NUL, of which
  -- the code, the status and the address fit together as an object in 4096 cells and the reason has
  -- fewer than 512 characters: handle_attest answers with the result, these texts and the reason. A
  -- request without an address, a session or a nonce is answered with an error, and nothing is
  -- attested.
  pub handle_attest_lem :
      (client : Client) (server_url session_id nonce : List ℕ)
      → let (result, info) = client.attest server_url session_id nonce (length nonce) in
        IsText info.authorization_code
        → IsText info.status
        → IsText info.redirect_uri
        → length (object_text (attest_data info)) < 4096
        → IsShortText 512 info.failure_reason
        → handle_attest garbage client request_id server_url session_id nonce
          ≡ some (reply request_id (attest_answer client server_url session_id nonce))
  unfolding handle_attest attest_answer
  handle_attest_lem client server_url session_id nonce code status uri fits reason =
      go (length server_url == 0 || length session_id == 0 || length nonce == 0)
    where
      result : RootHeraldResult
      result = (client.attest server_url session_id nonce (length nonce)).0

      info : RootHeraldAttestationInfo
      info = (client.attest server_url session_id nonce (length nonce)).1

      message : List ℕ
      message = codes "serverUrl, sessionId, and nonce are required"

      go :
          (refused : Bool)
          → (if refused
              then (do
                payload ← error_payload garbage 512 message
                respond garbage 4096 request_id payload)
              else (do
                payload ← attest_payload garbage result info
                respond garbage 16384 request_id payload))
            ≡ some (
                reply request_id
                  (if refused then error_fields message else attest_fields result info))
      go true =
          error_lem 512 message (omega arith) (omega arith) (literal message refl) (omega arith)
      go false = attest_answered result info code status uri fits reason
