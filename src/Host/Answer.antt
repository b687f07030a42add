-- ===== src/Host/Answer.antt =====
-- The objects that linux/native_host/native_host.c answers with, as lists of fields.
use sdk_native.Prelude.{
  ℕ, ◌<◌, ◌≤◌, ◌≡◌, refl, List, [], ◌∷◌, Bool, true, false, codes, length, arith, if◌then◌else◌,
  All, ◌==◌, ◌||◌,
}
use sdk_native.Protocol.{
  RootHeraldResult, is_ok, RootHeraldEnrollmentInfo, RootHeraldAttestationInfo,
  RootHeraldDeviceStatus,
}
use sdk_native.Host.{bool_text, write_message, Client}
use sdk_native.Host.Object.{
  Field, object_text, object-IsText, IsText, IsPlainField, is_text, is_text_sound,
}

-- Keys are literals.
pub literal : (s : List ℕ) → is_text s ≡ true → IsText s
literal = is_text_sound

abbrev pub response_fields : List ℕ → List ℕ → List Field
response_fields request_id payload =
    Field.string (codes "id") request_id
    ∷ Field.string (codes "type") (codes "response")
    ∷ Field.raw (codes "payload") payload
    ∷ []

-- What the host writes for a request: a framed object with the id and the payload.
unfoldable pub reply : List ℕ → List Field → List ℕ
reply request_id payload =
    write_message (object_text (response_fields request_id (object_text payload)))

abbrev pub IsShortText : ℕ → List ℕ → Type 0
IsShortText n s = (length s < n) × IsText s

pub bool-IsText : (b : Bool) → IsText (bool_text b)
bool-IsText true = literal (codes "true") refl
bool-IsText false = literal (codes "false") refl

pub length-bool_text : (b : Bool) → length (bool_text b) ≤ 5
length-bool_text true = omega arith
length-bool_text false = omega arith

abbrev pub error_fields : List ℕ → List Field
error_fields message =
    Field.raw (codes "success") (codes "false") ∷ Field.string (codes "error") message ∷ []

abbrev pub status_data : RootHeraldDeviceStatus → List Field
status_data status =
    Field.string (codes "status")
      (if status.is_enrolled then codes "enrolled" else codes "not_enrolled")
    ∷ Field.string (codes "deviceId") status.device_id
    ∷ Field.string (codes "platform") status.platform
    ∷ Field.raw (codes "hasTpm") (bool_text status.has_tpm)
    ∷ []

abbrev pub payload_fields : RootHeraldResult → List Field → List Field
payload_fields result fields =
    Field.raw (codes "success") (bool_text (is_ok result))
    ∷ Field.raw (codes "data") (object_text fields)
    ∷ []

pub payload-plain :
    (result : RootHeraldResult) (fields : List Field)
    → All IsPlainField fields
    → All IsPlainField (payload_fields result fields)
payload-plain result fields plain = (
  (literal (codes "success") refl, bool-IsText (is_ok result)),
  ((literal (codes "data") refl, object-IsText fields plain), tt),
)

pub enrolled_text :
    (b : Bool) → IsShortText 13 (if b then codes "enrolled" else codes "not_enrolled")
enrolled_text true = (omega arith, literal (codes "enrolled") refl)
enrolled_text false = (omega arith, literal (codes "not_enrolled") refl)

abbrev pub enroll_data : RootHeraldEnrollmentInfo → List Field
enroll_data info = Field.string (codes "deviceId") info.device_id ∷ []

-- What an enrolment is answered with: without a server's address nothing is enrolled.
unfoldable pub enroll_answer : Client → List ℕ → List Field
enroll_answer client [] = error_fields (codes "serverUrl is required")
enroll_answer client (c ∷ url) =
    payload_fields (client.enroll (c ∷ url) false).0 (enroll_data (client.enroll (c ∷ url) false).1)

abbrev pub attest_data : RootHeraldAttestationInfo → List Field
attest_data info =
    Field.string (codes "authorizationCode") info.authorization_code
    ∷ Field.string (codes "status") info.status
    ∷ Field.string (codes "redirectUri") info.redirect_uri
    ∷ []

abbrev pub attest_fields : RootHeraldResult → RootHeraldAttestationInfo → List Field
attest_fields result info =
    Field.raw (codes "success") (bool_text (is_ok result))
    ∷ Field.raw (codes "data") (object_text (attest_data info))
    ∷ Field.string (codes "error") info.failure_reason
    ∷ []

-- What a request for an attestation is answered with.
unfoldable pub attest_answer : Client → List ℕ → List ℕ → List ℕ → List Field
attest_answer client server_url session_id nonce =
    if length server_url == 0 || length session_id == 0 || length nonce == 0
    then error_fields (codes "serverUrl, sessionId, and nonce are required")
    else let (result, info) = client.attest server_url session_id nonce (length nonce) in
      attest_fields result info
