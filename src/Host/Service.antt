-- ===== src/Host/Service.antt =====
-- The host as a service: the loop of linux/native_host/native_host.c on any sequence of messages.
use sdk_native.Prelude.{
  ℕ, suc, ◌+◌, ◌<◌, ◌≤◌, ◌≡◌, refl, ◌∙◌, List, [], ◌∷◌, ◌++◌, Bool, true, false, some, codes,
  length, arith, if◌then◌else◌, All,
}
use sdk_native.Host.{
  Client, later, c_text, same_text, dispatch, answer, main_loop, handle_status, handle_enroll,
  handle_attest, handle_unknown,
}
use sdk_native.Host.Object.{Field, IsText, object_text, step}
use sdk_native.Host.Answer.{
  IsShortText, reply, error_fields, payload_fields, status_data, enroll_answer, attest_answer,
  attest_data,
}
use sdk_native.Host.Replies.{
  handle_status_lem, handle_enroll_lem, handle_attest_lem, handle_unknown_lem,
}
use sdk_native.Host.Dispatch.{field, field-IsShortText, dispatch_lem, c_text-IsText}
use sdk_native.Host.Frame.{framed, session, main_loop-framed}

-- A client whose results fit in the arrays of their structs, and whose attestation result fits in the
-- array in which the host writes it, for the nonces that fit in the host's array.
pub record ClientFits (client : Client) : Type 0 where
  pub device_id : IsShortText 64 client.get_status.1.device_id
  pub platform : IsShortText 16 client.get_status.1.platform
  pub enrolled : (url : List ℕ) → IsShortText 64 (client.enroll url false).1.device_id
  pub code :
      (u s n : List ℕ)
      → length n < 4096
      → IsText (client.attest u s n (length n)).1.authorization_code
  pub status : (u s n : List ℕ) → length n < 4096 → IsText (client.attest u s n (length n)).1.status
  pub redirect :
      (u s n : List ℕ) → length n < 4096 → IsText (client.attest u s n (length n)).1.redirect_uri
  pub shown :
      (u s n : List ℕ)
      → length n < 4096
      → length (object_text (attest_data (client.attest u s n (length n)).1)) < 4096
  pub reason :
      (u s n : List ℕ)
      → length n < 4096
      → IsShortText 512 (client.attest u s n (length n)).1.failure_reason

-- The payload of the answer to a request with the given fields.
payload_of : Client → List ℕ → List ℕ → List ℕ → List ℕ → List Field
payload_of client action server_url session_id nonce =
    if same_text action (codes "status")
    then payload_fields client.get_status.0 (status_data client.get_status.1)
    else if same_text action (codes "enroll")
    then enroll_answer client server_url
    else if same_text action (codes "attest")
    then attest_answer client server_url session_id nonce
    else error_fields (codes "Unknown action: " ++ action)

-- The answer to a message: its id, and the payload that its fields ask for.
pub answer_to : Client → List ℕ → List ℕ
answer_to client request = reply (field request "id" 64) (
    payload_of client (field request "action" 64) (field request "serverUrl" 2048)
      (field request "sessionId" 64) (field request "nonce" 4096))

-- The answers to a sequence of messages, each with what the client's functions give in its round.
abbrev pub answers : (ℕ → Client) → List (List ℕ) → List ℕ
answers client [] = []
answers client (message ∷ messages) =
    answer_to (client 0) (c_text message) ++ answers (later client) messages

module _ (garbage : ℕ → ℕ) (client : Client) (fits : ClientFits client) where
  answer_lem :
      (action request_id server_url session_id nonce : List ℕ)
      → IsShortText 64 action
      → IsShortText 64 request_id
      → length nonce < 4096
      → answer garbage client action request_id server_url session_id nonce
        ≡ some (reply request_id (payload_of client action server_url session_id nonce))
  unfolding answer payload_of
  answer_lem action request_id server_url session_id nonce action_ok id_ok small =
      go (same_text action (codes "status")) (same_text action (codes "enroll"))
        (same_text action (codes "attest"))
    where
      go :
          (x y z : Bool)
          → (if x
              then handle_status garbage client request_id
              else if y
              then handle_enroll garbage client request_id server_url
              else if z
              then handle_attest garbage client request_id server_url session_id nonce
              else handle_unknown garbage request_id action)
            ≡ some (
                reply request_id (
                  if x
                  then payload_fields client.get_status.0 (status_data client.get_status.1)
                  else if y
                  then enroll_answer client server_url
                  else if z
                  then attest_answer client server_url session_id nonce
                  else error_fields (codes "Unknown action: " ++ action)))
      go true y z = handle_status_lem garbage request_id id_ok client fits.device_id fits.platform
      go false true z =
          handle_enroll_lem garbage request_id id_ok client server_url (fits.enrolled server_url)
      go false false true =
          handle_attest_lem garbage request_id id_ok client server_url session_id nonce
            (fits.code server_url session_id nonce small)
            (fits.status server_url session_id nonce small)
            (fits.redirect server_url session_id nonce small)
            (fits.shown server_url session_id nonce small)
            (fits.reason server_url session_id nonce small)
      go false false false = handle_unknown_lem garbage request_id id_ok action action_ok

  -- For a client whose results fit in the arrays of their structs and whose attestation result fits
  -- in the host's array: every message, well formed or not, is answered with one framed object that
  -- holds the id and the payload for its fields, and no array is overrun.
  pub dispatch-answer :
      (message : List ℕ)
      → dispatch garbage client (c_text message) ≡ some (answer_to client (c_text message))
  unfolding answer_to
  dispatch-answer message =
      let request = c_text message in
      let plain = c_text-IsText message in
      dispatch_lem garbage client request plain
      ∙ answer_lem (field request "action" 64) (field request "id" 64)
          (field request "serverUrl" 2048) (field request "sessionId" 64)
          (field request "nonce" 4096) (field-IsShortText request "action" 64 (omega arith) plain)
          (field-IsShortText request "id" 64 (omega arith) plain)
          (field-IsShortText request "nonce" 4096 (omega arith) plain).0

module _ (garbage : ℕ → ℕ) where
  session-answers :
      (client : ℕ → Client)
      → ((n : ℕ) → ClientFits (client n))
      → (messages : List (List ℕ))
      → session garbage client messages ≡ some (answers client messages)
  unfolding session
  session-answers client fits [] = refl
  session-answers client fits (message ∷ messages) =
      step _ (dispatch-answer garbage (client 0) (fits 0) message)
        (step _ (session-answers (later client) (λ n. fits (suc n)) messages) refl)

  -- For clients, one for each round, whose results fit in the arrays of their structs and whose
  -- attestation result fits in the host's array: from a stream of framed messages of at most 2^20
  -- bytes each, for which malloc gives memory, the main loop with fuel for the whole stream writes
  -- the answers to all of them, in order.
  pub main_loop-answers :
      (malloc : ℕ → Bool) (client : ℕ → Client) (messages : List (List ℕ))
      → ((n : ℕ) → ClientFits (client n))
      → All (λ m. (length m ≤ 1048576) × (malloc (length m + 1) ≡ true)) messages
      → main_loop garbage (length (framed messages) + 1) malloc client (framed messages)
        ≡ some (answers client messages)
  main_loop-answers malloc client messages fits h =
      main_loop-framed garbage malloc client messages h ∙ session-answers client fits messages
