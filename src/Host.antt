-- ===== src/Host.antt =====
-- linux/native_host/native_host.c: the host that answers a browser extension on stdin and stdout.
-- stdin is the list of the bytes that are still to come, stdout the list of the bytes written.
-- A uint32_t is read and written in the byte order of the supported machines, low byte first.
-- Its json_get, json_append_string and json_append_raw are those of Json.
pub mod Answer
pub mod Dispatch
pub mod Frame
pub mod Object
pub mod Replies
pub mod Service
pub mod Texts
use sdk_native.Prelude.{
  ℕ, zero, suc, ◌+◌, ◌-◌, ◌*◌, ◌/◌, ◌%◌, List, [], ◌∷◌, ◌++◌, Bool, true, false, ◌&&◌, ◌||◌, Option,
  none, some, codes, length, take, drop, replicate, ltb, leb, ◌==◌, if◌then◌else◌, ◌>>=◌, String,
}
use sdk_native.Prelude.Bits.{u8, u32}
use sdk_native.Memory.{Buffer, store, snprintf, text_at}
use sdk_native.Json.{json_get, json_append_string, json_append_raw}
use sdk_native.Protocol.{
  RootHeraldResult, is_ok, RootHeraldEnrollmentInfo, RootHeraldAttestationInfo,
  RootHeraldDeviceStatus,
}

-- Four bytes as a number, and a number as four bytes.
pub from_le32 : ℕ → ℕ → ℕ → ℕ → ℕ
from_le32 a b c d = a + 256 * b + 65536 * c + 16777216 * d

unfoldable pub le32 : ℕ → List ℕ
le32 n = u8 n ∷ u8 (n / 256) ∷ u8 (n / 65536) ∷ u8 (n / 16777216) ∷ []

-- `none` where the function returns NULL. `malloc` tells whether an allocation succeeds. The message
-- is the bytes in front of the NUL that is stored behind them.
pub read_message : (ℕ → Bool) → List ℕ → Option (List ℕ × List ℕ)
read_message malloc (a ∷ b ∷ c ∷ d ∷ stdin) =
    let len = from_le32 a b c d in
    if ltb 1048576 len
    then none
    else if malloc (len + 1)
    then (if length (take len stdin) == len then some (take len stdin, drop len stdin) else none)
    else none
read_message malloc stdin = none

unfoldable pub write_message : List ℕ → List ℕ
write_message message = le32 (u32 (length message)) ++ take (u32 (length message)) message

-- `buf[off++] = '{'; buf[off] = '\0';`
unfoldable pub begin_object : Buffer → Option (Buffer × ℕ)
begin_object buf = do buf1 ← store buf 0 b'{'; buf2 ← store buf1 1 0; some (buf2, 1)

-- `if (off + 1 < buf_len) buf[off++] = '}'; buf[off] = '\0';`
unfoldable pub end_object : Buffer → ℕ → ℕ → Option (Buffer × ℕ)
end_object buf buf_len off =
    if ltb (off + 1) buf_len
    then (do buf1 ← store buf off b'}'; buf2 ← store buf1 (off + 1) 0; some (buf2, off + 1))
    else (do buf1 ← store buf off 0; some (buf1, off))

-- `buf` is a local array of `buf_len` cells at each call. The result is the text that it holds.
pub build_response : Buffer → ℕ → List ℕ → List ℕ → Option (List ℕ)
build_response buf buf_len request_id payload_json = do
  (buf0, off0) ← begin_object buf
  (buf1, off1) ← json_append_string buf0 buf_len off0 (codes "id") request_id true
  (buf2, off2) ← json_append_string buf1 buf_len off1 (codes "type") (codes "response") false
  (buf3, off3) ← json_append_raw buf2 buf_len off2 (codes "payload") payload_json false
  (buf4, off4) ← end_object buf3 buf_len off3
  text ← text_at buf4 0
  some text

abbrev pub bool_text : Bool → List ℕ
bool_text b = if b then codes "true" else codes "false"

-- The functions of the client that the host calls.
pub record Client : Type 0 where
  pub get_status : RootHeraldResult × RootHeraldDeviceStatus
  pub enroll : List ℕ → Bool → RootHeraldResult × RootHeraldEnrollmentInfo
  pub attest : List ℕ → List ℕ → List ℕ → ℕ → RootHeraldResult × RootHeraldAttestationInfo

abbrev pub later : (ℕ → Client) → ℕ → Client
later client n = client (suc n)

-- An array on the stack before its first write: any bytes.
unfoldable pub uninit : (ℕ → ℕ) → ℕ → Buffer
uninit garbage zero = []
uninit garbage (suc n) = garbage n ∷ uninit garbage n

module _ (garbage : ℕ → ℕ) where
  -- `char resp[n]; build_response(...); write_message(resp);`
  pub respond : ℕ → List ℕ → List ℕ → Option (List ℕ)
  respond n request_id payload = do
    resp ← build_response (uninit garbage n) n request_id payload
    some (write_message resp)

  -- The object of a refused request, in an array of `n` cells.
  pub error_payload : ℕ → List ℕ → Option (List ℕ)
  error_payload n message = do
    (buf0, off0) ← begin_object (uninit garbage n)
    (buf1, off1) ← json_append_raw buf0 n off0 (codes "success") (codes "false") true
    (buf2, off2) ← json_append_string buf1 n off1 (codes "error") message false
    (buf3, off3) ← end_object buf2 n off2
    text ← text_at buf3 0
    some text

  pub handle_status : Client → List ℕ → Option (List ℕ)
  handle_status client request_id = do
    let (result, status) = client.get_status
    (p0, off0) ← begin_object (uninit garbage 2048)
    (p1, off1) ← json_append_raw p0 2048 off0 (codes "success") (bool_text (is_ok result)) true
    (d0, doff0) ← begin_object (uninit garbage 1024)
    (d1, doff1) ←
        json_append_string d0 1024 doff0 (codes "status")
          (if status.is_enrolled then codes "enrolled" else codes "not_enrolled") true
    (d2, doff2) ← json_append_string d1 1024 doff1 (codes "deviceId") status.device_id false
    (d3, doff3) ← json_append_string d2 1024 doff2 (codes "platform") status.platform false
    (d4, doff4) ← json_append_raw d3 1024 doff3 (codes "hasTpm") (bool_text status.has_tpm) false
    (d5, doff5) ← end_object d4 1024 doff4
    data_text ← text_at d5 0
    (p2, off2) ← json_append_raw p1 2048 off1 (codes "data") data_text false
    (p3, off3) ← end_object p2 2048 off2
    payload ← text_at p3 0
    respond 4096 request_id payload

  pub handle_enroll : Client → List ℕ → List ℕ → Option (List ℕ)
  handle_enroll client request_id [] = do
    payload ← error_payload 256 (codes "serverUrl is required")
    respond 4096 request_id payload
  handle_enroll client request_id (c ∷ url) = do
    let (result, info) = client.enroll (c ∷ url) false
    (d0, doff0) ← begin_object (uninit garbage 256)
    (d1, doff1) ← json_append_string d0 256 doff0 (codes "deviceId") info.device_id true
    (d2, doff2) ← end_object d1 256 doff1
    data_text ← text_at d2 0
    (p0, off0) ← begin_object (uninit garbage 1024)
    (p1, off1) ← json_append_raw p0 1024 off0 (codes "success") (bool_text (is_ok result)) true
    (p2, off2) ← json_append_raw p1 1024 off1 (codes "data") data_text false
    (p3, off3) ← end_object p2 1024 off2
    payload ← text_at p3 0
    respond 4096 request_id payload

  pub attest_payload : RootHeraldResult → RootHeraldAttestationInfo → Option (List ℕ)
  attest_payload result info = do
    (d0, doff0) ← begin_object (uninit garbage 4096)
    (d1, doff1) ←
        json_append_string d0 4096 doff0 (codes "authorizationCode") info.authorization_code true
    (d2, doff2) ← json_append_string d1 4096 doff1 (codes "status") info.status false
    (d3, doff3) ← json_append_string d2 4096 doff2 (codes "redirectUri") info.redirect_uri false
    (d4, doff4) ← end_object d3 4096 doff3
    data_text ← text_at d4 0
    (p0, off0) ← begin_object (uninit garbage 8192)
    (p1, off1) ← json_append_raw p0 8192 off0 (codes "success") (bool_text (is_ok result)) true
    (p2, off2) ← json_append_raw p1 8192 off1 (codes "data") data_text false
    (p3, off3) ← json_append_string p2 8192 off2 (codes "error") info.failure_reason false
    (p4, off4) ← end_object p3 8192 off3
    text ← text_at p4 0
    some text

  pub handle_attest : Client → List ℕ → List ℕ → List ℕ → List ℕ → Option (List ℕ)
  handle_attest client request_id server_url session_id nonce =
      if length server_url == 0 || length session_id == 0 || length nonce == 0
      then (do
        payload ← error_payload 512 (codes "serverUrl, sessionId, and nonce are required")
        respond 4096 request_id payload)
      else (do
        let (result, info) = client.attest server_url session_id nonce (length nonce)
        payload ← attest_payload result info
        respond 16384 request_id payload)

  pub handle_unknown : List ℕ → List ℕ → Option (List ℕ)
  handle_unknown request_id action = do
    msg ← snprintf (uninit garbage 256) 0 256 (codes "Unknown action: " ++ action)
    error_msg ← text_at msg 0
    payload ← error_payload 512 error_msg
    respond 4096 request_id payload

-- A field of the request, read into an array of `n` cells that are all NUL at first.
pub request_field : List ℕ → String → ℕ → Option (List ℕ)
request_field request key n = do
  (len, dst) ← json_get request (codes key) (replicate n 0) n
  text_at dst 0

-- The bytes in front of the first NUL: the message as a C string.
pub c_text : List ℕ → List ℕ
c_text [] = []
c_text (c ∷ s) = if c == 0 then [] else c ∷ c_text s

-- `strcmp(s, t) == 0`
unfoldable pub same_text : List ℕ → List ℕ → Bool
same_text [] [] = true
same_text (c ∷ s) (d ∷ t) = c == d && same_text s t
same_text _ _ = false

module _ (garbage : ℕ → ℕ) where
  pub answer : Client → List ℕ → List ℕ → List ℕ → List ℕ → List ℕ → Option (List ℕ)
  answer client action request_id server_url session_id nonce =
      if same_text action (codes "status")
      then handle_status garbage client request_id
      else if same_text action (codes "enroll")
      then handle_enroll garbage client request_id server_url
      else if same_text action (codes "attest")
      then handle_attest garbage client request_id server_url session_id nonce
      else handle_unknown garbage request_id action

  pub dispatch : Client → List ℕ → Option (List ℕ)
  dispatch client request = do
    action ← request_field request "action" 64
    server_url ← request_field request "serverUrl" 2048
    request_id ← request_field request "id" 64
    session_id ← request_field request "sessionId" 64
    nonce ← request_field request "nonce" 4096
    answer client action request_id server_url session_id nonce

  -- The loop of main: what it writes until read_message returns NULL. Each round takes at least four
  -- bytes of stdin, so its length is fuel enough. `client n` is what the client's functions give in
  -- the n-th round from now: what they do to the TPM and the files shows in the rounds that follow.
  pub main_loop : ℕ → (ℕ → Bool) → (ℕ → Client) → List ℕ → Option (List ℕ)
  main_loop zero malloc client stdin = some []
  main_loop (suc fuel) malloc client stdin = elim (read_message malloc stdin) [
    | none ↦ some []
    | some (request, rest) ↦ do
      out ← dispatch (client 0) (c_text request)
      more ← main_loop fuel malloc (later client) rest
      some (out ++ more)
  ]
