-- ===== src/Driver/Fits.antt =====
-- RootHeraldGetStatus, RootHeraldEnroll and RootHeraldAttest of linux/src/client/rootherald_linux.c
-- as the functions that linux/native_host/native_host.c calls.
use sdk_native.Prelude.{
  ℕ, ◌+◌, pos, ◌<◌, ◌≡◌, ◌≢◌, refl, List, [], Bool, true, false, Option, none, some, length, take,
  codes, Ends, gives, fails, ◌≤◌, Ends-from, Ends-at, arith, length-take, All, All-take, String,
  suc,
}
use sdk_native.Protocol.{RootHeraldResult, RootHeraldEnrollmentInfo, RootHeraldAttestationInfo}
use sdk_native.Transport.{Curl}
use sdk_native.Memory.{memcpy, store}
use sdk_native.Log.{trim_loop}
use sdk_native.Host.Object.{length-object_text, length-escape_le}
use sdk_native.Host.Texts.{text_at-IsText}
use sdk_native.Tpm.{Esys, World, TpmContext, tpm_open}
use sdk_native.Tpm.Certificate.{tpm_read_ek_cert}
use sdk_native.Host.{Client, uninit, main_loop, dispatch, c_text}
use sdk_native.Host.Frame.{framed}
use sdk_native.Host.Object.{IsText, is_text_sound, object_text}
use sdk_native.Host.Answer.{IsShortText, attest_data}
use sdk_native.Host.Service.{ClientFits, answers, main_loop-answers, answer_to, dispatch-answer}
use sdk_native.Driver.{get_status, get_status_lem, read_device_id, read_device_id_lem}
use sdk_native.Driver.Parts.{field_of}
use sdk_native.Driver.Enroll.{
  Enrolled, enroll, enroll_open, enroll_from, enroll_keys, root_herald_enroll,
}
use sdk_native.Driver.Attest.{empty_info, attest, root_herald_attest}
use sdk_native.Driver.Outcome.{
  Outcome, enrolled, without_tpm, refused, ReadFrom, Verdict, verified, rejected, no_nonce,
  no_device, no_evidence, field_of-IsText, enroll_keys-Outcome, attest-Verdict,
}

module _ (garbage : ℕ → ℕ) (response : List ℕ) where
  cut-IsShortText :
      (key : String) (n m : ℕ) (s t : List ℕ)
      → field_of garbage response key n ≡ some s
      → t ≡ take m s
      → IsShortText (suc m) t
  cut-IsShortText key n m s t e is_cut = rw is_cut (
    omega (arith, length-take m s),
    All-take (λ c. c ≢ 0) m s (field_of-IsText garbage response key n s e),
  )

-- The texts that the host shows of an attestation.
record Shown (info : RootHeraldAttestationInfo) : Type 0 where
  pub code : IsShortText 128 info.authorization_code
  pub status : IsShortText 32 info.status
  pub redirect : IsShortText 2048 info.redirect_uri
  pub reason : IsShortText 512 info.failure_reason

empty_info-Shown : Shown empty_info
empty_info-Shown = record {
  code = (omega arith, tt);
  status = (omega arith, tt);
  redirect = (omega arith, tt);
  reason = (omega arith, tt);
}

ReadFrom-Shown :
    (garbage : ℕ → ℕ) (session_id response status : List ℕ) (info : RootHeraldAttestationInfo)
    → ReadFrom garbage session_id response status info
    → Shown info
ReadFrom-Shown garbage session_id response status info h = record {
  code =
      cut-IsShortText garbage response "authorizationCode" 128 127 h.code_is.0 _ h.code_is.1
        h.code_is.2;
  status = cut-IsShortText garbage response "status" 32 31 status _ h.status_read h.status_is;
  redirect =
      cut-IsShortText garbage response "redirectUri" 2048 2047 h.uri_is.0 _ h.uri_is.1 h.uri_is.2;
  reason =
      cut-IsShortText garbage response "reason" 512 511 h.reason_is.0 _ h.reason_is.1 h.reason_is.2;
}

verdict-Shown :
    {curl : Curl} {garbage : ℕ → ℕ} {server_url session_id : List ℕ} {result : RootHeraldResult}
    {info : RootHeraldAttestationInfo}
    → Verdict curl garbage server_url session_id result info
    → Shown info
verdict-Shown (verified info response a h) = ReadFrom-Shown _ _ response _ info h
verdict-Shown (rejected info response status a h k) = ReadFrom-Shown _ _ response status info h
verdict-Shown no_nonce = empty_info-Shown
verdict-Shown no_device = empty_info-Shown
verdict-Shown no_evidence = empty_info-Shown

outcome-IsShortText :
    {result : RootHeraldResult} {info : RootHeraldEnrollmentInfo}
    → Outcome result info
    → IsShortText 64 info.device_id
outcome-IsShortText (enrolled info some_bytes fits plain) = (fits, plain)
outcome-IsShortText without_tpm = (omega arith, tt)
outcome-IsShortText refused = (omega arith, tt)

Ends-known {ℓ} :
    {A : Type ℓ} {P : A → Type 0} (o : Option A) → ((a : A) → o ≡ some a → P a) → Ends P o
Ends-known none h = fails
Ends-known (some a) h = gives (h a refl)

HasShortId : Option RootHeraldEnrollmentInfo → Type 0
HasShortId none = Unit
HasShortId (some info) = IsShortText 64 info.device_id

HasShown : Option RootHeraldAttestationInfo → Type 0
HasShown none = Unit
HasShown (some info) = Shown info

-- The bytes of a file that may not be there.
abbrev pub file_bytes : Option (List ℕ) → List ℕ
file_bytes none = []
file_bytes (some file) = file

read_device_id-IsText : (file : List ℕ) → Ends IsText (read_device_id file)
unfolding read_device_id
read_device_id-IsText file = Ends-from (memcpy _ 0 (take 63 file)) _ λ buf1 _.
    Ends-from (store buf1 _ 0) _
      λ buf2 _. Ends-from (trim_loop buf2 _) _ λ buf3 _. text_at-IsText buf3 0

-- An attestation result is shown whole unless its address is longer than 1,800 bytes.
data_fits :
    (info : RootHeraldAttestationInfo)
    → Shown info
    → length info.redirect_uri ≤ 1800
    → length (object_text (attest_data info)) < 4096
data_fits info h short = omega (
  arith,
  length-object_text (attest_data info),
  length-escape_le info.authorization_code,
  length-escape_le info.status,
  length-escape_le info.redirect_uri,
  h.code.0,
  h.status.0,
)

module _ (esys : Esys) (curl : Curl) (garbage : ℕ → ℕ) (event_log : Option (List ℕ))
    (node0 node1 : Bool) (id_file : Option (List ℕ)) where
  enroll-Fits :
      (server_url : List ℕ) (fuel : ℕ) (w : World esys)
      → Ends
          (λ (r : Enrolled esys curl garbage server_url). IsShortText 64 r.1.device_id)
          (enroll esys curl garbage server_url fuel w)
  unfolding enroll enroll_open
  enroll-Fits server_url fuel w = opened (tpm_open esys w).0 (tpm_open esys w).1
    where
      opened :
          (ctx : Option TpmContext) (w' : World esys)
          → Ends
              (λ (r : Enrolled esys curl garbage server_url). IsShortText 64 r.1.device_id)
              (enroll_from esys curl garbage server_url fuel (ctx, w'))
      opened none w' = gives (omega arith, tt)
      opened (some tpm) w' =
          Ends-from (tpm_read_ek_cert esys fuel (some (uninit garbage 4096)) 4096 w') _ λ cert _.
            Ends-known (enroll_keys esys curl garbage server_url cert.0 tpm cert.1) λ r e.
              outcome-IsShortText
                (enroll_keys-Outcome esys curl garbage server_url cert.0 tpm cert.1 r e)

  -- A client of the host whose results are all results of the driver, each in some state.
  status-Fits :
      (w : World esys)
      → All (λ c. c ≢ 0) (take 63 (file_bytes id_file))
      → Ends
          (λ r. IsShortText 64 r.1.device_id × IsShortText 16 r.1.platform)
          (get_status esys node0 node1 id_file w)
  status-Fits w plain = known id_file plain
    where
      known :
          (o : Option (List ℕ))
          → All (λ c. c ≢ 0) (take 63 (file_bytes o))
          → Ends
              (λ r. IsShortText 64 r.1.device_id × IsShortText 16 r.1.platform)
              (get_status esys node0 node1 o w)
      known none h =
          let l = get_status_lem esys node0 node1 [] w tt in
          rw l.1.1 (gives ((omega arith, tt), (omega arith, is_text_sound (codes "linux") refl)))
      known (some file) h =
          let l = get_status_lem esys node0 node1 file w h in
          rw l.0.1 (
            gives (
              (l.2, Ends-at IsText (read_device_id-IsText file) (read_device_id_lem file h)),
              (omega arith, is_text_sound (codes "linux") refl),
            ))

  pub record Driven (client : Client) : Type 0 where
    pub status_of :
        (w w' : World esys) × (get_status esys node0 node1 id_file w
          ≡ some (client.get_status.0, client.get_status.1, w'))
    pub enroll_of :
        (url : List ℕ)
        → (fuel : ℕ) × (w w' : World esys) × (root_herald_enroll esys curl garbage
              (some url)
              (pos 0)
              true
              fuel
              w
            ≡ some ((client.enroll url false).0, some (client.enroll url false).1, w'))
    pub attest_of :
        (u s n : List ℕ)
        → length n < 4096
        → (w w' : World esys) × (root_herald_attest esys curl garbage event_log
              (some u)
              (some s)
              (some n)
              (length n)
              true
              w
            ≡ some
                ((client.attest u s n (length n)).0, some (client.attest u s n (length n)).1, w'))

  enroll_host-Fits :
      (url : List ℕ) (fuel : ℕ) (w : World esys)
      → Ends
          (λ r. HasShortId r.1)
          (root_herald_enroll esys curl garbage (some url) (pos 0) true fuel w)
  unfolding root_herald_enroll HasShortId
  enroll_host-Fits url fuel w =
      Ends-from (enroll esys curl garbage url fuel w) _
        λ r e. gives (Ends-at _ (enroll-Fits url fuel w) e)

  attest_host-Fits :
      (u s n : List ℕ) (w : World esys)
      → Ends
          (λ r. HasShown r.1)
          (root_herald_attest esys curl garbage event_log
            (some u)
            (some s)
            (some n)
            (length n)
            true
            w)
  unfolding root_herald_attest HasShown
  attest_host-Fits u s n w =
      Ends-from (attest esys curl garbage event_log u s n w) _
        λ r e. gives (verdict-Shown (attest-Verdict esys curl garbage event_log u s n w r e))

  -- What the driver returns fits in the arrays of its structs and of the host, if the file of the device
  -- id has no NUL in its first 63 bytes and no address of an attestation is longer than 1,800 bytes.
  pub Driven-ClientFits :
      (client : Client)
      → Driven client
      → All (λ c. c ≢ 0) (take 63 (file_bytes id_file))
      → ((u s n : List ℕ)
          → length n < 4096
          → length (client.attest u s n (length n)).1.redirect_uri ≤ 1800)
      → ClientFits client
  unfolding HasShown HasShortId
  Driven-ClientFits client h plain short =
      let id = Ends-at _ (status-Fits h.status_of.0 plain) h.status_of.2 in
      let shown : (u s n : List ℕ) → length n < 4096 → Shown (client.attest u s n (length n)).1 =
        λ u s n k. let r = h.attest_of u s n k in Ends-at _ (attest_host-Fits u s n r.0) r.2 in
      record {
        device_id = id.0;
        platform = id.1;
        enrolled = λ url. let r = h.enroll_of url in Ends-at _ (enroll_host-Fits url r.0 r.1) r.3;
        code = λ u s n k. (shown u s n k).code.1;
        status = λ u s n k. (shown u s n k).status.1;
        redirect = λ u s n k. (shown u s n k).redirect.1;
        shown = λ u s n k. data_fits _ (shown u s n k) (short u s n k);
        reason = λ u s n k. (shown u s n k).reason;
      }

-- For a client, one for each round, whose results are what the driver returns in some state of the TPM,
-- with a file of the device id that has no NUL in its first 63 bytes and no address of an attestation
-- longer than 1,800 bytes: from a stream of framed messages of at most 2^20 bytes each, for which
-- malloc gives memory, the main loop with fuel for the whole stream writes the answers to all of them,
-- in order.
pub main_loop-driver :
    (esys : Esys) (curl : Curl) (garbage : ℕ → ℕ) (event_log : Option (List ℕ)) (node0 node1 : Bool)
    (id_file : Option (List ℕ)) (malloc : ℕ → Bool) (client : ℕ → Client) (messages : List (List ℕ))
    → ((i : ℕ) → Driven esys curl garbage event_log node0 node1 id_file (client i))
    → All (λ c. c ≢ 0) (take 63 (file_bytes id_file))
    → ((i : ℕ) (u s n : List ℕ)
        → length n < 4096
        → length ((client i).attest u s n (length n)).1.redirect_uri ≤ 1800)
    → All (λ m. (length m ≤ 1048576) × (malloc (length m + 1) ≡ true)) messages
    → main_loop garbage (length (framed messages) + 1) malloc client (framed messages)
      ≡ some (answers client messages)
main_loop-driver esys curl garbage event_log node0 node1 id_file malloc client messages h plain
      short fit =
    main_loop-answers garbage malloc client messages
      (λ i.
        Driven-ClientFits esys curl garbage event_log node0 node1 id_file (client i) (h i) plain
          (short i))
      fit

-- For a client whose results are what the driver returns in some state of the TPM, with a file of
-- the device id that has no NUL in its first 63 bytes and no address of an attestation longer than
-- 1,800 bytes: every single message, well formed or not, is answered with one framed object that
-- holds the id and the payload for its fields, and no array is overrun.
pub dispatch-driver :
    (esys : Esys) (curl : Curl) (garbage : ℕ → ℕ) (event_log : Option (List ℕ)) (node0 node1 : Bool)
    (id_file : Option (List ℕ)) (client : Client) (message : List ℕ)
    → Driven esys curl garbage event_log node0 node1 id_file client
    → All (λ c. c ≢ 0) (take 63 (file_bytes id_file))
    → ((u s n : List ℕ)
        → length n < 4096
        → length (client.attest u s n (length n)).1.redirect_uri ≤ 1800)
    → dispatch garbage client (c_text message) ≡ some (answer_to client (c_text message))
dispatch-driver esys curl garbage event_log node0 node1 id_file client message h plain short =
    dispatch-answer garbage client
      (Driven-ClientFits esys curl garbage event_log node0 node1 id_file client h plain short)
      message
