-- ===== src/Lib.antt =====
-- The Root Herald SDK for Linux in C, three parts of the one for Windows in C++, and their theorems.
--
-- The program. A native messaging host (linux/native_host/native_host.c) reads framed JSON requests
-- from a browser on stdin and answers them on stdout. It calls the driver in
-- linux/src/client/rootherald_linux.c, which collects evidence from a TPM through
-- linux/src/tpm/tpm_esapi.c, encodes it with the base64, hex, PEM and JSON functions of the same file,
-- and posts it with linux/src/transport/http_curl.c. The public interface (common/rootherald.h) is the
-- facade in linux/src/client/rootherald_client.c and rootherald_session.c; rootherald_stub.c is a
-- version of it without hardware. On Windows the client talks to the TPM in bytes with
-- windows/src/tpm/tpm_commands.cpp, and describes the boot with
-- windows/src/boot/event_log_parser.cpp, whose result secureboot_validator.cpp beside it judges.
--
-- The files. Each component is a module with its definitions, and its proofs stand in child modules.
--   Prelude    shared names, tests on numbers, lists over the native numbers, bits.
--   Memory     buffers, stores, memcpy, snprintf; Overlay is what a buffer is after a write, Calls what
--              those calls do, Cells one cell of a text in a buffer.
--   Base64     base64_encode, b64_decode_char, base64_decode; Encode, Decode and RoundTrip prove.
--   Hex, Pem   bytes_to_hex, der_to_pem.
--   Json       json_get, json_append_string, json_append_raw. Value is what json_get finds, Field what
--              the other two add, Build an object made of such fields, Overflow what happens to a text
--              that does not fit, RoundTrip a field that is added and read.
--   Transport  ResponseCtx, write_callback, http_post_json, http_get; Collect is the response.
--   Protocol   the result codes and structs of common/protocol.h.
--   Tpm        tpm_esapi.c: Keys (tpm_read_ek_pub, tpm_create_ak, tpm_get_ak_pub, tpm_get_ak_name),
--              Certificate (tpm_read_ek_cert), Attest (tpm_quote, tpm_pcr_read,
--              tpm_activate_credential), Handles (which handles stay loaded).
--   Host       native_host.c: the framing, the handlers, main. Frame, Object, Answer, Replies, Dispatch
--              and Service prove.
--   Client     the facade; Ownership follows its blocks on the heap.
--   Stub       rootherald_stub.c.
--   Log        linux/src/internal/log.c.
--   Driver     RootHeraldGetStatus of rootherald_linux.c; Parts, Enroll and Attest are RootHeraldEnroll,
--              RootHeraldAttest and event_log_read. Handles and Closed follow the key handles through
--              them, Outcome what they return, Fits how the host uses it.
--   EventLog   event_log_parser.cpp: Names (the texts of an event), Parse (one event), Classify (its
--              entry and the verdict), Loop (the whole log). Inside and Rest are about its reads, Words,
--              Events and RoundTrip about a log that is written and read, Kept, Counts and SecureBoot
--              about the entries, the counters and the verdict.
--   TpmCommands  tpm_commands.cpp: Pcr (PcrRead, Quote), Keys (CreateAndLoadAk, CreateEk,
--              IsPersistentPresent, EvictControl), Activate (ActivateCredential), Nv
--              (ReadNvCertificate, ReadIntelOdcaIntermediates). Words, Inside, Sessions, NvArea and
--              PcrValue prove.
--   Validator  secureboot_validator.cpp: the signature lists; Chain is ValidateSecureBootChain. Inside is
--              about the reads, Marks and Sound about what a valid chain has shown.
--   Tests      runs at concrete inputs.
--
-- How the code is read. A byte is a natural number, a buffer the list of its cells. A function that
-- writes gives the new buffer; `none` is an access outside of an object, and what follows it is not
-- run. A text that is only read is the list of its bytes in front of the NUL. Tests for NULL are left
-- out of static helpers whose callers never pass it and of RootHeraldGetStatus, and kept as an Option in
-- the other public functions.
-- size_t, uint32_t and uint16_t wrap where the code can make them wrap; int is used only for results
-- and small counters. snprintf does not fail, and its texts have fewer than 2^31 bytes. Arrays on the
-- stack start with any content, and a theorem holds for all of it.
--
-- What is not under this repository is a parameter: libcurl is the function Curl, tpm2-tss the record
-- Esys, malloc a function that tells whether an allocation succeeds, TBS on Windows the function Tbs,
-- which answers a command after those that came before. The host calls the driver through the record
-- Client, one for each round. CryptoAPI is the record CryptoApi. The file of the event log is the list of its bytes, or
-- none where it does not open.
--
-- Fuel. The main loop of the host, the read of the certificate, the loop over the event log and the
-- read of an NV area on Windows are on fuel: the host's loop needs one more than the bytes on the
-- stream, since each round takes four at least, and the reads one more than the bytes of the
-- certificate, since a device that gives what it is asked for gives one at least. The event log takes
-- one more than its bytes, since an event has twelve at least, and so do the lists of a variable and
-- the certificates of a list, since no entry of them is empty. RootHeraldEnroll passes its fuel on to
-- the read of the certificate.
--
-- Not modelled: the driver and the facade for Windows with its NCrypt code
-- (rootherald_win.cpp, rootherald_client.cpp, tpm_pcp.cpp), the code for
-- macOS, and the samples; messages to the log; the mutex of a client; event_log_read without a buffer,
-- which has no caller.
pub mod Prelude
pub mod Memory
pub mod Base64
pub mod Hex
pub mod Pem
pub mod Json
pub mod Transport
pub mod Protocol
pub mod Tpm
pub mod Host
pub mod Client
pub mod Stub
pub mod Log
pub mod Driver
pub mod EventLog
pub mod Tests
pub mod TpmCommands
pub mod Validator
