-- ===== src/Transport.antt =====
-- linux/src/transport/http_curl.c: the callback that collects a response, and the two requests.
-- libcurl is a parameter: what it hands to the callback, chunk by chunk, and what it returns.
pub mod Collect
use sdk_native.Prelude.{
  ℕ, ◌+◌, ◌-◌, List, [], ◌∷◌, ◌++◌, Bool, true, false, ◌||◌, Option, none, some, length, take, ltb,
  leb, ◌==◌, if◌then◌else◌, ◌>>=◌, ℤ, pos, minus_one, String, codes,
}
use sdk_native.Memory.{Buffer, store, memcpy}

pub record ResponseCtx : Type 0 where
  pub buf : Buffer
  pub buf_len : ℕ
  pub written : ℕ

-- `ptr` with `size * nmemb` bytes is the list `bytes`; its length is returned on both branches.
unfoldable pub write_callback : List ℕ → ResponseCtx → Option (ℕ × ResponseCtx)
write_callback bytes rctx =
    if leb rctx.buf_len (rctx.written + length bytes)
    then (do
      let avail = if ltb (rctx.written + 1) rctx.buf_len then rctx.buf_len - rctx.written - 1 else 0
      buf1 ← memcpy rctx.buf rctx.written (take avail bytes)
      let written = rctx.written + avail
      buf2 ← store buf1 written 0
      some (length bytes, record rctx { buf = buf2; written = written }))
    else (do
      buf1 ← memcpy rctx.buf rctx.written bytes
      let written = rctx.written + length bytes
      buf2 ← store buf1 written 0
      some (length bytes, record rctx { buf = buf2; written = written }))

-- The chunks of one transfer.
unfoldable pub collect : List (List ℕ) → ResponseCtx → Option ResponseCtx
collect [] rctx = some rctx
collect (bytes ∷ chunks) rctx = do (n, rctx') ← write_callback bytes rctx; collect chunks rctx'

-- What a request sets on the curl handle.
pub data Method : Type 0 where
  get : Method
  post : List ℕ → Method

pub record Request : Type 0 where
  pub url : List ℕ
  pub method : Method
  pub headers : List String
  pub timeout : ℕ
  pub connect_timeout : ℕ
  pub follow_location : Bool
  pub max_redirs : ℕ
  pub ssl_verify_peer : Bool
  pub ssl_verify_host : ℕ
  pub user_agent : String

-- What curl_easy_perform does: the chunks that it hands to the callback, whether it returns CURLE_OK,
-- and the response code.
pub record Reply : Type 0 where
  pub chunks : List (List ℕ)
  pub is_ok : Bool
  pub http_code : ℕ

-- `none` where curl_easy_init fails.
abbrev pub Curl : Type 0
Curl = Request → Option Reply

-- The part that both requests share, with the buffer and its length in `response_buf_len`.
unfoldable pub perform : Curl → Request → Buffer → ℕ → Option (ℤ × Buffer)
perform curl request response_buf response_buf_len = do
  buf ← store response_buf 0 0
  elim (curl request) [
    | none ↦ some (minus_one, buf)
    | some reply ↦ do
      rctx ← collect reply.chunks (record { buf = buf; buf_len = response_buf_len; written = 0 })
      some (if reply.is_ok then pos reply.http_code else minus_one, rctx.buf)
  ]

-- The options that each of them sets.
abbrev pub post_request : List ℕ → List ℕ → Request
post_request url json_body = record {
  url = url;
  method = post json_body;
  headers = "Content-Type: application/json" ∷ "Accept: application/json" ∷ [];
  timeout = 30;
  connect_timeout = 10;
  follow_location = true;
  max_redirs = 3;
  ssl_verify_peer = true;
  ssl_verify_host = 2;
  user_agent = "RootHerald-Linux-SDK/0.1";
}

abbrev pub get_request : List ℕ → Request
get_request url = record {
  url = url;
  method = get;
  headers = "Accept: application/json" ∷ [];
  timeout = 30;
  connect_timeout = 10;
  follow_location = true;
  max_redirs = 3;
  ssl_verify_peer = true;
  ssl_verify_host = 2;
  user_agent = "RootHerald-Linux-SDK/0.1";
}

-- Pointers may be NULL here: `none`.
unfoldable pub http_post_json :
    Curl → Option (List ℕ) → Option (List ℕ) → Option Buffer → ℕ → Option (ℤ × Option Buffer)
http_post_json curl (some url) (some json_body) (some response_buf) response_buf_len =
    if response_buf_len == 0 then some (minus_one, some response_buf) else do
      (rc, buf) ← perform curl (post_request url json_body) response_buf response_buf_len
      some (rc, some buf)
http_post_json curl url json_body response_buf response_buf_len = some (minus_one, response_buf)

unfoldable pub http_get : Curl → Option (List ℕ) → Option Buffer → ℕ → Option (ℤ × Option Buffer)
http_get curl (some url) (some response_buf) response_buf_len =
    if response_buf_len == 0 then some (minus_one, some response_buf) else do
      (rc, buf) ← perform curl (get_request url) response_buf response_buf_len
      some (rc, some buf)
http_get curl url response_buf response_buf_len = some (minus_one, response_buf)
