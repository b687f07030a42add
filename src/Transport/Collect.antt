-- ===== src/Transport/Collect.antt =====
-- What a response buffer holds after a transfer.
use sdk_native.Prelude.{
  ℕ, zero, suc, ◌+◌, ◌-◌, ◌<◌, ◌≤◌, ◌≡◌, refl, ap, ◌∙◌, sym, List, [], ◌∷◌, ◌++◌, true, false,
  Option, none, some, length, take, ltb, leb, if◌then◌else◌, ◌>>=◌, ℤ, pos, minus_one, arith,
  Bool-cases, inl, inr, length-append, length-take, take_all, append_assoc, append-nil, take_nil,
  >>=-assoc,
}
use sdk_native.Memory.{Buffer, store, memcpy, overlay}
use sdk_native.Memory.Overlay.{length-overlay, overlay-append, overlay_over}
use sdk_native.Memory.Calls.{store_in, memcpy_in}
use sdk_native.Transport.{ResponseCtx, write_callback, collect, Curl, Request, Reply, perform}

-- All bytes of a transfer.
abbrev pub concat : List (List ℕ) → List ℕ
concat [] = []
concat (bytes ∷ chunks) = bytes ++ concat chunks

-- The state after the bytes `s`: as many of them as leave a cell for the NUL, and the NUL.
received : Buffer → ℕ → List ℕ → ResponseCtx
received buf buf_len s = record {
  buf = overlay buf 0 (take (buf_len - 1) s ++ 0 ∷ []);
  buf_len = buf_len;
  written = length (take (buf_len - 1) s);
}

minus_zero : (n : ℕ) → n ≡ n - 0
minus_zero n = omega arith

minus_suc : (n k : ℕ) → n - k ≡ suc n - suc k
minus_suc n k = omega arith

take_split : (n : ℕ) (s t : List ℕ) → take n (s ++ t) ≡ take n s ++ take (n - length (take n s)) t
take_split zero s t = refl
take_split (suc n) [] t = ap (λ k. take k t) (minus_zero (suc n))
take_split (suc n) (x ∷ s) t =
    ap (λ r. x ∷ r)
      (take_split n s t ∙ ap (λ k. take n s ++ take k t) (minus_suc n (length (take n s))))

-- Appending at the NUL of a text that stands at the start of a buffer.
append_there :
    (buf : Buffer) (u v : List ℕ) (i j : ℕ)
    → i ≡ length u
    → j ≡ i + length v
    → j < length buf
    → (memcpy (overlay buf 0 (u ++ 0 ∷ [])) i v >>= λ b. store b j 0)
      ≡ some (overlay buf 0 ((u ++ v) ++ 0 ∷ []))
append_there buf u v i j ei ej h =
    rw (memcpy_in (overlay buf 0 (u ++ 0 ∷ [])) i v (rw length-overlay (omega arith))) (
      store_in (overlay (overlay buf 0 (u ++ 0 ∷ [])) i v) j 0
        (rw length-overlay (rw length-overlay h))
      ∙ ap some (
          overlay-append (overlay buf 0 (u ++ 0 ∷ [])) i j v (0 ∷ []) ej
          ∙ overlay_over buf 0 i u (v ++ 0 ∷ []) (omega arith)
              (omega (arith, length-append v (0 ∷ [])))
          ∙ ap (overlay buf 0) (sym (append_assoc u v (0 ∷ [])))))

abbrev state : ℕ → Buffer → ℕ → ℕ → Option (ℕ × ResponseCtx)
state n buf buf_len written = some (n, record { buf = buf; buf_len = buf_len; written = written })

finish :
    (buf : Buffer) (u v w : List ℕ) (buf_len i j n : ℕ)
    → i ≡ length u
    → j ≡ i + length v
    → j < length buf
    → w ≡ u ++ v
    → (do
      buf1 ← memcpy (overlay buf 0 (u ++ 0 ∷ [])) i v
      buf2 ← store buf1 j 0
      state n buf2 buf_len j)
      ≡ state n (overlay buf 0 (w ++ 0 ∷ [])) buf_len (length w)
finish buf u v w buf_len i j n ei ej h e =
    sym (>>=-assoc (memcpy (overlay buf 0 (u ++ 0 ∷ [])) i v) (λ b. store b j 0) _)
    ∙ ap (λ o. o >>= λ b. state n b buf_len j) (append_there buf u v i j ei ej h)
    ∙ state_eq
  where
    state_eq :
        state n (overlay buf 0 ((u ++ v) ++ 0 ∷ [])) buf_len j
        ≡ state n (overlay buf 0 (w ++ 0 ∷ [])) buf_len (length w)
    state_eq = rw e (ap (state n _ buf_len) (omega (arith, length-append u v)))

avail_lem :
    (buf_len written : ℕ)
    → written < buf_len
    → (if ltb (written + 1) buf_len then buf_len - written - 1 else 0) ≡ buf_len - 1 - written
avail_lem buf_len written h = ground arith

leb→le : (a b : ℕ) → leb a b ≡ true → a ≤ b
leb→le a b h = ground arith

leb→lt : (a b : ℕ) → leb a b ≡ false → b < a
leb→lt a b h = ground arith

-- The callback on a state written out, the taken text named.
callback_lem :
    (buf : Buffer) (buf_len : ℕ) (u w bytes : List ℕ)
    → length u < buf_len
    → buf_len ≤ length buf
    → w ≡ u ++ take (buf_len - 1 - length u) bytes
    → write_callback bytes
        (record { buf = overlay buf 0 (u ++ 0 ∷ []); buf_len = buf_len; written = length u })
      ≡ state (length bytes) (overlay buf 0 (w ++ 0 ∷ [])) buf_len (length w)
unfolding write_callback
callback_lem buf buf_len u w bytes lt h e =
    elim (Bool-cases (leb buf_len (length u + length bytes))) [
      | inl full ↦
          let le = leb→le buf_len (length u + length bytes) full in
          rw full (
            rw (avail_lem buf_len (length u) lt) (
              finish buf u (take (buf_len - 1 - length u) bytes) w buf_len (length u)
                (length u + (buf_len - 1 - length u)) (length bytes) refl
                (omega (arith, length-take (buf_len - 1 - length u) bytes)) (omega arith) e))
      | inr room ↦
          let under = leb→lt buf_len (length u + length bytes) room in
          rw room (
            finish buf u bytes w buf_len (length u) (length u + length bytes) (length bytes) refl
              refl (omega arith)
              (e ∙ ap (λ r. u ++ r) (take_all (buf_len - 1 - length u) bytes (omega arith))))
    ]

-- One call of the callback: it never faults, consumes all bytes, and appends what fits.
write_callback-received :
    (buf : Buffer) (buf_len : ℕ) (s bytes : List ℕ)
    → 0 < buf_len
    → buf_len ≤ length buf
    → write_callback bytes (received buf buf_len s)
      ≡ some (length bytes, received buf buf_len (s ++ bytes))
unfolding received
write_callback-received buf buf_len s bytes room h =
    callback_lem buf buf_len (take (buf_len - 1) s) (take (buf_len - 1) (s ++ bytes)) bytes
      (omega (arith, length-take (buf_len - 1) s)) h (take_split (buf_len - 1) s bytes)

collect-received :
    (buf : Buffer) (buf_len : ℕ) (s : List ℕ) (chunks : List (List ℕ))
    → 0 < buf_len
    → buf_len ≤ length buf
    → collect chunks (received buf buf_len s) ≡ some (received buf buf_len (s ++ concat chunks))
unfolding collect
collect-received buf buf_len s [] room h =
    ap (λ r. some (received buf buf_len r)) (sym (append-nil s))
collect-received buf buf_len s (bytes ∷ chunks) room h =
    rw (write_callback-received buf buf_len s bytes room h) (
      collect-received buf buf_len (s ++ bytes) chunks room h
      ∙ ap (λ r. some (received buf buf_len r)) (append_assoc s bytes (concat chunks)))

-- What a request leaves in the buffer, and what it returns.
abbrev pub response : Buffer → ℕ → Option Reply → ℤ × Buffer
response buf buf_len none = (minus_one, overlay buf 0 (0 ∷ []))
response buf buf_len (some reply) = (
  if reply.is_ok then pos reply.http_code else minus_one,
  overlay buf 0 (take (buf_len - 1) (concat reply.chunks) ++ 0 ∷ []),
)

-- In a buffer that has the given number of cells, at least one, a request writes as much of the
-- response as leaves a cell for the NUL, in the order of the chunks, and the NUL, also where the
-- transfer fails in its middle and where no handle is made; it writes no other cell and no cell
-- outside. It returns the response code where the transfer succeeds and -1 elsewhere.
pub perform_lem :
    (curl : Curl) (request : Request) (buf : Buffer) (buf_len : ℕ)
    → 0 < buf_len
    → buf_len ≤ length buf
    → perform curl request buf buf_len ≡ some (response buf buf_len (curl request))
unfolding perform received
perform_lem curl request buf buf_len room h =
    rw (store_in buf 0 0 (omega arith)) (go (curl request))
  where
    start :
        ◌≡◌ {A = ResponseCtx}
          (record { buf = overlay buf 0 (0 ∷ []); buf_len = buf_len; written = 0 })
          (received buf buf_len [])
    start =
        ap
          (λ t. record { buf = overlay buf 0 (t ++ 0 ∷ []); buf_len = buf_len; written = length t })
          (sym (take_nil (buf_len - 1)))

    go :
        (reply : Option Reply)
        → elim reply [
          | none ↦ some (minus_one, overlay buf 0 (0 ∷ []))
          | some reply ↦ do
            rctx ←
                collect reply.chunks
                  (record { buf = overlay buf 0 (0 ∷ []); buf_len = buf_len; written = 0 })
            some (if reply.is_ok then pos reply.http_code else minus_one, rctx.buf)
        ]
          ≡ some (response buf buf_len reply)
    go none = refl
    go (some reply) =
        ap
          (λ o.
            o >>= λ rctx. some (if reply.is_ok then pos reply.http_code else minus_one, rctx.buf))
          (ap (collect reply.chunks) start ∙ collect-received buf buf_len [] reply.chunks room h)
