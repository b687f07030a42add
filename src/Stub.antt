-- ===== src/Stub.antt =====
-- linux/src/client/rootherald_stub.c: the client without hardware, for tests.
use sdk_native.Prelude.{
  ℕ, ◌+◌, ◌-◌, ◌<◌, ◌≤◌, ◌≡◌, refl, ap, ◌∙◌, sym, List, [], ◌∷◌, ◌++◌, Bool, Option, none, some,
  codes, length, take, ltb, ◌==◌, if◌then◌else◌, ◌>>=◌, arith, take_all, Bool-cases, inl, inr,
  ltb→lt, ltb→le, length-take, length-append, ne→==, take_nil, append_assoc, append-nil, drop_all,
  All-append, ◌≢◌,
}
use sdk_native.Memory.{Buffer, store, memcpy, text_at, overlay}
use sdk_native.Memory.Overlay.{length-overlay, overlay-append, overlay_over, overlay_front}
use sdk_native.Memory.Calls.{memcpy_in, store_in, text_at-overlay}
use sdk_native.Host.Object.{IsText, is_text_sound}
use sdk_native.Client.{RootHeraldStatus}

-- `cap` cells at `dst`; `none` at `src` is NULL.
pub copy_string : Buffer → ℕ → Option (List ℕ) → Option Buffer
copy_string dst cap src = if cap == 0 then some dst else elim src [
  | none ↦ store dst 0 0
  | some s ↦ do
    let n = if ltb (cap - 1) (length s) then cap - 1 else length s
    dst' ← memcpy dst 0 (take n s)
    store dst' n 0
]

-- The new block holds the text and a NUL; `none` beside the status is an untouched `*out`.
unfoldable pub emit_blob : (ℕ → Bool) → List ℕ → RootHeraldStatus × Option (List ℕ)
emit_blob malloc json =
    if malloc (length json + 1)
    then (RootHeraldStatus.rootherald_ok, some json)
    else (RootHeraldStatus.rootherald_err_internal, none)

abbrev pub prefix : List ℕ
prefix =
    codes
      "{\"stub\":true,\"deviceId\":\"00000000-0000-4000-8000-000000000stub\",\"quote\":{\"nonce\":\""

abbrev pub suffix : List ℕ
suffix = codes "\"}}"

-- strcat: the text goes to the first NUL of the block.
strcat : Buffer → List ℕ → Option Buffer
strcat buf s = do text ← text_at buf 0; memcpy buf (length text) (s ++ 0 ∷ [])

-- `fresh n` is what malloc(n) gives, NULL or a block of `n` cells with any content.
pub collect_evidence :
    (ℕ → Option Buffer) → Option (List ℕ) → Option (RootHeraldStatus × Option Buffer)
collect_evidence fresh none = some (RootHeraldStatus.rootherald_err_invalid_arg, none)
collect_evidence fresh (some []) = some (RootHeraldStatus.rootherald_err_invalid_arg, none)
collect_evidence fresh (some (c ∷ nonce_b64)) =
    elim (fresh (length prefix + length (c ∷ nonce_b64) + length suffix + 1)) [
      | none ↦ some (RootHeraldStatus.rootherald_err_internal, none)
      | some buf ↦ do
        buf0 ← store buf 0 0
        buf1 ← strcat buf0 prefix
        buf2 ← strcat buf1 (c ∷ nonce_b64)
        buf3 ← strcat buf2 suffix
        some (RootHeraldStatus.rootherald_ok, some buf3)
    ]

abbrev text_of : Option (List ℕ) → List ℕ
text_of none = []
text_of (some s) = s

write_text :
    (dst : Buffer) (n : ℕ) (s : List ℕ)
    → n ≡ length s
    → n < length dst
    → (memcpy dst 0 s >>= λ d. store d n 0) ≡ some (overlay dst 0 (s ++ 0 ∷ []))
write_text dst n s e h = rw (memcpy_in dst 0 s (omega arith)) (
    store_in (overlay dst 0 s) n 0 (rw length-overlay h)
    ∙ ap some (overlay-append dst 0 n s (0 ∷ []) (omega arith)))

-- With `cap` not 0 and at least `cap` cells at `dst`: what fits in `cap - 1` cells is copied, with a
-- NUL behind it; a NULL source is the empty text.
pub copy_string_lem :
    (dst : Buffer) (cap : ℕ) (src : Option (List ℕ))
    → 0 < cap
    → cap ≤ length dst
    → copy_string dst cap src ≡ some (overlay dst 0 (take (cap - 1) (text_of src) ++ 0 ∷ []))
unfolding copy_string
copy_string_lem dst cap none some_cells inside =
    rw (ne→== cap 0 (omega arith))
      (rw (take_nil {A = ℕ} (cap - 1)) (store_in dst 0 0 (omega arith)))
copy_string_lem dst cap (some s) some_cells inside =
    rw (ne→== cap 0 (omega arith)) (elim (Bool-cases (ltb (cap - 1) (length s))) [
      | inl long ↦
          let lt = ltb→lt (cap - 1) (length s) long in
          rw long (
            write_text dst (cap - 1) (take (cap - 1) s) (omega (arith, length-take (cap - 1) s))
              (omega arith))
      | inr short ↦
          let le = ltb→le (cap - 1) (length s) short in
          rw short (
            rw (take_all (length s) s (omega arith), take_all (cap - 1) s le)
              (write_text dst (length s) s refl (omega arith)))
    ])

overlay_whole : (buf : Buffer) (s : List ℕ) → length buf ≡ length s → overlay buf 0 s ≡ s
overlay_whole buf s e =
    overlay_front buf s (omega arith)
    ∙ ap (λ t. s ++ t) (drop_all (length s) buf (omega arith))
    ∙ append-nil s

strcat_lem :
    (buf : Buffer) (text s : List ℕ)
    → IsText text
    → length text + length s < length buf
    → strcat (overlay buf 0 (text ++ 0 ∷ [])) s ≡ some (overlay buf 0 ((text ++ s) ++ 0 ∷ []))
unfolding strcat
strcat_lem buf text s plain h = rw (text_at-overlay buf 0 text plain (omega arith)) (
    memcpy_in (overlay buf 0 (text ++ 0 ∷ [])) (length text) (s ++ 0 ∷ [])
      (rw length-overlay (omega (arith, length-append s (0 ∷ []))))
    ∙ ap some (
        overlay_over buf 0 (length text) text (s ++ 0 ∷ []) (omega arith)
          (omega (arith, length-append s (0 ∷ [])))
        ∙ ap (overlay buf 0) (sym (append_assoc text s (0 ∷ [])))))

-- Where malloc gives a block of the size that is asked for, CollectEvidence of the stub, with a
-- nonce that is not empty and has no NUL, fills it from its first cell to its last with the fixed text around the
-- nonce and a NUL, and returns OK.
pub collect_evidence-nonce :
    (fresh : ℕ → Option Buffer) (c : ℕ) (nonce : List ℕ) (buf : Buffer)
    → let text = prefix ++ (c ∷ nonce) ++ suffix in
      IsText (c ∷ nonce)
      → fresh (length prefix + length (c ∷ nonce) + length suffix + 1) ≡ some buf
      → length buf ≡ length text + 1
      → collect_evidence fresh (some (c ∷ nonce))
        ≡ some (RootHeraldStatus.rootherald_ok, some (text ++ 0 ∷ []))
unfolding collect_evidence
collect_evidence-nonce fresh c nonce buf plain given size =
    let front = is_text_sound prefix refl in
    let n1 = length-append prefix (c ∷ nonce) in
    let n2 = length-append (prefix ++ c ∷ nonce) suffix in
    let n3 = length-append (prefix ++ (c ∷ nonce) ++ suffix) (0 ∷ []) in
    rw (given, collect_evidence)
      (rw (store_in buf 0 0 (omega arith)) (
        rw (strcat_lem buf [] prefix tt (omega arith)) (
          rw (strcat_lem buf prefix (c ∷ nonce) front (omega arith)) (
            rw
              (strcat_lem buf (prefix ++ c ∷ nonce) suffix
                (All-append (λ x. x ≢ 0) prefix (c ∷ nonce) front plain) (omega arith))
              (ap (λ b. some (RootHeraldStatus.rootherald_ok, some b))
                (overlay_whole buf ((prefix ++ (c ∷ nonce) ++ suffix) ++ 0 ∷ []) (omega arith)))))))
