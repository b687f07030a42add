-- ===== src/Log.antt =====
-- linux/src/internal/log.c: the filter and the trimming of messages. The format is a parameter: what
-- vsnprintf would print, or `none` where it fails.
use sdk_native.Prelude.{
  ℕ, zero, suc, ◌<◌, ◌≤◌, ◌≡◌, ◌≢◌, refl, ap, ◌∙◌, sym, List, [], ◌∷◌, ◌++◌, Bool, true, false, not,
  ◌||◌, ◌&&◌, leb, Option, none, some, codes, length, take, get_or, ltb, ◌==◌, if◌then◌else◌, ◌>>=◌,
  arith, Bool-cases, inl, inr, All, All-take, length-take, append_assoc, lt→leb, ltb→lt, ltb→le,
  >>=-assoc,
}
use sdk_native.Memory.{Buffer, store, snprintf, text_at, overlay}
use sdk_native.Memory.Overlay.{length-overlay}
use sdk_native.Memory.Calls.{store_in, snprintf_cut}
use sdk_native.Memory.Cells.{overlay_at, get_or-overlay, text_at-zeros}

pub record Logger : Type 0 where
  pub has_callback : Bool
  pub max_level : ℕ

unfoldable pub set_log_callback : Bool → Logger → Logger
set_log_callback is_given logger = record logger { has_callback = is_given }

unfoldable pub set_log_level : ℕ → Logger → Logger
set_log_level max_level logger = record logger { max_level = max_level }

abbrev pub is_line_end : ℕ → Bool
is_line_end c = c == 10 || c == 13

-- `while (len > 0 && ...) buf[--len] = 0`
pub trim_loop : Buffer → ℕ → Option Buffer
trim_loop buf zero = some buf
trim_loop buf (suc len) =
    if is_line_end (get_or buf len 0)
    then (do buf' ← store buf len 0; trim_loop buf' len)
    else some buf

abbrev pub failure : List ℕ
failure = codes "(log message formatting failed)"

-- What the callback is called with; the inner `none` is no call. `buf` is the local array.
pub rh_log : Logger → ℕ → Option (List ℕ) → Buffer → Option (Option (List ℕ))
rh_log logger level formatted buf =
    if not logger.has_callback
    then some none
    else if ltb logger.max_level level
    then some none
    else (do
      buf1 ← snprintf buf 0 1024 (elim formatted [ none ↦ failure | some text ↦ text ])
      text ← text_at buf1 0
      buf2 ← trim_loop buf1 (length text)
      message ← text_at buf2 0
      some (some message))

abbrev cons_trimmed : ℕ → List ℕ → List ℕ
cons_trimmed c [] = if is_line_end c then [] else c ∷ []
cons_trimmed c (d ∷ t) = c ∷ d ∷ t

-- The text without the line ends at its end.
pub trim : List ℕ → List ℕ
trim [] = []
trim (c ∷ s) = cons_trimmed c (trim s)

length-cons_trimmed : (c : ℕ) (t : List ℕ) → length (cons_trimmed c t) ≤ suc (length t)
length-cons_trimmed c [] = ground arith
length-cons_trimmed c (d ∷ t) = omega arith

pub length-trim : (s : List ℕ) → length (trim s) ≤ length s
unfolding trim
length-trim [] = omega arith
length-trim (c ∷ s) = omega (arith, length-cons_trimmed c (trim s), length-trim s)

cons_trimmed-snoc : (x : ℕ) (s : List ℕ) (c : ℕ) → cons_trimmed x (s ++ c ∷ []) ≡ x ∷ (s ++ c ∷ [])
cons_trimmed-snoc x [] c = refl
cons_trimmed-snoc x (y ∷ s) c = refl

trim-snoc :
    (s : List ℕ) (c : ℕ) → trim (s ++ c ∷ []) ≡ (if is_line_end c then trim s else s ++ c ∷ [])
unfolding trim
trim-snoc [] c = refl
trim-snoc (x ∷ s) c = ap (cons_trimmed x) (trim-snoc s c) ∙ go (is_line_end c)
  where
    go :
        (b : Bool)
        → cons_trimmed x (if b then trim s else s ++ c ∷ [])
          ≡ (if b then cons_trimmed x (trim s) else x ∷ (s ++ c ∷ []))
    go true = refl
    go false = cons_trimmed-snoc x s c

snoc_view :
    (n : ℕ) (s : List ℕ)
    → length s ≡ suc n
    → (t : List ℕ) × (c : ℕ) × (s ≡ t ++ c ∷ []) × (length t ≡ n)
snoc_view n [] e = absurd (omega arith)
snoc_view zero (x ∷ []) e = ([], x, refl, refl)
snoc_view zero (x ∷ y ∷ s) e = absurd (omega arith)
snoc_view (suc n) (x ∷ []) e = absurd (omega arith)
snoc_view (suc n) (x ∷ y ∷ s) e =
    let (t, c, e', l) = snoc_view n (y ∷ s) (omega arith) in
    (x ∷ t, c, ap (λ r. x ∷ r) e', omega arith)

front : (s t : List ℕ) → All (λ c. c ≢ 0) (s ++ t) → All (λ c. c ≢ 0) s
front [] t h = tt
front (c ∷ s) t h = (h.0, front s t h.1)

pub trim_loop_lem :
    (buf : Buffer) (n : ℕ) (s zs : List ℕ)
    → length s ≡ n
    → n < length buf
    → All (λ c. c ≢ 0) s
    → (trim_loop (overlay buf 0 (s ++ 0 ∷ zs)) n >>= λ b. text_at b 0) ≡ some (trim s)
unfolding trim_loop trim
trim_loop_lem buf zero [] zs e h plain = text_at-zeros buf [] zs plain h
trim_loop_lem buf zero (c ∷ s) zs e h plain = absurd (omega arith)
trim_loop_lem buf (suc n) s zs e h plain =
    let (t, c, snoc, len) = snoc_view n s e in
    let same : overlay buf 0 (s ++ 0 ∷ zs) ≡ overlay buf 0 (t ++ c ∷ 0 ∷ zs) =
      ap (λ r. overlay buf 0 (r ++ 0 ∷ zs)) snoc
      ∙ ap (overlay buf 0) (append_assoc t (c ∷ []) (0 ∷ zs)) in
    let last = get_or-overlay buf t (0 ∷ zs) c n (sym len) (omega arith) in
    let short : trim s ≡ (if is_line_end c then trim t else t ++ c ∷ []) =
      ap trim snoc ∙ trim-snoc t c in
    elim (Bool-cases (is_line_end c)) [
      | inl ends ↦ rw same (
          rw last (
            rw ends (
              rw (store_in (overlay buf 0 (t ++ c ∷ 0 ∷ zs)) n 0 (rw length-overlay (omega arith)))
                (rw (overlay_at buf t (0 ∷ zs) c 0 n (sym len)) (
                  trim_loop_lem buf n t (0 ∷ zs) len (omega arith)
                    (front t (c ∷ []) (rw (← snoc) plain))
                  ∙ ap some (sym (short ∙ ap (λ b. if b then trim t else t ++ c ∷ []) ends)))))))
      | inr stays ↦ rw same (
          rw last (
            rw stays (
              rw (← same) (
                text_at-zeros buf s zs plain (omega arith)
                ∙ ap some
                    (snoc ∙ sym (short ∙ ap (λ b. if b then trim t else t ++ c ∷ []) stays))))))
    ]

le→leb : (a b : ℕ) → a ≤ b → leb a b ≡ true
le→leb a b h = ground arith

-- What follows the filter.
deliver :
    (buf : Buffer) (s : List ℕ)
    → length buf ≡ 1024
    → All (λ c. c ≢ 0) s
    → (do
      buf1 ← snprintf buf 0 1024 s
      text ← text_at buf1 0
      buf2 ← trim_loop buf1 (length text)
      message ← text_at buf2 0
      some (some message))
      ≡ some (some (trim (take 1023 s)))
deliver buf s size plain =
    let text = take 1023 s in
    let n = length-take 1023 s in
    let p = All-take (λ c. c ≢ 0) 1023 s plain in
    rw (snprintf_cut buf 0 1023 s (omega arith)) (
      rw (text_at-zeros buf text [] p (omega arith)) (
        sym (
          >>=-assoc (trim_loop (overlay buf 0 (text ++ 0 ∷ [])) (length text)) (λ b. text_at b 0)
            (λ m. some (some m)))
        ∙ ap (λ o. o >>= λ m. some (some m))
            (trim_loop_lem buf (length text) text [] refl (omega arith) p)))

-- What is printed: the text, or the notice that it cannot be.
abbrev pub printed : Option (List ℕ) → List ℕ
printed none = failure
printed (some text) = text

-- For a message without a NUL and a local array of 1024 cells with any content: the callback is
-- called exactly if there is one and the level is at most the level that was set, and then with the
-- first 1023 bytes of the message without the line ends at its end; the array is not overrun.
pub rh_log_lem :
    (logger : Logger) (level : ℕ) (formatted : Option (List ℕ)) (buf : Buffer)
    → length buf ≡ 1024
    → All (λ c. c ≢ 0) (printed formatted)
    → rh_log logger level formatted buf
      ≡ some (
          if logger.has_callback && leb level logger.max_level
          then some (trim (take 1023 (printed formatted)))
          else none)
unfolding rh_log
rh_log_lem logger level formatted buf size plain = elim (Bool-cases logger.has_callback) [
  | inr silent ↦ rw silent refl
  | inl called ↦ elim (Bool-cases (ltb logger.max_level level)) [
    | inl above ↦
        rw (called, above)
          (rw (lt→leb level logger.max_level (ltb→lt logger.max_level level above)) refl)
    | inr below ↦
        rw (called, below)
          (rw (le→leb level logger.max_level (ltb→le logger.max_level level below))
            (deliver buf (printed formatted) size plain))
  ]
]
