-- ===== src/Host/Dispatch.antt =====
-- The request of linux/native_host/native_host.c: its fields, and which handler answers it.
use sdk_native.Prelude.{
  ℕ, zero, suc, ◌-◌, ◌<◌, ◌≡◌, refl, List, [], ◌∷◌, Bool, true, false, Option, none, some, codes,
  length, arith, if◌then◌else◌, ◌==◌, ◌≢◌, take, drop, All-take, length-take, length-replicate,
  replicate, leb, String,
}
use sdk_native.Memory.Calls.{text_at-overlay}
use sdk_native.Json.{strstr, starts_with, skip_space, is_space, unescape, raw_depth, quoted}
use sdk_native.Json.Value.{
  string_value, raw_value, value_text, behind_key, lookup, filled, json_get_lem,
}
use sdk_native.Host.{request_field, c_text, dispatch, answer, Client}
use sdk_native.Host.Object.{step, IsText, if-IsText}
use sdk_native.Host.Answer.{IsShortText}

pub c_text-IsText : (s : List ℕ) → IsText (c_text s)
unfolding c_text
c_text-IsText [] = tt
c_text-IsText (c ∷ s) = ground (arith, c_text-IsText s)

case-IsText :
    (b : Bool) (s t : List ℕ) → IsText s → IsText t → IsText (elim b [ true ↦ s | false ↦ t ])
case-IsText true s t h k = h
case-IsText false s t h k = k

case_some {ℓ} :
    {A : Type ℓ} (P : A → Type 0) (b : Bool) (m n : Option A) (t : A)
    → (if b then m else n) ≡ some t
    → (m ≡ some t → P t)
    → (n ≡ some t → P t)
    → P t
case_some P true m n t e f g = f e
case_some P false m n t e f g = g e

some-IsText : (s t : List ℕ) → IsText s → some s ≡ some t → IsText t
some-IsText s t h e = let same : t ≡ s = cc in rw same h

strstr-IsText : (s pat t : List ℕ) → IsText s → strstr s pat ≡ some t → IsText t
unfolding strstr
strstr-IsText [] pat t h e =
    case_some IsText (starts_with pat []) (some []) none t e (some-IsText [] t tt) (λ k. cc)
strstr-IsText (c ∷ s) pat t h e =
    case_some IsText (starts_with pat (c ∷ s)) (some (c ∷ s)) (strstr s pat) t e
      (some-IsText (c ∷ s) t h) (strstr-IsText s pat t h.1)

skip_space-IsText : (s : List ℕ) → IsText s → IsText (skip_space s)
unfolding skip_space
skip_space-IsText [] h = tt
skip_space-IsText (c ∷ s) h =
    if-IsText (is_space c) (skip_space s) (c ∷ s) (skip_space-IsText s h.1) h

drop-IsText : (n : ℕ) (s : List ℕ) → IsText s → IsText (drop n s)
drop-IsText zero s h = h
drop-IsText (suc n) [] h = tt
drop-IsText (suc n) (c ∷ s) h = drop-IsText n s h.1

unescape_ne : (c : ℕ) → c ≢ 0 → unescape c ≢ 0
unfolding unescape
unescape_ne c h = ground arith

string_value-IsText : (s : List ℕ) → IsText s → IsText (string_value s)
unfolding string_value
string_value-IsText [] h = tt
string_value-IsText (c ∷ []) h = if-IsText (c == b'"') [] (c ∷ []) tt h
string_value-IsText (c ∷ e ∷ rest) h = case-IsText (c == b'"') [] _ tt (
    case-IsText (c == 0x5c) (unescape e ∷ string_value rest) (c ∷ string_value (e ∷ rest))
      (unescape_ne e h.1.0, string_value-IsText rest h.1.1)
      (h.0, string_value-IsText (e ∷ rest) h.1))

raw_value-IsText : (depth : ℕ) (s : List ℕ) → IsText s → IsText (raw_value depth s)
unfolding raw_value
raw_value-IsText depth [] h = tt
raw_value-IsText depth (c ∷ rest) h = go (λ d. raw_value-IsText d rest h.1) (raw_depth c depth)
  where
    go :
        ((d : ℕ) → IsText (raw_value d rest))
        → (d : Option ℕ) → IsText (elim d [ none ↦ [] | some depth' ↦ c ∷ raw_value depth' rest ])
    go more none = tt
    go more (some depth') = (h.0, more depth')

value_text-IsText : (s : List ℕ) → IsText s → IsText (value_text s)
unfolding value_text
value_text-IsText [] h = tt
value_text-IsText (c ∷ rest) h =
    if-IsText (c == b'"') (string_value rest) (raw_value 0 (c ∷ rest))
      (string_value-IsText rest h.1) (raw_value-IsText 0 (c ∷ rest) h)

behind_key-IsText : (s : List ℕ) → IsText s → IsText (behind_key s)
unfolding behind_key
behind_key-IsText [] h = tt
behind_key-IsText (c ∷ rest) h =
    if-IsText (c == b':') (value_text (skip_space rest)) []
      (value_text-IsText (skip_space rest) (skip_space-IsText rest h.1)) tt

lookup-IsText : (json key : List ℕ) → IsText json → IsText (lookup json key)
unfolding lookup
lookup-IsText json key h =
    if-IsText (leb 256 (length (quoted key))) [] _ tt (go (strstr json (quoted key)) refl)
  where
    go :
        (at : Option (List ℕ))
        → strstr json (quoted key) ≡ at
        → IsText (elim at [
          | none ↦ []
          | some pos ↦ behind_key (skip_space (drop (length (quoted key)) pos))
        ])
    go none e = tt
    go (some pos) e = behind_key-IsText (skip_space (drop (length (quoted key)) pos)) (
        skip_space-IsText (drop (length (quoted key)) pos)
          (drop-IsText (length (quoted key)) pos (strstr-IsText json (quoted key) pos h e)))

-- The value that an array of `n` cells takes.
abbrev pub field : List ℕ → String → ℕ → List ℕ
field request key n = take (n - 1) (lookup request (codes key))

pub field-IsShortText :
    (request : List ℕ) (key : String) (n : ℕ)
    → 0 < n
    → IsText request
    → IsShortText n (field request key n)
field-IsShortText request key n some_cells plain = (
  omega (arith, length-take (n - 1) (lookup request (codes key))),
  All-take (λ c. c ≢ 0) (n - 1) (lookup request (codes key))
      (lookup-IsText request (codes key) plain),
)

request_field_lem :
    (request : List ℕ) (key : String) (n : ℕ)
    → 0 < n
    → IsText request
    → request_field request key n ≡ some (field request key n)
unfolding request_field filled
request_field_lem request key n some_cells plain =
    let e = length-replicate {A = ℕ} n 0 in
    let ok = field-IsShortText request key n some_cells plain in
    step _ (json_get_lem request (codes key) (replicate n 0) n some_cells (omega arith))
      (text_at-overlay (replicate n 0) 0 (field request key n) ok.1 (omega arith))

-- Every request without a NUL is taken apart without a fault: each field that is handed to the
-- handlers is the value of its key, cut to its array.
pub dispatch_lem :
    (garbage : ℕ → ℕ) (client : Client) (request : List ℕ)
    → IsText request
    → dispatch garbage client request
      ≡ answer garbage client
          (field request "action" 64)
          (field request "id" 64)
          (field request "serverUrl" 2048)
          (field request "sessionId" 64)
          (field request "nonce" 4096)
unfolding dispatch
dispatch_lem garbage client request plain =
    step _ (request_field_lem request "action" 64 (omega arith) plain) (
      step _ (request_field_lem request "serverUrl" 2048 (omega arith) plain) (
        step _ (request_field_lem request "id" 64 (omega arith) plain) (
          step _ (request_field_lem request "sessionId" 64 (omega arith) plain)
            (step _ (request_field_lem request "nonce" 4096 (omega arith) plain) refl))))
