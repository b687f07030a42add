-- ===== src/Host/Frame.antt =====
-- Framed messages: what one side writes the other reads, and the loop of main on them.
use sdk_native.Prelude.{
  ℕ, zero, suc, ◌+◌, ◌/◌, ◌^◌, ◌<◌, ◌≤◌, ◌≡◌, refl, ap, ◌∙◌, sym, List, [], ◌∷◌, ◌++◌, Bool, true,
  false, Option, none, some, length, take, drop, arith, ◌>>=◌, if◌then◌else◌, All, length-append,
  length-drop, ltb, ◌==◌, take_append, drop_append, take_all, le→ltb, Option-cases, inl, inr,
  ==_iff,
}
use sdk_native.Prelude.Bits.{u8, u32}
use sdk_native.Host.{
  Client, later, from_le32, le32, read_message, write_message, dispatch, c_text, main_loop,
}

from_le32-le32 :
    (n : ℕ) → n < 2 ^ 32 → from_le32 (u8 n) (u8 (n / 256)) (u8 (n / 65536)) (u8 (n / 16777216)) ≡ n
unfolding from_le32
from_le32-le32 n h = omega arith

u32_small : (n : ℕ) → n < 2 ^ 32 → u32 n ≡ n
u32_small n h = omega arith

-- A message of at most 2^20 bytes that was written is read back, and what follows it is left on the
-- stream, if malloc gives memory for it.
pub read-write :
    (malloc : ℕ → Bool) (message rest : List ℕ)
    → length message ≤ 1048576
    → malloc (length message + 1) ≡ true
    → read_message malloc (write_message message ++ rest) ≡ some (message, rest)
unfolding read_message write_message le32
read-write malloc message rest small room = rw (u32_small (length message) (omega arith)) (
    rw (from_le32-le32 (length message) (omega arith)) (
      rw (le→ltb 1048576 (length message) small) (
        rw room (
          rw (take_all (length message) message (omega arith)) (
            rw (take_append message rest, drop_append message rest)
              (rw ((==_iff (length message) (length message)).1 refl) refl))))))

if_some {ℓ} :
    {A : Type ℓ} (x y z : Bool) (p q : A)
    → (if x then none else if y then (if z then some q else none) else none) ≡ some p
    → q ≡ p
if_some true y z p q h = cc
if_some false true true p q h = cc
if_some false true false p q h = cc
if_some false false z p q h = cc

-- A message that is read was on the stream, with its four bytes in front.
read_message-shorter :
    (malloc : ℕ → Bool) (stdin message rest : List ℕ)
    → read_message malloc stdin ≡ some (message, rest)
    → length rest < length stdin
unfolding read_message
read_message-shorter malloc [] message rest h = cc
read_message-shorter malloc (a ∷ []) message rest h = cc
read_message-shorter malloc (a ∷ b ∷ []) message rest h = cc
read_message-shorter malloc (a ∷ b ∷ c ∷ []) message rest h = cc
read_message-shorter malloc (a ∷ b ∷ c ∷ d ∷ stdin) message rest h =
    let len = from_le32 a b c d in
    let e =
      if_some (ltb 1048576 len) (malloc (len + 1)) (length (take len stdin) == len) (message, rest)
        (take len stdin, drop len stdin) h in
    omega (arith, ap (λ q. length q.1) e, length-drop len stdin)

-- One round of the loop, on what read_message returned.
abbrev round :
    (ℕ → ℕ) → Client → (List ℕ → Option (List ℕ)) → Option (List ℕ × List ℕ) → Option (List ℕ)
round garbage client loop none = some []
round garbage client loop (some (request, rest)) = do
  out ← dispatch garbage client (c_text request)
  more ← loop rest
  some (out ++ more)

main_loop-round :
    (garbage : ℕ → ℕ) (n : ℕ) (malloc : ℕ → Bool) (client : ℕ → Client) (stdin : List ℕ)
    (r : Option (List ℕ × List ℕ))
    → read_message malloc stdin ≡ r
    → main_loop garbage (suc n) malloc client stdin
      ≡ round garbage (client 0) (main_loop garbage n malloc (later client)) r
unfolding main_loop
main_loop-round garbage n malloc client stdin r e =
    open_round (read_message malloc stdin)
    ∙ ap (round garbage (client 0) (main_loop garbage n malloc (later client))) e
  where
    open_round :
        (r : Option (List ℕ × List ℕ))
        → elim r [
          | none ↦ some []
          | some (request, rest) ↦ do
            out ← dispatch garbage (client 0) (c_text request)
            more ← main_loop garbage n malloc (later client) rest
            some (out ++ more)
        ]
          ≡ round garbage (client 0) (main_loop garbage n malloc (later client)) r
    open_round none = refl
    open_round (some (request, rest)) = refl

-- Fuel that exceeds the length of the stream is enough for the main loop: any two such amounts give
-- the same output.
pub main_loop-fuel :
    (garbage : ℕ → ℕ) (n m : ℕ) (malloc : ℕ → Bool) (client : ℕ → Client) (stdin : List ℕ)
    → length stdin < n
    → length stdin < m
    → main_loop garbage n malloc client stdin ≡ main_loop garbage m malloc client stdin
main_loop-fuel garbage zero m malloc client stdin h k = absurd (omega arith)
main_loop-fuel garbage (suc n) zero malloc client stdin h k = absurd (omega arith)
main_loop-fuel garbage (suc n) (suc m) malloc client stdin h k =
    elim (Option-cases (read_message malloc stdin)) [
      | inl ended ↦
          main_loop-round garbage n malloc client stdin none ended
          ∙ sym (main_loop-round garbage m malloc client stdin none ended)
      | inr ((request, rest), e) ↦
          let lt = read_message-shorter malloc stdin request rest e in
          main_loop-round garbage n malloc client stdin (some (request, rest)) e
          ∙ ap
              (λ loop. dispatch garbage (client 0) (c_text request) >>= λ out.
                loop >>= λ more. some (out ++ more))
              (main_loop-fuel garbage n m malloc (later client) rest (omega arith) (omega arith))
          ∙ sym (main_loop-round garbage m malloc client stdin (some (request, rest)) e)
    ]

read_end : (malloc : ℕ → Bool) → read_message malloc [] ≡ none
unfolding read_message
read_end malloc = refl

length-write_message : (message : List ℕ) → 0 < length (write_message message)
unfolding write_message le32
length-write_message message = omega arith

-- A session: the answers to the requests, one after the other.
unfoldable pub session : (ℕ → ℕ) → (ℕ → Client) → List (List ℕ) → Option (List ℕ)
session garbage client [] = some []
session garbage client (request ∷ requests) = do
  out ← dispatch garbage (client 0) (c_text request)
  more ← session garbage (later client) requests
  some (out ++ more)

-- The stream of the framed requests.
abbrev pub framed : List (List ℕ) → List ℕ
framed [] = []
framed (request ∷ requests) = write_message request ++ framed requests

framed_enough :
    (garbage : ℕ → ℕ) (malloc : ℕ → Bool) (client : ℕ → Client) (rs : List (List ℕ)) (n : ℕ)
    → All (λ r. (length r ≤ 1048576) × (malloc (length r + 1) ≡ true)) rs
    → length (framed rs) < n
    → main_loop garbage n malloc client (framed rs) ≡ session garbage client rs
unfolding session
framed_enough garbage malloc client rs zero h lt = absurd (omega arith)
framed_enough garbage malloc client [] (suc n) h lt =
    main_loop-round garbage n malloc client [] none (read_end malloc)
framed_enough garbage malloc client (r ∷ rs) (suc n) h lt =
    let more = length-append (write_message r) (framed rs) in
    let some_bytes = length-write_message r in
    main_loop-round garbage n malloc client (framed (r ∷ rs)) (some (r, framed rs))
      (read-write malloc r (framed rs) h.0.0 h.0.1)
    ∙ ap
        (λ loop.
          dispatch garbage (client 0) (c_text r) >>= λ out. loop >>= λ more. some (out ++ more))
        (framed_enough garbage malloc (later client) rs n h.1 (omega arith))

-- On a stream of framed requests main answers each of them, in order, and ends at the end of the stream.
pub main_loop-framed :
    (garbage : ℕ → ℕ) (malloc : ℕ → Bool) (client : ℕ → Client) (requests : List (List ℕ))
    → All (λ r. (length r ≤ 1048576) × (malloc (length r + 1) ≡ true)) requests
    → main_loop garbage (length (framed requests) + 1) malloc client (framed requests)
      ≡ session garbage client requests
main_loop-framed garbage malloc client requests h =
    framed_enough garbage malloc client requests _ h (omega arith)
