-- ===== src/EventLog/Parse.antt =====
-- windows/src/boot/event_log_parser.cpp: the reading part of ParseAndAnalyzeEventLog. The pointer
-- and the count of what remains are the rest of the log.
use sdk_native.Prelude.{
  ℕ, zero, suc, List, [], ◌∷◌, Option, none, some, length, take, drop, ltb, ◌==◌, if◌then◌else◌,
}
use sdk_native.EventLog.{read_u16_le, read_u32_le, Digests, Event, Scan, outside, done, got}

infixl 5 ◌>>=◌ ◌>>◌
abbrev pub ◌>>=◌ {ℓ κ} : {A : Type ℓ} {B : Type κ} → Scan A → (A → Scan B) → Scan B
outside >>= f = outside
done >>= f = done
got a >>= f = f a

abbrev pub ◌>>◌ {ℓ} : {B : Type ℓ} → Scan (Unit {0}) → Scan B → Scan B
m >> k = m >>= λ _. k

-- `if (remaining < n) break;`
abbrev pub need : ℕ → List ℕ → Scan (Unit {0})
need n rest = if ltb (length rest) n then done else got tt

abbrev pub reads {ℓ} : {A : Type ℓ} → Option A → Scan A
reads none = outside
reads (some a) = got a

unfoldable pub digest_size : ℕ → Scan ℕ
digest_size alg_id =
    if alg_id == 0x0004
    then got 20
    else if alg_id == 0x000B
    then got 32
    else if alg_id == 0x000C
    then got 48
    else if alg_id == 0x000D
    then got 64
    else if alg_id == 0x0012
    then got 32
    else done

-- `entry.digests[algId] = ...`
abbrev pub set_digest : ℕ → List ℕ → Digests → Digests
set_digest alg_id digest [] = (alg_id, digest) ∷ []
set_digest alg_id digest ((k, old) ∷ digests) =
    if alg_id == k
    then (alg_id, digest) ∷ digests
    else if ltb alg_id k
    then (alg_id, digest) ∷ (k, old) ∷ digests
    else (k, old) ∷ set_digest alg_id digest digests

unfoldable pub digest_loop : ℕ → List ℕ → Digests → Scan (Digests × List ℕ)
digest_loop zero rest digests = got (digests, rest)
digest_loop (suc count) rest digests = do
  need 2 rest
  alg_id ← reads (read_u16_le rest 0)
  let rest1 = drop 2 rest
  size ← digest_size alg_id
  need size rest1
  digest_loop count (drop size rest1) (set_digest alg_id (take size rest1) digests)

-- One round of the loop up to the switch: the event, and what remains.
unfoldable pub read_event : List ℕ → Scan (Event × List ℕ)
read_event rest = do
  pcr_index ← reads (read_u32_le rest 0)
  let rest1 = drop 4 rest
  event_type ← reads (read_u32_le rest1 0)
  let rest2 = drop 4 rest1
  need 4 rest2
  digest_count ← reads (read_u32_le rest2 0)
  let rest3 = drop 4 rest2
  (if ltb 8 digest_count then done else got tt)
  (digests, rest4) ← digest_loop digest_count rest3 []
  need 4 rest4
  event_data_size ← reads (read_u32_le rest4 0)
  let rest5 = drop 4 rest4
  need event_data_size rest5
  got (
    record {
      pcr_index = pcr_index;
      event_type = event_type;
      digests = digests;
      event_data = take event_data_size rest5;
    },
    drop event_data_size rest5,
  )
