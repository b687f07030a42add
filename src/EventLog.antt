-- ===== src/EventLog.antt =====
-- windows/src/boot/event_log_parser.h and .cpp: the parser of TCG event logs. Here are its structs,
-- the words it reads, and the ends of a read; the children hold the rest.
use sdk_native.Prelude.{
  ℕ, zero, suc, ◌+◌, ◌*◌, List, [], Option, none, some, Bool, false, get_elem?, bit_or, ◌>>=◌,
}
use sdk_native.Prelude.Bits.{u16, u32, ◌<<<◌}
pub mod Names
pub mod Classify
pub mod Parse
pub mod Loop
pub mod Inside
pub mod Rest
pub mod Words
pub mod Events
pub mod Kept
pub mod Counts
pub mod SecureBoot
pub mod RoundTrip

-- The vector's memory: `none` is an access behind its end.
abbrev pub u16_le : ℕ → ℕ → ℕ
u16_le low high = u16 (bit_or low (high <<< 8))

unfoldable pub read_u16_le : List ℕ → ℕ → Option ℕ
read_u16_le p i = do low ← get_elem? p i; high ← get_elem? p (i + 1); some (u16_le low high)

unfoldable pub read_u32_le : List ℕ → ℕ → Option ℕ
read_u32_le p i = do
  a ← get_elem? p i
  b ← get_elem? p (i + 1)
  c ← get_elem? p (i + 2)
  d ← get_elem? p (i + 3)
  some (u32 (bit_or (bit_or (bit_or a (b <<< 8)) (c <<< 16)) (d <<< 24)))

-- memcpy of `n` bytes into a word on a little-endian machine.
unfoldable pub copy_le : List ℕ → ℕ → ℕ → Option ℕ
copy_le p i zero = some 0
copy_le p i (suc n) = do low ← get_elem? p i; high ← copy_le p (i + 1) n; some (low + 256 * high)

-- The strings that `classification` and `verdict` hold; a verdict that is not yet given is empty.
pub data Class : Type 0 where
  verified revoked unknown policy : Class

pub data Verdict : Type 0 where
  pass fail warning : Verdict

-- The map from an algorithm to its digest, in the order of the keys.
abbrev pub Digests : Type 0
Digests = List (ℕ × List ℕ)

pub record EventLogEntry : Type 0 where
  pub pcr_index : ℕ
  pub event_type : ℕ
  pub event_type_name : List ℕ
  pub digests : Digests
  pub event_data : List ℕ
  pub description : List ℕ
  pub classification : Class

pub record EventLogAnalysis : Type 0 where
  pub entries : List EventLogEntry
  pub secure_boot_enabled : Bool
  pub secure_boot_microsoft_keys : Bool
  pub verified_count : ℕ
  pub unknown_count : ℕ
  pub revoked_count : ℕ
  pub policy_count : ℕ
  pub verdict : Option Verdict
  pub verdict_reason : List ℕ

-- An entry as it is read, before it is described and classified.
pub record Event : Type 0 where
  pub pcr_index : ℕ
  pub event_type : ℕ
  pub digests : Digests
  pub event_data : List ℕ

abbrev pub new_analysis : EventLogAnalysis
new_analysis = record {
  entries = [];
  secure_boot_enabled = false;
  secure_boot_microsoft_keys = false;
  verified_count = 0;
  unknown_count = 0;
  revoked_count = 0;
  policy_count = 0;
  verdict = none;
  verdict_reason = [];
}

-- How a piece of the log is read: behind its end, to a `break` or `goto done`, or to a value.
pub data Scan {ℓ} (A : Type ℓ) : Type ℓ where
  outside done : Scan A
  got : A → Scan A
