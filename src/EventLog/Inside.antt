-- ===== src/EventLog/Inside.antt =====
-- The reads of the event log parser: where they stay inside of the log.
use sdk_native.Prelude.{
  Inside, Inside-if, get_elem?-inside, ℕ, zero, suc, ◌+◌, ◌*◌, ◌-◌, ◌^◌, ◌≤◌, ◌<◌, min, ◌≡◌, refl,
  ap, sym, ◌∙◌, ◌⊎◌, inl, inr, List, [], ◌∷◌, Bool, true, false, Option, none, some, codes, not,
  ◌&&◌, length, take, drop, get_elem?, ltb, leb, if◌then◌else◌, ltb→le, ltb→lt, length-drop, arith,
  Bool-cases, ◌==◌,
}
use sdk_native.Prelude
use sdk_native.Prelude.Bits.{u64}
use sdk_native.EventLog.{read_u16_le, read_u32_le, copy_le, Event, EventLogAnalysis}
use sdk_native.EventLog.Names.{
  extract_efi_variable_name, name_loop, same_string, is_secure_boot_enabled,
}
use sdk_native.EventLog.Classify.{classify, variable_case, secure_boot_of, is_variable}

pub read_u16_le-Inside : (p : List ℕ) (i : ℕ) → i + 2 ≤ length p → Inside (read_u16_le p i)
unfolding read_u16_le
read_u16_le-Inside p i h =
    let (a, ea) = get_elem?-inside p i (omega arith) in
    let (b, eb) = get_elem?-inside p (i + 1) (omega arith) in rw ea (rw eb (_, refl))

pub read_u32_le-Inside : (p : List ℕ) (i : ℕ) → i + 4 ≤ length p → Inside (read_u32_le p i)
unfolding read_u32_le
read_u32_le-Inside p i h =
    let (a, ea) = get_elem?-inside p i (omega arith) in
    let (b, eb) = get_elem?-inside p (i + 1) (omega arith) in
    let (c, ec) = get_elem?-inside p (i + 2) (omega arith) in
    let (d, ed) = get_elem?-inside p (i + 3) (omega arith) in
    rw ea (rw eb (rw ec (rw ed (_, refl))))

pub copy_le-Inside : (p : List ℕ) (i n : ℕ) → i + n ≤ length p → Inside (copy_le p i n)
unfolding copy_le
copy_le-Inside p i zero h = (0, refl)
copy_le-Inside p i (suc n) h =
    let (a, ea) = get_elem?-inside p i (omega arith) in
    let (b, eb) = copy_le-Inside p (i + 1) n (omega arith) in rw ea (rw eb (_, refl))

name_loop-Inside :
    (s : List ℕ) (rounds i : ℕ) → 32 + (i + rounds) * 2 ≤ length s → Inside (name_loop s rounds i)
unfolding name_loop
name_loop-Inside s zero i h = ([], refl)
name_loop-Inside s (suc rounds) i h =
    let (ch, e) = read_u16_le-Inside s (32 + i * 2) (omega arith) in
    let (rest, e') = name_loop-Inside s rounds (i + 1) (omega arith) in
    rw e (elim (Bool-cases (ch == 0)) [ inl z ↦ rw z ([], refl) | inr z ↦ rw z (rw e' (_, refl)) ])

-- The length that the data of a variable event gives for its name, near the end of 64 bits.
pub BadName : List ℕ → Type 0
BadName s = (n : ℕ) × (32 ≤ length s) × (copy_le s 16 8 ≡ some n) × (2 ^ 63 ≤ n + 16)

name_reads :
    (s : List ℕ) (n : ℕ)
    → n + 16 < 2 ^ 63
    → Inside
        (if ltb (length s) (u64 (32 + u64 (n * 2))) then some [] else name_loop s (min n 256) 0)
name_reads s n small = elim (Bool-cases (ltb (length s) (u64 (32 + u64 (n * 2))))) [
  | inl long ↦ rw long ([], refl)
  | inr fits ↦
      let room = ltb→le (length s) _ fits in
      rw fits (name_loop-Inside s (min n 256) 0 (omega arith))
]

extract_efi_variable_name-Inside : (s : List ℕ) → Inside (extract_efi_variable_name s) ⊎ BadName s
unfolding extract_efi_variable_name BadName
extract_efi_variable_name-Inside s = elim (Bool-cases (ltb (length s) 32)) [
  | inl short ↦ inl (rw short ([], refl))
  | inr fits ↦
      let (n, e) = copy_le-Inside s 16 8 (omega (arith, ltb→le (length s) 32 fits)) in
      elim (Bool-cases (ltb (n + 16) (2 ^ 63))) [
        | inl small ↦ inl (rw fits (rw e (name_reads s n (ltb→lt _ _ small))))
        | inr large ↦ inr (n, ltb→le (length s) 32 fits, e, ltb→le (n + 16) (2 ^ 63) large)
      ]
]

secure_boot_value :
    (s : List ℕ) (n m : ℕ)
    → Inside (
        if ltb n (length s) && leb 1 m
        then (Prelude.◌>>=◌ (get_elem? s n) λ value. some (value == 1))
        else some false)
secure_boot_value s n m = elim (Bool-cases (ltb n (length s))) [
  | inl inside ↦
      let (value, e) = get_elem?-inside s n (ltb→lt _ _ inside) in
      rw e (Inside-if (ltb n (length s) && leb 1 m) (_, refl) (_, refl))
  | inr beyond ↦ rw beyond (_, refl)
]

is_secure_boot_enabled-Inside : (name s : List ℕ) → Inside (is_secure_boot_enabled name s)
unfolding is_secure_boot_enabled
is_secure_boot_enabled-Inside name s =
    Inside-if (not (same_string name (codes "SecureBoot"))) (_, refl)
      (elim (Bool-cases (ltb (length s) 33)) [
        | inl short ↦ rw short (_, refl)
        | inr fits ↦
            let room = ltb→le (length s) 33 fits in
            let (n, en) = copy_le-Inside s 16 8 (omega arith) in
            let (m, em) = copy_le-Inside s 24 8 (omega arith) in
            rw fits (rw en (rw em (secure_boot_value s (u64 (32 + u64 (n * 2))) m)))
      ])

secure_boot_of-Inside : (name s : List ℕ) (before : Bool) → Inside (secure_boot_of name s before)
unfolding secure_boot_of
secure_boot_of-Inside name s before =
    Inside-if (same_string name (codes "SecureBoot")) (is_secure_boot_enabled-Inside name s)
      (_, refl)

variable_case-Inside :
    (e : Event) (a : EventLogAnalysis) → Inside (variable_case e a) ⊎ BadName e.event_data
unfolding variable_case
variable_case-Inside e a = elim (extract_efi_variable_name-Inside e.event_data) [
  | inr bad ↦ inr bad
  | inl (name, en) ↦
      let (b, eb) = secure_boot_of-Inside name e.event_data a.secure_boot_enabled in
      inl (rw en (rw eb (_, refl)))
]

-- An entry is classified, or its name's length is near the end of 64 bits.
pub classify-Inside :
    (e : Event) (a : EventLogAnalysis)
    → Inside (classify e a) ⊎ ((is_variable e.event_type ≡ true) × BadName e.event_data)
unfolding classify
classify-Inside e a = elim (Bool-cases (is_variable e.event_type)) [
  | inl variable ↦ elim (variable_case-Inside e a) [
    | inl found ↦ inl (rw variable found)
    | inr bad ↦ inr (variable, bad)
  ]
  | inr other ↦ inl (rw other (_, refl))
]
