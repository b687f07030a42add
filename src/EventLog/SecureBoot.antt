-- ===== src/EventLog/SecureBoot.antt =====
-- The verdict of the event log analysis, told from its entries alone.
use sdk_native.Prelude.{
  ℕ, ◌≡◌, refl, ap, sym, ◌∙◌, inl, inr, List, [], ◌∷◌, ◌++◌, Bool, true, false, Option, none, some,
  ◌==◌, if◌then◌else◌, Bool-cases, Ends, gives, Ends-from, Ends-at, ◌>>=◌, zero, suc, ◌+◌, ◌*◌, ◌%◌,
  ◌^◌, ◌≤◌, codes, length, get_elem?, get_elem?-inside, ltb, leb, ◌&&◌, ltb→le, ltb→lt, le→ltb,
  lt→ltb, le→leb, arith,
}
use sdk_native.EventLog.{
  Class, verified, revoked, unknown, policy, Verdict, pass, fail, warning, Event, EventLogEntry,
  EventLogAnalysis, copy_le,
}
use sdk_native.EventLog.Names.{extract_efi_variable_name, same_string, is_secure_boot_enabled}
use sdk_native.EventLog.Classify.{
  count_one, classify, variable_case, plain_case, push_entry, entry_of, is_variable, give_verdict,
  verdict_of, secure_boot_of, variable_description,
}
use sdk_native.EventLog.Loop.{parse_and_analyze_event_log}
use sdk_native.EventLog.Kept.{parse-Kept}
use sdk_native.EventLog.Counts.{count, parse-counts, IsCounted}

-- The value of a variable is on: there are more than the 32 bytes in front of the name, the length
-- of the value is not 0, and the byte behind the name, whose characters take two bytes each, is 1.
-- Positions are of 64 bits.
abbrev is_one : Option ℕ → Bool
is_one none = false
is_one (some value) = value == 1

abbrev value_on : List ℕ → Option ℕ → Option ℕ → Bool
value_on bytes (some name_len) (some value_len) =
    ltb 0 value_len && is_one (get_elem? bytes ((32 + name_len * 2) % 2 ^ 64))
value_on bytes _ _ = false

abbrev is_on : List ℕ → Bool
is_on bytes = ltb 32 (length bytes) && value_on bytes (copy_le bytes 16 8) (copy_le bytes 24 8)

-- What an entry says of Secure Boot: a variable of that name decides, any other entry leaves it.
abbrev named_boot : Option (List ℕ) → Bool
named_boot none = false
named_boot (some name) = same_string name (codes "SecureBoot")

pub boot_after : EventLogEntry → Bool → Bool
boot_after entry before =
    if is_variable entry.event_type && named_boot (extract_efi_variable_name entry.event_data)
    then is_on entry.event_data
    else before

and_false : (b : Bool) → (b && false) ≡ false
and_false true = refl
and_false false = refl

get_elem?-outside : (p : List ℕ) (i : ℕ) → length p ≤ i → get_elem? p i ≡ none
get_elem?-outside [] i h = refl
get_elem?-outside (x ∷ p) zero h = absurd (omega arith)
get_elem?-outside (x ∷ p) (suc i) h = get_elem?-outside p i (omega arith)

read_value :
    (bytes : List ℕ) (i i' m : ℕ)
    → i ≡ i'
    → Ends
        (λ b. b ≡ (ltb 0 m && is_one (get_elem? bytes i')))
        (if ltb i (length bytes) && leb 1 m
          then (get_elem? bytes i >>= λ value. some (value == 1))
          else some false)
read_value bytes i i' m e = rw (← e) (elim (Bool-cases (ltb i (length bytes))) [
  | inr outside ↦ rw outside (
      rw (get_elem?-outside bytes i (ltb→le i (length bytes) outside))
        (gives (sym (and_false (ltb 0 m)))))
  | inl inside ↦
      let (v, found) = get_elem?-inside bytes i (ltb→lt i (length bytes) inside) in
      rw inside (rw found (sized v m))
])
  where
    sized :
        (v m : ℕ)
        → Ends (λ b. b ≡ (ltb 0 m && (v == 1))) (if leb 1 m then some (v == 1) else some false)
    sized v zero = gives refl
    sized v (suc m) =
        rw (le→leb 1 (suc m) (omega arith), lt→ltb 0 (suc m) (omega arith)) (gives refl)

is_on_lem :
    (name bytes : List ℕ)
    → same_string name (codes "SecureBoot") ≡ true
    → Ends (λ b. b ≡ is_on bytes) (is_secure_boot_enabled name bytes)
unfolding is_secure_boot_enabled
is_on_lem name bytes same = rw same (elim (Bool-cases (ltb (length bytes) 33)) [
  | inl short ↦
      rw short
        (rw (le→ltb 32 (length bytes) (omega (arith, ltb→lt (length bytes) 33 short))) (gives refl))
  | inr long ↦ rw long (
      rw (lt→ltb 32 (length bytes) (omega (arith, ltb→le (length bytes) 33 long))) (
        Ends-from (copy_le bytes 16 8) _ λ n en.
          Ends-from (copy_le bytes 24 8) _
            λ m em. rw (en, em) (read_value bytes _ _ m (omega arith))))
])

-- The state that the entries, in their order, leave.
abbrev pub boot_state : List EventLogEntry → Bool → Bool
boot_state [] before = before
boot_state (entry ∷ entries) before = boot_state entries (boot_after entry before)

pub verdict_from : List EventLogEntry → Verdict
verdict_from entries =
    if boot_state entries false
    then (if count unknown entries == 0 then pass else warning)
    else fail

boot_state-append :
    (xs ys : List EventLogEntry) (before : Bool)
    → boot_state (xs ++ ys) before ≡ boot_state ys (boot_state xs before)
boot_state-append [] ys before = refl
boot_state-append (x ∷ xs) ys before = boot_state-append xs ys (boot_after x before)

abbrev HasState : List ℕ → EventLogAnalysis → Type 0
HasState rest a = a.secure_boot_enabled ≡ boot_state a.entries false

count_one-state :
    (c : Class) (a : EventLogAnalysis) → (count_one c a).secure_boot_enabled ≡ a.secure_boot_enabled
count_one-state verified a = refl
count_one-state revoked a = refl
count_one-state unknown a = refl
count_one-state policy a = refl

push_entry-HasState :
    (rest : List ℕ) (entry : EventLogEntry) (a : EventLogAnalysis) (is_enabled : Bool)
    → is_enabled ≡ boot_after entry (boot_state a.entries false)
    → (count_one entry.classification a).secure_boot_enabled ≡ is_enabled
    → HasState rest (push_entry entry a)
push_entry-HasState rest entry a is_enabled h k =
    k ∙ h ∙ sym (boot_state-append a.entries (entry ∷ []) false)

some-same : {x y : Bool} → some x ≡ some y → y ≡ x
some-same h = cc

plain-state :
    (e : Event) (d : Class × List ℕ) (before : Bool)
    → is_variable e.event_type ≡ false
    → before ≡ boot_after (entry_of e d) before
unfolding boot_after
plain-state e d before other = rw other refl

variable-state :
    (e : Event) (d : Class × List ℕ) (before b : Bool) (name : List ℕ)
    → is_variable e.event_type ≡ true
    → extract_efi_variable_name e.event_data ≡ some name
    → secure_boot_of name e.event_data before ≡ some b
    → b ≡ boot_after (entry_of e d) before
unfolding boot_after secure_boot_of
variable-state e d before b name h h1 h2 = rw h (
    rw h1 (elim (Bool-cases (same_string name (codes "SecureBoot"))) [
      | inr other ↦ rw other (some-same (rw other at h2))
      | inl same ↦
          rw same (
            Ends-at (λ b. b ≡ is_on e.event_data) (is_on_lem name e.event_data same)
              (rw same at h2))
    ]))

classify-HasState :
    (rest : List ℕ) (e : Event) (a : EventLogAnalysis)
    → HasState rest a
    → Ends (HasState rest) (classify e a)
unfolding classify variable_case
classify-HasState rest e a h = elim (Bool-cases (is_variable e.event_type)) [
  | inr other ↦ rw other (
      gives (
        push_entry-HasState rest (entry_of e (plain_case e)) a a.secure_boot_enabled
          (h ∙ plain-state e (plain_case e) _ other) (count_one-state (plain_case e).0 a)))
  | inl variable ↦ rw variable (
      Ends-from (extract_efi_variable_name e.event_data) _ λ name e1.
        Ends-from (secure_boot_of name e.event_data a.secure_boot_enabled) _ λ is_enabled e2.
          let described : Class × List ℕ = (policy, variable_description name is_enabled) in
          gives (
            variable-state e described _ is_enabled name variable e1 (rw h at e2)
            ∙ sym (boot_state-append a.entries (entry_of e described ∷ []) false)))
]

if-first {ℓ κ} :
    {A : Type ℓ} {B : Type κ} (b : Bool) (x y : A × B)
    → (if b then x else y).0 ≡ (if b then x.0 else y.0)
if-first true x y = refl
if-first false x y = refl

verdict_lem :
    (a : EventLogAnalysis)
    → IsCounted (give_verdict a)
    → a.secure_boot_enabled ≡ boot_state a.entries false
    → (verdict_of a).0 ≡ verdict_from a.entries
unfolding verdict_of verdict_from give_verdict
verdict_lem a counted state = elim (Bool-cases a.secure_boot_enabled) [
  | inl on ↦ rw (← state) (
      rw (← counted.unknown_is)
        (rw counted.revoked_is (rw on (if-first (a.unknown_count == 0) _ _))))
  | inr off ↦ rw (← state) (rw off refl)
]

-- The verdict of an analysis is the one its entries tell: PASS exactly if the last variable named
-- SecureBoot is on and no entry is unknown, WARNING if it is on and some entry is unknown, and FAIL
-- if it is off or missing. On is told from the bytes: the value's length is not 0, and its first byte
-- is 1.
pub parse-verdict :
    (log : List ℕ) (a : EventLogAnalysis)
    → parse_and_analyze_event_log log ≡ some a
    → (a.verdict ≡ some (verdict_from a.entries))
      × (a.secure_boot_enabled ≡ boot_state a.entries false)
unfolding give_verdict
parse-verdict log a e =
    let (a', (rest, state), same) =
      Ends-at _
        (parse-Kept HasState (λ rest rest' e a shorter h. classify-HasState rest' e a h) log
          λ rest shorter. refl)
        e in
    let counted : IsCounted (give_verdict a') = rw same at (parse-counts log a e).0 in
    rw same (ap some (verdict_lem a' counted state), state)
