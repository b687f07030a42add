-- ===== src/EventLog/Counts.antt =====
-- The counters of the event log analysis: each is the number of the entries of its class.
use sdk_native.Prelude.{
  ℕ, ◌+◌, ◌*◌, ◌≤◌, ◌≡◌, refl, inl, inr, List, [], ◌∷◌, ◌++◌, Bool, true, false, Option, none, some,
  length, leb, ◌==◌, if◌then◌else◌, arith, Bool-cases, Ends, fails, gives, Ends-from, Ends-at,
  length-append, All, ◌&&◌, ◌||◌,
}
use sdk_native.EventLog.{
  Class, verified, revoked, unknown, policy, Event, EventLogEntry, EventLogAnalysis,
}
use sdk_native.EventLog.Names.{
  extract_efi_variable_name, ev_efi_boot_services_application, ev_efi_boot_services_driver,
  ev_s_crtm_version, ev_post_code, ev_s_crtm_contents, ev_cpu_microcode, ev_efi_action,
  ev_efi_runtime_services_driver,
}
use sdk_native.EventLog.Classify.{
  classify, variable_case, plain_case, other_case, find_case, Fixed, fixed_cases, push_entry,
  entry_of, is_variable, give_verdict, secure_boot_of,
}
use sdk_native.EventLog.Loop.{parse_and_analyze_event_log}
use sdk_native.EventLog.Kept.{parse-Kept}

abbrev pub same_class : Class → Class → Bool
same_class verified verified = true
same_class revoked revoked = true
same_class unknown unknown = true
same_class policy policy = true
same_class _ _ = false

abbrev pub count : Class → List EventLogEntry → ℕ
count c [] = 0
count c (entry ∷ entries) = (if same_class c entry.classification then 1 else 0) + count c entries

pub count-append :
    (c : Class) (xs ys : List EventLogEntry) → count c (xs ++ ys) ≡ count c xs + count c ys
count-append c [] ys = omega arith
count-append c (x ∷ xs) ys = omega (arith, count-append c xs ys)

-- What the counters tell of the entries.
pub record IsCounted (a : EventLogAnalysis) : Type 0 where
  pub verified_is : a.verified_count ≡ count verified a.entries
  pub unknown_is : a.unknown_count ≡ count unknown a.entries
  pub policy_is : a.policy_count ≡ count policy a.entries
  pub revoked_is : a.revoked_count ≡ 0
  pub no_revoked : count revoked a.entries ≡ 0

-- The classes that the switch gives.
pub data IsGiven : Class × List ℕ → Type 0 where
  as_verified : (text : List ℕ) → IsGiven (verified, text)
  as_unknown : (text : List ℕ) → IsGiven (unknown, text)
  as_policy : (text : List ℕ) → IsGiven (policy, text)

if-IsGiven :
    (b : Bool) {x y : Class × List ℕ} → IsGiven x → IsGiven y → IsGiven (if b then x else y)
if-IsGiven true hx hy = hx
if-IsGiven false hx hy = hy

abbrev GivenCase : Option (Class × List ℕ) → Type 0
GivenCase none = Unit
GivenCase (some d) = IsGiven d

find_case-IsGiven :
    (event_type : ℕ) (cases : Fixed)
    → All (λ c. IsGiven c.1) cases
    → GivenCase (find_case event_type cases)
find_case-IsGiven event_type [] h = tt
find_case-IsGiven event_type ((k, d) ∷ cases) h = elim (Bool-cases (event_type == k)) [
  | inl found ↦ rw found h.0
  | inr other ↦ rw other (find_case-IsGiven event_type cases h.1)
]

fixed_cases-IsGiven : All (λ c. IsGiven c.1) fixed_cases
unfolding fixed_cases
fixed_cases-IsGiven = (
  as_verified _,
  (
    as_verified _,
    (
      as_policy _,
      (
        as_policy _,
        (
          as_policy _,
          (as_policy _, (as_policy _, (as_policy _, (as_policy _, (as_verified _, tt))))),
        ),
      ),
    ),
  ),
)

other_case-IsGiven : (e : Event) → IsGiven (other_case e)
unfolding other_case
other_case-IsGiven e =
    if-IsGiven (leb 11 e.pcr_index && leb e.pcr_index 14) (as_verified _) (as_unknown _)

last_case-IsGiven :
    (e : Event) (o : Option (Class × List ℕ))
    → GivenCase o
    → IsGiven (elim o [ some described ↦ described | none ↦ other_case e ])
last_case-IsGiven e none h = other_case-IsGiven e
last_case-IsGiven e (some d) h = h

plain_case-IsGiven : (e : Event) → IsGiven (plain_case e)
unfolding plain_case
plain_case-IsGiven e =
    if-IsGiven (e.event_type == ev_efi_boot_services_application) (as_verified _) (
      if-IsGiven (e.event_type == ev_efi_boot_services_driver) (as_verified _) (
        if-IsGiven (e.event_type == ev_s_crtm_version) (as_verified _) (
          if-IsGiven
            (e.event_type == ev_post_code
              || e.event_type == ev_s_crtm_contents
              || e.event_type == ev_cpu_microcode)
            (as_verified _)
            (if-IsGiven (e.event_type == ev_efi_action) (as_policy _) (
              if-IsGiven (e.event_type == ev_efi_runtime_services_driver) (as_verified _) (
                last_case-IsGiven e (find_case e.event_type fixed_cases)
                  (find_case-IsGiven e.event_type fixed_cases fixed_cases-IsGiven)))))))

counts_after :
    (e : Event) (d : Class × List ℕ) (a : EventLogAnalysis)
    → let entry = entry_of e d ∷ [] in
      (count verified (a.entries ++ entry) ≡ count verified a.entries + count verified entry)
      × (count unknown (a.entries ++ entry) ≡ count unknown a.entries + count unknown entry)
      × (count policy (a.entries ++ entry) ≡ count policy a.entries + count policy entry)
      × (count revoked (a.entries ++ entry) ≡ count revoked a.entries + count revoked entry)
counts_after e d a =
    let entry = entry_of e d ∷ [] in
    (
      count-append verified a.entries entry,
      count-append unknown a.entries entry,
      count-append policy a.entries entry,
      count-append revoked a.entries entry,
    )

push_entry-IsCounted :
    (e : Event) {d : Class × List ℕ} (a : EventLogAnalysis)
    → IsGiven d
    → IsCounted a
    → IsCounted (push_entry (entry_of e d) a)
push_entry-IsCounted e a (as_verified text) h = ground (arith, h, counts_after e (verified, text) a)
push_entry-IsCounted e a (as_unknown text) h = ground (arith, h, counts_after e (unknown, text) a)
push_entry-IsCounted e a (as_policy text) h = ground (arith, h, counts_after e (policy, text) a)

variable_case-IsCounted :
    (e : Event) (a : EventLogAnalysis) → IsCounted a → Ends IsCounted (variable_case e a)
unfolding variable_case
variable_case-IsCounted e a h = Ends-from (extract_efi_variable_name e.event_data) _ λ name _.
    Ends-from (secure_boot_of name e.event_data a.secure_boot_enabled) _
      λ is_enabled _. gives (push_entry-IsCounted e _ (as_policy _) (ground (arith, h)))

classify-IsCounted :
    (e : Event) (a : EventLogAnalysis) → IsCounted a → Ends IsCounted (classify e a)
unfolding classify
classify-IsCounted e a h = elim (Bool-cases (is_variable e.event_type)) [
  | inl variable ↦ rw variable (variable_case-IsCounted e a h)
  | inr other ↦ rw other (gives (push_entry-IsCounted e a (plain_case-IsGiven e) h))
]

give_verdict-IsCounted : (a : EventLogAnalysis) → IsCounted a → IsCounted (give_verdict a)
unfolding give_verdict
give_verdict-IsCounted a h = ground (arith, h)

-- Each entry takes 16 bytes of the log at least.
abbrev Fits : List ℕ → List ℕ → EventLogAnalysis → Type 0
Fits log rest a = IsCounted a × (16 * length a.entries + length rest ≤ length log)

push_entry-entries :
    (entry : EventLogEntry) (a : EventLogAnalysis)
    → length (push_entry entry a).entries ≡ length a.entries + 1
push_entry-entries entry a = length-append a.entries (entry ∷ [])

classify-entries :
    (e : Event) (a : EventLogAnalysis)
    → Ends (λ a'. length a'.entries ≡ length a.entries + 1) (classify e a)
unfolding classify variable_case
classify-entries e a = elim (Bool-cases (is_variable e.event_type)) [
  | inr other ↦ rw other (gives (push_entry-entries _ a))
  | inl variable ↦ rw variable (
      Ends-from (extract_efi_variable_name e.event_data) _ λ name _.
        Ends-from (secure_boot_of name e.event_data a.secure_boot_enabled) _
          λ is_enabled _. gives (push_entry-entries _ a))
]

Ends-and {ℓ} :
    {A : Type ℓ} {P Q R : A → Type 0} {o : Option A}
    → ((a : A) → P a → Q a → R a)
    → Ends P o
    → Ends Q o
    → Ends R o
Ends-and f p fails = fails
Ends-and {P} f p (gives {a = x} q) = gives (f x (Ends-at P p refl) q)

-- The counters of an analysis are the numbers of its entries of their classes, no entry is revoked,
-- and the log has 16 bytes for each entry.
pub parse-counts :
    (log : List ℕ) (a : EventLogAnalysis)
    → parse_and_analyze_event_log log ≡ some a
    → IsCounted a × (16 * length a.entries ≤ length log)
unfolding give_verdict
parse-counts log a e =
    let (a', (rest, (counted, fits)), same) =
      Ends-at _
        (parse-Kept (Fits log)
          (λ rest rest' e a shorter h.
            Ends-and (λ a' p q. (p, omega (arith, h.1, q))) (classify-IsCounted e a h.0)
              (classify-entries e a))
          log
          (λ rest shorter. (
            record {
              verified_is = refl;
              unknown_is = refl;
              policy_is = refl;
              revoked_is = refl;
              no_revoked = refl;
            },
            omega arith,
          )))
        e in
    rw same (give_verdict-IsCounted a' counted, omega arith)
