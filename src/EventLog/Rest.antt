-- ===== src/EventLog/Rest.antt =====
-- The rounds of the event log parser: what a round leaves of the log, and that the loop ends.
use sdk_native.Prelude.{
  Inside, ℕ, zero, suc, ◌+◌, ◌≤◌, ◌<◌, ◌≡◌, refl, ap, sym, ◌∙◌, ◌⊎◌, inl, inr, List, [], ◌∷◌, Bool,
  true, false, Option, some, length, take, drop, ltb, leb, if◌then◌else◌, ltb→le, length-drop,
  drop_all, arith, Bool-cases, ◌==◌,
}
use sdk_native.EventLog.{Event, Digests, EventLogAnalysis, new_analysis, Scan, done, got}
use sdk_native.Prelude.Bits.{u32}
use sdk_native.EventLog.Names.{ev_no_action}
use sdk_native.EventLog.Classify.{is_variable}
use sdk_native.EventLog.Parse.{◌>>=◌, need, reads, digest_size, digest_loop, read_event}
use sdk_native.EventLog.Loop.{after_event, event_loop, skip_header, parse_and_analyze_event_log}
use sdk_native.EventLog.Inside.{read_u16_le-Inside, read_u32_le-Inside, BadName, classify-Inside}

-- A read that stays inside of the log, and what is known of its value.
pub data Each {ℓ} {A : Type ℓ} (P : A → Type 0) : Scan A → Type ℓ where
  stopped : Each P done
  holds : {a : A} → P a → Each P (got a)

pub Each->>= {ℓ κ} :
    {A : Type ℓ} {B : Type κ} {P : A → Type 0} {Q : B → Type 0} {m : Scan A} (f : A → Scan B)
    → Each P m
    → ((a : A) → P a → Each Q (f a))
    → Each Q (m >>= f)
Each->>= f stopped hf = stopped
Each->>= f (holds {a} h) hf = hf a h

Each-need : (n : ℕ) (rest : List ℕ) → Each (λ _. n ≤ length rest) (need n rest)
Each-need n rest = elim (Bool-cases (ltb (length rest) n)) [
  | inl short ↦ rw short stopped
  | inr fits ↦ rw fits (holds (ltb→le (length rest) n fits))
]

Each-reads : {o : Option ℕ} → Inside o → Each (λ _. Unit {0}) (reads o)
Each-reads (a, h) = rw h (holds tt)

Each-if {ℓ} :
    {A : Type ℓ} {P : A → Type 0} (b : Bool) {x y : Scan A}
    → Each P x
    → Each P y
    → Each P (if b then x else y)
Each-if true hx hy = hx
Each-if false hx hy = hy

Each-map {ℓ} :
    {A : Type ℓ} {P Q : A → Type 0} {m : Scan A} → Each P m → ((a : A) → P a → Q a) → Each Q m
Each-map stopped f = stopped
Each-map (holds {a} h) f = holds (f a h)

Each-digest_size : (alg_id : ℕ) → Each (λ _. Unit {0}) (digest_size alg_id)
unfolding digest_size
Each-digest_size alg_id = Each-if (alg_id == 0x0004) (holds tt) (
    Each-if (alg_id == 0x000B) (holds tt) (
      Each-if (alg_id == 0x000C) (holds tt)
        (Each-if (alg_id == 0x000D) (holds tt) (Each-if (alg_id == 0x0012) (holds tt) stopped))))

-- `r` is a rest of `log`, and `s` a part of it.
pub record IsRest (r log : List ℕ) : Type 0 where
  pub skipped : ℕ
  pub is_drop : r ≡ drop skipped log

pub record IsPart (s log : List ℕ) : Type 0 where
  pub start : ℕ
  pub size : ℕ
  pub is_slice : s ≡ take size (drop start log)

drop-drop : (m n : ℕ) (log : List ℕ) → drop m (drop n log) ≡ drop (n + m) log
drop-drop m zero log = ap (λ k. drop k log) (omega arith)
drop-drop m (suc n) [] = drop_all m [] (omega arith) ∙ sym (drop_all (suc n + m) [] (omega arith))
drop-drop m (suc n) (x ∷ log) =
    let e : suc n + m ≡ suc (n + m) = omega arith in rw e (drop-drop m n log)

pub IsRest-refl : (log : List ℕ) → IsRest log log
IsRest-refl log = record { skipped = 0; is_drop = refl }

IsRest-drop : (m : ℕ) {r log : List ℕ} → IsRest r log → IsRest (drop m r) log
IsRest-drop m {log} h = record {
  skipped = h.skipped + m;
  is_drop = rw h.is_drop (drop-drop m h.skipped log);
}

IsPart-take : (m : ℕ) {r log : List ℕ} → IsRest r log → IsPart (take m r) log
IsPart-take m h = record { start = h.skipped; size = m; is_slice = ap (take m) h.is_drop }

-- The digests leave a rest that is no longer.
digest_loop-IsRest :
    (log : List ℕ) (count : ℕ) (rest : List ℕ) (digests : Digests)
    → IsRest rest log
    → Each
        (λ (x : Digests × List ℕ). IsRest x.1 log × (length x.1 ≤ length rest))
        (digest_loop count rest digests)
unfolding digest_loop
digest_loop-IsRest log zero rest digests h = holds (h, omega arith)
digest_loop-IsRest log (suc count) rest digests h = Each->>= _ (Each-need 2 rest) λ _ room.
    Each->>= _ (Each-reads (read_u16_le-Inside rest 0 room)) λ alg_id _.
      Each->>= _ (Each-digest_size alg_id) λ size _.
        Each->>= _ (Each-need size (drop 2 rest)) λ _ _.
          Each-map
            (digest_loop-IsRest log count (drop size (drop 2 rest)) _
              (IsRest-drop size (IsRest-drop 2 h)))
            λ x k. (k.0, omega (arith, k.1, length-drop size (drop 2 rest), length-drop 2 rest))

-- The event's data is a part of the log, and the event takes 16 bytes of it at least.
abbrev pub Taken : List ℕ → List ℕ → Event × List ℕ → Type 0
Taken log rest x = IsPart x.0.event_data log × IsRest x.1 log × (length x.1 + 16 ≤ length rest)

pub read_event-rest :
    (log rest : List ℕ)
    → IsRest rest log
    → 12 ≤ length rest
    → Each (Taken log rest) (read_event rest)
unfolding read_event
read_event-rest log rest h long =
    let rest2 = drop 4 (drop 4 rest) in
    let eight = length-drop 4 (drop 4 rest) in
    let four = length-drop 4 rest in
    Each->>= _ (Each-reads (read_u32_le-Inside rest 0 (omega arith))) λ pcr_index _.
      Each->>= _ (Each-reads (read_u32_le-Inside (drop 4 rest) 0 (omega arith))) λ event_type _.
        Each->>= _ (Each-need 4 rest2) λ _ _.
          Each->>= _ (Each-reads (read_u32_le-Inside rest2 0 (omega arith))) λ count _.
            Each->>= {P = λ _. Unit {0}} _ (Each-if (ltb 8 count) stopped (holds tt)) λ _ _.
              Each->>= _
                (digest_loop-IsRest log count (drop 4 rest2) []
                  (IsRest-drop 4 (IsRest-drop 4 (IsRest-drop 4 h))))
                λ x k. Each->>= _ (Each-need 4 x.1) λ _ room.
                  Each->>= _ (Each-reads (read_u32_le-Inside x.1 0 room)) λ size _.
                    Each->>= _ (Each-need size (drop 4 x.1)) λ _ _. holds (
                      IsPart-take size (IsRest-drop 4 k.0),
                      IsRest-drop size (IsRest-drop 4 k.0),
                      omega (
                        arith,
                        k.1,
                        length-drop 4 x.1,
                        length-drop size (drop 4 x.1),
                        length-drop 4 rest2,
                      ),
                    )

-- What the loop has left of the log before one of its rounds.
pub data Reached (log : List ℕ) : List ℕ → Type 0 where
  first : {r : List ℕ} → skip_header log ≡ some r → Reached log r
  next : {r r' : List ℕ} {e : Event} → Reached log r → read_event r ≡ got (e, r') → Reached log r'

-- A variable event that a round of the loop reads, whose name's length is near the end of 64 bits.
pub record BadEvent (log : List ℕ) : Type 0 where
  pub before : List ℕ
  pub after : List ℕ
  pub event : Event
  pub is_reached : Reached log before
  pub is_read : read_event before ≡ got (event, after)
  pub is_named : is_variable event.event_type ≡ true
  pub is_bad : BadName event.event_data

-- A round, when the loop after it stays inside.
after_event-Inside :
    (log rest : List ℕ) (loop : List ℕ → EventLogAnalysis → Option EventLogAnalysis)
    (a : EventLogAnalysis)
    → Reached log rest
    → ((r : List ℕ) (a' : EventLogAnalysis)
        → Reached log r
        → length r + 16 ≤ length rest
        → Inside (loop r a') ⊎ BadEvent log)
    → {m : Scan (Event × List ℕ)} → read_event rest ≡ m
    → Each (Taken rest rest) m
    → Inside (after_event loop a m) ⊎ BadEvent log
after_event-Inside log rest loop a reached loops e stopped = inl (a, refl)
after_event-Inside log rest loop a reached loops e (holds {a = x} t) =
    elim (classify-Inside x.0 a) [
      | inr bad ↦ inr (record {
        before = rest;
        after = x.1;
        event = x.0;
        is_reached = reached;
        is_read = e;
        is_named = bad.0;
        is_bad = bad.1;
      })
      | inl (a', k) ↦ rw k (loops x.1 a' (next reached e) t.2)
    ]

event_loop-Inside :
    (log : List ℕ) (fuel : ℕ) (rest : List ℕ) (a : EventLogAnalysis)
    → Reached log rest
    → length rest < fuel
    → Inside (event_loop fuel rest a) ⊎ BadEvent log
unfolding event_loop
event_loop-Inside log zero rest a h enough = absurd (omega arith)
event_loop-Inside log (suc fuel) rest a h enough = elim (Bool-cases (leb 12 (length rest))) [
  | inr short ↦ inl (rw short (a, refl))
  | inl long ↦ rw long (
      after_event-Inside log rest (event_loop fuel) a h
        (λ r a' k shorter. event_loop-Inside log fuel r a' k (omega arith)) refl
        (read_event-rest rest rest (IsRest-refl rest) (ground arith)))
]

header_cut :
    (b c : Bool) (n : ℕ) (log : List ℕ)
    → (r : List ℕ) × ((if b then some (if c then drop n log else log) else some log) ≡ some r)
      × IsRest r log
header_cut true true n log = (drop n log, refl, IsRest-drop n (IsRest-refl log))
header_cut true false n log = (log, refl, IsRest-refl log)
header_cut false c n log = (log, refl, IsRest-refl log)

pub skip_header-inside : (log : List ℕ) → (r : List ℕ) × (skip_header log ≡ some r) × IsRest r log
unfolding skip_header
skip_header-inside log = elim (Bool-cases (ltb (length log) 32)) [
  | inl short ↦ (log, rw short refl, IsRest-refl log)
  | inr fits ↦
      let room = ltb→le (length log) 32 fits in
      let (pcr_index, e0) = read_u32_le-Inside log 0 (omega arith) in
      let (event_type, e1) = read_u32_le-Inside log 4 (omega arith) in
      let (size, e2) = read_u32_le-Inside log 28 (omega arith) in
      rw fits (
        rw e0 (
          rw e1 (
            rw e2 (
              header_cut (event_type == ev_no_action) (leb (u32 (32 + size)) (length log))
                (u32 (32 + size)) log))))
]

-- The parser reads inside of the log and ends, unless one of the events that its loop reads is a
-- variable for whose name the data gives a length of 2^63 - 16 and more.
pub parse-inside :
    (log : List ℕ)
    → ((a : EventLogAnalysis) × (parse_and_analyze_event_log log ≡ some a)) ⊎ BadEvent log
unfolding parse_and_analyze_event_log
parse-inside log =
    let (r, e, h) = skip_header-inside log in
    elim (event_loop-Inside log (suc (length r)) r new_analysis (first e) (omega arith)) [
      | inr bad ↦ inr bad
      | inl (a, k) ↦ inl (rw e (rw k (_, refl)))
    ]
