-- ===== src/EventLog/RoundTrip.antt =====
-- ParseAndAnalyzeEventLog on a log that was written: it analyzes the events the log was made of.
use sdk_native.Prelude.{
  get_elem?-append, ℕ, zero, suc, ◌+◌, ◌^◌, ◌≤◌, ◌<◌, ◌≡◌, refl, ap, sym, ◌∙◌, List, [], ◌∷◌, ◌++◌,
  Option, some, arith, length, drop, All, leb, le→ltb, lt→leb, le→leb, drop_append, length-append,
  append_assoc, ◌>>=◌, true, >>=-ext,
}
use sdk_native.Prelude.Bits.{u32}
use sdk_native.EventLog.{read_u32_le, Event, Digests, EventLogAnalysis, new_analysis}
use sdk_native.EventLog.Names.{ev_no_action}
use sdk_native.EventLog.Classify.{classify, give_verdict}
use sdk_native.EventLog.Loop.{event_loop, skip_header, parse_and_analyze_event_log}
use sdk_native.EventLog.Words.{write_u16_le, write_u32_le, read-write_u32_le}
use sdk_native.EventLog.Events.{digests_before, event_before, stored_event, IsEvent, read_event_lem}

-- The bytes of the events, and then what is left at the end.
unfoldable pub events_before : List Event → List ℕ → List ℕ
events_before [] rest = rest
events_before (e ∷ events) rest = event_before e (events_before events rest)

-- The entry of the old form: its index, its SHA-1 digest and its data.
pub record Header : Type 0 where
  pub pcr_index : ℕ
  pub digest : List ℕ
  pub event_data : List ℕ

pub record IsHeader (h : Header) : Type 0 where
  pub pcr_fits : h.pcr_index < 2 ^ 32
  pub has_sha1 : length h.digest ≡ 20
  pub data_fits : length h.event_data + 32 < 2 ^ 32

unfoldable pub header_before : Header → List ℕ → List ℕ
header_before h rest =
    write_u32_le h.pcr_index
    ++ (write_u32_le ev_no_action
        ++ (h.digest ++ (write_u32_le (length h.event_data) ++ (h.event_data ++ rest))))

-- The events classified one after another.
pub classify_all : List Event → EventLogAnalysis → Option EventLogAnalysis
classify_all [] a = some a
classify_all (e ∷ events) a = classify (stored_event e) a >>= classify_all events

length-digests_before :
    (digests : Digests) (rest : List ℕ) → length rest ≤ length (digests_before digests rest)
unfolding digests_before write_u16_le
length-digests_before [] rest = omega arith
length-digests_before ((alg_id, digest) ∷ digests) rest =
    omega (
      arith,
      length-digests_before digests rest,
      length-append digest (digests_before digests rest),
    )

length-event_before : (e : Event) (rest : List ℕ) → length rest + 16 ≤ length (event_before e rest)
unfolding event_before write_u32_le
length-event_before e rest = omega (
  arith,
  length-digests_before e.digests (write_u32_le (length e.event_data) ++ (e.event_data ++ rest)),
  length-append e.event_data rest,
)

length-events_before :
    (events : List Event) (rest : List ℕ)
    → length events + length rest ≤ length (events_before events rest)
unfolding events_before
length-events_before [] rest = omega arith
length-events_before (e ∷ events) rest =
    omega
      (arith, length-event_before e (events_before events rest), length-events_before events rest)

event_loop_lem :
    (fuel : ℕ) (events : List Event) (rest : List ℕ) (a : EventLogAnalysis)
    → All IsEvent events
    → length rest < 12
    → length events < fuel
    → event_loop fuel (events_before events rest) a ≡ classify_all events a
unfolding event_loop events_before classify_all
event_loop_lem zero events rest a h short enough = absurd (omega arith)
event_loop_lem (suc fuel) [] rest a h short enough = rw (lt→leb 12 (length rest) short) refl
event_loop_lem (suc fuel) (e ∷ events) rest a h short enough =
    let more = events_before events rest in
    let long : leb 12 (length (event_before e more)) ≡ true =
      ground (arith, length-event_before e more) in
    rw long (
      rw (read_event_lem e more h.0) (
        >>=-ext (classify (stored_event e) a) (event_loop fuel more) (classify_all events)
          λ a'. event_loop_lem fuel events rest a' h.1 short (omega arith)))

read_after : (xs p : List ℕ) (i : ℕ) → i ≡ length xs → read_u32_le (xs ++ p) i ≡ read_u32_le p 0
unfolding read_u32_le
read_after xs p i e = rw (get_elem?-append xs p i 0 i e (omega arith)) (
    rw (get_elem?-append xs p i (0 + 1) (i + 1) e (omega arith)) (
      rw (get_elem?-append xs p i (0 + 2) (i + 2) e (omega arith))
        (rw (get_elem?-append xs p i (0 + 3) (i + 3) e (omega arith)) refl)))

-- All of the header up to the rest.
header_bytes : Header → List ℕ
header_bytes h =
    write_u32_le h.pcr_index
    ++ (write_u32_le ev_no_action
        ++ (h.digest ++ (write_u32_le (length h.event_data) ++ h.event_data)))

header_before_lem : (h : Header) (rest : List ℕ) → header_before h rest ≡ header_bytes h ++ rest
unfolding header_before header_bytes write_u32_le
header_before_lem h rest =
    ap (λ t. write_u32_le h.pcr_index ++ (write_u32_le ev_no_action ++ t))
      (sym (append_assoc h.digest (write_u32_le (length h.event_data) ++ h.event_data) rest))

length-header_bytes : (h : Header) → IsHeader h → length (header_bytes h) ≡ 32 + length h.event_data
unfolding header_bytes write_u32_le
length-header_bytes h ok = omega (
  arith,
  ok.has_sha1,
  length-append h.digest (write_u32_le (length h.event_data) ++ h.event_data),
)

header_type :
    (h : Header) (rest : List ℕ) → read_u32_le (header_before h rest) 4 ≡ some ev_no_action
unfolding header_before write_u32_le
header_type h rest =
    let more = h.digest ++ (write_u32_le (length h.event_data) ++ (h.event_data ++ rest)) in
    read_after (write_u32_le h.pcr_index) (write_u32_le ev_no_action ++ more) 4 refl
    ∙ read-write_u32_le ev_no_action more (omega arith)

header_size :
    (h : Header) (rest : List ℕ)
    → IsHeader h
    → read_u32_le (header_before h rest) 28 ≡ some (length h.event_data)
unfolding header_before write_u32_le
header_size h rest ok =
    read_after (write_u32_le h.pcr_index ++ (write_u32_le ev_no_action ++ h.digest))
      (write_u32_le (length h.event_data) ++ (h.event_data ++ rest)) 28 (omega (arith, ok.has_sha1))
    ∙ read-write_u32_le (length h.event_data) (h.event_data ++ rest) (omega (arith, ok.data_fits))

header_first :
    (h : Header) (rest : List ℕ)
    → IsHeader h
    → read_u32_le (header_before h rest) 0 ≡ some h.pcr_index
unfolding header_before
header_first h rest ok = read-write_u32_le h.pcr_index _ ok.pcr_fits

skip_header_lem :
    (h : Header) (rest : List ℕ) → IsHeader h → skip_header (header_before h rest) ≡ some rest
unfolding skip_header
skip_header_lem h rest ok =
    let log = header_before h rest in
    let n = length h.event_data in
    let e = header_before_lem h rest in
    let size = ap (λ t. length t) e ∙ length-append (header_bytes h) rest in
    let whole = length-header_bytes h ok in
    let cut : u32 (32 + n) ≡ length (header_bytes h) = omega (arith, ok.data_fits, whole) in
    let dropped : drop (u32 (32 + n)) log ≡ rest =
      ap (λ k. drop k log) cut
      ∙ ap (λ t. drop (length (header_bytes h)) t) e
      ∙ drop_append (header_bytes h) rest in
    let fits : leb (u32 (32 + n)) (length log) ≡ true = le→leb _ _ (omega (arith, cut, size)) in
    rw (le→ltb (length log) 32 (omega (arith, size, whole))) (
      rw (header_first h rest ok)
        (rw (header_type h rest) (rw (header_size h rest ok) (rw fits (ap some dropped)))))

-- A log of a header, any events and less than twelve more bytes: its analysis is that of the
-- events one after another, and the verdict.
pub parse-written :
    (h : Header) (events : List Event) (rest : List ℕ)
    → IsHeader h
    → All IsEvent events
    → length rest < 12
    → parse_and_analyze_event_log (header_before h (events_before events rest))
      ≡ (classify_all events new_analysis >>= λ a. some (give_verdict a))
unfolding parse_and_analyze_event_log
parse-written h events rest ok all short = rw (skip_header_lem h (events_before events rest) ok) (
    rw
      (event_loop_lem (suc (length (events_before events rest))) events rest new_analysis all short
        (omega (arith, length-events_before events rest)))
      refl)
