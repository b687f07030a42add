-- ===== src/EventLog/Loop.antt =====
-- windows/src/boot/event_log_parser.cpp: ParseAndAnalyzeEventLog, from the entry of the old form at
-- the start of the log over the loop to the verdict.
use sdk_native.Prelude.{
  ℕ, zero, suc, ◌+◌, List, Option, none, some, length, drop, ltb, leb, ◌==◌, if◌then◌else◌, ◌>>=◌,
}
use sdk_native.Prelude.Bits.{u32}
use sdk_native.EventLog.{
  read_u32_le, Event, EventLogAnalysis, new_analysis, Scan, outside, done, got,
}
use sdk_native.EventLog.Names.{ev_no_action}
use sdk_native.EventLog.Classify.{classify, give_verdict}
use sdk_native.EventLog.Parse.{read_event}

-- A round of the loop: its `break`s and `goto done`, or the switch and what comes after it.
abbrev pub after_event :
    (List ℕ → EventLogAnalysis → Option EventLogAnalysis)
    → EventLogAnalysis
    → Scan (Event × List ℕ)
    → Option EventLogAnalysis
after_event loop a outside = none
after_event loop a done = some a
after_event loop a (got (e, rest)) = classify e a >>= loop rest

-- `while (remaining >= 12)`; `none` is a read outside, or the end of the fuel.
unfoldable pub event_loop : ℕ → List ℕ → EventLogAnalysis → Option EventLogAnalysis
event_loop zero rest a = none
event_loop (suc fuel) rest a =
    if leb 12 (length rest) then after_event (event_loop fuel) a (read_event rest) else some a

-- The entry of the old form at the start; `32 + eventDataSize` is a sum of 32 bits.
unfoldable pub skip_header : List ℕ → Option (List ℕ)
skip_header log = if ltb (length log) 32 then some log else (do
  pcr_index ← read_u32_le log 0
  event_type ← read_u32_le log 4
  (if event_type == ev_no_action
      then (do
        event_data_size ← read_u32_le log 28
        let skip = u32 (32 + event_data_size)
        some (if leb skip (length log) then drop skip log else log))
      else some log))

unfoldable pub parse_and_analyze_event_log : List ℕ → Option EventLogAnalysis
parse_and_analyze_event_log log = do
  rest ← skip_header log
  a ← event_loop (suc (length rest)) rest new_analysis
  some (give_verdict a)
