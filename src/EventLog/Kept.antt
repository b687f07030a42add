-- ===== src/EventLog/Kept.antt =====
-- What every round of the event log parser keeps holds of its analysis.
use sdk_native.Prelude.{
  ℕ, zero, suc, ◌+◌, ◌≤◌, ◌≡◌, refl, inl, inr, List, Option, some, length, leb, arith, Bool-cases,
  length-drop, Ends, fails, gives, Ends->>=,
}
use sdk_native.EventLog.{Event, EventLogAnalysis, new_analysis, Scan}
use sdk_native.EventLog.Classify.{classify, give_verdict}
use sdk_native.EventLog.Loop.{after_event, event_loop, parse_and_analyze_event_log}
use sdk_native.EventLog.Rest.{
  Each, stopped, holds, Taken, IsRest, read_event-rest, IsRest-refl, skip_header-inside,
}

rest_le : {r log : List ℕ} → IsRest r log → length r ≤ length log
rest_le {log} h = rw h.is_drop (omega (arith, length-drop h.skipped log))

abbrev pub Kept : (List ℕ → EventLogAnalysis → Type 0) → EventLogAnalysis → Type 0
Kept P a = (r : List ℕ) × P r a

-- A property of what remains and of the analysis.
module _ (P : List ℕ → EventLogAnalysis → Type 0)
    (keep : (rest rest' : List ℕ) (e : Event) (a : EventLogAnalysis)
      → length rest' + 16 ≤ length rest
      → P rest a
      → Ends (P rest') (classify e a)) where
  after_event-Kept :
      (rest : List ℕ) (loop : List ℕ → EventLogAnalysis → Option EventLogAnalysis)
      (a : EventLogAnalysis)
      → ((r : List ℕ) (a' : EventLogAnalysis) → P r a' → Ends (Kept P) (loop r a'))
      → {m : Scan (Event × List ℕ)} → Each (Taken rest rest) m
      → P rest a
      → Ends (Kept P) (after_event loop a m)
  after_event-Kept rest loop a next stopped h = gives (rest, h)
  after_event-Kept rest loop a next (holds {a = x} t) h =
      Ends->>= (loop x.1) (keep rest x.1 x.0 a t.2 h) λ a' h'. next x.1 a' h'

  pub event_loop-Kept :
      (fuel : ℕ) (rest : List ℕ) (a : EventLogAnalysis)
      → P rest a
      → Ends (Kept P) (event_loop fuel rest a)
  unfolding event_loop
  event_loop-Kept zero rest a h = fails
  event_loop-Kept (suc fuel) rest a h = elim (Bool-cases (leb 12 (length rest))) [
    | inr short ↦ rw short (gives (rest, h))
    | inl long ↦ rw long (
        after_event-Kept rest (event_loop fuel) a (event_loop-Kept fuel)
          (read_event-rest rest rest (IsRest-refl rest) (ground arith)) h)
  ]

  pub parse-Kept :
      (log : List ℕ)
      → ((rest : List ℕ) → length rest ≤ length log → P rest new_analysis)
      → Ends
          (λ a. (a' : EventLogAnalysis) × Kept P a' × (a ≡ give_verdict a'))
          (parse_and_analyze_event_log log)
  unfolding parse_and_analyze_event_log
  parse-Kept log start =
      let (r, e, h) = skip_header-inside log in
      rw e (
        Ends->>= (λ a. some (give_verdict a))
          (event_loop-Kept (suc (length r)) r new_analysis (start r (rest_le h)))
          λ a h. gives (a, h, refl))
