-- ===== src/Tests/Boot.antt =====
-- The event log parser on a log of one variable, SecureBoot, and the claims about it at that log.
use sdk_native.Prelude.{
  ℕ, ◌*◌, ◌≤◌, ◌≡◌, refl, List, [], ◌∷◌, ◌++◌, false, Option, none, some, codes, length, replicate,
  arith, ◌⊎◌, ◌>>=◌,
}
use sdk_native.EventLog.{
  EventLogAnalysis, new_analysis, Event, pass, read_u16_le, read_u32_le, copy_le,
}
use sdk_native.EventLog.Names.{
  name_loop, extract_efi_variable_name, extract_boot_app_path, path_loop, is_path_char, is_path,
  is_secure_boot_enabled,
}
use sdk_native.EventLog.Classify.{
  is_key_database, secure_boot_of, variable_description, variable_case, classify, verdict_of,
  give_verdict,
}
use sdk_native.EventLog.Parse.{digest_size, digest_loop, read_event}
use sdk_native.EventLog.Loop.{event_loop, skip_header, parse_and_analyze_event_log}
use sdk_native.EventLog.Rest.{BadEvent, parse-inside}
use sdk_native.EventLog.Words.{write_u16_le, write_u32_le}
use sdk_native.EventLog.Events.{digests_before, event_before, IsDigest, IsEvent}
use sdk_native.EventLog.RoundTrip.{
  Header, IsHeader, header_before, events_before, classify_all, parse-written,
}
use sdk_native.EventLog.Counts.{IsCounted, parse-counts}
use sdk_native.EventLog.SecureBoot.{verdict_from, boot_state, parse-verdict}

abbrev pub wide : List ℕ → List ℕ
wide [] = []
wide (c ∷ s) = c ∷ 0 ∷ wide s

abbrev secure_boot_data : List ℕ
secure_boot_data =
    replicate 16 9
    ++ (10 ∷ replicate 7 0)
    ++ (1 ∷ replicate 7 0)
    ++ wide (codes "SecureBoot")
    ++ 1 ∷ []

abbrev pub secure_boot : Event
secure_boot = record {
  pcr_index = 7;
  event_type = 0x80000001;
  digests = (0x000B, replicate 32 5) ∷ [];
  event_data = secure_boot_data;
}

abbrev pub header : Header
header = record { pcr_index = 0; digest = replicate 20 0; event_data = 1 ∷ 2 ∷ [] }

abbrev boot_log : List ℕ
boot_log = header_before header (events_before (secure_boot ∷ []) (7 ∷ []))

abbrev value_of : Option EventLogAnalysis → EventLogAnalysis
value_of none = new_analysis
value_of (some a) = a

abbrev boot_analysis : EventLogAnalysis
boot_analysis = value_of (parse_and_analyze_event_log boot_log)

header-IsHeader : IsHeader header
header-IsHeader = record { pcr_fits = omega arith; has_sha1 = refl; data_fits = omega arith }

secure_boot-IsEvent : IsEvent secure_boot
unfolding digest_size IsDigest
secure_boot-IsEvent = record {
  pcr_fits = omega arith;
  type_fits = omega arith;
  few_digests = omega arith;
  all_digests = ((omega arith, refl), tt);
  data_fits = omega arith;
}

boot_parses : parse_and_analyze_event_log boot_log ≡ some boot_analysis
unfolding parse_and_analyze_event_log skip_header event_loop read_event digest_loop digest_size
    read_u16_le read_u32_le copy_le name_loop extract_efi_variable_name is_secure_boot_enabled
    is_key_database secure_boot_of variable_description variable_case classify verdict_of
    give_verdict event_before digests_before write_u16_le write_u32_le header_before events_before
boot_parses = refl

boot_passes : boot_analysis.verdict ≡ some pass
unfolding parse_and_analyze_event_log skip_header event_loop read_event digest_loop digest_size
    read_u16_le read_u32_le copy_le name_loop extract_efi_variable_name is_secure_boot_enabled
    is_key_database secure_boot_of variable_description variable_case classify verdict_of
    give_verdict event_before digests_before write_u16_le write_u32_le header_before events_before
boot_passes = refl

-- Twice 2^63 characters wrap to no byte at all: the name is read behind the end of the data.
abbrev long_name_data : List ℕ
long_name_data = replicate 16 9 ++ replicate 7 0 ++ 0x80 ∷ replicate 8 0 ++ wide (codes "PK")

abbrev long_name : Event
long_name = record secure_boot { event_data = long_name_data }

long_name_faults :
    parse_and_analyze_event_log (header_before header (events_before (long_name ∷ []) [])) ≡ none
unfolding parse_and_analyze_event_log skip_header event_loop read_event digest_loop digest_size
    read_u16_le read_u32_le copy_le name_loop extract_efi_variable_name variable_case classify
    event_before digests_before write_u16_le write_u32_le header_before events_before
long_name_faults = refl

-- `32 + eventDataSize` wraps: a header of 2^32 - 32 bytes is skipped by nothing.
header_wraps :
    skip_header (write_u32_le 0 ++ write_u32_le 3 ++ replicate 20 0 ++ write_u32_le 0xFFFFFFE0)
    ≡ some (write_u32_le 0 ++ write_u32_le 3 ++ replicate 20 0 ++ write_u32_le 0xFFFFFFE0)
unfolding skip_header read_u32_le write_u32_le
header_wraps = refl

-- A digit ends a path.
digit_ends_path :
    extract_boot_app_path (replicate 32 0 ++ wide (codes "\\EFI\\BOOT\\BOOTX64.EFI") ++ 0 ∷ 0 ∷ [])
    ≡ codes "(binary device path)"
unfolding extract_boot_app_path path_loop is_path_char is_path
digit_ends_path = refl

parse-inside_example :
    ((a : EventLogAnalysis) × (parse_and_analyze_event_log boot_log ≡ some a)) ⊎ BadEvent boot_log
parse-inside_example = parse-inside boot_log

parse-written_example :
    parse_and_analyze_event_log boot_log
    ≡ (classify_all (secure_boot ∷ []) new_analysis >>= λ a. some (give_verdict a))
parse-written_example =
    parse-written header (secure_boot ∷ []) (7 ∷ []) header-IsHeader (secure_boot-IsEvent, tt)
      (omega arith)

parse-counts_example :
    IsCounted boot_analysis × (16 * length boot_analysis.entries ≤ length boot_log)
parse-counts_example = parse-counts boot_log boot_analysis boot_parses

parse-verdict_example :
    (boot_analysis.verdict ≡ some (verdict_from boot_analysis.entries))
    × (boot_analysis.secure_boot_enabled ≡ boot_state boot_analysis.entries false)
parse-verdict_example = parse-verdict boot_log boot_analysis boot_parses
