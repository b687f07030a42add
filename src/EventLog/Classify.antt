-- ===== src/EventLog/Classify.antt =====
-- windows/src/boot/event_log_parser.cpp: how ParseAndAnalyzeEventLog describes, classifies and counts
-- an entry, and the verdict at its end.
use sdk_native.Prelude.{
  ℕ, ◌+◌, List, [], ◌∷◌, ◌++◌, Bool, ◌&&◌, ◌||◌, not, Option, none, some, codes, leb, ltb, ◌==◌,
  if◌then◌else◌, ◌>>=◌,
}
use sdk_native.EventLog.{
  Class, verified, revoked, unknown, policy, Verdict, pass, fail, warning, EventLogEntry,
  EventLogAnalysis, Event,
}
use sdk_native.EventLog.Names.{
  ev_post_code, ev_no_action, ev_separator, ev_s_crtm_contents, ev_s_crtm_version, ev_cpu_microcode,
  ev_platform_config_flags, ev_compact_hash, ev_efi_variable_driver_config, ev_efi_variable_boot,
  ev_efi_boot_services_application, ev_efi_boot_services_driver, ev_efi_runtime_services_driver,
  ev_efi_gpt_event, ev_efi_action, ev_efi_platform_firmware_blob, ev_efi_handoff_tables,
  ev_efi_platform_firmware_blob2, ev_efi_handoff_tables2, ev_efi_variable_boot2,
  ev_efi_variable_authority, event_type_name, same_string, to_string, extract_efi_variable_name,
  extract_boot_app_path, is_secure_boot_enabled, version_loop,
}

abbrev pub is_variable : ℕ → Bool
is_variable event_type =
    event_type == ev_efi_variable_driver_config
    || event_type == ev_efi_variable_boot
    || event_type == ev_efi_variable_boot2

-- The cases of the switch whose description is a fixed text.
abbrev pub Fixed : Type 0
Fixed = List (ℕ × (Class × List ℕ))

unfoldable pub fixed_cases : Fixed
fixed_cases =
    (ev_efi_platform_firmware_blob, (verified, codes "Platform Firmware Blob"))
    ∷ (ev_efi_platform_firmware_blob2, (verified, codes "Platform Firmware Blob"))
    ∷ (ev_separator, (policy, codes "Separator (transition to OS measurements)"))
    ∷ (
      ev_efi_variable_authority,
      (policy, codes "EFI Variable Authority (certificate used for Secure Boot verification)"),
    )
    ∷ (ev_efi_gpt_event, (policy, codes "GPT Partition Table"))
    ∷ (ev_no_action, (policy, codes "No Action (informational)"))
    ∷ (ev_efi_handoff_tables, (policy, codes "EFI Handoff Tables (SMBIOS/ACPI)"))
    ∷ (ev_efi_handoff_tables2, (policy, codes "EFI Handoff Tables (SMBIOS/ACPI)"))
    ∷ (ev_platform_config_flags, (policy, codes "Platform Configuration Flags"))
    ∷ (ev_compact_hash, (verified, codes "Compact Hash (Windows integrity measurement)"))
    ∷ []

abbrev pub find_case : ℕ → Fixed → Option (Class × List ℕ)
find_case event_type [] = none
find_case event_type ((k, described) ∷ cases) =
    if event_type == k then some described else find_case event_type cases

-- The `default` case.
unfoldable pub other_case : Event → Class × List ℕ
other_case e =
    if leb 11 e.pcr_index && leb e.pcr_index 14
    then (verified, codes "Windows OS measurement (PCR[" ++ to_string e.pcr_index ++ codes "])")
    else (
      unknown,
      event_type_name e.event_type ++ codes " (PCR[" ++ to_string e.pcr_index ++ codes "])",
    )

-- All cases but the variables': the classification and the description.
unfoldable pub plain_case : Event → Class × List ℕ
plain_case e =
    if e.event_type == ev_efi_boot_services_application
    then (verified, codes "Boot Application: " ++ extract_boot_app_path e.event_data)
    else if e.event_type == ev_efi_boot_services_driver
    then (verified, codes "Boot Driver: " ++ extract_boot_app_path e.event_data)
    else if e.event_type == ev_s_crtm_version
    then (verified, codes "CRTM/BIOS Version: " ++ version_loop e.event_data)
    else if e.event_type == ev_post_code
        || e.event_type == ev_s_crtm_contents
        || e.event_type == ev_cpu_microcode
    then (verified, event_type_name e.event_type)
    else if e.event_type == ev_efi_action
    then (policy, codes "EFI Action: " ++ e.event_data)
    else if e.event_type == ev_efi_runtime_services_driver
    then (verified, codes "Runtime Driver: " ++ extract_boot_app_path e.event_data)
    else elim (find_case e.event_type fixed_cases) [
      | some described ↦ described
      | none ↦ other_case e
    ]

-- `analysis.…Count++`
abbrev pub count_one : Class → EventLogAnalysis → EventLogAnalysis
count_one verified a = record a { verified_count = a.verified_count + 1 }
count_one unknown a = record a { unknown_count = a.unknown_count + 1 }
count_one policy a = record a { policy_count = a.policy_count + 1 }
count_one revoked a = a

abbrev pub entry_of : Event → Class × List ℕ → EventLogEntry
entry_of e described = record {
  pcr_index = e.pcr_index;
  event_type = e.event_type;
  event_type_name = event_type_name e.event_type;
  digests = e.digests;
  event_data = e.event_data;
  description = described.1;
  classification = described.0;
}

abbrev pub push_entry : EventLogEntry → EventLogAnalysis → EventLogAnalysis
push_entry entry a =
    let counted = count_one entry.classification a in
    record counted { entries = a.entries ++ entry ∷ [] }

unfoldable pub is_key_database : List ℕ → Bool
is_key_database name =
    same_string name (codes "PK")
    || same_string name (codes "KEK")
    || same_string name (codes "db")
    || same_string name (codes "dbx")

-- What an entry of the name SecureBoot sets.
unfoldable pub secure_boot_of : List ℕ → List ℕ → Bool → Option Bool
secure_boot_of name event_data before =
    if same_string name (codes "SecureBoot")
    then is_secure_boot_enabled name event_data
    else some before

unfoldable pub variable_description : List ℕ → Bool → List ℕ
variable_description name is_enabled =
    codes "EFI Variable: "
    ++ name
    ++ (if same_string name (codes "SecureBoot")
        then (if is_enabled then codes " (ENABLED)" else codes " (DISABLED)")
        else [])
    ++ (if is_key_database name then codes " (Secure Boot key database)" else [])

-- The case of the three variable events.
unfoldable pub variable_case : Event → EventLogAnalysis → Option EventLogAnalysis
variable_case e a = do
  name ← extract_efi_variable_name e.event_data
  is_enabled ← secure_boot_of name e.event_data a.secure_boot_enabled
  let has_keys = same_string name (codes "db") || same_string name (codes "KEK")
  some (
      push_entry (entry_of e (policy, variable_description name is_enabled)) (record a {
        secure_boot_enabled = is_enabled;
        secure_boot_microsoft_keys = a.secure_boot_microsoft_keys || has_keys;
      }))

-- The switch, and `push_back`.
unfoldable pub classify : Event → EventLogAnalysis → Option EventLogAnalysis
classify e a =
    if is_variable e.event_type
    then variable_case e a
    else some (push_entry (entry_of e (plain_case e)) a)

-- The verdict and its reason, which quotes a dash of three bytes.
unfoldable pub verdict_of : EventLogAnalysis → Verdict × List ℕ
verdict_of a =
    if a.secure_boot_enabled && a.revoked_count == 0
    then (if a.unknown_count == 0
        then (
          pass,
          codes "Secure Boot enabled, all boot components verified, no revoked components",
        )
        else (
          warning,
          codes "Secure Boot enabled, but "
              ++ to_string a.unknown_count
              ++ codes " unknown measurement(s) detected",
        ))
    else if not a.secure_boot_enabled
    then (
      fail,
      codes "Secure Boot is DISABLED "
          ++ (0xe2 ∷ 0x80 ∷ 0x94 ∷ [])
          ++ codes " boot chain integrity cannot be guaranteed",
    )
    else if ltb 0 a.revoked_count
    then (
      fail,
      to_string a.revoked_count ++ codes " revoked/known-bad component(s) detected in boot chain",
    )
    else (warning, codes "Could not determine Secure Boot status")

unfoldable pub give_verdict : EventLogAnalysis → EventLogAnalysis
give_verdict a = record a { verdict = some (verdict_of a).0; verdict_reason = (verdict_of a).1 }
