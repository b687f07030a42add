-- ===== src/Tests/Validator.antt =====
-- The validator of the Secure Boot chain at a log with four variables.
use sdk_native.Prelude.{
  ℕ, ◌≡◌, refl, ◌⊎◌, List, [], ◌∷◌, ◌++◌, Option, none, some, codes, length, replicate, true, false,
  Inside,
}
use sdk_native.EventLog.{EventLogAnalysis, Event, read_u16_le, read_u32_le, copy_le}
use sdk_native.EventLog.Names.{name_loop, extract_efi_variable_name, is_secure_boot_enabled}
use sdk_native.EventLog.Classify.{
  is_key_database, secure_boot_of, variable_description, variable_case, classify, verdict_of,
  give_verdict,
}
use sdk_native.EventLog.Parse.{digest_size, digest_loop, read_event}
use sdk_native.EventLog.Loop.{event_loop, skip_header, parse_and_analyze_event_log}
use sdk_native.EventLog.Words.{write_u16_le, write_u32_le}
use sdk_native.EventLog.Events.{digests_before, event_before}
use sdk_native.EventLog.RoundTrip.{header_before, events_before}
use sdk_native.Validator.{
  CryptoApi, efi_cert_x509_guid, parse_efi_signature_list, extract_var_name, var_name_loop,
  list_loop, signature_loop, add_signature, read_bytes, parse_der_certificate, cert_thumbprint,
  to_upper, is_one_of, known_oem,
}
use sdk_native.Validator.Inside.{LongLengths, parse_efi_signature_list-Inside}
use sdk_native.Validator.Chain.{
  SecureBootChainReport, new_report, set_flag, last_oem_name, store_variable, judge, report_entry,
  report_loop, validate_secure_boot_chain,
}
use sdk_native.Validator.Sound.{Seen, validate-Seen}
use sdk_native.Validator.Marks.{platform_key, microsoft_kek, uefi_ca_2011, uefi_ca_2023}
use sdk_native.Tests.Boot.{wide, header, secure_boot}

-- Every certificate has one name, and no hash is computed.
abbrev one_name : CryptoApi
one_name = record {
  names = λ der. some (codes "Dell, Microsoft Corporation UEFI CA 2011", []);
  sha256 = λ bytes. none;
}

-- A list of one certificate of one byte.
abbrev one_cert : List ℕ
one_cert =
    efi_cert_x509_guid
    ++ (45 ∷ 0 ∷ 0 ∷ 0 ∷ [])
    ++ (0 ∷ 0 ∷ 0 ∷ 0 ∷ [])
    ++ (17 ∷ 0 ∷ 0 ∷ 0 ∷ [])
    ++ replicate 16 3
    ++ 48 ∷ []

abbrev variable_data : List ℕ → List ℕ
variable_data name =
    replicate 16 9 ++ (length name ∷ replicate 7 0) ++ (45 ∷ replicate 7 0) ++ wide name ++ one_cert

abbrev variable : List ℕ → Event
variable name = record secure_boot { event_data = variable_data name }

abbrev key_log : List ℕ
key_log = header_before header (
    events_before
      (secure_boot ∷ variable (codes "PK") ∷ variable (codes "KEK") ∷ variable (codes "db") ∷ [])
      [])

abbrev report_or : Option SecureBootChainReport → SecureBootChainReport
report_or none = new_report false
report_or (some r) = r

abbrev key_report : SecureBootChainReport
key_report = report_or (validate_secure_boot_chain one_name key_log)

validates : validate_secure_boot_chain one_name key_log ≡ some key_report
unfolding validate_secure_boot_chain report_loop report_entry judge store_variable set_flag
    last_oem_name extract_var_name var_name_loop parse_efi_signature_list list_loop signature_loop
    add_signature read_bytes parse_der_certificate cert_thumbprint to_upper is_one_of known_oem
    parse_and_analyze_event_log skip_header event_loop read_event digest_loop digest_size
    read_u16_le read_u32_le copy_le name_loop extract_efi_variable_name is_secure_boot_enabled
    is_key_database secure_boot_of variable_description variable_case classify verdict_of
    give_verdict event_before digests_before write_u16_le write_u32_le header_before events_before
validates = refl

is_valid : key_report.chain_valid ≡ true
unfolding validate_secure_boot_chain report_loop report_entry judge store_variable set_flag
    last_oem_name extract_var_name var_name_loop parse_efi_signature_list list_loop signature_loop
    add_signature read_bytes parse_der_certificate cert_thumbprint to_upper is_one_of known_oem
    parse_and_analyze_event_log skip_header event_loop read_event digest_loop digest_size
    read_u16_le read_u32_le copy_le name_loop extract_efi_variable_name is_secure_boot_enabled
    is_key_database secure_boot_of variable_description variable_case classify verdict_of
    give_verdict event_before digests_before write_u16_le write_u32_le header_before events_before
is_valid = refl

parse_efi_signature_list-Inside_example :
    Inside (parse_efi_signature_list one_name (variable_data (codes "db")))
    ⊎ LongLengths (variable_data (codes "db"))
parse_efi_signature_list-Inside_example =
    parse_efi_signature_list-Inside one_name (variable_data (codes "db"))

validate-Seen_example :
    (a : EventLogAnalysis) × (parse_and_analyze_event_log key_log ≡ some a)
    × (a.secure_boot_enabled ≡ true)
    × Seen one_name platform_key a.entries
    × Seen one_name microsoft_kek a.entries
    × (Seen one_name uefi_ca_2011 a.entries ⊎ Seen one_name uefi_ca_2023 a.entries)
validate-Seen_example = validate-Seen one_name key_log key_report validates is_valid
