-- ===== src/EventLog/Names.antt =====
-- windows/src/boot/event_log_parser.h and .cpp: the types of events and their names, the texts
-- that are taken out of the event data, and the decimals of a number.
use sdk_native.Prelude.{
  ℕ, zero, suc, ◌+◌, ◌*◌, ◌/◌, ◌%◌, min, List, [], ◌∷◌, ◌++◌, Bool, true, false, ◌&&◌, ◌||◌, not,
  Option, some, codes, length, ltb, leb, ◌==◌, if◌then◌else◌, ◌>>=◌, get_elem?, drop,
}
use sdk_native.Prelude.Bits.{u64}
use sdk_native.EventLog.{read_u16_le, copy_le, u16_le}

abbrev pub ev_preboot_cert : ℕ
ev_preboot_cert = 0x00000000

abbrev pub ev_post_code : ℕ
ev_post_code = 0x00000001

abbrev pub ev_no_action : ℕ
ev_no_action = 0x00000003

abbrev pub ev_separator : ℕ
ev_separator = 0x00000004

abbrev pub ev_action : ℕ
ev_action = 0x00000005

abbrev pub ev_s_crtm_contents : ℕ
ev_s_crtm_contents = 0x00000007

abbrev pub ev_s_crtm_version : ℕ
ev_s_crtm_version = 0x00000008

abbrev pub ev_cpu_microcode : ℕ
ev_cpu_microcode = 0x00000009

abbrev pub ev_platform_config_flags : ℕ
ev_platform_config_flags = 0x0000000A

abbrev pub ev_table_of_devices : ℕ
ev_table_of_devices = 0x0000000B

abbrev pub ev_compact_hash : ℕ
ev_compact_hash = 0x0000000C

abbrev pub ev_ipl : ℕ
ev_ipl = 0x0000000D

abbrev pub ev_nonhost_code : ℕ
ev_nonhost_code = 0x0000000F

abbrev pub ev_nonhost_config : ℕ
ev_nonhost_config = 0x00000010

abbrev pub ev_efi_variable_driver_config : ℕ
ev_efi_variable_driver_config = 0x80000001

abbrev pub ev_efi_variable_boot : ℕ
ev_efi_variable_boot = 0x80000002

abbrev pub ev_efi_boot_services_application : ℕ
ev_efi_boot_services_application = 0x80000003

abbrev pub ev_efi_boot_services_driver : ℕ
ev_efi_boot_services_driver = 0x80000004

abbrev pub ev_efi_runtime_services_driver : ℕ
ev_efi_runtime_services_driver = 0x80000005

abbrev pub ev_efi_gpt_event : ℕ
ev_efi_gpt_event = 0x80000006

abbrev pub ev_efi_action : ℕ
ev_efi_action = 0x80000007

abbrev pub ev_efi_platform_firmware_blob : ℕ
ev_efi_platform_firmware_blob = 0x80000008

abbrev pub ev_efi_handoff_tables : ℕ
ev_efi_handoff_tables = 0x80000009

abbrev pub ev_efi_platform_firmware_blob2 : ℕ
ev_efi_platform_firmware_blob2 = 0x8000000A

abbrev pub ev_efi_handoff_tables2 : ℕ
ev_efi_handoff_tables2 = 0x8000000B

abbrev pub ev_efi_variable_boot2 : ℕ
ev_efi_variable_boot2 = 0x8000000C

abbrev pub ev_efi_variable_authority : ℕ
ev_efi_variable_authority = 0x800000E0

abbrev pub ev_efi_spdm_firmware_blob : ℕ
ev_efi_spdm_firmware_blob = 0x800000E1

pub event_type_names : List (ℕ × List ℕ)
event_type_names =
    (ev_preboot_cert, codes "EV_PREBOOT_CERT")
    ∷ (ev_post_code, codes "EV_POST_CODE")
    ∷ (ev_no_action, codes "EV_NO_ACTION")
    ∷ (ev_separator, codes "EV_SEPARATOR")
    ∷ (ev_action, codes "EV_ACTION")
    ∷ (ev_s_crtm_contents, codes "EV_S_CRTM_CONTENTS")
    ∷ (ev_s_crtm_version, codes "EV_S_CRTM_VERSION")
    ∷ (ev_cpu_microcode, codes "EV_CPU_MICROCODE")
    ∷ (ev_platform_config_flags, codes "EV_PLATFORM_CONFIG_FLAGS")
    ∷ (ev_table_of_devices, codes "EV_TABLE_OF_DEVICES")
    ∷ (ev_compact_hash, codes "EV_COMPACT_HASH")
    ∷ (ev_ipl, codes "EV_IPL")
    ∷ (ev_nonhost_code, codes "EV_NONHOST_CODE")
    ∷ (ev_nonhost_config, codes "EV_NONHOST_CONFIG")
    ∷ (ev_efi_variable_driver_config, codes "EV_EFI_VARIABLE_DRIVER_CONFIG")
    ∷ (ev_efi_variable_boot, codes "EV_EFI_VARIABLE_BOOT")
    ∷ (ev_efi_boot_services_application, codes "EV_EFI_BOOT_SERVICES_APPLICATION")
    ∷ (ev_efi_boot_services_driver, codes "EV_EFI_BOOT_SERVICES_DRIVER")
    ∷ (ev_efi_runtime_services_driver, codes "EV_EFI_RUNTIME_SERVICES_DRIVER")
    ∷ (ev_efi_gpt_event, codes "EV_EFI_GPT_EVENT")
    ∷ (ev_efi_action, codes "EV_EFI_ACTION")
    ∷ (ev_efi_platform_firmware_blob, codes "EV_EFI_PLATFORM_FIRMWARE_BLOB")
    ∷ (ev_efi_platform_firmware_blob2, codes "EV_EFI_PLATFORM_FIRMWARE_BLOB2")
    ∷ (ev_efi_handoff_tables, codes "EV_EFI_HANDOFF_TABLES")
    ∷ (ev_efi_variable_authority, codes "EV_EFI_VARIABLE_AUTHORITY")
    ∷ (ev_efi_spdm_firmware_blob, codes "EV_EFI_SPDM_FIRMWARE_BLOB")
    ∷ []

pub look_up : ℕ → List (ℕ × List ℕ) → List ℕ
look_up key [] = codes "UNKNOWN"
look_up key ((k, name) ∷ table) = if key == k then name else look_up key table

unfoldable pub event_type_name : ℕ → List ℕ
event_type_name event_type = look_up event_type event_type_names

-- `std::string::operator==` and `find(...) != npos`.
abbrev pub same_string : List ℕ → List ℕ → Bool
same_string [] [] = true
same_string [] (b ∷ t) = false
same_string (a ∷ s) [] = false
same_string (a ∷ s) (b ∷ t) = a == b && same_string s t

abbrev pub starts : List ℕ → List ℕ → Bool
starts [] s = true
starts (a ∷ t) [] = false
starts (a ∷ t) (b ∷ s) = a == b && starts t s

abbrev pub find : List ℕ → List ℕ → Bool
find [] t = starts t []
find (b ∷ s) t = starts t (b ∷ s) || find s t

-- `std::to_string`
abbrev pub decimal : ℕ → ℕ → List ℕ
decimal zero n = []
decimal (suc fuel) n = elim (ltb n 10) [
  | true ↦ (48 + n) ∷ []
  | false ↦ decimal fuel (n / 10) ++ (48 + n % 10) ∷ []
]

abbrev pub to_string : ℕ → List ℕ
to_string n = decimal (suc n) n

unfoldable pub name_loop : List ℕ → ℕ → ℕ → Option (List ℕ)
name_loop event_data zero i = some []
name_loop event_data (suc rounds) i = do
  ch ← read_u16_le event_data (32 + i * 2)
  (if ch == 0 then some [] else (do
    name ← name_loop event_data rounds (i + 1)
    some ((if ltb ch 128 then ch else b'?') ∷ name)))

-- The test adds and doubles in 64 bits.
unfoldable pub extract_efi_variable_name : List ℕ → Option (List ℕ)
extract_efi_variable_name event_data = if ltb (length event_data) 32 then some [] else do
  name_len ← copy_le event_data 16 8
  (if ltb (length event_data) (u64 (32 + u64 (name_len * 2)))
      then some []
      else name_loop event_data (min name_len 256) 0)

unfoldable pub is_path_char : ℕ → Bool
is_path_char ch =
    ch == b'\\'
    || ch == b'/'
    || leb b'A' ch && leb ch b'z'
    || ch == b'.'
    || ch == b'-'
    || ch == b'_'

unfoldable pub is_path : List ℕ → Bool
is_path s =
    ltb 4 (length s) && (find s (codes ".efi") || find s (codes ".EFI") || find s (b'\\' ∷ []))

-- `i` steps by two from 32, while both bytes are in the event data.
unfoldable pub path_loop : List ℕ → List ℕ → List ℕ
path_loop (low ∷ high ∷ event_data) result =
    let ch = u16_le low high in
    elim (is_path_char ch) [
      | true ↦ path_loop event_data (if ltb ch 128 then result ++ ch ∷ [] else result)
      | false ↦ elim (ch == 0 && not (same_string result []) && is_path result) [
        | true ↦ result
        | false ↦ path_loop event_data []
      ]
    ]
path_loop _ [] = codes "(binary device path)"
path_loop _ result = result

unfoldable pub extract_boot_app_path : List ℕ → List ℕ
extract_boot_app_path event_data =
    if ltb (length event_data) 32 then codes "(unknown path)" else path_loop (drop 32 event_data) []

unfoldable pub is_secure_boot_enabled : List ℕ → List ℕ → Option Bool
is_secure_boot_enabled var_name event_data =
    if not (same_string var_name (codes "SecureBoot"))
    then some false
    else if ltb (length event_data) 33
    then some false
    else (do
      name_len ← copy_le event_data 16 8
      data_len ← copy_le event_data 24 8
      let data_offset = u64 (32 + u64 (name_len * 2))
      (if ltb data_offset (length event_data) && leb 1 data_len
          then (do value ← get_elem? event_data data_offset; some (value == 1))
          else some false))

-- The version of EV_S_CRTM_VERSION.
unfoldable pub version_loop : List ℕ → List ℕ
version_loop (low ∷ high ∷ event_data) =
    let ch = u16_le low high in
    elim (ch == 0) [
      | true ↦ []
      | false ↦ if ltb ch 128 then ch ∷ version_loop event_data else version_loop event_data
    ]
version_loop _ = []
