-- ===== src/Validator/Chain.antt =====
-- windows/src/boot/secureboot_validator.cpp: ValidateSecureBootChain.
use sdk_native.Prelude.{
  ℕ, List, [], ◌∷◌, ◌++◌, Bool, true, false, ◌||◌, not, Option, some, codes, length, ◌==◌,
  if◌then◌else◌, ◌>>=◌,
}
use sdk_native.EventLog.{EventLogEntry}
use sdk_native.EventLog.Names.{
  same_string, find, ev_efi_variable_driver_config, ev_efi_variable_boot,
}
use sdk_native.EventLog.Loop.{parse_and_analyze_event_log}
use sdk_native.Validator.{CertInfo, CryptoApi, extract_var_name, parse_efi_signature_list}

pub record SecureBootChainReport : Type 0 where
  pub secure_boot_enabled : Bool
  pub pk_certs : List CertInfo
  pub pk_is_known_oem : Bool
  pub pk_oem_name : List ℕ
  pub kek_certs : List CertInfo
  pub kek_has_microsoft : Bool
  pub db_certs : List CertInfo
  pub db_has_microsoft_uefi_ca_2011 : Bool
  pub db_has_microsoft_uefi_ca_2023 : Bool
  pub db_has_windows_pca_2011 : Bool
  pub dbx_hash_count : ℕ
  pub chain_valid : Bool
  pub verdict : List ℕ
  pub warnings : List (List ℕ)
  pub errors : List (List ℕ)

abbrev pub new_report : Bool → SecureBootChainReport
new_report is_enabled = record {
  secure_boot_enabled = is_enabled;
  pk_certs = [];
  pk_is_known_oem = false;
  pk_oem_name = [];
  kek_certs = [];
  kek_has_microsoft = false;
  db_certs = [];
  db_has_microsoft_uefi_ca_2011 = false;
  db_has_microsoft_uefi_ca_2023 = false;
  db_has_windows_pca_2011 = false;
  dbx_hash_count = 0;
  chain_valid = false;
  verdict = [];
  warnings = [];
  errors = [];
}

-- A loop over certificates that sets a flag where the test holds.
unfoldable pub set_flag : (CertInfo → Bool) → List CertInfo → Bool → Bool
set_flag test [] flag = flag
set_flag test (c ∷ certs) flag = set_flag test certs (if test c then true else flag)

abbrev pub names_uefi_ca_2011 : CertInfo → Bool
names_uefi_ca_2011 c = find c.subject (codes "Microsoft Corporation UEFI CA 2011")

abbrev pub names_uefi_ca_2023 : CertInfo → Bool
names_uefi_ca_2023 c =
    find c.subject (codes "Microsoft UEFI CA 2023") || find c.subject (codes "Windows UEFI CA 2023")

abbrev pub names_windows_pca_2011 : CertInfo → Bool
names_windows_pca_2011 c = find c.subject (codes "Microsoft Windows Production PCA 2011")

unfoldable pub last_oem_name : List CertInfo → List ℕ → List ℕ
last_oem_name [] name = name
last_oem_name (c ∷ certs) name = last_oem_name certs (if c.is_known_oem then c.oem_name else name)

abbrev pub store_pk : List CertInfo → SecureBootChainReport → SecureBootChainReport
store_pk certs r = record r {
  pk_certs = certs;
  pk_is_known_oem = set_flag (λ c. c.is_known_oem) certs r.pk_is_known_oem;
  pk_oem_name = last_oem_name certs r.pk_oem_name;
}

abbrev pub store_kek : List CertInfo → SecureBootChainReport → SecureBootChainReport
store_kek certs r = record r {
  kek_certs = certs;
  kek_has_microsoft = set_flag (λ c. c.is_microsoft_cert) certs r.kek_has_microsoft;
}

abbrev pub store_db : List CertInfo → SecureBootChainReport → SecureBootChainReport
store_db certs r = record r {
  db_certs = certs;
  db_has_microsoft_uefi_ca_2011 = set_flag names_uefi_ca_2011 certs r.db_has_microsoft_uefi_ca_2011;
  db_has_microsoft_uefi_ca_2023 = set_flag names_uefi_ca_2023 certs r.db_has_microsoft_uefi_ca_2023;
  db_has_windows_pca_2011 = set_flag names_windows_pca_2011 certs r.db_has_windows_pca_2011;
}

abbrev pub store_dbx : List CertInfo → SecureBootChainReport → SecureBootChainReport
store_dbx certs r = record r { dbx_hash_count = length certs }

-- The four cases of the variable's name.
unfoldable pub store_variable :
    List ℕ → List CertInfo → SecureBootChainReport → SecureBootChainReport
store_variable var_name certs r =
    if same_string var_name (codes "PK")
    then store_pk certs r
    else if same_string var_name (codes "KEK")
    then store_kek certs r
    else if same_string var_name (codes "db")
    then store_db certs r
    else if same_string var_name (codes "dbx")
    then store_dbx certs r
    else r

-- The events that the loop does not skip.
abbrev pub is_key_event : EventLogEntry → Bool
is_key_event entry =
    if not (entry.pcr_index == 7)
    then false
    else entry.event_type == ev_efi_variable_driver_config
      || entry.event_type == ev_efi_variable_boot

abbrev pub dash : List ℕ
dash = 0xe2 ∷ 0x80 ∷ 0x94 ∷ []

abbrev pub first_subject : List CertInfo → List ℕ
first_subject [] = codes "(none)"
first_subject (c ∷ certs) = c.subject

abbrev pub oem_warnings : SecureBootChainReport → List (List ℕ)
oem_warnings r =
    if r.pk_is_known_oem
    then []
    else (codes "Platform Key issuer not recognized as a known OEM: " ++ first_subject r.pk_certs)
      ∷ []

abbrev pub kek_errors : SecureBootChainReport → List (List ℕ)
kek_errors r =
    if r.kek_has_microsoft
    then []
    else (codes "KEK does not contain Microsoft's KEK certificate "
        ++ dash
        ++ codes " boot chain may not be controlled by Microsoft")
      ∷ []

abbrev pub db_errors : SecureBootChainReport → List (List ℕ)
db_errors r =
    if r.db_has_microsoft_uefi_ca_2011 || r.db_has_microsoft_uefi_ca_2023
    then []
    else (codes "db does not contain Microsoft's UEFI CA "
        ++ dash
        ++ codes " only Microsoft-signed boot components are trusted on standard systems")
      ∷ []

-- The end: its errors and its warnings are in the report.
abbrev pub final_verdict :
    SecureBootChainReport → List (List ℕ) → List (List ℕ) → SecureBootChainReport
final_verdict r (e ∷ errors) warnings = record r {
  chain_valid = false;
  verdict = codes "FAIL: " ++ e;
  warnings = warnings;
  errors = e ∷ errors;
}
final_verdict r [] (w ∷ warnings) = record r {
  chain_valid = true;
  verdict = codes "WARNING: " ++ w;
  warnings = w ∷ warnings;
}
final_verdict r [] [] = record r {
  chain_valid = true;
  verdict =
      codes "PASS: Secure Boot chain fully validated "
      ++ dash
      ++ codes " PK from "
      ++ r.pk_oem_name
      ++ codes ", Microsoft UEFI CA in db, Microsoft KEK present";
}

abbrev pub has_certs : List CertInfo → Bool
has_certs [] = false
has_certs (c ∷ certs) = true

-- The three tests behind the loop; up to here the report has no errors and no warnings.
unfoldable pub judge : SecureBootChainReport → SecureBootChainReport
judge r =
    if not r.secure_boot_enabled
    then record r {
      errors = codes "Secure Boot is DISABLED" ∷ [];
      verdict = codes "FAIL: Secure Boot disabled";
    }
    else if not (has_certs r.pk_certs)
    then record r {
      errors =
          (codes "No Platform Key (PK) found " ++ dash ++ codes " Secure Boot is in setup mode")
          ∷ [];
      verdict = codes "FAIL: No Platform Key";
    }
    else final_verdict r (kek_errors r ++ db_errors r) (oem_warnings r)

module _ (crypto : CryptoApi) where
  unfoldable pub report_entry : EventLogEntry → SecureBootChainReport → Option SecureBootChainReport
  report_entry entry r = if not (is_key_event entry) then some r else do
    var_name ← extract_var_name entry.event_data
    certs ← parse_efi_signature_list crypto entry.event_data
    some (store_variable var_name certs r)

  unfoldable pub report_loop :
      List EventLogEntry → SecureBootChainReport → Option SecureBootChainReport
  report_loop [] r = some r
  report_loop (entry ∷ entries) r = report_entry entry r >>= report_loop entries

  unfoldable pub validate_secure_boot_chain : List ℕ → Option SecureBootChainReport
  validate_secure_boot_chain raw_event_log = do
    analysis ← parse_and_analyze_event_log raw_event_log
    r ← report_loop analysis.entries (new_report analysis.secure_boot_enabled)
    some (judge r)
