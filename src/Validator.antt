-- ===== src/Validator.antt =====
-- windows/src/boot/secureboot_validator.cpp and .h: the certificates in the variables of Secure Boot.
-- CryptoAPI is the record CryptoApi.
use sdk_native.Prelude.{
  ℕ, zero, suc, ◌+◌, ◌*◌, ◌-◌, ◌/◌, ◌%◌, List, [], ◌∷◌, ◌++◌, Bool, true, false, ◌&&◌, ◌||◌, not,
  Option, none, some, codes, length, take, drop, leb, ltb, ◌==◌, if◌then◌else◌, ◌>>=◌, min,
}
use sdk_native.Prelude.Bits.{u32, u64}
use sdk_native.EventLog.{read_u16_le, read_u32_le, copy_le}
use sdk_native.EventLog.Names.{same_string, find}
pub mod Inside
pub mod Chain
pub mod Marks
pub mod Sound

abbrev pub efi_cert_x509_guid : List ℕ
efi_cert_x509_guid =
    0xa1 ∷ 0x59 ∷ 0xc0 ∷ 0xa5 ∷ 0xe4 ∷ 0x94 ∷ 0xa7 ∷ 0x4a ∷ 0x87 ∷ 0xb5 ∷ 0xab ∷ 0x15 ∷ 0x5c ∷ 0x2b
    ∷ 0xf0 ∷ 0x72 ∷ []

abbrev pub ms_thumbprints : List (List ℕ)
ms_thumbprints =
    codes "46DEF63B5CE61CF8BA0DE2E6639C1019D0ED14F3D65B68D78BA2B0461D4C2D65"
    ∷ codes "580A6F4CC4E4B669B9EBDC1B2B3E087B80D0678D5E2A7BC341A0DC4B50BF2E27"
    ∷ codes "31590BFD89C9D74ED087DFAC6637B34BCA2028A586CA9CF9B79EF23B2C27A4A8"
    ∷ codes "45A0FA32604773C82433C3B7D59E7466B3AC0C7CEEE2B40EA4EE0E14A0925F28"
    ∷ []

abbrev pub known_oem_names : List (List ℕ)
known_oem_names =
    codes "Lenovo"
    ∷ codes "LENOVO"
    ∷ codes "Dell"
    ∷ codes "DELL"
    ∷ codes "HP"
    ∷ codes "Hewlett-Packard"
    ∷ codes "Hewlett Packard"
    ∷ codes "ASUS"
    ∷ codes "ASUSTeK"
    ∷ codes "Acer"
    ∷ codes "Microsoft"
    ∷ codes "Samsung"
    ∷ codes "Toshiba"
    ∷ codes "Fujitsu"
    ∷ codes "Intel"
    ∷ codes "AMI"
    ∷ codes "American Megatrends"
    ∷ codes "Phoenix"
    ∷ codes "Insyde"
    ∷ codes "ASRock"
    ∷ codes "Gigabyte"
    ∷ codes "MSI"
    ∷ codes "Micro-Star"
    ∷ codes "Razer"
    ∷ codes "Framework"
    ∷ codes "System76"
    ∷ codes "HUAWEI"
    ∷ codes "Xiaomi"
    ∷ []

-- The two dates of the struct are never written, and stand nowhere here.
pub record CertInfo : Type 0 where
  pub subject : List ℕ
  pub issuer : List ℕ
  pub thumbprint_sha256 : List ℕ
  pub is_microsoft_cert : Bool
  pub is_known_oem : Bool
  pub oem_name : List ℕ

-- Subject and issuer of a certificate that CertCreateCertificateContext takes, and the hash of bytes,
-- if each call for it succeeds.
pub record CryptoApi : Type 0 where
  pub names : List ℕ → Option (List ℕ × List ℕ)
  pub sha256 : List ℕ → Option (List ℕ)

abbrev pub hex_upper : ℕ → ℕ
hex_upper d = if ltb d 10 then 48 + d else 55 + d

unfoldable pub bytes_to_hex_upper : List ℕ → List ℕ
bytes_to_hex_upper [] = []
bytes_to_hex_upper (b ∷ bytes) = hex_upper (b / 16) ∷ hex_upper (b % 16) ∷ bytes_to_hex_upper bytes

unfoldable pub to_upper : List ℕ → List ℕ
to_upper [] = []
to_upper (c ∷ s) = (if leb b'a' c && leb c b'z' then c - 32 else c) ∷ to_upper s

unfoldable pub is_one_of : List ℕ → List (List ℕ) → Bool
is_one_of s [] = false
is_one_of s (t ∷ texts) = same_string s t || is_one_of s texts

-- The loop over the names up to its `break`.
unfoldable pub known_oem : List ℕ → List ℕ → List (List ℕ) → Option (List ℕ)
known_oem subject issuer [] = none
known_oem subject issuer (name ∷ names) =
    if find subject name || find issuer name then some name else known_oem subject issuer names

-- `p` is the memory from a pointer on.
unfoldable pub read_bytes : List ℕ → ℕ → ℕ → Option (List ℕ)
read_bytes p first count =
    if ltb (length p) (first + count) then none else some (take count (drop first p))

abbrev pub is_x509 : List ℕ → Bool
is_x509 p = same_string (take 16 p) efi_cert_x509_guid

abbrev pub no_cert : CertInfo
no_cert = record {
  subject = [];
  issuer = [];
  thumbprint_sha256 = [];
  is_microsoft_cert = false;
  is_known_oem = false;
  oem_name = [];
}

unfoldable pub var_name_loop : List ℕ → ℕ → ℕ → Option (List ℕ)
var_name_loop event_data zero i = some []
var_name_loop event_data (suc rounds) i = do
  ch ← read_u16_le event_data (32 + i * 2)
  (if ch == 0 then some [] else (do
    name ← var_name_loop event_data rounds (i + 1)
    some (if ltb ch 128 then ch ∷ name else name)))

-- Unlike the parser's, this one drops what is not ASCII.
unfoldable pub extract_var_name : List ℕ → Option (List ℕ)
extract_var_name event_data = if ltb (length event_data) 32 then some [] else do
  name_len ← copy_le event_data 16 8
  (if ltb (length event_data) (u64 (32 + u64 (name_len * 2)))
      then some []
      else var_name_loop event_data (min name_len 256) 0)

module _ (crypto : CryptoApi) where
  unfoldable pub cert_thumbprint : List ℕ → List ℕ
  cert_thumbprint der = elim (crypto.sha256 der) [ none ↦ [] | some hash ↦ bytes_to_hex_upper hash ]

  abbrev pub oem_or_empty : Option (List ℕ) → List ℕ
  oem_or_empty none = []
  oem_or_empty (some name) = name

  abbrev pub is_some : Option (List ℕ) → Bool
  is_some none = false
  is_some (some name) = true

  abbrev pub describe : List ℕ → Option (List ℕ × List ℕ) → CertInfo
  describe der none = no_cert
  describe der (some (subject, issuer)) = record {
    subject = subject;
    issuer = issuer;
    thumbprint_sha256 = cert_thumbprint der;
    is_microsoft_cert =
        is_one_of (to_upper (cert_thumbprint der)) ms_thumbprints
        || find subject (codes "Microsoft");
    is_known_oem = is_some (known_oem subject issuer known_oem_names);
    oem_name = oem_or_empty (known_oem subject issuer known_oem_names);
  }

  unfoldable pub parse_der_certificate : List ℕ → CertInfo
  parse_der_certificate der = describe der (crypto.names der)

  abbrev pub push_cert : CertInfo → List CertInfo → List CertInfo
  push_cert info certs = if same_string info.subject [] then certs else certs ++ info ∷ []

  unfoldable pub add_signature : List ℕ → ℕ → ℕ → List CertInfo → Option (List CertInfo)
  add_signature p first cert_len certs =
      if ltb 0 cert_len && ltb cert_len 65536
      then (do
        der ← read_bytes p first cert_len
        some (push_cert (parse_der_certificate der) certs))
      else some certs

  -- The inner loop; `28 + listSize - 28 + 28` is a sum of 32 bits. `none` is a read outside, or the end
  -- of the fuel.
  unfoldable pub signature_loop : ℕ → List ℕ → ℕ → ℕ → ℕ → List CertInfo → Option (List CertInfo)
  signature_loop zero p list_size sig_size offset certs = none
  signature_loop (suc fuel) p list_size sig_size offset certs =
      if leb (offset + sig_size) (u32 (list_size + 28)) && leb (offset + sig_size) list_size
      then (do
        certs' ← add_signature p (offset + 16) (sig_size - 16) certs
        signature_loop fuel p list_size sig_size (offset + sig_size) certs')
      else some certs

  -- The loop over the lists.
  unfoldable pub list_loop : ℕ → List ℕ → ℕ → List CertInfo → Option (List CertInfo)
  list_loop zero p remaining certs = none
  list_loop (suc fuel) p remaining certs = if ltb remaining 28 then some certs else do
    list_size ← read_u32_le p 16
    header_size ← read_u32_le p 20
    sig_size ← read_u32_le p 24
    (if list_size == 0 || ltb remaining list_size then some certs else (do
      certs' ←
          if is_x509 p && ltb 16 sig_size
          then signature_loop (suc list_size) p list_size sig_size (u32 (28 + header_size)) certs
          else some certs
      list_loop fuel (drop list_size p) (remaining - list_size) certs'))

  -- The sums and the product are of 64 bits.
  unfoldable pub parse_efi_signature_list : List ℕ → Option (List CertInfo)
  parse_efi_signature_list variable_data = if ltb (length variable_data) 32 then some [] else do
    name_len ← copy_le variable_data 16 8
    data_len ← copy_le variable_data 24 8
    let data_offset = u64 (32 + u64 (name_len * 2))
    (if ltb (length variable_data) (u64 (data_offset + data_len))
        then some []
        else list_loop (suc data_len) (drop data_offset variable_data) data_len [])
