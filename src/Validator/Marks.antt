-- ===== src/Validator/Marks.antt =====
-- windows/src/boot/secureboot_validator.cpp: what ValidateSecureBootChain looks for in the variables,
-- and what one variable changes in the report.
use sdk_native.Prelude.{
  ◌≡◌, refl, ◌⊎◌, inl, inr, ℕ, List, [], ◌∷◌, Bool, true, false, ◌||◌, codes, if◌then◌else◌,
}
use sdk_native.EventLog.Names.{same_string}
use sdk_native.Validator.{CertInfo}
use sdk_native.Validator.Chain.{
  SecureBootChainReport, set_flag, names_uefi_ca_2011, names_uefi_ca_2023, store_variable, store_pk,
  store_kek, store_db, store_dbx, has_certs,
}

-- What is looked for: any certificate in PK, one of Microsoft in KEK, and the two authorities in db.
pub data Mark : Type 0 where
  platform_key microsoft_kek uefi_ca_2011 uefi_ca_2023 : Mark

abbrev pub flag : Mark → SecureBootChainReport → Bool
flag platform_key r = has_certs r.pk_certs
flag microsoft_kek r = r.kek_has_microsoft
flag uefi_ca_2011 r = r.db_has_microsoft_uefi_ca_2011
flag uefi_ca_2023 r = r.db_has_microsoft_uefi_ca_2023

abbrev pub variable_of : Mark → List ℕ
variable_of platform_key = codes "PK"
variable_of microsoft_kek = codes "KEK"
variable_of uefi_ca_2011 = codes "db"
variable_of uefi_ca_2023 = codes "db"

abbrev pub shows : Mark → CertInfo → Bool
shows platform_key c = true
shows microsoft_kek c = c.is_microsoft_cert
shows uefi_ca_2011 c = names_uefi_ca_2011 c
shows uefi_ca_2023 c = names_uefi_ca_2023 c

abbrev pub any_cert : (CertInfo → Bool) → List CertInfo → Bool
any_cert test [] = false
any_cert test (c ∷ certs) = test c || any_cert test certs

pub on_test {ℓ} :
    {A : Type ℓ} (P : A → Type 0) (b : Bool) {x y : A}
    → (b ≡ true → P x)
    → (b ≡ false → P y)
    → P (if b then x else y)
on_test P true hx hy = hx refl
on_test P false hx hy = hy refl

merge_flag :
    (b old others : Bool)
    → ((if b then true else old) ≡ true) ⊎ (others ≡ true)
    → (old ≡ true) ⊎ ((b || others) ≡ true)
merge_flag true old others h = inr refl
merge_flag false old others h = h

set_flag_lem :
    (test : CertInfo → Bool) (certs : List CertInfo) (old : Bool)
    → set_flag test certs old ≡ true
    → (old ≡ true) ⊎ (any_cert test certs ≡ true)
unfolding set_flag
set_flag_lem test [] old h = inl h
set_flag_lem test (c ∷ certs) old h =
    merge_flag (test c) old (any_cert test certs)
      (set_flag_lem test certs (if test c then true else old) h)

any_of_some : (certs : List CertInfo) → has_certs certs ≡ true → any_cert (λ c. true) certs ≡ true
any_of_some [] h = cc
any_of_some (c ∷ certs) h = refl

-- A mark that is new in the report comes from the variable.
abbrev pub New :
    Mark → List ℕ → List CertInfo → SecureBootChainReport → SecureBootChainReport → Type 0
New k name certs r r' =
    flag k r' ≡ true
    → (flag k r ≡ true)
      ⊎ ((same_string name (variable_of k) ≡ true) × (any_cert (shows k) certs ≡ true))

from_flag : {Old Here Shown : Type 0} → Here → Old ⊎ Shown → Old ⊎ (Here × Shown)
from_flag e (inl old) = inl old
from_flag e (inr shown) = inr (e, shown)

by_variable :
    (P : SecureBootChainReport → Type 0) (name : List ℕ) (certs : List CertInfo)
    (r : SecureBootChainReport)
    → (same_string name (codes "PK") ≡ true → P (store_pk certs r))
    → (same_string name (codes "KEK") ≡ true → P (store_kek certs r))
    → (same_string name (codes "db") ≡ true → P (store_db certs r))
    → P (store_dbx certs r)
    → P r
    → P (store_variable name certs r)
unfolding store_variable
by_variable P name certs r in_pk in_kek in_db in_dbx in_none =
    on_test P (same_string name (codes "PK")) in_pk λ _.
      on_test P (same_string name (codes "KEK")) in_kek λ _.
        on_test P (same_string name (codes "db")) in_db
          λ _. on_test P (same_string name (codes "dbx")) (λ _. in_dbx) λ _. in_none

pub store_variable-New :
    (k : Mark) (name : List ℕ) (certs : List CertInfo) (r : SecureBootChainReport)
    → New k name certs r (store_variable name certs r)
store_variable-New platform_key name certs r =
    by_variable (New platform_key name certs r) name certs r (λ e h. inr (e, any_of_some certs h))
      (λ _ h. inl h) (λ _ h. inl h) (λ h. inl h) λ h. inl h
store_variable-New microsoft_kek name certs r =
    by_variable (New microsoft_kek name certs r) name certs r (λ _ h. inl h)
      (λ e h. from_flag e (set_flag_lem _ certs r.kek_has_microsoft h)) (λ _ h. inl h) (λ h. inl h)
      λ h. inl h
store_variable-New uefi_ca_2011 name certs r =
    by_variable (New uefi_ca_2011 name certs r) name certs r (λ _ h. inl h) (λ _ h. inl h)
      (λ e h. from_flag e (set_flag_lem _ certs r.db_has_microsoft_uefi_ca_2011 h)) (λ h. inl h)
      λ h. inl h
store_variable-New uefi_ca_2023 name certs r =
    by_variable (New uefi_ca_2023 name certs r) name certs r (λ _ h. inl h) (λ _ h. inl h)
      (λ e h. from_flag e (set_flag_lem _ certs r.db_has_microsoft_uefi_ca_2023 h)) (λ h. inl h)
      λ h. inl h

-- What the loop leaves alone.
abbrev pub Fixed : SecureBootChainReport → SecureBootChainReport → Type 0
Fixed r r' = (r'.chain_valid ≡ r.chain_valid) × (r'.secure_boot_enabled ≡ r.secure_boot_enabled)

pub store_variable-Fixed :
    (name : List ℕ) (certs : List CertInfo) (r : SecureBootChainReport)
    → Fixed r (store_variable name certs r)
store_variable-Fixed name certs r =
    by_variable (Fixed r) name certs r (λ _. (refl, refl)) (λ _. (refl, refl)) (λ _. (refl, refl))
      (refl, refl) (refl, refl)
