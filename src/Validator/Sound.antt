-- ===== src/Validator/Sound.antt =====
-- What ValidateSecureBootChain of windows/src/boot/secureboot_validator.cpp has seen in the log when it
-- says that the chain is valid.
use sdk_native.Prelude.{
  ◌≡◌, refl, sym, ◌∙◌, ◌⊎◌, inl, inr, ℕ, List, [], ◌∷◌, ◌++◌, Bool, true, false, ◌||◌, not, Option,
  some, Bool-cases, if◌then◌else◌, Ends, fails, gives, append-nil, Ends-from, Ends->>=, Ends-at,
}
use sdk_native.EventLog.{EventLogEntry, EventLogAnalysis}
use sdk_native.EventLog.Names.{same_string}
use sdk_native.EventLog.Loop.{parse_and_analyze_event_log}
use sdk_native.Validator.{CertInfo, CryptoApi, extract_var_name, parse_efi_signature_list}
use sdk_native.Validator.Chain.{
  SecureBootChainReport, new_report, is_key_event, final_verdict, has_certs, kek_errors, db_errors,
  oem_warnings, judge, report_entry, report_loop, validate_secure_boot_chain,
}
use sdk_native.Validator.Marks.{
  Mark, platform_key, microsoft_kek, uefi_ca_2011, uefi_ca_2023, flag, variable_of, shows, any_cert,
  on_test, store_variable-New, Fixed, store_variable-Fixed,
}

-- An event of PCR 7 with the mark's variable holds a certificate that shows the mark.
pub data Seen (crypto : CryptoApi) (k : Mark) : List EventLogEntry → Type 0 where
  here :
      {entry : EventLogEntry} {entries : List EventLogEntry} {name : List ℕ} {certs : List CertInfo}
      → is_key_event entry ≡ true
      → extract_var_name entry.event_data ≡ some name
      → same_string name (variable_of k) ≡ true
      → parse_efi_signature_list crypto entry.event_data ≡ some certs
      → any_cert (shows k) certs ≡ true
      → Seen crypto k (entry ∷ entries)
  there :
      {entry : EventLogEntry} {entries : List EventLogEntry}
      → Seen crypto k entries
      → Seen crypto k (entry ∷ entries)

Ends-map {ℓ} :
    {A : Type ℓ} {P Q : A → Type 0} {o : Option A} → ((a : A) → P a → Q a) → Ends P o → Ends Q o
Ends-map f fails = fails
Ends-map f (gives h) = gives (f _ h)

-- The tests at the end.
no_error :
    (b : Bool) (e : List ℕ) (others : List (List ℕ))
    → (if b then [] else e ∷ []) ++ others ≡ []
    → (b ≡ true) × (others ≡ [])
no_error true e others h = (refl, h)
no_error false e others h = cc

no_errors-valid :
    (r : SecureBootChainReport) (errors warnings : List (List ℕ))
    → (final_verdict r errors warnings).chain_valid ≡ true
    → errors ≡ []
no_errors-valid r [] warnings h = refl
no_errors-valid r (e ∷ errors) warnings h = cc

either : (a b : Bool) → (a || b) ≡ true → (a ≡ true) ⊎ (b ≡ true)
either true b h = inl refl
either false b h = inr h

abbrev Passed : SecureBootChainReport → Type 0
Passed r =
    (r.secure_boot_enabled ≡ true)
    × (flag platform_key r ≡ true)
    × (flag microsoft_kek r ≡ true)
    × ((flag uefi_ca_2011 r ≡ true) ⊎ (flag uefi_ca_2023 r ≡ true))

not-false : (b : Bool) → not b ≡ false → b ≡ true
not-false true h = refl
not-false false h = cc

not_both : {A : Type 0} (b : Bool) → b ≡ false → b ≡ true → A
not_both true f t = cc
not_both false f t = cc

judge-Passed :
    (r : SecureBootChainReport) → r.chain_valid ≡ false → (judge r).chain_valid ≡ true → Passed r
unfolding judge
judge-Passed r fresh =
    on_test {A = SecureBootChainReport} (λ r'. r'.chain_valid ≡ true → Passed r)
      (not r.secure_boot_enabled) (λ _ h. not_both r.chain_valid fresh h)
      λ enabled.
        on_test {A = SecureBootChainReport} (λ r'. r'.chain_valid ≡ true → Passed r)
          (not (has_certs r.pk_certs)) (λ _ h. not_both r.chain_valid fresh h)
          λ certs h.
            let (kek, rest) =
              no_error r.kek_has_microsoft _ (db_errors r)
                (no_errors-valid r (kek_errors r ++ db_errors r) (oem_warnings r) h) in
            let (db, _) =
              no_error (r.db_has_microsoft_uefi_ca_2011 || r.db_has_microsoft_uefi_ca_2023) _ []
                (append-nil (db_errors r) ∙ rest) in
            (not-false _ enabled, not-false _ certs, kek, either _ _ db)

module _ (crypto : CryptoApi) where
  abbrev Grown : List EventLogEntry → SecureBootChainReport → SecureBootChainReport → Type 0
  Grown entries r r' =
      Fixed r r' × ((k : Mark) → flag k r' ≡ true → (flag k r ≡ true) ⊎ Seen crypto k entries)

  report_entry-Grown :
      (entry : EventLogEntry) (entries : List EventLogEntry) (r : SecureBootChainReport)
      → Ends (Grown (entry ∷ entries) r) (report_entry crypto entry r)
  unfolding report_entry
  report_entry-Grown entry entries r = elim (Bool-cases (is_key_event entry)) [
    | inr other ↦ rw other (gives ((refl, refl), λ k h. inl h))
    | inl key ↦ rw key (
        Ends-from (extract_var_name entry.event_data) _ λ name en.
          Ends-from (parse_efi_signature_list crypto entry.event_data) _ λ certs ec. gives (
            store_variable-Fixed name certs r,
            λ k h. elim (store_variable-New k name certs r h) [
              | inl old ↦ inl old
              | inr new ↦ inr (here key en new.0 ec new.1)
            ],
          ))
  ]

  later :
      (entry : EventLogEntry) (entries : List EventLogEntry) (r r1 r' : SecureBootChainReport)
      → Grown (entry ∷ entries) r r1
      → Grown entries r1 r'
      → Grown (entry ∷ entries) r r'
  later entry entries r r1 r' first rest = (
    (rest.0.0 ∙ first.0.0, rest.0.1 ∙ first.0.1),
    λ k h. elim (rest.1 k h) [ inl old ↦ first.1 k old | inr seen ↦ inr (there seen) ],
  )

  report_loop-Grown :
      (entries : List EventLogEntry) (r : SecureBootChainReport)
      → Ends (Grown entries r) (report_loop crypto entries r)
  unfolding report_loop
  report_loop-Grown [] r = gives ((refl, refl), λ k h. inl h)
  report_loop-Grown (entry ∷ entries) r =
      Ends->>= _ (report_entry-Grown entry entries r) λ r1 first.
        Ends-map (λ r' rest. later entry entries r r1 r' first rest) (report_loop-Grown entries r1)

  abbrev Evidence : List ℕ → Type 0
  Evidence log =
      (a : EventLogAnalysis) × (parse_and_analyze_event_log log ≡ some a)
      × (a.secure_boot_enabled ≡ true)
      × Seen crypto platform_key a.entries
      × Seen crypto microsoft_kek a.entries
      × (Seen crypto uefi_ca_2011 a.entries ⊎ Seen crypto uefi_ca_2023 a.entries)

  not_old : {A : Type 0} → (false ≡ true) ⊎ A → A
  not_old (inl h) = cc
  not_old (inr a) = a

  found :
      (log : List ℕ) (a : EventLogAnalysis) (r : SecureBootChainReport)
      → parse_and_analyze_event_log log ≡ some a
      → Grown a.entries (new_report a.secure_boot_enabled) r
      → Passed r
      → Evidence log
  found log a r parsed grown (enabled, pk, kek, db) = (
    a,
    parsed,
    sym grown.0.1 ∙ enabled,
    not_old (grown.1 platform_key pk),
    not_old (grown.1 microsoft_kek kek),
    elim db [
      | inl old ↦ inl (not_old (grown.1 uefi_ca_2011 old))
      | inr new ↦ inr (not_old (grown.1 uefi_ca_2023 new))
    ],
  )

  -- If ValidateSecureBootChain says that the chain is valid, then the parsed log has Secure Boot
  -- enabled, and events of PCR 7 in it hold: for PK a certificate, for KEK one of Microsoft, and for db
  -- one whose subject names a UEFI CA of Microsoft, of 2011 or of 2023.
  pub validate-Seen :
      (log : List ℕ) (r : SecureBootChainReport)
      → validate_secure_boot_chain crypto log ≡ some r
      → r.chain_valid ≡ true
      → (a : EventLogAnalysis) × (parse_and_analyze_event_log log ≡ some a)
        × (a.secure_boot_enabled ≡ true)
        × Seen crypto platform_key a.entries
        × Seen crypto microsoft_kek a.entries
        × (Seen crypto uefi_ca_2011 a.entries ⊎ Seen crypto uefi_ca_2023 a.entries)
  unfolding validate_secure_boot_chain
  validate-Seen log r e =
      Ends-at (λ r'. r'.chain_valid ≡ true → Evidence log)
        (Ends-from (parse_and_analyze_event_log log) _ λ a parsed.
          Ends->>= _ (report_loop-Grown a.entries (new_report a.secure_boot_enabled))
            λ r' grown. gives (λ h. found log a r' parsed grown (judge-Passed r' grown.0.0 h)))
        e
