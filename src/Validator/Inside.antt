-- ===== src/Validator/Inside.antt =====
-- ParseEfiSignatureList of windows/src/boot/secureboot_validator.cpp: its loops end, and where its
-- reads stay inside of the variable.
use sdk_native.Prelude.{
  Inside, Inside-if, Inside->>=, Inside-test, ℕ, zero, suc, ◌+◌, ◌*◌, ◌-◌, ◌^◌, ◌≤◌, ◌<◌, ◌≡◌, refl,
  ◌⊎◌, inl, inr, List, [], Bool, true, false, some, ◌&&◌, ◌||◌, length, drop, ltb, leb,
  if◌then◌else◌, ltb→le, ltb→lt, length-drop, arith, Bool-cases, ◌==◌,
}
use sdk_native.Prelude.Bits.{u32, u64}
use sdk_native.EventLog.{copy_le}
use sdk_native.EventLog.Inside.{read_u32_le-Inside, copy_le-Inside}
use sdk_native.Validator.{
  CryptoApi, CertInfo, read_bytes, is_x509, add_signature, signature_loop, list_loop,
  parse_efi_signature_list,
}

read_bytes-Inside :
    (p : List ℕ) (first count : ℕ) → first + count ≤ length p → Inside (read_bytes p first count)
unfolding read_bytes
read_bytes-Inside p first count h =
    Inside-test (ltb (length p) (first + count)) (λ e. absurd (ground arith)) λ _. (_, refl)

second_of : (a b : Bool) → (a && b) ≡ true → b ≡ true
second_of true b h = h
second_of false b h = cc

neither : (a b : Bool) → (a || b) ≡ false → (a ≡ false) × (b ≡ false)
neither true b h = cc
neither false b h = (refl, h)

leb→le : (a b : ℕ) → leb a b ≡ true → a ≤ b
leb→le a b h = ground arith

not_zero : (a : ℕ) → (a == 0) ≡ false → 0 < a
not_zero zero h = cc
not_zero (suc a) h = omega arith

-- The lengths of a name and of the data in a variable, whose sum passes 64 bits.
pub LongLengths : List ℕ → Type 0
LongLengths s =
    (n : ℕ) × (m : ℕ) × (copy_le s 16 8 ≡ some n)
    × (copy_le s 24 8 ≡ some m)
    × (2 ^ 64 ≤ 32 + n * 2 + m)

module _ (crypto : CryptoApi) where
  add_signature-Inside :
      (p : List ℕ) (first cert_len : ℕ) (certs : List CertInfo)
      → first + cert_len ≤ length p
      → Inside (add_signature crypto p first cert_len certs)
  unfolding add_signature
  add_signature-Inside p first cert_len certs h =
      Inside-if (ltb 0 cert_len && ltb cert_len 65536)
        (Inside->>= _ (read_bytes-Inside p first cert_len h) λ _. (_, refl)) (certs, refl)

  signature_loop-Inside :
      (fuel : ℕ) (p : List ℕ) (list_size sig_size offset : ℕ) (certs : List CertInfo)
      → list_size ≤ length p
      → 16 < sig_size
      → 0 < fuel
      → list_size < offset + fuel
      → Inside (signature_loop crypto fuel p list_size sig_size offset certs)
  unfolding signature_loop
  signature_loop-Inside zero p list_size sig_size offset certs room large some_fuel enough =
      absurd (omega arith)
  signature_loop-Inside (suc fuel) p list_size sig_size offset certs room large some_fuel enough =
      Inside-test
        (leb (offset + sig_size) (u32 (list_size + 28)) && leb (offset + sig_size) list_size)
        (λ e.
          let fits = leb→le (offset + sig_size) list_size (second_of _ _ e) in
          Inside->>= _ (add_signature-Inside p (offset + 16) (sig_size - 16) certs (omega arith))
            λ certs'.
              signature_loop-Inside fuel p list_size sig_size (offset + sig_size) certs' room large
                (omega arith) (omega arith))
        λ _. (certs, refl)

  list_loop-Inside :
      (fuel : ℕ) (p : List ℕ) (remaining : ℕ) (certs : List CertInfo)
      → remaining ≤ length p
      → remaining < fuel
      → Inside (list_loop crypto fuel p remaining certs)
  unfolding list_loop
  list_loop-Inside zero p remaining certs room enough = absurd (omega arith)
  list_loop-Inside (suc fuel) p remaining certs room enough =
      Inside-test (ltb remaining 28) (λ _. (certs, refl))
        λ e.
          let long = ltb→le remaining 28 e in
          Inside->>= _ (read_u32_le-Inside p 16 (omega arith)) λ list_size.
            Inside->>= _ (read_u32_le-Inside p 20 (omega arith)) λ header_size.
              Inside->>= _ (read_u32_le-Inside p 24 (omega arith)) λ sig_size.
                Inside-test (list_size == 0 || ltb remaining list_size) (λ _. (certs, refl))
                  λ k.
                    let some_size = not_zero list_size (neither _ _ k).0 in
                    let fits = ltb→le remaining list_size (neither _ _ k).1 in
                    let shorter = length-drop list_size p in
                    Inside->>= _
                      (Inside-test (is_x509 p && ltb 16 sig_size)
                        (λ t.
                          signature_loop-Inside (suc list_size) p list_size sig_size _ certs
                            (omega arith) (ltb→lt 16 sig_size (second_of _ _ t)) (omega arith)
                            (omega arith))
                        λ _. (certs, refl))
                      λ certs'.
                        list_loop-Inside fuel (drop list_size p) (remaining - list_size) certs'
                          (omega arith) (omega arith)

  lists-Inside :
      (s : List ℕ) (n m : ℕ)
      → 32 + n * 2 + m < 2 ^ 64
      → Inside (
          if ltb (length s) (u64 (u64 (32 + u64 (n * 2)) + m))
          then some []
          else list_loop crypto (suc m) (drop (u64 (32 + u64 (n * 2))) s) m [])
  lists-Inside s n m small =
      let start : u64 (32 + u64 (n * 2)) ≡ 32 + n * 2 = omega arith in
      Inside-test (ltb (length s) (u64 (u64 (32 + u64 (n * 2)) + m))) (λ _. ([], refl))
        λ e.
          let fits = ltb→le (length s) (u64 (u64 (32 + u64 (n * 2)) + m)) e in
          let rest = length-drop (u64 (32 + u64 (n * 2))) s in
          list_loop-Inside (suc m) (drop (u64 (32 + u64 (n * 2))) s) m [] (omega arith)
            (omega arith)

  -- ParseEfiSignatureList ends on every variable, and reads nothing behind its end, unless the two
  -- lengths at its start sum up to 2^64 bytes and more.
  pub parse_efi_signature_list-Inside :
      (s : List ℕ) → Inside (parse_efi_signature_list crypto s) ⊎ LongLengths s
  unfolding parse_efi_signature_list LongLengths
  parse_efi_signature_list-Inside s = elim (Bool-cases (ltb (length s) 32)) [
    | inl short ↦ inl (rw short ([], refl))
    | inr e ↦
        let long = ltb→le (length s) 32 e in
        let (n, en) = copy_le-Inside s 16 8 (omega arith) in
        let (m, em) = copy_le-Inside s 24 8 (omega arith) in
        elim (Bool-cases (ltb (32 + n * 2 + m) (2 ^ 64))) [
          | inr sum ↦ inr (n, m, en, em, ltb→le (32 + n * 2 + m) (2 ^ 64) sum)
          | inl sum ↦
              let small = ltb→lt (32 + n * 2 + m) (2 ^ 64) sum in
              inl (rw e (rw en (rw em (lists-Inside s n m small))))
        ]
  ]
