-- ===== src/Driver/Handles.antt =====
-- The calls of the TPM that make no key: they leave the handles that are live where they are.
use sdk_native.Prelude.{
  minus_one, ℕ, inl, inr, List, [], ◌∷◌, Option, none, some, length, ltb, ◌>>=◌, All, Ends, gives,
  Ends-from, Ends-if, Option-cases,
}
use sdk_native.Memory.{Buffer}
use sdk_native.Tpm.{Esys, TpmContext, Output, World, copy_out, flush}
use sdk_native.Tpm.Keys.{marshal_out, tpm_get_ak_pub, tpm_get_ak_name}
use sdk_native.Tpm.Certificate.{ek_cert_nv_index, nv_loop, tpm_read_ek_cert}
use sdk_native.Tpm.Attest.{
  qualifying_data, copy_quoted, select_pcrs, tpm_quote, tpm_pcr_read, activate_in_session,
  tpm_activate_credential,
}
use sdk_native.Tpm.Handles.{live, remove-All}

module _ (esys : Esys) (P : ℕ → Type 0) where
  abbrev pub Live : World esys → Type 0
  Live w = All P (live w.trace)

  pub tpm_get_ak_pub-Live :
      (tpm : TpmContext) (out : Option Buffer) (len : ℕ) (w : World esys)
      → Live w
      → Ends (λ (r : Output × World esys). Live r.1) (tpm_get_ak_pub esys tpm out len w)
  unfolding tpm_get_ak_pub
  tpm_get_ak_pub-Live tpm out len w h = elim (Option-cases tpm.ak_handle) [
    | inl e ↦ rw (e, tpm_get_ak_pub) (gives h)
    | inr (ak, e) ↦
        rw (e, tpm_get_ak_pub)
          (elim (Option-cases (esys.read_public ak w.dev).0) [
            | inl e' ↦ rw (e', tpm_get_ak_pub) (gives h)
            | inr (p, e') ↦
                rw (e', tpm_get_ak_pub) (Ends-from (marshal_out esys p.0 out len) _ λ o _. gives h)
          ])
  ]

  pub tpm_get_ak_name-Live :
      (tpm : TpmContext) (out : Option Buffer) (len : ℕ) (w : World esys)
      → Live w
      → Ends (λ (r : Output × World esys). Live r.1) (tpm_get_ak_name esys tpm out len w)
  unfolding tpm_get_ak_name
  tpm_get_ak_name-Live tpm out len w h = elim (Option-cases tpm.ak_handle) [
    | inl e ↦ rw (e, tpm_get_ak_name) (gives h)
    | inr (ak, e) ↦
        rw (e, tpm_get_ak_name)
          (elim (Option-cases (esys.read_public ak w.dev).0) [
            | inl e' ↦ rw (e', tpm_get_ak_name) (gives h)
            | inr (p, e') ↦
                rw (e', tpm_get_ak_name) (Ends-from (copy_out p.1 out len) _ λ o _. gives h)
          ])
  ]

  pub tpm_pcr_read-Live :
      (idx : ℕ) (out : Option Buffer) (len : ℕ) (w : World esys)
      → Live w
      → Ends (λ (r : Output × World esys). Live r.1) (tpm_pcr_read esys idx out len w)
  unfolding tpm_pcr_read
  tpm_pcr_read-Live idx out len w h =
      Ends-if (ltb 23 idx) (gives h) (digests (esys.pcr_read _ w.dev))
    where
      digests :
          (r : Option (List (List ℕ)) × esys.Dev)
          → Ends
              (λ (r : Output × World esys). Live r.1)
              (elim r.0 [
                | none ↦
                    some (record { rc = minus_one; buf = out; len = len }, record w { dev = r.1 })
                | some [] ↦
                    some (record { rc = minus_one; buf = out; len = len }, record w { dev = r.1 })
                | some (digest ∷ others) ↦
                    copy_out digest out len >>= λ output. some (output, record w { dev = r.1 })
              ])
      digests (none, dev) = gives h
      digests (some [], dev) = gives h
      digests (some (digest ∷ others), dev) = Ends-from (copy_out digest out len) _ λ o _. gives h

  pub tpm_read_ek_cert-Live :
      (fuel : ℕ) (buf : Buffer) (len : ℕ) (w : World esys)
      → Live w
      → Ends (λ (r : Output × World esys). Live r.1) (tpm_read_ek_cert esys fuel (some buf) len w)
  unfolding tpm_read_ek_cert
  tpm_read_ek_cert-Live fuel buf len w h =
      elim (Option-cases (esys.tr_from_tpm_public ek_cert_nv_index w.dev).0) [
        | inl e ↦ rw (e, tpm_read_ek_cert) (gives h)
        | inr (nv, e) ↦
            let dev1 = (esys.tr_from_tpm_public ek_cert_nv_index w.dev).1 in
            rw (e, tpm_read_ek_cert)
              (elim (Option-cases (esys.nv_data_size nv dev1).0) [
                | inl e' ↦ rw (e', tpm_read_ek_cert) (gives h)
                | inr (nv_size, e') ↦
                    rw (e', tpm_read_ek_cert)
                      (Ends-if (ltb len nv_size) (gives h) (
                        Ends-from (nv_loop esys fuel nv nv_size 0 buf (esys.nv_data_size nv dev1).1)
                          _ λ r _. gives h))
              ])
      ]

  pub tpm_quote-Live :
      (tpm : TpmContext) (nonce : List ℕ) (nonce_len : ℕ) (indices : List ℕ) (out : Option Buffer)
      (len : ℕ) (out' : Option Buffer) (len' : ℕ) (w : World esys)
      → Live w
      → Ends
          (λ (r : Output × Output × World esys). Live r.2)
          (tpm_quote esys tpm nonce nonce_len indices out len out' len' w)
  unfolding tpm_quote
  tpm_quote-Live tpm nonce nonce_len indices out len out' len' w h =
      elim (Option-cases tpm.ak_handle) [
        | inl e ↦ rw (e, tpm_quote) (gives h)
        | inr (ak, e) ↦
            rw (e, tpm_quote)
              (Ends-from (qualifying_data esys nonce nonce_len) _ λ qualifying _.
                elim (Option-cases
                  (esys.quote ak qualifying (select_pcrs 24 indices (0 ∷ 0 ∷ 0 ∷ [])) w.dev).0) [
                    | inl e' ↦ rw (e', tpm_quote) (gives h)
                    | inr (q, e') ↦
                        rw (e', tpm_quote)
                          (Ends-from (copy_quoted esys q.0 out len) _ λ c _.
                            Ends-if c.0
                              (elim (Option-cases (esys.marshal_signature q.1)) [
                                | inl e'' ↦ rw (e'', tpm_quote) (gives h)
                                | inr (bytes, e'') ↦
                                    rw (e'', tpm_quote)
                                      (Ends-from (copy_out bytes out' len') _ λ o _. gives h)
                              ])
                              (gives h))
                  ])
      ]

  -- The session is no key; where it is flushed, a key of the same handle is no longer live.
  activate_in_session-Live :
      (ak ek session : ℕ) (cred secret : List ℕ) (out : Option Buffer) (len : ℕ) (w : World esys)
      → Live w
      → Ends
          (λ (r : Output × World esys). Live r.1)
          (activate_in_session esys ak ek session cred secret out len w)
  unfolding activate_in_session flush live
  activate_in_session-Live ak ek session cred secret out len w h =
      let dev1 = (esys.policy_secret session w.dev).1 in
      Ends-if (esys.policy_secret session w.dev).0
        (elim (Option-cases (esys.activate_credential ak ek session cred secret dev1).0) [
          | inl e ↦ rw (e, activate_in_session) (gives h)
          | inr (info, e) ↦
              rw (e, activate_in_session) (Ends-from (copy_out info out len) _ λ o _. gives h)
        ])
        (gives (remove-All P P session (live w.trace) (λ x ne p. p) h))

  pub tpm_activate_credential-Live :
      (tpm : TpmContext) (cred secret : List ℕ) (out : Option Buffer) (len : ℕ) (w : World esys)
      → Live w
      → Ends
          (λ (r : Output × World esys). Live r.1)
          (tpm_activate_credential esys tpm cred secret out len w)
  unfolding tpm_activate_credential live
  tpm_activate_credential-Live tpm cred secret out len w h = elim (Option-cases tpm.ak_handle) [
    | inl e ↦ rw (e, tpm_activate_credential) (gives h)
    | inr (ak, e) ↦
        rw (e, tpm_activate_credential)
          (elim (Option-cases tpm.ek_handle) [
            | inl e' ↦ rw (e', tpm_activate_credential) (gives h)
            | inr (ek, e') ↦
                rw (e', tpm_activate_credential)
                  (Ends-if (ltb esys.id_object_size (length cred)) (gives h) (
                    Ends-if (ltb esys.encrypted_secret_size (length secret)) (gives h)
                      (elim (Option-cases (esys.start_policy_session w.dev).0) [
                        | inl e'' ↦ rw (e'', tpm_activate_credential) (gives h)
                        | inr (session, e'') ↦
                            rw (e'', tpm_activate_credential)
                              (activate_in_session-Live ak ek session cred secret out len _ h)
                      ])))
          ])
  ]
