-- ===== src/Tpm/Keys.antt =====
-- The keys of linux/src/tpm/tpm_esapi.c: the endorsement key, and the attestation key under its parent.
use sdk_native.Prelude.{ℕ, List, ◌∷◌, Option, none, some, ◌>>=◌, ℤ, pos, minus_one}
use sdk_native.Memory.{Buffer}
use sdk_native.Tpm.{Esys, Primary, Event, TpmContext, Output, World, copy_out, flush_slot}

-- A failure before anything is copied.
abbrev pub failed : Option Buffer → ℕ → Output
failed out len = record { rc = minus_one; buf = out; len = len }

module _ (esys : Esys) where
  -- Esys_CreatePrimary: a new handle where it succeeds.
  unfoldable pub create_primary : Primary → World esys → Option (ℕ × esys.Public) × World esys
  create_primary p w =
      let (result, dev) = esys.create_primary p w.dev in
      elim result [
        | none ↦ (none, record w { dev = dev })
        | some (h, public) ↦
            (some (h, public), record { dev = dev; trace = Event.created h ∷ w.trace })
      ]

  unfoldable pub load : ℕ → List ℕ → esys.Public → World esys → Option ℕ × World esys
  load parent private public w =
      let (result, dev) = esys.load parent private public w.dev in
      elim result [
        | none ↦ (none, record w { dev = dev })
        | some h ↦ (some h, record { dev = dev; trace = Event.created h ∷ w.trace })
      ]

  -- Tss2_MU_TPM2B_PUBLIC_Marshal into a local array, and the copy.
  unfoldable pub marshal_out : esys.Public → Option Buffer → ℕ → Option Output
  marshal_out public out len = elim (esys.marshal_public public) [
    | none ↦ some (failed out len)
    | some bytes ↦ copy_out bytes out len
  ]

  unfoldable pub tpm_read_ek_pub :
      TpmContext → Option Buffer → ℕ → World esys → Option (Output × TpmContext × World esys)
  tpm_read_ek_pub ctx out_pub out_pub_len w =
      let w1 = flush_slot esys ctx.ek_handle w in
      let (result, w2) = create_primary Primary.ek w1 in
      elim result [
        | none ↦ some (failed out_pub out_pub_len, record ctx { ek_handle = none }, w2)
        | some (h, public) ↦ do
          output ← marshal_out public out_pub out_pub_len
          some (output, record ctx { ek_handle = some h }, w2)
      ]

  -- The third part: the old attestation key is flushed, the new one loaded.
  unfoldable pub load_ak :
      TpmContext → ℕ → List ℕ → esys.Public → World esys → ℤ × TpmContext × World esys
  load_ak ctx srk private public w =
      let w1 = flush_slot esys ctx.ak_handle w in
      let (result, w2) = load srk private public w1 in
      elim result [
        | none ↦ (minus_one, record ctx { ak_handle = none }, w2)
        | some h ↦ (pos 0, record ctx { ak_handle = some h }, w2)
      ]

  unfoldable pub tpm_create_ak : TpmContext → World esys → ℤ × TpmContext × World esys
  tpm_create_ak ctx w =
      let w1 = flush_slot esys ctx.srk_handle w in
      let (result, w2) = create_primary Primary.srk w1 in
      elim result [
        | none ↦ (minus_one, record ctx { srk_handle = none }, w2)
        | some (srk, srk_public) ↦
            let ctx1 = record ctx { srk_handle = some srk } in
            let (ak, dev) = esys.create srk w2.dev in
            let w3 = record w2 { dev = dev } in
            elim ak [
              | none ↦ (minus_one, ctx1, w3)
              | some (private, public) ↦ load_ak ctx1 srk private public w3
            ]
      ]

  unfoldable pub tpm_get_ak_pub :
      TpmContext → Option Buffer → ℕ → World esys → Option (Output × World esys)
  tpm_get_ak_pub ctx out_pub out_pub_len w = elim ctx.ak_handle [
    | none ↦ some (failed out_pub out_pub_len, w)
    | some ak ↦
        let (result, dev) = esys.read_public ak w.dev in
        let w1 = record w { dev = dev } in
        elim result [
          | none ↦ some (failed out_pub out_pub_len, w1)
          | some (public, name) ↦ do
            output ← marshal_out public out_pub out_pub_len
            some (output, w1)
        ]
  ]

  unfoldable pub tpm_get_ak_name :
      TpmContext → Option Buffer → ℕ → World esys → Option (Output × World esys)
  tpm_get_ak_name ctx out_name out_name_len w = elim ctx.ak_handle [
    | none ↦ some (failed out_name out_name_len, w)
    | some ak ↦
        let (result, dev) = esys.read_public ak w.dev in
        let w1 = record w { dev = dev } in
        elim result [
          | none ↦ some (failed out_name out_name_len, w1)
          | some (public, name) ↦ do output ← copy_out name out_name out_name_len; some (output, w1)
        ]
  ]
