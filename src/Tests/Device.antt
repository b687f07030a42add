-- ===== src/Tests/Device.antt =====
-- The TPM wrapper on a device in software, the client's life, and the stub.
use sdk_native.Prelude.{
  ℕ, ◌+◌, ◌≡◌, refl, List, [], ◌∷◌, ◌++◌, Bool, true, false, Option, none, some, codes, length,
  replicate, take, drop, arith, ℤ, pos, if◌then◌else◌, ltb,
}
use sdk_native.Memory.{Buffer, overlay}
use sdk_native.Tpm.{Esys, TpmContext, World, tpm_open, tpm_close}
use sdk_native.Tpm.Keys.{tpm_create_ak}
use sdk_native.Tpm.Certificate.{Holds, tpm_read_ek_cert, tpm_read_ek_cert_lem}
use sdk_native.Tpm.Handles.{live, Reached, Reached-close}
use sdk_native.Prelude.{length-replicate, ◌<◌, ◌==◌, ◌||◌, ◌&&◌, le→leb, leb, if◌then◌else◌}
use sdk_native.Protocol.{RootHeraldResult}
use sdk_native.Host.Object.{is_text_sound}
use sdk_native.Log.{rh_log, trim, rh_log_lem}
use sdk_native.Driver.{get_status, get_status_lem}
use sdk_native.Client.{RootHeraldStatus, Heap}
use sdk_native.Client.Ownership.{Call, life, create-run-destroy}
use sdk_native.Stub.{
  copy_string, collect_evidence, prefix, suffix, copy_string_lem, collect_evidence-nonce,
}

-- The device counts the handles that it gives; it loads no key whose handle would be 3.
abbrev certificate : List ℕ
certificate = codes "certificate"

abbrev soft : Esys
soft = record {
  Dev = ℕ;
  Public = List ℕ;
  Signature = List ℕ;
  max_nv_buffer_size = 4;
  data_size = 64;
  id_object_size = 68;
  encrypted_secret_size = 256;
  initialize = λ dev. (true, dev);
  finalize = λ dev. dev;
  flush_context = λ h dev. (true, dev);
  create_primary = λ p dev. (some (dev, codes "public"), dev + 1);
  create = λ parent dev. (some (codes "private", codes "public"), dev);
  load = λ parent private public dev. (if ltb dev 3 then some dev else none, dev + 1);
  read_public = λ h dev. (some (codes "public", codes "name"), dev);
  marshal_public = λ public. some public;
  tr_from_tpm_public = λ index dev. (if index == 0x01C00002 then some 9 else none, dev);
  nv_data_size = λ h dev. (if h == 9 then some (length certificate) else none, dev);
  nv_read = λ h n offset dev. (
    if h == 9 && leb (offset + n) (length certificate)
        then some (take n (drop offset certificate))
        else none,
    dev,
  );
  quote = λ h data_bytes select dev. (none, dev);
  marshal_signature = λ signature. some signature;
  pcr_read = λ select dev. (none, dev);
  start_policy_session = λ dev. (none, dev);
  policy_secret = λ h dev. (false, dev);
  activate_credential = λ ak ek session cred secret dev. (none, dev);
}

abbrev boot : World soft
boot = record { dev = 1; trace = [] }

abbrev empty : TpmContext
empty = record { ek_handle = none; srk_handle = none; ak_handle = none }

boot_opens : tpm_open soft boot ≡ (some empty, boot)
unfolding tpm_open
boot_opens = refl

boot_clean : live boot.trace ≡ []
unfolding live
boot_clean = refl

-- The second creation fails to load its key.
abbrev first : ℤ × TpmContext × World soft
first = tpm_create_ak soft empty boot

abbrev second : ℤ × TpmContext × World soft
second = tpm_create_ak soft first.1 first.2

twice : Reached soft boot second.1 second.2
twice =
    Reached.created_ak first.1 first.2
      (Reached.created_ak empty boot (Reached.opened empty boot boot_opens))

Reached-close_example : live (tpm_close soft second.1 second.2).trace ≡ []
Reached-close_example = Reached-close soft boot second.1 second.2 boot_clean twice

soft-Holds : Holds soft certificate
soft-Holds = record {
  Refers = λ nv. nv ≡ 9;
  is_open = λ dev. (9, refl, refl);
  has_size = λ nv dev e. rw e refl;
  gives = λ nv n offset dev e some_bytes h inside.
      rw e (rw (le→leb (offset + n) (length certificate) inside) refl);
}

tpm_read_ek_cert_example :
    (w' : World soft) × (tpm_read_ek_cert soft 12 (some (replicate 20 7)) 16 boot
      ≡ some (
        record {
          rc = pos 0;
          buf = some (overlay (replicate 20 7) 0 certificate);
          len = length certificate;
        },
        w',
      ))
tpm_read_ek_cert_example =
    tpm_read_ek_cert_lem soft certificate soft-Holds 12 (replicate 20 7) 16 boot (omega arith)
      (omega arith) (omega arith) (omega arith) (omega arith)

-- The second id is too long to be copied.
abbrev small : ℕ → Bool
small n = ltb n 40

abbrev calls : List Call
calls =
    Call.application_id (some (codes "app"))
    ∷ Call.mock_tpm true
    ∷ Call.application_id (some (replicate 60 97))
    ∷ Call.application_id (some (codes "game"))
    ∷ []

abbrev five : Heap
five = record { blocks = 4 ∷ 2 ∷ []; fresh = 5 }

create-run-destroy_example :
    (heap' : Heap) × (life small 24 calls five ≡ some heap') × (heap'.blocks ≡ 4 ∷ 2 ∷ [])
create-run-destroy_example = create-run-destroy small 24 calls five

copy_string_example :
    copy_string (replicate 4 7) 4 (some (codes "windows"))
    ≡ some (overlay (replicate 4 7) 0 (take 3 (codes "windows") ++ 0 ∷ []))
copy_string_example =
    copy_string_lem (replicate 4 7) 4 (some (codes "windows")) (omega arith) (omega arith)

abbrev dirty : ℕ → Option Buffer
dirty n = some (replicate n 7)

collect_evidence-nonce_example :
    collect_evidence dirty (some (codes "bm8="))
    ≡ some (RootHeraldStatus.rootherald_ok, some ((prefix ++ codes "bm8=" ++ suffix) ++ 0 ∷ []))
collect_evidence-nonce_example =
    collect_evidence-nonce dirty 98 (codes "m8=")
      (replicate (length prefix + 4 + length suffix + 1) 7) (is_text_sound (codes "bm8=") refl) refl
      (omega arith)

rh_log_example :
    rh_log
      (record { has_callback = true; max_level = 1 })
      1
      (some (codes "closed\n"))
      (replicate 1024 7)
    ≡ some (some (trim (take 1023 (codes "closed\n"))))
rh_log_example =
    rh_log_lem (record { has_callback = true; max_level = 1 }) 1 (some (codes "closed\n"))
      (replicate 1024 7) (length-replicate {A = ℕ} 1024 7) (is_text_sound (codes "closed\n") refl)

get_status_example :
    ((w' : World soft) × (get_status soft true false (some (codes "dev-1\n")) boot
        ≡ some (
          RootHeraldResult.rh_proto_ok,
          record {
            is_enrolled = true;
            device_id = trim (take 63 (codes "dev-1\n"));
            platform = codes "linux";
            has_tpm = (true || false) && (soft.initialize boot.dev).0;
          },
          w',
        )))
    × ((w' : World soft) × (get_status soft true false none boot
          ≡ some (
            RootHeraldResult.rh_proto_ok,
            record {
              is_enrolled = false;
              device_id = [];
              platform = codes "linux";
              has_tpm = (true || false) && (soft.initialize boot.dev).0;
            },
            w',
          )))
    × (length (trim (take 63 (codes "dev-1\n"))) < 64)
get_status_example =
    get_status_lem soft true false (codes "dev-1\n") boot (is_text_sound (codes "dev-1\n") refl)
