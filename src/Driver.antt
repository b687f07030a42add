-- ===== src/Driver.antt =====
-- RootHeraldGetStatus of linux/src/client/rootherald_linux.c. The file with the device id is a
-- parameter: its bytes, or `none` where it does not open.
pub mod Parts
pub mod Enroll
pub mod Attest
pub mod Handles
pub mod Closed
pub mod Outcome
pub mod Fits
use sdk_native.Prelude.{
  ℕ, ◌<◌, ◌≡◌, ◌≢◌, refl, List, [], ◌∷◌, Bool, true, false, Option, none, some, codes, length, take,
  min, replicate, if◌then◌else◌, ◌>>=◌, arith, All, length-take, ◌&&◌, ◌||◌, ap, ◌∙◌, Bool-cases,
  inl, inr,
}
use sdk_native.Memory.{Buffer, store, memcpy, text_at, overlay}
use sdk_native.Memory.Overlay.{length-overlay, overlay-append}
use sdk_native.Memory.Calls.{memcpy_in, store_in}
use sdk_native.Protocol.{RootHeraldResult, RootHeraldDeviceStatus}
use sdk_native.Tpm.{Esys, World, tpm_open, tpm_close, tpm_is_available}
use sdk_native.Log.{length-trim, trim_loop, trim, trim_loop_lem}

-- `n = fread(device_id, 1, 63, f)`, the NUL, and the loop that strips the line ends.
unfoldable pub read_device_id : List ℕ → Option (List ℕ)
read_device_id file = do
  let n = min 63 (length file)
  buf1 ← memcpy (replicate 64 0) 0 (take 63 file)
  buf2 ← store buf1 n 0
  buf3 ← trim_loop buf2 n
  text_at buf3 0

module _ (esys : Esys) where
  -- Whether the TPM opens, if a device node does; a context that was opened is closed.
  unfoldable pub probe_tpm : Bool → World esys → Bool × World esys
  probe_tpm is_available w =
      if is_available
      then (let (ctx, w1) = tpm_open esys w in
          elim ctx [ none ↦ (false, w1) | some tpm ↦ (true, tpm_close esys tpm w1) ])
      else (false, w)

  unfoldable pub get_status :
      Bool
      → Bool
      → Option (List ℕ)
      → World esys
      → Option (RootHeraldResult × RootHeraldDeviceStatus × World esys)
  get_status can_open_tpmrm0 can_open_tpm0 id_file w =
      let (has_tpm, w1) = probe_tpm (tpm_is_available can_open_tpmrm0 can_open_tpm0) w in
      elim id_file [
        | none ↦ some (
          RootHeraldResult.rh_proto_ok,
          record {
            is_enrolled = false;
            device_id = [];
            platform = codes "linux";
            has_tpm = has_tpm;
          },
          w1,
        )
        | some file ↦ do
          device_id ← read_device_id file
          some (
            RootHeraldResult.rh_proto_ok,
            record {
              is_enrolled = true;
              device_id = device_id;
              platform = codes "linux";
              has_tpm = has_tpm;
            },
            w1,
          )
      ]

-- The device id is the first 63 bytes of the file without the line ends at their end, if no NUL is
-- among them.
pub read_device_id_lem :
    (file : List ℕ)
    → All (λ c. c ≢ 0) (take 63 file)
    → read_device_id file ≡ some (trim (take 63 file))
unfolding read_device_id
read_device_id_lem file plain =
    strip (replicate 64 0) (take 63 file) (min 63 (length file)) (length-take 63 file) below plain
  where
    below : min 63 (length file) < length (replicate {A = ℕ} 64 0)
    below = omega arith

    strip :
        (buf : Buffer) (line : List ℕ) (n : ℕ)
        → length line ≡ n
        → n < length buf
        → All (λ c. c ≢ 0) line
        → (memcpy buf 0 line >>= λ b. store b n 0 >>= λ b'. trim_loop b' n >>= λ b''. text_at b'' 0)
          ≡ some (trim line)
    strip buf line n l inside plain = rw (memcpy_in buf 0 line (omega arith)) (
        rw (store_in (overlay buf 0 line) n 0 (rw length-overlay inside)) (
          rw (overlay-append buf 0 n line (0 ∷ []) (omega arith))
            (trim_loop_lem buf n line [] l inside plain)))

available_lem : (node0 node1 : Bool) → tpm_is_available node0 node1 ≡ (node0 || node1)
unfolding tpm_is_available
available_lem true node1 = refl
available_lem false true = refl
available_lem false false = refl

probe_tpm_lem :
    (esys : Esys) (is_available : Bool) (w : World esys)
    → (probe_tpm esys is_available w).0 ≡ (is_available && (esys.initialize w.dev).0)
unfolding probe_tpm tpm_open
probe_tpm_lem esys false w = refl
probe_tpm_lem esys true w = elim (Bool-cases (esys.initialize w.dev).0) [
  | inl ok ↦ rw ok refl
  | inr bad ↦ rw bad refl
]

-- Without a file of the device id, RootHeraldGetStatus returns OK and a device that is not enrolled,
-- with no id. Where the file opens and has no NUL in its first 63 bytes, it returns OK and an
-- enrolled device, whose id is these bytes without the line ends at their end, which fits in the
-- struct with its NUL. Either way the platform is "linux", and hasTpm tells that one of the two device
-- nodes opens and that Esys_Initialize succeeds on it.
pub get_status_lem :
    (esys : Esys) (node0 node1 : Bool) (file : List ℕ) (w : World esys)
    → All (λ c. c ≢ 0) (take 63 file)
    → let has_tpm = (node0 || node1) && (esys.initialize w.dev).0 in
      ((w' : World esys) × (get_status esys node0 node1 (some file) w
          ≡ some (
            RootHeraldResult.rh_proto_ok,
            record {
              is_enrolled = true;
              device_id = trim (take 63 file);
              platform = codes "linux";
              has_tpm = has_tpm;
            },
            w',
          )))
      × ((w' : World esys) × (get_status esys node0 node1 none w
            ≡ some (
              RootHeraldResult.rh_proto_ok,
              record {
                is_enrolled = false;
                device_id = [];
                platform = codes "linux";
                has_tpm = has_tpm;
              },
              w',
            )))
      × (length (trim (take 63 file)) < 64)
unfolding get_status
get_status_lem esys node0 node1 file w plain =
    let found =
      probe_tpm_lem esys (tpm_is_available node0 node1) w
      ∙ ap (λ b. b && (esys.initialize w.dev).0) (available_lem node0 node1) in
    (
      (
        (probe_tpm esys (tpm_is_available node0 node1) w).1,
        rw (read_device_id_lem file plain) (rw found refl),
      ),
      ((probe_tpm esys (tpm_is_available node0 node1) w).1, rw found refl),
      omega (arith, length-trim (take 63 file), length-take 63 file),
    )
