-- ===== src/Protocol.antt =====
-- The result codes and the structs of common/protocol.h. A char array is the text that it holds.
use sdk_native.Prelude.{ℕ, List, Bool, true, false}

pub data RootHeraldResult : Type 0 where
  rh_proto_ok : RootHeraldResult
  rh_proto_err_no_tpm : RootHeraldResult
  rh_proto_err_enrollment_failed : RootHeraldResult
  rh_proto_err_attestation_failed : RootHeraldResult
  rh_proto_err_network : RootHeraldResult
  rh_proto_err_internal : RootHeraldResult
  rh_proto_err_not_enrolled : RootHeraldResult
  rh_proto_err_invalid_param : RootHeraldResult
  rh_proto_err_already_enrolled : RootHeraldResult
  rh_proto_err_elevation_required : RootHeraldResult

-- `result == RH_PROTO_OK`
abbrev pub is_ok : RootHeraldResult → Bool
is_ok RootHeraldResult.rh_proto_ok = true
is_ok _ = false

pub record RootHeraldEnrollmentInfo : Type 0 where
  pub device_id : List ℕ
  pub credential_blob : List ℕ
  pub encrypted_secret : List ℕ

pub record RootHeraldAttestationInfo : Type 0 where
  pub session_id : List ℕ
  pub status : List ℕ
  pub authorization_code : List ℕ
  pub redirect_uri : List ℕ
  pub failure_reason : List ℕ

pub record RootHeraldDeviceStatus : Type 0 where
  pub is_enrolled : Bool
  pub device_id : List ℕ
  pub platform : List ℕ
  pub has_tpm : Bool
