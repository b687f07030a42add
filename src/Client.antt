-- ===== src/Client.antt =====
-- The public interface on Linux: linux/src/client/rootherald_client.c and rootherald_session.c.
-- A client is a block on the heap that owns the block of its application id. `none` is NULL, and
-- `none` around a result is a free of a block that is not allocated. The mutex is held from the first line to the last
-- of the setters and has no counterpart.
pub mod Ownership
use sdk_native.Prelude.{
  ℕ, suc, ◌+◌, ◌-◌, List, [], ◌∷◌, Bool, true, false, Option, none, some, length, String,
  if◌then◌else◌, ◌==◌, ◌>>=◌,
}

pub data RootHeraldStatus : Type 0 where
  rootherald_ok : RootHeraldStatus
  rootherald_err_invalid_arg : RootHeraldStatus
  rootherald_err_tpm_unavailable : RootHeraldStatus
  rootherald_err_network : RootHeraldStatus
  rootherald_err_server : RootHeraldStatus
  rootherald_err_quota_exceeded : RootHeraldStatus
  rootherald_err_not_enrolled : RootHeraldStatus
  rootherald_err_elevation_required : RootHeraldStatus
  rootherald_err_internal : RootHeraldStatus

-- A block of text: its address and what it holds.
pub record Block : Type 0 where
  pub address : ℕ
  pub text : List ℕ

-- `address` is the client's own block.
pub record RootHeraldClient : Type 0 where
  pub address : ℕ
  pub application_id : Option Block
  pub mock_tpm : Bool

-- The addresses of the blocks that are allocated and not freed, and an address above all that were
-- given.
pub record Heap : Type 0 where
  pub blocks : List ℕ
  pub fresh : ℕ

abbrev pub allocated : Heap → Heap
allocated heap = record { blocks = heap.fresh ∷ heap.blocks; fresh = suc heap.fresh }

-- The blocks without the one at the address; `none` where there is none.
pub without : ℕ → List ℕ → Option (List ℕ)
without p [] = none
without p (q ∷ blocks) = elim (p == q) [
  | true ↦ some blocks
  | false ↦ without p blocks >>= λ rest. some (q ∷ rest)
]

unfoldable pub free_at : ℕ → Heap → Option Heap
free_at p heap = without p heap.blocks >>= λ rest. some (record heap { blocks = rest })

-- `malloc` tells whether an allocation of that many bytes succeeds.
module _ (malloc : ℕ → Bool) (client_size : ℕ) where
  pub dup_or_null : Option (List ℕ) → Heap → Option Block × Heap
  dup_or_null none heap = (none, heap)
  dup_or_null (some s) heap =
      if malloc (length s + 1)
      then (some (record { address = heap.fresh; text = s }), allocated heap)
      else (none, heap)

  pub create : Heap → Option RootHeraldClient × Heap
  create heap =
      if malloc client_size
      then (
        some (record { address = heap.fresh; application_id = none; mock_tpm = false }),
        allocated heap,
      )
      else (none, heap)

  -- free(p), which does nothing for NULL.
  pub free : Option Block → Heap → Option Heap
  free none heap = some heap
  free (some block) heap = free_at block.address heap

  pub destroy : Option RootHeraldClient → Heap → Option Heap
  destroy none heap = some heap
  destroy (some client) heap = do
    heap1 ← free client.application_id heap
    free_at client.address heap1

  -- The end of SetApplicationId, for what strdup gave.
  abbrev pub store_id :
      RootHeraldClient
      → Option Block × Heap
      → Option (RootHeraldStatus × Option RootHeraldClient × Heap)
  store_id client (none, heap) = some (RootHeraldStatus.rootherald_err_internal, some client, heap)
  store_id client (some block, heap) = do
    heap1 ← free client.application_id heap
    some (
      RootHeraldStatus.rootherald_ok,
      some (record client { application_id = some block }),
      heap1,
    )

  pub set_application_id :
      Option RootHeraldClient
      → Option (List ℕ)
      → Heap
      → Option (RootHeraldStatus × Option RootHeraldClient × Heap)
  set_application_id none app_id heap =
      some (RootHeraldStatus.rootherald_err_invalid_arg, none, heap)
  set_application_id (some client) none heap =
      some (RootHeraldStatus.rootherald_err_invalid_arg, some client, heap)
  set_application_id (some client) (some app_id) heap =
      store_id client (dup_or_null (some app_id) heap)

  pub set_mock_tpm : Option RootHeraldClient → Bool → RootHeraldStatus × Option RootHeraldClient
  set_mock_tpm none mock_enabled = (RootHeraldStatus.rootherald_err_invalid_arg, none)
  set_mock_tpm (some client) mock_enabled =
      (RootHeraldStatus.rootherald_ok, some (record client { mock_tpm = mock_enabled }))

-- The entry points that are not implemented on Linux: the status, and what `*out` becomes. `has_out`
-- tells whether `out` is a pointer; `*out` is set to NULL before the arguments are tested.
abbrev Refusal : Type 0
Refusal = RootHeraldStatus × Option (Option (List ℕ))

abbrev out_null : Bool → Option (Option (List ℕ))
out_null has_out = if has_out then some none else none

-- `nonce_b64` and `nonce_b64[0]`
abbrev is_given : Option (List ℕ) → Bool
is_given none = false
is_given (some []) = false
is_given (some (c ∷ s)) = true

unfoldable pub collect_evidence : Option (List ℕ) → Bool → Refusal
collect_evidence nonce_b64 has_out =
    if is_given nonce_b64
    then (if has_out
        then (RootHeraldStatus.rootherald_err_internal, out_null has_out)
        else (RootHeraldStatus.rootherald_err_invalid_arg, out_null has_out))
    else (RootHeraldStatus.rootherald_err_invalid_arg, out_null has_out)

unfoldable pub enroll_begin : Option RootHeraldClient → Bool → Refusal
enroll_begin none has_out = (RootHeraldStatus.rootherald_err_invalid_arg, out_null has_out)
enroll_begin (some client) false = (RootHeraldStatus.rootherald_err_invalid_arg, out_null false)
enroll_begin (some client) true = (RootHeraldStatus.rootherald_err_internal, out_null true)

unfoldable pub enroll_complete : Option RootHeraldClient → Option (List ℕ) → Bool → Refusal
enroll_complete none challenge_json has_out =
    (RootHeraldStatus.rootherald_err_invalid_arg, out_null has_out)
enroll_complete (some client) challenge_json false =
    (RootHeraldStatus.rootherald_err_invalid_arg, out_null false)
enroll_complete (some client) challenge_json true =
    if is_given challenge_json
    then (RootHeraldStatus.rootherald_err_internal, out_null true)
    else (RootHeraldStatus.rootherald_err_invalid_arg, out_null true)
