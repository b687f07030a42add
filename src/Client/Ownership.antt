-- ===== src/Client/Ownership.antt =====
-- A client owns its blocks: what the calls of its life allocate, and that destroy frees all of it.
use sdk_native.Prelude.{
  ℕ, suc, ◌+◌, ◌<◌, ◌≡◌, refl, ap, ◌∙◌, List, [], ◌∷◌, Bool, true, false, Option, none, some,
  length, if◌then◌else◌, arith, ◌>>=◌, ==_iff, ne→==, Bool-cases, inl, inr,
}
use sdk_native.Client.{
  store_id, RootHeraldStatus, RootHeraldClient, Block, Heap, allocated, without, free_at,
  dup_or_null, create, free, destroy, set_application_id, set_mock_tpm,
}

-- A call on a client.
pub data Call : Type 0 where
  application_id : Option (List ℕ) → Call
  mock_tpm : Bool → Call

module _ (malloc : ℕ → Bool) (client_size : ℕ) where
  pub run : List Call → Option RootHeraldClient → Heap → Option (Option RootHeraldClient × Heap)
  run [] client heap = some (client, heap)
  run (Call.application_id id ∷ calls) client heap = do
    (status, client', heap') ← set_application_id malloc client_size client id heap
    run calls client' heap'
  run (Call.mock_tpm mock ∷ calls) client heap =
      let (status, client') = set_mock_tpm malloc client_size client mock in run calls client' heap

  -- What a program does with a client of its own: the blocks at the end.
  pub life : List Call → Heap → Option Heap
  life calls heap =
      let (client, heap1) = create malloc client_size heap in
      run calls client heap1 >>= λ used. destroy malloc client_size used.0 used.1

  -- The blocks of a client, the newest first, in front of `base`.
  abbrev id_blocks : Option Block → List ℕ → List ℕ
  id_blocks none base = base
  id_blocks (some block) base = block.address ∷ base

  abbrev held : Option RootHeraldClient → List ℕ → List ℕ
  held none base = base
  held (some client) base = id_blocks client.application_id (client.address ∷ base)

  -- The id was given before the next address.
  abbrev IsOlder : Option Block → ℕ → Type 0
  IsOlder none fresh = Unit {0}
  IsOlder (some block) fresh = block.address < fresh

  abbrev HasOlder : Option RootHeraldClient → ℕ → Type 0
  HasOlder none fresh = Unit {0}
  HasOlder (some client) fresh = IsOlder client.application_id fresh

  -- The heap holds the client's blocks and those that were there.
  abbrev Owns : List ℕ → Option RootHeraldClient → Heap → Type 0
  Owns base client heap = (heap.blocks ≡ held client base) × HasOlder client heap.fresh

  without-first : (p : ℕ) (blocks : List ℕ) → without p (p ∷ blocks) ≡ some blocks
  unfolding without
  without-first p blocks = rw ((==_iff p p).1 refl, without) refl

  without-second :
      (p q : ℕ) (blocks : List ℕ) → p < q → without p (q ∷ p ∷ blocks) ≡ some (q ∷ blocks)
  unfolding without
  without-second p q blocks h =
      rw (ne→== p q (λ e. absurd (omega arith)), without) (rw ((==_iff p p).1 refl, without) refl)

  -- The old id is freed behind the new one.
  free-old :
      (old : Option Block) (q next : ℕ) (base : List ℕ)
      → IsOlder old q
      → free malloc client_size old (record { blocks = q ∷ id_blocks old base; fresh = next })
        ≡ some (record { blocks = q ∷ base; fresh = next })
  unfolding free free_at
  free-old none q next base h = refl
  free-old (some block) q next base h = rw (without-second block.address q base h) refl

  free-id :
      (id : Option Block) (fresh : ℕ) (base : List ℕ)
      → free malloc client_size id (record { blocks = id_blocks id base; fresh = fresh })
        ≡ some (record { blocks = base; fresh = fresh })
  unfolding free free_at
  free-id none fresh base = refl
  free-id (some block) fresh base = rw (without-first block.address base) refl

  -- A result that owns its blocks.
  abbrev Kept : List ℕ → Option (Option RootHeraldClient × Heap) → Type 0
  Kept base result = (r : Option RootHeraldClient × Heap) × (result ≡ some r) × Owns base r.0 r.1

  abbrev KeptSet : List ℕ → Option (RootHeraldStatus × Option RootHeraldClient × Heap) → Type 0
  KeptSet base result =
      (r : RootHeraldStatus × Option RootHeraldClient × Heap) × (result ≡ some r)
      × Owns base r.1 r.2

  set_application_id-Kept :
      (client : Option RootHeraldClient) (id : Option (List ℕ)) (heap : Heap) (base : List ℕ)
      → Owns base client heap
      → KeptSet base (set_application_id malloc client_size client id heap)
  unfolding set_application_id dup_or_null
  set_application_id-Kept none id heap base h = (_, refl, h)
  set_application_id-Kept (some client) none heap base h = (_, refl, h)
  set_application_id-Kept (some client) (some id) heap base h = go (malloc (length id + 1))
    where
      go :
          (given : Bool)
          → KeptSet base (
              store_id malloc client_size client (
                if given
                then (some (record { address = heap.fresh; text = id }), allocated heap)
                else (none, heap)))
      go false = (_, refl, h)
      go true = rw h.0 (
          rw
            (free-old client.application_id heap.fresh (suc heap.fresh) (client.address ∷ base) h.1)
            (_, refl, (refl, omega arith)))

  run-Kept :
      (calls : List Call) (client : Option RootHeraldClient) (heap : Heap) (base : List ℕ)
      → Owns base client heap
      → Kept base (run calls client heap)
  unfolding run set_mock_tpm
  run-Kept [] client heap base h = (_, refl, h)
  run-Kept (Call.application_id id ∷ calls) client heap base h =
      let (r, e, k) = set_application_id-Kept client id heap base h in
      rw e (run-Kept calls r.1 r.2 base k)
  run-Kept (Call.mock_tpm mock ∷ calls) none heap base h = run-Kept calls none heap base h
  run-Kept (Call.mock_tpm mock ∷ calls) (some client) heap base h =
      run-Kept calls (some (record client { mock_tpm = mock })) heap base h

  destroy-blocks :
      (client : Option RootHeraldClient) (heap : Heap) (base : List ℕ)
      → heap.blocks ≡ held client base
      → (heap' : Heap) × (destroy malloc client_size client heap ≡ some heap')
        × (heap'.blocks ≡ base)
  unfolding destroy free_at
  destroy-blocks none heap base h = (heap, refl, h)
  destroy-blocks (some client) heap base h =
      let e : free malloc client_size client.application_id heap
          ≡ some (record { blocks = client.address ∷ base; fresh = heap.fresh }) =
        ap (λ bs. free malloc client_size client.application_id (record heap { blocks = bs })) h
        ∙ free-id client.application_id heap.fresh (client.address ∷ base) in
      rw e (rw (without-first client.address base) (_, refl, refl))

  create-Owns :
      (heap : Heap)
      → let (client, heap1) = create malloc client_size heap in Owns heap.blocks client heap1
  unfolding create
  create-Owns heap = elim (Bool-cases (malloc client_size)) [
    | inl given ↦ rw given (refl, tt)
    | inr refused ↦ rw refused (refl, tt)
  ]

  -- A client is created, used by any sequence of the two setters, and destroyed, whichever allocations
  -- fail: each block that is freed is allocated at that time, so none is freed twice, and at the end
  -- the heap holds the very blocks that it held before, so none is leaked and none of others is freed.
  pub create-run-destroy :
      (calls : List Call) (heap : Heap)
      → (heap' : Heap) × (life calls heap ≡ some heap') × (heap'.blocks ≡ heap.blocks)
  unfolding life
  create-run-destroy calls heap =
      let made = create malloc client_size heap in
      let (used, e, owns) = run-Kept calls made.0 made.1 heap.blocks (create-Owns heap) in
      rw e (destroy-blocks used.0 used.1 heap.blocks owns.0)
