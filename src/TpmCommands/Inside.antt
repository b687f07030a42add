-- ===== src/TpmCommands/Inside.antt =====
-- The reads of the TPM commands: which operations stay inside of every response.
use sdk_native.Prelude.{
  ◌∙◌, ap, ℕ, zero, suc, ◌+◌, ◌≤◌, ◌<◌, ◌≡◌, refl, List, [], Bool, true, false, ◌&&◌, ◌||◌, Option,
  none, some, length, ltb, leb, ◌==◌, ◌>>=◌, arith, Inside, Inside-if, Inside->>=, Inside-test,
  get_elem?-inside, ltb→le, Bool-cases, inl, inr,
}
use sdk_native.TpmCommands.{TpmCommands, Tbs, is_success}
use sdk_native.TpmCommands.Pcr.{
  skip_selections, first_digest, pcr_digest, pcr_read, split_quote, quote,
}
use sdk_native.TpmCommands.Keys.{is_persistent_present, evict_once, evict_control}
use sdk_native.TpmCommands.Nv.{nv_data_size, nv_piece}
use sdk_native.TpmCommands.Words.{
  read_u16-Inside, read_u32-Inside, slice-Inside, is_success-Inside, is_success-length,
}

-- What is read after a success may use the response's length.
after_success {ℓ} :
    {A : Type ℓ} (n : ℕ) (resp : List ℕ) (f : Bool → Option A)
    → 10 ≤ n
    → (n ≤ length resp → Inside (f true))
    → Inside (f false)
    → Inside (is_success n resp >>= f)
after_success n resp f h on off =
    let (ok, e) = is_success-Inside n resp h in
    rw e (elim (Bool-cases ok) [
      | inl good ↦ rw good (on (is_success-length n resp (e ∙ ap some good)))
      | inr bad ↦ rw bad off
    ])

leb→le : (a b : ℕ) → leb a b ≡ true → a ≤ b
leb→le a b h = ground arith

leb→lt : (a b : ℕ) → leb a b ≡ false → b < a
leb→lt a b h = ground arith

and_second : (a b : Bool) → (a && b) ≡ true → b ≡ true
and_second true b h = h
and_second false b h = cc

or_both : (a b : Bool) → (a || b) ≡ false → (a ≡ false) × (b ≡ false)
or_both true b h = cc
or_both false b h = (refl, h)

skip_selections-Inside :
    (resp : List ℕ) (count offset : ℕ) → Inside (skip_selections resp count offset)
unfolding skip_selections
skip_selections-Inside resp zero offset = (_, refl)
skip_selections-Inside resp (suc count) offset =
    Inside-test (leb (length resp) (offset + 2)) (λ _. (_, refl))
      λ more.
        Inside->>= _ (get_elem?-inside resp (offset + 2) (leb→lt _ _ more))
          λ size. skip_selections-Inside resp count (offset + 2 + (1 + size))

first_digest-Inside : (resp : List ℕ) (offset : ℕ) → Inside (first_digest resp offset)
unfolding first_digest
first_digest-Inside resp offset =
    Inside-test (ltb (length resp) (offset + 4)) (λ _. (_, refl))
      λ fits.
        Inside->>= _ (read_u32-Inside resp offset (ltb→le (length resp) (offset + 4) fits)) λ count.
          Inside-test (ltb 0 count && leb (offset + 4 + 2) (length resp))
            (λ both.
              Inside->>= _ (read_u16-Inside resp (offset + 4) (leb→le _ _ (and_second _ _ both)))
                λ size.
                  Inside-test (leb (offset + 4 + 2 + size) (length resp))
                    (λ room. slice-Inside resp (offset + 4 + 2) size (leb→le _ _ room))
                    λ _. (_, refl))
            λ _. (_, refl)

pcr_digest-Inside : (resp : List ℕ) → Inside (pcr_digest resp)
unfolding pcr_digest
pcr_digest-Inside resp =
    after_success 10 resp _ (omega arith)
      (λ _.
        Inside-test (ltb (length resp) 18) (λ _. (_, refl))
          λ fits.
            Inside->>= _ (read_u32-Inside resp 14 (ltb→le (length resp) 18 fits))
              λ count. Inside->>= _ (skip_selections-Inside resp count 18) λ end. at_end end)
      (_, refl)
  where
    at_end :
        (end : Option ℕ)
        → Inside (elim end [ none ↦ some [] | some offset ↦ first_digest resp offset ])
    at_end none = (_, refl)
    at_end (some offset) = first_digest-Inside resp offset

split_quote-Inside : (resp old : List ℕ) → Inside (split_quote resp old)
unfolding split_quote
split_quote-Inside resp old =
    after_success 10 resp _ (omega arith)
      (λ _.
        Inside-test (ltb (length resp) 16) (λ _. (_, refl))
          λ fits.
            let room = ltb→le (length resp) 16 fits in
            Inside->>= _ (read_u32-Inside resp 10 (omega arith)) λ _.
              Inside->>= _ (read_u16-Inside resp 14 (omega arith)) λ size.
                Inside-test (ltb (length resp) (16 + size)) (λ _. (_, refl))
                  λ whole.
                    Inside->>= _
                      (slice-Inside resp 16 size (ltb→le (length resp) (16 + size) whole))
                      λ _. (_, refl))
      (_, refl)

nv_data_size-Inside : (resp : List ℕ) → Inside (nv_data_size resp)
unfolding nv_data_size
nv_data_size-Inside resp =
    after_success 10 resp _ (omega arith)
      (λ _.
        Inside-test (ltb (length resp) 12) (λ _. (_, refl))
          λ fits. Inside->>= _ (read_u16-Inside resp 10 (ltb→le (length resp) 12 fits)) λ size.
            Inside-test (ltb (length resp) (12 + size) || ltb (length resp) 24) (λ _. (_, refl))
              λ both.
                let room = ltb→le (length resp) 24 (or_both _ _ both).1 in
                Inside->>= _ (read_u16-Inside resp 22 (omega arith)) λ policy.
                  Inside-test (ltb (length resp) (24 + policy + 2)) (λ _. (_, refl))
                    λ last.
                      Inside->>= _
                        (read_u16-Inside resp (24 + policy)
                          (ltb→le (length resp) (24 + policy + 2) last))
                        λ _. (_, refl))
      (_, refl)

nv_piece-Inside : (resp : List ℕ) → Inside (nv_piece resp)
unfolding nv_piece
nv_piece-Inside resp =
    after_success 10 resp _ (omega arith)
      (λ _.
        Inside-test (ltb (length resp) 16) (λ _. (_, refl))
          λ fits. Inside->>= _ (read_u16-Inside resp 14 (ltb→le (length resp) 16 fits)) λ size.
            Inside-test (size == 0 || ltb (length resp) (16 + size)) (λ _. (_, refl))
              λ both.
                Inside->>= _
                  (slice-Inside resp 16 size
                    (ltb→le (length resp) (16 + size) (or_both _ _ both).1))
                  λ _. (_, refl))
      (_, refl)

evict_once-Inside :
    (tbs : Tbs) (object handle : ℕ) (t : TpmCommands) → Inside (evict_once tbs object handle t)
unfolding evict_once
evict_once-Inside tbs object handle t =
    Inside->>= _ (is_success-Inside 10 _ (omega arith)) λ _. (_, refl)

evict_control-Inside :
    (tbs : Tbs) (transient persistent : ℕ) (t : TpmCommands)
    → Inside (evict_control tbs transient persistent t)
unfolding evict_control is_persistent_present
evict_control-Inside tbs transient persistent t =
    Inside->>= _ (Inside->>= _ (is_success-Inside 10 _ (omega arith)) λ _. (_, refl)) λ r.
      Inside->>= _ (Inside-if r.0 (evict_once-Inside tbs persistent persistent r.1) (_, refl))
        λ s. Inside-if s.0 (evict_once-Inside tbs transient persistent s.1) (_, refl)

-- Whatever the TPM answers, PcrRead, Quote and EvictControl give a result, without a read behind the
-- end of a response.
pub responses-Inside :
    (tbs : Tbs) (t : TpmCommands) (pcr_index ak_handle : ℕ) (nonce indices old_signature : List ℕ)
    (transient persistent : ℕ)
    → Inside (pcr_read tbs pcr_index t)
      × Inside (quote tbs ak_handle nonce indices old_signature t)
      × Inside (evict_control tbs transient persistent t)
unfolding pcr_read quote
responses-Inside tbs t pcr_index ak_handle nonce indices old transient persistent = (
  Inside->>= _ (pcr_digest-Inside _) λ _. (_, refl),
  Inside->>= _ (split_quote-Inside _ old) λ _. (_, refl),
  evict_control-Inside tbs transient persistent t,
)
