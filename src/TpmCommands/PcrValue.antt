-- ===== src/TpmCommands/PcrValue.antt =====
-- PcrRead on a response that is well formed: it gives the first digest.
use sdk_native.Prelude.{
  ℕ, ◌+◌, ◌^◌, ◌≤◌, ◌<◌, ◌≡◌, refl, ap, sym, ◌∙◌, List, [], ◌∷◌, ◌++◌, true, some, length, arith,
  length-append, append_assoc, lt→ltb, le→ltb, le→leb, lt→leb, get_elem?, get_elem?-append,
}
use sdk_native.TpmCommands.{
  TpmCommands, Tbs, is_success, write_u16, write_u32, read_u16, read_u32, slice,
}
use sdk_native.TpmCommands.Pcr.{
  skip_selections, first_digest, pcr_digest, pcr_read_command, pcr_read,
}
use sdk_native.TpmCommands.Words.{
  success, success-is_success, u16_at, u32_at, u32_in, slice_at, length-write_u16, length-write_u32,
  success_split, length-before,
}
use sdk_native.TpmCommands.Sessions.{send_open, answer_to, sent_also}

-- A selection: its hash and its bytes.
abbrev pub Selection : Type 0
Selection = ℕ × List ℕ

pub selection_bytes : Selection → List ℕ
selection_bytes s = write_u16 s.0 ++ (length s.1 ∷ s.1)

pub selections_bytes : List Selection → List ℕ
selections_bytes [] = []
selections_bytes (s ∷ selections) = selection_bytes s ++ selections_bytes selections

length-selection_bytes : (s : Selection) → length (selection_bytes s) ≡ 3 + length s.1
unfolding selection_bytes
length-selection_bytes s =
    omega (arith, length-append (write_u16 s.0) (length s.1 ∷ s.1), length-write_u16 s.0)

select_size_at :
    (xs : List ℕ) (s : Selection) (rest : List ℕ) (i : ℕ)
    → i ≡ length xs
    → get_elem? (xs ++ (selection_bytes s ++ rest)) (i + 2) ≡ some (length s.1)
unfolding selection_bytes write_u16
select_size_at xs s rest i e = get_elem?-append xs (selection_bytes s ++ rest) i 2 (i + 2) e refl

skip_selections_lem :
    (xs : List ℕ) (selections : List Selection) (rest : List ℕ) (offset : ℕ)
    → offset ≡ length xs
    → skip_selections (xs ++ (selections_bytes selections ++ rest)) (length selections) offset
      ≡ some (some (offset + length (selections_bytes selections)))
unfolding skip_selections selections_bytes
skip_selections_lem xs [] rest offset e = ap (λ k. some (some k)) (omega arith)
skip_selections_lem xs (s ∷ selections) rest offset e =
    let more = selections_bytes selections ++ rest in
    let one = selection_bytes s in
    let here = xs ++ (one ++ more) in
    let e1 : xs ++ ((one ++ selections_bytes selections) ++ rest) ≡ here =
      ap (λ t. xs ++ t) (append_assoc one (selections_bytes selections) rest) in
    let sizes = length-append xs (one ++ more) in
    let sizes' = length-append one more in
    let one_size = length-selection_bytes s in
    let there =
      skip_selections_lem (xs ++ one) selections rest (offset + 2 + (1 + length s.1))
        (omega (arith, e, length-append xs one, one_size)) in
    let total = length-append one (selections_bytes selections) in
    rw e1 (
      rw (lt→leb (length here) (offset + 2) (omega (arith, sizes, sizes', one_size))) (
        rw (select_size_at xs s more offset e) (
          ap (λ r. skip_selections r (length selections) (offset + 2 + (1 + length s.1)))
            (e1 ∙ sym (append_assoc xs one more))
          ∙ there
          ∙ ap (λ k. some (some k)) (omega (arith, total, one_size)))))

first_digest_lem :
    (xs digest rest : List ℕ) (count offset : ℕ)
    → offset ≡ length xs
    → 0 < count
    → count < 2 ^ 32
    → length digest < 2 ^ 16
    → first_digest
        (xs ++ (write_u32 count ++ (write_u16 (length digest) ++ (digest ++ rest))))
        offset
      ≡ some digest
unfolding first_digest
first_digest_lem xs digest rest count offset e some_digest small small' =
    let n = length digest in
    let d = digest ++ rest in
    let c = write_u32 count in
    let w = write_u16 n in
    let resp = xs ++ (c ++ (w ++ d)) in
    let e1 : resp ≡ (xs ++ c) ++ (w ++ d) = sym (append_assoc xs c (w ++ d)) in
    let e2 : resp ≡ ((xs ++ c) ++ w) ++ d = e1 ∙ sym (append_assoc (xs ++ c) w d) in
    let size : length resp ≡ offset + 6 + n + length rest = omega (
      arith,
      e,
      length-append xs (c ++ (w ++ d)),
      length-append c (w ++ d),
      length-append w d,
      length-append digest rest,
      length-write_u32 count,
      length-write_u16 n,
    ) in
    let at4 = length-append xs c in
    let at6 = length-append (xs ++ c) w in
    let four = length-write_u32 count in
    let two = length-write_u16 n in
    let size_read =
      ap (λ r. read_u16 r (offset + 4)) e1
      ∙ u16_at (xs ++ c) n d (offset + 4) (omega (arith, e, at4, four)) small' in
    let bytes_read =
      ap (λ r. slice r (offset + 4 + 2) n) e2
      ∙ slice_at ((xs ++ c) ++ w) digest rest (offset + 4 + 2)
          (omega (arith, e, at4, at6, four, two)) in
    rw (le→ltb (length resp) (offset + 4) (omega (arith, size))) (
      rw (u32_at xs count (w ++ d) offset e small) (
        rw (lt→ltb 0 count some_digest) (
          rw (le→leb (offset + 4 + 2) (length resp) (omega (arith, size))) (
            rw size_read
              (rw (le→leb (offset + 4 + 2 + n) (length resp) (omega (arith, size))) bytes_read)))))

-- The body of the response: the update counter, the selections, and the digests, of which the first
-- is given.
pub record PcrValues : Type 0 where
  pub head : List ℕ
  pub counter : List ℕ
  pub selections : List Selection
  pub digest_count : ℕ
  pub digest : List ℕ
  pub others : List ℕ

pub record IsPcrValues (v : PcrValues) : Type 0 where
  pub head_size : length v.head ≡ 6
  pub counter_size : length v.counter ≡ 4
  pub selections_fit : length v.selections < 2 ^ 32
  pub some_digest : 0 < v.digest_count
  pub count_fits : v.digest_count < 2 ^ 32
  pub digest_fits : length v.digest < 2 ^ 16

digests_bytes : PcrValues → List ℕ
digests_bytes v =
    write_u32 v.digest_count ++ (write_u16 (length v.digest) ++ (v.digest ++ v.others))

values_body : PcrValues → List ℕ
values_body v =
    v.counter
    ++ (write_u32 (length v.selections) ++ (selections_bytes v.selections ++ digests_bytes v))

pub values_response : PcrValues → List ℕ
values_response v = success v.head (values_body v)

-- Where the selections end.
before_digests : PcrValues → List ℕ
before_digests v =
    (v.head ++ (write_u32 0 ++ (v.counter ++ write_u32 (length v.selections))))
    ++ selections_bytes v.selections

selections_start :
    (v : PcrValues)
    → values_response v
      ≡ (v.head ++ (write_u32 0 ++ (v.counter ++ write_u32 (length v.selections))))
        ++ (selections_bytes v.selections ++ digests_bytes v)
unfolding values_response values_body
selections_start v =
    ap (λ t. success v.head t) (sym (append_assoc v.counter (write_u32 (length v.selections)) _))
    ∙ success_split v.head (v.counter ++ write_u32 (length v.selections)) _

digests_start : (v : PcrValues) → values_response v ≡ before_digests v ++ digests_bytes v
unfolding before_digests
digests_start v =
    selections_start v
    ∙ sym (
        append_assoc (v.head ++ (write_u32 0 ++ (v.counter ++ write_u32 (length v.selections))))
          (selections_bytes v.selections) (digests_bytes v))

ends :
    (v : PcrValues)
    → 18 ≡ length (v.head ++ (write_u32 0 ++ (v.counter ++ write_u32 (length v.selections))))
    → 18 + length (selections_bytes v.selections) ≡ length (before_digests v)
unfolding before_digests
ends v start = omega (
  arith,
  start,
  length-append (v.head ++ (write_u32 0 ++ (v.counter ++ write_u32 (length v.selections))))
      (selections_bytes v.selections),
)

is_good :
    (v : PcrValues)
    → IsPcrValues v
    → 18 ≤ length (values_response v)
    → is_success 10 (values_response v) ≡ some true
unfolding values_response
is_good v ok size = success-is_success 10 v.head (values_body v) ok.head_size (omega arith)

count_at :
    (v : PcrValues) → IsPcrValues v → read_u32 (values_response v) 14 ≡ some (length v.selections)
unfolding values_response values_body
count_at v ok =
    u32_in v.head v.counter (length v.selections) (selections_bytes v.selections ++ digests_bytes v)
      14 ok.head_size (omega (arith, ok.counter_size)) ok.selections_fit

digest_at :
    (v : PcrValues)
    → IsPcrValues v
    → {offset : ℕ} → offset ≡ length (before_digests v)
    → first_digest (before_digests v ++ digests_bytes v) offset ≡ some v.digest
unfolding digests_bytes
digest_at v ok {offset} e =
    first_digest_lem (before_digests v) v.digest v.others v.digest_count offset e ok.some_digest
      ok.count_fits ok.digest_fits

pcr_digest_lem : (v : PcrValues) → IsPcrValues v → pcr_digest (values_response v) ≡ some v.digest
unfolding pcr_digest
pcr_digest_lem v ok =
    let resp = values_response v in
    let count = length v.selections in
    let xs = v.head ++ (write_u32 0 ++ (v.counter ++ write_u32 count)) in
    let before = length-before v.head (v.counter ++ write_u32 count) ok.head_size in
    let counted = length-append v.counter (write_u32 count) in
    let start : 18 ≡ length xs =
      omega (arith, before, counted, ok.counter_size, length-write_u32 count) in
    let total = length (selections_bytes v.selections) in
    let end : 18 + total ≡ length (before_digests v) = ends v start in
    let size : 18 ≤ length resp = omega (
      arith,
      ap (λ r. length r) (selections_start v),
      length-append xs (selections_bytes v.selections ++ digests_bytes v),
      start,
    ) in
    let good = is_good v ok size in
    let counted_at : read_u32 resp 14 ≡ some count = count_at v ok in
    let skipped : skip_selections resp count 18 ≡ some (some (18 + total)) =
      ap (λ r. skip_selections r count 18) (selections_start v)
      ∙ skip_selections_lem xs v.selections (digests_bytes v) 18 start in
    let found : first_digest resp (18 + total) ≡ some v.digest =
      ap (λ r. first_digest r (18 + total)) (digests_start v) ∙ digest_at v ok end in
    rw good (rw (le→ltb (length resp) 18 size) (rw counted_at (rw skipped found)))

-- Over an open context, PcrRead gives the first digest of a well-formed answer, whatever selections
-- stand before it.
pub pcr_read_lem :
    (tbs : Tbs) (pcr_index : ℕ) (t : TpmCommands) (v : PcrValues)
    → t.is_open ≡ true
    → IsPcrValues v
    → answer_to tbs (pcr_read_command pcr_index) t ≡ values_response v
    → pcr_read tbs pcr_index t ≡ some (v.digest, sent_also (pcr_read_command pcr_index) t)
unfolding pcr_read
pcr_read_lem tbs pcr_index t v h ok answered =
    rw (send_open tbs (pcr_read_command pcr_index) t h)
      (rw answered (rw (pcr_digest_lem v ok) refl))
