-- ===== src/TpmCommands/NvArea.antt =====
-- ReadNvCertificate against a TPM that serves an NV area: it reads the whole area.
use sdk_native.Prelude.{
  ℕ, zero, suc, ◌+◌, ◌-◌, ◌^◌, ◌≤◌, ◌<◌, min, ◌≡◌, refl, ap, sym, ◌∙◌, List, [], ◌∷◌, ◌++◌, true,
  some, length, take, drop, ltb, arith, length-append, length-take, length-drop, take_add, take_all,
  le→ltb, ltb→le, ltb→lt, Bool-cases, inl, inr, ne→==, append_assoc,
}
use sdk_native.Prelude.Bits.{u16}
use sdk_native.TpmCommands.{TpmCommands, Tbs, set_size, or_empty, write_u16, read_u16, slice}
use sdk_native.TpmCommands.Nv.{
  nv_read_public_command, nv_data_size, k_chunk, nv_read_command, nv_piece, nv_read_loop, nv_result,
  read_nv_certificate,
}
use sdk_native.TpmCommands.Words.{
  success, success-is_success, u16_in, slice_in, length-success, length-write_u16,
}
use sdk_native.TpmCommands.Sessions.{send_open, sent_also, answer_to}

-- The body of the answer to NV_ReadPublic: the public area with its policy and its data size, and
-- the name.
pub public_body : List ℕ → List ℕ → ℕ → List ℕ → List ℕ
public_body fixed policy data_size name =
    write_u16 (14 + length policy)
    ++ (fixed ++ (write_u16 (length policy) ++ (policy ++ (write_u16 data_size ++ name))))

-- The body of the answer to NV_Read: the parameter size, the piece, and the sessions.
pub piece_body : List ℕ → List ℕ → List ℕ → List ℕ
piece_body param_size piece sessions =
    param_size ++ (write_u16 (length piece) ++ (piece ++ sessions))

-- The parts of one answer to NV_ReadPublic and to NV_Read that the reader passes over; the head is the
-- tag and the size of the response.
pub record PublicParts : Type 0 where
  pub head : List ℕ
  pub fixed : List ℕ
  pub policy : List ℕ
  pub name : List ℕ
  pub head_size : length head ≡ 6
  pub fixed_size : length fixed ≡ 10
  pub policy_size : length policy < 2 ^ 15

pub record PieceParts : Type 0 where
  pub head : List ℕ
  pub param_size : List ℕ
  pub sessions : List ℕ
  pub head_size : length head ≡ 6
  pub param_size_size : length param_size ≡ 4

-- A TPM that holds the area at the index and gives `most` bytes of it at once, at the most. Each
-- answer has its own parts.
pub record Serves (tbs : Tbs) (nv_index most : ℕ) (area : List ℕ) : Type 0 where
  pub tells_size :
      (sent : List (List ℕ))
      → (p : PublicParts) × (tbs sent (set_size (nv_read_public_command nv_index))
          ≡ some (success p.head (public_body p.fixed p.policy (length area) p.name)))
  pub gives_piece :
      (sent : List (List ℕ)) (offset : ℕ)
      → offset < length area
      → (p : PieceParts) × (tbs sent
            (set_size (nv_read_command nv_index (min (length area - offset) k_chunk) offset))
          ≡ some (
              success p.head (
                piece_body p.param_size
                  (take (min (min (length area - offset) k_chunk) most) (drop offset area))
                  p.sessions)))

read_policy_size :
    (head fixed policy tail : List ℕ)
    → length head ≡ 6
    → length fixed ≡ 10
    → length policy < 2 ^ 15
    → read_u16
        (success head (
          write_u16 (14 + length policy)
          ++ (fixed ++ (write_u16 (length policy) ++ (policy ++ tail)))))
        22
      ≡ some (length policy)
read_policy_size head fixed policy tail h f p =
    let a = write_u16 (14 + length policy) in
    let b = write_u16 (length policy) ++ (policy ++ tail) in
    ap (λ t. read_u16 (success head t) 22) (sym (append_assoc a fixed b))
    ∙ u16_in head (a ++ fixed) (length policy) (policy ++ tail) 22 h
        (omega (arith, f, length-append a fixed, length-write_u16 (14 + length policy)))
        (omega arith)

read_data_size :
    (head fixed policy name : List ℕ) (data_size : ℕ)
    → length head ≡ 6
    → length fixed ≡ 10
    → data_size < 2 ^ 16
    → read_u16 (success head (public_body fixed policy data_size name)) (24 + length policy)
      ≡ some data_size
unfolding public_body
read_data_size head fixed policy name data_size h f d =
    let n = length policy in
    let a = write_u16 (14 + n) in
    let b = write_u16 n in
    let tail = write_u16 data_size ++ name in
    let e : a ++ (fixed ++ (b ++ (policy ++ tail))) ≡ (a ++ (fixed ++ (b ++ policy))) ++ tail =
      ap (λ t. a ++ (fixed ++ t)) (sym (append_assoc b policy tail))
      ∙ ap (λ t. a ++ t) (sym (append_assoc fixed (b ++ policy) tail))
      ∙ sym (append_assoc a (fixed ++ (b ++ policy)) tail) in
    ap (λ t. read_u16 (success head t) (24 + n)) e
    ∙ u16_in head (a ++ (fixed ++ (b ++ policy))) data_size name (24 + n) h
        (omega (
          arith,
          f,
          length-write_u16 (14 + n),
          length-write_u16 n,
          length-append a (fixed ++ (b ++ policy)),
          length-append fixed (b ++ policy),
          length-append b policy,
        ))
        d

read_piece :
    (head param_size piece sessions : List ℕ)
    → length head ≡ 6
    → length param_size ≡ 4
    → slice
        (success head (param_size ++ (write_u16 (length piece) ++ (piece ++ sessions))))
        16
        (length piece)
      ≡ some piece
read_piece head param_size piece sessions h k =
    let w = write_u16 (length piece) in
    ap (λ t. slice (success head t) 16 (length piece))
      (sym (append_assoc param_size w (piece ++ sessions)))
    ∙ slice_in head (param_size ++ w) piece sessions 16 h
        (omega (arith, k, length-append param_size w, length-write_u16 (length piece)))

nv_data_size_lem :
    (head fixed policy name : List ℕ) (data_size : ℕ)
    → length head ≡ 6
    → length fixed ≡ 10
    → length policy < 2 ^ 15
    → 0 < data_size
    → data_size < 2 ^ 16
    → nv_data_size (success head (public_body fixed policy data_size name)) ≡ some (some data_size)
unfolding nv_data_size public_body
nv_data_size_lem head fixed policy name data_size h f p d d' =
    let n = length policy in
    let tail = write_u16 data_size ++ name in
    let body = public_body fixed policy data_size name in
    let two = length-write_u16 (14 + n) in
    let e1 = length-append (write_u16 (14 + n)) (fixed ++ (write_u16 n ++ (policy ++ tail))) in
    let e2 = length-append fixed (write_u16 n ++ (policy ++ tail)) in
    let e3 = length-append (write_u16 n) (policy ++ tail) in
    let e4 = length-append policy tail in
    let e5 = length-append (write_u16 data_size) name in
    let size : length body ≡ 16 + n + length name =
      omega (arith, two, e1, e2, e3, e4, e5, f, length-write_u16 n, length-write_u16 data_size) in
    let whole : length (success head body) ≡ 26 + n + length name =
      omega (arith, length-success head body h, size) in
    rw (success-is_success 10 head body h (omega arith)) (
      rw (le→ltb (length (success head body)) 12 (omega (arith, whole))) (
        rw
          (u16_in head [] (14 + n) (fixed ++ (write_u16 n ++ (policy ++ tail))) 10 h refl
            (omega arith))
          (rw (le→ltb (length (success head body)) (12 + (14 + n)) (omega (arith, whole))) (
            rw (le→ltb (length (success head body)) 24 (omega (arith, whole))) (
              rw (read_policy_size head fixed policy tail h f p) (
                rw (le→ltb (length (success head body)) (24 + n + 2) (omega (arith, whole))) (
                  rw (read_data_size head fixed policy name data_size h f d')
                    (rw (ne→== data_size 0 (omega arith)) refl))))))))

nv_piece_lem :
    (head param_size piece sessions : List ℕ)
    → length head ≡ 6
    → length param_size ≡ 4
    → 0 < length piece
    → length piece < 2 ^ 16
    → nv_piece (success head (piece_body param_size piece sessions)) ≡ some (some piece)
unfolding nv_piece piece_body
nv_piece_lem head param_size piece sessions h k positive small =
    let n = length piece in
    let body = piece_body param_size piece sessions in
    let e1 = length-append param_size (write_u16 n ++ (piece ++ sessions)) in
    let e2 = length-append (write_u16 n) (piece ++ sessions) in
    let e3 = length-append piece sessions in
    let size : length (success head body) ≡ 16 + n + length sessions =
      omega (arith, length-success head body h, e1, e2, e3, k, length-write_u16 n) in
    rw (success-is_success 10 head body h (omega arith)) (
      rw (le→ltb (length (success head body)) 16 (omega (arith, size))) (
        rw (u16_in head param_size n (piece ++ sessions) 14 h (omega arith) small) (
          rw (ne→== n 0 (omega arith)) (
            rw (le→ltb (length (success head body)) (16 + n) (omega (arith, size)))
              (rw (read_piece head param_size piece sessions h k) refl)))))

non_empty : (area : List ℕ) → 0 < length area → nv_result (some area) ≡ (true, area)
non_empty [] h = absurd (omega arith)
non_empty (b ∷ area) h = refl

-- The loop from an offset on, with the bytes before it read.
nv_read_loop_lem :
    (tbs : Tbs) (nv_index most : ℕ) (area : List ℕ)
    → Serves tbs nv_index most area
    → 0 < most
    → length area < 2 ^ 16
    → (fuel offset : ℕ) (t : TpmCommands) → t.is_open ≡ true
    → offset ≤ length area
    → length area - offset < fuel
    → (t' : TpmCommands) × (nv_read_loop tbs nv_index fuel (length area) offset (take offset area) t
        ≡ some (some area, t'))
unfolding nv_read_loop
nv_read_loop_lem tbs nv_index most area s pos small zero offset t h within enough =
    absurd (omega arith)
nv_read_loop_lem tbs nv_index most area s pos small (suc fuel) offset t h within enough =
    elim (Bool-cases (ltb offset (length area))) [
      | inr finished ↦
          let all = ltb→le offset (length area) finished in
          rw finished (t, ap (λ c. some (some c, t)) (take_all offset area (omega arith)))
      | inl unfinished ↦
          let more = ltb→lt offset (length area) unfinished in
          let want = min (length area - offset) k_chunk in
          let n = min want most in
          let piece = take n (drop offset area) in
          let cmd = nv_read_command nv_index want offset in
          let size : length piece ≡ n =
            omega (arith, length-take n (drop offset area), length-drop offset area) in
          let (p, given) = s.gives_piece t.sent offset more in
          let answered : answer_to tbs cmd t
              ≡ success p.head (piece_body p.param_size piece p.sessions) =
            ap or_empty given in
          let found =
            nv_piece_lem p.head p.param_size piece p.sessions p.head_size p.param_size_size
              (omega arith) (omega arith) in
          let next : u16 (offset + length piece) ≡ offset + n = omega arith in
          rw unfinished (
            rw (send_open tbs cmd t h) (
              rw answered (
                rw found (
                  rw (send_open tbs cmd t h) (
                    rw next (
                      rw (take_add offset n area) (
                        nv_read_loop_lem tbs nv_index most area s pos small fuel (offset + n)
                          (sent_also cmd t) h (omega arith) (omega arith))))))))
    ]

-- Over an open context, ReadNvCertificate gives the whole area of a TPM that holds it, whatever number
-- of bytes, but one at least, the TPM gives at once.
pub read_nv_certificate_lem :
    (tbs : Tbs) (nv_index most : ℕ) (area : List ℕ) (t : TpmCommands)
    → Serves tbs nv_index most area
    → 0 < most
    → 0 < length area
    → length area < 2 ^ 16
    → t.is_open ≡ true
    → (t' : TpmCommands) × (read_nv_certificate tbs nv_index t ≡ some ((true, area), t'))
unfolding read_nv_certificate
read_nv_certificate_lem tbs nv_index most area t s pos some_data small h =
    let cmd = nv_read_public_command nv_index in
    let (p, told) = s.tells_size t.sent in
    let answered : answer_to tbs cmd t
        ≡ success p.head (public_body p.fixed p.policy (length area) p.name) =
      ap or_empty told in
    let size =
      nv_data_size_lem p.head p.fixed p.policy p.name (length area) p.head_size p.fixed_size
        p.policy_size some_data small in
    let (t', e) =
      nv_read_loop_lem tbs nv_index most area s pos small (suc (length area)) 0 (sent_also cmd t) h
        (omega arith) (omega arith) in
    rw (send_open tbs cmd t h) (
      rw answered (
        rw size (
          rw (send_open tbs cmd t h)
            (rw e (t', ap (λ r. some (r, t')) (non_empty area some_data))))))
