-- ===== src/EventLog/Events.antt =====
-- Event logs as they are written: the parser reads the events that a log was made of.
use sdk_native.Prelude.{
  ℕ, ◌^◌, ◌≤◌, ◌<◌, ◌≡◌, refl, List, [], ◌∷◌, ◌++◌, arith, length, All, le→ltb, take_append,
  drop_append,
}
use sdk_native.EventLog.{Event, Digests, got}
use sdk_native.EventLog.Parse.{digest_size, set_digest, digest_loop, read_event}
use sdk_native.EventLog.Words.{
  write_u16_le, write_u32_le, reads_u16, reads_u32, need_u16, need_u32, need_all, drop_u16,
  drop_u32,
}

-- The bytes of an event, and then `rest`.
unfoldable pub digests_before : Digests → List ℕ → List ℕ
digests_before [] rest = rest
digests_before ((alg_id, digest) ∷ digests) rest =
    write_u16_le alg_id ++ (digest ++ digests_before digests rest)

unfoldable pub event_before : Event → List ℕ → List ℕ
event_before e rest =
    write_u32_le e.pcr_index
    ++ (write_u32_le e.event_type
        ++ (write_u32_le (length e.digests)
            ++ digests_before e.digests
                (write_u32_le (length e.event_data) ++ (e.event_data ++ rest))))

-- The map that the written digests make: of two with one algorithm, the later one stays.
unfoldable pub set_all : Digests → Digests → Digests
set_all [] stored = stored
set_all ((alg_id, digest) ∷ digests) stored = set_all digests (set_digest alg_id digest stored)

unfoldable pub stored_event : Event → Event
stored_event e = record e { digests = set_all e.digests [] }

unfoldable pub IsDigest : ℕ × List ℕ → Type 0
IsDigest d = (d.0 < 2 ^ 16) × (digest_size d.0 ≡ got (length d.1))

-- The words fit, there are at most eight digests, and each has the length of its algorithm.
pub record IsEvent (e : Event) : Type 0 where
  pub pcr_fits : e.pcr_index < 2 ^ 32
  pub type_fits : e.event_type < 2 ^ 32
  pub few_digests : length e.digests ≤ 8
  pub all_digests : All IsDigest e.digests
  pub data_fits : length e.event_data < 2 ^ 32

digest_loop_lem :
    (digests stored : Digests) (rest : List ℕ)
    → All IsDigest digests
    → digest_loop (length digests) (digests_before digests rest) stored
      ≡ got (set_all digests stored, rest)
unfolding digest_loop digests_before set_all IsDigest
digest_loop_lem [] stored rest h = refl
digest_loop_lem ((alg_id, digest) ∷ digests) stored rest h =
    let more = digest ++ digests_before digests rest in
    rw (need_u16 alg_id more) (
      rw (reads_u16 alg_id more h.0.0) (
        rw (drop_u16 alg_id more) (
          rw h.0.1 (
            rw (need_all digest (digests_before digests rest)) (
              rw (take_append digest (digests_before digests rest)) (
                rw (drop_append digest (digests_before digests rest))
                  (digest_loop_lem digests (set_digest alg_id digest stored) rest h.1)))))))

pub read_event_lem :
    (e : Event) (rest : List ℕ)
    → IsEvent e
    → read_event (event_before e rest) ≡ got (stored_event e, rest)
unfolding read_event event_before stored_event
read_event_lem e rest h =
    let tail = e.event_data ++ rest in
    let sized = write_u32_le (length e.event_data) ++ tail in
    let digested = digests_before e.digests sized in
    let counted = write_u32_le (length e.digests) ++ digested in
    let typed = write_u32_le e.event_type ++ counted in
    rw (reads_u32 e.pcr_index typed h.pcr_fits) (
      rw (drop_u32 e.pcr_index typed) (
        rw (reads_u32 e.event_type counted h.type_fits) (
          rw (drop_u32 e.event_type counted) (
            rw (need_u32 (length e.digests) digested) (
              rw (reads_u32 (length e.digests) digested (omega (arith, h.few_digests))) (
                rw (drop_u32 (length e.digests) digested) (
                  rw (le→ltb 8 (length e.digests) h.few_digests) (
                    rw (digest_loop_lem e.digests [] sized h.all_digests) (
                      rw (need_u32 (length e.event_data) tail) (
                        rw (reads_u32 (length e.event_data) tail h.data_fits) (
                          rw (drop_u32 (length e.event_data) tail) (
                            rw (need_all e.event_data rest) (
                              rw (take_append e.event_data rest)
                                (rw (drop_append e.event_data rest) refl))))))))))))))
