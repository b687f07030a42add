-- ===== src/Tpm/Handles.antt =====
-- The handles that linux/src/tpm/tpm_esapi.c makes, and that tpm_close flushes.
use sdk_native.Prelude.{
  ℕ, ◌≡◌, ◌≢◌, refl, ap, ◌∙◌, sym, List, [], ◌∷◌, Bool, true, false, Option, none, some, ◌==◌,
  if◌then◌else◌, ◌⊎◌, All, arith, ==_iff, ℤ, ◌>>=◌, pos, minus_one, >>=-eq-some,
}
use sdk_native.Memory.{Buffer}
use sdk_native.Tpm.{
  Esys, Primary, Event, TpmContext, Output, World, flush, flush_slot, tpm_open, tpm_close,
}
use sdk_native.Tpm.Keys.{
  failed, create_primary, load, marshal_out, tpm_read_ek_pub, tpm_create_ak, load_ak,
}

abbrev pub remove : ℕ → List ℕ → List ℕ
remove h [] = []
remove h (x ∷ xs) = if x == h then remove h xs else x ∷ remove h xs

-- The handles of keys that were made and not flushed since.
unfoldable pub live : List Event → List ℕ
live [] = []
live (Event.created h ∷ trace) = h ∷ live trace
live (Event.flushed h ∷ trace) = remove h (live trace)
live (Event.session h ∷ trace) = live trace

abbrev pub InContext : TpmContext → ℕ → Type 0
InContext ctx h = (ctx.ek_handle ≡ some h) ⊎ (ctx.srk_handle ≡ some h) ⊎ (ctx.ak_handle ≡ some h)

pub remove-All :
    (P Q : ℕ → Type 0) (h : ℕ) (xs : List ℕ)
    → ((x : ℕ) → x ≢ h → P x → Q x)
    → All P xs
    → All Q (remove h xs)
remove-All P Q h [] f k = tt
remove-All P Q h (x ∷ xs) f k = go (remove-All P Q h xs f k.1) (x == h) refl
  where
    go :
        All Q (remove h xs)
        → (b : Bool) → (x == h) ≡ b
        → All Q (if b then remove h xs else x ∷ remove h xs)
    go rest true e = rest
    go rest false e = (f x (λ same. let yes_same = (==_iff x h).1 same in cc) k.0, rest)

All-imp : (P Q : ℕ → Type 0) (xs : List ℕ) → ((x : ℕ) → P x → Q x) → All P xs → All Q xs
All-imp P Q [] f k = tt
All-imp P Q (x ∷ xs) f k = (f x k.0, All-imp P Q xs f k.1)

All-none : (xs : List ℕ) → All (λ x. ⊥) xs → xs ≡ []
All-none [] h = refl
All-none (x ∷ xs) h = absurd h.0

module _ (esys : Esys) where
  -- All live handles stand in the context.
  abbrev pub Tracked : TpmContext → World esys → Type 0
  Tracked ctx w = All (InContext ctx) (live w.trace)

  flush_slot-All :
      (slot : Option ℕ) (P Q : ℕ → Type 0) (w : World esys)
      → ((x : ℕ) → slot ≢ some x → P x → Q x)
      → All P (live w.trace)
      → All Q (live (flush_slot esys slot w).trace)
  unfolding flush_slot flush live
  flush_slot-All none P Q w f h = All-imp P Q (live w.trace) (λ x. f x (λ e. cc)) h
  flush_slot-All (some n) P Q w f h = remove-All P Q n (live w.trace) (λ x ne. f x (λ e. ne cc)) h

  -- tpm_close leaves no key loaded that one of the operations has made.
  pub tpm_close-live :
      (ctx : TpmContext) (w : World esys) → Tracked ctx w → live (tpm_close esys ctx w).trace ≡ []
  unfolding tpm_close
  tpm_close-live ctx w h =
      let w1 = flush_slot esys ctx.ak_handle w in
      let w2 = flush_slot esys ctx.srk_handle w1 in
      let h1 =
        flush_slot-All ctx.ak_handle (InContext ctx)
          (λ x. (ctx.ek_handle ≡ some x) ⊎ (ctx.srk_handle ≡ some x)) w (λ x ne k. ground arith)
          h in
      let h2 =
        flush_slot-All ctx.srk_handle (λ x. (ctx.ek_handle ≡ some x) ⊎ (ctx.srk_handle ≡ some x))
          (λ x. ctx.ek_handle ≡ some x) w1 (λ x ne k. ground arith) h1 in
      let h3 =
        flush_slot-All ctx.ek_handle (λ x. ctx.ek_handle ≡ some x) (λ x. ⊥) w2 (λ x ne e. ne e)
          h2 in
      All-none _ h3

  create_primary-trace :
      (p : Primary) (w : World esys) (P : ℕ → Type 0) (Q : Option (ℕ × esys.Public) → ℕ → Type 0)
      → All P (live w.trace)
      → ((r : Option (ℕ × esys.Public)) (x : ℕ) → P x → Q r x)
      → ((h : ℕ) (public : esys.Public) → Q (some (h, public)) h)
      → All (Q (create_primary esys p w).0) (live (create_primary esys p w).1.trace)
  unfolding create_primary live
  create_primary-trace p w P Q h keep new = go (esys.create_primary p w.dev)
    where
      go :
          (r : Option (ℕ × esys.Public) × esys.Dev)
          → let made : Option (ℕ × esys.Public) × World esys = elim r.0 [
            | none ↦ (none, record w { dev = r.1 })
            | some (h, public) ↦
                (some (h, public), record { dev = r.1; trace = Event.created h ∷ w.trace })
          ] in
            All (Q made.0) (live made.1.trace)
      go (none, dev) = All-imp P (Q none) (live w.trace) (keep none) h
      go (some (n, public), dev) = (
        new n public,
        All-imp P (Q (some (n, public))) (live w.trace) (keep (some (n, public))) h,
      )

  load-trace :
      (srk : ℕ) (private : List ℕ) (public : esys.Public) (w : World esys) (P : ℕ → Type 0)
      (Q : Option ℕ → ℕ → Type 0)
      → All P (live w.trace)
      → ((r : Option ℕ) (x : ℕ) → P x → Q r x)
      → ((h : ℕ) → Q (some h) h)
      → All (Q (load esys srk private public w).0) (live (load esys srk private public w).1.trace)
  unfolding load live
  load-trace srk private public w P Q h keep new = go (esys.load srk private public w.dev)
    where
      go :
          (r : Option ℕ × esys.Dev)
          → let made : Option ℕ × World esys = elim r.0 [
            | none ↦ (none, record w { dev = r.1 })
            | some n ↦ (some n, record { dev = r.1; trace = Event.created n ∷ w.trace })
          ] in
            All (Q made.0) (live made.1.trace)
      go (none, dev) = All-imp P (Q none) (live w.trace) (keep none) h
      go (some n, dev) = (new n, All-imp P (Q (some n)) (live w.trace) (keep (some n)) h)

  load_ak-Tracked :
      (ctx : TpmContext) (srk : ℕ) (private : List ℕ) (public : esys.Public) (w : World esys)
      → Tracked ctx w
      → Tracked (load_ak esys ctx srk private public w).1 (load_ak esys ctx srk private public w).2
  unfolding load_ak
  load_ak-Tracked ctx srk private public w h =
      let w1 = flush_slot esys ctx.ak_handle w in
      let flushed =
        flush_slot-All ctx.ak_handle (InContext ctx) (InContext (record ctx { ak_handle = none })) w
          (λ x ne k. ground arith) h in
      go (load esys srk private public w1) (
        load-trace srk private public w1 (InContext (record ctx { ak_handle = none }))
          (λ r. InContext (record ctx { ak_handle = r })) flushed (λ r x k. ground arith)
          (λ n. ground arith))
    where
      go :
          (m : Option ℕ × World esys)
          → All (InContext (record ctx { ak_handle = m.0 })) (live m.1.trace)
          → let res : ℤ × TpmContext × World esys = elim m.0 [
            | none ↦ (minus_one, record ctx { ak_handle = none }, m.1)
            | some n ↦ (pos 0, record ctx { ak_handle = some n }, m.1)
          ] in
            Tracked res.1 res.2
      go (none, w2) k = k
      go (some n, w2) k = k

  -- tpm_create_ak keeps track of its handles on all branches, the failing ones included: what it has
  -- made and not flushed stands in the context.
  pub tpm_create_ak-Tracked :
      (ctx : TpmContext) (w : World esys)
      → Tracked ctx w
      → Tracked (tpm_create_ak esys ctx w).1 (tpm_create_ak esys ctx w).2
  unfolding tpm_create_ak
  tpm_create_ak-Tracked ctx w h =
      let w1 = flush_slot esys ctx.srk_handle w in
      let flushed =
        flush_slot-All ctx.srk_handle (InContext ctx) (InContext (record ctx { srk_handle = none }))
          w (λ x ne k. ground arith) h in
      go (create_primary esys Primary.srk w1) (
        create_primary-trace Primary.srk w1 (InContext (record ctx { srk_handle = none }))
          (λ r. InContext (record ctx { srk_handle = r >>= λ a. some a.0 })) flushed
          (λ r x k. ground arith) (λ n public. ground arith))
    where
      made : ℕ → World esys → Option (List ℕ × esys.Public) × esys.Dev → ℤ × TpmContext × World esys
      made srk w2 r = elim r.0 [
        | none ↦ (minus_one, record ctx { srk_handle = some srk }, record w2 { dev = r.1 })
        | some (private, public) ↦
            load_ak esys (record ctx { srk_handle = some srk }) srk private public
              (record w2 { dev = r.1 })
      ]

      made-Tracked :
          (srk : ℕ) (w2 : World esys) (r : Option (List ℕ × esys.Public) × esys.Dev)
          → Tracked (record ctx { srk_handle = some srk }) w2
          → Tracked (made srk w2 r).1 (made srk w2 r).2
      made-Tracked srk w2 (none, dev) k = k
      made-Tracked srk w2 (some (private, public), dev) k =
          load_ak-Tracked (record ctx { srk_handle = some srk }) srk private public
            (record w2 { dev = dev }) k

      go :
          (m : Option (ℕ × esys.Public) × World esys)
          → All (InContext (record ctx { srk_handle = m.0 >>= λ a. some a.0 })) (live m.1.trace)
          → let res : ℤ × TpmContext × World esys = elim m.0 [
            | none ↦ (minus_one, record ctx { srk_handle = none }, m.1)
            | some (srk, public) ↦ made srk m.1 (esys.create srk m.1.dev)
          ] in
            Tracked res.1 res.2
      go (none, w2) k = k
      go (some (srk, public), w2) k = made-Tracked srk w2 (esys.create srk w2.dev) k

  replace : {A : Type 0} (P : A → Type 0) (a b : A) → some a ≡ some b → P a → P b
  replace P a b e h = let same : b ≡ a = cc in rw same h

  -- So does tpm_read_ek_pub, also where the key cannot be written out.
  pub tpm_read_ek_pub-Tracked :
      (ctx ctx' : TpmContext) (out : Option Buffer) (len : ℕ) (w w' : World esys) (output : Output)
      → Tracked ctx w
      → tpm_read_ek_pub esys ctx out len w ≡ some (output, ctx', w')
      → Tracked ctx' w'
  unfolding tpm_read_ek_pub
  tpm_read_ek_pub-Tracked ctx ctx' out len w w' output h e =
      let w1 = flush_slot esys ctx.ek_handle w in
      let flushed =
        flush_slot-All ctx.ek_handle (InContext ctx) (InContext (record ctx { ek_handle = none })) w
          (λ x ne k. ground arith) h in
      go (create_primary esys Primary.ek w1)
        (create_primary-trace Primary.ek w1 (InContext (record ctx { ek_handle = none }))
          (λ r. InContext (record ctx { ek_handle = r >>= λ a. some a.0 })) flushed
          (λ r x k. ground arith) (λ n public. ground arith))
        e
    where
      go :
          (m : Option (ℕ × esys.Public) × World esys)
          → All (InContext (record ctx { ek_handle = m.0 >>= λ a. some a.0 })) (live m.1.trace)
          → ◌≡◌ {A = Option (Output × TpmContext × World esys)}
              (elim m.0 [
                | none ↦ some (failed out len, record ctx { ek_handle = none }, m.1)
                | some (n, public) ↦ do
                  output ← marshal_out esys public out len
                  some (output, record ctx { ek_handle = some n }, m.1)
              ])
              (some (output, ctx', w'))
          → Tracked ctx' w'
      go (none, w2) k e =
          replace (λ r. Tracked r.1 r.2) (failed out len, record ctx { ek_handle = none }, w2)
            (output, ctx', w') e k
      go (some (n, public), w2) k e =
          let (o, made, e') =
            >>=-eq-some (marshal_out esys public out len)
              (λ o. some (o, record ctx { ek_handle = some n }, w2)) e in
          replace (λ r. Tracked r.1 r.2) (o, record ctx { ek_handle = some n }, w2)
            (output, ctx', w') e' k

  -- The states that the key operations reach from a context that was just opened, in any order and
  -- number, whatever fails.
  pub data Reached (start : World esys) : TpmContext → World esys → Type 0 where
    opened :
        (ctx : TpmContext) (w : World esys)
        → tpm_open esys start ≡ (some ctx, w)
        → Reached start ctx w
    created_ak :
        (ctx : TpmContext) (w : World esys)
        → Reached start ctx w
        → Reached start (tpm_create_ak esys ctx w).1 (tpm_create_ak esys ctx w).2
    read_ek_pub :
        (ctx ctx' : TpmContext) (out : Option Buffer) (len : ℕ) (w w' : World esys)
        (output : Output)
        → Reached start ctx w
        → tpm_read_ek_pub esys ctx out len w ≡ some (output, ctx', w')
        → Reached start ctx' w'

  pub tpm_open-trace : (start : World esys) → (tpm_open esys start).1.trace ≡ start.trace
  unfolding tpm_open
  tpm_open-trace start = go (esys.initialize start.dev)
    where
      go :
          (r : Bool × esys.Dev)
          → let res : Option TpmContext × World esys =
              if r.0
              then (
                some (record { ek_handle = none; srk_handle = none; ak_handle = none }),
                record start { dev = r.1 },
              )
              else (none, record start { dev = r.1 }) in
            res.1.trace ≡ start.trace
      go (true, dev) = refl
      go (false, dev) = refl

  Reached-Tracked :
      (start : World esys) (ctx : TpmContext) (w : World esys)
      → live start.trace ≡ []
      → Reached start ctx w
      → Tracked ctx w
  Reached-Tracked start _ _ clean (opened ctx w e) =
      let same : live w.trace ≡ [] =
        sym (ap (λ r. live r.1.trace) e) ∙ ap live (tpm_open-trace start) ∙ clean in
      rw same tt
  Reached-Tracked start _ _ clean (created_ak ctx w reached) =
      tpm_create_ak-Tracked ctx w (Reached-Tracked start ctx w clean reached)
  Reached-Tracked start _ _ clean (read_ek_pub ctx ctx' out len w w' output reached e) =
      tpm_read_ek_pub-Tracked ctx ctx' out len w w' output
        (Reached-Tracked start ctx w clean reached) e

  -- From a state without live key handles: whatever calls of tpm_create_ak and tpm_read_ek_pub
  -- follow the opening of a context, and whatever fails in them, tpm_close leaves none of the
  -- handles that they made unflushed.
  pub Reached-close :
      (start : World esys) (ctx : TpmContext) (w : World esys)
      → live start.trace ≡ []
      → Reached start ctx w
      → live (tpm_close esys ctx w).trace ≡ []
  Reached-close start ctx w clean reached =
      tpm_close-live ctx w (Reached-Tracked start ctx w clean reached)
