-- ===== src/TpmCommands/Sessions.antt =====
-- The policy session of ActivateCredential: it is flushed on every path.
use sdk_native.Prelude.{
  ◌∙◌, Ends-if, ℕ, ◌≡◌, refl, ap, List, [], ◌∷◌, ◌++◌, true, Option, none, some, ◌==◌,
  if◌then◌else◌, inl, inr, Ends, gives, Ends->>=, Ends-from, Ends-at, Bool-cases,
}
use sdk_native.TpmCommands.{
  TpmCommands, Tbs, send_command, set_size, or_empty, is_success, flush_context, flush_command,
}
use sdk_native.TpmCommands.Activate.{
  start_command, policy_command, activate_command, session_of, secret_of, activate_in, after_start,
  clean_up, activate_credential,
}

abbrev pub sent_also : List ℕ → TpmCommands → TpmCommands
sent_also cmd t = record t { sent = set_size cmd ∷ t.sent }

-- What TBS answers to the next command.
abbrev pub answer_to : Tbs → List ℕ → TpmCommands → List ℕ
answer_to tbs cmd t = or_empty (tbs t.sent (set_size cmd))

pub send_open :
    (tbs : Tbs) (cmd : List ℕ) (t : TpmCommands)
    → t.is_open ≡ true
    → send_command tbs cmd t ≡ (answer_to tbs cmd t, sent_also cmd t)
unfolding send_command
send_open tbs cmd t h = rw h refl

flush_sent :
    (tbs : Tbs) (handle : ℕ) (t : TpmCommands)
    → t.is_open ≡ true
    → (flush_context tbs handle t).sent ≡ set_size (flush_command handle) ∷ t.sent
unfolding flush_context
flush_sent tbs handle t h =
    ap (λ (r : List ℕ × TpmCommands). r.1.sent) (send_open tbs (flush_command handle) t h)

module _ (ak_handle ek_handle : ℕ) (blob encrypted : List ℕ) where
  -- The commands of a session, the last one first: the policy, and the activation unless the policy
  -- failed, which leaves no secret.
  pub data Tried (session_handle : ℕ) (secret : List ℕ) : List (List ℕ) → Type 0 where
    policy_failed :
        secret ≡ [] → Tried session_handle secret (set_size (policy_command session_handle) ∷ [])
    activated : Tried session_handle secret (
        set_size (activate_command ak_handle ek_handle session_handle blob encrypted)
        ∷ set_size (policy_command session_handle)
        ∷ [])

  abbrev pub Cleaned : Option ℕ → TpmCommands → List ℕ × TpmCommands → Type 0
  Cleaned none t r = (r.0 ≡ []) × (r.1.sent ≡ set_size start_command ∷ t.sent)
  Cleaned (some session_handle) t r =
      (tried : List (List ℕ)) × Tried session_handle r.0 tried
      × (r.1.sent
          ≡ (if session_handle == 0 then [] else set_size (flush_command session_handle) ∷ [])
            ++ (tried ++ set_size start_command ∷ t.sent))

  abbrev Within : ℕ → TpmCommands → List ℕ × TpmCommands → Type 0
  Within session_handle t r =
      (r.1.is_open ≡ true)
      × ((tried : List (List ℕ)) × Tried session_handle r.0 tried × (r.1.sent ≡ tried ++ t.sent))

  activate_in-Within :
      (tbs : Tbs) (session_handle : ℕ) (t : TpmCommands)
      → t.is_open ≡ true
      → Ends
          (Within session_handle t)
          (activate_in tbs ak_handle ek_handle blob encrypted session_handle t)
  unfolding activate_in
  activate_in-Within tbs session_handle t h =
      let t1 = sent_also (policy_command session_handle) t in
      rw (send_open tbs (policy_command session_handle) t h) (
        Ends-from (is_success 10 (answer_to tbs (policy_command session_handle) t)) _ λ ok _.
          Ends-if ok
            (rw
              (send_open tbs (activate_command ak_handle ek_handle session_handle blob encrypted) t1
                h)
              (Ends-from (secret_of _) _ λ secret _. gives (h, (_, activated, refl))))
            (gives (h, (_, policy_failed refl, refl))))

  clean_up-Cleaned :
      (tbs : Tbs) (session_handle : ℕ) (t : TpmCommands) (r : List ℕ × TpmCommands)
      → t.is_open ≡ true
      → Within session_handle (sent_also start_command t) r
      → Cleaned (some session_handle) t (r.0, clean_up tbs session_handle r.1)
  clean_up-Cleaned tbs session_handle t r h (is_open, (tried, what, sent)) =
      elim (Bool-cases (session_handle == 0)) [
        | inl null ↦ rw null (tried, what, sent)
        | inr real ↦ rw real (
          tried,
          what,
          flush_sent tbs session_handle r.1 is_open
              ∙ ap (λ l. set_size (flush_command session_handle) ∷ l) sent,
        )
      ]

  after_start-Cleaned :
      (tbs : Tbs) (session : Option ℕ) (t : TpmCommands)
      → t.is_open ≡ true
      → Ends
          (Cleaned session t)
          (after_start tbs ak_handle ek_handle blob encrypted session (sent_also start_command t))
  after_start-Cleaned tbs none t h = gives (refl, refl)
  after_start-Cleaned tbs (some session_handle) t h =
      Ends->>= _ (activate_in-Within tbs session_handle (sent_also start_command t) h)
        λ r w. gives (clean_up-Cleaned tbs session_handle t r h w)

  -- What ActivateCredential sends over an open context. If no session starts it sends no more than
  -- the start command, and gives no secret. If the response names a session, it sends the policy,
  -- then the activation unless the policy failed, and on every path, last of all, the flush of that
  -- session, unless its handle is 0.
  pub activate_credential-Cleaned :
      (tbs : Tbs) (t : TpmCommands) (session : Option ℕ) (r : List ℕ × TpmCommands)
      → t.is_open ≡ true
      → session_of (answer_to tbs start_command t) ≡ some session
      → activate_credential tbs ak_handle ek_handle blob encrypted t ≡ some r
      → Cleaned session t r
  unfolding activate_credential
  activate_credential-Cleaned tbs t session r h s e =
      Ends-at (Cleaned session t)
        (rw (send_open tbs start_command t h) (rw s (after_start-Cleaned tbs session t h))) e
