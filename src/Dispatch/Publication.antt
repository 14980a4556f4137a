-- ===== src/Dispatch/Publication.antt =====
-- What the publisher promises: commands go to the stream in the order of their creation, at least once.
use agent_reliability_platfo.Base.{
  ℕ, zero, suc, ◌-◌, ◌≡◌, ◌⊎◌, inl, inr, refl, Bool, true, false, not, ◌&&◌, List, [], ◌∷◌, arith,
  filter, take, length, if◌then◌else◌, All, All-mono, Among,
}
use agent_reliability_platfo.Store.Rows.{OutboxMessage}
use agent_reliability_platfo.Dispatch.Outbox.{
  Sending, Turn, is_due, is_command, failed_once, marked, send_as, reject_topic, publish_one,
  added_to, publish_due,
}

-- What has become of a row: it is as it was, its attempt was counted, or it was marked, and then its message is
-- in the stream.
abbrev pub IsTurned : ℕ → List OutboxMessage → OutboxMessage → OutboxMessage → Type 0
IsTurned now added m after =
    (after ≡ m) ⊎ ((after ≡ failed_once m) ⊎ ((after ≡ marked now m) × Among m added))

-- The rows before and after, one by one.
abbrev pub AllTurned : ℕ → List OutboxMessage → List OutboxMessage → List OutboxMessage → Type 0
AllTurned now added [] [] = Unit {0}
AllTurned now added (m ∷ ms) (after ∷ rest) =
    IsTurned now added m after × AllTurned now added ms rest
AllTurned now added _ _ = ⊥

-- What is in the stream is a command that was due.
abbrev pub WasDue : ℕ → List OutboxMessage → OutboxMessage → Type 0
WasDue now ms m = (is_due now m ≡ true) × (is_command m ≡ true) × Among m ms

turned_later :
    (now : ℕ) (x : OutboxMessage) (added ms rest : List OutboxMessage)
    → AllTurned now added ms rest
    → AllTurned now (x ∷ added) ms rest
turned_later now x added [] [] h = tt
turned_later now x added (m ∷ ms) (after ∷ rest) h = (
  elim h.0 [
    | inl same ↦ inl same
    | inr (inl counted) ↦ inr (inl counted)
    | inr (inr (is_marked, there)) ↦ inr (inr (is_marked, inr there))
  ],
  turned_later now x added ms rest h.1,
)
turned_later now x added [] (after ∷ rest) h = h
turned_later now x added (m ∷ ms) [] h = h

unturned : (now : ℕ) (added ms : List OutboxMessage) → AllTurned now added ms ms
unturned now added [] = tt
unturned now added (m ∷ ms) = (inl refl, unturned now added ms)

due_later :
    (now : ℕ) (x : OutboxMessage) (ms added : List OutboxMessage)
    → All (WasDue now ms) added
    → All (WasDue now (x ∷ ms)) added
due_later now x ms added h =
    All-mono (WasDue now ms) (WasDue now (x ∷ ms)) added (λ m w. (w.0, w.1, inr w.2)) h

-- The turn of one message.
abbrev IsTurn : ℕ → OutboxMessage → Turn → Type 0
IsTurn now m t =
    ((t.row ≡ m) ⊎ ((t.row ≡ failed_once m) ⊎ ((t.row ≡ marked now m) × (t.is_added ≡ true))))
    × (t.is_added && not (is_command m) ≡ false)

publish_one-IsTurn :
    (send : OutboxMessage → Sending) (now : ℕ) (m : OutboxMessage)
    → IsTurn now m (publish_one send now m)
unfolding publish_one send_as reject_topic
publish_one-IsTurn send now m = go (is_command m) refl (send m)
  where
    go :
        (b : Bool)
        → is_command m ≡ b
        → (s : Sending) → IsTurn now m (if b then send_as s now m else reject_topic s m)
    go true e Sending.accepted = (inr (inr (refl, refl)), ground arith)
    go true e Sending.unmarked = (inr (inl refl), ground arith)
    go true e Sending.refused = (inr (inl refl), refl)
    go true e (Sending.lost b) = (inl refl, ground arith)
    go false e Sending.accepted = (inr (inl refl), refl)
    go false e Sending.unmarked = (inr (inl refl), refl)
    go false e Sending.refused = (inr (inl refl), refl)
    go false e (Sending.lost b) = (inl refl, refl)

-- The outbox and the stream after the loop.
abbrev pub IsPublication : ℕ → List OutboxMessage → List OutboxMessage × List OutboxMessage → Type 0
IsPublication now ms p = AllTurned now p.1 ms p.0 × All (WasDue now ms) p.1

turn-IsPublication :
    (now : ℕ) (m : OutboxMessage) (ms : List OutboxMessage) (t : Turn)
    (later : List OutboxMessage × List OutboxMessage)
    → is_due now m ≡ true
    → IsTurn now m t
    → IsPublication now ms later
    → IsPublication now (m ∷ ms) (t.row ∷ later.0, added_to m t.is_added later.1)
turn-IsPublication now m ms t later due turn h = go t.is_added turn.0 turn.1
  where
    go :
        (b : Bool)
        → ((t.row ≡ m) ⊎ ((t.row ≡ failed_once m) ⊎ ((t.row ≡ marked now m) × (b ≡ true))))
        → b && not (is_command m) ≡ false
        → IsPublication now (m ∷ ms) (t.row ∷ later.0, added_to m b later.1)
    go true what command = (
      (
        elim what [
          | inl same ↦ inl same
          | inr (inl counted) ↦ inr (inl counted)
          | inr (inr (is_marked, b)) ↦ inr (inr (is_marked, inl refl))
        ],
        turned_later now m later.1 ms later.0 h.0,
      ),
      ((due, ground arith, inl refl), due_later now m ms later.1 h.1),
    )
    go false what command = (
      (
        elim what [
          | inl same ↦ inl same
          | inr (inl counted) ↦ inr (inl counted)
          | inr (inr (is_marked, b)) ↦ ground arith
        ],
        h.0,
      ),
      due_later now m ms later.1 h.1,
    )

-- A message is marked as published only if it was added to the stream, whichever calls of the stream and of the
-- database fail: each row of the outbox is as before, or counts one attempt more, or is marked with its message
-- among those that the loop added; and what it added are commands of the outbox that were due.
pub publish_due-marked :
    (send : OutboxMessage → Sending) (now n : ℕ) (ms : List OutboxMessage)
    → IsPublication now ms (publish_due send now n ms)
unfolding publish_due
publish_due-marked send now zero ms = (unturned now [] ms, tt)
publish_due-marked send now (suc n) [] = (tt, tt)
publish_due-marked send now (suc n) (m ∷ ms) =
    go (is_due now m) refl (publish_one send now m) (publish_one-IsTurn send now m)
      (publish_due-marked send now n ms) (publish_due-marked send now (suc n) ms)
  where
    go :
        (due : Bool)
        → is_due now m ≡ due
        → (t : Turn) → IsTurn now m t
        → IsPublication now ms (publish_due send now n ms)
        → IsPublication now ms (publish_due send now (suc n) ms)
        → IsPublication now (m ∷ ms) (
            if due
            then (if t.goes_on
                then (
                  t.row ∷ (publish_due send now n ms).0,
                  added_to m t.is_added (publish_due send now n ms).1,
                )
                else (t.row ∷ ms, added_to m t.is_added []))
            else (m ∷ (publish_due send now (suc n) ms).0, (publish_due send now (suc n) ms).1))
    go false e t turn taken passed =
        ((inl refl, passed.0), due_later now m ms (publish_due send now (suc n) ms).1 passed.1)
    go true e t turn taken passed =
        elim t.goes_on
          as (λ b. IsPublication now (m ∷ ms) (
            if b
            then (
              t.row ∷ (publish_due send now n ms).0,
              added_to m t.is_added (publish_due send now n ms).1,
            )
            else (t.row ∷ ms, added_to m t.is_added []))) [
              | true ↦ turn-IsPublication now m ms t (publish_due send now n ms) e turn taken
              | false ↦ turn-IsPublication now m ms t (ms, []) e turn (unturned now [] ms, tt)
            ]

-- Where the stream accepts them, the first `n` commands that are due are added, in the order of their
-- creation, and that many fewer are due after the loop.
pub publish_due-progress :
    (send : OutboxMessage → Sending) (now n : ℕ) (ms : List OutboxMessage)
    → ((m : OutboxMessage) → send m ≡ Sending.accepted)
    → All (λ (m : OutboxMessage). is_command m ≡ true) ms
    → ((publish_due send now n ms).1 ≡ take n (filter (is_due now) ms))
      × (length (filter (is_due now) (publish_due send now n ms).0)
          ≡ length (filter (is_due now) ms) - n)
unfolding publish_due publish_one send_as reject_topic
publish_due-progress send now zero ms up commands = ground arith
publish_due-progress send now (suc n) [] up commands = ground arith
publish_due-progress send now (suc n) (m ∷ ms) up commands = ground (
  arith,
  up m,
  commands.0,
  publish_due-progress send now n ms up commands.1,
  publish_due-progress send now (suc n) ms up commands.1,
)
