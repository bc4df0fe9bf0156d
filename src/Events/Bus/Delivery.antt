-- ===== src/Events/Bus/Delivery.antt =====
-- Who receives a published event, and what the receivers' queues then hold.
use tiny_mite.Crates.{Crates}
use tiny_mite.Events.Bus.{Sent, Mpsc, SubEntry, EventBus, count, deliver, publish}
use tiny_mite.Events.Envelope.{EventEnvelope}
use tiny_mite.Prelude.{
  ℕ, ◌+◌, ◌≡◌, ◌≢◌, refl, sym, inl, inr, true, false, none, some, List, [], ◌∷◌, ◌++◌, has_prefix,
  arith, Bool-cases,
}

module _ (X : Crates) (Q : Mpsc (EventEnvelope X)) where
  -- Each subscriber in turn has the event at the end of its queue, if its prefix matches, or is as it
  -- was; the number counts the former.
  pub data Delivers (e : EventEnvelope X)
      : List (ℕ × SubEntry X Q) → List (ℕ × SubEntry X Q) → ℕ → Type 0 where
    done : Delivers e [] [] 0
    other :
        {i n : ℕ} {s : SubEntry X Q} {ss ss' : List (ℕ × SubEntry X Q)}
        → has_prefix s.prefix e.event_type ≡ false
        → Delivers e ss ss' n
        → Delivers e ((i, s) ∷ ss) ((i, s) ∷ ss') n
    received :
        {i n : ℕ} {s : SubEntry X Q} {ss ss' : List (ℕ × SubEntry X Q)} {c : Q.Chan}
        → has_prefix s.prefix e.event_type ≡ true
        → Q.queued c ≡ Q.queued s.tx ++ e ∷ []
        → Delivers e ss ss' n
        → Delivers e ((i, s) ∷ ss) ((i, record s { tx = c }) ∷ ss') (n + 1)
    lost :
        {i n : ℕ} {s : SubEntry X Q} {ss ss' : List (ℕ × SubEntry X Q)}
        → has_prefix s.prefix e.event_type ≡ true
        → (Q.try_send e s.tx).0 ≢ Sent.delivered
        → Delivers e ss ss' n
        → Delivers e ((i, s) ∷ ss) ((i, s) ∷ ss') n

  deliver-Delivers :
      (e : EventEnvelope X) (ss : List (ℕ × SubEntry X Q))
      → Delivers e ss (deliver X Q e ss).1 (deliver X Q e ss).0
  unfolding deliver count
  deliver-Delivers e [] = done
  deliver-Delivers e ((i, s) ∷ ss) = elim (Bool-cases (has_prefix s.prefix e.event_type)) [
    | inr miss ↦ rw (miss, deliver) (other miss (deliver-Delivers e ss))
    | inl hit ↦ rw (hit, deliver) (one (Q.try_send e s.tx) refl (deliver-Delivers e ss) hit)
  ]
    where
      one :
          (r : Sent × Q.Chan)
          → Q.try_send e s.tx ≡ r
          → {n : ℕ} {ss' : List (ℕ × SubEntry X Q)} → Delivers e ss ss' n
          → has_prefix s.prefix e.event_type ≡ true
          → Delivers e ((i, s) ∷ ss) ((i, record s { tx = r.1 }) ∷ ss') (count X Q r.0 n)
      one (Sent.delivered, c) q d hit = received hit (ground (arith, Q.queued-try_send e s.tx)) d
      one (Sent.full, c) q d hit =
          let same : s.tx ≡ c = ground (arith, Q.try_send-lost e s.tx) in
          rw (sym same) (lost hit (λ h. ground arith) d)
      one (Sent.closed, c) q d hit =
          let same : s.tx ≡ c = ground (arith, Q.try_send-lost e s.tx) in
          rw (sym same) (lost hit (λ h. ground arith) d)

  -- On a bus that is up, a published event goes to the end of the queue of each subscriber whose
  -- prefix its type starts with and whose channel takes it, every other queue stays as it was
  -- whatever the overflow policy, and the number returned counts the former. A bus that is shut down
  -- drops the event and says so.
  pub publish-Delivers :
      (b : EventBus X Q) (e : EventEnvelope X)
      → let (r, b') = publish X Q b e in
        (b.shutdown ≡ true → (r ≡ none) × (b' ≡ b))
        × (b.shutdown ≡ false → (n : ℕ) × (r ≡ some n) × Delivers e b.subscribers b'.subscribers n)
  unfolding publish
  publish-Delivers b e = (
    λ down. (ground arith, ground arith),
    λ up.
        rw (up, publish) ((deliver X Q e b.subscribers).0, refl, deliver-Delivers e b.subscribers),
  )
