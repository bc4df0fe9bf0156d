-- ===== src/Scheduler/Manager.antt =====
-- crates/tiny-mite-scheduler/src/cancellation.rs: the cancellation manager over the task registry.
pub mod Outcomes
pub mod Shutdown
use tiny_mite.Crates.{Crates, Scalar}
use tiny_mite.Domain.Values.{TaskStatus, default_security}
use tiny_mite.Domain.Values
use tiny_mite.Events.Envelope.{EventEnvelope, Publisher}
use tiny_mite.Scheduler.Cancellation.{CancelReason, Store, reason_text, category, new_token, cancel}
use tiny_mite.Scheduler.Registry.Marks.{request_cancellation}
use tiny_mite.Scheduler.Registry.Operations.{Stamp, Registry, transition}
use tiny_mite.Scheduler.Registry.Row.{task_id_text, correlation_text}
use tiny_mite.Scheduler.Registry.Table.{TaskTable}
use tiny_mite.Scheduler.Registry.Task.{TaskRecord, TaskRegistryError}
use tiny_mite.Prelude.{
  ℕ, ◌+◌, ◌≡◌, true, String, Option, some, none, List, [], ◌∷◌, map, Result, ok, err, contains,
  length, if◌then◌else◌, insert, nat_eq,
}

-- `dashmap::DashMap<TaskId, Arc<CancellationToken>>`, with tokens as addresses.
pub record TokenMap (X : Crates) : Type 1 where
  pub Map : Type 0
  pub no_tokens : Map
  pub get : X.Uuid → Map → Option ℕ
  pub put : X.Uuid → ℕ → Map → Map
  pub drop_key : X.Uuid → Map → Map
  pub entries : Map → List (X.Uuid × ℕ)
  pub get-no_tokens : (k : X.Uuid) → get k no_tokens ≡ none
  pub get-put :
      (k j : X.Uuid) (v : ℕ) (m : Map)
      → get j (put k v m) ≡ (if X.uuid_eq.beq k j then some v else get j m)
  pub get-drop_key :
      (k j : X.Uuid) (m : Map)
      → get j (drop_key k m) ≡ (if X.uuid_eq.beq k j then none else get j m)
  pub entries-complete :
      (k : X.Uuid) (v : ℕ) (m : Map)
      → get k m ≡ some v
      → contains (map (λ e. e.1) (entries m)) v ≡ true

-- What `request_cancellation` reads from outside: the stamps of the two registry operations, the
-- placeholder identifier of `transition`, the clock of the token and of its children, and the
-- identifier and time of the manager's own event.
pub record Readings (X : Crates) : Type 0 where
  pub request_stamp : Stamp X
  pub transition_stamp : Stamp X
  pub fresh : X.Uuid
  pub token_time : X.Time
  pub child_reads : ℕ → X.Uuid × X.Time
  pub event_id : X.Uuid
  pub event_time : X.Time

module _ (X : Crates) where
  -- The envelope that `emit_event` builds.
  unfoldable pub cancellation_event :
      Readings X → String → TaskRecord X → String → CancelReason X → EventEnvelope X
  cancellation_event rd event_type t source reason = record {
    id = rd.event_id;
    event_type = event_type;
    version = 1;
    timestamp = rd.event_time;
    correlation_id = some t.correlation_id;
    causation_id = none;
    source = "cancellation-manager";
    priority = t.priority;
    security = default_security;
    payload = X.json_object (
        ("task_id", Scalar.text (task_id_text X t.id))
        ∷ ("correlation_id", Scalar.text (correlation_text X t.correlation_id))
        ∷ ("cancellation_reason", Scalar.text (reason_text X reason))
        ∷ ("cancellation_category", Scalar.text (category X reason))
        ∷ ("cancellation_source", Scalar.text source)
        ∷ []);
    payload_type = "cancellation::CancellationEvent";
  }

module _ (X : Crates) (T : TaskTable) (P : Publisher X) (D : TokenMap X) where
  -- The manager, the registry that it is given, and the tokens in memory.
  pub record System : Type 0 where
    pub tokens : D.Map
    pub store : Store X
    pub next_token : ℕ
    pub bus : P.Bus
    pub registry : Registry X T P

  -- `register`: a new token, in place of one that the task may have already.
  unfoldable pub register : System → X.Uuid → ℕ × System
  register s id = (
    s.next_token,
    record s {
      tokens = D.put id s.next_token s.tokens;
      store = insert s.next_token (new_token X) s.store;
      next_token = s.next_token + 1;
    },
  )

  unfoldable pub register_token : System → X.Uuid → ℕ → System
  register_token s id token = record s { tokens = D.put id token s.tokens }

  unfoldable pub unregister : System → X.Uuid → System
  unregister s id = record s { tokens = D.drop_key id s.tokens }

  unfoldable pub get_token : System → X.Uuid → Option ℕ
  get_token s id = D.get id s.tokens

  unfoldable pub active_count : System → ℕ
  active_count s = length (D.entries s.tokens)

  -- Step 2: the token in memory, if the task has one.
  unfoldable pub trigger : System → Readings X → X.Uuid → CancelReason X → String → Store X
  trigger s rd id reason source = elim (D.get id s.tokens) [
    | none ↦ s.store
    | some t ↦ cancel X s.store t reason source rd.token_time rd.child_reads
  ]

  emit : System → Readings X → String → TaskRecord X → String → CancelReason X → System
  emit s rd event_type t source reason = record s {
    bus = P.publish (cancellation_event X rd event_type t source reason) s.bus;
  }

  -- Steps 3 and 4, once the request is durable: `u` is what the registry has returned.
  unfoldable pub conclude :
      System
      → Readings X
      → X.Uuid
      → CancelReason X
      → String
      → TaskRecord X
      → Result (TaskRegistryError X) (TaskRecord X) × System
  unfolding emit unregister
  conclude s rd id reason source u =
      let still_requested : Result (TaskRegistryError X) (TaskRecord X) × System =
        (ok u, emit s rd "task.cancel_requested" u source reason) in
      if Values.is_active u.status
      then (let (r, g) =
            transition X T P s.registry rd.transition_stamp rd.fresh id u.version
              TaskStatus.cancelled in
          elim r [
            | ok final ↦ (
              ok final,
              unregister
                  (emit (record s { registry = g }) rd "task.cancellation_completed" final source
                    reason)
                  id,
            )
            | err e ↦ still_requested
          ])
      else still_requested

  -- `request_cancellation`. `between` is what other callers do after the request and before the token
  -- is looked up: they may change the registry, the map of tokens and the tokens. What they do to the
  -- registry between the token and the transition counts here, too, since the token does not read it.
  unfoldable pub cancel_task :
      System
      → (System → System)
      → Readings X
      → X.Uuid
      → CancelReason X
      → String
      → Result (TaskRegistryError X) (TaskRecord X) × System
  unfolding trigger
  cancel_task s between rd id reason source =
      let (r, g) =
        request_cancellation X T P s.registry rd.request_stamp id (reason_text X reason) source in
      elim r [
        | err e ↦ (err e, record s { registry = g })
        | ok u ↦
            let s1 = between (record s { registry = g }) in
            conclude (record s1 { store = trigger s1 rd id reason source }) rd id reason source u
      ]

  -- `cancel_hierarchy`: the task alone; its children are left to the token hierarchy.
  unfoldable pub cancel_hierarchy :
      System
      → (System → System)
      → Readings X
      → X.Uuid
      → CancelReason X
      → String
      → Result (TaskRegistryError X) (List (TaskRecord X)) × System
  cancel_hierarchy s between rd id reason source =
      let (r, s') = cancel_task s between rd id reason source in
      (elim r [ err e ↦ err e | ok t ↦ ok (t ∷ []) ], s')

  unfoldable pub cancel_each : Store X → (ℕ → X.Time) → (ℕ → ℕ → X.Uuid × X.Time) → List ℕ → Store X
  cancel_each m times reads [] = m
  cancel_each m times reads (t ∷ ts) =
      cancel_each
        (cancel X m t (CancelReason.system "system shutdown") "shutdown" (times t) (reads t)) times
        reads ts

  -- `shutdown`: every registered token is cancelled, then the map is cleared.
  unfoldable pub shutdown : System → (ℕ → X.Time) → (ℕ → ℕ → X.Uuid × X.Time) → System
  shutdown s times reads = record s {
    store = cancel_each s.store times reads (map (λ e. e.1) (D.entries s.tokens));
    tokens = D.no_tokens;
  }
