-- ===== src/Scheduler/Manager/Outcomes.antt =====
-- What a cancellation request to the manager does to the stored task, to its token and to the map
-- of tokens.
use tiny_mite.Crates.{Crates}
use tiny_mite.Domain.Values.{TaskStatus}
use tiny_mite.Domain.Values
use tiny_mite.Events.Envelope.{Publisher}
use tiny_mite.Scheduler.Cancellation.{CancelReason, TokenState, reason_text}
use tiny_mite.Scheduler.Cancellation.Propagation.{IsSettled, cancel_reaches}
use tiny_mite.Scheduler.Manager.{
  TokenMap, Readings, System, get_token, trigger, conclude, cancel_task, unregister,
}
use tiny_mite.Scheduler.Registry.Consistency.{transition_persists}
use tiny_mite.Scheduler.Registry.Lifecycle.{is_valid_transition}
use tiny_mite.Scheduler.Registry.Marks.{cancelling, request_cancellation, rewrite_task}
use tiny_mite.Scheduler.Registry.Operations.{fetch, moved}
use tiny_mite.Scheduler.Registry.Table.{TaskTable}
use tiny_mite.Scheduler.Registry.Task.{TaskRecord, TaskRegistryError}
use tiny_mite.Scheduler.Registry.Transitions.{transition_ok_iff}
use tiny_mite.Scheduler.Registry.Writes.{marks_persist}
use tiny_mite.Prelude.{
  ℕ, ◌≡◌, refl, ◌∙◌, inl, true, false, String, some, none, ok, err, arith, lookup, nat_eq,
}

module _ (X : Crates) (T : TaskTable) (P : Publisher X) (D : TokenMap X) where
  -- The task as the request and the transition leave it.
  abbrev pub cancelled_task : Readings X → CancelReason X → String → TaskRecord X → TaskRecord X
  cancelled_task rd reason source t =
      moved X rd.transition_stamp.now TaskStatus.cancelled
        (cancelling X rd.request_stamp.now (reason_text X reason) source t)

  -- The system once the request is recorded.
  abbrev pub requested :
      System X T P D → Readings X → X.Uuid → CancelReason X → String → System X T P D
  requested s rd id reason source = record s {
    registry =
        (request_cancellation X T P s.registry rd.request_stamp id (reason_text X reason) source).1;
  }

  active_may_cancel :
      (st : TaskStatus)
      → Values.is_active st ≡ true
      → (Values.is_terminal st ≡ false) × (is_valid_transition st TaskStatus.cancelled ≡ true)
  unfolding Values.is_active Values.is_terminal is_valid_transition
  active_may_cancel st h = ground arith

  cancelling-status :
      (now : X.Time) (reason source : String) (t : TaskRecord X)
      → (cancelling X now reason source t).status ≡ t.status
  unfolding cancelling
  cancelling-status now reason source t = refl

  get_token-unregister :
      (s : System X T P D) (id : X.Uuid) → get_token X T P D (unregister X T P D s id) id ≡ none
  unfolding get_token unregister
  get_token-unregister s id = ground (arith, D.get-drop_key id id s.tokens, X.uuid_eq.beq_iff id id)

  -- An active stored task whose record no other caller changes in between ends cancelled: the
  -- manager returns it so, the table holds it so, and its token is no longer registered.
  pub cancel_task_completes :
      (s : System X T P D) (between : System X T P D → System X T P D) (rd : Readings X)
      (id : X.Uuid) (reason : CancelReason X) (source : String) (t : TaskRecord X)
      → fetch X T P s.registry.db id ≡ ok t
      → Values.is_active t.status ≡ true
      → (fetch X T P (between (requested s rd id reason source)).registry.db id
          ≡ fetch X T P (requested s rd id reason source).registry.db id)
      → let (r, s') = cancel_task X T P D s between rd id reason source in
        (r ≡ ok (cancelled_task rd reason source t))
        × (fetch X T P s'.registry.db id ≡ ok (cancelled_task rd reason source t))
        × (get_token X T P D s' id ≡ none)
  unfolding cancel_task conclude unregister get_token
  cancel_task_completes s between rd id reason source t f live alone =
      let u = cancelling X rd.request_stamp.now (reason_text X reason) source t in
      let (a, b, _, _) =
        marks_persist X T P s.registry rd.request_stamp id (reason_text X reason) source t f in
      let status = cancelling-status rd.request_stamp.now (reason_text X reason) source t in
      let (open_task, valid) = active_may_cancel t.status live in
      let moves =
        (transition_ok_iff X T P (between (requested s rd id reason source)).registry
            rd.transition_stamp rd.fresh id u.version TaskStatus.cancelled
            (cancelled_task rd reason source t)).1
          (
            u,
            record {
              stored = alone ∙ b;
              current = refl;
              open_task = rw status open_task;
              valid = rw status valid;
            },
            refl,
          ) in
      let live_u : Values.is_active u.status ≡ true = rw status live in
      let kept =
        transition_persists X T P (between (requested s rd id reason source)).registry
          rd.transition_stamp rd.fresh id u.version TaskStatus.cancelled
          (cancelled_task rd reason source t) moves in
      (
        ground (arith, a, live_u, moves),
        ground (arith, a, live_u, moves, kept),
        ground (
          arith,
          a,
          live_u,
          moves,
          D.get-drop_key id id (between (requested s rd id reason source)).tokens,
          X.uuid_eq.beq_iff id id,
        ),
      )

  -- A cancellation request for a stored task settles the token that is registered for the task when
  -- the manager looks it up, after whatever other callers have done since the request was recorded,
  -- to the tokens, too: it is cancelled, with a reason, a source and a time.
  pub cancel_task_settles :
      (s : System X T P D) (between : System X T P D → System X T P D) (rd : Readings X)
      (id : X.Uuid) (reason : CancelReason X) (source : String) (t : TaskRecord X) (token : ℕ)
      (state : TokenState X)
      → fetch X T P s.registry.db id ≡ ok t
      → get_token X T P D (between (requested s rd id reason source)) id ≡ some token
      → lookup token (between (requested s rd id reason source)).store ≡ some state
      → (state' : TokenState X) × (lookup token
            (cancel_task X T P D s between rd id reason source).1.store
          ≡ some state')
        × IsSettled X state'
  unfolding cancel_task conclude trigger get_token
  cancel_task_settles s between rd id reason source t token state f registered e =
      let (a, _, _, _) =
        marks_persist X T P s.registry rd.request_stamp id (reason_text X reason) source t f in
      let (state', e', settled) =
        cancel_reaches X (between (requested s rd id reason source)).store token token reason source
          rd.token_time rd.child_reads state e (inl refl) in
      (state', ground (arith, a, registered), settled)

  -- A terminal task is not refused: the request is recorded on it, which gives it the next version,
  -- and its status stays as it was.
  pub cancel_task_terminal :
      (s : System X T P D) (between : System X T P D → System X T P D) (rd : Readings X)
      (id : X.Uuid) (reason : CancelReason X) (source : String) (t : TaskRecord X)
      → fetch X T P s.registry.db id ≡ ok t
      → Values.is_active t.status ≡ false
      → let (r, s') = cancel_task X T P D s between rd id reason source in
        (r ≡ ok (cancelling X rd.request_stamp.now (reason_text X reason) source t))
        × (s'.registry ≡ (between (requested s rd id reason source)).registry)
        × (fetch X T P (requested s rd id reason source).registry.db id
            ≡ ok (cancelling X rd.request_stamp.now (reason_text X reason) source t))
  unfolding cancel_task conclude
  cancel_task_terminal s between rd id reason source t f closed =
      let (a, b, _, _) =
        marks_persist X T P s.registry rd.request_stamp id (reason_text X reason) source t f in
      let status = cancelling-status rd.request_stamp.now (reason_text X reason) source t in
      let closed_u : Values.is_active
            (cancelling X rd.request_stamp.now (reason_text X reason) source t).status
          ≡ false =
        rw status closed in
      (ground (arith, a, closed_u), ground (arith, a, closed_u), b)

  -- A request for a task that is not stored is refused as such, before any token is cancelled,
  -- any row is written or any event is published.
  pub cancel_task_unknown :
      (s : System X T P D) (between : System X T P D → System X T P D) (rd : Readings X)
      (id : X.Uuid) (reason : CancelReason X) (source : String) (e : TaskRegistryError X)
      → fetch X T P s.registry.db id ≡ err e
      → cancel_task X T P D s between rd id reason source ≡ (err e, s)
  unfolding cancel_task request_cancellation rewrite_task
  cancel_task_unknown s between rd id reason source e f = ground arith
