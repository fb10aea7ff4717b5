-- ===== src/Delivery/Sse/Complete.antt =====
-- A stream ends with the task: nothing is sent after a terminal event.
use mathlib.Core.List.{append-nil}
use async_long_request_proxy.Prelude.{
  ℕ, ◌≡◌, refl, ap, Bool, true, false, not, none, some, List, [], ◌∷◌, ◌++◌, leb, ltb, length, max,
  All, All-append, if_rule,
}
use async_long_request_proxy.Delivery.Schema.{TaskEventSelect, event_type}
use async_long_request_proxy.Delivery.Sse.{
  is_terminal_event, max_live_buffer_size, MessageEvent, message_event, ping, to_message_event,
  Call, next, complete, error, quit, unsubscribe, Stream, open_stream, call, send_event, on_event,
  on_message, send_buffered, send_history, on_history, Input, message, history, history_failed,
  client_error, subscribe_failed, heartbeat, teardown, step, run,
}

abbrev pub is_end : MessageEvent → Bool
is_end (message_event n payload) = is_terminal_event (event_type payload)
is_end ping = false

-- What the subscriber has received.
unfoldable pub received : List Call → List MessageEvent
received [] = []
received (next m ∷ cs) = m ∷ received cs
received (complete ∷ cs) = received cs
received (error ∷ cs) = received cs
received (quit ∷ cs) = received cs
received (unsubscribe ∷ cs) = received cs

received-append : (cs ds : List Call) → received (cs ++ ds) ≡ received cs ++ received ds
unfolding received
received-append [] ds = refl
received-append (next m ∷ cs) ds = ap (λ ms. m ∷ ms) (received-append cs ds)
received-append (complete ∷ cs) ds = received-append cs ds
received-append (error ∷ cs) ds = received-append cs ds
received-append (quit ∷ cs) ds = received-append cs ds
received-append (unsubscribe ∷ cs) ds = received-append cs ds

-- An end is the last message.
abbrev pub EndsOnce : List MessageEvent → Type 0
EndsOnce [] = Unit
EndsOnce (m ∷ ms) = (is_end m ≡ true → ms ≡ []) × EndsOnce ms

abbrev IsLive : MessageEvent → Type 0
IsLive m = is_end m ≡ false

EndsOnce-append :
    (ms : List MessageEvent) (m : MessageEvent) → All IsLive ms → EndsOnce (ms ++ m ∷ [])
EndsOnce-append [] m l = ((λ e. refl), tt)
EndsOnce-append (k ∷ ms) m l = ((λ e. cc), EndsOnce-append ms m l.1)

-- Until the stream is done, no end has been sent.
abbrev IsEnding : Stream → Type 0
IsEnding s = EndsOnce (received s.calls) × (s.is_done ≡ false → All IsLive (received s.calls))

call-IsEnding : (c : Call) (s : Stream) → received (c ∷ []) ≡ [] → IsEnding s → IsEnding (call c s)
call-IsEnding c s n h = rw (received-append s.calls (c ∷ []), n, append-nil) h

stop-IsEnding : (s : Stream) → IsEnding s → IsEnding (record s { is_done = true })
stop-IsEnding s h = (h.0, λ d. cc)

next-IsEnding :
    (m : MessageEvent) (s : Stream)
    → is_end m ≡ false
    → s.is_done ≡ false
    → IsEnding s
    → IsEnding (call (next m) s)
unfolding received
next-IsEnding m s l d h = rw (received-append s.calls (next m ∷ [])) (
  EndsOnce-append (received s.calls) m (h.1 d),
  λ d. All-append IsLive (received s.calls) (m ∷ []) (h.1 d) (l, tt),
)

send_event-IsEnding :
    (e : TaskEventSelect) (highest : ℕ) (s : Stream)
    → s.is_done ≡ false
    → IsEnding s
    → IsEnding (send_event e highest s)
send_event-IsEnding e highest s d h =
    let raised = record s { highest_history_seq = highest } in
    let sent = call (next (to_message_event e)) raised in
    let stopped : IsEnding (record sent { is_done = true }) =
      unfold received in
      rw (received-append s.calls (next (to_message_event e) ∷ []))
        (EndsOnce-append (received s.calls) (to_message_event e) (h.1 d), λ d. cc) in
    if_rule IsEnding (is_terminal_event (event_type e.payload)) _ _
      (λ t.
        call-IsEnding complete (record sent { is_done = true }) (unfold received in refl) stopped)
      (λ f. next-IsEnding (to_message_event e) raised f d h)

send_buffered-IsEnding :
    (es : List TaskEventSelect) (s : Stream)
    → s.is_done ≡ false
    → IsEnding s
    → IsEnding (send_buffered es s)
unfolding send_buffered
send_buffered-IsEnding [] s d h = h
send_buffered-IsEnding (e ∷ es) s d h =
    let sent = send_event e e.seq s in
    let sending = send_event-IsEnding e e.seq s d h in
    if_rule IsEnding (ltb s.highest_history_seq e.seq) _ _
      (λ b.
        if_rule IsEnding sent.is_done _ _ (λ t. sending)
          (λ f. send_buffered-IsEnding es sent f sending))
      (λ b. send_buffered-IsEnding es s d h)

send_history-IsEnding :
    (es : List TaskEventSelect) (s : Stream)
    → s.is_done ≡ false
    → IsEnding s
    → IsEnding (send_history es s)
unfolding send_history
send_history-IsEnding [] s d h =
    send_buffered-IsEnding s.live_buffer (record s { history_loaded = true }) d h
send_history-IsEnding (e ∷ es) s d h =
    let highest = max s.highest_history_seq e.seq in
    let sent = send_event e highest s in
    let sending = send_event-IsEnding e highest s d h in
    if_rule IsEnding sent.is_done _ _ (λ t. sending) (λ f. send_history-IsEnding es sent f sending)

on_event-IsEnding :
    (e : TaskEventSelect) (s : Stream) → s.is_done ≡ false → IsEnding s → IsEnding (on_event e s)
on_event-IsEnding e s d h =
    let stopped = record s { is_done = true } in
    if_rule IsEnding (not s.history_loaded) _ _
      (λ l.
        if_rule IsEnding (leb max_live_buffer_size (length s.live_buffer)) _ _
          (λ f.
            call-IsEnding error (call quit stopped) (unfold received in refl)
              (call-IsEnding quit stopped (unfold received in refl) (stop-IsEnding s h)))
          (λ f. h))
      (λ l.
        if_rule IsEnding (ltb s.highest_history_seq e.seq) _ _
          (λ b. send_event-IsEnding e e.seq s d h) (λ b. h))

step-IsEnding : (i : Input) (s : Stream) → IsEnding s → IsEnding (step i s)
unfolding step on_message on_history received
step-IsEnding (message none) s h = if_rule IsEnding s.is_done s s (λ d. h) (λ d. h)
step-IsEnding (message (some e)) s h =
    if_rule IsEnding s.is_done s _ (λ d. h) (λ d. on_event-IsEnding e s d h)
step-IsEnding (history es) s h =
    if_rule IsEnding s.is_done s _ (λ d. h) (λ d. send_history-IsEnding es s d h)
step-IsEnding history_failed s h =
    if_rule IsEnding s.is_done s _ (λ d. h) (λ d. call-IsEnding error s refl h)
step-IsEnding client_error s h = call-IsEnding error s refl h
step-IsEnding subscribe_failed s h =
    call-IsEnding error (call quit s) refl (call-IsEnding quit s refl h)
step-IsEnding heartbeat s h =
    if_rule IsEnding s.is_done s _ (λ d. h) (λ d. next-IsEnding ping s refl d h)
step-IsEnding teardown s h =
    let stopped = record s { is_done = true } in
    call-IsEnding quit (call unsubscribe stopped) refl
      (call-IsEnding unsubscribe stopped refl (stop-IsEnding s h))

run-IsEnding : (is : List Input) (s : Stream) → IsEnding s → IsEnding (run is s)
unfolding run
run-IsEnding [] s h = h
run-IsEnding (i ∷ is) s h = run-IsEnding is (step i s) (step-IsEnding i s h)

-- Whatever happens around a stream, and in whatever order, a subscriber that receives a terminal
-- event receives nothing after it, no heartbeat either.
pub run-EndsOnce :
    (is : List Input) (after_seq : ℕ) → EndsOnce (received (run is (open_stream after_seq)).calls)
run-EndsOnce is after_seq =
    (run-IsEnding is (open_stream after_seq) (unfold received in (tt, λ d. tt))).0
