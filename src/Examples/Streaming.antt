-- ===== src/Examples/Streaming.antt =====
-- An SSE stream of a task that finishes, at concrete inputs.
use async_long_request_proxy.Prelude.{
  ℕ, ◌+◌, ◌-◌, max, nat_eq, count_up, ◌++◌, ◌≡◌, refl, List, [], ◌∷◌, some, none, arith,
}
use async_long_request_proxy.Delivery.Schema.{TaskEventPayload, TaskEventSelect}
use async_long_request_proxy.Delivery.Sse.{
  Input, message, history, heartbeat, teardown, open_stream, run, step, on_message, on_history,
  send_history, send_buffered,
}
use async_long_request_proxy.Delivery.Sse.Emitted.{emitted}
use async_long_request_proxy.Delivery.Sse.Order.{RisesTo, run-RisesTo}
use async_long_request_proxy.Delivery.Sse.Gapless.{messages, run-gapless}
use async_long_request_proxy.Delivery.Sse.CaughtUp.{completed}
use async_long_request_proxy.Delivery.Sse.Complete.{received, EndsOnce, run-EndsOnce}

abbrev event : ℕ → TaskEventPayload → TaskEventSelect
event seq payload = record {
  id = "e";
  task_id = "t1";
  seq = seq;
  payload = payload;
  created_at = 0;
}

abbrev pub ten : TaskEventSelect
ten = event 1 (TaskEventPayload.progress 10)

abbrev pub twenty : TaskEventSelect
twenty = event 2 (TaskEventPayload.progress 20)

abbrev pub done : TaskEventSelect
done = event 3 (TaskEventPayload.completed "{}")

abbrev early : List Input
early = heartbeat ∷ message (some twenty) ∷ message none ∷ []

abbrev late : List Input
late = message (some twenty) ∷ message (some done) ∷ heartbeat ∷ teardown ∷ []

-- The live event that the history also has is sent once, and the heartbeat after the end not at
-- all.
the_stream :
    emitted
      (run
        (heartbeat ∷ message (some twenty) ∷ history (ten ∷ twenty ∷ []) ∷ late)
        (open_stream 0)).calls
    ≡ 1 ∷ 2 ∷ 3 ∷ []
unfolding run emitted step on_message on_history send_history send_buffered
the_stream = refl

run-RisesTo_example :
    let s =
      run
        (heartbeat ∷ message (some twenty) ∷ message none ∷ history (ten ∷ twenty ∷ []) ∷ late)
        (open_stream 0) in
    RisesTo 0 (emitted s.calls) s.highest_history_seq
run-RisesTo_example =
    run-RisesTo 0 early late (ten ∷ twenty ∷ []) refl refl (omega arith, (omega arith, tt))

run-EndsOnce_example : EndsOnce (received (run late (open_stream 0)).calls)
run-EndsOnce_example = run-EndsOnce late 0

-- The end comes live.
run-gapless_example :
    let s =
      run
        (messages (twenty ∷ []) ++ history (ten ∷ twenty ∷ []) ∷ messages (done ∷ []))
        (open_stream 0) in
    let reached = max (0 + 2) (1 + 1 + 1) in
    (emitted s.calls ≡ count_up 0 (reached - 0))
    × (s.is_done ≡ nat_eq reached 3)
    × (completed s.calls ≡ nat_eq reached 3)
run-gapless_example =
    run-gapless 0 3 2 1 1 1 (twenty ∷ []) (ten ∷ twenty ∷ []) (done ∷ []) (omega arith) refl refl
      refl (omega arith) (omega arith) ((refl, omega arith), ((refl, omega arith), tt))
      ((refl, omega arith), tt) ((refl, omega arith), tt)
