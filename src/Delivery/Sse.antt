-- ===== src/Delivery/Sse.antt =====
-- src/modules/delivery/sse.service.ts: one SSE stream as a state machine. Its inputs are the
-- callbacks that the code registers; its output is what it calls on the subscriber and on its
-- Redis client, in order.
pub mod Emitted
pub mod Order
pub mod Complete
pub mod CaughtUp
pub mod Gapless
use async_long_request_proxy.Prelude.{
  ℕ, String, Bool, true, false, not, Option, none, some, List, [], ◌∷◌, ◌++◌, max, ltb, leb, length,
  if◌then◌else◌,
}
use async_long_request_proxy.Result.{Error, not_found, Result, ok, err, App}
use async_long_request_proxy.Tasks.Repository.{find_by_id}
use async_long_request_proxy.Delivery.Schema.{
  TaskEventPayload, TaskEventType, TaskEventSelect, Db, event_type,
}

-- TERMINAL_EVENT_TYPES.has
abbrev pub is_terminal_event : TaskEventType → Bool
is_terminal_event TaskEventType.progress = false
is_terminal_event _ = true

abbrev pub max_live_buffer_size : ℕ
max_live_buffer_size = 500

-- The wire format: the sequence number is the event's id, and only the variant's fields are sent.
pub data MessageEvent : Type 0 where
  message_event : ℕ → TaskEventPayload → MessageEvent
  ping : MessageEvent

abbrev pub to_message_event : TaskEventSelect → MessageEvent
to_message_event e = message_event e.seq e.payload

pub data Call : Type 0 where
  next : MessageEvent → Call
  complete error : Call
  quit unsubscribe : Call

pub record Stream : Type 0 where
  pub is_done : Bool
  pub history_loaded : Bool
  pub highest_history_seq : ℕ
  pub live_buffer : List TaskEventSelect
  pub calls : List Call

abbrev pub open_stream : ℕ → Stream
open_stream after_seq = record {
  is_done = false;
  history_loaded = false;
  highest_history_seq = after_seq;
  live_buffer = [];
  calls = [];
}

abbrev pub call : Call → Stream → Stream
call c s = record s { calls = s.calls ++ c ∷ [] }

-- Sending an event whose number becomes the highest; a terminal event ends the stream.
abbrev pub send_event : TaskEventSelect → ℕ → Stream → Stream
send_event e highest s =
    let sent = call (next (to_message_event e)) (record s { highest_history_seq = highest }) in
    if is_terminal_event (event_type e.payload)
    then call complete (record sent { is_done = true })
    else sent

-- The 'message' callback, on the event that `JSON.parse` gives or on a parse error.
abbrev pub on_event : TaskEventSelect → Stream → Stream
on_event e s =
    if not s.history_loaded
    then (if leb max_live_buffer_size (length s.live_buffer)
        then call error (call quit (record s { is_done = true }))
        else record s { live_buffer = s.live_buffer ++ e ∷ [] })
    else if ltb s.highest_history_seq e.seq
    then send_event e e.seq s
    else s

abbrev pub on_parsed : Option TaskEventSelect → Stream → Stream
on_parsed none s = s
on_parsed (some e) s = on_event e s

unfoldable pub on_message : Option TaskEventSelect → Stream → Stream
on_message m s = if s.is_done then s else on_parsed m s

-- The loop over the buffered events, once the history has been sent.
unfoldable pub send_buffered : List TaskEventSelect → Stream → Stream
send_buffered [] s = record s { live_buffer = [] }
send_buffered (e ∷ es) s =
    let sent = send_event e e.seq s in
    let rest = send_buffered es sent in
    let skipped = send_buffered es s in
    if ltb s.highest_history_seq e.seq
    then (if sent.is_done then record sent { live_buffer = [] } else rest)
    else skipped

-- The loop over the history.
unfoldable pub send_history : List TaskEventSelect → Stream → Stream
send_history [] s = send_buffered s.live_buffer (record s { history_loaded = true })
send_history (e ∷ es) s =
    let sent = send_event e (max s.highest_history_seq e.seq) s in
    let rest = send_history es sent in if sent.is_done then sent else rest

unfoldable pub on_history : List TaskEventSelect → Stream → Stream
on_history es s = if s.is_done then s else send_history es s

-- `stream`: the task is looked up once, before the stream is opened.
unfoldable pub stream : String → ℕ → App Db Stream
stream task_id after_seq db = elim (find_by_id task_id db) [
  | none ↦ (err not_found, db)
  | some task ↦ (ok (open_stream after_seq), db)
]

-- What the environment may do to a stream.
pub data Input : Type 0 where
  message : Option TaskEventSelect → Input
  history : List TaskEventSelect → Input
  history_failed client_error subscribe_failed heartbeat teardown : Input

unfoldable pub step : Input → Stream → Stream
step (message m) s = on_message m s
step (history es) s = on_history es s
step history_failed s = if s.is_done then s else call error s
step client_error s = call error s
step subscribe_failed s = call error (call quit s)
step heartbeat s = if s.is_done then s else call (next ping) s
step teardown s = call quit (call unsubscribe (record s { is_done = true }))

unfoldable pub run : List Input → Stream → Stream
run [] s = s
run (i ∷ is) s = run is (step i s)
