-- ===== src/Delivery/StreamController/Resume.antt =====
-- A client that reconnects with the id of the last event that it got resumes behind that event.
use native.Mathlib.Nat.{mul-div_cancel}
use async_long_request_proxy.Prelude.{
  ℕ, ◌^◌, ◌<◌, ◌≡◌, sym, ap, ◌∙◌, String, Option, some, List, [], ◌∷◌,
}
use async_long_request_proxy.Text.{Text, to_text}
use async_long_request_proxy.Text.Digits.{to_text-cons}
use async_long_request_proxy.Text.Numeral.{number}
use async_long_request_proxy.Text.Numeral.Whole.{number-to_text}
use async_long_request_proxy.Delivery.Schema.{Db}
use async_long_request_proxy.Delivery.Events.{find_events_since}
use async_long_request_proxy.Delivery.Sse.{
  Stream, message_event, ping, Call, next, complete, error, quit, unsubscribe, open_stream, history,
  run,
}
use async_long_request_proxy.Delivery.StreamController.{floor_or_zero, parse_last_event_id}

-- The id of each sent event, a whole number below 2 ^ 53, is parsed back to the event's number.
pub parse_last_event_id-to_text : (n : ℕ) → n < 2 ^ 53 → parse_last_event_id (some (to_text n)) ≡ n
unfolding parse_last_event_id
parse_last_event_id-to_text n h =
    let (d, ds, e) = to_text-cons n in
    let (p, pos, read) = number-to_text n h in
    rw e (ap floor_or_zero (ap number (sym e) ∙ read) ∙ mul-div_cancel n pos)

-- The id that the client has kept after some calls on its stream.
unfoldable pub last_id : Option Text → List Call → Option Text
last_id kept [] = kept
last_id kept (next (message_event n payload) ∷ cs) = last_id (some (to_text n)) cs
last_id kept (next ping ∷ cs) = last_id kept cs
last_id kept (complete ∷ cs) = last_id kept cs
last_id kept (error ∷ cs) = last_id kept cs
last_id kept (quit ∷ cs) = last_id kept cs
last_id kept (unsubscribe ∷ cs) = last_id kept cs

abbrev id_of : Option Text → List ℕ → Option Text
id_of kept [] = kept
id_of kept (n ∷ ns) = id_of (some (to_text n)) ns

-- The stream of a client that has the events 1 to n, once the history has been sent.
abbrev pub caught_up : String → ℕ → Db → Stream
caught_up t n db = run (history (find_events_since t n db.events) ∷ []) (open_stream n)
