-- ===== src/Delivery/StreamController.antt =====
-- src/modules/delivery/stream.controller.ts: the route of the streams.
pub mod Resume
use async_long_request_proxy.Prelude.{
  ℕ, ◌/◌, String, Bool, true, false, not, ◌&&◌, Option, none, some, [], ◌∷◌, nat_eq, if◌then◌else◌,
}
use async_long_request_proxy.Result.{App}
use async_long_request_proxy.Text.{Text, to_text}
use async_long_request_proxy.Text.Numeral.{Number, nan, infinite, finite, number}
use async_long_request_proxy.Delivery.Schema.{Db}
use async_long_request_proxy.Delivery.Sse.{MessageEvent, message_event, ping, Stream, stream}

-- Number.isFinite(parsed) && parsed >= 0 ? Math.floor(parsed) : 0
abbrev pub floor_or_zero : Number → ℕ
floor_or_zero nan = 0
floor_or_zero (infinite negative) = 0
floor_or_zero (finite negative units per_one) =
    if negative && not (nat_eq units 0) then 0 else units / per_one

unfoldable pub parse_last_event_id : Option Text → ℕ
parse_last_event_id none = 0
parse_last_event_id (some []) = 0
parse_last_event_id (some (c ∷ s)) = floor_or_zero (number (c ∷ s))

-- The `id` of a sent event: String(seq); a heartbeat has none.
abbrev pub event_id : MessageEvent → Option Text
event_id (message_event seq payload) = some (to_text seq)
event_id ping = none

-- GET /tasks/:id/stream, with the request's Last-Event-ID header.
unfoldable pub get_stream : String → Option Text → App Db Stream
get_stream id last_event_id = stream id (parse_last_event_id last_event_id)
