-- ===== src/Examples/Resuming.antt =====
-- A client that reconnects to a task's stream, at concrete inputs.
use async_long_request_proxy.Prelude.{List, [], ◌∷◌}
use async_long_request_proxy.Delivery.Schema.{TaskEventPayload, Db}
use async_long_request_proxy.Delivery.Sse.{message_event, ping, Call, next}
use async_long_request_proxy.Examples.{processing_row}
use async_long_request_proxy.Examples.Streaming.{ten, twenty, done}

abbrev db : Db
db = record { tasks = processing_row ∷ []; events = ten ∷ twenty ∷ done ∷ [] }

-- One event and a heartbeat have been received.
abbrev before : List Call
before = next (message_event 1 (TaskEventPayload.progress 10)) ∷ next ping ∷ []
