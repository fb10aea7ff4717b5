-- ===== src/Delivery/Sse/Order.antt =====
-- The events of a stream go out in order, each at most once, and nothing follows its end.
use mathlib.Core.Path.{subst}
use mathlib.Core.List.{append-nil}
use async_long_request_proxy.Prelude.{
  ℕ, ◌<◌, ◌≡◌, refl, sym, ◌∙◌, Bool, true, false, Option, none, some, List, [], ◌∷◌, ◌++◌, map, max,
  ltb, leb, length, any, arith, Bool-cases, inl, inr, if_rule, not,
}
use async_long_request_proxy.Delivery.Schema.{TaskEventSelect, event_type}
use async_long_request_proxy.Delivery.Events.Replay.{IsRising}
use async_long_request_proxy.Delivery.Sse.{
  is_terminal_event, max_live_buffer_size, message_event, ping, Call, next, complete, error, quit,
  unsubscribe, Stream, open_stream, call, send_event, on_event, on_message, send_buffered,
  send_history, on_history, Input, message, history, history_failed, client_error, subscribe_failed,
  heartbeat, teardown, step, run,
}
use async_long_request_proxy.Delivery.Sse.Emitted.{emitted, emitted-append}

-- The numbers rise strictly from above `lo`, and end with `hi`.
abbrev pub RisesTo : ℕ → List ℕ → ℕ → Type 0
RisesTo lo [] hi = lo ≡ hi
RisesTo lo (n ∷ ns) hi = (lo < n) × RisesTo n ns hi

RisesTo-append :
    (lo : ℕ) (ns : List ℕ) (hi n : ℕ) → RisesTo lo ns hi → hi < n → RisesTo lo (ns ++ n ∷ []) n
RisesTo-append lo [] hi n h k = (omega arith, refl)
RisesTo-append lo (m ∷ ns) hi n h k = (h.0, RisesTo-append m ns hi n h.1 k)

-- What has been sent rises from the client's number to the highest number seen.
abbrev pub IsOrdered : ℕ → Stream → Type 0
IsOrdered a s = RisesTo a (emitted s.calls) s.highest_history_seq

pub send_event-highest :
    (e : TaskEventSelect) (highest : ℕ) (s : Stream)
    → (send_event e highest s).highest_history_seq ≡ highest
send_event-highest e highest s = elim (Bool-cases (is_terminal_event (event_type e.payload))) [
  | inl t ↦ rw t refl
  | inr f ↦ rw f refl
]

abbrev pub is_history : Input → Bool
is_history (history es) = true
is_history _ = false

any-cons :
    (i : Input) (is : List Input)
    → any is_history (i ∷ is) ≡ false
    → (is_history i ≡ false) × (any is_history is ≡ false)
any-cons i is n = ground arith

module _ (a : ℕ) where
  call-IsOrdered :
      (c : Call) (s : Stream) → emitted (c ∷ []) ≡ [] → IsOrdered a s → IsOrdered a (call c s)
  call-IsOrdered c s none_sent h = rw (emitted-append s.calls (c ∷ []), none_sent, append-nil) h

  send_event-IsOrdered :
      (e : TaskEventSelect) (highest : ℕ) (s : Stream)
      → highest ≡ e.seq
      → s.highest_history_seq < e.seq
      → IsOrdered a s
      → IsOrdered a (send_event e highest s)
  send_event-IsOrdered e highest s same above h =
      let sent =
        call (next (message_event e.seq e.payload)) (record s { highest_history_seq = highest }) in
      let ordered : IsOrdered a sent =
        rw (same, emitted-append s.calls (next (message_event e.seq e.payload) ∷ []))
          (unfold emitted in
            RisesTo-append a (emitted s.calls) s.highest_history_seq e.seq h above) in
      elim (Bool-cases (is_terminal_event (event_type e.payload))) [
        | inl t ↦ rw t (
            call-IsOrdered complete (record sent { is_done = true }) (unfold emitted in refl)
              ordered)
        | inr f ↦ rw f ordered
      ]

  send_buffered-IsOrdered :
      (es : List TaskEventSelect) (s : Stream) → IsOrdered a s → IsOrdered a (send_buffered es s)
  unfolding send_buffered
  send_buffered-IsOrdered [] s h = h
  send_buffered-IsOrdered (e ∷ es) s h = elim (Bool-cases (ltb s.highest_history_seq e.seq)) [
    | inl b ↦
        let sent = send_event e e.seq s in
        let ordered = send_event-IsOrdered e e.seq s refl (ground (arith, b)) h in
        elim (Bool-cases sent.is_done) [
          | inl d ↦ rw (b, d) ordered
          | inr d ↦ rw (b, d) (send_buffered-IsOrdered es sent ordered)
        ]
    | inr b ↦ rw b (send_buffered-IsOrdered es s h)
  ]

  send_history-IsOrdered :
      (es : List TaskEventSelect) (s : Stream)
      → IsRising s.highest_history_seq (map (λ e. e.seq) es)
      → IsOrdered a s
      → IsOrdered a (send_history es s)
  unfolding send_history
  send_history-IsOrdered [] s r h =
      send_buffered-IsOrdered s.live_buffer (record s { history_loaded = true }) h
  send_history-IsOrdered (e ∷ es) s r h =
      let highest = max s.highest_history_seq e.seq in
      let same : highest ≡ e.seq = omega (arith, r.0) in
      let sent = send_event e highest s in
      let ordered = send_event-IsOrdered e highest s same r.0 h in
      let rising : IsRising sent.highest_history_seq (map (λ f. f.seq) es) =
        subst (λ n. IsRising n (map (λ f. f.seq) es)) (sym (send_event-highest e highest s ∙ same))
          r.1 in
      elim (Bool-cases sent.is_done) [
        | inl d ↦ rw d ordered
        | inr d ↦ rw d (send_history-IsOrdered es sent rising ordered)
      ]

  on_event-IsOrdered :
      (e : TaskEventSelect) (s : Stream) → IsOrdered a s → IsOrdered a (on_event e s)
  on_event-IsOrdered e s h =
      let stopped = record s { is_done = true } in
      if_rule (IsOrdered a) (not s.history_loaded) _ _
        (λ l.
          if_rule (IsOrdered a) (leb max_live_buffer_size (length s.live_buffer)) _ _
            (λ f.
              call-IsOrdered error (call quit stopped) (unfold emitted in refl)
                (call-IsOrdered quit stopped (unfold emitted in refl) h))
            (λ f. h))
        (λ l.
          if_rule (IsOrdered a) (ltb s.highest_history_seq e.seq) _ _
            (λ b. send_event-IsOrdered e e.seq s refl (ground (arith, b)) h) (λ b. h))

  on_message-IsOrdered :
      (m : Option TaskEventSelect) (s : Stream) → IsOrdered a s → IsOrdered a (on_message m s)
  unfolding on_message
  on_message-IsOrdered none s h = if_rule (IsOrdered a) s.is_done s s (λ d. h) (λ d. h)
  on_message-IsOrdered (some e) s h =
      if_rule (IsOrdered a) s.is_done s _ (λ d. h) (λ d. on_event-IsOrdered e s h)

  -- Every input but the history.
  step-IsOrdered :
      (i : Input) (s : Stream) → is_history i ≡ false → IsOrdered a s → IsOrdered a (step i s)
  unfolding step emitted
  step-IsOrdered (message m) s n h = on_message-IsOrdered m s h
  step-IsOrdered (history es) s n h = cc
  step-IsOrdered history_failed s n h = elim (Bool-cases s.is_done) [
    | inl d ↦ rw d h
    | inr d ↦ rw d (call-IsOrdered error s refl h)
  ]
  step-IsOrdered client_error s n h = call-IsOrdered error s refl h
  step-IsOrdered subscribe_failed s n h =
      call-IsOrdered error (call quit s) refl (call-IsOrdered quit s refl h)
  step-IsOrdered heartbeat s n h = elim (Bool-cases s.is_done) [
    | inl d ↦ rw d h
    | inr d ↦ rw d (call-IsOrdered (next ping) s refl h)
  ]
  step-IsOrdered teardown s n h =
      let stopped = record s { is_done = true } in
      call-IsOrdered quit (call unsubscribe stopped) refl
        (call-IsOrdered unsubscribe stopped refl h)

  run-IsOrdered :
      (is : List Input) (s : Stream)
      → any is_history is ≡ false
      → IsOrdered a s
      → IsOrdered a (run is s)
  unfolding run
  run-IsOrdered [] s n h = h
  run-IsOrdered (i ∷ is) s n h =
      let (one, rest) = any-cons i is n in
      run-IsOrdered is (step i s) rest (step-IsOrdered i s one h)

  -- Before the history nothing is sent, and the highest number is the client's.
  abbrev IsWaiting : Stream → Type 0
  IsWaiting s = (s.highest_history_seq ≡ a) × (s.history_loaded ≡ false)

  step-IsWaiting :
      (i : Input) (s : Stream) → is_history i ≡ false → IsWaiting s → IsWaiting (step i s)
  unfolding step on_message
  step-IsWaiting (message none) s n w = ground arith
  step-IsWaiting (message (some e)) s n w = ground arith
  step-IsWaiting (history es) s n w = cc
  step-IsWaiting history_failed s n w = ground arith
  step-IsWaiting client_error s n w = w
  step-IsWaiting subscribe_failed s n w = w
  step-IsWaiting heartbeat s n w = ground arith
  step-IsWaiting teardown s n w = w

  run-IsWaiting :
      (is : List Input) (s : Stream)
      → any is_history is ≡ false
      → IsWaiting s
      → IsWaiting (run is s)
  unfolding run
  run-IsWaiting [] s n w = w
  run-IsWaiting (i ∷ is) s n w =
      let (one, rest) = any-cons i is n in
      run-IsWaiting is (step i s) rest (step-IsWaiting i s one w)

pub run-append : (is js : List Input) (s : Stream) → run (is ++ js) s ≡ run js (run is s)
unfolding run
run-append [] js s = refl
run-append (i ∷ is) js s = run-append is js (step i s)

-- Whatever messages, errors and heartbeats surround the one answer of the history query, if that
-- answer is in order the numbers of the events sent rise strictly from above `Last-Event-ID`: no
-- event is sent twice, none out of order and none that the client has seen.
pub run-RisesTo :
    (after_seq : ℕ) (before later : List Input) (es : List TaskEventSelect)
    → any is_history before ≡ false
    → any is_history later ≡ false
    → IsRising after_seq (map (λ e. e.seq) es)
    → let s = run (before ++ history es ∷ later) (open_stream after_seq) in
      RisesTo after_seq (emitted s.calls) s.highest_history_seq
run-RisesTo a before later es nb nl rising =
    let opened = open_stream a in
    let s = run before opened in
    let waiting = run-IsWaiting a before opened nb (refl, refl) in
    let ordered = run-IsOrdered a before opened nb (unfold emitted in refl) in
    let rises = subst (λ n. IsRising n (map (λ e. e.seq) es)) (sym waiting.0) rising in
    let sent : IsOrdered a (step (history es) s) =
      unfold step in
      unfold on_history in
      if_rule (IsOrdered a) s.is_done s _ (λ d. ordered)
        (λ d. send_history-IsOrdered a es s rises ordered) in
    rw (run-append before (history es ∷ later) opened)
      (unfold run in run-IsOrdered a later (step (history es) s) nl sent)
