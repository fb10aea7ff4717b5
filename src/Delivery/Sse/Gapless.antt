-- ===== src/Delivery/Sse/Gapless.antt =====
-- A stream misses no event and ends with its task: what the history does not have has been
-- buffered.
use mathlib.Core.Path.{subst}
use mathlib.Core.List.{append-nil, append_assoc}
use async_long_request_proxy.Prelude.{
  ℕ, zero, suc, ◌+◌, ◌-◌, ◌≤◌, ◌<◌, ◌≡◌, refl, sym, ap, ◌∙◌, true, false, not, some, List, [], ◌∷◌,
  ◌++◌, map, max, leb, nat_eq, Bool, length, length-append, count_up, All, arith, if_rule,
}
use async_long_request_proxy.Delivery.Schema.{TaskEventSelect}
use async_long_request_proxy.Delivery.Sse.{
  max_live_buffer_size, Stream, open_stream, send_event, on_message, send_buffered, send_history,
  on_history, Input, message, history, step, run,
}
use async_long_request_proxy.Delivery.Sse.Emitted.{emitted}
use async_long_request_proxy.Delivery.Sse.Order.{run-append}
use async_long_request_proxy.Delivery.Sse.CaughtUp.{
  seqs_of, completed, EndsAt, count_up-EndsAt, IsCaughtUp, done-last, send_event-IsCaughtUp,
  on_event-IsCaughtUp, send_buffered-IsCaughtUp, send_event-live_buffer,
}

abbrev pub messages : List TaskEventSelect → List Input
messages = map (λ e. message (some e))

module _ (a last : ℕ) where
  -- A stream that has ended needs no history any more.
  ended-IsCaughtUp :
      (loaded : Bool) (h : ℕ) (s : Stream)
      → s.is_done ≡ true
      → IsCaughtUp a last loaded h s
      → IsCaughtUp a last true h s
  ended-IsCaughtUp loaded h s d c = (c.0, c.1, c.2, c.3, λ f. cc)

  send_history-IsCaughtUp :
      (es : List TaskEventSelect) (k h m n : ℕ) (s : Stream)
      → a ≤ h
      → m ≤ h + k
      → h ≤ last
      → All (EndsAt last) es
      → seqs_of es ≡ count_up h k
      → All (EndsAt last) s.live_buffer
      → seqs_of s.live_buffer ≡ count_up m n
      → s.is_done ≡ false
      → IsCaughtUp a last false h s
      → IsCaughtUp a last true (max (h + k) (m + n)) (send_history es s)
  unfolding send_history
  send_history-IsCaughtUp [] zero h m n s above low high r q rb qb going c =
      let read = record s { history_loaded = true } in
      subst (λ j. IsCaughtUp a last true j (send_buffered s.live_buffer read)) (omega arith)
        (send_buffered-IsCaughtUp a last s.live_buffer n m h read above (omega (arith, low)) high rb
          qb going (c.0, c.1, c.2, c.3, λ f. refl))
  send_history-IsCaughtUp [] (suc k) h m n s above low high r q rb qb going c = cc
  send_history-IsCaughtUp (e ∷ es) zero h m n s above low high r q rb qb going c = cc
  send_history-IsCaughtUp (e ∷ es) (suc k) h m n s above low high r q rb qb going c =
      let number : e.seq ≡ suc h = cc in
      let tail : seqs_of es ≡ count_up (suc h) k = cc in
      let fits : h + suc k ≤ last = count_up-EndsAt last (e ∷ es) h (suc k) high r q in
      let held : m + n ≤ last =
        count_up-EndsAt last s.live_buffer m n (omega (arith, low, fits)) rb qb in
      let highest = max s.highest_history_seq e.seq in
      let same : highest ≡ e.seq = omega (arith, number, c.1) in
      let sent = send_event e highest s in
      let d = send_event-IsCaughtUp a last false h e highest s above r.0 number same going c in
      let buffered = sym (send_event-live_buffer e highest s) in
      if_rule (IsCaughtUp a last true (max (h + suc k) (m + n))) sent.is_done _ _
        (λ f.
          let end = done-last a last false (suc h) sent d f in
          subst (λ j. IsCaughtUp a last true j sent) (omega (arith, end, fits, held))
            (ended-IsCaughtUp false (suc h) sent f d))
        (λ f.
          subst (λ j. IsCaughtUp a last true j (send_history es sent)) (omega arith)
            (send_history-IsCaughtUp es k (suc h) m n sent (omega (arith, above))
              (omega (arith, low)) (omega (arith, fits)) r.1 tail
              (subst (All (EndsAt last)) buffered rb)
              (subst (λ b. seqs_of b ≡ count_up m n) buffered qb) f d))

  -- Before the history, what has come is in the buffer.
  abbrev IsBuffered : List TaskEventSelect → Stream → Type 0
  IsBuffered bs s = (s.live_buffer ≡ bs) × (s.is_done ≡ false) × IsCaughtUp a last false a s

  message-IsBuffered :
      (e : TaskEventSelect) (bs : List TaskEventSelect) (s : Stream)
      → length bs < max_live_buffer_size
      → IsBuffered bs s
      → IsBuffered (bs ++ e ∷ []) (on_message (some e) s)
  unfolding on_message
  message-IsBuffered e bs s few (held, going, c) =
      let P = IsBuffered (bs ++ e ∷ []) in
      let room : length s.live_buffer < max_live_buffer_size =
        subst (λ (xs : List TaskEventSelect). length xs < max_live_buffer_size) (sym held) few in
      if_rule P s.is_done _ _ (λ d. cc)
        (λ d.
          if_rule P (not s.history_loaded) _ _
            (λ l.
              if_rule P (leb max_live_buffer_size (length s.live_buffer)) _ _
                (λ f. ground (arith, f, room)) (λ f. (ap (λ xs. xs ++ e ∷ []) held, going, c)))
            (λ l. let waiting : not s.history_loaded ≡ true = ap not (c.4 going) in cc))

  messages-IsBuffered :
      (es bs : List TaskEventSelect) (s : Stream)
      → length bs + length es ≤ max_live_buffer_size
      → IsBuffered bs s
      → IsBuffered (bs ++ es) (run (messages es) s)
  unfolding run step
  messages-IsBuffered [] bs s few b = rw append-nil b
  messages-IsBuffered (e ∷ es) bs s few b =
      subst (λ xs. IsBuffered xs (run (messages es) (on_message (some e) s)))
        (append_assoc bs (e ∷ []) es)
        (messages-IsBuffered es (bs ++ e ∷ []) (on_message (some e) s)
          (omega (arith, few, length-append bs (e ∷ [])))
          (message-IsBuffered e bs s (omega (arith, few)) b))

  message-IsCaughtUp :
      (e : TaskEventSelect) (h : ℕ) (s : Stream)
      → a ≤ h
      → EndsAt last e
      → e.seq ≤ suc h
      → IsCaughtUp a last true h s
      → IsCaughtUp a last true (max h e.seq) (on_message (some e) s)
  unfolding on_message
  message-IsCaughtUp e h s above ending near c =
      if_rule (IsCaughtUp a last true (max h e.seq)) s.is_done _ _
        (λ d.
          let end = done-last a last true h s c d in
          subst (λ k. IsCaughtUp a last true k s) (omega (arith, end, ending.1)) c)
        (λ d. on_event-IsCaughtUp a last h e s above ending near d c)

  messages-IsCaughtUp :
      (es : List TaskEventSelect) (n m h : ℕ) (s : Stream)
      → a ≤ h
      → m ≤ h
      → All (EndsAt last) es
      → seqs_of es ≡ count_up m n
      → IsCaughtUp a last true h s
      → IsCaughtUp a last true (max h (m + n)) (run (messages es) s)
  unfolding run step
  messages-IsCaughtUp [] zero m h s above low r q c =
      subst (λ k. IsCaughtUp a last true k s) (omega (arith, low)) c
  messages-IsCaughtUp [] (suc n) m h s above low r q c = cc
  messages-IsCaughtUp (e ∷ es) zero m h s above low r q c = cc
  messages-IsCaughtUp (e ∷ es) (suc n) m h s above low r q c =
      let number : e.seq ≡ suc m = cc in
      let tail : seqs_of es ≡ count_up (suc m) n = cc in
      let d = message-IsCaughtUp e h s above r.0 (omega (arith, number, low)) c in
      subst (λ k. IsCaughtUp a last true k (run (messages es) (on_message (some e) s)))
        (omega (arith, number))
        (messages-IsCaughtUp es n (suc m) (max h e.seq) (on_message (some e) s)
          (omega (arith, above)) (omega (arith, number)) r.1 tail d)

-- A stream misses nothing, repeats nothing, and ends with its task. The client has the events up to
-- `a`; the history gives the next `k`; the live messages are the events after some number `m` that
-- the history reaches, in order, at most 500 of them before the answer of the history query. Only
-- the event numbered `last` ends the task, which is above `a` and may not have come; no event is
-- behind it. Then what has been sent are the events after `a` up to the last one of history and
-- messages, in order, and the subscriber has been completed exactly if that is the one numbered
-- `last`, whether it came with the history, in the buffer or live.
pub run-gapless :
    (a last k m n l : ℕ) (bs hs ls : List TaskEventSelect)
    → a < last
    → seqs_of hs ≡ count_up a k
    → seqs_of bs ≡ count_up m n
    → seqs_of ls ≡ count_up (m + n) l
    → m ≤ a + k
    → length bs ≤ max_live_buffer_size
    → All (EndsAt last) hs
    → All (EndsAt last) bs
    → All (EndsAt last) ls
    → let s = run (messages bs ++ history hs ∷ messages ls) (open_stream a) in
      let reached = max (a + k) (m + n + l) in
      (emitted s.calls ≡ count_up a (reached - a))
      × (s.is_done ≡ nat_eq reached last)
      × (completed s.calls ≡ nat_eq reached last)
run-gapless a last k m n l bs hs ls to_come qh qb ql reach few rh rb rl =
    let opened = open_stream a in
    let none_due : ◌≡◌ {A = ℕ} 0 (a - a) = omega arith in
    let none_sent : emitted [] ≡ count_up a (a - a) = unfold emitted in ap (count_up a) none_due in
    let not_last : ◌≡◌ {A = Bool} false (nat_eq a last) = ground (arith, to_come) in
    let start : IsBuffered a last [] opened =
      (refl, refl, (none_sent, refl, not_last, (unfold completed in refl), λ f. refl)) in
    let s = run (messages bs) opened in
    let (held, going, c) = messages-IsBuffered a last bs [] opened (omega (arith, few)) start in
    let reached = max (a + k) (m + n) in
    let read : IsCaughtUp a last true reached (on_history hs s) =
      unfold on_history in
      if_rule (IsCaughtUp a last true reached) s.is_done s _ (λ d. cc)
        (λ d.
          send_history-IsCaughtUp a last hs k a m n s (omega arith) reach (omega (arith, to_come))
            rh qh (subst (All (EndsAt last)) (sym held) rb)
            (subst (λ b. seqs_of b ≡ count_up m n) (sym held) qb) d c) in
    let (sent, _, ends, finishes, _) =
      messages-IsCaughtUp a last ls l (m + n) reached (on_history hs s) (omega arith) (omega arith)
        rl ql read in
    let all : max reached (m + n + l) ≡ max (a + k) (m + n + l) = omega arith in
    rw (run-append (messages bs) (history hs ∷ messages ls) opened) (
      unfold run in
      unfold step in
      (
        sent ∙ ap (λ j. count_up a (j - a)) all,
        ends ∙ ap (λ j. nat_eq j last) all,
        finishes ∙ ends ∙ ap (λ j. nat_eq j last) all,
      ))
