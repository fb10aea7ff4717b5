-- ===== src/Delivery/Sse/CaughtUp.antt =====
-- A stream that has sent all events up to a number, and the sending of one event and of the buffer.
use mathlib.Core.Path.{subst}
use mathlib.Core.List.{append-nil}
use async_long_request_proxy.Prelude.{
  ℕ, zero, suc, ◌+◌, ◌-◌, ◌≤◌, ◌≡◌, refl, sym, ap, ◌∙◌, Bool, true, false, not, ◌||◌, List, [], ◌∷◌,
  ◌++◌, map, max, ltb, nat_eq, count_up, All, arith, if_rule,
}
use async_long_request_proxy.Delivery.Schema.{TaskEventSelect, event_type}
use async_long_request_proxy.Delivery.Events.Log.{count_up-suc}
use async_long_request_proxy.Delivery.Sse.{
  is_terminal_event, to_message_event, Call, next, complete, error, quit, unsubscribe, Stream,
  send_event, on_event, send_buffered,
}
use async_long_request_proxy.Delivery.Sse.Emitted.{emitted, emitted-append}

abbrev pub seqs_of : List TaskEventSelect → List ℕ
seqs_of = map (λ e. e.seq)

-- The subscriber has been completed.
unfoldable pub completed : List Call → Bool
completed [] = false
completed (complete ∷ cs) = true
completed (next m ∷ cs) = completed cs
completed (error ∷ cs) = completed cs
completed (quit ∷ cs) = completed cs
completed (unsubscribe ∷ cs) = completed cs

completed-append : (cs ds : List Call) → completed (cs ++ ds) ≡ completed cs || completed ds
unfolding completed
completed-append [] ds = refl
completed-append (complete ∷ cs) ds = refl
completed-append (next m ∷ cs) ds = completed-append cs ds
completed-append (error ∷ cs) ds = completed-append cs ds
completed-append (quit ∷ cs) ds = completed-append cs ds
completed-append (unsubscribe ∷ cs) ds = completed-append cs ds

-- The event is one of the first `last`, and ends the task exactly if it is the one with that
-- number.
abbrev pub EndsAt : ℕ → TaskEventSelect → Type 0
EndsAt last e = (is_terminal_event (event_type e.payload) ≡ nat_eq e.seq last) × (e.seq ≤ last)

pub count_up-EndsAt :
    (last : ℕ) (es : List TaskEventSelect) (m n : ℕ)
    → m ≤ last
    → All (EndsAt last) es
    → seqs_of es ≡ count_up m n
    → m + n ≤ last
count_up-EndsAt last [] m zero low r q = omega (arith, low)
count_up-EndsAt last [] m (suc n) low r q = cc
count_up-EndsAt last (e ∷ es) m zero low r q = cc
count_up-EndsAt last (e ∷ es) m (suc n) low r q =
    let number : e.seq ≡ suc m = cc in
    let tail : seqs_of es ≡ count_up (suc m) n = cc in
    let near = r.0.1 in
    let rest = count_up-EndsAt last es (suc m) n (omega (arith, number, near)) r.1 tail in
    omega (arith, rest)

module _ (a last : ℕ) where
  -- All numbers from above `a` up to `h` have been sent, and the stream has ended exactly if `h` is
  -- the last one.
  abbrev pub IsCaughtUp : Bool → ℕ → Stream → Type 0
  IsCaughtUp loaded h s =
      (emitted s.calls ≡ count_up a (h - a))
      × (s.highest_history_seq ≡ h)
      × (s.is_done ≡ nat_eq h last)
      × (completed s.calls ≡ s.is_done)
      × (s.is_done ≡ false → s.history_loaded ≡ loaded)

  pub send_event-IsCaughtUp :
      (loaded : Bool) (h : ℕ) (e : TaskEventSelect) (highest : ℕ) (s : Stream)
      → a ≤ h
      → EndsAt last e
      → e.seq ≡ suc h
      → highest ≡ e.seq
      → s.is_done ≡ false
      → IsCaughtUp loaded h s
      → IsCaughtUp loaded (suc h) (send_event e highest s)
  unfolding completed
  send_event-IsCaughtUp loaded h e highest s above ending number same going c =
      let m = next (to_message_event e) ∷ [] in
      let shifted : suc (h - a) ≡ suc h - a = omega (arith, above) in
      let placed : e.seq ≡ suc (a + (h - a)) = omega (arith, number, above) in
      let longer : count_up a (h - a) ++ e.seq ∷ [] ≡ count_up a (suc h - a) =
        ap (λ n. count_up a (h - a) ++ n ∷ []) placed
        ∙ count_up-suc a (h - a)
        ∙ ap (count_up a) shifted in
      let one : emitted s.calls ++ emitted m ≡ count_up a (h - a) ++ e.seq ∷ [] =
        unfold emitted in ap (λ ns. ns ++ e.seq ∷ []) c.0 in
      let sent : emitted (s.calls ++ m) ≡ count_up a (suc h - a) =
        emitted-append s.calls m ∙ one ∙ longer in
      let waiting : completed (s.calls ++ m) ≡ false =
        completed-append s.calls m ∙ ap (λ b. b || false) (c.3 ∙ going) in
      let at_end : nat_eq e.seq last ≡ nat_eq (suc h) last = ap (λ n. nat_eq n last) number in
      if_rule (IsCaughtUp loaded (suc h)) (is_terminal_event (event_type e.payload)) _ _
        (λ t. (
          emitted-append (s.calls ++ m) (complete ∷ []) ∙ (unfold emitted in rw append-nil sent),
          same ∙ number,
          sym t ∙ ending.0 ∙ at_end,
          completed-append (s.calls ++ m) (complete ∷ []) ∙ ap (λ b. b || true) waiting,
          λ d. cc,
        ))
        (λ f. (sent, same ∙ number, going ∙ sym f ∙ ending.0 ∙ at_end, waiting ∙ sym going, c.4))

  pub on_event-IsCaughtUp :
      (h : ℕ) (e : TaskEventSelect) (s : Stream)
      → a ≤ h
      → EndsAt last e
      → e.seq ≤ suc h
      → s.is_done ≡ false
      → IsCaughtUp true h s
      → IsCaughtUp true (max h e.seq) (on_event e s)
  on_event-IsCaughtUp h e s above ending near going c =
      if_rule (IsCaughtUp true (max h e.seq)) (not s.history_loaded) _ _
        (λ l. let loaded : not s.history_loaded ≡ false = ap not (c.4 going) in cc)
        (λ l.
          if_rule (IsCaughtUp true (max h e.seq)) (ltb s.highest_history_seq e.seq) _ _
            (λ b.
              let number : e.seq ≡ suc h = ground (arith, b, c.1, near) in
              subst (λ k. IsCaughtUp true k (send_event e e.seq s)) (omega (arith, number))
                (send_event-IsCaughtUp true h e e.seq s above ending number refl going c))
            (λ b.
              let seen : e.seq ≤ h = ground (arith, b, c.1) in
              subst (λ k. IsCaughtUp true k s) (omega (arith, seen)) c))

  -- A stream that has ended has sent everything up to the last event.
  pub done-last :
      (loaded : Bool) (h : ℕ) (s : Stream) → IsCaughtUp loaded h s → s.is_done ≡ true → h ≡ last
  done-last loaded h s c d = let same : nat_eq h last ≡ true = sym c.2 ∙ d in ground (arith, same)

  pub send_buffered-IsCaughtUp :
      (es : List TaskEventSelect) (n m h : ℕ) (s : Stream)
      → a ≤ h
      → m ≤ h
      → h ≤ last
      → All (EndsAt last) es
      → seqs_of es ≡ count_up m n
      → s.is_done ≡ false
      → IsCaughtUp true h s
      → IsCaughtUp true (max h (m + n)) (send_buffered es s)
  unfolding send_buffered
  send_buffered-IsCaughtUp [] zero m h s above low high r q going c =
      subst (λ k. IsCaughtUp true k (record s { live_buffer = [] })) (omega (arith, low)) c
  send_buffered-IsCaughtUp [] (suc n) m h s above low high r q going c = cc
  send_buffered-IsCaughtUp (e ∷ es) zero m h s above low high r q going c = cc
  send_buffered-IsCaughtUp (e ∷ es) (suc n) m h s above low high r q going c =
      let head : e.seq ≡ suc m = cc in
      let tail : seqs_of es ≡ count_up (suc m) n = cc in
      let fits : m + suc n ≤ last =
        count_up-EndsAt last (e ∷ es) m (suc n) (omega (arith, low, high)) r q in
      let P = IsCaughtUp true (max h (m + suc n)) in
      if_rule P (ltb s.highest_history_seq e.seq) _ _
        (λ b.
          let number : e.seq ≡ suc h = ground (arith, b, c.1, head, low) in
          let sent = send_event e e.seq s in
          let d = send_event-IsCaughtUp true h e e.seq s above r.0 number refl going c in
          if_rule P sent.is_done _ _
            (λ f.
              let end = done-last true (suc h) sent d f in
              subst (λ k. IsCaughtUp true k (record sent { live_buffer = [] }))
                (omega (arith, end, fits, number, head)) d)
            (λ f.
              subst (λ k. IsCaughtUp true k (send_buffered es sent)) (omega (arith, number, head))
                (send_buffered-IsCaughtUp es n (suc m) (suc h) sent (omega (arith, above))
                  (omega (arith, low)) (omega (arith, r.0.1, number)) r.1 tail f d)))
        (λ b.
          let seen : suc m ≤ h = ground (arith, b, c.1, head) in
          subst (λ k. IsCaughtUp true k (send_buffered es s)) (omega (arith, seen))
            (send_buffered-IsCaughtUp es n (suc m) h s above seen high r.1 tail going c))

pub send_event-live_buffer :
    (e : TaskEventSelect) (highest : ℕ) (s : Stream)
    → (send_event e highest s).live_buffer ≡ s.live_buffer
send_event-live_buffer e highest s =
    if_rule (λ (t : Stream). t.live_buffer ≡ s.live_buffer)
      (is_terminal_event (event_type e.payload)) _ _ (λ t. refl) (λ f. refl)
