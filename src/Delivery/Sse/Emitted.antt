-- ===== src/Delivery/Sse/Emitted.antt =====
-- What a stream has sent.
use async_long_request_proxy.Prelude.{ℕ, ◌≡◌, refl, ap, List, [], ◌∷◌, ◌++◌}
use async_long_request_proxy.Delivery.Sse.{
  message_event, ping, Call, next, complete, error, quit, unsubscribe,
}

-- The numbers of the events that have been sent, in order.
unfoldable pub emitted : List Call → List ℕ
emitted [] = []
emitted (next (message_event n payload) ∷ cs) = n ∷ emitted cs
emitted (next ping ∷ cs) = emitted cs
emitted (complete ∷ cs) = emitted cs
emitted (error ∷ cs) = emitted cs
emitted (quit ∷ cs) = emitted cs
emitted (unsubscribe ∷ cs) = emitted cs

pub emitted-append : (cs ds : List Call) → emitted (cs ++ ds) ≡ emitted cs ++ emitted ds
unfolding emitted
emitted-append [] ds = refl
emitted-append (next (message_event n payload) ∷ cs) ds = ap (λ ns. n ∷ ns) (emitted-append cs ds)
emitted-append (next ping ∷ cs) ds = emitted-append cs ds
emitted-append (complete ∷ cs) ds = emitted-append cs ds
emitted-append (error ∷ cs) ds = emitted-append cs ds
emitted-append (quit ∷ cs) ds = emitted-append cs ds
emitted-append (unsubscribe ∷ cs) ds = emitted-append cs ds
