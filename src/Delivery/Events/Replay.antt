-- ===== src/Delivery/Events/Replay.antt =====
-- `findEventsSince` on a log: a client that has seen the events up to a number gets the rest.
use async_long_request_proxy.Prelude.{
  ℕ, zero, suc, ◌+◌, ◌-◌, ◌≤◌, ◌<◌, String, ◌≡◌, refl, ap, ◌∙◌, ◌&&◌, List, [], ◌∷◌, map, ◌==◌, ltb,
  length, count_up, arith, if◌then◌else◌, Bool-cases, inl, inr,
}
use async_long_request_proxy.Table.{select}
use async_long_request_proxy.Delivery.Schema.{TaskEventSelect}
use async_long_request_proxy.Delivery.Events.{insert_by_seq, order_by_seq, find_events_since}
use async_long_request_proxy.Delivery.Events.Log.{seqs, IsLog}

abbrev seq_of : TaskEventSelect → ℕ
seq_of e = e.seq

-- The numbers rise strictly, from above `lo`.
abbrev pub IsRising : ℕ → List ℕ → Type 0
IsRising lo [] = Unit
IsRising lo (n ∷ ns) = (lo < n) × IsRising n ns

above : ℕ → List ℕ → List ℕ
above a [] = []
above a (n ∷ ns) = let rest = above a ns in if ltb a n then n ∷ rest else rest

pub count_up-IsRising : (lo n : ℕ) → IsRising lo (count_up lo n)
count_up-IsRising lo zero = tt
count_up-IsRising lo (suc n) = (omega arith, count_up-IsRising (suc lo) n)

above-count_up_all : (a lo n : ℕ) → a ≤ lo → above a (count_up lo n) ≡ count_up lo n
unfolding above
above-count_up_all a lo zero h = refl
above-count_up_all a lo (suc n) h = ground (arith, above-count_up_all a (suc lo) n)

above-count_up : (a lo n : ℕ) → lo ≤ a → above a (count_up lo n) ≡ count_up a (lo + n - a)
unfolding above
above-count_up a lo zero h = let e : 0 ≡ lo + 0 - a = omega arith in ap (count_up a) e
above-count_up a lo (suc n) h = elim (Bool-cases (ltb a (suc lo))) [
  | inl b ↦
      let e : lo ≡ a = ground arith in
      let m : lo + suc n - lo ≡ suc n = omega arith in
      rw b (rw (← e, m) (ap (λ ks. suc lo ∷ ks) (above-count_up_all a (suc lo) n (omega arith))))
  | inr b ↦
      let m : lo + suc n - a ≡ suc lo + n - a = omega arith in
      rw (b, m) (above-count_up a (suc lo) n (ground arith))
]

seqs-select :
    (t : String) (a : ℕ) (es : List TaskEventSelect)
    → map seq_of (select (λ e. e.task_id == t && ltb a e.seq) es) ≡ above a (seqs t es)
unfolding select seqs above
seqs-select t a [] = refl
seqs-select t a (e ∷ es) = ground (arith, seqs-select t a es)

insert_by_seq-rising :
    (e : TaskEventSelect) (es : List TaskEventSelect)
    → IsRising e.seq (map seq_of es)
    → insert_by_seq e es ≡ e ∷ es
unfolding insert_by_seq
insert_by_seq-rising e [] h = refl
insert_by_seq-rising e (f ∷ fs) h = ground arith

-- A list in order stays as it is.
pub order_by_seq-rising :
    (lo : ℕ) (es : List TaskEventSelect) → IsRising lo (map seq_of es) → order_by_seq es ≡ es
unfolding order_by_seq
order_by_seq-rising lo [] h = refl
order_by_seq-rising lo (e ∷ es) h =
    rw (order_by_seq-rising e.seq es h.1) (insert_by_seq-rising e es h.1)

-- Reading the events after `a` gives, in order, exactly the numbers `a + 1` up to the last one.
pub find_events_since-seqs :
    (t : String) (a : ℕ) (es : List TaskEventSelect)
    → IsLog es
    → map seq_of (find_events_since t a es) ≡ count_up a (length (seqs t es) - a)
unfolding find_events_since
find_events_since-seqs t a es log =
    let n = length (seqs t es) in
    let chosen = select (λ e. e.task_id == t && ltb a e.seq) es in
    let numbers : map seq_of chosen ≡ count_up a (n - a) =
      seqs-select t a es
      ∙ ap (above a) (log t)
      ∙ above-count_up a 0 n (omega arith)
      ∙ ap (count_up a) (omega arith) in
    let rising : IsRising a (map seq_of chosen) = rw numbers (count_up-IsRising a (n - a)) in
    ap (map seq_of) (order_by_seq-rising a chosen rising) ∙ numbers
