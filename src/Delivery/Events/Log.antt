-- ===== src/Delivery/Events/Log.antt =====
-- The log invariant: the events of each task are numbered 1, 2, 3, ... in the order of insertion.
use async_long_request_proxy.Prelude.{
  ℕ, zero, suc, ◌+◌, ◌<◌, String, ◌≡◌, refl, ap, ◌∙◌, false, List, [], ◌∷◌, ◌++◌, ◌==◌, eq_iff, max,
  length, count_up, arith, if◌then◌else◌, Bool-cases, inl, inr, length-append,
}
use async_long_request_proxy.Result.{ok, IsOk}
use async_long_request_proxy.Tasks.Schema.{Time}
use async_long_request_proxy.Delivery.Schema.{TaskEventPayload, TaskEventSelect, Db}
use async_long_request_proxy.Delivery.Events.{
  max_seq, next_seq, seq_taken, new_event, insert_event_in_tx, insert_event,
}

-- The sequence numbers of a task, in the order of insertion.
unfoldable pub seqs : String → List TaskEventSelect → List ℕ
seqs task_id [] = []
seqs task_id (e ∷ es) =
    let rest = seqs task_id es in if e.task_id == task_id then e.seq ∷ rest else rest

abbrev pub IsLog : List TaskEventSelect → Type 0
IsLog es = (task_id : String) → seqs task_id es ≡ count_up 0 (length (seqs task_id es))

seqs-append :
    (t : String) (es fs : List TaskEventSelect) → seqs t (es ++ fs) ≡ seqs t es ++ seqs t fs
unfolding seqs
seqs-append t [] fs = refl
seqs-append t (e ∷ es) fs = ground (arith, seqs-append t es fs)

length-count_up : (from n : ℕ) → length (count_up from n) ≡ n
length-count_up from zero = refl
length-count_up from (suc n) = ap suc (length-count_up (suc from) n)

pub count_up-suc : (from n : ℕ) → count_up from n ++ (suc (from + n)) ∷ [] ≡ count_up from (suc n)
count_up-suc from zero = ap (λ k. suc k ∷ []) (omega arith)
count_up-suc from (suc n) =
    ap (λ ks. suc from ∷ ks)
      (ap (λ k. count_up (suc from) n ++ suc k ∷ []) (omega arith) ∙ count_up-suc (suc from) n)

max_list : List ℕ → ℕ
max_list [] = 0
max_list (n ∷ ns) = max n (max_list ns)

max_seq-seqs : (t : String) (es : List TaskEventSelect) → max_seq t es ≡ max_list (seqs t es)
unfolding max_seq seqs max_list
max_seq-seqs t [] = refl
max_seq-seqs t (e ∷ es) = ground (arith, max_seq-seqs t es)

max_list-count_up : (from n : ℕ) → max_list (count_up from (suc n)) ≡ from + suc n
unfolding max_list
max_list-count_up from zero = omega arith
max_list-count_up from (suc n) = omega (arith, max_list-count_up (suc from) n)

max_list-count_up_zero : (n : ℕ) → max_list (count_up 0 n) ≡ n
unfolding max_list
max_list-count_up_zero zero = refl
max_list-count_up_zero (suc n) = omega (arith, max_list-count_up 0 n)

-- In a log the highest number of a task is the number of its events.
pub max_seq-log :
    (t : String) (es : List TaskEventSelect) → IsLog es → max_seq t es ≡ length (seqs t es)
max_seq-log t es log =
    max_seq-seqs t es ∙ ap max_list (log t) ∙ max_list-count_up_zero (length (seqs t es))

pub seq_taken-above :
    (t : String) (s : ℕ) (es : List TaskEventSelect) → max_seq t es < s → seq_taken t s es ≡ false
unfolding max_seq
seq_taken-above t s [] h = refl
seq_taken-above t s (e ∷ es) h = elim (Bool-cases (e.task_id == t)) [
  | inl m ↦ ground (arith, m, seq_taken-above t s es)
  | inr m ↦ ground (arith, m, seq_taken-above t s es)
]

pub insert_event_in_tx_lem :
    (id : String) (now : Time) (t : String) (payload : TaskEventPayload) (db : Db)
    → let event = new_event id now t payload (next_seq t db.events) in
      insert_event_in_tx id now t payload db
      ≡ (ok event, record db { events = db.events ++ event ∷ [] })
unfolding insert_event_in_tx
insert_event_in_tx_lem id now t payload db =
    rw (seq_taken-above t (next_seq t db.events) db.events (omega arith))

-- The number that an insertion picks is free: the unique index never refuses it.
pub insert_event_lem :
    (id : String) (now : Time) (t : String) (payload : TaskEventPayload) (db : Db)
    → let event = new_event id now t payload (next_seq t db.events) in
      insert_event id now t payload db ≡ (ok event, record db { events = db.events ++ event ∷ [] })
unfolding insert_event
insert_event_lem id now t payload db = rw insert_event_in_tx_lem

pub seqs-append_self :
    (t : String) (es : List TaskEventSelect) (e : TaskEventSelect)
    → seqs t (es ++ e ∷ []) ≡ (if e.task_id == t then seqs t es ++ e.seq ∷ [] else seqs t es)
unfolding seqs
seqs-append_self t [] e = refl
seqs-append_self t (f ∷ es) e = ground (arith, seqs-append_self t es e)

count_up-append :
    (n s : ℕ) (ns : List ℕ) → ns ≡ count_up 0 n → s ≡ suc n → ns ++ s ∷ [] ≡ count_up 0 (suc n)
count_up-append n s ns h e =
    rw (h, e) (ap (λ k. count_up 0 n ++ suc k ∷ []) (omega arith) ∙ count_up-suc 0 n)

append-count_up :
    (ns : List ℕ) (s : ℕ)
    → ns ≡ count_up 0 (length ns)
    → s ≡ length ns + 1
    → ns ++ s ∷ [] ≡ count_up 0 (length (ns ++ s ∷ []))
append-count_up ns s h e =
    let longer : suc (length ns) ≡ length (ns ++ s ∷ []) =
      omega (arith, length-append ns (s ∷ [])) in
    count_up-append (length ns) s ns h (omega arith) ∙ ap (count_up 0) longer

-- An appended event with the next number of its task keeps the log.
pub append-IsLog :
    (es : List TaskEventSelect) (e : TaskEventSelect)
    → e.seq ≡ next_seq e.task_id es
    → IsLog es
    → IsLog (es ++ e ∷ [])
append-IsLog es e next log t = elim (Bool-cases (e.task_id == t)) [
  | inl m ↦
      let same : seqs t (es ++ e ∷ []) ≡ seqs t es ++ e.seq ∷ [] = seqs-append_self t es e ∙ rw m in
      let number : e.seq ≡ length (seqs t es) + 1 =
        next ∙ ap (λ k. k + 1) (ap (λ j. max_seq j es) ((eq_iff _ _).0 m) ∙ max_seq-log t es log) in
      rw same (append-count_up (seqs t es) e.seq (log t) number)
  | inr m ↦
      let same : seqs t (es ++ e ∷ []) ≡ seqs t es = seqs-append_self t es e ∙ rw m in
      rw same (log t)
]

-- Inserting an event keeps the numbering of every task, and always succeeds.
pub insert_event-IsLog :
    (id : String) (now : Time) (t : String) (payload : TaskEventPayload) (db : Db)
    → IsLog db.events
    → IsOk (insert_event id now t payload db).0 × IsLog (insert_event id now t payload db).1.events
insert_event-IsLog id now t payload db log =
    rw insert_event_lem
      (tt, append-IsLog db.events (new_event id now t payload (next_seq t db.events)) refl log)
