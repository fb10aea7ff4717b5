-- ===== src/Maintenance/Repository/Timeouts.antt =====
-- The batch statement of the sweeper: its events continue the numbering of each task, and expired
-- PROCESSING tasks become FAILED.
use mathlib.Core.List.{append-nil, append_assoc}
use mathlib.Core.Path.{subst}
use async_long_request_proxy.Prelude.{
  ℕ, ◌+◌, String, ◌≡◌, refl, sym, ap, ◌∙◌, Bool, true, false, List, [], ◌∷◌, ◌++◌, ◌==◌, eq_iff,
  max, length, arith, Bool-cases, inl, inr, if◌then◌else◌,
}
use async_long_request_proxy.Result.{ok, ◌>>=◌}
use async_long_request_proxy.Result.Preserves.{Preserves, bind_rule, transaction_rule}
use async_long_request_proxy.Tasks.Schema.{Time, failed, TaskSelect}
use async_long_request_proxy.Tasks.Repository.{set_status, update_returning}
use async_long_request_proxy.Tasks.Repository.Integrity.{IsSound, update_returning-IsSound}
use async_long_request_proxy.Delivery.Schema.{TaskEventPayload, TaskEventSelect, Db}
use async_long_request_proxy.Delivery.Events.{max_seq, next_seq, seq_taken, new_event}
use async_long_request_proxy.Delivery.Events.Log.{IsLog, append-IsLog, seq_taken-above}
use async_long_request_proxy.Maintenance.Repository.{
  timeout_error, id_in, ids_of, expired_rows, timeout_patch, row_number, timeout_events,
  insert_rows, record_timeouts, expire_timed_out_tasks_batch,
}

max-if :
    (b c : Bool) (x y m : ℕ)
    → (if b then max x (if c then max m y else m) else (if c then max m y else m))
      ≡ (if c then max (if b then max x m else m) y else (if b then max x m else m))
max-if true true x y m = omega arith
max-if true false x y m = refl
max-if false true x y m = refl
max-if false false x y m = refl

max_seq-append :
    (t : String) (es : List TaskEventSelect) (e : TaskEventSelect)
    → max_seq t (es ++ e ∷ []) ≡ (if e.task_id == t then max (max_seq t es) e.seq else max_seq t es)
unfolding max_seq
max_seq-append t [] e = elim (Bool-cases (e.task_id == t)) [
  | inl b ↦ rw b (omega arith)
  | inr b ↦ rw b refl
]
max_seq-append t (f ∷ es) e =
    ap (λ m. if f.task_id == t then max f.seq m else m) (max_seq-append t es e)
    ∙ max-if (f.task_id == t) (e.task_id == t) f.seq e.seq (max_seq t es)

-- The log `es` once the timeouts of the tasks `seen` have been added to `before`.
abbrev Continues : List TaskEventSelect → List String → List TaskEventSelect → Type 0
Continues before seen es = (t : String) → next_seq t es ≡ max_seq t before + row_number t seen

module _ (fresh : ℕ → String) (now : Time) (before : List TaskEventSelect) where
  abbrev timeout_event : List String → String → TaskEventSelect
  timeout_event seen id =
      new_event (fresh (length seen)) now id (TaskEventPayload.failed timeout_error)
        (max_seq id before + row_number id seen)

  Continues-append :
      (seen : List String) (id : String) (es : List TaskEventSelect)
      → Continues before seen es
      → Continues before (id ∷ seen) (es ++ timeout_event seen id ∷ [])
  unfolding row_number
  Continues-append seen id es c t = rw max_seq-append (elim (Bool-cases (id == t)) [
    | inl e ↦ let same = (eq_iff id t).0 e in rw (e, same) (ground (arith, c t))
    | inr e ↦ rw e (c t)
  ])

  -- The bulk INSERT is never refused, and keeps the log.
  insert_rows-IsLog :
      (ids seen : List String) (db : Db)
      → Continues before seen db.events
      → IsLog db.events
      → let r = insert_rows (timeout_events fresh now before seen ids) db in
        (r.0 ≡ ok tt)
        × (r.1 ≡ record db { events = db.events ++ timeout_events fresh now before seen ids })
        × IsLog r.1.events
  unfolding insert_rows timeout_events
  insert_rows-IsLog [] seen db c log =
      (refl, ap (λ es. record db { events = es }) (sym (append-nil db.events)), log)
  insert_rows-IsLog (id ∷ ids) seen db c log =
      let event = timeout_event seen id in
      let number : event.seq ≡ next_seq id db.events = sym (c id) in
      let free : seq_taken id event.seq db.events ≡ false =
        seq_taken-above id event.seq db.events (omega (arith, number)) in
      let rest =
        insert_rows-IsLog ids (id ∷ seen) (record db { events = db.events ++ event ∷ [] })
          (Continues-append seen id db.events c) (append-IsLog db.events event number log) in
      rw free (
        rest.0,
        rest.1
            ∙ ap (λ es. record db { events = es })
                (append_assoc db.events (event ∷ [])
                  (timeout_events fresh now before (id ∷ seen) ids)),
        rest.2,
      )

Continues-self : (es : List TaskEventSelect) → Continues es [] es
unfolding row_number
Continues-self es t = refl

abbrev pub timeouts_of : (ℕ → String) → Time → Db → List TaskSelect → List TaskEventSelect
timeouts_of fresh now db ts = timeout_events fresh now db.events [] (ids_of ts)

module _ (fresh : ℕ → String) (now : Time) where
  pub record_timeouts_lem :
      (ts : List TaskSelect) (db : Db)
      → IsLog db.events
      → let r = record_timeouts fresh now ts db in
        (r.0 ≡ ok (record { expired_count = length ts; events = timeouts_of fresh now db ts }))
        × (r.1 ≡ record db { events = db.events ++ timeouts_of fresh now db ts })
        × IsLog r.1.events
  unfolding record_timeouts
  record_timeouts_lem [] db log =
      unfold timeout_events in
      (refl, ap (λ es. record db { events = es }) (sym (append-nil db.events)), log)
  record_timeouts_lem (t ∷ ts) db log =
      let (done, written, kept) =
        insert_rows-IsLog fresh now db.events (ids_of (t ∷ ts)) [] db (Continues-self db.events)
          log in
      rw done (refl, written, kept)

  record_timeouts-IsSound :
      (ts : List TaskSelect) → Preserves IsSound (record_timeouts fresh now ts)
  record_timeouts-IsSound ts db s =
      let (done, written, kept) = record_timeouts_lem ts db s.log in
      subst IsSound (sym written) (record {
        valid = s.valid;
        keys = s.keys;
        idempotency_keys = s.idempotency_keys;
        log = subst (λ (d : Db). IsLog d.events) written kept;
      })

  -- Whatever rows the batch meets, refused or not, tables that keep their constraints still do, and
  -- a numbered log still is: the numbers that the bulk INSERT computes continue each task's.
  pub expire-IsSound :
      (locked : String → Bool) (batch : ℕ) (db : Db)
      → IsSound db
      → IsSound (expire_timed_out_tasks_batch locked fresh now batch db).1
  unfolding expire_timed_out_tasks_batch
  expire-IsSound locked batch db s =
      let p = λ (t : TaskSelect). id_in (ids_of (expired_rows locked now batch db.tasks)) t.id in
      let f = set_status failed (timeout_patch now) now in
      transaction_rule IsSound (update_returning p f >>= record_timeouts fresh now)
        (bind_rule IsSound (update_returning p f) (record_timeouts fresh now)
          (update_returning-IsSound p f (λ t. refl) (λ t. refl)) record_timeouts-IsSound)
        db s
