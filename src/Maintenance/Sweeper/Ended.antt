-- ===== src/Maintenance/Sweeper/Ended.antt =====
-- The sweeper's loop ends: each round but the last fails at least one task that was open.
use async_long_request_proxy.Prelude.{
  ℕ, zero, suc, ◌+◌, ◌<◌, String, ◌≡◌, refl, sym, ◌∙◌, Bool, true, false, List, [], ◌∷◌, map, all,
  length, nat_eq, ◌++◌, All, arith, Bool-cases, inl, inr, if_rule, if◌then◌else◌,
}
use async_long_request_proxy.Result.{
  Result, Outcome, replied, refused, reply_lost, quietly, perform,
}
use async_long_request_proxy.Table.{select, update}
use async_long_request_proxy.Tasks.Schema.{
  Time, pending, processing, status_in, TaskSelect, tasks_valid_state_data,
}
use async_long_request_proxy.Tasks.Repository.Integrity.{IsSound}
use async_long_request_proxy.Delivery.Schema.{TaskEventSelect, Db}
use async_long_request_proxy.World.{World, publish}
use async_long_request_proxy.Maintenance.Repository.Timeouts.{expire-IsSound, timeouts_of}
use async_long_request_proxy.Maintenance.Repository.Expired.{
  in_batch, timed_out, is_open, expire_done, expire_stopped,
}
use async_long_request_proxy.Maintenance.Repository.Retention.{All-map, Selected, batch-Selected}
use mathlib.Core.Path.{subst}
use async_long_request_proxy.Maintenance.Repository.{TimeoutSweeperResult, expired_rows}
use async_long_request_proxy.Maintenance.Sweeper.{
  sweep_batch_size, Round, publish_all, Swept, still_running, finished, threw, after_batch, sweep,
}

abbrev pub has_not_ended : TaskSelect → Bool
has_not_ended t = status_in t.status (pending ∷ processing ∷ [])

-- How many tasks have not ended.
unfoldable pub open_tasks : List TaskSelect → ℕ
open_tasks [] = 0
open_tasks (t ∷ ts) = let rest = open_tasks ts in if has_not_ended t then suc rest else rest

-- Each updated row had not ended, and now has.
open_tasks-update :
    (p : TaskSelect → Bool) (now : Time) (ts : List TaskSelect)
    → All (λ t. p t ≡ true → has_not_ended t ≡ true) ts
    → open_tasks (update p (timed_out now) ts) + length (map (timed_out now) (select p ts))
      ≡ open_tasks ts
unfolding open_tasks update select
open_tasks-update p now [] h = omega arith
open_tasks-update p now (t ∷ ts) h = elim (Bool-cases (p t)) [
  | inl e ↦ rw (e, h.0 e) (omega (arith, open_tasks-update p now ts h.1))
  | inr e ↦ rw e (elim (Bool-cases (has_not_ended t)) [
    | inl o ↦ rw o (omega (arith, open_tasks-update p now ts h.1))
    | inr o ↦ rw o (open_tasks-update p now ts h.1)
  ])
]

batch-open :
    (locked : String → Bool) (now : Time) (batch : ℕ) (db : Db)
    → IsSound db
    → All (λ t. in_batch locked now batch db t ≡ true → has_not_ended t ≡ true) db.tasks
unfolding expired_rows
batch-open locked now batch db sound =
    All-map (Selected (λ t. t.id) (is_open locked now) batch db.tasks)
      (λ t. in_batch locked now batch db t ≡ true → has_not_ended t ≡ true)
      (λ t s h. let expired = s h in ground arith) db.tasks
      (batch-Selected (λ t. t.id) (is_open locked now) db.tasks sound.keys batch)

publish_all-db :
    (fate : String → Outcome) (es : List TaskEventSelect) (w : World)
    → (publish_all fate es w).db ≡ w.db
unfolding publish_all
publish_all-db fate [] w = refl
publish_all-db fate (e ∷ es) w =
    publish_all-db fate es (quietly (perform (fate e.task_id) (publish e.task_id e)) w).1
    ∙ published (fate e.task_id)
  where
    published : (o : Outcome) → (quietly (perform o (publish e.task_id e)) w).1.db ≡ w.db
    published replied = refl
    published refused = refl
    published reply_lost = refl

abbrev pub HasEnded : Swept × World → Type 0
HasEnded (still_running, w) = ⊥
HasEnded (finished n, w) = Unit
HasEnded (threw e, w) = Unit

-- Over tables that keep their constraints, given one round more than there are tasks that have not
-- ended, the sweeper's loop ends, by returning or by throwing, whatever the clock says, whichever
-- rows are locked and whichever publications fail.
pub sweep-HasEnded :
    (rounds : ℕ → Round) (fuel n total : ℕ) (w : World)
    → IsSound w.db
    → open_tasks w.db.tasks < fuel
    → HasEnded (sweep rounds fuel n total w)
unfolding sweep after_batch
sweep-HasEnded rounds zero n total w sound enough = ground (arith, enough)
sweep-HasEnded rounds (suc fuel) n total w sound enough =
    let round = rounds n in
    let p = in_batch round.locked round.now sweep_batch_size w.db in
    let changed = map (timed_out round.now) (select p w.db.tasks) in
    let events = timeouts_of round.fresh round.now w.db changed in
    let db' : Db = record {
      tasks = update p (timed_out round.now) w.db.tasks;
      events = w.db.events ++ events;
    } in
    let w' = publish_all round.publish events (record w { db = db' }) in
    elim (Bool-cases (all tasks_valid_state_data changed)) [
      | inl valid ↦
          let expired =
            expire_done round.locked round.fresh round.now sweep_batch_size w.db sound valid in
          let kept : IsSound db' =
            subst (λ (r : Result TimeoutSweeperResult × Db). IsSound r.1) expired
              (expire-IsSound round.fresh round.now round.locked sweep_batch_size w.db sound) in
          let same = sym (publish_all-db round.publish events (record w { db = db' })) in
          let counted =
            open_tasks-update p round.now w.db.tasks
              (batch-open round.locked round.now sweep_batch_size w.db sound) in
          rw expired (
            if_rule HasEnded (nat_eq (length changed) 0) _ _ (λ z. tt)
              (λ z.
                let some_expired : 0 < length changed = positive (length changed) z in
                sweep-HasEnded rounds fuel (suc n) (total + length changed) w'
                  (subst IsSound same kept)
                  (subst (λ (d : Db). open_tasks d.tasks < fuel) same
                    (omega (arith, counted, some_expired, enough)))))
      | inr invalid ↦
          rw (expire_stopped round.locked round.fresh round.now sweep_batch_size w.db invalid) tt
    ]
  where
    positive : (k : ℕ) → nat_eq k 0 ≡ false → 0 < k
    positive k z = ground (arith, z)
