-- ===== src/System/Services/Maintaining.antt =====
-- The two repeatable jobs.
use async_long_request_proxy.Prelude.{
  ℕ, zero, suc, refl, ◌+◌, ◌-◌, ◌*◌, String, Bool, List, [], ◌∷◌, nat_eq, leb, length, if_rule,
}
use async_long_request_proxy.Result.{Result, ok, err, Outcome, perform, quietly}
use async_long_request_proxy.Result.Preserves.{quietly_rule}
use async_long_request_proxy.Tasks.Schema.{Time}
use async_long_request_proxy.Delivery.Schema.{TaskEventSelect, Db}
use async_long_request_proxy.World.{World, on_db, publish}
use async_long_request_proxy.Maintenance.Repository.{
  TimeoutSweeperResult, DataRetentionResult, expire_timed_out_tasks_batch, old_rows, ids_of,
  retention_delete_batch_size, delete_batch, add_deleted, delete_loop, delete_old_data,
}
use async_long_request_proxy.Maintenance.Sweeper.{
  sweep_batch_size, Round, publish_all, Swept, after_batch, sweep,
}
use async_long_request_proxy.Maintenance.DataRetention.{process_retention}
use async_long_request_proxy.Config.{AppConfig}
use async_long_request_proxy.System.Statement.{
  Statement, expire_rows, delete_old_rows, exec, Reaches, after,
}
use async_long_request_proxy.System.Services.{Reached, IsOpen, publish_rule}

-- What retention deletes is from before this time.
abbrev pub cutoff_of : Time → AppConfig → Time
cutoff_of now config = now - config.maintenance.data_retention_days * 86400000

module _ (Allowed : Statement → Type 0) (open_to : IsOpen Allowed) (from : Db) where
  abbrev R : World → Type 0
  R = Reached Allowed from

  publish_all-Reached :
      (fate : String → Outcome) (es : List TaskEventSelect) (w : World)
      → R w
      → R (publish_all fate es w)
  unfolding publish_all
  publish_all-Reached fate [] w h = h
  publish_all-Reached fate (e ∷ es) w h =
      let one = perform (fate e.task_id) (publish e.task_id e) in
      publish_all-Reached fate es (quietly one w).1
        (quietly_rule R one (publish_rule Allowed open_to from (fate e.task_id) e.task_id e) w h)

  after_batch-Reached :
      (round : Round) (again : ℕ → World → Swept × World)
      → ((total : ℕ) (w : World) → R w → R (again total w).1)
      → (total : ℕ) (r : Result TimeoutSweeperResult) (w : World) → R w
      → R (after_batch round again total r w).1
  unfolding after_batch
  after_batch-Reached round again k total (err e) w h = h
  after_batch-Reached round again k total (ok batch) w h =
      if_rule {A = Swept × World} (λ x. R x.1) (nat_eq batch.expired_count 0) _ _ (λ _. h)
        (λ _.
          k (total + batch.expired_count) (publish_all round.publish batch.events w)
            (publish_all-Reached round.publish batch.events w h))

  batch_rule :
      (round : Round) (w : World)
      → R w
      → R
          (on_db
            (expire_timed_out_tasks_batch round.locked round.fresh round.now sweep_batch_size)
            w).1
  unfolding exec
  batch_rule round w h =
      let s = expire_rows round.locked round.fresh round.now sweep_batch_size in
      after s (open_to s refl) h

  pub sweep-Reached :
      (rounds : ℕ → Round) (fuel n total : ℕ) (w : World) → R w → R (sweep rounds fuel n total w).1
  unfolding sweep
  sweep-Reached rounds zero n total w h = h
  sweep-Reached rounds (suc fuel) n total w h =
      let round = rounds n in
      let batch =
        on_db (expire_timed_out_tasks_batch round.locked round.fresh round.now sweep_batch_size)
          w in
      after_batch-Reached round (sweep rounds fuel (suc n))
        (λ total w h. sweep-Reached rounds fuel (suc n) total w h) total batch.0 batch.1
        (batch_rule round w h)

  delete_loop-Reached :
      (cutoff : Time)
      → Allowed (delete_old_rows cutoff)
      → (fuel : ℕ) (total : DataRetentionResult) (db : Db) → Reaches Allowed from db
      → Reaches Allowed from (delete_loop fuel cutoff total db).2
  unfolding delete_loop
  delete_loop-Reached cutoff allowed zero total db h = h
  delete_loop-Reached cutoff allowed (suc fuel) total db h =
      let rows = old_rows cutoff db.tasks in
      let ids = ids_of rows in
      let s = delete_old_rows cutoff in
      let deleted : Reaches Allowed from (delete_batch ids db) = unfold exec in after s allowed h in
      let P = λ (x : Bool × DataRetentionResult × Db). Reaches Allowed from x.2 in
      if_rule P (leb (length rows) 0) _ _ (λ _. h)
        (λ _.
          if_rule P (leb retention_delete_batch_size (length rows)) _ _
            (λ _.
              delete_loop-Reached cutoff allowed fuel (add_deleted ids db total)
                (delete_batch ids db) deleted)
            (λ _. deleted))

  pub process_retention-Reached :
      (fuel : ℕ) (now : Time) (config : AppConfig)
      → Allowed (delete_old_rows (cutoff_of now config))
      → (db : Db) → Reaches Allowed from db
      → Reaches Allowed from (process_retention fuel now config db).1
  unfolding process_retention delete_old_data
  process_retention-Reached fuel now config allowed db h =
      delete_loop-Reached (cutoff_of now config) allowed fuel _ db h
