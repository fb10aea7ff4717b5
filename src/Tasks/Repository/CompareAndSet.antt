-- ===== src/Tasks/Repository/CompareAndSet.antt =====
-- `updateStatus` refines a compare-and-set on a map from task ids to rows.
use async_long_request_proxy.Prelude.{
  ◌⊎◌, sym, ◌≡◌, refl, ap, ◌∙◌, String, Bool, true, false, ◌&&◌, Option, none, some, List, [], ◌∷◌,
  ◌==◌, eq_iff, eq_refl, if◌then◌else◌, Bool-cases, Option-cases, inl, inr,
}
use async_long_request_proxy.Result.{Result, ok, err, check_violation}
use async_long_request_proxy.Table.{select, update}
use async_long_request_proxy.Table.Laws.{keep_if, apply_if, find-update, find-holds}
use async_long_request_proxy.Table.Keyed.{IsKeyed, option_rows, select-key, update-none, eq_sym}
use async_long_request_proxy.Tasks.Schema.{
  Time, TaskStatus, status_in, TaskSelect, tasks_valid_state_data,
}
use async_long_request_proxy.Delivery.Schema.{Db}
use async_long_request_proxy.Tasks.Repository.{
  has_id, find_by_id, update_returning, TaskPatch, set_status, update_status,
}

-- The abstract table.
abbrev pub TaskMap : Type 0
TaskMap = String → Option TaskSelect

abbrev pub view : Db → TaskMap
view db id = find_by_id id db

abbrev pub HasKeys : Db → Type 0
HasKeys db = IsKeyed (λ t. t.id) db.tasks

abbrev pub put : String → TaskSelect → TaskMap → TaskMap
put id t m j = if id == j then some t else m j

-- What becomes of a key whose row is as given: the row is set if it satisfies the condition.
abbrev pub compare_and_set :
    String
    → (TaskSelect → Bool)
    → (TaskSelect → TaskSelect)
    → Option TaskSelect
    → TaskMap
    → Result (Option TaskSelect) × TaskMap
compare_and_set id c f none m = (ok none, m)
compare_and_set id c f (some t) m =
    if c t
    then (if tasks_valid_state_data (f t)
        then (ok (some (f t)), put id (f t) m)
        else (err check_violation, m))
    else (ok none, m)

module _ (id : String) (from : List TaskStatus) (to : TaskStatus) (extra : TaskPatch) (now : Time)
    (db : Db) (keys : HasKeys db) where
  abbrev matches : TaskSelect → Bool
  matches t = t.id == id && status_in t.status from

  chosen :
      select matches db.tasks ≡ option_rows (keep_if (λ t. status_in t.status from) (view db id))
  unfolding find_by_id
  chosen = select-key (λ t. t.id) id (λ t. status_in t.status from) db.tasks keys

  view-update :
      (j : String)
      → view (record db { tasks = update matches (set_status to extra now) db.tasks }) j
        ≡ apply_if matches (set_status to extra now) (view db j)
  unfolding find_by_id
  view-update j = find-update (has_id j) matches (set_status to extra now) (λ t. refl) db.tasks

  nothing_chosen :
      keep_if (λ t. status_in t.status from) (view db id) ≡ none
      → update_status id from to extra now db ≡ (ok none, db)
  unfolding update_status update_returning
  nothing_chosen h =
      let empty : select matches db.tasks ≡ [] = chosen ∙ ap option_rows h in
      rw empty (
        ap (λ ts. (ok none, record db { tasks = ts }))
          (update-none matches (set_status to extra now) db.tasks empty))

  pub update_status_absent :
      view db id ≡ none → update_status id from to extra now db ≡ (ok none, db)
  update_status_absent h = nothing_chosen (ap (keep_if (λ t. status_in t.status from)) h)

  pub update_status_other :
      (t : TaskSelect)
      → view db id ≡ some t
      → status_in t.status from ≡ false
      → update_status id from to extra now db ≡ (ok none, db)
  update_status_other t h c = nothing_chosen (ap (keep_if (λ u. status_in u.status from)) h ∙ rw c)

  row_chosen :
      (t : TaskSelect)
      → keep_if (λ u. status_in u.status from) (view db id) ≡ some t
      → update_status id from to extra now db ≡ (
          if tasks_valid_state_data (set_status to extra now t)
          then (
            ok (some (set_status to extra now t)),
            record db { tasks = update matches (set_status to extra now) db.tasks },
          )
          else (err check_violation, db))
  unfolding update_status update_returning
  row_chosen t h =
      let one : select matches db.tasks ≡ t ∷ [] = chosen ∙ ap option_rows h in
      elim (Bool-cases (tasks_valid_state_data (set_status to extra now t))) [
        | inl v ↦ rw (one, v)
        | inr v ↦ rw (one, v)
      ]

  module _ (t : TaskSelect) (h : view db id ≡ some t) (c : status_in t.status from ≡ true) where
    pub update_status_set :
        tasks_valid_state_data (set_status to extra now t) ≡ true
        → update_status id from to extra now db ≡ (
          ok (some (set_status to extra now t)),
          record db { tasks = update matches (set_status to extra now) db.tasks },
        )
    update_status_set v = row_chosen t (ap (keep_if (λ u. status_in u.status from)) h ∙ rw c) ∙ rw v

    pub update_status_refused :
        tasks_valid_state_data (set_status to extra now t) ≡ false
        → update_status id from to extra now db ≡ (err check_violation, db)
    update_status_refused v =
        row_chosen t (ap (keep_if (λ u. status_in u.status from)) h ∙ rw c) ∙ rw v

    own_id : (j : String) (u : TaskSelect) → view db j ≡ some u → (u.id == j) ≡ true
    unfolding find_by_id
    own_id j u = find-holds (has_id j) db.tasks

    apply_if-put :
        (j : String)
        → apply_if matches (set_status to extra now) (view db j)
          ≡ put id (set_status to extra now t) (view db) j
    apply_if-put j = elim (Bool-cases (id == j)) [
      | inl e ↦
          let same : view db j ≡ some t = ap (view db) (sym ((eq_iff id j).0 e)) ∙ h in
          rw (same, e) (rw (own_id id t h, c))
      | inr e ↦ elim (Option-cases (view db j)) [
        | inl n ↦ rw (n, e)
        | inr (u, f) ↦
            let other : (u.id == id) ≡ false =
              ap (λ k. k == id) ((eq_iff u.id j).0 (own_id j u f)) ∙ eq_sym j id ∙ e in
            rw (f, e) (rw other)
      ]
    ]

  -- `updateStatus` does to the row of its key what a compare-and-set on the map of rows does, and
  -- to every other row nothing; its result, the refusal by a constraint included, is the same.
  pub update_status-refines :
      ((update_status id from to extra now db).0
        ≡ (compare_and_set id
            (λ t. status_in t.status from)
            (set_status to extra now)
            (view db id)
            (view db)).0)
      × ((j : String)
          → view (update_status id from to extra now db).1 j
            ≡ (compare_and_set id
                  (λ t. status_in t.status from)
                  (set_status to extra now)
                  (view db id)
                  (view db)).1
                j)
  update_status-refines = elim (Option-cases (view db id)) [
    | inl h ↦ rw (update_status_absent h, h) (refl, λ j. refl)
    | inr (t, h) ↦ elim (Bool-cases (status_in t.status from)) [
      | inl c ↦ elim (Bool-cases (tasks_valid_state_data (set_status to extra now t))) [
        | inl v ↦
            rw (update_status_set t h c v, h, c, v)
              (refl, λ j. view-update j ∙ apply_if-put t h c j)
        | inr v ↦ rw (update_status_refused t h c v, h, c, v) (refl, λ j. refl)
      ]
      | inr c ↦ rw (update_status_other t h c, h, c) (refl, λ j. refl)
    ]
  ]

  -- A row stays as it is, or it is the row of `id`, was in one of the statuses and has been set.
  pub update_status-effect :
      (j : String)
      → (view (update_status id from to extra now db).1 j ≡ view db j)
        ⊎ ((t : TaskSelect) × (id ≡ j)
            × (view db id ≡ some t)
            × (status_in t.status from ≡ true)
            × (view (update_status id from to extra now db).1 j ≡ some (set_status to extra now t)))
  update_status-effect j = elim (Option-cases (view db id)) [
    | inl h ↦ inl (rw (update_status_absent h) refl)
    | inr (t, h) ↦ elim (Bool-cases (status_in t.status from)) [
      | inl c ↦ elim (Bool-cases (tasks_valid_state_data (set_status to extra now t))) [
        | inl v ↦
            let shown : view (update_status id from to extra now db).1 j
                ≡ put id (set_status to extra now t) (view db) j =
              rw (update_status_set t h c v) (view-update j ∙ apply_if-put t h c j) in
            elim (Bool-cases (id == j)) [
              | inl e ↦ inr (t, (eq_iff id j).0 e, h, c, shown ∙ rw e)
              | inr e ↦ inl (shown ∙ rw e)
            ]
        | inr v ↦ inl (rw (update_status_refused t h c v) refl)
      ]
      | inr c ↦ inl (rw (update_status_other t h c) refl)
    ]
  ]

  -- A row that is returned was in one of the statuses, and stands in the table as returned.
  pub update_status-found :
      {u : TaskSelect}
      → (update_status id from to extra now db).0 ≡ ok (some u)
      → (t : TaskSelect) × (view db id ≡ some t)
        × (status_in t.status from ≡ true)
        × (u ≡ set_status to extra now t)
        × (view (update_status id from to extra now db).1 id ≡ some u)
  update_status-found {u} r = elim (Option-cases (view db id)) [
    | inl h ↦ let no_row : ok none ≡ ok (some u) = rw (update_status_absent h) at r in cc
    | inr (t, h) ↦ elim (Bool-cases (status_in t.status from)) [
      | inl c ↦ elim (Bool-cases (tasks_valid_state_data (set_status to extra now t))) [
        | inl v ↦
            let same : ok (some (set_status to extra now t)) ≡ ok (some u) =
              rw (update_status_set t h c v) at r in
            let shown : view (update_status id from to extra now db).1 id
                ≡ some (set_status to extra now t) =
              rw (update_status_set t h c v)
                (view-update id ∙ apply_if-put t h c id ∙ rw eq_refl) in
            (t, h, c, cc, cc)
        | inr v ↦
            let refused : err check_violation ≡ ok (some u) =
              rw (update_status_refused t h c v) at r in
            cc
      ]
      | inr c ↦ let no_row : ok none ≡ ok (some u) = rw (update_status_other t h c) at r in cc
    ]
  ]

  -- The row of `id` that may be set is set and returned.
  pub update_status-done :
      (t : TaskSelect)
      → view db id ≡ some t
      → status_in t.status from ≡ true
      → tasks_valid_state_data (set_status to extra now t) ≡ true
      → ((update_status id from to extra now db).0 ≡ ok (some (set_status to extra now t)))
        × (view (update_status id from to extra now db).1 id ≡ some (set_status to extra now t))
  update_status-done t h c v =
      rw (update_status_set t h c v) (refl, view-update id ∙ apply_if-put t h c id ∙ rw eq_refl)
