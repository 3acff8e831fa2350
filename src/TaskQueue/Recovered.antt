-- ===== src/TaskQueue/Recovered.antt =====
-- What `Recover` of apps/server/internal/task/task.go makes of the table: its scan, its sort and its
-- row by row loop come to one independent rewriting of each row.
use m_pack_station.Base.{
  ℕ, String, insert_by, sort_by, List, ◌+◌, if◌then◌else◌, ◌≡◌, str_eq, Bool, All, arith, any, true,
  some, map, false, ◌∷◌, [], filter, Bool-cases, ap, ◌∙◌, refl, inl, All-map, subst, inr, sym,
  eq_refl, str_eq_comm, str_eq→eq,
}
use m_pack_station.TaskQueue.Table.{find, update, UniqueIds, Fresh, at_id, UniqueIds-update}
use m_pack_station.TaskQueue.Recovery.{
  recover, recover_all, recover_one, recover_row, is_expired, expired_tasks, gives_up, set_given_up,
  past_deadline, set_recovered, stale_before,
}
use m_pack_station.TaskQueue.Model.{Config, Task, Queue, new_queue}
use m_pack_station.TaskQueue.Fencing.{row_allows}
use m_pack_station.TaskQueue.Change.Recovering.{
  Scanned, stop_running-tasks, expired_tasks-UniqueIds, Scanned-recover_one, Fresh-filter,
  expired_tasks-Scanned, FoundIn, find_every,
}
use m_pack_station.TaskQueue.Log.{append_event}
use m_pack_station.TaskQueue.Calls.{Call, run, run-QueueInv}
use m_pack_station.TaskQueue.Change.Invariant.{QueueInv}

-- What becomes of one row.
abbrev pub rewritten : Config → ℕ → Task → Task → Task
rewritten c now item =
    let n = item.recover_count + 1 in
    if gives_up c now item
    then set_given_up n (past_deadline c now item.started_at) now
    else set_recovered n now

abbrev pub recovered_row : Config → ℕ → Task → Task
recovered_row c now r = if is_expired now r then rewritten c now r r else r

recover_one-tasks :
    (c : Config) (now : ℕ) (item : Task) (q : Queue)
    → (recover_one c now item q).tasks
      ≡ update (at_id item.id (is_expired now)) (rewritten c now item) q.tasks
unfolding recover_one recover_row append_event
recover_one-tasks c now item q = elim (Bool-cases (gives_up c now item)) [
  | inl e ↦ rw (stop_running-tasks, e)
  | inr e ↦ rw (stop_running-tasks, e)
]

rewritten-id : (c : Config) (now : ℕ) (item r : Task) → (rewritten c now item r).id ≡ r.id
rewritten-id c now item r = ground arith

-- The rewriting of the rows that a list of scanned rows names.
abbrev rewrite_named : Config → ℕ → List Task → Task → Task
rewrite_named c now items r = if any (λ i. str_eq i.id r.id) items then rewritten c now r r else r

abbrev OnlyRow : Task → Task → Type 0
OnlyRow item r = str_eq r.id item.id ≡ true → r ≡ item

found-OnlyRow :
    (item : Task) (rs : List Task)
    → UniqueIds rs
    → find item.id rs ≡ some item
    → All (OnlyRow item) rs
unfolding find
found-OnlyRow item [] u h = tt
found-OnlyRow item (r ∷ rs) u h = elim (Bool-cases (str_eq r.id item.id)) [
  | inl e ↦
      let same : r ≡ item = cc (rw e at h) in
      let apart : Fresh item.id rs = rw (ap (λ (x : Task). x.id) same) at u.0 in
      (
        (λ _. same),
        All-map (λ x. str_eq x.id item.id ≡ false) _ rs (λ x a b. absurd (ground arith)) apart,
      )
  | inr e ↦ ((λ b. absurd (ground arith)), found-OnlyRow item rs u.1 (rw e at h))
]

Fresh-any :
    (id : String) (items : List Task) → Fresh id items → any (λ i. str_eq i.id id) items ≡ false
Fresh-any id [] f = refl
Fresh-any id (i ∷ items) f = rw (f.0, Fresh-any id items f.1)

-- One round of the loop, and the rows that are left to the others.
rewrite_row-named :
    (c : Config) (now : ℕ) (item : Task) (items : List Task) (r : Task)
    → is_expired now item ≡ true
    → Fresh item.id items
    → OnlyRow item r
    → rewrite_named c now items
        (if at_id item.id (is_expired now) r then rewritten c now item r else r)
      ≡ rewrite_named c now (item ∷ items) r
rewrite_row-named c now item items r x f only = elim (Bool-cases (str_eq r.id item.id)) [
  | inl e ↦
      let same : r ≡ item = only e in
      subst
        (λ y.
          rewrite_named c now items
            (if at_id item.id (is_expired now) y then rewritten c now item y else y)
          ≡ rewrite_named c now (item ∷ items) y)
        (sym same)
        (elim (Bool-cases (gives_up c now item)) [
          | inl g ↦ rw (x, eq_refl item.id, g, Fresh-any item.id items f)
          | inr g ↦ rw (x, eq_refl item.id, g, Fresh-any item.id items f)
        ])
  | inr e ↦ rw (e, str_eq_comm item.id r.id, e)
]

map-update :
    (c : Config) (now : ℕ) (item : Task) (items rs : List Task)
    → is_expired now item ≡ true
    → Fresh item.id items
    → All (OnlyRow item) rs
    → map
        (rewrite_named c now items)
        (update (at_id item.id (is_expired now)) (rewritten c now item) rs)
      ≡ map (rewrite_named c now (item ∷ items)) rs
unfolding update
map-update c now item items [] x f h = refl
map-update c now item items (r ∷ rs) x f h =
    cc (rewrite_row-named c now item items r x f h.0, map-update c now item items rs x f h.1)

map_none : (c : Config) (now : ℕ) (rs : List Task) → rs ≡ map (rewrite_named c now []) rs
map_none c now [] = refl
map_none c now (r ∷ rs) = ap (λ xs. r ∷ xs) (map_none c now rs)

recover_all-tasks :
    (c : Config) (now : ℕ) (items : List Task) (q : Queue)
    → UniqueIds q.tasks
    → UniqueIds items
    → All (Scanned now q.tasks) items
    → (recover_all c now items q).tasks ≡ map (rewrite_named c now items) q.tasks
unfolding recover_all
recover_all-tasks c now [] q u v s = map_none c now q.tasks
recover_all-tasks c now (item ∷ items) q u v s =
    let one = recover_one-tasks c now item q in
    let u' : UniqueIds (recover_one c now item q).tasks = rw one (
      UniqueIds-update (at_id item.id (is_expired now)) (rewritten c now item)
        (λ r. rewritten-id c now item r) q.tasks u) in
    recover_all-tasks c now items (recover_one c now item q) u' v.1
      (Scanned-recover_one c now item q items v.0 s.1)
    ∙ ap (map (rewrite_named c now items)) one
    ∙ map-update c now item items q.tasks s.0.expired v.0 (found-OnlyRow item q.tasks u s.0.there)

any-insert_by :
    (before : Task → Task → Bool) (p : Task → Bool) (x : Task) (ys : List Task)
    → any p (insert_by before x ys) ≡ any p (x ∷ ys)
unfolding insert_by
any-insert_by before p x [] = refl
any-insert_by before p x (y ∷ ys) = ground (arith, any-insert_by before p x ys)

any-sort_by :
    (before : Task → Task → Bool) (p : Task → Bool) (xs : List Task)
    → any p (sort_by before xs) ≡ any p xs
unfolding sort_by
any-sort_by before p [] = refl
any-sort_by before p (x ∷ xs) =
    any-insert_by before p x (sort_by before xs)
    ∙ ap (λ b. if p x then true else b) (any-sort_by before p xs)

any-filter :
    (id : String) (p : Task → Bool) (rs : List Task)
    → UniqueIds rs
    → any (λ i. str_eq i.id id) (filter p rs) ≡ row_allows p (find id rs)
unfolding find
any-filter id p [] u = refl
any-filter id p (r ∷ rs) u = elim (Bool-cases (str_eq r.id id)) [
  | inl e ↦
      let same : r.id ≡ id = str_eq→eq r.id id e in
      let apart = Fresh-any id (filter p rs) (Fresh-filter id p rs (rw same at u.0)) in
      elim (Bool-cases (p r)) [ inl b ↦ rw (e, b, e) | inr b ↦ rw (e, b, apart) ]
  | inr e ↦ elim (Bool-cases (p r)) [
    | inl b ↦ rw (e, b, e) (any-filter id p rs u.1)
    | inr b ↦ rw (e, b) (any-filter id p rs u.1)
  ]
]

map-named :
    (c : Config) (now : ℕ) (items rs : List Task)
    → All (λ r. any (λ i. str_eq i.id r.id) items ≡ is_expired now r) rs
    → map (rewrite_named c now items) rs ≡ map (recovered_row c now) rs
map-named c now items [] h = refl
map-named c now items (r ∷ rs) h =
    let head : rewrite_named c now items r ≡ recovered_row c now r = rw h.0 in
    cc (head, map-named c now items rs h.1)

-- In a well-formed queue `Recover` rewrites exactly the leased and running rows whose lease is past,
-- whatever their order: such a row fails with its reason if its recoveries reach 10 or its deadline
-- is past, and is queued again otherwise, without a lease either way; all other rows stay.
pub recover-tasks :
    (c : Config) (now : ℕ) (q : Queue)
    → QueueInv q
    → (recover c now q).0.tasks ≡ map (recovered_row c now) q.tasks
unfolding recover expired_tasks
recover-tasks c now q v =
    let items = expired_tasks now q in
    recover_all-tasks c now items q v.unique (expired_tasks-UniqueIds now q v)
      (expired_tasks-Scanned now q v)
    ∙ map-named c now items q.tasks (
        All-map (FoundIn q.tasks) _ q.tasks
          (λ r h.
            any-sort_by stale_before (λ i. str_eq i.id r.id) (filter (is_expired now) q.tasks)
            ∙ any-filter r.id (is_expired now) q.tasks v.unique
            ∙ ap (row_allows (is_expired now)) h)
          (find_every q.tasks v.unique))

not_expired :
    (c : Config) (now : ℕ) (rs : List Task)
    → All (λ r. is_expired now r ≡ false) (map (recovered_row c now) rs)
not_expired c now [] = tt
not_expired c now (r ∷ rs) =
    let first : is_expired now (recovered_row c now r) ≡ false = ground arith in
    (first, not_expired c now rs)

-- Whatever calls came before, once `Recover` is done no row has a lease that is past.
pub recover_complete :
    (c : Config) (now : ℕ) (xs : List Call)
    → All (λ r. is_expired now r ≡ false) (recover c now (run c xs new_queue)).0.tasks
recover_complete c now xs =
    rw (recover-tasks c now (run c xs new_queue) (run-QueueInv c xs))
      (not_expired c now (run c xs new_queue).tasks)
