-- ===== src/TaskQueue/Idempotency.antt =====
-- `Submit` of apps/server/internal/task/task.go under repetition: an idempotency key is bound for
-- good to the payload hash and the task of its first use.
use m_pack_station.Base.{
  ℕ, String, ◌≡◌, refl, List, some, All, is_some, false, ◌∷◌, All-map, ◌∙◌, Bool-cases, inl, inr,
  eq_refl, subst, sym, Bool, ◌||◌, true, str_eq, ap, str_eq→eq, false≢true,
}
use m_pack_station.TaskQueue.Model.{
  Config, Task, Queue, IdemKey, SubmitRequest, Status, new_queue, Detail,
}
use m_pack_station.TaskQueue.Submit.{insert_task, new_row, is_empty, find_key}
use m_pack_station.TaskQueue.Table.{find}
use m_pack_station.TaskQueue.Change.{
  Change, aside, Changes, moved, Changes-induction, beat, added, not_bound, transition-some,
}
use m_pack_station.TaskQueue.Lifecycle.{find-insert_task, Later, Follows-refl, Change-Later}
use m_pack_station.TaskQueue.Calls.{Call, run, run-Changes}
use m_pack_station.TaskQueue.Log.{append_event, transition}
use m_pack_station.TaskQueue.Change.Invariant.{new_queue-QueueInv}

-- The task of a key is in the table and bears the key.
abbrev pub KeyHeld : List Task → IdemKey → Type 0
KeyHeld rs k =
    (id : String) × (t : Task) × (k.task_id ≡ some id)
    × (find id rs ≡ some t)
    × (t.idempotency_key ≡ some k.key)

KeyHeld-kept :
    (rs rs' : List Task) (k : IdemKey)
    → ((id : String) (t : Task) → find id rs ≡ some t → Later id t rs')
    → KeyHeld rs k
    → KeyHeld rs' k
KeyHeld-kept rs rs' k later (id, t, bound, found, key) =
    let (t', found', f) = later id t found in (id, t', bound, found', f.same_key ∙ key)

-- The key of a new task, and the task itself.
insert_task-KeyHeld :
    (c : Config) (now : ℕ) (r : SubmitRequest) (payload hash : String) (q : Queue)
    → is_some (find (c.id q.generated) q.tasks) ≡ false
    → All (KeyHeld q.tasks) q.keys
    → All
        (KeyHeld (insert_task c now r payload hash q).0.tasks)
        (insert_task c now r payload hash q).0.keys
unfolding insert_task append_event
insert_task-KeyHeld c now r payload hash q free h =
    let id = c.id q.generated in
    let rows = new_row id payload now r ∷ q.tasks in
    let old : All (KeyHeld rows) q.keys =
      All-map (KeyHeld q.tasks) (KeyHeld rows) q.keys
        (λ k b.
          KeyHeld-kept q.tasks rows k
            (λ key t found. (
              t,
              rw free at (find-insert_task c now r payload hash key q free found),
              Follows-refl t,
            ))
            b)
        h in
    elim (Bool-cases (is_empty r.idempotency_key)) [
      | inl e ↦ rw (free, e) old
      | inr e ↦
          rw (free, e)
            (
              (
                id,
                new_row id payload now r,
                refl,
                (unfold find new_row in rw (eq_refl id)),
                (unfold new_row in rw e),
              ),
              old,
            )
    ]

-- The rows of the keys, each held by the table of tasks.
abbrev pub KeysHeld : Queue → Type 0
KeysHeld q = All (KeyHeld q.tasks) q.keys

KeysHeld-kept :
    (q q' : Queue)
    → ((id : String) (t : Task) → find id q.tasks ≡ some t → Later id t q'.tasks)
    → q'.keys ≡ q.keys
    → KeysHeld q
    → KeysHeld q'
KeysHeld-kept q q' later same h = rw same (
    All-map (KeyHeld q.tasks) (KeyHeld q'.tasks) q.keys (λ k. KeyHeld-kept q.tasks q'.tasks k later)
      h)

transition-keys :
    (c : Config) (id : String) (p : Task → Bool) (f : Task → Task) (s : Status) (message : String)
    (d : Detail) (now : ℕ) (q q' : Queue)
    → transition c id p f s message d now q ≡ some q'
    → q'.keys ≡ q.keys
unfolding append_event
transition-keys c id p f s message d now q q' h =
    ap (λ (x : Queue). x.keys) (transition-some c id p f s message d now q h).1

Change-KeysHeld : {c : Config} (q q' : Queue) → Change c q q' → KeysHeld q → KeysHeld q'
Change-KeysHeld {c = c} q q' (aside _ rows log keys) h =
    KeysHeld-kept q q' (λ id t. Change-Later {c = c} q q' id (aside _ rows log keys)) keys h
Change-KeysHeld {c = c} q q' (moved id p f s message d now _ l e) h =
    KeysHeld-kept q q' (λ key t. Change-Later q q' key (moved id p f s message d now _ l e))
      (transition-keys c id p f s message d now q q' e) h
Change-KeysHeld {c = c} q q' (beat id worker epoch now _ rows log keys) h =
    KeysHeld-kept q q'
      (λ key t. Change-Later {c = c} q q' key (beat id worker epoch now _ rows log keys)) keys h
Change-KeysHeld {c = c} q q' (added now r payload hash _ _ free _ e) h =
    subst KeysHeld (sym e) (insert_task-KeyHeld c now r payload hash q free h)

pub run-KeysHeld : (c : Config) (xs : List Call) → KeysHeld (run c xs new_queue)
run-KeysHeld c xs =
    Changes-induction KeysHeld Change-KeysHeld (run-Changes c xs new_queue new_queue-QueueInv)
      (unfold new_queue in tt)

-- A bound key stays bound to the same row.
find_key-insert_task :
    (c : Config) (now : ℕ) (r : SubmitRequest) (payload hash key : String) (q : Queue) {k : IdemKey}
    → is_some (find (c.id q.generated) q.tasks) ≡ false
    → (is_empty r.idempotency_key || not_bound r.idempotency_key q) ≡ true
    → find_key key q.keys ≡ some k
    → find_key key (insert_task c now r payload hash q).0.keys ≡ some k
unfolding insert_task append_event
find_key-insert_task c now r payload hash key q free unbound h =
    elim (Bool-cases (is_empty r.idempotency_key)) [
      | inl e ↦ rw (free, e) h
      | inr e ↦
          rw (free, e)
            (elim (Bool-cases (str_eq r.idempotency_key key)) [
              | inl b ↦
                  let same : r.idempotency_key ≡ key = str_eq→eq r.idempotency_key key b in
                  absurd (false≢true (rw (e, same, h) at unbound))
              | inr b ↦ (unfold find_key in rw b h)
            ])
    ]

Change-find_key :
    {c : Config} (q q' : Queue) (key : String) {k : IdemKey}
    → Change c q q'
    → find_key key q.keys ≡ some k
    → find_key key q'.keys ≡ some k
Change-find_key q q' key (aside _ _ _ keys) h = rw keys h
Change-find_key {c = c} q q' key (moved id p f s message d now _ l e) h =
    rw (transition-keys c id p f s message d now q q' e) h
Change-find_key q q' key (beat _ _ _ _ _ _ _ keys) h = rw keys h
Change-find_key {c = c} q q' key (added now r payload hash _ _ free unbound e) h =
    rw e (find_key-insert_task c now r payload hash key q free unbound h)

pub Changes-find_key :
    {c : Config} {q q' : Queue} (key : String) {k : IdemKey}
    → Changes c q q'
    → find_key key q.keys ≡ some k
    → find_key key q'.keys ≡ some k
Changes-find_key key {k = k} hs h =
    Changes-induction (λ q. find_key key q.keys ≡ some k) (λ q q' x e. Change-find_key q q' key x e)
      hs h
