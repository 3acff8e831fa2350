-- ===== src/TaskQueue/Table.antt =====
-- The statements of apps/server/internal/task/task.go on the table `tasks`: a read by primary key
-- and an UPDATE with its count of affected rows.
use m_pack_station.Base.{
  ℕ, String, ◌≡◌, refl, inl, inr, Bool, true, false, Option, none, some, List, [], ◌∷◌, arith,
  str_eq, if◌then◌else◌, count, All, Bool-cases, ◌&&◌, str_eq→eq, subst, All-map,
}
use m_pack_station.TaskQueue.Model.{Task}

-- SELECT … FROM tasks WHERE id=?
unfoldable pub find : String → List Task → Option Task
find id [] = none
find id (r ∷ rs) = let rest = find id rs in if str_eq r.id id then some r else rest

-- UPDATE tasks SET … WHERE …; `count` of the condition is RowsAffected.
unfoldable pub update : (Task → Bool) → (Task → Task) → List Task → List Task
update p f [] = []
update p f (r ∷ rs) = (if p r then f r else r) ∷ update p f rs

-- WHERE id=? AND …
abbrev pub at_id : String → (Task → Bool) → Task → Bool
at_id id p r = str_eq r.id id && p r

-- PRIMARY KEY: no two rows share an id.
abbrev pub Fresh : String → List Task → Type 0
Fresh id = All (λ r. str_eq r.id id ≡ false)

abbrev pub UniqueIds : List Task → Type 0
UniqueIds [] = Unit {0}
UniqueIds (r ∷ rs) = Fresh r.id rs × UniqueIds rs

-- A condition that no row meets after the row with the id was passed.
count-Fresh :
    (id : String) (p : Task → Bool) (rs : List Task) → Fresh id rs → count (at_id id p) rs ≡ 0
count-Fresh id p [] h = refl
count-Fresh id p (r ∷ rs) h = ground (arith, count-Fresh id p rs h.1)

find-Fresh : (id : String) (rs : List Task) → Fresh id rs → find id rs ≡ none
unfolding find
find-Fresh id [] h = refl
find-Fresh id (r ∷ rs) h = ground (arith, find-Fresh id rs h.1)

-- The row with an id meets a condition.
abbrev pub meets : (Task → Bool) → Option Task → ℕ
meets p none = 0
meets p (some r) = if p r then 1 else 0

-- RowsAffected is 1 exactly when the row with the id is there and meets the rest of the condition.
pub count-at_id :
    (id : String) (p : Task → Bool) (rs : List Task)
    → UniqueIds rs
    → count (at_id id p) rs ≡ meets p (find id rs)
unfolding find
count-at_id id p [] u = refl
count-at_id id p (r ∷ rs) u = elim (Bool-cases (str_eq r.id id)) [
  | inl e ↦
      let same : r.id ≡ id = str_eq→eq r.id id e in
      rw (e) (ground (arith, count-Fresh id p rs (rw same at u.0)))
  | inr e ↦ rw (e) (count-at_id id p rs u.1)
]

pub find-id : (id : String) (rs : List Task) {r : Task} → find id rs ≡ some r → r.id ≡ id
unfolding find
find-id id [] h = cc
find-id id (x ∷ rs) h = elim (Bool-cases (str_eq x.id id)) [
  | inl e ↦ cc (str_eq→eq x.id id e, rw e at h)
  | inr e ↦ find-id id rs (rw e at h)
]

-- What an UPDATE makes of a row that was read.
abbrev pub rewrite_row : (Task → Bool) → (Task → Task) → Option Task → Option Task
rewrite_row p f none = none
rewrite_row p f (some r) = some (if p r then f r else r)

module _ (p : Task → Bool) (f : Task → Task) (keeps : (r : Task) → (f r).id ≡ r.id) where
  -- A read after an UPDATE that leaves the ids alone.
  pub find-update :
      (id : String) (rs : List Task) → find id (update p f rs) ≡ rewrite_row p f (find id rs)
  unfolding find update
  find-update id [] = refl
  find-update id (r ∷ rs) = ground (arith, keeps r, find-update id rs)

  pub Fresh-update : (id : String) (rs : List Task) → Fresh id rs → Fresh id (update p f rs)
  unfolding update
  Fresh-update id [] h = tt
  Fresh-update id (r ∷ rs) h = ground (arith, keeps r, Fresh-update id rs h.1)

  pub UniqueIds-update : (rs : List Task) → UniqueIds rs → UniqueIds (update p f rs)
  unfolding update
  UniqueIds-update [] u = tt
  UniqueIds-update (r ∷ rs) u =
      ground (arith, keeps r, Fresh-update r.id rs u.0, UniqueIds-update rs u.1)

-- A predicate on rows survives an UPDATE that keeps it on each row that it rewrites.
pub All-update {κ} :
    (P : Task → Type κ) (p : Task → Bool) (f : Task → Task) (rs : List Task)
    → ((r : Task) → p r ≡ true → P r → P (f r))
    → All P rs
    → All P (update p f rs)
unfolding update
All-update P p f [] keep h = tt
All-update P p f (r ∷ rs) keep h = elim (Bool-cases (p r)) [
  | inl e ↦ rw e (keep r e h.0, All-update P p f rs keep h.1)
  | inr e ↦ rw e (h.0, All-update P p f rs keep h.1)
]

pub All-find {κ} :
    (P : Task → Type κ) (id : String) (rs : List Task) {r : Task}
    → All P rs
    → find id rs ≡ some r
    → P r
unfolding find
All-find P id [] h e = absurd (cc)
All-find P id (x ∷ rs) {r = r} h e = elim (Bool-cases (str_eq x.id id)) [
  | inl hit ↦ let same : x ≡ r = cc (rw hit at e) in subst P same h.0
  | inr miss ↦ All-find P id rs h.1 (rw miss at e)
]

-- What holds of each row after the UPDATE, from what held of it before.
pub All-rewrite {κ μ} :
    (P : Task → Type κ) (Q : Task → Type μ) (p : Task → Bool) (f : Task → Task) (rs : List Task)
    → ((r : Task) → P r → Q (if p r then f r else r))
    → All P rs
    → All Q (update p f rs)
unfolding update
All-rewrite P Q p f [] keep h = tt
All-rewrite P Q p f (r ∷ rs) keep h = (keep r h.0, All-rewrite P Q p f rs keep h.1)

-- An UPDATE by id that affects one row affects every row with the id.
pub count-one :
    (id : String) (p : Task → Bool) (rs : List Task)
    → UniqueIds rs
    → count (at_id id p) rs ≡ 1
    → All (λ r. str_eq r.id id ≡ true → p r ≡ true) rs
count-one id p [] u h = tt
count-one id p (r ∷ rs) u h = elim (Bool-cases (str_eq r.id id)) [
  | inl e ↦
      let same : r.id ≡ id = str_eq→eq r.id id e in
      let apart : Fresh id rs = rw same at u.0 in
      (
        (λ _. ground (arith, count-Fresh id p rs apart)),
        All-map (λ x. str_eq x.id id ≡ false) _ rs (λ x a b. absurd (ground arith)) apart,
      )
  | inr e ↦ ((λ b. absurd (ground arith)), count-one id p rs u.1 (rw e at h))
]
