-- ===== src/Quests/Saves.antt =====
-- SaveQuestDraft of apps/server/internal/service/content.go, and what GetQuest reads after it.
use m_pack_station.Base.{
  ℕ, String, false, str_eq, ◌==◌, ltb, if◌then◌else◌, List, [], ◌∷◌, some, sort_by, insert_by, ◌≡◌,
  ◌≤◌, refl, arith, Bool-cases, inl, inr, ap, All, All-map, All-sort_by, suc,
}
use m_pack_station.Drafts.Model.{gives}
use m_pack_station.Drafts.Reading.{answer_subst}
use m_pack_station.Quests.Model.{QuestDraft}
use m_pack_station.Quests.Rows.{QuestRevision, QuestBook, rows_fit}
use m_pack_station.Quests.Store.{
  QuestTables, revision_of, listed, latest_quest, max_quest_revision, quest_newer, find_book,
  change_book, append_quest, with_book, save_in_book, get_quest_revision, quest_revision_taken,
}
use m_pack_station.Quests.Service.{quest_draft, pack_book_meta, get_quest, answers}
use m_pack_station.Quests.RoundTrip.{Restores, quest_draft-Restores}

-- What is read after a save: the revision that was saved, and a draft that restores the one given.
pub record QuestReads (pack : String) (d : QuestDraft) (s : QuestTables) (r : QuestRevision)
    : Type 0 where
  pub read : get_quest pack s ≡ answers (listed r, quest_draft (listed r))
  pub restores : Restores d (quest_draft (listed r))

below_max :
    (rs : List QuestRevision) → All (λ (x : QuestRevision). x.number ≤ max_quest_revision rs) rs
unfolding max_quest_revision
below_max [] = tt
below_max (r ∷ rs) = (
  first r.number (max_quest_revision rs),
  All-map _ _ rs (λ x k. after x.number r.number (max_quest_revision rs) k) (below_max rs),
)
  where
    first : (n m : ℕ) → n ≤ (if ltb m n then n else m)
    first n m = ground arith

    after : (x n m : ℕ) → x ≤ m → x ≤ (if ltb m n then n else m)
    after x n m h = ground arith

-- A revision numbered above the others is the latest.
in_front :
    (r : QuestRevision) (xs : List QuestRevision)
    → All (λ (x : QuestRevision). ltb r.number x.number ≡ false) xs
    → insert_by quest_newer r xs ≡ r ∷ xs
unfolding insert_by
in_front r [] h = refl
in_front r (x ∷ xs) h = rw h.0 refl

latest_quest-first :
    (r : QuestRevision) (rs : List QuestRevision)
    → r.number ≡ suc (max_quest_revision rs)
    → latest_quest (r ∷ rs) ≡ some r
unfolding latest_quest sort_by
latest_quest-first r rs n =
    rw
      (in_front r (sort_by quest_newer rs) (
        All-sort_by (λ (x : QuestRevision). ltb r.number x.number ≡ false) quest_newer rs
          (All-map _ _ rs (λ x k. not_below r.number x.number (max_quest_revision rs) n k)
            (below_max rs))))
      refl
  where
    not_below : (m x top : ℕ) → m ≡ suc top → x ≤ top → ltb m x ≡ false
    not_below m x top e h = ground arith

find_book-change :
    (pack : String) (r : QuestRevision) (bs : List QuestBook) {b : QuestBook}
    → find_book pack bs ≡ some b
    → find_book pack (change_book pack (append_quest r) bs) ≡ some (append_quest r b)
unfolding find_book change_book
find_book-change pack r [] e = absurd (cc)
find_book-change pack r (x ∷ xs) {b = b} e = elim (Bool-cases (str_eq x.pack_id pack)) [
  | inl h ↦
      let same : x ≡ b = cc (rw h at e) in
      rw (h, change_book, find_book, h) (ap (λ y. some (append_quest r y)) same)
  | inr h ↦ rw (h, change_book, find_book, h) (find_book-change pack r xs (rw h at e))
]

-- The latest revision of the changed book.
get_quest-saved :
    (pack : String) (books : List QuestBook) (b : QuestBook) (r : QuestRevision) (s : QuestTables)
    → find_book pack books ≡ some b
    → r.number ≡ suc (max_quest_revision b.revisions)
    → get_quest pack (with_book books r pack s) ≡ answers (listed r, quest_draft (listed r))
unfolding get_quest get_quest_revision
get_quest-saved pack books b r s found n =
    rw
      (
        find_book-change pack r books found,
        get_quest_revision,
        latest_quest-first r b.revisions n,
        get_quest,
      )
      refl

numbered :
    (id : String) (n at : ℕ) (d : QuestDraft)
    → (revision_of id n at (pack_book_meta d.book) d).number ≡ n
unfolding revision_of
numbered id n at d = refl

pub save_in_book-QuestReads :
    (pack : String) (books : List QuestBook) (b : QuestBook) (expected : ℕ) (id : String) (at : ℕ)
    (d : QuestDraft) (s : QuestTables) {s' : QuestTables} {r : QuestRevision}
    → find_book pack books ≡ some b
    → save_in_book pack books b expected id at (pack_book_meta d.book) d s ≡ (s', gives r)
    → QuestReads pack d s' r
unfolding save_in_book
save_in_book-QuestReads pack books b expected id at d s found h =
    let top = max_quest_revision b.revisions in
    let x = revision_of id (suc top) at (pack_book_meta d.book) d in
    elim (Bool-cases (top == expected)) [
      | inr e ↦ absurd (cc (rw e at h))
      | inl e ↦ elim (Bool-cases (quest_revision_taken id books)) [
        | inl t ↦ absurd (cc (rw (e, t) at h))
        | inr t ↦ elim (Bool-cases (rows_fit x)) [
          | inr f ↦ absurd (cc (rw (e, t, f) at h))
          | inl f ↦
              answer_subst (QuestReads pack d) (with_book books x pack s) x (rw (e, t, f) at h)
                (record {
                  read = get_quest-saved pack books b x s found (numbered id (suc top) at d);
                  restores = quest_draft-Restores id (suc top) at d f;
                })
        ]
      ]
    ]
