-- ===== src/Quests/Restores.antt =====
-- SaveQuestDraft and RollbackQuest of apps/server/internal/service/content.go, and what GetQuest
-- reads after them.
use m_pack_station.Base.{
  ℕ, String, Bool, true, false, str_eq, List, ◌∷◌, some, ◌≡◌, refl, arith, Bool-cases, Option-cases,
  inl, inr, ap, suc, eq_refl,
}
use m_pack_station.Base.Int.{ℤ, pos, negsuc}
use m_pack_station.Drafts.Model.{Surroundings, ContentError, Reply, gives, refuses}
use m_pack_station.Drafts.Service.{new_id}
use m_pack_station.Quests.Model.{QuestDraft, PackMod}
use m_pack_station.Quests.Rows.{QuestRevision, QuestBook}
use m_pack_station.Quests.Validate.{validate_quest}
use m_pack_station.Quests.Store.{
  QuestTables, find_book, save_quest_draft_tx, get_quest_revision, get_quest_revision_by_id,
  book_id_taken, new_book,
}
use m_pack_station.Quests.Service.{
  quest_draft, pack_book_meta, save_quest_draft, save_error, quest_saved, two_more, QuestReply,
  answers, errs, rollback_quest,
}
use m_pack_station.Quests.Saves.{QuestReads, save_in_book-QuestReads}

find_book-first :
    (pack : String) (b : QuestBook) (bs : List QuestBook)
    → str_eq b.pack_id pack ≡ true
    → find_book pack (b ∷ bs) ≡ some b
unfolding find_book
find_book-first pack b bs h = rw h refl

save_quest_draft_tx-QuestReads :
    (pack book_id : String) (n : ℕ) (id : String) (at : ℕ) (d : QuestDraft) (s : QuestTables)
    {s' : QuestTables} {r : QuestRevision}
    → save_quest_draft_tx pack book_id n id at (pack_book_meta d.book) d s ≡ (s', gives r)
    → QuestReads pack d s' r
unfolding save_quest_draft_tx
save_quest_draft_tx-QuestReads pack book_id n id at d s h =
    elim (Option-cases (find_book pack s.books)) [
      | inr (b, e) ↦
          save_in_book-QuestReads pack s.books b n id at d s e (rw (e, save_quest_draft_tx) at h)
      | inl e ↦ elim (Bool-cases (book_id_taken book_id s.books)) [
        | inl t ↦ absurd (cc (rw (e, save_quest_draft_tx, t) at h))
        | inr t ↦
            let b = new_book book_id pack at in
            save_in_book-QuestReads pack (b ∷ s.books) b n id at d s
              (find_book-first pack b s.books (eq_refl pack)) (rw (e, save_quest_draft_tx, t) at h)
      ]
    ]

is_answer : QuestReply QuestRevision → Bool
is_answer (answers r) = true
is_answer (errs e) = false

quest_saved-refuses :
    (s : QuestTables) (e : ContentError) → is_answer (quest_saved (s, refuses e)).1 ≡ false
unfolding is_answer
quest_saved-refuses s e = ground arith

quest_saved-answers :
    (o : QuestTables × Reply QuestRevision) {s' : QuestTables} {r : QuestRevision}
    → quest_saved o ≡ (s', answers r)
    → o ≡ (s', gives r)
unfolding is_answer
quest_saved-answers (s, gives x) {s' = s'} {r = r} h =
    let es : s ≡ s' = ap (λ (o : QuestTables × QuestReply QuestRevision). o.0) h in
    let er : x ≡ r = ap (λ (o : QuestTables × QuestReply QuestRevision). answer x o.1) h in cc
  where
    answer : QuestRevision → QuestReply QuestRevision → QuestRevision
    answer y (answers z) = z
    answer y (errs e) = y
quest_saved-answers (s, refuses e) h =
    let bad = ap (λ (o : QuestTables × QuestReply QuestRevision). is_answer o.1) h in
    let good = quest_saved-refuses s e in absurd (cc)

-- A draft that is saved is read back, whether the pack had a book before or not: the revision is the
-- latest one, and its chapters, nodes and edges are those of the draft in another order, under their
-- own ids.
pub save_quest_draft-QuestReads :
    (w : Surroundings) (mods : List PackMod) (now : ℕ) (pack : String) (d : QuestDraft)
    (if_match : ℤ) (s : QuestTables) {s' : QuestTables} {r : QuestRevision}
    → save_quest_draft w mods now pack d if_match s ≡ (s', answers r)
    → QuestReads pack d s' r
unfolding save_quest_draft
save_quest_draft-QuestReads w mods now pack d (negsuc n) s h = absurd (cc)
save_quest_draft-QuestReads w mods now pack d (pos n) s h =
    let issues = validate_quest mods pack d in
    elim (Option-cases (save_error issues issues)) [
      | inr (e, b) ↦ absurd (cc (rw (b, save_quest_draft) at h))
      | inl b ↦
          save_quest_draft_tx-QuestReads pack (new_id "quest-book" w s.generated) n
            (new_id "quest-revision" w (suc s.generated)) now d (two_more s)
            (quest_saved-answers _ (rw (b, save_quest_draft) at h))
    ]

-- After a rollback that succeeds, what is read restores the draft of the revision gone back to, as
-- that was read before.
pub rollback_quest-QuestReads :
    (w : Surroundings) (mods : List PackMod) (now : ℕ) (pack target : String) (s : QuestTables)
    {b : QuestBook} {old : QuestRevision} {s' : QuestTables} {r : QuestRevision}
    → get_quest_revision_by_id pack target s ≡ some (b, old)
    → rollback_quest w mods now pack target s ≡ (s', answers r)
    → QuestReads pack (quest_draft old) s' r
unfolding rollback_quest
rollback_quest-QuestReads w mods now pack target s {b = b} {old = old} e h =
    elim (Option-cases (get_quest_revision pack s)) [
      | inl a ↦ absurd (cc (rw (e, rollback_quest, a) at h))
      | inr ((c, current), a) ↦
          save_quest_draft-QuestReads w mods now pack (quest_draft old) (pos current.number) s
            (rw (e, rollback_quest, a) at h)
    ]
