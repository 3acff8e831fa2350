-- ===== src/Quests/Cycles.antt =====
-- The check for cycles in apps/server/internal/service/content.go finds a cycle just if there is no
-- order of the nodes.
use m_pack_station.Base.{
  ℕ, suc, String, Bool, true, false, List, [], ◌∷◌, str_eq, ◌≡◌, ◌+◌, All-map, arith, Bool-cases,
  inl, inr, ◌&&◌, str_eq→eq, eq_refl, refl, str_eq_comm, sym, ◌∙◌, ap, length, some, filter,
  All-filter,
}
use m_pack_station.Base.Int.{pos}
use m_pack_station.Quests.Queue.{
  Arrow, Degrees, in_degrees, no_degrees, is_zero, plus_one, set_degree, first_queue, count_seen,
}
use m_pack_station.Quests.Pigeons.{mem, AllDistinct, Inside}
use m_pack_station.Quests.Relaxing.{waits_for, Settled, is_zero_pos, or_true}
use m_pack_station.Quests.Draining.{Drained, EndsIn, left_over, drain-Drained}

-- The start: each degree counts the edges that end in the node.
in_degrees-count :
    (v : String) (es : List Arrow) (indeg : Degrees) (n : ℕ)
    → indeg v ≡ pos n
    → in_degrees es indeg v ≡ pos (n + waits_for v [] es)
unfolding in_degrees
in_degrees-count v [] indeg n h = h ∙ ap pos (omega arith)
in_degrees-count v (e ∷ es) indeg n h = elim (Bool-cases (str_eq v e.to)) [
  | inl b ↦
      let here : set_degree indeg e.to (plus_one (indeg e.to)) v ≡ pos (suc n) =
        rw b (ap plus_one (ap indeg (sym (str_eq→eq v e.to b)) ∙ h)) in
      in_degrees-count v es (set_degree indeg e.to (plus_one (indeg e.to))) (suc n) here
      ∙ rw (str_eq_comm e.to v, b) (ap pos (omega arith))
  | inr b ↦
      let here : set_degree indeg e.to (plus_one (indeg e.to)) v ≡ pos n = rw b h in
      in_degrees-count v es (set_degree indeg e.to (plus_one (indeg e.to))) n here
      ∙ rw (str_eq_comm e.to v, b) refl
]

first_degrees :
    (v : String) (es : List Arrow) → in_degrees es no_degrees v ≡ pos (left_over [] es v)
first_degrees v es = in_degrees-count v es no_degrees 0 refl ∙ ap pos (omega arith)

and_false : (b : Bool) → (b && false) ≡ false
and_false b = ground arith

mem-filter :
    (p : String → Bool) (v : String) (ids : List String) → mem v (filter p ids) ≡ (mem v ids && p v)
mem-filter p v [] = refl
mem-filter p v (x ∷ xs) = elim (Bool-cases (str_eq x v)) [
  | inl e ↦
      let same : p x ≡ p v = ap p (str_eq→eq x v e) in
      elim (Bool-cases (p x)) [
        | inl b ↦ rw (b, e) (sym (sym same ∙ b))
        | inr b ↦
            let pv : p v ≡ false = sym same ∙ b in
            rw (b, e, mem-filter p v xs, pv) (and_false (mem v xs))
      ]
  | inr e ↦ elim (Bool-cases (p x)) [
    | inl b ↦ rw (b, e) (mem-filter p v xs)
    | inr b ↦ rw (b, e) (mem-filter p v xs)
  ]
]

filter-AllDistinct :
    (p : String → Bool) (ids : List String) → AllDistinct ids → AllDistinct (filter p ids)
filter-AllDistinct p [] h = tt
filter-AllDistinct p (x ∷ xs) h = elim (Bool-cases (p x)) [
  | inl b ↦ rw b (mem-filter p x xs ∙ rw h.0 refl, filter-AllDistinct p xs h.1)
  | inr b ↦ rw b (filter-AllDistinct p xs h.1)
]

pub mem_self : (ids : List String) → Inside ids ids
mem_self [] = tt
mem_self (x ∷ xs) =
    (rw (eq_refl x) refl, All-map _ _ xs (λ y k. rw k (or_true (str_eq x y) true)) (mem_self xs))

first_queue-Settled :
    (ids : List String) (es : List Arrow)
    → AllDistinct ids
    → Settled ids []
        (left_over [] es)
        (in_degrees es no_degrees)
        (first_queue ids (in_degrees es no_degrees))
unfolding first_queue
first_queue-Settled ids es d = record {
  degrees = λ v. first_degrees v es;
  settled = λ v h.
      mem-filter (λ id. is_zero (in_degrees es no_degrees id)) v ids
      ∙ rw h (ap is_zero (first_degrees v es) ∙ is_zero_pos (left_over [] es v));
  inside = queue_inside;
  distinct = filter-AllDistinct _ ids d;
  apart = All-map _ _ _ (λ x k. refl) queue_inside;
}
  where
    queue_inside : Inside ids (filter (λ id. is_zero (in_degrees es no_degrees id)) ids)
    queue_inside =
        All-map _ _ _ (λ x k. k.0)
          (All-filter (λ x. mem x ids ≡ true) (λ id. is_zero (in_degrees es no_degrees id)) ids
            (mem_self ids))

-- The loop ends with the fuel it is given.
pub count_seen-Drained :
    (ids : List String) (es : List Arrow)
    → AllDistinct ids
    → EndsIn ids es
    → (n : ℕ) × (count_seen ids es ≡ some n) × Drained ids es n
unfolding count_seen
count_seen-Drained ids es d ends =
    drain-Drained (suc (length ids)) ids [] es (in_degrees es no_degrees)
      (first_queue ids (in_degrees es no_degrees)) 0 ends (first_queue-Settled ids es d) refl tt tt
      tt (omega arith)
