-- ===== src/Quests/Ranks.antt =====
-- The check for cycles in apps/server/internal/service/content.go, against the ranks of the nodes.
use m_pack_station.Base.{
  ℕ, zero, suc, String, Bool, true, false, List, [], ◌∷◌, str_eq, ◌≡◌, ◌≤◌, ◌<◌, All, All-map,
  All-zip, arith, Bool-cases, inl, inr, not, ◌||◌, ◌&&◌, str_eq→eq, refl, str_eq_comm, subst, sym,
  ◌∙◌, ap, if◌then◌else◌, ◌==◌, length, some, ltb, ◌↔◌,
}
use m_pack_station.Quests.Queue.{Arrow, has_cycle}
use m_pack_station.Quests.Pigeons.{mem, AllDistinct, Inside, length-Inside}
use m_pack_station.Quests.Relaxing.{waits_for}
use m_pack_station.Quests.Draining.{InOrder, Drained, EndsIn}
use m_pack_station.Quests.Cycles.{count_seen-Drained, mem_self}

-- Every edge leads to a node of a higher rank.
abbrev pub Ascends : (String → ℕ) → List Arrow → Type 0
Ascends rank = All (λ (e : Arrow). rank e.from < rank e.to)

-- The nodes can be ranked: no edges lead around a circle.
abbrev pub Acyclic : List Arrow → Type 0
Acyclic es = (rank : String → ℕ) × Ascends rank es

abbrev pub StartsIn : List String → List Arrow → Type 0
StartsIn ids es = All (λ (e : Arrow). mem e.from ids ≡ true) es

-- The place of a node in the order in which nodes left the queue.
rank_in : List String → String → ℕ
rank_in [] v = 0
rank_in (p ∷ ps) v = let rest = rank_in ps v in if str_eq p v then suc (length ps) else rest

rank_in-length : (ps : List String) (v : String) → rank_in ps v ≤ length ps
unfolding rank_in
rank_in-length [] v = omega arith
rank_in-length (p ∷ ps) v = ground (arith, rank_in-length ps v)

none_counted : (b : Bool) (n : ℕ) → (if b then suc n else n) ≡ 0 → (b ≡ false) × (n ≡ 0)
none_counted true n h = absurd (omega arith)
none_counted false n h = (refl, h)

come_off : (a c : Bool) → (a && not c) ≡ false → (not a || c) ≡ true
come_off a c h = ground arith

-- Where nothing is waited for, each edge to the node comes from one that is gone.
waits-none :
    (p : String) (ps : List String) (es : List Arrow)
    → waits_for p ps es ≡ 0
    → All (λ (e : Arrow). (not (str_eq e.to p) || mem e.from ps) ≡ true) es
waits-none p ps [] h = tt
waits-none p ps (e ∷ es) h =
    let (edge, rest) = none_counted _ _ h in
    (come_off (str_eq e.to p) (mem e.from ps) edge, waits-none p ps es rest)

abbrev Behind : List String → Arrow → Type 0
Behind gone e =
    mem e.to gone ≡ true → (mem e.from gone ≡ true) × (rank_in gone e.from < rank_in gone e.to)

other_than :
    (p f : String) (ps : List String) → mem p ps ≡ false → mem f ps ≡ true → str_eq p f ≡ false
other_than p f ps d h = elim (Bool-cases (str_eq p f)) [
  | inr e ↦ e
  | inl e ↦
      let bad : mem p ps ≡ true = subst (λ x. mem x ps ≡ true) (sym (str_eq→eq p f e)) h in
      absurd (cc)
]

Behind-one :
    (p : String) (ps : List String) (e : Arrow)
    → mem p ps ≡ false
    → (not (str_eq e.to p) || mem e.from ps) ≡ true
    → Behind ps e
    → Behind (p ∷ ps) e
unfolding rank_in
Behind-one p ps e d w ih h = elim (Bool-cases (str_eq e.to p)) [
  | inl t ↦
      let there : mem e.from ps ≡ true = rw t at w in
      let apart = other_than p e.from ps d there in
      let le = rank_in-length ps e.from in
      (rw (apart, there) refl, rw (apart, str_eq_comm p e.to, t) (omega arith))
  | inr t ↦
      let other : str_eq p e.to ≡ false = str_eq_comm p e.to ∙ t in
      let (there, lt) = ih (rw other at h) in
      let apart = other_than p e.from ps d there in (rw (apart, there) refl, rw (apart, other) lt)
]

InOrder-Behind :
    (gone : List String) (es : List Arrow)
    → AllDistinct gone
    → InOrder es gone
    → All (Behind gone) es
InOrder-Behind [] es d o = none_behind es
  where
    none_behind : (fs : List Arrow) → All (Behind []) fs
    none_behind [] = tt
    none_behind (f ∷ fs) = (λ h. absurd (cc), none_behind fs)
InOrder-Behind (p ∷ ps) es d o =
    All-map _ _ es (λ e k. Behind-one p ps e d.0 k.0 k.1)
      (All-zip _ _ es (waits-none p ps es o.0) (InOrder-Behind ps es d.1 o.1))

-- Nothing is waited for by a node whose edges come from nodes that are gone.
none_waits :
    (rank : String → ℕ) (ids gone : List String) (v : String)
    → ((u : String) → rank u < rank v → mem u ids ≡ true → mem u gone ≡ true)
    → (es : List Arrow) → StartsIn ids es
    → Ascends rank es
    → waits_for v gone es ≡ 0
none_waits rank ids gone v below [] a b = refl
none_waits rank ids gone v below (f ∷ fs) a b = elim (Bool-cases (str_eq f.to v)) [
  | inr t ↦ rw t (none_waits rank ids gone v below fs a.1 b.1)
  | inl t ↦
      let less : rank f.from < rank v =
        subst (λ y. rank f.from < rank y) (str_eq→eq f.to v t) b.0 in
      rw (t, below f.from less a.0) (none_waits rank ids gone v below fs a.1 b.1)
]

-- The nodes with a rank below a bound all leave the queue.
leaves_below :
    (rank : String → ℕ) (ids : List String) (es : List Arrow) {seen : ℕ} (x : Drained ids es seen)
    → StartsIn ids es
    → Ascends rank es
    → (k : ℕ) (v : String) → rank v < k
    → mem v ids ≡ true
    → mem v x.gone ≡ true
leaves_below rank ids es x starts up zero v lt h = absurd (omega arith)
leaves_below rank ids es x starts up (suc k) v lt h =
    x.closed v h
    ∙ ap (λ n. n == 0)
        (none_waits rank ids x.gone v
          (λ u less there. leaves_below rank ids es x starts up k u (omega arith) there) es starts
          up)

-- All nodes left the queue, if they can be ranked.
all_left :
    (ids : List String) (es : List Arrow) {seen : ℕ} (x : Drained ids es seen)
    → StartsIn ids es
    → Acyclic es
    → (vs : List String) → Inside ids vs
    → Inside x.gone vs
all_left ids es x starts (rank, up) [] h = tt
all_left ids es x starts (rank, up) (v ∷ vs) h = (
  leaves_below rank ids es x starts up (suc (rank v)) v (omega arith) h.0,
  all_left ids es x starts (rank, up) vs h.1,
)

-- If as many nodes left the queue as there are, each of them did.
each_left :
    (ids : List String) (es : List Arrow) {seen : ℕ} (x : Drained ids es seen)
    → length ids ≤ length x.gone
    → (v : String) → mem v ids ≡ true
    → mem v x.gone ≡ true
each_left ids es x le v h = elim (Bool-cases (mem v x.gone)) [
  | inl e ↦ e
  | inr e ↦
      let more = length-Inside (v ∷ x.gone) ids (e, x.distinct) (h, x.inside) in
      absurd (omega arith)
]

Drained-Acyclic :
    (ids : List String) (es : List Arrow) {seen : ℕ} (x : Drained ids es seen)
    → EndsIn ids es
    → length ids ≤ length x.gone
    → Acyclic es
Drained-Acyclic ids es x ends le = (
  rank_in x.gone,
  All-map _ _ es (λ e k. (k.1 (each_left ids es x le e.to k.0)).1)
      (All-zip _ _ es ends (InOrder-Behind x.gone es x.distinct x.ordered)),
)

order_false : (m n : ℕ) → (ltb m n ≡ false) ↔ (n ≤ m)
order_false m n = (λ h. ground arith, λ h. ground arith)

-- Where the nodes have distinct ids and the edges run between them, the loop over the queue always
-- ends, and it finds a cycle just if the nodes cannot be ranked so that every edge leads upwards.
pub has_cycle-Acyclic :
    (ids : List String) (es : List Arrow)
    → AllDistinct ids
    → StartsIn ids es
    → EndsIn ids es
    → (b : Bool) × (has_cycle ids es ≡ some b) × ((b ≡ false) ↔ Acyclic es)
unfolding has_cycle
has_cycle-Acyclic ids es d starts ends =
    let (n, e, x) = count_seen-Drained ids es d ends in
    (
      ltb n (length ids),
      rw (e, has_cycle) refl,
      (
        λ h.
            Drained-Acyclic ids es x ends
              (subst (λ k. length ids ≤ k) x.counted ((order_false n (length ids)).0 h)),
        λ a. (order_false n (length ids)).1 (
            subst (λ k. length ids ≤ k) (sym x.counted)
              (length-Inside ids x.gone d (all_left ids es x starts a ids (mem_self ids)))),
      ),
    )
