-- ===== src/Quests/Draining.antt =====
-- What the outer loop of the cycle check in apps/server/internal/service/content.go comes to.
use m_pack_station.Base.{
  ℕ, zero, suc, String, Bool, true, false, List, [], ◌∷◌, str_eq, ◌≡◌, ◌+◌, ◌≤◌, All, arith,
  Bool-cases, inl, inr, not, ◌||◌, ◌&&◌, str_eq→eq, eq_refl, refl, str_eq_comm, subst, sym, ◌∙◌, ap,
  if◌then◌else◌, ◌==◌, length, some,
}
use m_pack_station.Quests.Queue.{Arrow, Degrees, targets, relax, drain}
use m_pack_station.Quests.Pigeons.{mem, AllDistinct, Inside, length-Inside}
use m_pack_station.Quests.Relaxing.{hits, waits_for, Settled, relax-Settled, or_none}
use m_pack_station.Base.Int.{pos}

-- Each node left the queue after all nodes that an edge leads from to it; the last stands in front.
abbrev pub InOrder : List Arrow → List String → Type 0
InOrder es [] = Unit {0}
InOrder es (p ∷ ps) = (waits_for p ps es ≡ 0) × InOrder es ps

-- The nodes that left the queue, at the end of the loop.
pub record Drained (ids : List String) (es : List Arrow) (seen : ℕ) : Type 0 where
  pub gone : List String
  pub counted : seen ≡ length gone
  pub distinct : AllDistinct gone
  pub inside : Inside ids gone
  pub ordered : InOrder es gone
  pub closed : (v : String) → mem v ids ≡ true → mem v gone ≡ (waits_for v gone es == 0)

abbrev pub EndsIn : List String → List Arrow → Type 0
EndsIn ids es = All (λ (e : Arrow). mem e.to ids ≡ true) es

targets-Inside :
    (ids : List String) (id : String) (es : List Arrow) → EndsIn ids es → Inside ids (targets id es)
unfolding targets
targets-Inside ids id [] h = tt
targets-Inside ids id (e ∷ es) h = elim (Bool-cases (str_eq e.from id)) [
  | inl b ↦ rw b (h.0, targets-Inside ids id es h.1)
  | inr b ↦ rw b (targets-Inside ids id es h.1)
]

own_edge :
    (b : Bool) (n w m : ℕ)
    → n + w ≡ m
    → (if b then suc n else n) + (if b && false then suc w else w)
      ≡ (if b && true then suc m else m)
own_edge true n w m e = omega arith
own_edge false n w m e = e

other_edge :
    (b : Bool) (n w m : ℕ) → n + w ≡ m → n + (if b then suc w else w) ≡ (if b then suc m else m)
other_edge true n w m e = omega arith
other_edge false n w m e = e

-- The edges of a node that leaves the queue come off.
waits_for-gone :
    (v id : String) (gone : List String) (es : List Arrow)
    → mem id gone ≡ false
    → hits v (targets id es) + waits_for v (id ∷ gone) es ≡ waits_for v gone es
unfolding targets
waits_for-gone v id gone [] h = omega arith
waits_for-gone v id gone (e ∷ es) h =
    let rest = waits_for-gone v id gone es h in
    elim (Bool-cases (str_eq e.from id)) [
      | inl b ↦
          let absent : mem e.from gone ≡ false =
            subst (λ x. mem x gone ≡ false) (sym (str_eq→eq e.from id b)) h in
          rw (b, str_eq_comm id e.from, b, absent)
            (own_edge (str_eq e.to v) (hits v (targets id es)) (waits_for v (id ∷ gone) es)
              (waits_for v gone es) rest)
      | inr b ↦
          rw (b, str_eq_comm id e.from, b)
            (other_edge (str_eq e.to v && not (mem e.from gone)) (hits v (targets id es))
              (waits_for v (id ∷ gone) es) (waits_for v gone es) rest)
    ]

abbrev pub left_over : List String → List Arrow → String → ℕ
left_over gone es v = waits_for v gone es

leave :
    (ids gone : List String) (es : List Arrow) (indeg : Degrees) (id : String) (q : List String)
    → Settled ids gone (left_over gone es) indeg (id ∷ q)
    → Settled ids (id ∷ gone) (λ v. hits v (targets id es) + left_over (id ∷ gone) es v) indeg q
leave ids gone es indeg id q s = record {
  degrees = λ v. s.degrees v ∙ ap pos (sym (waits_for-gone v id gone es s.apart.0));
  settled = λ v h.
      moved (mem v gone) (str_eq id v) (mem v q)
      ∙ s.settled v h
      ∙ ap (λ n. n == 0) (sym (waits_for-gone v id gone es s.apart.0));
  inside = s.inside.1;
  distinct = s.distinct.1;
  apart = others q s.distinct.0 s.apart.1;
}
  where
    moved : (a b c : Bool) → ((b || a) || c) ≡ (a || (b || c))
    moved a b c = ground arith

    others :
        (xs : List String)
        → mem id xs ≡ false
        → All (λ x. mem x gone ≡ false) xs
        → All (λ x. mem x (id ∷ gone) ≡ false) xs
    others [] h k = tt
    others (x ∷ xs) h k = elim (Bool-cases (str_eq x id)) [
      | inl e ↦ let bad : true ≡ false = rw e at h in absurd (cc)
      | inr e ↦ (rw (str_eq_comm id x, e) k.0, others xs (rw e at h) k.1)
    ]

next_waits :
    (ids gone : List String) (es : List Arrow) (indeg : Degrees) (id : String) (q : List String)
    → Settled ids gone (left_over gone es) indeg (id ∷ q)
    → waits_for id gone es ≡ 0
next_waits ids gone es indeg id q s =
    zero_of _ (sym (s.settled id s.inside.0) ∙ rw (eq_refl id) (either (mem id gone)))
  where
    zero_of : (n : ℕ) → (n == 0) ≡ true → n ≡ 0
    zero_of n h = ground arith

    either : (b : Bool) → (b || (true || mem id q)) ≡ true
    either b = ground arith

pub drain-Drained :
    (fuel : ℕ) (ids gone : List String) (es : List Arrow) (indeg : Degrees) (q : List String)
    (seen : ℕ)
    → EndsIn ids es
    → Settled ids gone (left_over gone es) indeg q
    → seen ≡ length gone
    → AllDistinct gone
    → Inside ids gone
    → InOrder es gone
    → suc (length ids) ≤ fuel + length gone
    → (n : ℕ) × (drain fuel es indeg q seen ≡ some n) × Drained ids es n
unfolding drain
drain-Drained fuel ids gone es indeg [] seen ends s c d i o enough = (
  seen,
  refl,
  record {
    gone = gone;
    counted = c;
    distinct = d;
    inside = i;
    ordered = o;
    closed = λ v h. sym (or_none (mem v gone)) ∙ s.settled v h;
  },
)
drain-Drained zero ids gone es indeg (id ∷ q) seen ends s c d i o enough =
    let most = length-Inside (id ∷ gone) ids (s.apart.0, d) (s.inside.0, i) in absurd (omega arith)
drain-Drained (suc fuel) ids gone es indeg (id ∷ q) seen ends s c d i o enough =
    drain-Drained fuel ids (id ∷ gone) es (relax (targets id es) indeg q).0
      (relax (targets id es) indeg q).1 (suc seen) ends
      (relax-Settled ids (id ∷ gone) (left_over (id ∷ gone) es) (targets id es) indeg q
        (targets-Inside ids id es ends) (leave ids gone es indeg id q s))
      (ap suc c) (s.apart.0, d) (s.inside.0, i) (next_waits ids gone es indeg id q s, o)
      (omega arith)
