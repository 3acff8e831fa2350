-- ===== src/Quests/Relaxing.antt =====
-- What the inner loop of the cycle check in apps/server/internal/service/content.go keeps true.
use m_pack_station.Base.{
  ℕ, suc, String, Bool, true, false, List, [], ◌∷◌, ◌++◌, str_eq, ◌≡◌, ◌+◌, All, All-append, arith,
  Bool-cases, inl, inr, not, ◌||◌, ◌&&◌, str_eq→eq, eq_refl, refl, str_eq_comm, sym, ◌∙◌, count, ap,
  if◌then◌else◌, ◌==◌,
}
use m_pack_station.Base.Int.{pos}
use m_pack_station.Quests.Queue.{Arrow, Degrees, minus_one, is_zero, set_degree, relax}
use m_pack_station.Quests.Pigeons.{mem, AllDistinct, Inside}

-- How often a node stands in a list of targets.
abbrev pub hits : String → List String → ℕ
hits v ts = count (λ t. str_eq t v) ts

-- How many incoming edges of a node start outside the nodes that left the queue.
abbrev pub waits_for : String → List String → List Arrow → ℕ
waits_for v gone es = count (λ (e : Arrow). str_eq e.to v && not (mem e.from gone)) es

-- Each degree is what is still to come off it; the nodes that are gone or in the queue are those
-- with nothing to come; the queue holds each of them once.
pub record Settled (ids gone : List String) (left : String → ℕ) (indeg : Degrees) (q : List String)
    : Type 0 where
  pub degrees : (v : String) → indeg v ≡ pos (left v)
  pub settled : (v : String) → mem v ids ≡ true → (mem v gone || mem v q) ≡ (left v == 0)
  pub inside : Inside ids q
  pub distinct : AllDistinct q
  pub apart : All (λ x. mem x gone ≡ false) q

mem-append : (v x : String) (q : List String) → mem v (q ++ (x ∷ [])) ≡ (mem v q || str_eq x v)
mem-append v x [] = ground arith
mem-append v x (y ∷ q) = ground (arith, mem-append v x q)

AllDistinct-append :
    (x : String) (q : List String) → AllDistinct q → mem x q ≡ false → AllDistinct (q ++ (x ∷ []))
AllDistinct-append x [] d h = (refl, tt)
AllDistinct-append x (y ∷ q) d h = elim (Bool-cases (str_eq y x)) [
  | inl e ↦ let bad : true ≡ false = rw e at h in absurd (cc)
  | inr e ↦
      (mem-append y x q ∙ rw (d.0, str_eq_comm x y, e) refl, AllDistinct-append x q d.1 (rw e at h))
]

pub Settled-ext :
    (ids gone : List String) (l r : String → ℕ) (indeg : Degrees) (q : List String)
    → ((v : String) → l v ≡ r v)
    → Settled ids gone l indeg q
    → Settled ids gone r indeg q
Settled-ext ids gone l r indeg q e s = record {
  degrees = λ v. s.degrees v ∙ ap pos (e v);
  settled = λ v h. s.settled v h ∙ ap (λ n. n == 0) (e v);
  inside = s.inside;
  distinct = s.distinct;
  apart = s.apart;
}

or_false : (a b : Bool) → (a || b) ≡ false → (a ≡ false) × (b ≡ false)
or_false a b h = ground arith

or_assoc : (a b c : Bool) → (a || (b || c)) ≡ ((a || b) || c)
or_assoc a b c = ground arith

pub or_true : (a b : Bool) → (a || true) ≡ true
or_true a b = ground arith

pub or_none : (a : Bool) → (a || false) ≡ a
or_none a = ground arith

pub is_zero_pos : (n : ℕ) → is_zero (pos n) ≡ (n == 0)
is_zero_pos n = ground arith

module _ (left : String → ℕ) (to : String) (ts : List String) where
  still : (v : String) → str_eq to v ≡ false → hits v (to ∷ ts) + left v ≡ hits v ts + left v
  still v e = rw e refl

  hits_self : hits to (to ∷ ts) + left to ≡ suc (hits to ts + left to)
  hits_self = rw (eq_refl to) (omega arith)

  module _ (ids gone : List String) (indeg : Degrees) (q : List String)
      (s : Settled ids gone (λ v. hits v (to ∷ ts) + left v) indeg q) where
    fallen : minus_one (indeg to) ≡ pos (hits to ts + left to)
    fallen = rw (s.degrees to, hits_self) refl

    degrees_after :
        (v : String) → set_degree indeg to (minus_one (indeg to)) v ≡ pos (hits v ts + left v)
    degrees_after v = elim (Bool-cases (str_eq v to)) [
      | inl e ↦ rw (e, fallen) (ap (λ x. pos (hits x ts + left x)) (sym (str_eq→eq v to e)))
      | inr e ↦ rw e (s.degrees v ∙ ap pos (still v (str_eq_comm to v ∙ e)))
    ]

    -- The target is not gone and not in the queue.
    outside : mem to ids ≡ true → (mem to gone || mem to q) ≡ false
    outside h = s.settled to h ∙ ap (λ n. n == 0) hits_self ∙ not_zero (hits to ts + left to)
      where
        not_zero : (n : ℕ) → (suc n == 0) ≡ false
        not_zero n = ground arith

    settled_away :
        (v : String)
        → mem v ids ≡ true
        → str_eq to v ≡ false
        → (mem v gone || mem v q) ≡ (hits v ts + left v == 0)
    settled_away v h e = s.settled v h ∙ ap (λ n. n == 0) (still v e)

    zero_at : is_zero (minus_one (indeg to)) ≡ (hits to ts + left to == 0)
    zero_at = ap is_zero fallen ∙ is_zero_pos (hits to ts + left to)

    settled_at :
        (v : String)
        → str_eq to v ≡ true
        → (hits v ts + left v == 0) ≡ is_zero (minus_one (indeg to))
    settled_at v e = ap (λ x. hits x ts + left x == 0) (sym (str_eq→eq to v e)) ∙ sym zero_at

    settled_push :
        (v : String)
        → mem v ids ≡ true
        → is_zero (minus_one (indeg to)) ≡ true
        → (mem v gone || mem v (q ++ (to ∷ []))) ≡ (hits v ts + left v == 0)
    settled_push v h z = elim (Bool-cases (str_eq to v)) [
      | inl e ↦
          rw (mem-append v to q, e, or_true (mem v q) true, or_true (mem v gone) true)
            (sym (settled_at v e ∙ z))
      | inr e ↦ rw (mem-append v to q, e, or_none (mem v q)) (settled_away v h e)
    ]

    settled_keep :
        (v : String)
        → mem v ids ≡ true
        → mem to ids ≡ true
        → is_zero (minus_one (indeg to)) ≡ false
        → (mem v gone || mem v q) ≡ (hits v ts + left v == 0)
    settled_keep v h k z = elim (Bool-cases (str_eq to v)) [
      | inl e ↦
          ap (λ x. mem x gone || mem x q) (sym (str_eq→eq to v e))
          ∙ outside k
          ∙ sym (settled_at v e ∙ z)
      | inr e ↦ settled_away v h e
    ]

-- One target: its degree falls, and it joins the queue where nothing more is to come.
relax_one :
    (ids gone : List String) (left : String → ℕ) (to : String) (ts : List String) (indeg : Degrees)
    (q : List String)
    → mem to ids ≡ true
    → Settled ids gone (λ v. hits v (to ∷ ts) + left v) indeg q
    → Settled ids gone
        (λ v. hits v ts + left v)
        (set_degree indeg to (minus_one (indeg to)))
        (if is_zero (minus_one (indeg to)) then q ++ (to ∷ []) else q)
relax_one ids gone left to ts indeg q h s =
    let f = fallen left to ts ids gone indeg q s in
    let (far, free) = or_false _ _ (outside left to ts ids gone indeg q s h) in
    elim (Bool-cases (is_zero (minus_one (indeg to)))) [
      | inl z ↦ rw z (record {
        degrees = degrees_after left to ts ids gone indeg q s;
        settled = λ v k. settled_push left to ts ids gone indeg q s v k z;
        inside = All-append (λ x. mem x ids ≡ true) q (to ∷ []) s.inside (h, tt);
        distinct = AllDistinct-append to q s.distinct free;
        apart = All-append (λ x. mem x gone ≡ false) q (to ∷ []) s.apart (far, tt);
      })
      | inr z ↦ rw z (record {
        degrees = degrees_after left to ts ids gone indeg q s;
        settled = λ v k. settled_keep left to ts ids gone indeg q s v k h z;
        inside = s.inside;
        distinct = s.distinct;
        apart = s.apart;
      })
    ]

pub relax-Settled :
    (ids gone : List String) (left : String → ℕ) (ts : List String) (indeg : Degrees)
    (q : List String)
    → Inside ids ts
    → Settled ids gone (λ v. hits v ts + left v) indeg q
    → Settled ids gone left (relax ts indeg q).0 (relax ts indeg q).1
unfolding relax
relax-Settled ids gone left [] indeg q h s =
    Settled-ext ids gone (λ v. 0 + left v) left indeg q (λ v. omega arith) s
relax-Settled ids gone left (to ∷ ts) indeg q h s =
    relax-Settled ids gone left ts (set_degree indeg to (minus_one (indeg to)))
      (if is_zero (minus_one (indeg to)) then q ++ (to ∷ []) else q) h.1
      (relax_one ids gone left to ts indeg q h.0 s)
