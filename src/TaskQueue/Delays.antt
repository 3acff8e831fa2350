-- ===== src/TaskQueue/Delays.antt =====
-- The delays of apps/server/internal/task: the backoff before a retry, in task.go, and the waits of
-- an idle worker, in worker.go.
use Prim.Native.Nat.{min}
use native.Mathlib.Nat.{pow-le-pow_right}
use m_pack_station.Base.{refl, sym, subst, ℕ, ◌≤◌, List, ◌<◌, suc, ◌≡◌, ◌∷◌, arith, [], ◌*◌, ◌^◌}
use m_pack_station.TaskQueue.Finishing.{backoff}
use m_pack_station.TaskQueue.Runner.{
  idle_bounds, waits, next_delay, IdleBounds, RoundEnd, ran, idle, failing,
}
use m_pack_station.TaskQueue.Model.{max_backoff}

-- Between two bounds, of which the lower one is not 0.
abbrev pub Within : ℕ → ℕ → ℕ → Type 0
Within low high d = (1 ≤ low) × (low ≤ d) × (d ≤ high)

-- The waits after the ends of rounds, from the delay `d`: none after a round that ran, which sets the
-- delay to the lower bound; one after a round that found nothing, which doubles the delay up to the
-- upper bound, and one after a round that failed, which keeps it.
abbrev pub Paced : IdleBounds → ℕ → List RoundEnd → List ℕ → Type 0
Paced b d [] [] = Unit {0}
Paced b d [] (w ∷ ws) = ⊥
Paced b d (ran ∷ es) ws = Paced b b.min es ws
Paced b d (idle ∷ es) [] = ⊥
Paced b d (idle ∷ es) (w ∷ ws) = (w ≡ d) × Within b.min b.max w × Paced b (min (2 * d) b.max) es ws
Paced b d (failing ∷ es) [] = ⊥
Paced b d (failing ∷ es) (w ∷ ws) = (w ≡ d) × Within b.min b.max w × Paced b d es ws

waits-Paced_from :
    (b : IdleBounds) (es : List RoundEnd) (delay : ℕ)
    → Within b.min b.max b.min
    → Within b.min b.max delay
    → Paced b delay es (waits b es delay)
unfolding waits next_delay
waits-Paced_from b [] delay l h = tt
waits-Paced_from b (ran ∷ es) delay l h = waits-Paced_from b es b.min l l
waits-Paced_from b (idle ∷ es) delay l h =
    let doubled : next_delay b idle delay ≡ min (2 * delay) b.max = ground arith in
    let within : Within b.min b.max (min (2 * delay) b.max) =
      ((ground arith), (ground arith), (ground arith)) in
    (
      refl,
      h,
      subst (λ d. Paced b (min (2 * delay) b.max) es (waits b es d)) (sym doubled)
          (waits-Paced_from b es (min (2 * delay) b.max) l within),
    )
waits-Paced_from b (failing ∷ es) delay l h = (refl, h, waits-Paced_from b es delay l h)

-- The waits of `Worker.Run`, however its rounds end: each round that found no task, or failed, is
-- followed by exactly one wait, and a round that ran by none. The first wait, and the first after a
-- round that ran, is the lower bound; a round that found no task doubles the wait after it, up to the
-- upper bound, and one that failed leaves it. No wait is 0, less than the lower bound or more than
-- the upper one.
pub waits-Paced :
    (low high : ℕ) (es : List RoundEnd)
    → let b = idle_bounds low high in Paced b b.min es (waits b es b.min)
unfolding idle_bounds
waits-Paced low high es =
    let b = idle_bounds low high in
    let l : Within b.min b.max b.min = ((ground arith), (ground arith), (ground arith)) in
    waits-Paced_from b es b.min l l

-- The delay before a retry doubles with every attempt from one second and is cut at five minutes:
-- for the attempts that a task can have, the 64-bit product does not wrap.
pub backoff-exact : (n : ℕ) → n < 16 → backoff (suc n) ≡ min (1000 * 2 ^ n) max_backoff
unfolding backoff
backoff-exact n h =
    let small : 2 ^ n ≤ 2 ^ 15 = pow-le-pow_right (omega arith) {j = 15} (omega arith) in
    ground arith
