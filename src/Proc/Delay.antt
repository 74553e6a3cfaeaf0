-- ===== src/Proc/Delay.antt =====
-- The simulated delays: valid requests to `nanosleep`, of a length in the range of the descriptor.
use csc.Base.{
  ℕ, ◌+◌, ◌-◌, ◌*◌, ◌/◌, ◌%◌, ◌≤◌, ◌<◌, ◌≡◌, refl, ◌||◌, none, some, ◌∷◌, ltb, leb, arith, ◌⊎◌, inl,
  inr, Bool-cases,
}
use csc.Base.Int.{ℤ, pos, negsuc}
use csc.Proc.{Proc, Timespec, Clock, delay_ms, delay_randms, do_critical_work, do_noncritical_work}

-- The milliseconds of a request, for requests of whole milliseconds.
abbrev pub Lasts : Timespec → ℕ → Type 0
Lasts t ms = (t.tv_sec * 1000000000 + t.tv_nsec ≡ ms * 1000000) × (t.tv_nsec < 1000000000)

-- From `c` to `d` the process has slept not at all, or once, for a time in the range.
abbrev pub Naps : ℤ → ℤ → Clock → Clock → Type 0
Naps (pos least) (pos most) c d =
    (((least < 1) ⊎ (most ≤ least)) × (d ≡ c))
    ⊎ ((1 ≤ least)
        × (least < most)
        × (d.draws ≡ c.draws + 1)
        × ((t : Timespec) × (d.naps ≡ t ∷ c.naps)
            × ((ms : ℕ) × Lasts t ms × (least ≤ ms) × (ms ≤ most))))
Naps least most c d = d ≡ c

-- `delay_ms` asks for exactly the delay, with a valid number of nanoseconds.
pub delay_ms-Lasts :
    (ms : ℕ) (c : Clock)
    → 1 ≤ ms
    → (t : Timespec) × ((delay_ms ms c).naps ≡ t ∷ c.naps)
      × Lasts t ms
      × ((delay_ms ms c).draws ≡ c.draws)
unfolding delay_ms
delay_ms-Lasts ms c h = (
  record { tv_sec = ms / 1000; tv_nsec = (ms - ms / 1000 * 1000) * 1000000 },
  ground arith,
  (omega arith, omega arith),
  ground arith,
)

pub delay_randms-Naps : (least most : ℤ) (c : Clock) → Naps least most c (delay_randms least most c)
unfolding delay_randms
delay_randms-Naps (negsuc a) (negsuc b) c = refl
delay_randms-Naps (negsuc a) (pos b) c = refl
delay_randms-Naps (pos a) (negsuc b) c = refl
delay_randms-Naps (pos a) (pos b) c = elim (Bool-cases (ltb a 1 || leb b a)) [
  | inl e ↦ rw e (inl (ground arith, refl))
  | inr e ↦
      let ms = c.random c.draws % (b - a + 1) + a in
      let low : 1 ≤ a = ground arith in
      let high : a < b = ground arith in
      let drawn : c.random c.draws % (b - a + 1) < b - a + 1 = omega arith in
      let (t, slept, lasts, draws) =
        delay_ms-Lasts ms (record c { draws = c.draws + 1 }) (omega arith) in
      rw e (inr (low, high, draws, (t, slept, (ms, lasts, omega arith, omega arith))))
]

-- `do_critical_work` and `do_noncritical_work` each sleep once, for a time in the range that the
-- descriptor has for them, or not at all where that range is not valid; with no descriptor
-- nothing happens.
pub work-Naps :
    (p : Proc) (c : Clock)
    → Naps p.crit_work.least p.crit_work.most c (do_critical_work (some p) c)
      × Naps p.noncrit_work.least p.noncrit_work.most c (do_noncritical_work (some p) c)
      × (do_critical_work none c ≡ c)
      × (do_noncritical_work none c ≡ c)
unfolding do_critical_work do_noncritical_work
work-Naps p c = (
  delay_randms-Naps p.crit_work.least p.crit_work.most c,
  delay_randms-Naps p.noncrit_work.least p.noncrit_work.most c,
  refl,
  refl,
)
