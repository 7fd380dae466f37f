-- ===== src/TokenPool/Cpu.antt =====
-- `cpuGovernor` of internal/captcha/cpu_governor.go, and what `refillOnce` does with its factor. A
-- share of the CPU is kept as a fraction of two counters, so that no rounding comes in.
use zcode2api_plus.Common.{
  ℕ, ◌+◌, ◌-◌, ◌*◌, ◌/◌, Option, none, some, ltb, leb, ◌==◌, if◌then◌else◌, min, ◌≡◌, ◌≤◌, refl,
  arith, ◌⊎◌, inl, inr,
}

pub record CpuSample : Type 0 where
  pub busy : ℕ
  pub total : ℕ

-- `percent` is 100 * busy / total of `share`; `last` stands for `hasLast` too.
pub record CpuGovernor : Type 0 where
  pub last : Option CpuSample
  pub share : CpuSample

-- `Update`: no sample changes nothing.
unfoldable pub update : CpuGovernor → Option CpuSample → CpuGovernor
update g none = g
update g (some cur) = elim g.last [
  | none ↦ record g { last = some cur }
  | some last ↦
      if ltb last.total cur.total
      then record {
        last = some cur;
        share = record {
          busy = min (cur.busy - last.busy) (cur.total - last.total);
          total = cur.total - last.total;
        };
      }
      else record g { last = some cur }
]

-- `Factor` is 1 divided by this; a governor that is not there has the factor 1.
unfoldable pub divisor : Option CpuGovernor → ℕ
divisor none = 1
divisor (some g) =
    let p = g.share in
    if p.total == 0
    then 1
    else if leb (85 * p.total) (100 * p.busy)
    then 4
    else if leb (70 * p.total) (100 * p.busy)
    then 2
    else 1

-- `int(math.Round(float64(n) * factor))` and `int(math.Ceil(float64(n) * factor))`.
abbrev pub round_by : ℕ → ℕ → ℕ
round_by d n = (n + d / 2) / d

abbrev pub ceil_by : ℕ → ℕ → ℕ
ceil_by d n = (n + (d - 1)) / d

abbrev pub at_least_one : ℕ → ℕ
at_least_one n = if ltb n 1 then 1 else n

-- The target and the number of mints at a time.
unfoldable pub scaled : Option CpuGovernor → ℕ → ℕ → ℕ × ℕ
scaled g target empty_solve =
    (at_least_one (round_by (divisor g) target), at_least_one (ceil_by (divisor g) empty_solve))

divisor-cases : (g : Option CpuGovernor) → (divisor g ≡ 1) ⊎ ((divisor g ≡ 2) ⊎ (divisor g ≡ 4))
unfolding divisor
divisor-cases none = inl refl
divisor-cases (some g) = ground arith

-- Whatever the load, at least one mint and one token stay wanted, and never more than without it.
pub scaled_bounds :
    (g : Option CpuGovernor) (target empty_solve : ℕ)
    → 1 ≤ target
    → 1 ≤ empty_solve
    → let (t, c) = scaled g target empty_solve in
      (1 ≤ t) × (t ≤ target) × (1 ≤ c) × (c ≤ empty_solve)
unfolding scaled
scaled_bounds g target empty_solve h k = elim (divisor-cases g) [
  | inl e ↦ rw e (ground arith)
  | inr (inl e) ↦ rw e (ground arith)
  | inr (inr e) ↦ rw e (ground arith)
]
