-- ===== src/Api/Server/Work.antt =====
-- What /work does (internal/api/handlers.go).
use k8s_buddy.Common.{
  ℕ, zero, suc, ◌<◌, ◌%◌, ◌≡◌, refl, ap, ◌∙◌, none, some, arith, ℤ, pos, negsuc, leb_ℤ, leb_ℤ→≤ℤ,
  ◌⊎◌, ◌≤ℤ◌, false, Bool-cases, inl, inr,
}
use k8s_buddy.Api.Server.{Config, int64, int63n, random_work_delay, plus_ℤ, minus_ℤ}

abbrev pub max_int64 : ℕ
max_int64 = 9223372036854775807

-- The wrap-around keeps what fits.
int64-fits : (z : ℤ) → pos 0 ≤ℤ z → z ≤ℤ pos max_int64 → int64 z ≡ z
unfolding int64
int64-fits (pos n) low high = ground arith
int64-fits (negsuc n) low high = absurd (omega arith)

draw_below : (d n : ℕ) → d % suc n < suc n
draw_below d n = omega arith

int63n-some :
    (z : ℤ) (draw : ℕ)
    → pos 1 ≤ℤ z
    → (d : ℤ) × (int63n z draw ≡ some d) × (pos 0 ≤ℤ d) × (plus_ℤ d (pos 1) ≤ℤ z)
unfolding int63n
int63n-some (pos zero) draw h = absurd (omega arith)
int63n-some (pos (suc n)) draw h =
    (pos (draw % suc n), refl, omega arith, ground (arith, draw_below draw n))
int63n-some (negsuc n) draw h = absurd (omega arith)

-- A delay between the bounds, both included.
pub record IsSampled {F : Type 0} (cfg : Config F) (draw : ℕ) : Type 0 where
  pub delay : ℤ
  pub sampled : random_work_delay cfg draw ≡ some delay
  pub low : cfg.work_min_delay ≤ℤ delay
  pub high : delay ≤ℤ cfg.work_max_delay

-- Bounds whose span and one fit an int64.
abbrev pub Spans : {F : Type 0} → Config F → Type 0
Spans cfg =
    (pos 0 ≤ℤ cfg.work_min_delay)
    × (cfg.work_min_delay ≤ℤ cfg.work_max_delay)
    × (cfg.work_max_delay ≤ℤ pos max_int64)
    × (minus_ℤ cfg.work_max_delay cfg.work_min_delay ≤ℤ pos 9223372036854775806)

random_work_delay-some :
    {F : Type 0} (cfg : Config F) (draw : ℕ) (d : ℤ)
    → leb_ℤ cfg.work_max_delay cfg.work_min_delay ≡ false
    → int63n (int64 (plus_ℤ (int64 (minus_ℤ cfg.work_max_delay cfg.work_min_delay)) (pos 1))) draw
      ≡ some d
    → random_work_delay cfg draw ≡ some (int64 (plus_ℤ cfg.work_min_delay d))
unfolding random_work_delay
random_work_delay-some cfg draw d wide drawn = rw (wide, drawn)

within :
    (lo hi d : ℤ)
    → pos 0 ≤ℤ d
    → plus_ℤ d (pos 1) ≤ℤ plus_ℤ (minus_ℤ hi lo) (pos 1)
    → (lo ≤ℤ plus_ℤ lo d) × (plus_ℤ lo d ≤ℤ hi)
within lo hi d least most = (ground arith, ground arith)

IsSampled-within :
    {F : Type 0} (cfg : Config F) (draw : ℕ) (d : ℤ)
    → (cfg.work_min_delay ≤ℤ plus_ℤ cfg.work_min_delay d)
      × (plus_ℤ cfg.work_min_delay d ≤ℤ cfg.work_max_delay)
    → pos 0 ≤ℤ cfg.work_min_delay
    → cfg.work_max_delay ≤ℤ pos max_int64
    → random_work_delay cfg draw ≡ some (int64 (plus_ℤ cfg.work_min_delay d))
    → IsSampled cfg draw
IsSampled-within cfg draw d (above, below) low high found = record {
  delay = plus_ℤ cfg.work_min_delay d;
  sampled =
      found
      ∙ ap some (
          int64-fits (plus_ℤ cfg.work_min_delay d) (omega (arith, above, low))
            (omega (arith, below, high)));
  low = above;
  high = below;
}

pub random_work_delay-IsSampled :
    {F : Type 0} (cfg : Config F) (draw : ℕ) → Spans cfg → IsSampled cfg draw
unfolding random_work_delay
random_work_delay-IsSampled cfg draw (low, order, high, span) =
    let lo = cfg.work_min_delay in
    let hi = cfg.work_max_delay in
    elim (Bool-cases (leb_ℤ hi lo)) [
      | inl e ↦ record { delay = lo; sampled = ground (arith, e); low = omega arith; high = order }
      | inr e ↦
          let wide : int64 (minus_ℤ hi lo) ≡ minus_ℤ hi lo =
            int64-fits (minus_ℤ hi lo) (ground arith) (ground arith) in
          let one : int64 (plus_ℤ (minus_ℤ hi lo) (pos 1)) ≡ plus_ℤ (minus_ℤ hi lo) (pos 1) =
            int64-fits (plus_ℤ (minus_ℤ hi lo) (pos 1)) (ground arith) (ground arith) in
          let same = ap (λ x. int64 (plus_ℤ x (pos 1))) wide ∙ one in
          let (d, drawn, least, most) =
            int63n-some (plus_ℤ (minus_ℤ hi lo) (pos 1)) draw (ground arith) in
          IsSampled-within cfg draw d (within lo hi d least most) low high
            (random_work_delay-some cfg draw d e (ap (λ x. int63n x draw) same ∙ drawn))
    ]

-- The widest bounds of a duration, whose span and one overflow.
pub record Overflows {F : Type 0} (cfg : Config F) (draw : ℕ) : Type 0 where
  pub from_zero : cfg.work_min_delay ≡ pos 0
  pub to_max : cfg.work_max_delay ≡ pos max_int64
  pub panics : random_work_delay cfg draw ≡ none

pub random_work_delay-Overflows :
    {F : Type 0} (cfg : Config F) (draw : ℕ)
    → cfg.work_min_delay ≡ pos 0
    → cfg.work_max_delay ≡ pos max_int64
    → Overflows cfg draw
unfolding random_work_delay int64 int63n
random_work_delay-Overflows cfg draw low high = record {
  from_zero = low;
  to_max = high;
  panics = rw (low, high);
}

pub random_work_delay-cases :
    {F : Type 0} (cfg : Config F) (draw : ℕ)
    → pos 0 ≤ℤ cfg.work_min_delay
    → cfg.work_min_delay ≤ℤ cfg.work_max_delay
    → cfg.work_max_delay ≤ℤ pos max_int64
    → IsSampled cfg draw ⊎ Overflows cfg draw
random_work_delay-cases cfg draw low order high =
    let lo = cfg.work_min_delay in
    let hi = cfg.work_max_delay in
    elim (Bool-cases (leb_ℤ (minus_ℤ hi lo) (pos 9223372036854775806))) [
      | inl e ↦ inl (
          random_work_delay-IsSampled cfg draw
            (low, order, high, leb_ℤ→≤ℤ (minus_ℤ hi lo) (pos 9223372036854775806) e))
      | inr e ↦ inr (random_work_delay-Overflows cfg draw (ground arith) (ground arith))
    ]
