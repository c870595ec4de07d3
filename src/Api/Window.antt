-- ===== src/Api/Window.antt =====
-- The rolling window of /work observations (internal/api/window.go). A duration is a signed number of
-- nanoseconds. The mutex makes each call one step.
pub mod Ring
pub mod Percentile
use k8s_buddy.Common.{
  ℕ, suc, ◌+◌, ◌-◌, ◌*◌, ◌/◌, ◌%◌, Bool, false, Option, none, some, List, [], ◌∷◌, map, ltb, ◌==◌,
  if◌then◌else◌, ℤ, pos, leb_ℤ, get_elem?, set, take, replicate, count_if,
}
use k8s_buddy.Common.Float.{FloatOps}

abbrev pub work_window_size : ℕ
work_window_size = 100

pub record WorkObservation : Type 0 where
  pub duration : ℤ
  pub failed : Bool

pub record WorkWindow : Type 0 where
  pub buf : List WorkObservation
  pub next : ℕ
  pub count : ℕ

-- The zero value: a full array of zero observations.
unfoldable pub zero_window : WorkWindow
zero_window = record {
  buf = replicate work_window_size (record { duration = pos 0; failed = false });
  next = 0;
  count = 0;
}

unfoldable pub observe : ℤ → Bool → WorkWindow → WorkWindow
observe d failed w = record {
  buf = set w.buf w.next (record { duration = d; failed = failed });
  next = (w.next + 1) % work_window_size;
  count = if ltb w.count work_window_size then w.count + 1 else w.count;
}

-- `slices.Sort`, ascending.
unfoldable pub insert_sorted : ℤ → List ℤ → List ℤ
insert_sorted d [] = d ∷ []
insert_sorted d (x ∷ xs) = if leb_ℤ d x then d ∷ x ∷ xs else x ∷ insert_sorted d xs

unfoldable pub sort : List ℤ → List ℤ
unfolding insert_sorted
sort [] = []
sort (d ∷ ds) = insert_sorted d (sort ds)

-- `int(math.Ceil(0.95*float64(n)))`. For n up to 100 the float64 product is rounded to within its
-- distance of the exact one to a whole number, so its ceiling is that of 95 n / 100.
abbrev pub ceil_95 : ℕ → ℕ
ceil_95 n = (95 * n + 99) / 100

-- The rank with its two clamps; `-` stops at 0, which is what the first clamp does.
abbrev pub rank : ℕ → ℕ
rank n = let r = ceil_95 n - 1 in if ltb (n - 1) r then n - 1 else r

-- The copy taken under the lock: the durations and the failures of the first `count` entries.
unfoldable pub durations : WorkWindow → List ℤ
durations w = map (λ o. o.duration) (take w.count w.buf)

unfoldable pub failures : WorkWindow → ℕ
failures w = count_if (λ o. o.failed) (take w.count w.buf)

-- `sample[rank]`; out of range it would panic, which is `none` here (`p95-IsNearestRank`).
unfoldable pub p95 : WorkWindow → Option ℤ
unfolding sort durations
p95 w = if w.count == 0 then some (pos 0) else get_elem? (sort (durations w)) (rank w.count)

module _ {F : Type 0} (float : FloatOps F) where
  unfoldable pub error_rate : WorkWindow → F
  unfolding failures
  error_rate w =
      if w.count == 0
      then float.of_ℤ (pos 0)
      else float.div (float.of_ℤ (pos (failures w))) (float.of_ℤ (pos w.count))

  -- The error rate, the 95th percentile and the number of observations.
  unfoldable pub stats : WorkWindow → F × Option ℤ × ℕ
  unfolding error_rate p95
  stats w = (error_rate w, p95 w, w.count)
