-- ===== src/LoadMonitor/Laws.antt =====
-- The counters and the load figure of load_monitor.c.
use socket_project.Prelude.{ℕ, ◌+◌, ◌%◌, ◌^◌, ◌<◌, ◌≡◌, inl, inr, true, false, arith, Bool-cases}
use socket_project.Float.{FloatOps, IsOrdered, float_0, float_100}
use socket_project.LoadMonitor.{
  Load, Machine, load_task_start, load_task_done, load_get, capped, load_get_percentage,
}

abbrev pub IsLoad : Load → Type 0
IsLoad l = (l.active_tasks < 2 ^ 32) × (l.total_tasks < 2 ^ 32)

-- A start and a done leave the active count as it was, also where it wraps, and count one task more.
pub task_done-task_start :
    (l : Load)
    → IsLoad l
    → load_task_done (load_task_start l) ≡ record l { total_tasks = (l.total_tasks + 1) % 2 ^ 32 }
unfolding load_task_done load_task_start
task_done-task_start l h = ground arith

lt_irrefl : (f : FloatOps) → IsOrdered f → (a : ℕ) → f.is_nan a ≡ false → f.lt a a ≡ false
lt_irrefl f o a h = elim (Bool-cases (f.lt a a)) [
  | inl e ↦ cc (o.lt-not_le a a e, o.le_refl a h)
  | inr e ↦ e
]

lt_asymm : (f : FloatOps) → IsOrdered f → (a b : ℕ) → f.lt a b ≡ true → f.lt b a ≡ false
lt_asymm f o a b h = elim (Bool-cases (f.lt b a)) [
  | inl e ↦ absurd (cc (o.lt-not_le b a e, o.lt-le a b h))
  | inr e ↦ e
]

capped_cap :
    (f : FloatOps) (pct : ℕ)
    → IsOrdered f
    → f.is_nan float_100 ≡ false
    → f.lt float_100 (capped f pct) ≡ false
unfolding capped
capped_cap f pct o h = elim (Bool-cases (f.lt float_100 pct)) [
  | inl e ↦ rw e (lt_irrefl f o float_100 h)
  | inr e ↦ rw (e, e)
]

-- With IEEE comparison, and 100 being no NaN, the load percentage never compares above 100,
-- whatever the load file, sysconf and the arithmetic give.
pub load_get_percentage_cap :
    (f : FloatOps) (m : Machine)
    → IsOrdered f
    → f.is_nan float_100 ≡ false
    → f.lt float_100 (load_get_percentage f m) ≡ false
unfolding load_get_percentage
load_get_percentage_cap f m o h = elim (Bool-cases (load_get m.loadavg).ok) [
  | inl e ↦ rw e (capped_cap f _ o h)
  | inr e ↦ rw e (lt_asymm f o float_0 float_100 o.lt_zero_hundred)
]
