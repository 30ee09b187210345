-- ===== src/LoadMonitor.antt =====
-- New_socket_proj/load_monitor.c: the task counters and the load figure of this node.
pub mod Laws
pub mod Tests
use socket_project.Prelude.{
  ℕ, ◌+◌, ◌-◌, ◌%◌, ◌^◌, Bool, true, false, Option, none, some, ltb, ◌==◌, if◌then◌else◌,
}
use socket_project.Float.{FloatOps, float_0, float_10, float_99, float_100}

-- `g_active_tasks` and `g_total_tasks`, each an `atomic_uint`.
pub record Load : Type 0 where
  pub active_tasks : ℕ
  pub total_tasks : ℕ

unfoldable pub load_task_start : Load → Load
load_task_start l = record {
  active_tasks = (l.active_tasks + 1) % 2 ^ 32;
  total_tasks = (l.total_tasks + 1) % 2 ^ 32;
}

unfoldable pub load_task_done : Load → Load
load_task_done l = record l { active_tasks = (l.active_tasks + 2 ^ 32 - 1) % 2 ^ 32 }

-- What `fscanf` found in /proc/loadavg: how many numbers, and the three.
pub record Scan : Type 0 where
  pub ret : ℕ
  pub load1 : ℕ
  pub load5 : ℕ
  pub load15 : ℕ

-- What the system answers: `none` for a file that does not open, and for a failing `sysconf`.
pub record Machine : Type 0 where
  pub loadavg : Option Scan
  pub processors : Option ℕ

-- The return value (`true` for 0) and the three loads.
pub record LoadAvg : Type 0 where
  pub ok : Bool
  pub load1 : ℕ
  pub load5 : ℕ
  pub load15 : ℕ

abbrev unknown_load : LoadAvg
unknown_load = record { ok = false; load1 = float_99; load5 = float_99; load15 = float_99 }

unfoldable pub load_get : Option Scan → LoadAvg
load_get none = unknown_load
load_get (some s) =
    if s.ret == 3
    then record { ok = true; load1 = s.load1; load5 = s.load5; load15 = s.load15 }
    else unknown_load

unfoldable pub load_get_core_count : Option ℕ → ℕ
load_get_core_count none = 1
load_get_core_count (some n_cores) = if ltb n_cores 1 then 1 else n_cores % 2 ^ 32

-- `if (pct > 100.0f) pct = 100.0f;`
unfoldable pub capped : FloatOps → ℕ → ℕ
capped f pct = if f.lt float_100 pct then float_100 else pct

unfoldable pub load_get_percentage : FloatOps → Machine → ℕ
load_get_percentage f m =
    let avg = load_get m.loadavg in
    if avg.ok
    then capped f (f.mul (f.div avg.load1 (f.of_u32 (load_get_core_count m.processors))) float_100)
    else float_0

unfoldable pub load_score_local : FloatOps → Machine → Load → ℕ
load_score_local f m l = f.add (load_get_percentage f m) (f.mul float_10 (f.of_u32 l.active_tasks))
