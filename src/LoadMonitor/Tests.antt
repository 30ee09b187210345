-- ===== src/LoadMonitor/Tests.antt =====
-- load_monitor.c at concrete inputs.
use socket_project.Prelude.{◌≡◌, refl, false, some}
use socket_project.Float.{float_100, toy_ops, toy_ops-IsOrdered}
use socket_project.LoadMonitor.{Machine, load_get_percentage}
use socket_project.LoadMonitor.Laws.{load_get_percentage_cap}

abbrev busy : Machine
busy = record {
  loadavg = some (record { ret = 3; load1 = 0x4180_0000; load5 = 0; load15 = 0 });
  processors = some 4;
}

load_get_percentage_cap_example : toy_ops.lt float_100 (load_get_percentage toy_ops busy) ≡ false
load_get_percentage_cap_example = load_get_percentage_cap toy_ops busy toy_ops-IsOrdered refl
