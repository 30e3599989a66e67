-- ===== src/Agent/Activity/Lease.antt =====
-- The reaper's reading (sigiledd/src/ide.rs, `idle_record`) of the reply that `status` of
-- ide-agent/src/main.rs makes of the activity.
use sigiled.Base.{List}
use sigiled.Agent.Activity.{Activity}
use sigiled.Agent.Activity.Served.{Served}
