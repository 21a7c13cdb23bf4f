-- ===== src/Manager/Invariant.antt =====
-- What every handler of src/rxcapturemanagerthread.cpp relies on and keeps.
use rxtracenetcap.Prelude.{[], Uniq, str_eq}
use rxtracenetcap.TaskMgr.Ownership.{IsValid}
use rxtracenetcap.Manager.State.{Manager}

-- The invariant of the thread: a valid task manager whose tasks are all handed over, and no module
-- twice among the cooldowns.
pub record ManagerIsValid (m : Manager) : Type 0 where
  pub tasks : IsValid [] m.task_mgr
  pub cooldowns : Uniq m.module_last_trigger
