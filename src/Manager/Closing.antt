-- ===== src/Manager/Closing.antt =====
-- The messages that end a capture, in src/rxcapturemanagerthread.cpp.
use rxtracenetcap.Prelude.{◌≡◌, ◌≢◌, ℤ, pos, negsuc, Option, none, some, Run, ok, Returns, str_eq}
use rxtracenetcap.Task.{TaskStatus, completed, failed}
use rxtracenetcap.TaskTable.{TaskSnapshot}
use rxtracenetcap.TaskMgr.{query_task}
use rxtracenetcap.Manager.Handlers.{clear_module}
use rxtracenetcap.Manager.State.{Manager, World}
use rxtracenetcap.Manager.Outcomes.{Ended, status_after}
use rxtracenetcap.Manager.Invariant.{ManagerIsValid}
use rxtracenetcap.Manager.{Msg}
use rxtracenetcap.Manager.Msg.{capture_finished, capture_failed, capture_filtered_file}

-- The message ends a capture with this status.
abbrev pub ending : Msg → Option (ℤ × TaskStatus)
ending (capture_finished msg) = some (msg.capture_id, status_after msg.exit_code)
ending (capture_failed msg) = some (msg.capture_id, failed)
ending (capture_filtered_file msg) = some (msg.capture_id, completed)
ending _ = none

-- A query finds the task in its last status, another task reads as before, and the cooldown of the
-- module that the capture ran for is taken away.
pub record Closed (s : TaskStatus) (id j : ℤ) (snapshot : TaskSnapshot) (m m' : Manager)
    : Type 0 where
  pub shown : TaskSnapshot
  pub found : query_task id m'.task_mgr ≡ ok (some shown)
  pub status_is : shown.status ≡ s
  pub other : query_task j m'.task_mgr ≡ query_task j m.task_mgr
  pub cooldowns : m'.module_last_trigger ≡ clear_module (some snapshot) m.module_last_trigger

module _ (s : TaskStatus) (id j : ℤ) (snapshot : TaskSnapshot) (m : Manager) where
  -- The state between the call and the end of the cooldown.
  abbrev Called : Manager → Type 0
  Called m₁ =
      (m₁.module_last_trigger ≡ m.module_last_trigger)
      × Ended s id j snapshot.request_user m.task_mgr m₁.task_mgr

module _ (world : World) (m : Manager) (j : ℤ) (snapshot : TaskSnapshot)
    (v : ManagerIsValid m) where
  -- What the handler of a message does to the task that it is about.
  abbrev Closes : Run Manager → ℤ × TaskStatus → Type 0
  Closes r (id, s) =
      query_task id m.task_mgr ≡ ok (some snapshot) → id ≢ j → Returns (Closed s id j snapshot m) r

other_id : ℤ → ℤ
other_id (pos n) = negsuc n
other_id (negsuc n) = pos n
