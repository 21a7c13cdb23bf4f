-- ===== src/Manager/State.antt =====
-- The state of the manager thread of src/rxcapturemanagerthread.cpp, and what its handlers find outside and
-- send.
use rxtracenetcap.Prelude.{ℕ, ℤ, Bool, Option, List, Str, Map, Run, ok, ◌>>=◌, str_eq}
use rxtracenetcap.Task.{ObjId, CaptureFileInfo}
use rxtracenetcap.TaskMgr.{SafeTaskMgr}
use rxtracenetcap.PdefUsage.{Usage, FileOutcome}
use rxtracenetcap.Manager.Messages.{CaptureRawFileMsg}

-- The parts of `SRxHttpReplyMsg` that the handlers fill: the status code and the body.
pub record Reply : Type 0 where
  pub status : ℕ
  pub body : Str

-- What the handlers send to other threads. The two messages that start a capture go to a worker as
-- one, under the capture's id.
pub data Sent : Type 0 where
  to_filter_thread : CaptureRawFileMsg → Sent
  to_cleanup_thread : ℤ → List CaptureFileInfo → Sent
  to_worker : ℕ → ℤ → Sent
  to_http : ObjId → Reply → Sent

-- `next_capture_id` and `next_worker` are static variables of two functions. The first is an `int`,
-- here as the number below 2 ^ 32 with the same bits: from 2 ^ 31 on it stands for a negative `int`.
pub record Manager : Type 0 where
  pub task_mgr : SafeTaskMgr
  pub module_last_trigger : Map Str ℤ
  pub usage : Usage
  pub next_capture_id : ℕ
  pub next_worker : ℕ
  pub sent : List Sent

-- What the strategy configuration says of requests that leave it open.
pub record Strategy : Type 0 where
  pub default_iface : Str
  pub default_duration : ℤ

-- `now` is `time(NULL)`, `now_usec` is `rx_capture_now_usec()`; `worker_threads` are the thread indices
-- in `_worker_thd_vec`, and `max_concurrent` is `max_concurrent_captures` of the server configuration. `strategy` is
-- `current_strategy_config()`, and `max_duration_sec` that of the capture configuration.
pub record World : Type 0 where
  pub now : ℤ
  pub now_usec : ℤ
  pub has_filter_thread : Bool
  pub has_cleanup_thread : Bool
  pub worker_threads : List ℕ
  pub max_concurrent : ℤ
  pub strategy : Option Strategy
  pub max_duration_sec : ℤ
  pub outcome : FileOutcome

-- A call on the task manager as a step of the thread.
abbrev pub with_tasks : Run (Bool × SafeTaskMgr) → Manager → Run (Bool × Manager)
with_tasks r m = do (b, t) ← r; ok (b, record m { task_mgr = t })

abbrev pub drop_flag : Run (Bool × Manager) → Run Manager
drop_flag r = r >>= λ p. ok p.1
