-- ===== src/Manager/Calls.antt =====
-- Calls of the manager thread on a valid task manager.
use rxtracenetcap.Prelude.{
  ℕ, ℤ, Bool, true, false, List, [], ◌∷◌, if◌then◌else◌, Str, Run, ◌>>=◌, Returns, Returns-bind,
  str_eq,
}
use rxtracenetcap.Task.{CaptureFileInfo, CaptureArchiveInfo}
use rxtracenetcap.TaskMgr.{
  SafeTaskMgr, set_capture_started, set_capture_finished, set_capture_failed, append_capture_files,
  record_archive, update_progress,
}
use rxtracenetcap.TaskMgr.Ownership.{
  IsValid, After, update_task-IsValid, update_then_status-IsValid,
}
use rxtracenetcap.Manager.State.{Manager, with_tasks, drop_flag}
use rxtracenetcap.Manager.Invariant.{ManagerIsValid}

-- A choice of two calls.
pub either_valid :
    (b : Bool) (r s : Run (Bool × SafeTaskMgr))
    → Returns (After []) r
    → Returns (After []) s
    → Returns (After []) (if b then r else s)
either_valid true r s h k = h
either_valid false r s h k = k

-- A call on the task manager.
pub call_valid :
    (m : Manager) (r : Run (Bool × SafeTaskMgr))
    → ManagerIsValid m
    → Returns (After []) r
    → Returns ManagerIsValid (drop_flag (with_tasks r m))
call_valid m r v h =
    Returns-bind (λ p. ManagerIsValid p.1) ManagerIsValid (with_tasks r m) _
      (Returns-bind (After []) (λ p. ManagerIsValid p.1) r _ h
        (λ p k. record { tasks = k; cooldowns = v.cooldowns }))
      (λ p k. k)

module _ {t : SafeTaskMgr} (id : ℤ) (v : IsValid [] t) where
  pub started_valid :
      (ts pid : ℤ) (file : Str) → Returns (After []) (set_capture_started id ts pid file t)
  unfolding set_capture_started
  started_valid ts pid file = update_then_status-IsValid id _ _ v

  pub finished_valid :
      (ts : ℤ) (packets bytes : ℕ) (path : Str)
      → Returns (After []) (set_capture_finished id ts packets bytes path t)
  unfolding set_capture_finished
  finished_valid ts packets bytes path = update_then_status-IsValid id _ _ v

  pub failed_valid :
      (now : ℤ) (message : Str) → Returns (After []) (set_capture_failed now id message t)
  unfolding set_capture_failed
  failed_valid now message = update_then_status-IsValid id _ _ v

  pub progress_valid :
      (packets bytes : ℕ) (ts : ℤ) → Returns (After []) (update_progress id packets bytes ts t)
  unfolding update_progress
  progress_valid packets bytes ts = update_task-IsValid id _ v

  pub append_valid :
      (files : List CaptureFileInfo) → Returns (After []) (append_capture_files id files t)
  unfolding append_capture_files
  append_valid [] = v
  append_valid (f ∷ fs) = update_task-IsValid id _ v

  pub archive_valid :
      (archive : CaptureArchiveInfo) → Returns (After []) (record_archive id archive t)
  unfolding record_archive
  archive_valid archive = update_task-IsValid id _ v

-- One call after the other.
pub then_valid :
    (r : Run (Bool × SafeTaskMgr)) (f : Bool × SafeTaskMgr → Run (Bool × SafeTaskMgr))
    → Returns (After []) r
    → ((b : Bool) (t : SafeTaskMgr) → IsValid [] t → Returns (After []) (f (b, t)))
    → Returns (After []) (r >>= f)
then_valid r f h k = Returns-bind (After []) (After []) r f h (λ p v. k p.0 p.1 v)
