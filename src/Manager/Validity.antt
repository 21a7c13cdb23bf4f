-- ===== src/Manager/Validity.antt =====
-- The handlers of src/rxcapturemanagerthread.cpp keep the task table valid, and return.
use rxtracenetcap.Prelude.{
  ℤ, pos, negsuc, ◌++◌, Bool, true, false, ◌&&◌, ◌||◌, Option, none, some, List, [], ◌∷◌, is_empty,
  if◌then◌else◌, Str, Map, Uniq, erase, erase-Uniq, Run, ok, ◌>>=◌, Returns, Returns-bind, int_beq,
  str_eq,
}
use rxtracenetcap.Task.{running, completed, failed, stopped, status_eq}
use rxtracenetcap.TaskTable.{TaskSnapshot}
use rxtracenetcap.TaskMgr.{
  SafeTaskMgr, query_task, update_task, set_capture_started, set_capture_finished,
  set_capture_failed, append_capture_files, update_progress,
}
use rxtracenetcap.TaskMgr.Ownership.{
  IsValid, After, update_status-IsValid, update_task-IsValid, cleanup-IsValid,
}
use rxtracenetcap.TaskMgr.Updates.{query_task-Returns}
use rxtracenetcap.Prelude.Text.{codes}
use rxtracenetcap.Manager.Messages.{
  TaskUpdateMsg, CaptureFileReadyMsg, CaptureFinishedMsg, CaptureFilteredFileMsg,
}
use rxtracenetcap.Manager.Handlers.{
  clear_module, module_of, to_usec, update_fields, text_or, is_cancelled, send_files,
  update_started, update_stats, update_ended, update_rest, stop_task, finish_task, finish_filtered,
  clear_module_cooldown_for_capture, handle_task_update, handle_capture_started_v2,
  handle_capture_progress_v2, handle_capture_file_ready_v2, handle_capture_finished_v2,
  handle_capture_failed_v2, handle_raw_file, handle_capture_filtered_file_v2,
  handle_endian_detected, handle_clean_compress_done, check_queue,
}
use rxtracenetcap.Manager.State.{Manager, World, with_tasks, drop_flag, to_cleanup_thread}
use rxtracenetcap.Manager.Start.{handle_stop_capture}
use rxtracenetcap.Manager.Invariant.{ManagerIsValid}
use rxtracenetcap.Manager.Admission.{handle_start_capture-IsValid, send_reply_valid}
use rxtracenetcap.Manager.{Msg, handle_msg, handle_msgs}
use rxtracenetcap.Manager.Msg.{
  start_capture, stop_capture, task_update, capture_started, capture_progress, capture_file_ready,
  capture_finished, capture_failed, capture_raw_file, capture_filtered_file, pdef_endian_detected,
  clean_compress_done, queue_check,
}
use rxtracenetcap.Manager.Calls.{
  either_valid, call_valid, started_valid, finished_valid, failed_valid, progress_valid,
  append_valid, archive_valid, then_valid,
}

update_started_valid :
    (msg : TaskUpdateMsg) (t : SafeTaskMgr)
    → IsValid [] t
    → Returns (After []) (update_started msg t)
unfolding update_started
update_started_valid msg t v =
    either_valid (status_eq msg.new_status running && msg.update_start_time)
      (set_capture_started msg.capture_id (to_usec msg.start_time)
        (if msg.update_capture_pid then msg.capture_pid else negsuc 0)
        (if msg.update_output_file then msg.output_file else []) t)
      (ok (false, t)) (started_valid msg.capture_id v _ _ _) v

update_stats_valid :
    (msg : TaskUpdateMsg) (t : SafeTaskMgr) → IsValid [] t → Returns (After []) (update_stats msg t)
unfolding update_stats
update_stats_valid msg t v =
    either_valid msg.update_stats
      (update_progress msg.capture_id msg.packet_count msg.bytes_captured
        (if msg.update_end_time then to_usec msg.end_time else pos 0) t)
      (ok (false, t)) (progress_valid msg.capture_id v _ _ _) v

update_ended_valid :
    (world : World) (msg : TaskUpdateMsg) (t : SafeTaskMgr)
    → IsValid [] t
    → Returns (After []) (update_ended world msg t)
unfolding update_ended
update_ended_valid world msg t v =
    let fails = set_capture_failed world.now msg.capture_id msg.error_message t in
    let errs = status_eq msg.new_status failed && msg.update_error in
    either_valid (status_eq msg.new_status completed)
      (set_capture_finished msg.capture_id
        (if msg.update_end_time then to_usec msg.end_time else world.now_usec) msg.packet_count
        msg.bytes_captured (if msg.update_output_file then msg.output_file else []) t)
      (if errs then fails else ok (false, t)) (finished_valid msg.capture_id v _ _ _ _)
      (either_valid errs fails (ok (false, t)) (failed_valid msg.capture_id v _ _) v)

update_rest_valid :
    (handled : Bool) (msg : TaskUpdateMsg) (t : SafeTaskMgr)
    → IsValid [] t
    → Returns (After []) (update_rest handled msg t)
unfolding update_rest
update_rest_valid handled msg t v =
    either_valid handled (ok (true, t)) (update_task msg.capture_id (update_fields msg) t) v
      (update_task-IsValid msg.capture_id (update_fields msg) v)

handle_task_update_valid :
    (world : World) (msg : TaskUpdateMsg) (m : Manager)
    → ManagerIsValid m
    → Returns ManagerIsValid (handle_task_update world msg m)
unfolding handle_task_update
handle_task_update_valid world msg m v =
    Returns-bind (After []) ManagerIsValid _ _ (update_started_valid msg m.task_mgr v.tasks)
      (λ r₁ v₁.
        Returns-bind (After []) ManagerIsValid _ _ (update_stats_valid msg r₁.1 v₁) (λ r₂ v₂.
          Returns-bind (After []) ManagerIsValid _ _ (update_ended_valid world msg r₂.1 v₂)
            (λ r₃ v₃.
              Returns-bind (After []) ManagerIsValid _ _
                (update_rest_valid (r₁.0 || r₂.0 || r₃.0) msg r₃.1 v₃)
                (λ r₄ v₄. record { tasks = v₄; cooldowns = v.cooldowns }))))

clear_module-Uniq :
    (found : Option TaskSnapshot) (cooldowns : Map Str ℤ)
    → Uniq cooldowns
    → Uniq (clear_module found cooldowns)
clear_module-Uniq none cooldowns u = u
clear_module-Uniq (some snapshot) cooldowns u = go (is_empty (module_of snapshot.request_user))
  where
    go :
        (b : Bool)
        → Uniq (if b then cooldowns else erase (module_of snapshot.request_user) cooldowns)
    go true = u
    go false = erase-Uniq (module_of snapshot.request_user) cooldowns u

-- A query of a valid manager returns.
cooldown_valid :
    (id : ℤ) (m : Manager)
    → ManagerIsValid m
    → Returns ManagerIsValid (clear_module_cooldown_for_capture id m)
unfolding clear_module_cooldown_for_capture
cooldown_valid id m v =
    Returns-bind (λ found. Unit {0}) ManagerIsValid (query_task id m.task_mgr) _
      (query_task-Returns id m.task_mgr v.tasks)
      (λ found u. record {
        tasks = v.tasks;
        cooldowns = clear_module-Uniq found m.module_last_trigger v.cooldowns;
      })

stop_task_valid :
    (world : World) (msg : CaptureFinishedMsg) (t : SafeTaskMgr)
    → IsValid [] t
    → Returns (After []) (stop_task world msg t)
unfolding stop_task
stop_task_valid world msg t v =
    then_valid _ _ (update_task-IsValid msg.capture_id _ v)
      (λ b t₁ v₁. update_status-IsValid msg.capture_id stopped v₁)

finish_task_valid :
    (world : World) (msg : CaptureFinishedMsg) (t : SafeTaskMgr)
    → IsValid [] t
    → Returns (After []) (finish_task world msg t)
unfolding finish_task
finish_task_valid world msg t v =
    let fails =
      set_capture_failed world.now msg.capture_id
        (text_or msg.error_message (codes "capture_failed")) t in
    let other = if is_cancelled msg.exit_code then stop_task world msg t else fails in
    either_valid (int_beq msg.exit_code (pos 0))
      (set_capture_finished msg.capture_id msg.finish_ts msg.total_packets msg.total_bytes [] t)
      other (finished_valid msg.capture_id v _ _ _ _)
      (either_valid (is_cancelled msg.exit_code) (stop_task world msg t) fails
        (stop_task_valid world msg t v) (failed_valid msg.capture_id v _ _))

finish_filtered_valid :
    (world : World) (msg : CaptureFilteredFileMsg) (t : SafeTaskMgr)
    → IsValid [] t
    → Returns (After []) (finish_filtered world msg t)
unfolding finish_filtered
finish_filtered_valid world msg t v =
    then_valid _ _ (append_valid msg.capture_id v _)
      (λ b t₁ v₁. finished_valid msg.capture_id v₁ _ _ _ _)

-- A call on the task manager, and the end of the cooldown.
call_then_cooldown :
    (id : ℤ) (m : Manager) (r : Run (Bool × SafeTaskMgr))
    → ManagerIsValid m
    → Returns (After []) r
    → Returns ManagerIsValid (drop_flag (with_tasks r m) >>= clear_module_cooldown_for_capture id)
call_then_cooldown id m r v h =
    Returns-bind ManagerIsValid ManagerIsValid (drop_flag (with_tasks r m)) _ (call_valid m r v h)
      (λ m₁ v₁. cooldown_valid id m₁ v₁)

send_files_valid :
    (world : World) (msg : CaptureFileReadyMsg) (m : Manager)
    → ManagerIsValid m
    → ManagerIsValid (send_files world msg m)
send_files_valid world msg m v = go (world.has_cleanup_thread)
  where
    go :
        (b : Bool)
        → ManagerIsValid (
            if b
            then record m { sent = m.sent ++ to_cleanup_thread msg.capture_id msg.files ∷ [] }
            else m)
    go true = record { tasks = v.tasks; cooldowns = v.cooldowns }
    go false = v

file_ready_valid :
    (world : World) (msg : CaptureFileReadyMsg) (m : Manager)
    → ManagerIsValid m
    → Returns ManagerIsValid (handle_capture_file_ready_v2 world msg m)
unfolding handle_capture_file_ready_v2
file_ready_valid world msg m v = go (is_empty msg.files)
  where
    calls : Run Manager
    calls = drop_flag (with_tasks (append_capture_files msg.capture_id msg.files m.task_mgr) m)

    sends : Returns ManagerIsValid (calls >>= λ m₁. ok (send_files world msg m₁))
    sends =
        Returns-bind ManagerIsValid ManagerIsValid calls _
          (call_valid m (append_capture_files msg.capture_id msg.files m.task_mgr) v
            (append_valid msg.capture_id v.tasks msg.files))
          (λ m₁ v₁. send_files_valid world msg m₁ v₁)

    go :
        (b : Bool)
        → Returns ManagerIsValid
            (if b then ok m else (calls >>= λ m₁. ok (send_files world msg m₁)))
    go true = v
    go false = sends

pub handle_msg-IsValid :
    (world : World) (msg : Msg) (m : Manager)
    → ManagerIsValid m
    → Returns ManagerIsValid (handle_msg world msg m)
unfolding handle_msg handle_stop_capture handle_capture_started_v2 handle_capture_progress_v2
    handle_capture_finished_v2 handle_capture_failed_v2 handle_raw_file
    handle_capture_filtered_file_v2 handle_endian_detected handle_clean_compress_done check_queue
handle_msg-IsValid world (start_capture msg signature sid matched) m v =
    handle_start_capture-IsValid world msg signature sid matched m v
handle_msg-IsValid world (stop_capture target) m v = send_reply_valid target _ m v
handle_msg-IsValid world (task_update msg) m v = handle_task_update_valid world msg m v
handle_msg-IsValid world (capture_started msg) m v =
    call_valid m _ v (started_valid msg.capture_id v.tasks _ _ _)
handle_msg-IsValid world (capture_progress msg) m v =
    call_valid m _ v (progress_valid msg.capture_id v.tasks _ _ _)
handle_msg-IsValid world (capture_file_ready msg) m v = file_ready_valid world msg m v
handle_msg-IsValid world (capture_finished msg) m v =
    call_then_cooldown msg.capture_id m _ v (finish_task_valid world msg m.task_mgr v.tasks)
handle_msg-IsValid world (capture_failed msg) m v =
    call_then_cooldown msg.capture_id m _ v (failed_valid msg.capture_id v.tasks _ _)
handle_msg-IsValid world (capture_raw_file msg) m v = record {
  tasks = v.tasks;
  cooldowns = v.cooldowns;
}
handle_msg-IsValid world (capture_filtered_file msg) m v =
    Returns-bind ManagerIsValid ManagerIsValid _ _
      (call_valid m _ v (finish_filtered_valid world msg m.task_mgr v.tasks))
      (λ m₁ v₁.
        Returns-bind ManagerIsValid ManagerIsValid _ _ (cooldown_valid msg.capture_id m₁ v₁)
          (λ m₂ v₂. record { tasks = v₂.tasks; cooldowns = v₂.cooldowns }))
handle_msg-IsValid world (pdef_endian_detected msg) m v = record {
  tasks = v.tasks;
  cooldowns = v.cooldowns;
}
handle_msg-IsValid world (clean_compress_done msg) m v =
    call_valid m _ v (archive_valid msg.capture_id v.tasks _)
handle_msg-IsValid world queue_check m v =
    Returns-bind (IsValid []) ManagerIsValid _ _ (cleanup-IsValid v.tasks)
      (λ t k. record { tasks = k; cooldowns = v.cooldowns })

-- Whatever messages about captures the thread handles, in whatever order, from a valid state on: each
-- handler returns, no task is read or freed after its `delete`, the task table is valid afterwards, and
-- no module stands twice among the cooldowns.
pub handle_msgs-IsValid :
    (msgs : List (World × Msg)) (m : Manager)
    → ManagerIsValid m
    → Returns ManagerIsValid (handle_msgs msgs m)
unfolding handle_msgs
handle_msgs-IsValid [] m v = v
handle_msgs-IsValid ((world, msg) ∷ msgs) m v =
    Returns-bind ManagerIsValid ManagerIsValid (handle_msg world msg m) (handle_msgs msgs)
      (handle_msg-IsValid world msg m v) (λ m₁ v₁. handle_msgs-IsValid msgs m₁ v₁)
