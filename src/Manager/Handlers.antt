-- ===== src/Manager/Handlers.antt =====
-- src/rxcapturemanagerthread.cpp: the manager thread's state and its handlers of the messages about
-- running captures. What a handler finds outside, the clock, the other threads and the files, is a
-- `World`.
use rxtracenetcap.Prelude.{
  ℕ, zero, suc, ◌+◌, ◌-◌, ◌*◌, ◌/◌, ℤ, pos, negsuc, Bool, true, false, ◌&&◌, ◌||◌, Option, none,
  some, List, [], ◌∷◌, ◌++◌, if◌then◌else◌, leb, ltb, is_pos, find, length, is_empty, drop, Str,
  int_beq, Map, erase, Run, ok, ◌>>=◌, str_eq,
}
use rxtracenetcap.Prelude.Text.{codes, starts_with}
use rxtracenetcap.Task.{
  running, completed, failed, stopped, CaptureTask, CaptureFileInfo, status_eq, mark_stopped,
}
use rxtracenetcap.TaskTable.{TaskSnapshot}
use rxtracenetcap.TaskMgr.{
  SafeTaskMgr, query_task, update_status, update_task, set_capture_started, set_capture_finished,
  set_capture_failed, append_capture_files, record_archive, update_progress,
  cleanup_pending_deletes,
}
use rxtracenetcap.PdefUsage.{
  handle_pdef_endian_detected, handle_capture_raw_file_v2, usage_of_filtered_file,
}
use rxtracenetcap.Manager.Messages.{
  rx_capture_error_to_string, TaskUpdateMsg, CaptureStartedMsg, CaptureProgressMsg,
  CaptureFileReadyMsg, CaptureFinishedMsg, CaptureFailedMsg, CaptureRawFileMsg,
  CaptureFilteredFileMsg, PdefEndianMsg, CleanCompressDoneMsg, new_file_info,
}
use rxtracenetcap.Manager.State.{
  to_filter_thread, to_cleanup_thread, Manager, World, with_tasks, drop_flag,
}

-- `static_cast<int64_t>(seconds) * 1000000LL`
abbrev pub to_usec : ℤ → ℤ
to_usec (pos n) = pos (n * 1000000)
to_usec (negsuc n) = negsuc (suc n * 1000000 - 1)

-- `UpdateTaskFunctor`
unfoldable pub update_fields : TaskUpdateMsg → CaptureTask → CaptureTask
update_fields msg task = record task {
  status = msg.new_status;
  capture_pid = if msg.update_capture_pid then msg.capture_pid else task.capture_pid;
  output_file = if msg.update_output_file then msg.output_file else task.output_file;
  start_time = if msg.update_start_time then msg.start_time else task.start_time;
  end_time = if msg.update_end_time then msg.end_time else task.end_time;
  packet_count = if msg.update_stats then msg.packet_count else task.packet_count;
  bytes_captured = if msg.update_stats then msg.bytes_captured else task.bytes_captured;
  error_message = if msg.update_error then msg.error_message else task.error_message;
}

-- The three calls of `handle_task_update` and the conditions that stand before them.
unfoldable pub update_started : TaskUpdateMsg → SafeTaskMgr → Run (Bool × SafeTaskMgr)
update_started msg t =
    if status_eq msg.new_status running && msg.update_start_time
    then set_capture_started msg.capture_id (to_usec msg.start_time)
        (if msg.update_capture_pid then msg.capture_pid else negsuc 0)
        (if msg.update_output_file then msg.output_file else []) t
    else ok (false, t)

unfoldable pub update_stats : TaskUpdateMsg → SafeTaskMgr → Run (Bool × SafeTaskMgr)
update_stats msg t =
    if msg.update_stats
    then update_progress msg.capture_id msg.packet_count msg.bytes_captured
        (if msg.update_end_time then to_usec msg.end_time else pos 0) t
    else ok (false, t)

unfoldable pub update_ended : World → TaskUpdateMsg → SafeTaskMgr → Run (Bool × SafeTaskMgr)
update_ended world msg t =
    if status_eq msg.new_status completed
    then set_capture_finished msg.capture_id
        (if msg.update_end_time then to_usec msg.end_time else world.now_usec) msg.packet_count
        msg.bytes_captured (if msg.update_output_file then msg.output_file else []) t
    else if status_eq msg.new_status failed && msg.update_error
    then set_capture_failed world.now msg.capture_id msg.error_message t
    else ok (false, t)

unfoldable pub update_rest : Bool → TaskUpdateMsg → SafeTaskMgr → Run (Bool × SafeTaskMgr)
update_rest handled msg t =
    if handled then ok (true, t) else update_task msg.capture_id (update_fields msg) t

unfoldable pub handle_task_update : World → TaskUpdateMsg → Manager → Run Manager
handle_task_update world msg m = do
  (started, t₁) ← update_started msg m.task_mgr
  (progressed, t₂) ← update_stats msg t₁
  (ended, t₃) ← update_ended world msg t₂
  (updated, t₄) ← update_rest (started || progressed || ended) msg t₃
  ok (record m { task_mgr = t₄ })

unfoldable pub handle_capture_started_v2 : CaptureStartedMsg → Manager → Run Manager
handle_capture_started_v2 msg m = drop_flag (
    with_tasks
      (set_capture_started msg.capture_id msg.start_ts msg.capture_pid msg.output_file m.task_mgr)
      m)

unfoldable pub handle_capture_progress_v2 : CaptureProgressMsg → Manager → Run Manager
handle_capture_progress_v2 msg m = drop_flag (
    with_tasks
      (update_progress msg.capture_id msg.packets msg.bytes
        (if int_beq msg.last_packet_ts (pos 0) then msg.report_ts else msg.last_packet_ts)
        m.task_mgr)
      m)

abbrev pub send_files : World → CaptureFileReadyMsg → Manager → Manager
send_files world msg m =
    if world.has_cleanup_thread
    then record m { sent = m.sent ++ to_cleanup_thread msg.capture_id msg.files ∷ [] }
    else m

unfoldable pub handle_capture_file_ready_v2 : World → CaptureFileReadyMsg → Manager → Run Manager
handle_capture_file_ready_v2 world msg m =
    if is_empty msg.files
    then ok m
    else drop_flag (with_tasks (append_capture_files msg.capture_id msg.files m.task_mgr) m)
      >>= λ m'. ok (send_files world msg m')

-- `a <= b` and, where that holds, `b - a`.
abbrev int_le : ℤ → ℤ → Bool
int_le (pos a) (pos b) = leb a b
int_le (pos a) (negsuc b) = false
int_le (negsuc a) (pos b) = true
int_le (negsuc a) (negsuc b) = leb b a

abbrev distance : ℤ → ℤ → ℕ
distance (pos a) (pos b) = b - a
distance (negsuc a) (pos b) = suc a + b
distance (negsuc a) (negsuc b) = a - b
distance (pos a) (negsuc b) = 0

abbrev less : ℕ → ℤ → Bool
less n (pos k) = ltb n k
less n (negsuc k) = false

-- The module name in the user of a request that a sample alert made.
abbrev pub module_of : Str → Str
module_of user =
    if leb (length user) 7
    then []
    else if starts_with (codes "module:") user
    then drop 7 user
    else []

abbrev pub clear_module : Option TaskSnapshot → Map Str ℤ → Map Str ℤ
clear_module none cooldowns = cooldowns
clear_module (some snapshot) cooldowns =
    if is_empty (module_of snapshot.request_user)
    then cooldowns
    else erase (module_of snapshot.request_user) cooldowns

unfoldable pub clear_module_cooldown_for_capture : ℤ → Manager → Run Manager
clear_module_cooldown_for_capture id m = do
  found ← query_task id m.task_mgr
  ok (record m { module_last_trigger = clear_module found m.module_last_trigger })

abbrev pub throttled : ℤ → ℤ → Option ℤ → Bool
throttled cooldown_sec now none = false
throttled cooldown_sec now (some last) = int_le last now && less (distance last now) cooldown_sec

unfoldable pub should_throttle_module : Str → ℤ → ℤ → Manager → Bool
should_throttle_module module_name cooldown_sec now m =
    is_pos cooldown_sec && throttled cooldown_sec now (find module_name m.module_last_trigger)

-- The error code of a cancelled run.
abbrev pub is_cancelled : ℤ → Bool
is_cancelled code = int_beq code (pos 203)

abbrev pub text_or : Str → Str → Str
text_or text default = if is_empty text then default else text

unfoldable pub stop_task : World → CaptureFinishedMsg → SafeTaskMgr → Run (Bool × SafeTaskMgr)
stop_task world msg t = do
  (updated, t₁) ←
      update_task msg.capture_id
        (mark_stopped world.now msg.finish_ts msg.total_packets msg.total_bytes
          (text_or msg.error_message (codes "stopped")))
        t
  update_status msg.capture_id stopped t₁

unfoldable pub finish_task : World → CaptureFinishedMsg → SafeTaskMgr → Run (Bool × SafeTaskMgr)
finish_task world msg t =
    if int_beq msg.exit_code (pos 0)
    then set_capture_finished msg.capture_id msg.finish_ts msg.total_packets msg.total_bytes [] t
    else if is_cancelled msg.exit_code
    then stop_task world msg t
    else set_capture_failed world.now msg.capture_id
        (text_or msg.error_message (codes "capture_failed")) t

unfoldable pub handle_capture_finished_v2 : World → CaptureFinishedMsg → Manager → Run Manager
handle_capture_finished_v2 world msg m =
    drop_flag (with_tasks (finish_task world msg m.task_mgr) m)
    >>= clear_module_cooldown_for_capture msg.capture_id

unfoldable pub handle_capture_failed_v2 : World → CaptureFailedMsg → Manager → Run Manager
handle_capture_failed_v2 world msg m =
    drop_flag (
      with_tasks
        (set_capture_failed world.now msg.capture_id
          (text_or msg.error_message (rx_capture_error_to_string msg.error_code)) m.task_mgr)
        m)
    >>= clear_module_cooldown_for_capture msg.capture_id

unfoldable pub handle_raw_file : World → CaptureRawFileMsg → Manager → Run Manager
handle_raw_file world msg m = ok (record m {
  usage =
      handle_capture_raw_file_v2 world.has_filter_thread msg.capture_id msg.pdef_file_path m.usage;
  sent = if world.has_filter_thread then m.sent ++ to_filter_thread msg ∷ [] else m.sent;
})

-- The entry that the handler makes for the filtered file.
abbrev filtered_info : World → CaptureFilteredFileMsg → CaptureFileInfo
filtered_info world msg = record new_file_info {
  file_path = msg.filtered_pcap_path;
  file_size = msg.file_size;
  file_ready_ts = world.now_usec;
}

unfoldable pub finish_filtered :
    World → CaptureFilteredFileMsg → SafeTaskMgr → Run (Bool × SafeTaskMgr)
finish_filtered world msg t = do
  (appended, t₁) ← append_capture_files msg.capture_id (filtered_info world msg ∷ []) t
  set_capture_finished msg.capture_id world.now_usec msg.total_packets msg.file_size
      msg.filtered_pcap_path t₁

unfoldable pub handle_capture_filtered_file_v2 :
    World → CaptureFilteredFileMsg → Manager → Run Manager
handle_capture_filtered_file_v2 world msg m = do
  m₁ ← drop_flag (with_tasks (finish_filtered world msg m.task_mgr) m)
  m₂ ← clear_module_cooldown_for_capture msg.capture_id m₁
  ok (record m₂ {
    usage = usage_of_filtered_file world.outcome msg.capture_id msg.pdef_file_path m₂.usage;
  })

unfoldable pub handle_endian_detected : World → PdefEndianMsg → Manager → Run Manager
handle_endian_detected world msg m = ok (record m {
  usage = handle_pdef_endian_detected world.outcome msg.detected_endian msg.pdef_file_path m.usage;
})

-- `ts_usec / 1000000LL`, which rounds towards zero.
abbrev neg : ℕ → ℤ
neg zero = pos 0
neg (suc n) = negsuc n

abbrev seconds : ℤ → ℤ
seconds (pos n) = pos (n / 1000000)
seconds (negsuc n) = neg (suc n / 1000000)

abbrev finish_ts_of : ℤ → List CaptureFileInfo → ℤ
finish_ts_of ts_usec [] = seconds ts_usec
finish_ts_of ts_usec (f ∷ fs) = f.compress_finish_ts

unfoldable pub handle_clean_compress_done : CleanCompressDoneMsg → Manager → Run Manager
handle_clean_compress_done msg m = drop_flag (
    with_tasks
      (record_archive msg.capture_id
        (record {
          archive_path = msg.archive_path;
          files = msg.compressed_files;
          archive_size = msg.compressed_bytes;
          compress_finish_ts = finish_ts_of msg.ts_usec msg.compressed_files;
        })
        m.task_mgr)
      m)

-- `run_process` and the timer's `check_queue`: apart from the log they free the replaced tasks.
unfoldable pub check_queue : Manager → Run Manager
check_queue m = do t ← cleanup_pending_deletes m.task_mgr; ok (record m { task_mgr = t })
