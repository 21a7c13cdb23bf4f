-- ===== src/Manager/Usages.antt =====
-- The manager thread of src/rxcapturemanagerthread.cpp as a whole treats PDEF files as the handlers of
-- PdefUsage do.
use rxtracenetcap.Prelude.{
  ℕ, pos, ◌+◌, ◌%◌, ◌^◌, ltb, leb, length, get_elem?, ◌≡◌, refl, sym, ap, ◌∙◌, subst, ℤ, Bool, true,
  false, Option, none, some, List, [], ◌∷◌, ◌++◌, is_empty, if◌then◌else◌, Str, Run, ok, ◌>>=◌,
  Returns, Returns-bind, Returns-both, Returns-mono, IfReturns, IfReturns-bind, IfReturns-after,
  str_eq,
}
use rxtracenetcap.TaskMgr.{
  SafeTaskMgr, query_task, add_task, update_task, append_capture_files, cleanup_pending_deletes,
}
use rxtracenetcap.PdefUsage.{Usage, Event, handle, handle_all, usage_of_filtered_file}
use rxtracenetcap.PdefUsage.Event.{raw_file, filtered_file, endian_detected}
use rxtracenetcap.Manager.Messages.{TaskUpdateMsg, CaptureFileReadyMsg, CaptureFilteredFileMsg}
use rxtracenetcap.Task.{ObjId, assign_worker}
use rxtracenetcap.Manager.Start.{
  get_max_concurrent_limit, running_count, create_duplicate_error_reply,
  create_capacity_error_reply, started_reply, take_id, create_and_add_capture_task, send_to_worker,
  dispatch_task_to_worker, send_reply_to_http, admit, handle_start_capture, with_defaults,
  handle_stop_capture,
}
use rxtracenetcap.Manager.Duplicates.{
  StartCaptureMsg, ProcessInfo, Duplicate, generate_task_key, find_duplicate,
}
use rxtracenetcap.Manager.Handlers.{
  send_files, update_started, update_stats, update_ended, update_rest, finish_filtered,
  clear_module_cooldown_for_capture, handle_task_update, handle_capture_started_v2,
  handle_capture_progress_v2, handle_capture_file_ready_v2, handle_capture_finished_v2,
  handle_capture_failed_v2, handle_raw_file, handle_capture_filtered_file_v2,
  handle_endian_detected, handle_clean_compress_done, check_queue,
}
use rxtracenetcap.Manager.State.{
  Reply, to_http, Manager, World, with_tasks, drop_flag, to_cleanup_thread,
}
use rxtracenetcap.Manager.{Msg, handle_msg, handle_msgs}
use rxtracenetcap.Manager.Msg.{
  start_capture, stop_capture, task_update, capture_started, capture_progress, capture_file_ready,
  capture_finished, capture_failed, capture_raw_file, capture_filtered_file, pdef_endian_detected,
  clean_compress_done, queue_check,
}
use rxtracenetcap.Manager.Invariant.{ManagerIsValid}
use rxtracenetcap.Manager.Validity.{handle_msg-IsValid}

-- What a message means for the usage of PDEF files.
abbrev pub event_of : World → Msg → List Event
event_of world (capture_raw_file msg) =
    raw_file world.has_filter_thread msg.capture_id msg.pdef_file_path ∷ []
event_of world (capture_filtered_file msg) =
    filtered_file world.outcome msg.capture_id msg.pdef_file_path ∷ []
event_of world (pdef_endian_detected msg) =
    endian_detected world.outcome msg.detected_endian msg.pdef_file_path ∷ []
event_of world _ = []

abbrev pub events_of : List (World × Msg) → List Event
events_of [] = []
events_of ((world, msg) ∷ msgs) = event_of world msg ++ events_of msgs

abbrev SameUsage : Manager → Manager → Type 0
SameUsage m m' = m'.usage ≡ m.usage

call_usage :
    (m : Manager) (r : Run (Bool × SafeTaskMgr))
    → IfReturns (SameUsage m) (drop_flag (with_tasks r m))
call_usage m r =
    IfReturns-bind (λ (p : Bool × Manager). SameUsage m p.1) (SameUsage m) (with_tasks r m) _
      (IfReturns-after (λ (p : Bool × Manager). SameUsage m p.1) r _ (λ p. refl)) (λ p e. e)

cooldown_usage :
    (id : ℤ) (m : Manager) → IfReturns (SameUsage m) (clear_module_cooldown_for_capture id m)
unfolding clear_module_cooldown_for_capture
cooldown_usage id m = IfReturns-after (SameUsage m) (query_task id m.task_mgr) _ (λ found. refl)

call_then_usage :
    (id : ℤ) (m : Manager) (r : Run (Bool × SafeTaskMgr))
    → IfReturns (SameUsage m) (drop_flag (with_tasks r m) >>= clear_module_cooldown_for_capture id)
call_then_usage id m r =
    IfReturns-bind (SameUsage m) (SameUsage m) (drop_flag (with_tasks r m)) _ (call_usage m r)
      (λ m₁ e.
        subst
          (λ u.
            IfReturns (λ (m₂ : Manager). m₂.usage ≡ u) (clear_module_cooldown_for_capture id m₁))
          e (cooldown_usage id m₁))

update_usage :
    (world : World) (msg : TaskUpdateMsg) (m : Manager)
    → IfReturns (SameUsage m) (handle_task_update world msg m)
unfolding handle_task_update
update_usage world msg m = IfReturns-after (SameUsage m) (update_started msg m.task_mgr) _ (λ r₁.
    IfReturns-after (SameUsage m) (update_stats msg r₁.1) _ (λ r₂.
      IfReturns-after (SameUsage m) (update_ended world msg r₂.1) _
        (λ r₃. IfReturns-after (SameUsage m) (update_rest _ msg r₃.1) _ (λ r₄. refl))))

send_files_usage :
    (world : World) (msg : CaptureFileReadyMsg) (m : Manager)
    → (send_files world msg m).usage ≡ m.usage
send_files_usage world msg m = go (world.has_cleanup_thread)
  where
    go :
        (b : Bool)
        → (if b
            then record m { sent = m.sent ++ to_cleanup_thread msg.capture_id msg.files ∷ [] }
            else m).usage
          ≡ m.usage
    go true = refl
    go false = refl

file_ready_usage :
    (world : World) (msg : CaptureFileReadyMsg) (m : Manager)
    → IfReturns (SameUsage m) (handle_capture_file_ready_v2 world msg m)
unfolding handle_capture_file_ready_v2
file_ready_usage world msg m = go (is_empty msg.files)
  where
    calls : Run Manager
    calls = drop_flag (with_tasks (append_capture_files msg.capture_id msg.files m.task_mgr) m)

    go :
        (b : Bool)
        → IfReturns
            (SameUsage m)
            (if b then ok m else (calls >>= λ m₁. ok (send_files world msg m₁)))
    go true = refl
    go false =
        IfReturns-bind (SameUsage m) (SameUsage m) calls _ (call_usage m _)
          (λ m₁ e. send_files_usage world msg m₁ ∙ e)

filtered_usage :
    (world : World) (msg : CaptureFilteredFileMsg) (m : Manager)
    → IfReturns
        (λ (m' : Manager).
          m'.usage ≡ usage_of_filtered_file world.outcome msg.capture_id msg.pdef_file_path m.usage)
        (handle_capture_filtered_file_v2 world msg m)
unfolding handle_capture_filtered_file_v2
filtered_usage world msg m =
    IfReturns-bind (SameUsage m) _ (drop_flag (with_tasks (finish_filtered world msg m.task_mgr) m))
      _ (call_usage m _)
      (λ m₁ e.
        IfReturns-bind (SameUsage m₁) _ (clear_module_cooldown_for_capture msg.capture_id m₁) _
          (cooldown_usage msg.capture_id m₁)
          (λ m₂ f.
            ap (usage_of_filtered_file world.outcome msg.capture_id msg.pdef_file_path) (f ∙ e)))

reply_usage :
    (target : ObjId) (reply : Reply) (m : Manager)
    → (send_reply_to_http target reply m).usage ≡ m.usage
unfolding send_reply_to_http
reply_usage target reply m = go (ltb 0 target.thread_index)
  where
    go :
        (b : Bool)
        → (if b then record m { sent = m.sent ++ to_http target reply ∷ [] } else m).usage ≡ m.usage
    go true = refl
    go false = refl

send_to_worker_usage :
    (id : ℤ) (next : ℕ) (o : Option ℕ) (m : Manager)
    → IfReturns (SameUsage m) (send_to_worker id next o m)
send_to_worker_usage id next none m = tt
send_to_worker_usage id next (some worker) m =
    IfReturns-after (SameUsage m) (update_task id (assign_worker worker) m.task_mgr) _ (λ r. refl)

dispatch_usage :
    (world : World) (id : ℤ) (m : Manager)
    → IfReturns (SameUsage m) (dispatch_task_to_worker world id m)
unfolding dispatch_task_to_worker
dispatch_usage world id m = go (is_empty world.worker_threads)
  where
    sends : Run Manager
    sends =
        send_to_worker id ((m.next_worker + 1) % 2 ^ 64)
          (get_elem? world.worker_threads (m.next_worker % length world.worker_threads)) m

    go : (b : Bool) → IfReturns (SameUsage m) (if b then ok m else sends)
    go true = refl
    go false = send_to_worker_usage id _ _ m

module _ (world : World) (msg : StartCaptureMsg) (key signature sid : Str)
    (matched : List ProcessInfo) (m : Manager) where
  create_usage :
      IfReturns (SameUsage m) (create_and_add_capture_task world msg key signature sid matched m)
  unfolding create_and_add_capture_task
  create_usage = IfReturns-after (SameUsage m) (add_task _ key signature sid _ _) _ (λ r. refl)

  admit_usage :
      (o : Option Duplicate)
      → IfReturns (SameUsage m) (admit world msg key signature sid matched m o)
  unfolding admit
  admit_usage (some d) = reply_usage msg.reply_target (create_duplicate_error_reply d) m
  admit_usage none = go (leb (get_max_concurrent_limit world) (running_count m.task_mgr))
    where
      id : ℤ
      id = pos ((take_id m.next_capture_id).0)

      full : Reply
      full = create_capacity_error_reply (get_max_concurrent_limit world)

      starts : Run Manager
      starts = do
        m₁ ← create_and_add_capture_task world msg key signature sid matched m
        m₂ ← dispatch_task_to_worker world id m₁
        ok (send_reply_to_http msg.reply_target (started_reply msg id key sid (length matched)) m₂)

      go :
          (b : Bool)
          → IfReturns
              (SameUsage m)
              (if b then ok (send_reply_to_http msg.reply_target full m) else starts)
      go true = reply_usage msg.reply_target full m
      go false =
          IfReturns-bind (SameUsage m) (SameUsage m)
            (create_and_add_capture_task world msg key signature sid matched m) _ create_usage
            (λ m₁ e.
              IfReturns-bind (SameUsage m₁) (SameUsage m) (dispatch_task_to_worker world id m₁) _
                (dispatch_usage world id m₁) (λ m₂ f. reply_usage msg.reply_target _ m₂ ∙ f ∙ e))

start_usage :
    (world : World) (msg : StartCaptureMsg) (signature sid : Str) (matched : List ProcessInfo)
    (m : Manager)
    → IfReturns (SameUsage m) (handle_start_capture world msg signature sid matched m)
unfolding handle_start_capture
start_usage world msg signature sid matched m =
    IfReturns-after (SameUsage m) (find_duplicate (generate_task_key msg) signature sid m.task_mgr)
      _
      (admit_usage world (with_defaults world msg) (generate_task_key msg) signature sid matched m)

-- One message.
handle_msg_usage :
    (world : World) (msg : Msg) (m : Manager)
    → IfReturns
        (λ (m' : Manager). m'.usage ≡ handle_all (event_of world msg) m.usage)
        (handle_msg world msg m)
unfolding handle_msg handle_stop_capture handle_all handle handle_capture_started_v2
    handle_capture_progress_v2 handle_capture_finished_v2 handle_capture_failed_v2 handle_raw_file
    handle_capture_filtered_file_v2 handle_endian_detected handle_clean_compress_done check_queue
handle_msg_usage world (start_capture msg signature sid matched) m =
    start_usage world msg signature sid matched m
handle_msg_usage world (stop_capture target) m = reply_usage target _ m
handle_msg_usage world (task_update msg) m = update_usage world msg m
handle_msg_usage world (capture_started msg) m = call_usage m _
handle_msg_usage world (capture_progress msg) m = call_usage m _
handle_msg_usage world (capture_file_ready msg) m = file_ready_usage world msg m
handle_msg_usage world (capture_finished msg) m = call_then_usage msg.capture_id m _
handle_msg_usage world (capture_failed msg) m = call_then_usage msg.capture_id m _
handle_msg_usage world (capture_raw_file msg) m = refl
handle_msg_usage world (capture_filtered_file msg) m = filtered_usage world msg m
handle_msg_usage world (pdef_endian_detected msg) m = refl
handle_msg_usage world (clean_compress_done msg) m = call_usage m _
handle_msg_usage world queue_check m =
    IfReturns-after (SameUsage m) (cleanup_pending_deletes m.task_mgr) _ (λ t. refl)

handle_all-append :
    (es fs : List Event) (u : Usage) → handle_all (es ++ fs) u ≡ handle_all fs (handle_all es u)
unfolding handle_all
handle_all-append [] fs u = refl
handle_all-append (e ∷ es) fs u = handle_all-append es fs (handle e u)

-- Any messages that the thread handles from a valid state on: all handlers return, and the usage of
-- PDEF files at the end is what those of the messages that are about PDEF files make of it, the others
-- left out.
pub handle_msgs-handle_all :
    (msgs : List (World × Msg)) (m : Manager)
    → ManagerIsValid m
    → Returns (λ m'. m'.usage ≡ handle_all (events_of msgs) m.usage) (handle_msgs msgs m)
unfolding handle_msgs handle_all
handle_msgs-handle_all [] m v = refl
handle_msgs-handle_all ((world, msg) ∷ msgs) m v =
    Returns-bind
      (λ (m₁ : Manager). ManagerIsValid m₁ × (m₁.usage ≡ handle_all (event_of world msg) m.usage))
      (λ (m' : Manager). m'.usage ≡ handle_all (event_of world msg ++ events_of msgs) m.usage)
      (handle_msg world msg m) (handle_msgs msgs)
      (Returns-both ManagerIsValid _ (handle_msg world msg m) (handle_msg-IsValid world msg m v)
        (handle_msg_usage world msg m))
      (λ m₁ h. Returns-mono _ _ (handle_msgs msgs m₁) (handle_msgs-handle_all msgs m₁ h.0) (λ m' e.
        e
        ∙ ap (handle_all (events_of msgs)) h.1
        ∙ sym (handle_all-append (event_of world msg) (events_of msgs) m.usage)))
