-- ===== src/Manager/Start.antt =====
-- src/rxcapturemanagerthread.cpp: how a request to start a capture is admitted. The key comes from the
-- request as it is before the defaults of interface and duration; the signature, the sid and the
-- processes that match the request are given.
use rxtracenetcap.Prelude.{
  ℕ, zero, suc, ◌+◌, ◌%◌, ◌^◌, ℤ, pos, negsuc, false, Option, none, some, List, [], ◌∷◌, ◌++◌, map,
  if◌then◌else◌, ltb, leb, ◌||◌, is_pos, length, is_empty, get_elem?, Str, Run, ok, ◌>>=◌, ub,
}
use rxtracenetcap.Prelude.Text.{codes, decimal, int_text}
use rxtracenetcap.Task.{ObjId, pending, CaptureTask, new_capture_task, assign_worker}
use rxtracenetcap.TaskMgr.{SafeTaskMgr, new_task, add_task, update_task, get_stats}
use rxtracenetcap.Manager.Json.{json_escape}
use rxtracenetcap.Manager.State.{Reply, to_worker, to_http, Manager, World, Strategy}
use rxtracenetcap.Manager.Duplicates.{
  StartCaptureMsg, ProcessInfo, printed, generate_task_key, capture_mode_to_string, Duplicate,
  or_text, find_duplicate,
}

unfoldable pub get_max_concurrent_limit : World → ℕ
get_max_concurrent_limit world = elim (world.max_concurrent) [
  | pos zero ↦ 1
  | pos (suc n) ↦ suc n
  | negsuc n ↦ 1
]

unfoldable pub running_count : SafeTaskMgr → ℕ
running_count t = ((get_stats t).running_count + (get_stats t).resolving_count) % 2 ^ 64

abbrev quoted : Str → Str
quoted text = b'"' ∷ (json_escape text ++ (b'"' ∷ []))

unfoldable pub create_duplicate_error_reply : Duplicate → Reply
create_duplicate_error_reply d = record {
  status = 409;
  body =
      codes "{\"error\":\"duplicate capture task\",\"key\":"
      ++ quoted d.key
      ++ (if is_empty d.sid then [] else codes ",\"sid\":" ++ quoted d.sid)
      ++ codes ",\"existing_capture_id\":"
      ++ int_text d.existing_id
      ++ codes ",\"status\":"
      ++ quoted d.status
      ++ codes "}";
}

unfoldable pub create_capacity_error_reply : ℕ → Reply
create_capacity_error_reply max_concurrent = record {
  status = 429;
  body = printed 256 (
      codes "{\"error\":\"capture capacity reached\",\"max_concurrent\":"
      ++ decimal max_concurrent
      ++ codes "}");
}

-- The path that the loop over the matched processes leaves in the task.
abbrev first_netns : Str → List ProcessInfo → Str
first_netns path [] = path
first_netns path (p ∷ ps) = first_netns (or_text path p.netns_path) ps

unfoldable pub task_of :
    World → StartCaptureMsg → ℤ → Str → Str → Str → List ProcessInfo → CaptureTask
task_of world msg id key signature sid matched = record {
  capture_id = id;
  key = key;
  signature = signature;
  sid = sid;
  capture_mode = msg.capture_mode;
  iface = msg.iface;
  proc_name = msg.proc_name;
  target_pid = msg.target_pid;
  container_id = msg.container_id;
  netns_path = first_netns msg.netns_path matched;
  filter = msg.filter;
  protocol_filter = msg.protocol_filter;
  ip_filter = msg.ip_filter;
  port_filter = msg.port_filter;
  category = msg.category;
  file_pattern = msg.file_pattern;
  duration_sec = msg.duration_sec;
  max_bytes = msg.max_bytes;
  max_packets = msg.max_packets;
  priority = pos 0;
  status = pending;
  capture_pid = new_capture_task.capture_pid;
  output_file = [];
  start_time = world.now;
  end_time = pos 0;
  matched_pids = map (λ (p : ProcessInfo). p.pid) matched;
  resolved_iface = msg.iface;
  worker_thread_index = 0;
  stop_requested = false;
  cancel_requested = false;
  packet_count = 0;
  bytes_captured = 0;
  error_message = [];
  captured_files = [];
  archives = [];
  reply_target = msg.reply_target;
  client_ip = msg.client_ip;
  request_user = msg.request_user;
}

unfoldable pub started_reply : StartCaptureMsg → ℤ → Str → Str → ℕ → Reply
started_reply msg id key sid matched = record {
  status = 200;
  body = printed 1024 (
      codes "{\"capture_id\":"
      ++ int_text id
      ++ codes ",\"duplicate\":false,\"status\":\"started\",\"mode\":\""
      ++ capture_mode_to_string msg.capture_mode
      ++ codes "\",\"key\":\""
      ++ key
      ++ codes "\",\"sid\":\""
      ++ sid
      ++ codes "\",\"matched_pids\":"
      ++ decimal matched
      ++ codes ",\"port\":"
      ++ int_text msg.port_filter
      ++ codes "}");
}

-- The id of the next capture, and the value that the counter then has. After 2 ^ 31 - 1 the counter is
-- negative, as where a signed overflow wraps around.
abbrev pub take_id : ℕ → ℕ × ℕ
take_id next = if ltb next 1000 || leb (2 ^ 31) next then (1000, next) else (next, next + 1)

unfoldable pub create_and_add_capture_task :
    World → StartCaptureMsg → Str → Str → Str → List ProcessInfo → Manager → Run Manager
create_and_add_capture_task world msg key signature sid matched m = do
  let (id, next) = take_id m.next_capture_id
  let (p, store) = new_task (task_of world msg (pos id) key signature sid matched) m.task_mgr.store
  (added, t) ← add_task (pos id) key signature sid (some p) (record (m.task_mgr) { store = store })
  ok (record m { task_mgr = t; next_capture_id = next })

abbrev pub send_to_worker : ℤ → ℕ → Option ℕ → Manager → Run Manager
send_to_worker id next none m = ub
send_to_worker id next (some worker) m = do
  (updated, t) ← update_task id (assign_worker worker) m.task_mgr
  ok (record m { task_mgr = t; next_worker = next; sent = m.sent ++ to_worker worker id ∷ [] })

-- The workers take turns. The vector is read at an index below its size.
unfoldable pub dispatch_task_to_worker : World → ℤ → Manager → Run Manager
dispatch_task_to_worker world id m =
    if is_empty world.worker_threads
    then ok m
    else send_to_worker id ((m.next_worker + 1) % 2 ^ 64)
        (get_elem? world.worker_threads (m.next_worker % length world.worker_threads)) m

unfoldable pub send_reply_to_http : ObjId → Reply → Manager → Manager
send_reply_to_http target reply m =
    if ltb 0 target.thread_index then record m { sent = m.sent ++ to_http target reply ∷ [] } else m

-- The decision and what follows it.
unfoldable pub admit :
    World
    → StartCaptureMsg
    → Str
    → Str
    → Str
    → List ProcessInfo
    → Manager
    → Option Duplicate
    → Run Manager
admit world msg key signature sid matched m (some d) =
    ok (send_reply_to_http msg.reply_target (create_duplicate_error_reply d) m)
admit world msg key signature sid matched m none =
    if leb (get_max_concurrent_limit world) (running_count m.task_mgr)
    then ok (
        send_reply_to_http msg.reply_target
          (create_capacity_error_reply (get_max_concurrent_limit world)) m)
    else do
      let id = pos ((take_id m.next_capture_id).0)
      m₁ ← create_and_add_capture_task world msg key signature sid matched m
      m₂ ← dispatch_task_to_worker world id m₁
      ok (send_reply_to_http msg.reply_target (started_reply msg id key sid (length matched)) m₂)

abbrev strategy_iface : Option Strategy → Str → Str
strategy_iface none iface = iface
strategy_iface (some s) iface = s.default_iface

-- The interface that a request gets.
abbrev default_iface : World → Str → Str
default_iface world iface =
    if is_empty iface then or_text (strategy_iface world.strategy iface) (codes "any") else iface

abbrev or_positive : ℤ → ℤ → ℤ
or_positive n default = if is_pos n then n else default

abbrev strategy_duration : Option Strategy → ℤ → ℤ
strategy_duration none duration = duration
strategy_duration (some s) duration = or_positive duration s.default_duration

-- The duration that a request gets.
abbrev effective_duration : World → ℤ → ℤ
effective_duration world duration =
    or_positive (strategy_duration world.strategy (or_positive duration world.max_duration_sec))
      (pos 60)

-- The request after the key was taken from it.
abbrev pub with_defaults : World → StartCaptureMsg → StartCaptureMsg
with_defaults world msg = record msg {
  iface = default_iface world msg.iface;
  duration_sec = effective_duration world msg.duration_sec;
}

unfoldable pub handle_start_capture :
    World → StartCaptureMsg → Str → Str → List ProcessInfo → Manager → Run Manager
handle_start_capture world msg signature sid matched m =
    let key = generate_task_key msg in
    find_duplicate key signature sid m.task_mgr
    >>= admit world (with_defaults world msg) key signature sid matched m

-- Captures cannot be stopped.
unfoldable pub handle_stop_capture : ObjId → Manager → Run Manager
handle_stop_capture target m = ok (
    send_reply_to_http target
      (record {
        status = 501;
        body =
            codes
              "{\"error\":\"stop not supported\",\"message\":\"capture tasks cannot be stopped once started\"}";
      })
      m)
