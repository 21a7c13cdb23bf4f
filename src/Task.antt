-- ===== src/Task.antt =====
-- src/rxcapturetasktypes.h: the capture task and what it carries, and the functors of
-- src/rxsafetaskmgr.h and src/rxcapturemanagerthread.cpp that update one task in place.
-- `int`, `long`, `pid_t` and `int64_t` are integers, `size_t` and `unsigned long` are natural
-- numbers, a `std::string` is the list of its bytes, a `std::vector` is a list.
use rxtracenetcap.Prelude.{
  ℕ, ℤ, pos, negsuc, ◌/◌, Bool, true, false, not, ◌&&◌, List, [], ◌∷◌, if◌then◌else◌, ltb, is_empty,
  Str, str_beq, is_pos,
}

pub data CaptureMode : Type 0 where
  interface process pid container : CaptureMode

pub data TaskStatus : Type 0 where
  pending resolving running completed failed stopped : TaskStatus

pub record CaptureFileInfo : Type 0 where
  pub file_path : Str
  pub file_size : ℕ
  pub segment_index : ℤ
  pub total_segments : ℤ
  pub md5 : Str
  pub file_ready_ts : ℤ
  pub compressed : Bool
  pub archive_path : Str
  pub compress_finish_ts : ℤ
  pub record_path : Str

pub record CaptureArchiveInfo : Type 0 where
  pub archive_path : Str
  pub files : List CaptureFileInfo
  pub archive_size : ℕ
  pub compress_finish_ts : ℤ

pub record ObjId : Type 0 where
  pub id : ℕ
  pub thread_index : ℕ

pub record CaptureTask : Type 0 where
  pub capture_id : ℤ
  pub key : Str
  pub signature : Str
  pub sid : Str
  pub capture_mode : CaptureMode
  pub iface : Str
  pub proc_name : Str
  pub target_pid : ℤ
  pub container_id : Str
  pub netns_path : Str
  pub filter : Str
  pub protocol_filter : Str
  pub ip_filter : Str
  pub port_filter : ℤ
  pub category : Str
  pub file_pattern : Str
  pub duration_sec : ℤ
  pub max_bytes : ℤ
  pub max_packets : ℤ
  pub priority : ℤ
  pub status : TaskStatus
  pub capture_pid : ℤ
  pub output_file : Str
  pub start_time : ℤ
  pub end_time : ℤ
  pub matched_pids : List ℤ
  pub resolved_iface : Str
  pub worker_thread_index : ℕ
  pub stop_requested : Bool
  pub cancel_requested : Bool
  pub packet_count : ℕ
  pub bytes_captured : ℕ
  pub error_message : Str
  pub captured_files : List CaptureFileInfo
  pub archives : List CaptureArchiveInfo
  pub reply_target : ObjId
  pub client_ip : Str
  pub request_user : Str

-- The constructor; `ObjId` is default constructed.
abbrev pub new_capture_task : CaptureTask
new_capture_task = record {
  capture_id = negsuc 0;
  key = [];
  signature = [];
  sid = [];
  capture_mode = interface;
  iface = [];
  proc_name = [];
  target_pid = negsuc 0;
  container_id = [];
  netns_path = [];
  filter = [];
  protocol_filter = [];
  ip_filter = [];
  port_filter = pos 0;
  category = [];
  file_pattern = [];
  duration_sec = pos 0;
  max_bytes = pos 0;
  max_packets = pos 0;
  priority = pos 0;
  status = pending;
  capture_pid = negsuc 0;
  output_file = [];
  start_time = pos 0;
  end_time = pos 0;
  matched_pids = [];
  resolved_iface = [];
  worker_thread_index = 0;
  stop_requested = false;
  cancel_requested = false;
  packet_count = 0;
  bytes_captured = 0;
  error_message = [];
  captured_files = [];
  archives = [];
  reply_target = record { id = 0; thread_index = 0 };
  client_ip = [];
  request_user = [];
}

-- The tasks that still hold a capture slot.
abbrev pub is_active_status : TaskStatus → Bool
is_active_status pending = true
is_active_status resolving = true
is_active_status running = true
is_active_status completed = false
is_active_status failed = false
is_active_status stopped = false

abbrev pub status_eq : TaskStatus → TaskStatus → Bool
status_eq pending pending = true
status_eq resolving resolving = true
status_eq running running = true
status_eq completed completed = true
status_eq failed failed = true
status_eq stopped stopped = true
status_eq _ _ = false

-- `(ts_usec <= 0) ? 0 : static_cast<long>(ts_usec / 1000000LL)`
abbrev pub usec_to_sec : ℤ → ℤ
usec_to_sec (pos n) = pos (n / 1000000)
usec_to_sec (negsuc n) = pos 0

-- The functors below take a task to what they leave in it.
unfoldable pub updater_start : ℤ → ℤ → Str → CaptureTask → CaptureTask
updater_start ts_usec capture_pid output_file task = record task {
  start_time = usec_to_sec ts_usec;
  capture_pid = capture_pid;
  output_file = if is_empty output_file then task.output_file else output_file;
}

unfoldable pub updater_progress : ℕ → ℕ → ℤ → CaptureTask → CaptureTask
updater_progress packets bytes ts_usec task = record task {
  packet_count = if ltb 0 packets then packets else task.packet_count;
  bytes_captured = if ltb 0 bytes then bytes else task.bytes_captured;
  end_time = if is_pos ts_usec then usec_to_sec ts_usec else task.end_time;
}

unfoldable pub updater_finished : ℤ → ℕ → ℕ → Str → CaptureTask → CaptureTask
updater_finished ts_usec packets bytes final_path task = record task {
  end_time = usec_to_sec ts_usec;
  packet_count = packets;
  bytes_captured = bytes;
  output_file = if is_empty final_path then task.output_file else final_path;
}

-- `now` is the value of `time(NULL)`.
unfoldable pub updater_failed : ℤ → Str → CaptureTask → CaptureTask
updater_failed now message task = record task { error_message = message; end_time = now }

-- One round of the loops over files: the first entry of the same path is overwritten.
unfoldable pub put_file : CaptureFileInfo → List CaptureFileInfo → List CaptureFileInfo
put_file f [] = f ∷ []
put_file f (g ∷ gs) = if str_beq g.file_path f.file_path then f ∷ gs else g ∷ put_file f gs

unfoldable pub put_files : List CaptureFileInfo → List CaptureFileInfo → List CaptureFileInfo
put_files [] gs = gs
put_files (f ∷ fs) gs = put_files fs (put_file f gs)

unfoldable pub append_files : List CaptureFileInfo → CaptureTask → CaptureTask
append_files files task = record task { captured_files = put_files files task.captured_files }

unfoldable pub put_archive : CaptureArchiveInfo → List CaptureArchiveInfo → List CaptureArchiveInfo
put_archive a [] = a ∷ []
put_archive a (b ∷ bs) =
    if str_beq b.archive_path a.archive_path && not (is_empty a.archive_path)
    then a ∷ bs
    else b ∷ put_archive a bs

unfoldable pub archive_recorder : CaptureArchiveInfo → CaptureTask → CaptureTask
archive_recorder a task = record task {
  archives = put_archive a task.archives;
  captured_files = put_files a.files task.captured_files;
}

-- src/rxcapturemanagerthread.cpp
unfoldable pub assign_worker : ℕ → CaptureTask → CaptureTask
assign_worker worker_id task = record task {
  worker_thread_index = worker_id;
  stop_requested = false;
  cancel_requested = false;
  status = if status_eq task.status pending then resolving else task.status;
}

unfoldable pub mark_stopped : ℤ → ℤ → ℕ → ℕ → Str → CaptureTask → CaptureTask
mark_stopped now ts_usec packets bytes message task = record task {
  end_time = if is_pos ts_usec then usec_to_sec ts_usec else now;
  packet_count = packets;
  bytes_captured = bytes;
  error_message = message;
  stop_requested = false;
}
