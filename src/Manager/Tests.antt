-- ===== src/Manager/Tests.antt =====
-- The manager thread at a concrete capture, and its theorems at concrete messages.
use rxtracenetcap.Prelude.{
  ◌≡◌, refl, pos, negsuc, inr, true, false, some, none, List, [], ◌∷◌, Returns, int_eq, str_eq,
  find, nat_eq, assign, tally, arith,
}
use rxtracenetcap.Prelude.Text.{codes}
use rxtracenetcap.Task.{interface, pending, resolving, stopped}
use rxtracenetcap.TaskTable.{snapshot_of, query_by}
use rxtracenetcap.TaskTable
use rxtracenetcap.TaskMgr.{
  query_task_by_key, query_task_by_signature, query_active_task_by_signature, is_key_active,
  get_stats, SafeTaskMgr,
}
use rxtracenetcap.TaskMgr.Samples.{web_entry, one_task, one_task-IsValid, one_task_query}
use rxtracenetcap.PdefUsage.{Usage, handle_all}
use rxtracenetcap.PdefUsage.FileOutcome.{all_succeed}
use rxtracenetcap.Manager.Messages.{TaskUpdateMsg, CaptureFinishedMsg, CaptureFilteredFileMsg}
use rxtracenetcap.Manager.Handlers.{should_throttle_module, handle_task_update}
use rxtracenetcap.Manager.State.{Manager, World}
use rxtracenetcap.Manager.{Msg, handle_msgs}
use rxtracenetcap.Manager.Msg.{task_update, capture_filtered_file, queue_check}
use rxtracenetcap.Manager.Json.{plain, json_escape, unescape, unescape-json_escape}
use rxtracenetcap.Manager.Start.{get_max_concurrent_limit, running_count, handle_start_capture}
use rxtracenetcap.Manager.Duplicates.{
  StartCaptureMsg, generate_task_key, check_task_duplicate, find_duplicate,
}
use rxtracenetcap.Manager.Starting.{IsStarted, handle_start_capture-IsStarted}
use rxtracenetcap.Manager.Refusing.{Refused, IsFull, IsTaken, handle_start_capture-Refused}
use rxtracenetcap.Manager.Invariant.{ManagerIsValid}
use rxtracenetcap.Manager.Validity.{handle_msgs-IsValid}
use rxtracenetcap.Manager.Updating.{HasStatus, handle_task_update-query_task}
use rxtracenetcap.Manager.Usages.{events_of, handle_msgs-handle_all}

abbrev no_usage : Usage
no_usage = record { pdef_usage_map = []; files = [] }

-- The capture of the sample was started for the module `web`.
abbrev one_capture : Manager
one_capture = record {
  task_mgr = one_task;
  module_last_trigger = (codes "web", pos 100) ∷ [];
  usage = no_usage;
  next_capture_id = 1000;
  next_worker = 0;
  sent = [];
}

one_capture-IsValid : ManagerIsValid one_capture
unfolding find
one_capture-IsValid = record { tasks = one_task-IsValid; cooldowns = (refl, tt) }

abbrev world : World
world = record {
  now = pos 120;
  now_usec = pos 120000000;
  has_filter_thread = true;
  has_cleanup_thread = true;
  worker_threads = 3 ∷ (4 ∷ []);
  max_concurrent = pos 8;
  strategy = none;
  max_duration_sec = pos 3600;
  outcome = all_succeed;
}

abbrev cancelled : CaptureFinishedMsg
cancelled = record {
  capture_id = pos 7;
  total_packets = 10;
  total_bytes = 1000;
  finish_ts = pos 119000000;
  exit_code = pos 203;
  error_message = [];
}

abbrev filtered : CaptureFilteredFileMsg
filtered = record {
  capture_id = pos 7;
  filtered_pcap_path = codes "/tmp/a.pcap";
  total_packets = 10;
  file_size = 500;
  pdef_file_path = codes "a.pdef";
}

abbrev stats_and_stop : TaskUpdateMsg
stats_and_stop = record {
  capture_id = pos 7;
  new_status = stopped;
  update_capture_pid = false;
  capture_pid = pos 0;
  update_output_file = false;
  output_file = [];
  update_start_time = false;
  start_time = pos 0;
  update_end_time = false;
  end_time = pos 0;
  update_stats = true;
  packet_count = 3;
  bytes_captured = 300;
  update_error = false;
  error_message = [];
}

-- Before the capture ends, its module is throttled.
throttled_before : should_throttle_module (codes "web") (pos 60) (pos 120) one_capture ≡ true
unfolding should_throttle_module find
throttled_before = refl

abbrev all_messages : List (World × Msg)
all_messages =
    (world, task_update stats_and_stop)
    ∷ ((world, capture_filtered_file filtered) ∷ ((world, queue_check) ∷ []))

handle_msgs-IsValid_example : Returns ManagerIsValid (handle_msgs all_messages one_capture)
handle_msgs-IsValid_example = handle_msgs-IsValid all_messages one_capture one_capture-IsValid

handle_msgs-handle_all_example :
    Returns
      (λ m'. m'.usage ≡ handle_all (events_of all_messages) no_usage)
      (handle_msgs all_messages one_capture)
handle_msgs-handle_all_example = handle_msgs-handle_all all_messages one_capture one_capture-IsValid

handle_task_update-query_task_example :
    Returns
      (λ m'. HasStatus (pos 7) pending m'.task_mgr)
      (handle_task_update world stats_and_stop one_capture)
unfolding snapshot_of
handle_task_update-query_task_example =
    handle_task_update-query_task world stats_and_stop one_capture (snapshot_of web_entry)
      one_capture-IsValid tt refl one_task_query

abbrev start_web : StartCaptureMsg
start_web = record {
  capture_mode = interface;
  iface = codes "eth0";
  proc_name = [];
  target_pid = negsuc 0;
  container_id = [];
  netns_path = [];
  filter = codes "port 80";
  protocol_filter = [];
  ip_filter = [];
  port_filter = pos 80;
  category = [];
  file_pattern = [];
  duration_sec = pos 60;
  max_bytes = pos 0;
  max_packets = pos 0;
  reply_target = record { id = 5; thread_index = 2 };
  client_ip = [];
  request_user = codes "ops";
}

abbrev start_tls : StartCaptureMsg
start_tls = record start_web { filter = codes "port 443"; port_filter = pos 443 }

-- One task is being resolved, and the limit is one.
abbrev busy : SafeTaskMgr
busy = record one_task {
  store = record (one_task.store) {
    heap = assign 0 (record web_entry { status = resolving }) one_task.store.heap;
  };
}

busy-IsFull : IsFull (record world { max_concurrent = pos 1 }) busy
unfolding tally find assign
busy-IsFull = ((omega arith, omega arith), omega arith)

-- The request has the key of the capture that is there.
web-IsTaken : IsTaken (generate_task_key start_web) one_task
unfolding generate_task_key query_task_by_key query_by TaskTable.query_task find snapshot_of
web-IsTaken = (snapshot_of web_entry, refl, refl)

handle_start_capture-Refused_example :
    Returns
      (Refused start_web.reply_target one_capture)
      (handle_start_capture world start_web (codes "s1") (codes "i1") [] one_capture)
handle_start_capture-Refused_example =
    handle_start_capture-Refused world start_web (codes "s1") (codes "i1") [] one_capture
      one_capture-IsValid (inr web-IsTaken)

handle_start_capture-IsStarted_example :
    Returns
      (IsStarted (pos 1000) (generate_task_key start_tls) (codes "ops"))
      (handle_start_capture world start_tls (codes "s1") (codes "i1") [] one_capture)
unfolding generate_task_key find_duplicate query_active_task_by_signature query_task_by_signature
    check_task_duplicate is_key_active query_task_by_key query_by find get_max_concurrent_limit
    running_count get_stats
handle_start_capture-IsStarted_example =
    handle_start_capture-IsStarted world start_tls (codes "s1") (codes "i1") [] one_capture
      one_capture-IsValid refl refl refl refl refl

unescape-json_escape_example :
    unescape plain (json_escape (codes "port \"80\"\n")) ≡ some (codes "port \"80\"\n")
unescape-json_escape_example = unescape-json_escape (codes "port \"80\"\n")
