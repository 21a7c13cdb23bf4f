-- ===== src/Manager.antt =====
-- src/rxcapturemanagerthread.cpp: the manager thread as a machine that handles one message after the
-- other.
pub mod Json
pub mod Messages
pub mod State
pub mod Handlers
pub mod Duplicates
pub mod Start
pub mod Invariant
pub mod Admission
pub mod Refusing
pub mod Starting
pub mod Calls
pub mod Validity
pub mod Outcomes
pub mod Closing
pub mod Updating
pub mod Usages
mod Tests
use rxtracenetcap.Prelude.{Str, List, [], ◌∷◌, Run, ok, ◌>>=◌}
use rxtracenetcap.Task.{ObjId}
use rxtracenetcap.Manager.Start.{handle_start_capture, handle_stop_capture}
use rxtracenetcap.Manager.Duplicates.{StartCaptureMsg, ProcessInfo}
use rxtracenetcap.Manager.Messages.{
  TaskUpdateMsg, CaptureStartedMsg, CaptureProgressMsg, CaptureFileReadyMsg, CaptureFinishedMsg,
  CaptureFailedMsg, CaptureRawFileMsg, CaptureFilteredFileMsg, PdefEndianMsg, CleanCompressDoneMsg,
}
use rxtracenetcap.Manager.Handlers.{
  handle_task_update, handle_capture_started_v2, handle_capture_progress_v2,
  handle_capture_file_ready_v2, handle_capture_finished_v2, handle_capture_failed_v2,
  handle_raw_file, handle_capture_filtered_file_v2, handle_endian_detected,
  handle_clean_compress_done, check_queue,
}
use rxtracenetcap.Manager.State.{Manager, World}

-- The messages about captures, and the round of the thread. A start comes with its signature, its sid
-- and the processes that match it, a stop with the thread that waits for the reply.
pub data Msg : Type 0 where
  start_capture : StartCaptureMsg → Str → Str → List ProcessInfo → Msg
  stop_capture : ObjId → Msg
  task_update : TaskUpdateMsg → Msg
  capture_started : CaptureStartedMsg → Msg
  capture_progress : CaptureProgressMsg → Msg
  capture_file_ready : CaptureFileReadyMsg → Msg
  capture_finished : CaptureFinishedMsg → Msg
  capture_failed : CaptureFailedMsg → Msg
  capture_raw_file : CaptureRawFileMsg → Msg
  capture_filtered_file : CaptureFilteredFileMsg → Msg
  pdef_endian_detected : PdefEndianMsg → Msg
  clean_compress_done : CleanCompressDoneMsg → Msg
  queue_check : Msg

unfoldable pub handle_msg : World → Msg → Manager → Run Manager
handle_msg world (start_capture msg signature sid matched) =
    handle_start_capture world msg signature sid matched
handle_msg world (stop_capture target) = handle_stop_capture target
handle_msg world (task_update msg) = handle_task_update world msg
handle_msg world (capture_started msg) = handle_capture_started_v2 msg
handle_msg world (capture_progress msg) = handle_capture_progress_v2 msg
handle_msg world (capture_file_ready msg) = handle_capture_file_ready_v2 world msg
handle_msg world (capture_finished msg) = handle_capture_finished_v2 world msg
handle_msg world (capture_failed msg) = handle_capture_failed_v2 world msg
handle_msg world (capture_raw_file msg) = handle_raw_file world msg
handle_msg world (capture_filtered_file msg) = handle_capture_filtered_file_v2 world msg
handle_msg world (pdef_endian_detected msg) = handle_endian_detected world msg
handle_msg world (clean_compress_done msg) = handle_clean_compress_done msg
handle_msg world queue_check = check_queue

-- Each message with what its handler finds outside.
unfoldable pub handle_msgs : List (World × Msg) → Manager → Run Manager
handle_msgs [] m = ok m
handle_msgs ((world, msg) ∷ msgs) m = handle_msg world msg m >>= handle_msgs msgs
