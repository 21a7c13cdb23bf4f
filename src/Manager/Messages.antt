-- ===== src/Manager/Messages.antt =====
-- src/rxcapturemessages.h: the messages that reach the manager thread, with the fields that its
-- handlers read. `uint32_t`, `unsigned long` and `size_t` are natural numbers.
use rxtracenetcap.Prelude.{ℕ, ℤ, pos, Bool, false, List, [], Str}
use rxtracenetcap.Prelude.Text.{codes}
use rxtracenetcap.Task.{TaskStatus, CaptureFileInfo}
use rxtracenetcap.Pdef.Types.{EndianType}

pub data CaptureErrorCode : Type 0 where
  err_none err_unknown err_start_invalid_params err_start_no_permission
        err_start_interface_not_found err_start_process_not_found err_start_tcpdump_failed
        err_start_create_file_failed err_run_tcpdump_died err_run_disk_full err_run_timeout
        err_run_cancelled err_run_process_died err_clean_compress_failed err_clean_delete_failed
        err_clean_disk_full :
      CaptureErrorCode

unfoldable pub rx_capture_error_to_string : CaptureErrorCode → Str
rx_capture_error_to_string err_none = codes "ERR_NONE"
rx_capture_error_to_string err_unknown = codes "ERR_UNKNOWN"
rx_capture_error_to_string err_start_invalid_params = codes "ERR_START_INVALID_PARAMS"
rx_capture_error_to_string err_start_no_permission = codes "ERR_START_NO_PERMISSION"
rx_capture_error_to_string err_start_interface_not_found = codes "ERR_START_INTERFACE_NOT_FOUND"
rx_capture_error_to_string err_start_process_not_found = codes "ERR_START_PROCESS_NOT_FOUND"
rx_capture_error_to_string err_start_tcpdump_failed = codes "ERR_START_TCPDUMP_FAILED"
rx_capture_error_to_string err_start_create_file_failed = codes "ERR_START_CREATE_FILE_FAILED"
rx_capture_error_to_string err_run_tcpdump_died = codes "ERR_RUN_TCPDUMP_DIED"
rx_capture_error_to_string err_run_disk_full = codes "ERR_RUN_DISK_FULL"
rx_capture_error_to_string err_run_timeout = codes "ERR_RUN_TIMEOUT"
rx_capture_error_to_string err_run_cancelled = codes "ERR_RUN_CANCELLED"
rx_capture_error_to_string err_run_process_died = codes "ERR_RUN_PROCESS_DIED"
rx_capture_error_to_string err_clean_compress_failed = codes "ERR_CLEAN_COMPRESS_FAILED"
rx_capture_error_to_string err_clean_delete_failed = codes "ERR_CLEAN_DELETE_FAILED"
rx_capture_error_to_string err_clean_disk_full = codes "ERR_CLEAN_DISK_FULL"

pub record TaskUpdateMsg : Type 0 where
  pub capture_id : ℤ
  pub new_status : TaskStatus
  pub update_capture_pid : Bool
  pub capture_pid : ℤ
  pub update_output_file : Bool
  pub output_file : Str
  pub update_start_time : Bool
  pub start_time : ℤ
  pub update_end_time : Bool
  pub end_time : ℤ
  pub update_stats : Bool
  pub packet_count : ℕ
  pub bytes_captured : ℕ
  pub update_error : Bool
  pub error_message : Str

pub record CaptureStartedMsg : Type 0 where
  pub capture_id : ℤ
  pub start_ts : ℤ
  pub capture_pid : ℤ
  pub output_file : Str

pub record CaptureProgressMsg : Type 0 where
  pub capture_id : ℤ
  pub packets : ℕ
  pub bytes : ℕ
  pub last_packet_ts : ℤ
  pub report_ts : ℤ

pub record CaptureFileReadyMsg : Type 0 where
  pub capture_id : ℤ
  pub files : List CaptureFileInfo

-- With the fields of `CaptureResultStats`.
pub record CaptureFinishedMsg : Type 0 where
  pub capture_id : ℤ
  pub total_packets : ℕ
  pub total_bytes : ℕ
  pub finish_ts : ℤ
  pub exit_code : ℤ
  pub error_message : Str

pub record CaptureFailedMsg : Type 0 where
  pub capture_id : ℤ
  pub error_code : CaptureErrorCode
  pub error_message : Str

pub record CaptureRawFileMsg : Type 0 where
  pub capture_id : ℤ
  pub raw_pcap_path : Str
  pub pdef_file_path : Str

pub record CaptureFilteredFileMsg : Type 0 where
  pub capture_id : ℤ
  pub filtered_pcap_path : Str
  pub total_packets : ℕ
  pub file_size : ℕ
  pub pdef_file_path : Str

pub record PdefEndianMsg : Type 0 where
  pub pdef_file_path : Str
  pub detected_endian : EndianType

pub record CleanCompressDoneMsg : Type 0 where
  pub capture_id : ℤ
  pub ts_usec : ℤ
  pub compressed_files : List CaptureFileInfo
  pub archive_path : Str
  pub compressed_bytes : ℕ

-- `CaptureFileInfo::CaptureFileInfo`
abbrev pub new_file_info : CaptureFileInfo
new_file_info = record {
  file_path = [];
  file_size = 0;
  segment_index = pos 0;
  total_segments = pos 1;
  md5 = [];
  file_ready_ts = pos 0;
  compressed = false;
  archive_path = [];
  compress_finish_ts = pos 0;
  record_path = [];
}
