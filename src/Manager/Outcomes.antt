-- ===== src/Manager/Outcomes.antt =====
-- How the handlers of src/rxcapturemanagerthread.cpp end a capture: what readers see of its task
-- afterwards, and its module's cooldown.
use rxtracenetcap.Prelude.{
  ◌≡◌, ◌≢◌, refl, ap, ◌∙◌, ℕ, ℤ, pos, Bool, true, false, some, [], ◌∷◌, if◌then◌else◌, Str, Run, ok,
  ◌>>=◌, Returns, Returns-bind, Returns-mono, Returns-and, int_beq, str_eq, arith,
}
use rxtracenetcap.Prelude.Text.{codes}
use rxtracenetcap.Task.{
  TaskStatus, CaptureFileInfo, append_files, completed, failed, stopped, CaptureTask,
  updater_finished, updater_failed, mark_stopped,
}
use rxtracenetcap.TaskTable.{TaskSnapshot, snapshot_of}
use rxtracenetcap.TaskMgr.{
  SafeTaskMgr, query_task, update_status, update_task, update_then_status, set_capture_finished,
  set_capture_failed, append_capture_files,
}
use rxtracenetcap.TaskMgr.Ownership.{IsValid, After, update_status-IsValid, update_task-IsValid}
use rxtracenetcap.TaskMgr.Updates.{update_status-query_task, update_task-query_task}
use rxtracenetcap.Manager.Messages.{CaptureFinishedMsg}
use rxtracenetcap.Manager.Handlers.{text_or, is_cancelled, stop_task, finish_task}
use rxtracenetcap.Manager.State.{World}

-- The task under `id` is there, for the same user; the task under `j` reads as before.
pub record Seen (id j : ℤ) (user : Str) (t t' : SafeTaskMgr) : Type 0 where
  pub shown : TaskSnapshot
  pub found : query_task id t' ≡ ok (some shown)
  pub same_user : shown.request_user ≡ user
  pub other : query_task j t' ≡ query_task j t
  pub valid : IsValid [] t'

-- In addition it has this status.
pub record Ended (s : TaskStatus) (id j : ℤ) (user : Str) (t t' : SafeTaskMgr) : Type 0 where
  pub seen : Seen id j user t t'
  pub status_is : seen.shown.status ≡ s

-- An updater leaves the user alone.
abbrev KeepsUser : (CaptureTask → CaptureTask) → Type 0
KeepsUser f = (task : CaptureTask) → (f task).request_user ≡ task.request_user

module _ (id j : ℤ) (ne : id ≢ j) (user : Str) (t : SafeTaskMgr) where
  pub update_task-Seen :
      (f : CaptureTask → CaptureTask) (t₁ : SafeTaskMgr)
      → KeepsUser f
      → Seen id j user t t₁
      → Returns (λ r. (r.0 ≡ true) × Seen id j user t r.1) (update_task id f t₁)
  unfolding snapshot_of
  update_task-Seen f t₁ k s =
      let (task, shows, r) = update_task-query_task [] t₁ id j f s.shown s.valid s.found ne in
      Returns-mono _ _ (update_task id f t₁)
        (Returns-and _ (After []) (update_task id f t₁) r (update_task-IsValid id f s.valid))
        (λ p h. (
          h.0.0,
          record {
            shown = snapshot_of (f task);
            found = h.0.1;
            same_user = k task ∙ ap (λ (x : TaskSnapshot). x.request_user) shows ∙ s.same_user;
            other = h.0.2 ∙ s.other;
            valid = h.1;
          },
        ))

  update_status-Ended :
      (status : TaskStatus) (t₁ : SafeTaskMgr)
      → Seen id j user t t₁
      → Returns (λ r. Ended status id j user t r.1) (update_status id status t₁)
  update_status-Ended status t₁ s =
      Returns-mono _ _ (update_status id status t₁)
        (Returns-and _ (After []) (update_status id status t₁)
          (update_status-query_task [] t₁ id j status s.shown s.valid s.found ne)
          (update_status-IsValid id status s.valid))
        (λ p h. record {
          seen = record {
            shown = record (s.shown) { status = status };
            found = h.0.1;
            same_user = s.same_user;
            other = h.0.2 ∙ s.other;
            valid = h.1;
          };
          status_is = refl;
        })

  update_then_status-Ended :
      (f : CaptureTask → CaptureTask) (status : TaskStatus) (t₁ : SafeTaskMgr)
      → KeepsUser f
      → Seen id j user t t₁
      → Returns (λ r. Ended status id j user t r.1) (update_then_status id f status t₁)
  unfolding update_then_status
  update_then_status-Ended f status t₁ k s =
      Returns-bind (λ r. (r.0 ≡ true) × Seen id j user t r.1) _ (update_task id f t₁) _
        (update_task-Seen f t₁ k s) (λ r h. go (r.0) r.1 (h.0) (h.1))
    where
      go :
          (b : Bool) (t₂ : SafeTaskMgr)
          → b ≡ true
          → Seen id j user t t₂
          → Returns
              (λ (r : Bool × SafeTaskMgr). Ended status id j user t r.1)
              (let after = update_status id status t₂ in
                if b then (do (_, t₃) ← after; ok (true, t₃)) else ok (false, t₂))
      go true t₂ e h =
          Returns-bind (λ r. Ended status id j user t r.1) _ (update_status id status t₂) _
            (update_status-Ended status t₂ h) (λ r x. x)
      go false t₂ e h = absurd (ground (arith, e))

  pub set_capture_finished-Ended :
      (ts : ℤ) (packets bytes : ℕ) (path : Str) (t₁ : SafeTaskMgr)
      → Seen id j user t t₁
      → Returns
          (λ r. Ended completed id j user t r.1)
          (set_capture_finished id ts packets bytes path t₁)
  unfolding set_capture_finished updater_finished
  set_capture_finished-Ended ts packets bytes path t₁ s =
      update_then_status-Ended _ completed t₁ (λ task. refl) s

  pub set_capture_failed-Ended :
      (now : ℤ) (message : Str) (t₁ : SafeTaskMgr)
      → Seen id j user t t₁
      → Returns (λ r. Ended failed id j user t r.1) (set_capture_failed now id message t₁)
  unfolding set_capture_failed updater_failed
  set_capture_failed-Ended now message t₁ s = update_then_status-Ended _ failed t₁ (λ task. refl) s

  pub append_capture_files-Seen :
      (f : CaptureFileInfo) (t₁ : SafeTaskMgr)
      → Seen id j user t t₁
      → Returns (λ r. (r.0 ≡ true) × Seen id j user t r.1) (append_capture_files id (f ∷ []) t₁)
  unfolding append_capture_files append_files
  append_capture_files-Seen f t₁ s = update_task-Seen _ t₁ (λ task. refl) s

-- The status that a finished message leaves, by its exit code.
abbrev pub status_after : ℤ → TaskStatus
status_after code =
    if int_beq code (pos 0) then completed else if is_cancelled code then stopped else failed

module _ (world : World) (msg : CaptureFinishedMsg) (j : ℤ) (ne : msg.capture_id ≢ j) (user : Str)
    (t : SafeTaskMgr) where
  stop_task-Ended :
      Seen msg.capture_id j user t t
      → Returns (λ r. Ended stopped msg.capture_id j user t r.1) (stop_task world msg t)
  unfolding stop_task mark_stopped
  stop_task-Ended s =
      Returns-bind (λ r. (r.0 ≡ true) × Seen msg.capture_id j user t r.1) _ _ _
        (update_task-Seen msg.capture_id j ne user t _ t (λ task. refl) s)
        (λ r h. update_status-Ended msg.capture_id j ne user t stopped r.1 h.1)

  pub finish_task-Ended :
      Seen msg.capture_id j user t t
      → Returns
          (λ r. Ended (status_after msg.exit_code) msg.capture_id j user t r.1)
          (finish_task world msg t)
  unfolding finish_task
  finish_task-Ended s = go (int_beq msg.exit_code (pos 0)) (is_cancelled msg.exit_code)
    where
      fails : Run (Bool × SafeTaskMgr)
      fails =
          set_capture_failed world.now msg.capture_id
            (text_or msg.error_message (codes "capture_failed")) t

      go :
          (a b : Bool)
          → Returns
              (λ r.
                Ended
                  (if a then completed else if b then stopped else failed)
                  msg.capture_id
                  j
                  user
                  t
                  r.1)
              (if a
                then set_capture_finished msg.capture_id msg.finish_ts msg.total_packets
                    msg.total_bytes [] t
                else if b
                then stop_task world msg t
                else fails)
      go true b = set_capture_finished-Ended msg.capture_id j ne user t _ _ _ _ t s
      go false true = stop_task-Ended s
      go false false = set_capture_failed-Ended msg.capture_id j ne user t _ _ t s
