-- ===== src/Manager/Starting.antt =====
-- What the handler of src/rxcapturemanagerthread.cpp does with a request that it accepts.
use rxtracenetcap.Prelude.{
  ℕ, ◌+◌, ◌%◌, ◌^◌, ◌≡◌, ◌≢◌, refl, sym, ap, subst, ◌∙◌, ℤ, pos, negsuc, Bool, true, false, none,
  some, List, [], ◌∷◌, ◌++◌, if◌then◌else◌, ltb, leb, is_empty, Str, find-assign_self, ok, Returns,
  Returns-bind, Returns-and, nat_eq, str_eq, arith,
}
use rxtracenetcap.Task.{ObjId, pending, resolving, status_eq, assign_worker}
use rxtracenetcap.TaskTable.{TaskSnapshot, snapshot_of}
use rxtracenetcap.TaskMgr.{new_task, add_task, update_task, query_task}
use rxtracenetcap.TaskMgr.Ownership.{new_task-IsValid}
use rxtracenetcap.TaskMgr.Updates.{update_task-query_task}
use rxtracenetcap.TaskMgr.Added.{add_task-query_task}
use rxtracenetcap.Manager.State.{Manager, World, Reply, to_http}
use rxtracenetcap.Manager.Start.{
  get_max_concurrent_limit, running_count, task_of, take_id, create_and_add_capture_task,
  send_to_worker, dispatch_task_to_worker, send_reply_to_http, admit, handle_start_capture,
}
use rxtracenetcap.Manager.Duplicates.{
  StartCaptureMsg, ProcessInfo, generate_task_key, find_duplicate,
}
use rxtracenetcap.Manager.Invariant.{ManagerIsValid}
use rxtracenetcap.Manager.Admission.{turn, create_valid}
use rxtracenetcap.Manager.Start.{with_defaults}

-- The new task, as queries show it.
abbrev created : World → StartCaptureMsg → ℤ → Str → Str → Str → List ProcessInfo → TaskSnapshot
created world msg id key signature sid matched =
    snapshot_of (task_of world msg id key signature sid matched)

module _ (world : World) (msg : StartCaptureMsg) (key signature sid : Str)
    (matched : List ProcessInfo) (m : Manager) (v : ManagerIsValid m) where
  abbrev new_id : ℤ
  new_id = pos ((take_id m.next_capture_id).0)

  abbrev Created : Manager → Type 0
  Created m₁ =
      query_task new_id m₁.task_mgr ≡ ok (some (created world msg new_id key signature sid matched))

  create-Created :
      is_empty signature ≡ false
      → is_empty sid ≡ false
      → Returns Created (create_and_add_capture_task world msg key signature sid matched m)
  unfolding create_and_add_capture_task new_task task_of
  create-Created signed named =
      let task = task_of world msg new_id key signature sid matched in
      let p = m.task_mgr.store.next_addr in
      let s = (new_task task m.task_mgr.store).1 in
      Returns-bind _ Created
        (add_task new_id key signature sid (some p) (record (m.task_mgr) { store = s })) _
        (add_task-query_task [] (record (m.task_mgr) { store = s }) new_id key signature sid p task
          (new_task-IsValid task v.tasks) (find-assign_self p task m.task_mgr.store.heap) signed
          refl named)
        (λ r h. h.1)

-- Another id than this one.
another : ℤ → ℤ
another (pos n) = negsuc n
another (negsuc n) = pos n

another-ne : (id : ℤ) → id ≢ another id
unfolding another
another-ne (pos n) e = grind (arith, e)
another-ne (negsuc n) e = grind (arith, e)

-- A query finds the task, which is being resolved by a worker, for this key and user.
abbrev pub IsStarted : ℤ → Str → Str → Manager → Type 0
IsStarted id key user m =
    (shown : TaskSnapshot) × (query_task id m.task_mgr ≡ ok (some shown))
    × (shown.status ≡ resolving)
    × (shown.key ≡ key)
    × (shown.request_user ≡ user)

module _ (id : ℤ) (snapshot : TaskSnapshot) (pends : snapshot.status ≡ pending) (m : Manager)
    (v : ManagerIsValid m) (found : query_task id m.task_mgr ≡ ok (some snapshot)) where
  send_to_worker-IsStarted :
      (next worker : ℕ)
      → Returns
          (IsStarted id snapshot.key snapshot.request_user)
          (send_to_worker id next (some worker) m)
  unfolding assign_worker snapshot_of
  send_to_worker-IsStarted next worker =
      let (task, shows, r) =
        update_task-query_task [] m.task_mgr id (another id) (assign_worker worker) snapshot v.tasks
          found (another-ne id) in
      Returns-bind _ (IsStarted id snapshot.key snapshot.request_user)
        (update_task id (assign_worker worker) m.task_mgr) _ r
        (λ p h. (
          snapshot_of (assign_worker worker task),
          h.1,
          ap (λ s. if status_eq s pending then resolving else s)
              (ap (λ (x : TaskSnapshot). x.status) shows ∙ pends),
          ap (λ (x : TaskSnapshot). x.key) shows,
          ap (λ (x : TaskSnapshot). x.request_user) shows,
        ))

  dispatch-IsStarted :
      (world : World)
      → is_empty world.worker_threads ≡ false
      → Returns
          (IsStarted id snapshot.key snapshot.request_user)
          (dispatch_task_to_worker world id m)
  unfolding dispatch_task_to_worker
  dispatch-IsStarted world e =
      let (w, f) = turn world.worker_threads m.next_worker e in
      rw (e, f) (send_to_worker-IsStarted ((m.next_worker + 1) % 2 ^ 64) w)

reply_keeps :
    (target : ObjId) (reply : Reply) (m : Manager)
    → (send_reply_to_http target reply m).task_mgr ≡ m.task_mgr
unfolding send_reply_to_http
reply_keeps target reply m = go (ltb 0 target.thread_index)
  where
    go :
        (b : Bool)
        → (if b then record m { sent = m.sent ++ to_http target reply ∷ [] } else m).task_mgr
          ≡ m.task_mgr
    go true = refl
    go false = refl

reply-IsStarted :
    (id : ℤ) (key user : Str) (target : ObjId) (reply : Reply) (m : Manager)
    → IsStarted id key user m
    → IsStarted id key user (send_reply_to_http target reply m)
reply-IsStarted id key user target reply m h =
    subst
      (λ t.
        (shown : TaskSnapshot) × (query_task id t ≡ ok (some shown))
        × (shown.status ≡ resolving)
        × (shown.key ≡ key)
        × (shown.request_user ≡ user))
      (sym (reply_keeps target reply m)) h

-- A request that repeats no active capture, below the limit, with a signature and a sid that are not
-- empty, and with at least one worker: the handler returns. A query for the next capture id then finds
-- a task that is being resolved, under the key of the request and for its user.
pub handle_start_capture-IsStarted :
    (world : World) (msg : StartCaptureMsg) (signature sid : Str) (matched : List ProcessInfo)
    (m : Manager)
    → ManagerIsValid m
    → find_duplicate (generate_task_key msg) signature sid m.task_mgr ≡ ok none
    → leb (get_max_concurrent_limit world) (running_count m.task_mgr) ≡ false
    → is_empty signature ≡ false
    → is_empty sid ≡ false
    → is_empty world.worker_threads ≡ false
    → Returns
        (IsStarted (pos ((take_id m.next_capture_id).0)) (generate_task_key msg) msg.request_user)
        (handle_start_capture world msg signature sid matched m)
unfolding handle_start_capture admit snapshot_of task_of
handle_start_capture-IsStarted world msg signature sid matched m v unique below signed named
      workers =
    let key = generate_task_key msg in
    let msg' = with_defaults world msg in
    let id = pos ((take_id m.next_capture_id).0) in
    rw (unique, below)
      (Returns-bind (λ m₁. ManagerIsValid m₁ × Created world msg' key signature sid matched m v m₁)
        (IsStarted id key msg.request_user) _ _
        (Returns-and ManagerIsValid (Created world msg' key signature sid matched m v)
          (create_and_add_capture_task world msg' key signature sid matched m)
          (create_valid world msg' key signature sid matched m v)
          (create-Created world msg' key signature sid matched m v signed named))
        (λ m₁ h.
          Returns-bind (IsStarted id key msg.request_user) (IsStarted id key msg.request_user)
            (dispatch_task_to_worker world id m₁) _
            (dispatch-IsStarted id (created world msg' id key signature sid matched) refl m₁ h.0 h.1
              world workers)
            (λ m₂ s. reply-IsStarted id key msg.request_user msg.reply_target _ m₂ s)))
