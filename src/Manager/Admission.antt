-- ===== src/Manager/Admission.antt =====
-- How the request handler of src/rxcapturemanagerthread.cpp keeps the task table: what it refuses, what
-- it starts, and that it returns.
use rxtracenetcap.Prelude.{
  ℕ, zero, suc, ◌+◌, ◌%◌, ◌^◌, ◌<◌, ◌≡◌, refl, ℤ, pos, Bool, true, false, Option, none, some, List,
  [], ◌∷◌, ◌++◌, if◌then◌else◌, ltb, leb, length, is_empty, is_pos, get_elem?, Str, Map, find, Run,
  ok, ◌>>=◌, Returns, Returns-bind, nat_eq, str_eq, arith,
}
use native.Mathlib.Nat.{mod-lt, zero-lt-suc}
use rxtracenetcap.Task.{ObjId, assign_worker}
use rxtracenetcap.TaskTable.{TaskSnapshot, snapshot_of, query_by}
use rxtracenetcap.TaskMgr.{
  SafeTaskMgr, current, new_task, update_task, query_task, query_task_by_key,
  query_task_by_signature, is_key_active, query_active_task_by_signature,
}
use rxtracenetcap.TaskTable
use rxtracenetcap.TaskMgr.Ownership.{
  IsValid, After, add_task-IsValid, update_task-IsValid, new_task-IsValid,
}
use rxtracenetcap.TaskMgr.Updates.{query_task-Returns}
use rxtracenetcap.Manager.State.{Manager, World, Reply, to_http}
use rxtracenetcap.Manager.Start.{
  with_defaults, get_max_concurrent_limit, running_count, create_duplicate_error_reply,
  create_capacity_error_reply, task_of, started_reply, take_id, create_and_add_capture_task,
  send_to_worker, dispatch_task_to_worker, send_reply_to_http, admit, handle_start_capture,
}
use rxtracenetcap.Manager.Duplicates.{
  StartCaptureMsg, ProcessInfo, generate_task_key, Duplicate, active_duplicate,
  check_task_duplicate, query_if, key_duplicate, signature_duplicate, find_duplicate,
}
use rxtracenetcap.Manager.Invariant.{ManagerIsValid}

-- Queries of a valid manager return.
abbrev Ends : {A : Type 0} → Run A → Type 0
Ends r = Returns (λ a. Unit {0}) r

pub query_by-Ends :
    (t : SafeTaskMgr) (index : Map Str ℤ) (name : Str)
    → IsValid [] t
    → Ends (query_by t.store.heap (current t) index name)
unfolding query_by query_task
query_by-Ends t index name v = go (find name index)
  where
    go :
        (o : Option ℤ)
        → Ends
            (elim o [ none ↦ ok none | some id ↦ TaskTable.query_task t.store.heap (current t) id ])
    go none = tt
    go (some id) = query_task-Returns id t v

-- One run after the other.
pub then-Ends :
    {A B : Type 0} (r : Run A) (f : A → Run B) → Ends r → ((a : A) → Ends (f a)) → Ends (r >>= f)
then-Ends r f h k = Returns-bind (λ a. Unit {0}) (λ b. Unit {0}) r f h (λ a u. k a)

module _ (t : SafeTaskMgr) (v : IsValid [] t) where
  check_task_duplicate-Ends : (key : Str) → Ends (check_task_duplicate key t)
  unfolding check_task_duplicate is_key_active query_task_by_key
  check_task_duplicate-Ends key =
      then-Ends (is_key_active key t) (active_duplicate key t)
        (then-Ends (query_task_by_key key t) _ by_key (λ found. tt)) active
    where
      by_key : Ends (query_task_by_key key t)
      by_key = query_by-Ends t (current t).key_to_id key v

      active : (b : Bool) → Ends (active_duplicate key t b)
      active true = then-Ends (query_task_by_key key t) _ by_key (λ found. tt)
      active false = tt

  pub query_if-Ends : (b : Bool) (id : ℤ) → Ends (query_if b id t)
  unfolding query_if
  query_if-Ends true id = query_task-Returns id t v
  query_if-Ends false id = tt

  key_duplicate-Ends : (key sid : Str) (o : Option (ℤ × Str)) → Ends (key_duplicate key sid t o)
  key_duplicate-Ends key sid none = tt
  key_duplicate-Ends key sid (some (id, status)) =
      then-Ends (query_if (is_pos id) id t) _ (query_if-Ends (is_pos id) id) (λ found. tt)

  signature_duplicate-Ends :
      (key sid : Str) (o : Option TaskSnapshot) → Ends (signature_duplicate key sid t o)
  signature_duplicate-Ends key sid none =
      then-Ends (check_task_duplicate key t) _ (check_task_duplicate-Ends key)
        (key_duplicate-Ends key sid)
  signature_duplicate-Ends key sid (some snapshot) = tt

  pub find_duplicate-Ends : (key signature sid : Str) → Ends (find_duplicate key signature sid t)
  unfolding find_duplicate query_active_task_by_signature query_task_by_signature
  find_duplicate-Ends key signature sid =
      then-Ends (query_active_task_by_signature signature t) (signature_duplicate key sid t)
        (then-Ends (query_task_by_signature signature t) _
          (query_by-Ends t (current t).signature_to_id signature v) (λ found. tt))
        (signature_duplicate-Ends key sid)

-- An index below the length of a list.
get_elem?-some :
    {A : Type 0} (xs : List A) (i : ℕ) → i < length xs → (x : A) × (get_elem? xs i ≡ some x)
get_elem?-some [] i h = absurd (omega (arith, h))
get_elem?-some (x ∷ xs) zero h = (x, refl)
get_elem?-some (x ∷ xs) (suc i) h = get_elem?-some xs i (omega (arith, h))

pub turn :
    (xs : List ℕ) (n : ℕ) → is_empty xs ≡ false → (x : ℕ) × (get_elem? xs (n % length xs) ≡ some x)
turn [] n h = absurd (grind (arith, h))
turn (x ∷ xs) n h =
    get_elem?-some (x ∷ xs) (n % suc (length xs)) (mod-lt n (zero-lt-suc (length xs)))

module _ (world : World) (msg : StartCaptureMsg) (key signature sid : Str)
    (matched : List ProcessInfo) where
  pub create_valid :
      (m : Manager)
      → ManagerIsValid m
      → Returns ManagerIsValid (create_and_add_capture_task world msg key signature sid matched m)
  unfolding create_and_add_capture_task new_task
  create_valid m v =
      let id = pos ((take_id m.next_capture_id).0) in
      let task = task_of world msg id key signature sid matched in
      Returns-bind (After []) ManagerIsValid _ _
        (add_task-IsValid id key signature sid m.task_mgr.store.next_addr
          (new_task-IsValid task v.tasks))
        (λ r h. record { tasks = h; cooldowns = v.cooldowns })

  send_to_worker_valid :
      (id : ℤ) (next worker : ℕ) (m : Manager)
      → ManagerIsValid m
      → Returns ManagerIsValid (send_to_worker id next (some worker) m)
  send_to_worker_valid id next worker m v =
      Returns-bind (After []) ManagerIsValid (update_task id (assign_worker worker) m.task_mgr) _
        (update_task-IsValid id (assign_worker worker) v.tasks)
        (λ r h. record { tasks = h; cooldowns = v.cooldowns })

  dispatch_valid :
      (id : ℤ) (m : Manager)
      → ManagerIsValid m
      → Returns ManagerIsValid (dispatch_task_to_worker world id m)
  unfolding dispatch_task_to_worker
  dispatch_valid id m v = go (is_empty world.worker_threads) refl
    where
      next : ℕ
      next = (m.next_worker + 1) % 2 ^ 64

      go :
          (b : Bool)
          → is_empty world.worker_threads ≡ b
          → Returns ManagerIsValid (
              if b
              then ok m
              else send_to_worker id next
                  (get_elem? world.worker_threads (m.next_worker % length world.worker_threads))
                  m)
      go true e = v
      go false e =
          let (w, f) = turn world.worker_threads m.next_worker e in
          rw f (send_to_worker_valid id next w m v)

pub send_reply_valid :
    (target : ObjId) (reply : Reply) (m : Manager)
    → ManagerIsValid m
    → ManagerIsValid (send_reply_to_http target reply m)
unfolding send_reply_to_http
send_reply_valid target reply m v = go (ltb 0 target.thread_index)
  where
    go :
        (b : Bool)
        → ManagerIsValid (if b then record m { sent = m.sent ++ to_http target reply ∷ [] } else m)
    go true = record { tasks = v.tasks; cooldowns = v.cooldowns }
    go false = v

module _ (world : World) (msg : StartCaptureMsg) (key signature sid : Str)
    (matched : List ProcessInfo) where
  admit_valid :
      (m : Manager) (o : Option Duplicate)
      → ManagerIsValid m
      → Returns ManagerIsValid (admit world msg key signature sid matched m o)
  unfolding admit
  admit_valid m (some d) v = send_reply_valid msg.reply_target (create_duplicate_error_reply d) m v
  admit_valid m none v = go (leb (get_max_concurrent_limit world) (running_count m.task_mgr))
    where
      id : ℤ
      id = pos ((take_id m.next_capture_id).0)

      full : Reply
      full = create_capacity_error_reply (get_max_concurrent_limit world)

      starts : Run Manager
      starts = do
        m₁ ← create_and_add_capture_task world msg key signature sid matched m
        m₂ ← dispatch_task_to_worker world id m₁
        ok (send_reply_to_http msg.reply_target (started_reply msg id key sid (length matched)) m₂)

      go :
          (b : Bool)
          → Returns ManagerIsValid
              (if b then ok (send_reply_to_http msg.reply_target full m) else starts)
      go true = send_reply_valid msg.reply_target full m v
      go false =
          Returns-bind ManagerIsValid ManagerIsValid
            (create_and_add_capture_task world msg key signature sid matched m) _
            (create_valid world msg key signature sid matched m v)
            (λ m₁ v₁.
              Returns-bind ManagerIsValid ManagerIsValid (dispatch_task_to_worker world id m₁) _
                (dispatch_valid world msg key signature sid matched id m₁ v₁)
                (λ m₂ v₂. send_reply_valid msg.reply_target _ m₂ v₂))

-- The case of a request in `handle_msg`.
pub handle_start_capture-IsValid :
    (world : World) (msg : StartCaptureMsg) (signature sid : Str) (matched : List ProcessInfo)
    (m : Manager)
    → ManagerIsValid m
    → Returns ManagerIsValid (handle_start_capture world msg signature sid matched m)
unfolding handle_start_capture
handle_start_capture-IsValid world msg signature sid matched m v =
    Returns-bind (λ o. Unit {0}) ManagerIsValid _ _
      (find_duplicate-Ends m.task_mgr v.tasks (generate_task_key msg) signature sid)
      (λ o u.
        admit_valid world (with_defaults world msg) (generate_task_key msg) signature sid matched m
          o v)
