-- ===== src/Manager/Refusing.antt =====
-- Which requests the handler of src/rxcapturemanagerthread.cpp refuses.
use rxtracenetcap.Prelude.{
  ℕ, ◌+◌, ◌^◌, ◌≡◌, refl, ℤ, pos, negsuc, Bool, true, false, Option, none, some, List, [], ◌∷◌,
  ◌++◌, ◌⊎◌, inl, inr, if◌then◌else◌, ltb, leb, is_pos, Str, ok, Returns, Returns-bind, str_eq,
  arith, zero, suc, ◌≤◌, ◌<◌, Map, find, weigh, tally, nat_eq, int_eq,
}
use rxtracenetcap.Task.{
  ObjId, pending, resolving, is_active_status, running, CaptureTask, TaskStatus, completed, failed,
  stopped,
}
use rxtracenetcap.TaskTable.{TaskSnapshot, Ptr}
use rxtracenetcap.TaskMgr.{
  SafeTaskMgr, current, query_task_by_key, query_task_by_signature, is_key_active,
  query_active_task_by_signature, get_stats,
}
use rxtracenetcap.TaskMgr.Ownership.{IsValid}
use rxtracenetcap.Manager.State.{Manager, World, Reply, to_http}
use rxtracenetcap.Manager.Start.{
  get_max_concurrent_limit, running_count, create_duplicate_error_reply,
  create_capacity_error_reply, send_reply_to_http, admit, handle_start_capture, with_defaults,
}
use rxtracenetcap.Manager.Duplicates.{
  StartCaptureMsg, ProcessInfo, generate_task_key, Duplicate, check_task_duplicate, query_if,
  key_duplicate, signature_duplicate, find_duplicate,
}
use rxtracenetcap.Manager.Invariant.{ManagerIsValid}
use rxtracenetcap.Manager.Admission.{then-Ends, query_if-Ends, query_by-Ends, find_duplicate-Ends}
use rxtracenetcap.TaskMgr.Balance.{has_status, holds, hit}

-- Only a reply is sent, if the request came over HTTP: a duplicate (409) or no capacity (429).
abbrev Answered : Bool → ObjId → Manager → Manager → Type 0
Answered false target m m' = m'.sent ≡ m.sent
Answered true target m m' =
    (reply : Reply) × (m'.sent ≡ m.sent ++ to_http target reply ∷ [])
    × ((reply.status ≡ 409) ⊎ (reply.status ≡ 429))

-- The tasks, and the id of the next capture, are as before, and a refusal is sent.
abbrev pub Refused : ObjId → Manager → Manager → Type 0
Refused target m m' =
    (m'.task_mgr ≡ m.task_mgr)
    × (m'.next_capture_id ≡ m.next_capture_id)
    × Answered (ltb 0 target.thread_index) target m m'

reply_refuses :
    (target : ObjId) (reply : Reply) (m : Manager)
    → (reply.status ≡ 409) ⊎ (reply.status ≡ 429)
    → Refused target m (send_reply_to_http target reply m)
unfolding send_reply_to_http
reply_refuses target reply m h = go (ltb 0 target.thread_index)
  where
    after : Bool → Manager
    after b = if b then record m { sent = m.sent ++ to_http target reply ∷ [] } else m

    go :
        (b : Bool)
        → ((after b).task_mgr ≡ m.task_mgr)
          × ((after b).next_capture_id ≡ m.next_capture_id)
          × Answered b target m (after b)
    go true = (refl, refl, (reply, refl, h))
    go false = (refl, refl, refl)

-- How many captures the slots hold that run or are being resolved.
abbrev captures : SafeTaskMgr → ℕ
captures t =
    tally (has_status t.store.heap running) (current t).slots
    + tally (has_status t.store.heap resolving) (current t).slots

-- A limit that is not positive stands for 1.
abbrev WithinReach : ℤ → ℕ → Type 0
WithinReach (pos limit) n = (limit ≤ n) × (1 ≤ n)
WithinReach (negsuc limit) n = 1 ≤ n

-- As many captures run or are being resolved as the limit allows.
abbrev pub IsFull : World → SafeTaskMgr → Type 0
IsFull world t =
    WithinReach world.max_concurrent (captures t) × (tally holds (current t).slots < 2 ^ 64)

capture_hit : (s : TaskStatus) → hit s running + hit s resolving ≤ 1
capture_hit pending = omega arith
capture_hit resolving = omega arith
capture_hit running = omega arith
capture_hit completed = omega arith
capture_hit failed = omega arith
capture_hit stopped = omega arith

capture_weight :
    (o : Option CaptureTask)
    → weigh (λ (t : CaptureTask). hit t.status running) o
        + weigh (λ (t : CaptureTask). hit t.status resolving) o
      ≤ 1
capture_weight none = omega arith
capture_weight (some t) = capture_hit t.status

captures-le-holds :
    (h : Map ℕ CaptureTask) (slots : Map ℤ Ptr)
    → tally (has_status h running) slots + tally (has_status h resolving) slots ≤ tally holds slots
unfolding tally
captures-le-holds h [] = omega arith
captures-le-holds h ((id, none) ∷ slots) = omega (arith, captures-le-holds h slots)
captures-le-holds h ((id, some p) ∷ slots) =
    omega (arith, captures-le-holds h slots, capture_weight (find p h))

limit_reached :
    (limit : ℤ) (world : World) (n : ℕ)
    → world.max_concurrent ≡ limit
    → WithinReach limit n
    → get_max_concurrent_limit world ≤ n
unfolding get_max_concurrent_limit
limit_reached (pos zero) world n e h = rw e h.1
limit_reached (pos (suc limit)) world n e h = rw e h.0
limit_reached (negsuc limit) world n e h = rw e h

-- The counters say so.
running_count-eq-captures :
    (t : SafeTaskMgr)
    → IsValid [] t
    → tally holds (current t).slots < 2 ^ 64
    → running_count t ≡ captures t
unfolding running_count get_stats
running_count-eq-captures t v few = omega (
  arith,
  v.good.balanced.counts.counted running,
  v.good.balanced.counts.counted resolving,
  captures-le-holds t.store.heap (current t).slots,
  few,
)

IsFull-limit :
    (world : World) (t : SafeTaskMgr)
    → IsValid [] t
    → IsFull world t
    → leb (get_max_concurrent_limit world) (running_count t) ≡ true
IsFull-limit world t v (reached, few) =
    let le = limit_reached world.max_concurrent world (captures t) refl reached in
    ground (arith, le, running_count-eq-captures t v few)

-- A query for the key finds a task that is pending, resolving or running.
abbrev pub IsTaken : Str → SafeTaskMgr → Type 0
IsTaken key t =
    (snapshot : TaskSnapshot) × (query_task_by_key key t ≡ ok (some snapshot))
    × (is_active_status snapshot.status ≡ true)

abbrev IsSome : {A : Type 0} → Option A → Type 0
IsSome none = ⊥
IsSome (some a) = Unit {0}

module _ (t : SafeTaskMgr) (v : IsValid [] t) (key signature sid : Str)
    (taken : IsTaken key t) where
  check_task_duplicate-IsSome : Returns IsSome (check_task_duplicate key t)
  unfolding check_task_duplicate is_key_active
  check_task_duplicate-IsSome = rw (taken.1, taken.2, taken.1) tt

  key_duplicate-IsSome :
      (o : Option (ℤ × Str)) → IsSome o → Returns IsSome (key_duplicate key sid t o)
  key_duplicate-IsSome none h = absurd h
  key_duplicate-IsSome (some (id, status)) h =
      Returns-bind (λ found. Unit {0}) IsSome (query_if (is_pos id) id t) _
        (query_if-Ends t v (is_pos id) id) (λ found u. tt)

  signature_duplicate-IsSome :
      (o : Option TaskSnapshot) → Returns IsSome (signature_duplicate key sid t o)
  signature_duplicate-IsSome none =
      Returns-bind IsSome IsSome (check_task_duplicate key t) _ check_task_duplicate-IsSome
        key_duplicate-IsSome
  signature_duplicate-IsSome (some snapshot) = tt

  find_duplicate-IsSome : Returns IsSome (find_duplicate key signature sid t)
  unfolding find_duplicate query_active_task_by_signature query_task_by_signature
  find_duplicate-IsSome =
      Returns-bind (λ found. Unit {0}) IsSome (query_active_task_by_signature signature t) _
        (then-Ends (query_task_by_signature signature t) _
          (query_by-Ends t (current t).signature_to_id signature v) (λ found. tt))
        (λ o u. signature_duplicate-IsSome o)

module _ (world : World) (msg : StartCaptureMsg) (key signature sid : Str)
    (matched : List ProcessInfo) (m : Manager) where
  admit-Refused_full :
      (o : Option Duplicate)
      → leb (get_max_concurrent_limit world) (running_count m.task_mgr) ≡ true
      → Returns (Refused msg.reply_target m) (admit world msg key signature sid matched m o)
  unfolding admit create_duplicate_error_reply create_capacity_error_reply
  admit-Refused_full (some d) full =
      reply_refuses msg.reply_target (create_duplicate_error_reply d) m (inl refl)
  admit-Refused_full none full = rw full (
      reply_refuses msg.reply_target (create_capacity_error_reply (get_max_concurrent_limit world))
        m (inr refl))

  admit-Refused_some :
      (o : Option Duplicate)
      → IsSome o
      → Returns (Refused msg.reply_target m) (admit world msg key signature sid matched m o)
  unfolding admit create_duplicate_error_reply
  admit-Refused_some none h = absurd h
  admit-Refused_some (some d) h =
      reply_refuses msg.reply_target (create_duplicate_error_reply d) m (inl refl)

-- A request that comes when as many tasks of the table are running or being resolved as the limit
-- allows, 1 if the limit is not positive, and fewer than 2 ^ 64 slots are filled; or while a task under
-- its key is pending, resolving or running: the handler returns, with the tasks and the next capture id
-- as they were. It sends one reply, with status 409 or 429, to the thread that the request names, and
-- nothing if it names none.
pub handle_start_capture-Refused :
    (world : World) (msg : StartCaptureMsg) (signature sid : Str) (matched : List ProcessInfo)
    (m : Manager)
    → ManagerIsValid m
    → IsFull world m.task_mgr ⊎ IsTaken (generate_task_key msg) m.task_mgr
    → Returns (Refused msg.reply_target m) (handle_start_capture world msg signature sid matched m)
unfolding handle_start_capture
handle_start_capture-Refused world msg signature sid matched m v (inl full) =
    Returns-bind (λ o. Unit {0}) (Refused msg.reply_target m) _ _
      (find_duplicate-Ends m.task_mgr v.tasks (generate_task_key msg) signature sid)
      (λ o u.
        admit-Refused_full world (with_defaults world msg) (generate_task_key msg) signature sid
          matched m o (IsFull-limit world m.task_mgr v.tasks full))
handle_start_capture-Refused world msg signature sid matched m v (inr taken) =
    Returns-bind IsSome (Refused msg.reply_target m) _ _
      (find_duplicate-IsSome m.task_mgr v.tasks (generate_task_key msg) signature sid taken)
      (λ o h.
        admit-Refused_some world (with_defaults world msg) (generate_task_key msg) signature sid
          matched m o h)
