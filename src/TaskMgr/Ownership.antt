-- ===== src/TaskMgr/Ownership.antt =====
-- The manager over any history of calls: memory safety, no leaks, and counters that are a census.
use rxtracenetcap.Prelude.{
  ℕ, zero, suc, ◌%◌, ◌^◌, ◌≤◌, ◌≡◌, refl, ℤ, Bool, true, false, Option, none, some, List, [], ◌∷◌,
  arith, if◌then◌else◌, Str, find, tally, Run, ok, ◌>>=◌, Returns, Returns-bind, nat_eq, int_eq,
}
use rxtracenetcap.Task.{TaskStatus, pending, CaptureTask, CaptureFileInfo, CaptureArchiveInfo}
use rxtracenetcap.TaskTable.{Ptr, Work}
use rxtracenetcap.TaskMgr.{
  SafeTaskMgr, current, work_of, publish, commit, new_safe_task_mgr, new_task, add_task,
  remove_task, CountRule, always, on_change, rewrite_task, rewrite_steps, update_status,
  update_task, update_then_status, set_capture_started, set_capture_finished, set_capture_failed,
  append_capture_files, record_archive, update_progress, cleanup_store, cleanup_pending_deletes,
  no_stats,
}
use rxtracenetcap.TaskMgr.Balance.{Balanced, new_task-Balanced, counter}
use rxtracenetcap.TaskMgr.Steps.{Good, add_steps-Good, remove_and_retire-Good}
use rxtracenetcap.TaskMgr.Rewrite.{rewrite_steps-Good}
use rxtracenetcap.TaskMgr.Deletes.{cleanup_store-Balanced}

-- The invariant of the manager; `ext` are tasks that callers made and have not handed over.
pub record IsValid (ext : List ℕ) (m : SafeTaskMgr) : Type 0 where
  pub curr_le : m.curr ≤ 1
  pub good : Good ext (work_of m)

-- After `publish` and `commit` readers see the table that was written.
pub work_of-publish :
    (m : SafeTaskMgr) (w : Work) (i : ℕ) → m.curr ≡ i → i ≤ 1 → work_of (publish m w) ≡ w
unfolding publish
work_of-publish m w zero e h = rw e
work_of-publish m w (suc zero) e h = rw e
work_of-publish m w (suc (suc i)) e h = absurd (omega arith)

pub work_of-commit : (m : SafeTaskMgr) (w : Work) (i : ℕ) → m.curr ≡ i → work_of (commit m w) ≡ w
unfolding commit
work_of-commit m w zero e = rw e
work_of-commit m w (suc i) e = rw e

publish-IsValid :
    {ext : List ℕ} (ext' : List ℕ) {m : SafeTaskMgr} (w : Work)
    → IsValid ext m
    → Good ext' w
    → IsValid ext' (publish m w)
unfolding publish
publish-IsValid ext' {m} w v g = record {
  curr_le = omega arith;
  good = rw (work_of-publish m w m.curr refl v.curr_le) g;
}

pub add_task-IsValid :
    {ext : List ℕ} {m : SafeTaskMgr} (id : ℤ) (key signature sid : Str) (p : ℕ)
    → IsValid (p ∷ ext) m
    → Returns (λ r. IsValid ext r.1) (add_task id key signature sid (some p) m)
unfolding add_task
add_task-IsValid {ext} {m} id key signature sid p v =
    Returns-bind (Good ext) (λ r. IsValid ext r.1) _ _
      (add_steps-Good p id key signature sid (work_of m) v.good) (λ w g. publish-IsValid ext w v g)

remove_task-IsValid :
    {ext : List ℕ} {m : SafeTaskMgr} (id : ℤ)
    → IsValid ext m
    → Returns (IsValid ext) (remove_task id m)
unfolding remove_task
remove_task-IsValid {ext} {m} id v =
    Returns-bind (Good ext) (IsValid ext) _ _ (remove_and_retire-Good id (work_of m) v.good)
      (λ w g. publish-IsValid ext w v g)

abbrev pub After : List ℕ → Bool × SafeTaskMgr → Type 0
After ext r = IsValid ext r.1

curr-commit : (m : SafeTaskMgr) (w : Work) (i : ℕ) → m.curr ≡ i → (commit m w).curr ≡ m.curr
unfolding commit
curr-commit m w zero e = rw e
curr-commit m w (suc i) e = rw e

pub commit-IsValid :
    {ext : List ℕ} {m : SafeTaskMgr} (w : Work)
    → IsValid ext m
    → Good ext w
    → IsValid ext (commit m w)
unfolding commit
commit-IsValid {ext} {m} w v g = record {
  curr_le = rw (curr-commit m w m.curr refl) v.curr_le;
  good = rw (work_of-commit m w m.curr refl) g;
}

rewrite_task-IsValid :
    {ext : List ℕ} {m : SafeTaskMgr} (rule : CountRule) (f : CaptureTask → CaptureTask) (id : ℤ)
    → IsValid ext m
    → Returns (After ext) (rewrite_task rule f id m)
unfolding rewrite_task
rewrite_task-IsValid {ext} {m} rule f id v = go (find id (current m).slots) refl
  where
    go :
        (found : Option Ptr)
        → find id (current m).slots ≡ found
        → Returns (After ext) (rewrite_task rule f id m)
    go none e = rw (e, rewrite_task) v
    go (some none) e = rw (e, rewrite_task) v
    go (some (some old)) e =
        rw (e, rewrite_task)
          (Returns-bind (Good ext) (After ext) (rewrite_steps rule f id old (work_of m)) _
            (rewrite_steps-Good rule f id old (work_of m) e v.good) (λ w g. commit-IsValid w v g))

pub update_status-IsValid :
    {ext : List ℕ} {m : SafeTaskMgr} (id : ℤ) (s : TaskStatus)
    → IsValid ext m
    → Returns (After ext) (update_status id s m)
unfolding update_status
update_status-IsValid id s v = rewrite_task-IsValid always _ id v

pub update_task-IsValid :
    {ext : List ℕ} {m : SafeTaskMgr} (id : ℤ) (f : CaptureTask → CaptureTask)
    → IsValid ext m
    → Returns (After ext) (update_task id f m)
unfolding update_task
update_task-IsValid id f v = rewrite_task-IsValid on_change f id v

pub update_then_status-IsValid :
    {ext : List ℕ} {m : SafeTaskMgr} (id : ℤ) (f : CaptureTask → CaptureTask) (s : TaskStatus)
    → IsValid ext m
    → Returns (After ext) (update_then_status id f s m)
unfolding update_then_status
update_then_status-IsValid {ext} {m} id f s v =
    Returns-bind (After ext) (After ext) (update_task id f m) _ (update_task-IsValid id f v) go
  where
    go :
        (r : Bool × SafeTaskMgr)
        → After ext r
        → Returns (After ext) (
            let after = update_status id s r.1 in
            if r.0 then (do (_, m₂) ← after; ok (true, m₂)) else ok (false, r.1))
    go (true, m₁) h =
        Returns-bind (After ext) (After ext) (update_status id s m₁) _
          (update_status-IsValid id s h) (λ r k. k)
    go (false, m₁) h = h

pub cleanup-IsValid :
    {ext : List ℕ} {m : SafeTaskMgr}
    → IsValid ext m
    → Returns (IsValid ext) (cleanup_pending_deletes m)
unfolding cleanup_pending_deletes
cleanup-IsValid {ext} {m} v =
    Returns-bind (Balanced ext (current m).slots) (IsValid ext) (cleanup_store m.store) _
      (cleanup_store-Balanced v.good.balanced)
      (λ s b. record {
        curr_le = v.curr_le;
        good = record { mapped = v.good.mapped; balanced = b };
      })

-- A call on the manager. A caller of `add_task` first allocates the task that it hands over.
pub data Call : Type 0 where
  adds : ℤ → Str → Str → Str → CaptureTask → Call
  removes : ℤ → Call
  sets_status : ℤ → TaskStatus → Call
  updates : ℤ → (CaptureTask → CaptureTask) → Call
  starts : ℤ → ℤ → ℤ → Str → Call
  finishes : ℤ → ℤ → ℕ → ℕ → Str → Call
  fails : ℤ → ℤ → Str → Call
  progresses : ℤ → ℕ → ℕ → ℤ → Call
  appends : ℤ → List CaptureFileInfo → Call
  archives : ℤ → CaptureArchiveInfo → Call
  cleans : Call

abbrev drop_flag : Run (Bool × SafeTaskMgr) → Run SafeTaskMgr
drop_flag r = r >>= λ p. ok p.1

create : ℤ → Str → Str → Str → CaptureTask → SafeTaskMgr → Run SafeTaskMgr
create id key signature sid task m =
    let (p, s) = new_task task m.store in
    drop_flag (add_task id key signature sid (some p) (record m { store = s }))

unfoldable pub step : Call → SafeTaskMgr → Run SafeTaskMgr
unfolding create
step (adds id key signature sid task) m = create id key signature sid task m
step (removes id) m = remove_task id m
step (sets_status id s) m = drop_flag (update_status id s m)
step (updates id f) m = drop_flag (update_task id f m)
step (starts id ts pid file) m = drop_flag (set_capture_started id ts pid file m)
step (finishes id ts packets bytes path) m =
    drop_flag (set_capture_finished id ts packets bytes path m)
step (fails now id message) m = drop_flag (set_capture_failed now id message m)
step (progresses id packets bytes ts) m = drop_flag (update_progress id packets bytes ts m)
step (appends id files) m = drop_flag (append_capture_files id files m)
step (archives id archive) m = drop_flag (record_archive id archive m)
step cleans m = cleanup_pending_deletes m

unfoldable pub run : List Call → SafeTaskMgr → Run SafeTaskMgr
run [] m = ok m
run (c ∷ cs) m = step c m >>= run cs

drop_flag-IsValid :
    (ext : List ℕ) (r : Run (Bool × SafeTaskMgr))
    → Returns (After ext) r
    → Returns (IsValid ext) (drop_flag r)
drop_flag-IsValid ext r h = Returns-bind (After ext) (IsValid ext) r _ h (λ p k. k)

pub new_task-IsValid :
    {ext : List ℕ} {m : SafeTaskMgr} (task : CaptureTask)
    → IsValid ext m
    → IsValid (m.store.next_addr ∷ ext) (record m { store = (new_task task m.store).1 })
new_task-IsValid task v = record {
  curr_le = v.curr_le;
  good = record { mapped = v.good.mapped; balanced = new_task-Balanced task v.good.balanced };
}

create-IsValid :
    {ext : List ℕ} {m : SafeTaskMgr} (id : ℤ) (key signature sid : Str) (task : CaptureTask)
    → IsValid ext m
    → Returns (IsValid ext) (create id key signature sid task m)
unfolding create new_task
create-IsValid {ext} {m} id key signature sid task v =
    drop_flag-IsValid ext _
      (add_task-IsValid id key signature sid m.store.next_addr (new_task-IsValid task v))

pub step-IsValid :
    {ext : List ℕ} {m : SafeTaskMgr} (c : Call) → IsValid ext m → Returns (IsValid ext) (step c m)
unfolding step set_capture_started set_capture_finished set_capture_failed update_progress
    record_archive append_capture_files
step-IsValid (adds id key signature sid task) v = create-IsValid id key signature sid task v
step-IsValid (removes id) v = remove_task-IsValid id v
step-IsValid (sets_status id s) v = drop_flag-IsValid _ _ (update_status-IsValid id s v)
step-IsValid (updates id f) v = drop_flag-IsValid _ _ (update_task-IsValid id f v)
step-IsValid (starts id ts pid file) v = drop_flag-IsValid _ _ (update_then_status-IsValid id _ _ v)
step-IsValid (finishes id ts packets bytes path) v =
    drop_flag-IsValid _ _ (update_then_status-IsValid id _ _ v)
step-IsValid (fails now id message) v = drop_flag-IsValid _ _ (update_then_status-IsValid id _ _ v)
step-IsValid (progresses id packets bytes ts) v = drop_flag-IsValid _ _ (update_task-IsValid id _ v)
step-IsValid (appends id []) v = v
step-IsValid (appends id (f ∷ fs)) v = drop_flag-IsValid _ _ (update_task-IsValid id _ v)
step-IsValid (archives id archive) v = drop_flag-IsValid _ _ (update_task-IsValid id _ v)
step-IsValid cleans v = cleanup-IsValid v

-- No history of calls reads, copies or frees a dead task: each call returns, and the manager is
-- valid again.
pub run-IsValid :
    {ext : List ℕ} {m : SafeTaskMgr} (cs : List Call)
    → IsValid ext m
    → Returns (IsValid ext) (run cs m)
unfolding run
run-IsValid [] v = v
run-IsValid {ext} {m} (c ∷ cs) v =
    Returns-bind (IsValid ext) (IsValid ext) (step c m) (run cs) (step-IsValid c v)
      (λ m' v'. run-IsValid cs v')

pub new-IsValid : IsValid [] new_safe_task_mgr
unfolding new_safe_task_mgr find tally
new-IsValid = record {
  curr_le = omega arith;
  good = record {
    mapped = record { slots_uniq = tt; keys_uniq = tt; signatures_uniq = tt; sids_uniq = tt };
    balanced = record {
      owns = record { heap_uniq = tt; fresh = λ a h. refl; owned = λ a. refl };
      counts = record { counted = census_zero; totalled = refl };
    };
  };
}
  where
    census_zero : (r : TaskStatus) → counter r no_stats ≡ 0 % 2 ^ 64
    census_zero pending = refl
    census_zero _ = refl

-- Whatever calls the manager gets from its construction on, each of them returns: no task is read,
-- copied or freed after its `delete`. Afterwards every task on the heap is held by exactly one slot
-- of the current table or one entry of `_pending_deletes`, neither holds any other pointer, and each
-- counter is the number of slots whose task has that status, modulo 2 ^ 64.
pub run_new-IsValid : (cs : List Call) → Returns (IsValid []) (run cs new_safe_task_mgr)
run_new-IsValid cs = run-IsValid cs new-IsValid
