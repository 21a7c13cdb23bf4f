-- ===== src/TaskMgr/Added.antt =====
-- What readers see of a task after `add_task`.
use rxtracenetcap.Prelude.{
  ℕ, ◌≡◌, refl, sym, ◌∙◌, subst, ℤ, true, false, Option, some, List, ◌∷◌, Map, Str, is_empty, find,
  assign, find-assign_self, Run, ok, ◌>>=◌, Returns, Returns-bind, Returns-both, IfReturns,
  IfReturns-bind, nat_eq, int_eq, str_eq,
}
use rxtracenetcap.Task.{CaptureTask, is_active_status}
use rxtracenetcap.TaskTable.{
  Ptr, Heap, TaskTable, Work, TaskSnapshot, snapshot_of, table_add_task, query_by,
}
use rxtracenetcap.TaskTable
use rxtracenetcap.TaskMgr.{
  SafeTaskMgr, work_of, count_in, add_steps, add_task, query_task, query_task_by_key,
  query_task_by_signature, query_task_by_sid,
}
use rxtracenetcap.TaskMgr.Steps.{Good, add_steps-Good}
use rxtracenetcap.TaskMgr.Updates.{query_found}
use rxtracenetcap.TaskMgr.Ownership.{IsValid, work_of-publish}
use rxtracenetcap.TaskMgr.Lookup.{SameHeap, heap-vacate, heap-evict}

query_by_found :
    (h : Heap) (t : TaskTable) (index : Map Str ℤ) (name : Str) (id : ℤ)
    (found : Option TaskSnapshot)
    → find name index ≡ some id
    → TaskTable.query_task h t id ≡ ok found
    → query_by h t index name ≡ ok found
unfolding query_by
query_by_found h t index name id found e shown = rw (e, query_by) shown

-- Queries by id, by key, and by a signature or sid that is not empty find this task.
pub record Finds (id : ℤ) (key signature sid : Str) (task : CaptureTask) (h : Heap) (t : TaskTable)
    : Type 0 where
  pub by_id : TaskTable.query_task h t id ≡ ok (some (snapshot_of task))
  pub by_key : query_by h t t.key_to_id key ≡ ok (some (snapshot_of task))
  pub by_signature :
      is_empty signature ≡ false
      → is_active_status task.status ≡ true
      → query_by h t t.signature_to_id signature ≡ ok (some (snapshot_of task))
  pub by_sid : is_empty sid ≡ false → query_by h t t.sid_to_id sid ≡ ok (some (snapshot_of task))

module _ (id : ℤ) (key signature sid : Str) (p : ℕ) (task : CaptureTask) where
  abbrev FindsIn : Work → Type 0
  FindsIn w =
      Finds id key signature sid (record task { signature = signature; sid = sid }) w.store.heap
        w.table

  enlist-FindsIn :
      (w : Work)
      → find p w.store.heap ≡ some task
      → IfReturns FindsIn (table_add_task id key signature sid p w >>= count_in p)
  unfolding table_add_task count_in
  enlist-FindsIn w live =
      let task' : CaptureTask = record task { signature = signature; sid = sid } in
      let memory : find p (assign p task' w.store.heap) ≡ some task' =
        find-assign_self p task' w.store.heap in
      rw live (
        rw (find-assign_self p task' w.store.heap) (
          let by_id =
            query_found _ _ id p task' (find-assign_self id (some p) w.table.slots) memory in
          record {
            by_id = by_id;
            by_key =
                query_by_found _ _ _ key id _ (find-assign_self key id w.table.key_to_id) by_id;
            by_signature = λ named active.
                query_by_found _ _ _ signature id _
                  (rw (named, active) (find-assign_self signature id w.table.signature_to_id))
                  by_id;
            by_sid = λ named.
                query_by_found _ _ _ sid id _ (rw named (find-assign_self sid id w.table.sid_to_id))
                  by_id;
          }))

  add_steps-FindsIn :
      (w : Work)
      → find p w.store.heap ≡ some task
      → IfReturns FindsIn (add_steps id key signature sid p w)
  unfolding add_steps
  add_steps-FindsIn w live = IfReturns-bind (SameHeap w) FindsIn _ _ (heap-vacate id w) λ w₁ h₁.
      IfReturns-bind (SameHeap w₁) FindsIn _ _ (heap-evict _ id w₁) λ w₂ h₂.
        IfReturns-bind (SameHeap w₂) FindsIn _ _ (heap-evict _ id w₂) λ w₃ h₃.
          IfReturns-bind (SameHeap w₃) FindsIn _ _ (heap-evict _ id w₃)
            λ w₄ h₄. enlist-FindsIn w₄ (rw (h₄ ∙ h₃ ∙ h₂ ∙ h₁) live)

-- A task that the caller owns and hands to `add_task`, with an active status and under a signature
-- and a sid that are not empty: the call returns `true`, and queries by the id, the key, the
-- signature and the sid all find this task, with the signature and sid of the call.
pub add_task-query_task :
    (ext : List ℕ) (m : SafeTaskMgr) (id : ℤ) (key signature sid : Str) (p : ℕ) (task : CaptureTask)
    → IsValid (p ∷ ext) m
    → find p m.store.heap ≡ some task
    → is_empty signature ≡ false
    → is_active_status task.status ≡ true
    → is_empty sid ≡ false
    → let found : Run (Option TaskSnapshot) =
        ok (some (snapshot_of (record task { signature = signature; sid = sid }))) in
      Returns
        (λ r.
          (r.0 ≡ true)
          × (query_task id r.1 ≡ found)
          × (query_task_by_key key r.1 ≡ found)
          × (query_task_by_signature signature r.1 ≡ found)
          × (query_task_by_sid sid r.1 ≡ found))
        (add_task id key signature sid (some p) m)
unfolding add_task query_task query_task_by_key query_task_by_signature query_task_by_sid
add_task-query_task ext m id key signature sid p task v live signed active named =
    Returns-bind (λ w. Good ext w × FindsIn id key signature sid p task w) _
      (add_steps id key signature sid p (work_of m)) _
      (Returns-both (Good ext) (FindsIn id key signature sid p task)
        (add_steps id key signature sid p (work_of m))
        (add_steps-Good p id key signature sid (work_of m) v.good)
        (add_steps-FindsIn id key signature sid p task (work_of m) live))
      (λ w h.
        let shown =
          subst (FindsIn id key signature sid p task)
            (sym (work_of-publish m w m.curr refl v.curr_le)) h.1 in
        (refl, shown.by_id, shown.by_key, shown.by_signature signed active, shown.by_sid named))
