-- ===== src/Pool.antt =====
-- `ThreadPool` (kvcluster/raft/threadpool.hpp): a queue of tasks, and workers that take them in turn.
-- A worker's wait ends with `wake`; that of the other threads stands between the calls.
use raft_drive.Prelude.{
  ℕ, ◌-◌, ◌≡◌, refl, sym, ap, ◌∙◌, Bool, true, false, List, [], ◌∷◌, ◌++◌, append_assoc, arith,
  Bool-cases, inl, inr,
}

pub record Pool (T : Type 0) : Type 0 where
  pub workers : ℕ
  pub tasks : List T
  pub stop : Bool

-- The constructor: the workers start, the queue is empty.
unfoldable pub new_pool : {T : Type 0} → ℕ → Pool T
new_pool threads = record { workers = threads; tasks = []; stop = false }

unfoldable pub pool_enqueue : {T : Type 0} → T → Pool T → Pool T
pool_enqueue t p = record p { tasks = p.tasks ++ t ∷ [] }

-- `shutdown` and the destructor, up to the joins.
unfoldable pub shutdown : {T : Type 0} → Pool T → Pool T
shutdown p = record p { stop = true }

-- A round of a worker's loop: it waits on, takes the task at the front, or ends.
pub data Wake (T : Type 0) : Type 0 where
  waits_on : Wake T
  takes : T → Pool T → Wake T
  ends : Pool T → Wake T

abbrev wake_on : {T : Type 0} → List T → Pool T → Wake T
wake_on [] p = elim p.stop [ true ↦ ends (record p { workers = p.workers - 1 }) | false ↦ waits_on ]
wake_on (t ∷ ts) p = takes t (record p { tasks = ts })

unfoldable pub wake : {T : Type 0} → Pool T → Wake T
wake p = wake_on p.tasks p

-- What the threads do to a pool, in any order: `given` are the tasks that were enqueued, `taken` those
-- that a worker took, both in their order.
pub data Run {T : Type 0} (threads : ℕ) : Pool T → List T → List T → Type 0 where
  started : Run threads (new_pool threads) [] []
  enqueued :
      {p : Pool T} {given taken : List T} (t : T)
      → Run threads p given taken
      → Run threads (pool_enqueue t p) (given ++ t ∷ []) taken
  stopped :
      {p : Pool T} {given taken : List T}
      → Run threads p given taken
      → Run threads (shutdown p) given taken
  took :
      {p q : Pool T} {given taken : List T} (t : T)
      → Run threads p given taken
      → wake p ≡ takes t q
      → Run threads q given (taken ++ t ∷ [])
  ended :
      {p q : Pool T} {given taken : List T}
      → Run threads p given taken
      → wake p ≡ ends q
      → Run threads q given taken

-- A task that is taken was at the front.
wake_on-takes :
    {T : Type 0} (ts : List T) (p q : Pool T) (t : T) → wake_on ts p ≡ takes t q → ts ≡ t ∷ q.tasks
wake_on-takes [] p q t h = elim (Bool-cases p.stop) [
  | inl halted ↦ cc (rw halted at h)
  | inr going ↦ cc (rw going at h)
]
wake_on-takes (u ∷ ts) p q t h = ground arith

-- A worker ends on an empty queue, after a stop, and leaves the queue as it is.
wake_on-ends : {T : Type 0} (ts : List T) (p q : Pool T) → wake_on ts p ≡ ends q → q.tasks ≡ p.tasks
wake_on-ends [] p q h = elim (Bool-cases p.stop) [
  | inl halted ↦ cc (rw halted at h)
  | inr going ↦ cc (rw going at h)
]
wake_on-ends (u ∷ ts) p q h = cc

-- Over any history of a pool, the tasks that were enqueued are those that the workers took, in the
-- same order, and behind them those in the queue: none is lost, run twice or run before an earlier
-- one is taken.
pub taken_in_order :
    {T : Type 0} {threads : ℕ} {p : Pool T} {given taken : List T}
    → Run threads p given taken
    → given ≡ taken ++ p.tasks
unfolding new_pool pool_enqueue shutdown wake
taken_in_order started = refl
taken_in_order (enqueued {p} {given} {taken} t r) =
    ap (λ ts. ts ++ t ∷ []) (taken_in_order r) ∙ append_assoc taken p.tasks (t ∷ [])
taken_in_order (stopped r) = taken_in_order r
taken_in_order (took {p} {q} {given} {taken} t r h) =
    taken_in_order r
    ∙ (ap (◌++◌ taken) (wake_on-takes p.tasks p q t h) ∙ sym (append_assoc taken (t ∷ []) q.tasks))
taken_in_order (ended {p} {q} {given} {taken} r h) =
    taken_in_order r ∙ ap (◌++◌ taken) (sym (wake_on-ends p.tasks p q h))
