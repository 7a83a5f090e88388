-- ===== src/Raft/Invariant/Valid.antt =====
-- A round of the thread keeps the invariant (kvcluster/raft/raft.cpp).
use raft_drive.Prelude.{
  ℕ, ◌+◌, ◌≡◌, refl, subst, Bool, true, false, some, arith, if◌then◌else◌, length, length-replicate,
  eq_of_some-eq, u64, Option,
}
use raft_drive.Json.{JsonLib}
use raft_drive.Raft.State.{Node, Env, State, Task}
use raft_drive.Raft.Persist.{persist}
use raft_drive.Raft.Roles.{
  enqueue, open_election, promote_to_candidate, promote_to_leader, last_log_index,
}
use raft_drive.Raft.Loop.{main_round}
use raft_drive.Raft.Invariant.{IsValid}
use raft_drive.Raft.Invariant.Rounds.{main_round-keeps}

pub IsValid-eq : {n m : Node} → some n ≡ some m → IsValid n → IsValid m
IsValid-eq e v = subst IsValid (eq_of_some-eq e) v

enqueue-IsValid : (t : Task) (n : Node) → IsValid n → IsValid (enqueue t n)
enqueue-IsValid t n v = omega (arith, v)

promote_to_leader-IsValid : (n : Node) → IsValid n → IsValid (promote_to_leader n)
unfolding promote_to_leader
promote_to_leader-IsValid n v = omega (
  arith,
  v,
  length-replicate (length n.next_index) (u64 (last_log_index n + 1)),
  length-replicate {A = ℕ} (length n.match_index) 0,
)

promote_to_candidate-IsValid : (n : Node) → IsValid n → IsValid (promote_to_candidate n)
unfolding promote_to_candidate
promote_to_candidate-IsValid n v = omega (arith, v)

idle-IsValid : (n : Node) → IsValid n → IsValid (record n { new_log_arrive = false })
idle-IsValid n v = omega (arith, v)

-- Behind a guard that leaves the node as it is.
pub behind_guard :
    (b : Bool) {n m : Node} {x : Option Node}
    → (if b then some n else x) ≡ some m
    → IsValid n
    → (b ≡ false → x ≡ some m → IsValid m)
    → IsValid m
behind_guard true h v f = IsValid-eq h v
behind_guard false h v f = f refl h

module _ ⦃json : JsonLib⦄ where
  open_election-IsValid : (env : Env) (n : Node) → IsValid n → IsValid (open_election env n)
  unfolding open_election persist
  open_election-IsValid env n v = omega (arith, v)

  pub main_round-IsValid :
      (env : Env) (head : State) (n : Node) {m : Node}
      → main_round env head n ≡ some m
      → IsValid n
      → IsValid m
  main_round-IsValid =
      main_round-keeps IsValid enqueue-IsValid promote_to_candidate-IsValid
        promote_to_leader-IsValid idle-IsValid open_election-IsValid
