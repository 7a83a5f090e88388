-- ===== src/Raft/Cluster/Restarts.antt =====
-- A node of a cluster that stops and starts again keeps what holds of it (`Raft::Raft`,
-- kvcluster/raft/raft.cpp).
use raft_drive.Prelude.{
  ℕ, ◌^◌, ◌≤◌, ◌<◌, ◌≡◌, refl, sym, ap, subst, ◌∙◌, true, [], some, pos, drop, IsInt, arith,
  eq_of_some-eq,
}
use raft_drive.Json.{JsonLib}
use raft_drive.Raft.Types.{ApplyChannel}
use raft_drive.Raft.State.{Node, Env, follower}
use raft_drive.Raft.Persist.{persist, state_json}
use raft_drive.Raft.Roles.{init, fresh_node}
use raft_drive.Raft.Restart.{storable, read_persist-persist}
use raft_drive.Raft.Durable.{Persisted}
use raft_drive.Raft.Ballot.{vote_queue}
use raft_drive.Raft.Ballot.Asking.{AllAsk, nobody, asks}
use raft_drive.Raft.Cluster.{idle, Member}
use raft_drive.Raft.Cluster.Sound.{Sound, load}

-- What elections read of a node that has started again.
pub record Restarted (peers i : ℕ) (n m : Node) : Type 0 where
  pub id : m.id ≡ pos i
  pub size : m.peers ≡ peers
  pub current_term : m.current_term ≡ n.current_term
  pub voted_for : m.voted_for ≡ n.voted_for
  pub state : m.state ≡ follower
  pub tasks : m.tasks ≡ []

pub Sound-Restarted :
    {peers i : ℕ} (x : Member) (m : Node)
    → Restarted peers i x.node m
    → Sound peers i x
    → Sound peers i (record x { node = m; calls = λ t j. idle })
Sound-Restarted {peers} {i} x m r s = record {
  id = r.id;
  size = r.size;
  vote = ap x.votes r.current_term ∙ (s.vote ∙ sym r.voted_for);
  no_vote = λ t lt. s.no_vote t (omega (arith, r.current_term));
  no_load = λ t j lt. omega (arith, lighter t j, s.no_load t j (omega (arith, r.current_term)));
  once = λ t j. omega (arith, lighter t j, s.once t j);
  not_itself = λ t. omega (arith, lighter t i, s.not_itself t);
  all_ask = subst (λ ts. AllAsk (pos i) peers (vote_queue ts)) (sym r.tasks) nobody;
  asked_well = λ t j args h. absurd (cc h);
  own_vote = λ up. absurd (up r.state);
  support = λ up. absurd (up r.state);
  majority = λ leads. absurd (cc (leads, r.state));
}
  where
    lighter : (t j : ℕ) → load (record x { node = m; calls = λ t j. idle }) t j ≤ load x t j
    lighter t j = omega (arith, ap (λ ts. asks t j (vote_queue ts)) r.tasks)

module _ ⦃json : JsonLib⦄ where
  pub persist-raftstate : (m : Node) → (persist m).persister.raftstate ≡ json.dump (state_json m)
  unfolding persist
  persist-raftstate m = refl

  pub init-Restarted :
      {peers : ℕ} (i : ℕ) (env : Env) (channel : ApplyChannel) (n : Node) {m : Node}
      → Persisted n
      → storable json.is_text (drop 1 n.logs) ≡ true
      → n.current_term < 2 ^ 32
      → IsInt n.voted_for
      → init (pos i) peers n.persister channel env ≡ some m
      → Restarted peers i n m
  unfolding init
  init-Restarted {peers} i env channel n h texts term vote e =
      let read =
        read_persist-persist n (fresh_node (pos i) peers n.persister channel env) texts term vote
          (h.state ∙ sym (persist-raftstate n)) in
      subst (λ m. Restarted peers i n m) (eq_of_some-eq (sym read ∙ e))
        (record {
          id = refl;
          size = refl;
          current_term = refl;
          voted_for = refl;
          state = refl;
          tasks = refl;
        })
