-- ===== src/Raft/Invariant/Starts.antt =====
-- A node that starts satisfies the invariant (`Raft::Raft`, kvcluster/raft/raft.cpp).
use raft_drive.Prelude.{
  ℕ, ◌+◌, ◌^◌, ◌<◌, ◌≡◌, [], ◌∷◌, some, arith, >>=-eq-some, eq_of_some-eq, length, length-replicate,
  Bytes, bytes, minus_one, ℤ, pos, subst,
}
use raft_drive.Json.{JsonLib, value_num, members, find_field}
use raft_drive.Raft.Types.{ApplyChannel}
use raft_drive.Raft.State.{Node, Env, Persister, read_raft_state}
use raft_drive.Raft.Persist.{read_persist, read_persisted, log_items, read_entries}
use raft_drive.Raft.Roles.{init, fresh_node}
use raft_drive.Raft.Invariant.{IsValid}

-- What `helperReadPersist` leaves alone.
record Blank (n : Node) : Type 0 where
  commit : n.commit_index ≡ 0
  next_length : length n.next_index ≡ n.peers
  match_length : length n.match_index ≡ n.peers

module _ ⦃json : JsonLib⦄ where
  read_persisted-IsValid :
      (state : Bytes) (n : Node) {m : Node}
      → Blank n
      → read_persisted state n ≡ some m
      → m.last_included_index + length m.logs < 2 ^ 64
      → IsValid m
  read_persisted-IsValid [] n b e fits =
      subst (λ m. m.last_included_index + length m.logs < 2 ^ 64 → IsValid m) (eq_of_some-eq e)
        (λ room. omega (arith, b, room)) fits
  read_persisted-IsValid (x ∷ xs) n b e fits =
      let (j, e1, d1) = >>=-eq-some (json.parse (x ∷ xs)) _ e in
      let (t, e2, d2) = >>=-eq-some (value_num (bytes "Term") (pos 0) j) _ d1 in
      let (v, e3, d3) = >>=-eq-some (value_num (bytes "VotedFor") minus_one j) _ d2 in
      let (fs, e4, d4) = >>=-eq-some (members j) _ d3 in
      let (es, e5, d5) =
        >>=-eq-some (read_entries (log_items (find_field (bytes "Log") fs))) _ d4 in
      subst (λ m. m.last_included_index + length m.logs < 2 ^ 64 → IsValid m) (eq_of_some-eq d5)
        (λ room. omega (arith, b, room)) fits

  -- The constructor, on any persister: if it returns, and the indices of the log that it has read are
  -- words, the node satisfies the invariant.
  pub init-IsValid :
      (id : ℤ) (peers : ℕ) (persister : Persister) (channel : ApplyChannel) (env : Env) {n : Node}
      → init id peers persister channel env ≡ some n
      → n.last_included_index + length n.logs < 2 ^ 64
      → IsValid n
  unfolding init read_persist
  init-IsValid id peers persister channel env e fits =
      read_persisted-IsValid (read_raft_state persister) (fresh_node id peers persister channel env)
        (omega (arith, length-replicate {A = ℕ} peers 0)) e fits
