-- ===== src/Raft/Ballot.antt =====
-- The term and the vote of a node over its history.
pub mod Defs
pub mod Frames
pub mod Moves
pub mod Asking
pub mod Rounds
pub use Defs.*
use raft_drive.Prelude.{
  ℕ, ◌+◌, ◌^◌, ◌≤◌, ◌<◌, ◌≡◌, refl, ◌≢◌, ◌⊎◌, inl, inr, Bool, true, false, arith, minus_one,
}
use raft_drive.Json.{JsonLib}
use raft_drive.Raft.Types.{RequestVoteReply, ApplyChannel}
use raft_drive.Raft.State.{Node, Env}
use raft_drive.Raft.Roles.{kill, on_vote_reply}
use raft_drive.Raft.Step.{
  Step, append_called, vote_called, install_called, vote_replied, append_replied, append_accepted,
  append_refused, install_replied, client_started, snapshot_taken, round, killed, task_taken,
  channel_read, is_local, History, here, later,
}
use raft_drive.Raft.Ballot.Moves.{
  request_vote-Calm, install_snapshot-Calm, start-SameBallot, append_entries-Calm,
  on_append_reply-Calm, on_append_success-SameBallot, on_append_reject-SameBallot,
  on_install_reply-Calm, snapshot-SameBallot,
}
use raft_drive.Raft.Ballot.Rounds.{main_round-Turn, Turn-Ballot}

kill-SameBallot : (n : Node) → SameBallot n (kill n)
unfolding kill
kill-SameBallot n = ground arith

channel_read-SameBallot :
    (n : Node) (c : ApplyChannel) → SameBallot n (record n { apply_channel = c })
channel_read-SameBallot n c = ground arith

module _ ⦃json : JsonLib⦄ where
  pub on_vote_reply-Ballot :
      (env : Env) (reply : RequestVoteReply) (n : Node) → Ballot n (on_vote_reply env reply n)
  unfolding on_vote_reply
  on_vote_reply-Ballot env reply n = ground arith

  pub Step-Calm : {n m : Node} (s : Step n m) → is_local s ≡ true → Calm n m
  Step-Calm {n} (append_called env args reply h) e = append_entries-Calm env args reply n h
  Step-Calm {n} (vote_called env args h) e = request_vote-Calm env args n h
  Step-Calm {n} (install_called env args reply) e = install_snapshot-Calm env args reply n
  Step-Calm {n} (vote_replied env reply) e = absurd (cc e)
  Step-Calm {n} (append_replied env id started args reply h) e =
      on_append_reply-Calm env id started args reply n h
  Step-Calm {n} (append_accepted id args h) e =
      Calm-of_same (on_append_success-SameBallot id args n h)
  Step-Calm {n} (append_refused id reply h) e =
      Calm-of_same (on_append_reject-SameBallot id reply n h)
  Step-Calm {n} (install_replied env id reply h) e = on_install_reply-Calm env id reply n h
  Step-Calm {n} (client_started command) e = Calm-of_same (start-SameBallot command n)
  Step-Calm {n} (snapshot_taken index content h) e =
      Calm-of_same (snapshot-SameBallot index content n h)
  Step-Calm {n} (round env head h) e = absurd (cc e)
  Step-Calm {n} killed e = Calm-of_same (kill-SameBallot n)
  Step-Calm {n} (task_taken t rest h) e = absurd (cc e)
  Step-Calm {n} (channel_read c) e = Calm-of_same (channel_read-SameBallot n c)

  -- Every step of a node whose term is below the largest `uint32_t` raises the term, or keeps it and
  -- with it the vote, unless there was none.
  Step-Ballot : {n m : Node} → n.current_term + 1 < 2 ^ 32 → Step n m → Ballot n m
  Step-Ballot {n} room (vote_called env args h) = (request_vote-Calm env args n h).ballot
  Step-Ballot {n} room (vote_replied env reply) = on_vote_reply-Ballot env reply n
  Step-Ballot {n} room (round env head h) = Turn-Ballot (main_round-Turn env head n room h)
  Step-Ballot {n} room (task_taken t rest h) = inr (refl, inr refl)
  Step-Ballot {n} room (append_called env args reply h) =
      (append_entries-Calm env args reply n h).ballot
  Step-Ballot {n} room (install_called env args reply) =
      (install_snapshot-Calm env args reply n).ballot
  Step-Ballot {n} room (append_replied env id started args reply h) =
      (on_append_reply-Calm env id started args reply n h).ballot
  Step-Ballot {n} room (append_accepted id args h) =
      (Step-Calm {n = n} (append_accepted id args h) refl).ballot
  Step-Ballot {n} room (append_refused id reply h) =
      (Step-Calm {n = n} (append_refused id reply h) refl).ballot
  Step-Ballot {n} room (install_replied env id reply h) =
      (on_install_reply-Calm env id reply n h).ballot
  Step-Ballot {n} room (client_started command) =
      (Step-Calm {n = n} (client_started command) refl).ballot
  Step-Ballot {n} room (snapshot_taken index content h) =
      (Step-Calm {n = n} (snapshot_taken index content h) refl).ballot
  Step-Ballot {n} room killed = (Step-Calm {n = n} killed refl).ballot
  Step-Ballot {n} room (channel_read c) = (Step-Calm {n = n} (channel_read c) refl).ballot

  History-Ballot : {n m : Node} → History n m → Ballot n m
  History-Ballot here = inr (refl, inr refl)
  History-Ballot {n} {m = k} (later {m} h room s) =
      Ballot-trans n m k (History-Ballot h) (Step-Ballot room s)

  -- Over any history of handlers, replies, rounds of the thread and calls of the client, in any order,
  -- in which the term stays below the largest `uint32_t`, the term never goes back.
  pub term_mono : {n m : Node} → History n m → n.current_term ≤ m.current_term
  term_mono h = omega (arith, History-Ballot h)

  -- Over any history of handlers, replies, rounds of the thread and calls of the client, in any order,
  -- in which the term stays below the largest `uint32_t`: a node that has voted in a term has the same
  -- vote for as long as it is in that term.
  pub one_vote_per_term :
      {n m : Node}
      → History n m
      → n.voted_for ≢ minus_one
      → m.current_term ≡ n.current_term
      → m.voted_for ≡ n.voted_for
  one_vote_per_term h voted same = elim (History-Ballot h) [
    | inl newer ↦ absurd (omega arith)
    | inr (_, inl fresh) ↦ absurd (voted fresh)
    | inr (_, inr kept) ↦ kept
  ]
