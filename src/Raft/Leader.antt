-- ===== src/Raft/Leader.antt =====
-- What a leader does (kvcluster/raft/raft.cpp): `broadcastAppendEntries`, its lambda for the replies,
-- `helperUpdateLeaderCommitIndex` and `helperTriggerInstallSnapshot`.
use raft_drive.Prelude.{
  ℕ, zero, suc, ◌+◌, ◌-◌, Bool, true, false, not, ◌&&◌, ◌||◌, List, [], ◌∷◌, Option, none, some,
  ◌>>=◌, if◌then◌else◌, ltb, leb, ◌==◌, max, length, get_elem?, set, drop, ℤ, pos, int_eq, u64,
  sub64, to_int,
}
use raft_drive.Json.{JsonLib}
use raft_drive.Raft.Types.{LogEntry, AppendEntriesArgs, AppendEntriesReply, InstallSnapshotReply}
use raft_drive.Raft.State.{
  send_append_entries, send_install_snapshot, Node, Env, is_leader_state, log_term, relative_index,
  is_majority, read_snapshot,
}
use raft_drive.Raft.Roles.{step_down, last_log_index, enqueue}
use raft_drive.Raft.Append.{apply_committed}

-- `helperNeedsSnapshot`.
unfoldable pub needs_snapshot : ℕ → Node → Bool
needs_snapshot next n = leb next n.last_included_index

unfoldable pub trigger_install_snapshot : ℕ → Node → Node
unfolding read_snapshot
trigger_install_snapshot id n =
    if n.dead || not (is_leader_state n.state)
    then n
    else enqueue
        (send_install_snapshot id (record {
          term = n.current_term;
          leader_id = n.id;
          last_included_index = n.last_included_index;
          last_included_term = n.last_included_term;
          offset = pos 0;
          content = read_snapshot n.persister;
          done = true;
        }))
        n

-- `for (size_t i = relNextIndex; i < m_logs.size(); i++) if (i > 0) …`, over the entries from `i` on:
-- the entries to send, and `lastAbsIndexSent`.
unfoldable pub collect_entries : ℕ → ℕ → List LogEntry → ℕ → List LogEntry × ℕ
collect_entries included i [] last = ([], last)
collect_entries included i (e ∷ es) last =
    let sends = ltb 0 i in
    let rest =
      collect_entries included (i + 1) es (if sends then max last (u64 (i + included)) else last) in
    (if sends then e ∷ rest.0 else rest.0, rest.1)

-- The arguments for one peer, from its `m_nextindex`.
unfoldable pub build_append_entries : ℕ → Node → Option (AppendEntriesArgs × ℕ)
build_append_entries next n =
    let prev = sub64 next 1 in
    let rel_next = relative_index n next in
    let sent = collect_entries n.last_included_index rel_next (drop rel_next n.logs) 0 in
    do
      t ← log_term n.logs (relative_index n prev)
      some (
        record {
          term = n.current_term;
          leader_id = n.id;
          pre_log_index = prev;
          pre_log_term = t;
          entries = sent.0;
          leader_commit = n.commit_index;
        },
        sent.1,
      )

-- One round of the loop over the peers, at a peer that is not the node itself.
unfoldable pub broadcast_one : ℕ → Node → Option Node
unfolding needs_snapshot
broadcast_one id n = do
  next ← get_elem? n.next_index id
  if needs_snapshot next n then some (trigger_install_snapshot id n) else do
    (args, last) ← build_append_entries next n
    some (enqueue (send_append_entries id last n.current_term args) n)

unfoldable pub broadcast_from : ℕ → ℕ → Node → Option Node
broadcast_from zero id n = some n
broadcast_from (suc k) id n =
    if int_eq (to_int id) n.id
    then broadcast_from k (id + 1) n
    else if n.dead || not (is_leader_state n.state)
    then some n
    else do m ← broadcast_one id n; broadcast_from k (id + 1) m

unfoldable pub broadcast_append_entries : Node → Option Node
broadcast_append_entries n = broadcast_from n.peers 0 n

-- `replicated`: the peers from `i` on that store the entry `index`, the node itself left out.
unfoldable pub count_replicated : ℤ → ℕ → ℕ → List ℕ → ℕ
count_replicated id index i [] = 0
count_replicated id index i (m ∷ ms) =
    let rest = count_replicated id index (i + 1) ms in
    if int_eq (to_int i) id then rest else if leb index m then suc rest else rest

-- The test of one `N` of the loop.
unfoldable pub can_commit : ℕ → Node → Bool
can_commit index n =
    is_majority n.peers (1 + count_replicated n.id index 0 n.match_index)
    && (elim (log_term n.logs (relative_index n index)) [
      | none ↦ false
      | some t ↦ t == n.current_term
    ])

-- `for (N = lastLogIndex; N > m_commitIndex; --N)`: the first `N` from above that passes.
unfoldable pub find_commit : ℕ → Node → Option ℕ
find_commit zero n = none
find_commit (suc index) n =
    if leb (suc index) n.commit_index
    then none
    else elim (can_commit (suc index) n) [ true ↦ some (suc index) | false ↦ find_commit index n ]

abbrev pub commit_to : Option ℕ → Node → Node
commit_to none n = n
commit_to (some index) n = record n { commit_index = index }

unfoldable pub update_commit_index : Node → Node
update_commit_index n =
    if n.dead || not (is_leader_state n.state) || length n.logs == 0
    then n
    else commit_to (find_commit (last_log_index n) n) n

-- A write through `operator[]`; `none` is one outside of the vector.
unfoldable pub store_at : List ℕ → ℕ → ℕ → Option (List ℕ)
store_at xs i v = elim (get_elem? xs i) [ none ↦ none | some x ↦ some (set xs i v) ]

-- `m_matchIndex[id]` and `m_nextindex[id]` after an accepted call.
unfoldable pub record_match : ℕ → AppendEntriesArgs → Node → Option Node
unfolding store_at
record_match id args n = do
  old ← get_elem? n.match_index id
  let match = max old (u64 (args.pre_log_index + length args.entries))
  ms ← store_at n.match_index id match
  ns ← store_at n.next_index id (u64 (match + 1))
  some (record n { match_index = ms; next_index = ns })

-- The lambda's section for an accepted call.
unfoldable pub on_append_success : ℕ → AppendEntriesArgs → Node → Option Node
on_append_success id args n =
    if n.dead || not (is_leader_state n.state)
    then some n
    else do m ← record_match id args n; apply_committed (update_commit_index m)

-- The next index after a refusal.
abbrev pub backed_off : ℕ → AppendEntriesReply → Node → ℕ
backed_off next reply n =
    if ltb 0 reply.conflict_index
    then reply.conflict_index
    else if ltb (u64 (n.last_included_index + 1)) next
    then next - 1
    else next

-- The lambda's section for a call that was refused.
unfoldable pub on_append_reject : ℕ → AppendEntriesReply → Node → Option Node
unfolding store_at
on_append_reject id reply n = if n.dead || not (is_leader_state n.state) then some n else do
  old ← get_elem? n.next_index id
  let next = backed_off old reply n
  ns ← store_at n.next_index id next
  let m = record n { next_index = ns }
  some (if leb next m.last_included_index then trigger_install_snapshot id m else m)

module _ ⦃json : JsonLib⦄ where
  -- The lambda of `broadcastAppendEntries` on a reply that arrived, its two sections run together.
  unfoldable pub on_append_reply :
      Env → ℕ → ℕ → AppendEntriesArgs → AppendEntriesReply → Node → Option Node
  unfolding step_down
  on_append_reply env id term_started args reply n =
      if n.dead || not (is_leader_state n.state) || not (n.current_term == term_started)
      then some n
      else if ltb n.current_term reply.term
      then some (step_down env reply.term n)
      else if reply.success
      then on_append_success id args n
      else on_append_reject id reply n

  -- The lambda of `helperTriggerInstallSnapshot`.
  unfoldable pub on_install_reply : Env → ℕ → InstallSnapshotReply → Node → Option Node
  unfolding step_down store_at
  on_install_reply env id reply n =
      if n.dead || not (is_leader_state n.state)
      then some n
      else if ltb n.current_term reply.term
      then some (step_down env reply.term n)
      else do
        ms ← store_at n.match_index id n.last_included_index
        ns ← store_at n.next_index id (u64 (n.last_included_index + 1))
        some (record n { match_index = ms; next_index = ns })
