-- ===== src/Raft/Persist.antt =====
-- `helperPersist` and `helperReadPersist` of kvcluster/raft/raft.cpp, and what `snapshot` writes.
use raft_drive.Prelude.{
  ℕ, ◌%◌, ◌^◌, List, [], ◌∷◌, Option, none, some, ◌>>=◌, Bytes, bytes, drop, ℤ, pos, minus_one,
  to_int, int_to_u64,
}
use raft_drive.Json.{
  Json, null, num, text, arr, obj, Items, nil, cons, Fields, end, field, assign, find_field,
  members, value_text, value_num, JsonLib,
}
use raft_drive.Raft.Types.{LogEntry}
use raft_drive.Raft.State.{Node, save_raft_state, read_raft_state, read_snapshot}

abbrev pub log_entry_json : LogEntry → Json
log_entry_json e =
    obj (assign (bytes "Term") (num (pos e.term)) (assign (bytes "Command") (text e.command) end))

abbrev pub log_vector : List LogEntry → Items
log_vector [] = nil
log_vector (e ∷ es) = cons (log_entry_json e) (log_vector es)

-- The document that `helperPersist` writes; the first entry of the log is a dummy and is left out.
unfoldable pub state_json : Node → Json
unfolding assign
state_json n = obj (
    assign (bytes "Log") (arr (log_vector (drop 1 n.logs))) (
      assign (bytes "VotedFor") (num n.voted_for)
        (assign (bytes "Term") (num (pos n.current_term)) end)))

-- The document that `snapshot` writes: the name of the vote is another one there.
unfoldable pub snapshot_json : Node → Json
unfolding assign
snapshot_json n = obj (
    assign (bytes "Log") (arr (log_vector (drop 1 n.logs))) (
      assign (bytes "Voted") (num n.voted_for)
        (assign (bytes "Term") (num (pos n.current_term)) end)))

abbrev pub values : Fields → Items
values end = nil
values (field k v fs) = cons v (values fs)

-- `j["Log"]` in a range `for`: a member that is missing is a null, and has no elements. A number or
-- a text is a range of one element, itself.
abbrev pub log_items : Option Json → Items
log_items none = nil
log_items (some null) = nil
log_items (some (num n)) = cons (num n) nil
log_items (some (text s)) = cons (text s) nil
log_items (some (arr xs)) = xs
log_items (some (obj fs)) = values fs

-- The conversions of a JSON number to `uint32_t`, `uint64_t` and `int`.
abbrev pub num_u32 : ℤ → ℕ
num_u32 z = int_to_u64 z % 2 ^ 32

abbrev pub num_int : ℤ → ℤ
num_int z = to_int (int_to_u64 z)

unfoldable pub read_entries : Items → Option (List LogEntry)
unfolding value_text value_num
read_entries nil = some []
read_entries (cons x xs) = do
  c ← value_text (bytes "Command") [] x
  t ← value_num (bytes "Term") (pos 0) x
  es ← read_entries xs
  some (record { command = c; term = num_u32 t } ∷ es)

abbrev pub dummy : ℕ → LogEntry
dummy t = record { command = []; term = t }

module _ ⦃json : JsonLib⦄ where
  unfoldable pub persist : Node → Node
  unfolding save_raft_state
  persist n = record n { persister = save_raft_state (json.dump (state_json n)) n.persister }

  -- The index and the term that the snapshot names. Whatever throws leaves what was set before it.
  abbrev snapshot_term : Json → ℕ → ℕ × ℕ
  snapshot_term j index = elim (value_num (bytes "LastIncludedTerm") (pos 0) j) [
    | none ↦ (index, 0)
    | some t ↦ (index, num_u32 t)
  ]

  abbrev snapshot_index : Option Json → ℕ × ℕ
  snapshot_index none = (0, 0)
  snapshot_index (some j) = elim (value_num (bytes "LastIncludedIndex") (pos 0) j) [
    | none ↦ (0, 0)
    | some i ↦ snapshot_term j (int_to_u64 i)
  ]

  unfoldable pub snapshot_meta : Bytes → ℕ × ℕ
  unfolding value_num
  snapshot_meta [] = (0, 0)
  snapshot_meta (b ∷ bs) = snapshot_index (json.parse (b ∷ bs))

  abbrev pub read_state : Bytes → Node → Option Node
  read_state state n = do
    j ← json.parse state
    t ← value_num (bytes "Term") (pos 0) j
    v ← value_num (bytes "VotedFor") minus_one j
    fs ← members j
    es ← read_entries (log_items (find_field (bytes "Log") fs))
    let snap = snapshot_meta (read_snapshot n.persister)
    some (record n {
      current_term = num_u32 t;
      voted_for = num_int v;
      last_included_index = snap.0;
      last_included_term = snap.1;
      last_applied = snap.0;
      logs = dummy snap.1 ∷ es;
    })

  abbrev pub read_persisted : Bytes → Node → Option Node
  read_persisted [] n =
      some (record n { last_included_index = 0; last_included_term = 0; logs = dummy 0 ∷ [] })
  read_persisted (b ∷ bs) n = read_state (b ∷ bs) n

  -- `none` is an exception of the JSON library that leaves the constructor.
  unfoldable pub read_persist : Node → Option Node
  unfolding value_num find_field read_entries snapshot_meta read_raft_state read_snapshot
  read_persist n = read_persisted (read_raft_state n.persister) n
