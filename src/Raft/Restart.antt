-- ===== src/Raft/Restart.antt =====
-- A restart: `helperReadPersist` on what `helperPersist` wrote (kvcluster/raft/raft.cpp).
use raft_drive.Prelude.{
  both, ◌%◌, ◌^◌, ◌<◌, ◌≡◌, refl, ap, ◌∙◌, Bool, true, ◌&&◌, List, [], ◌∷◌, some, ltb, ltb→lt,
  Bytes, bytes, bytes_eq, drop, minus_one, IsInt, to_int-int_to_u64, arith,
}
use raft_drive.Json.{
  JsonLib, Json, canonical, canonical_items, canonical_fields, assign, bytes_lt, find_field,
  value_text, value_num, is_ascii,
}
use raft_drive.Raft.Types.{LogEntry}
use raft_drive.Raft.State.{Node, read_snapshot}
use raft_drive.Raft.Persist.{
  persist, read_persist, read_entries, read_persisted, read_state, state_json, snapshot_json,
  log_vector, snapshot_meta, dummy,
}

-- The entries' commands are texts that JSON can hold, and their terms are words of 32 bits.
unfoldable pub storable : (Bytes → Bool) → List LogEntry → Bool
storable ok [] = true
storable ok (e ∷ es) = ok e.command && (ltb e.term (2 ^ 32) && storable ok es)

read_entries-log_vector :
    (ok : Bytes → Bool) (es : List LogEntry)
    → storable ok es ≡ true
    → read_entries (log_vector es) ≡ some es
unfolding read_entries storable assign bytes_lt bytes_eq value_text value_num find_field
read_entries-log_vector ok [] h = refl
read_entries-log_vector ok (e ∷ es) h =
    let (t, u) = both (ok e.command) (ltb e.term (2 ^ 32) && storable ok es) h in
    let (v, w) = both (ltb e.term (2 ^ 32)) (storable ok es) u in
    let word : e.term % 2 ^ 64 % 2 ^ 32 ≡ e.term = omega (arith, ltb→lt _ _ v) in
    rw (read_entries-log_vector ok es w, word) refl

module _ ⦃json : JsonLib⦄ where
  log_vector-canonical :
      (es : List LogEntry)
      → storable json.is_text es ≡ true
      → canonical_items json.is_text (log_vector es) ≡ true
  unfolding storable assign bytes_lt bytes_eq canonical canonical_items canonical_fields is_ascii
  log_vector-canonical [] h = refl
  log_vector-canonical (e ∷ es) h =
      let (t, u) =
        both (json.is_text e.command) (ltb e.term (2 ^ 32) && storable json.is_text es) h in
      let (v, w) = both (ltb e.term (2 ^ 32)) (storable json.is_text es) u in
      let p = json.is_ascii-is_text (bytes "Command") refl in
      let q = json.is_ascii-is_text (bytes "Term") refl in
      rw (p, q, t, log_vector-canonical es w) refl

  state_json-canonical :
      (n : Node)
      → storable json.is_text (drop 1 n.logs) ≡ true
      → canonical json.is_text (state_json n) ≡ true
  unfolding state_json assign bytes_lt bytes_eq canonical canonical_fields is_ascii
  state_json-canonical n h =
      let p = json.is_ascii-is_text (bytes "Log") refl in
      let q = json.is_ascii-is_text (bytes "Term") refl in
      let r = json.is_ascii-is_text (bytes "VotedFor") refl in
      rw (p, q, r, log_vector-canonical (drop 1 n.logs) h) refl

  snapshot_json-canonical :
      (n : Node)
      → storable json.is_text (drop 1 n.logs) ≡ true
      → canonical json.is_text (snapshot_json n) ≡ true
  unfolding snapshot_json assign bytes_lt bytes_eq canonical canonical_fields is_ascii
  snapshot_json-canonical n h =
      let p = json.is_ascii-is_text (bytes "Log") refl in
      let q = json.is_ascii-is_text (bytes "Term") refl in
      let r = json.is_ascii-is_text (bytes "Voted") refl in
      rw (p, q, r, log_vector-canonical (drop 1 n.logs) h) refl

  -- A text that parses is not empty.
  read_persisted-parses :
      (state : Bytes) (k : Node) (j : Json)
      → json.parse state ≡ some j
      → read_persisted state k ≡ read_state state k
  read_persisted-parses [] k j h = let never = json.parse-empty in cc
  read_persisted-parses (b ∷ bs) k j h = refl

  -- A node that starts on the state that another run persisted has its term, its vote and its log
  -- behind the first entry, when the commands are texts that JSON can hold and the numbers are in the
  -- ranges of their types. What the snapshot covers counts as applied; the first entry is a dummy with
  -- the term that the snapshot names.
  pub read_persist-persist :
      (n k : Node)
      → storable json.is_text (drop 1 n.logs) ≡ true
      → n.current_term < 2 ^ 32
      → IsInt n.voted_for
      → k.persister.raftstate ≡ (persist n).persister.raftstate
      → let snap = snapshot_meta k.persister.snapshot in
        read_persist k
        ≡ some (record k {
          current_term = n.current_term;
          voted_for = n.voted_for;
          last_included_index = snap.0;
          last_included_term = snap.1;
          last_applied = snap.0;
          logs = dummy snap.1 ∷ drop 1 n.logs;
        })
  unfolding read_persist persist state_json value_num find_field assign bytes_lt bytes_eq
      read_snapshot
  read_persist-persist n k h t v same =
      let back = json.parse-dump (state_json n) (state_json-canonical n h) in
      let term : n.current_term % 2 ^ 64 % 2 ^ 32 ≡ n.current_term = omega (arith, t) in
      ap (λ x. read_persisted x k) same
      ∙ (read_persisted-parses (json.dump (state_json n)) k (state_json n) back
          ∙ rw
              (
                back,
                read_entries-log_vector json.is_text (drop 1 n.logs) h,
                term,
                to_int-int_to_u64 n.voted_for v,
              )
              refl)

  -- A node that starts on the state that `snapshot` wrote has no vote, whoever the node had voted for
  -- in that term: the term and the entries come back, under the same conditions, and the vote is -1.
  pub read_persist-snapshot_json :
      (n k : Node)
      → storable json.is_text (drop 1 n.logs) ≡ true
      → n.current_term < 2 ^ 32
      → k.persister.raftstate ≡ json.dump (snapshot_json n)
      → let snap = snapshot_meta k.persister.snapshot in
        read_persist k
        ≡ some (record k {
          current_term = n.current_term;
          voted_for = minus_one;
          last_included_index = snap.0;
          last_included_term = snap.1;
          last_applied = snap.0;
          logs = dummy snap.1 ∷ drop 1 n.logs;
        })
  unfolding read_persist snapshot_json value_num find_field assign bytes_lt bytes_eq read_snapshot
  read_persist-snapshot_json n k h t same =
      let back = json.parse-dump (snapshot_json n) (snapshot_json-canonical n h) in
      let term : n.current_term % 2 ^ 64 % 2 ^ 32 ≡ n.current_term = omega (arith, t) in
      ap (λ x. read_persisted x k) same
      ∙ (read_persisted-parses (json.dump (snapshot_json n)) k (snapshot_json n) back
          ∙ rw (back, read_entries-log_vector json.is_text (drop 1 n.logs) h, term) refl)
