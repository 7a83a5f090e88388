-- ===== src/Kv/Server.antt =====
-- `KVServer` (kvcluster/kvserver/kvserver.cpp). A request that waits for its entry holds a future; the
-- promises of `m_waitMap` are the numbers of such futures. The log output is left out.
use raft_drive.Prelude.{
  ℕ, ◌+◌, Bool, true, false, not, ◌&&◌, [], ◌++◌, Option, none, some, if◌then◌else◌, ◌==◌, Bytes,
  bytes, bytes_eq, ℤ, int_eq, int_le, int_to_u64,
}
use raft_drive.Json.{JsonLib}
use raft_drive.Raft.Types.{ApplyMsg, Popped, blocked, closed_out, popped, pop, close}
use raft_drive.Raft.State.{Node}
use raft_drive.Raft.Roles.{start}
use raft_drive.Kv.Models.{
  Op, GetArgs, GetReply, PutAppendArgs, PutAppendReply, serialize_op, deserialize_op,
}

-- The shared state of a promise and its future; `broken` is the exception of a promise that was
-- destroyed before it was set.
pub data Fut : Type 0 where
  pending : Fut
  ready : Op → Fut
  broken : Fut

-- The replicated part of the server: what the applied entries determine.
pub record Machine : Type 0 where
  pub kv_store : Bytes → Option Bytes
  pub client_seq_map : ℕ → Option ℤ

-- `m_raft` is `node`; its apply channel is the server's. `futures` and `next_future` stand for the
-- promises and futures that the handlers create.
pub record Server : Type 0 where
  pub node : Node
  pub machine : Machine
  pub wait_map : ℕ → Option ℕ
  pub futures : ℕ → Fut
  pub next_future : ℕ
  pub dead : Bool

abbrev pub set_text {ℓ} : {A : Type ℓ} → (Bytes → A) → Bytes → A → Bytes → A
set_text f k v j = if bytes_eq k j then v else f j

abbrev pub set_num {ℓ} : {A : Type ℓ} → (ℕ → A) → ℕ → A → ℕ → A
set_num f k v j = if k == j then v else f j

-- `m_kvStore[key]`, which is empty where the key is missing.
abbrev pub or_empty : Option Bytes → Bytes
or_empty none = []
or_empty (some v) = v

abbrev pub op_get : Bytes
op_get = bytes "Get"

abbrev pub op_put : Bytes
op_put = bytes "Put"

abbrev pub op_append : Bytes
op_append = bytes "Append"

-- `m_clientSeqMap.contains(id) && m_clientSeqMap[id] >= seq`.
abbrev seen : Option ℤ → ℤ → Bool
seen none seq = false
seen (some last) seq = int_le seq last

unfoldable pub is_duplicate : Machine → ℕ → ℤ → Bool
is_duplicate m client seq = seen (m.client_seq_map client) seq

abbrev pub store_value : Machine → Op → Bytes → Machine
store_value m op v = record {
  kv_store = set_text m.kv_store op.key (some v);
  client_seq_map = set_num m.client_seq_map op.client_id (some op.seq);
}

-- The branches of `applierLoop` on the operation: the new state, and the operation with its result.
unfoldable pub apply_op : Op → Machine → Machine × Op
unfolding is_duplicate bytes_eq
apply_op op m =
    if bytes_eq op.operation op_get
    then (m, record op { value = or_empty (m.kv_store op.key) })
    else if bytes_eq op.operation op_append
    then (if is_duplicate m op.client_id op.seq
        then (m, op)
        else (store_value m op (or_empty (m.kv_store op.key) ++ op.value), op))
    else if bytes_eq op.operation op_put
    then (if is_duplicate m op.client_id op.seq then (m, op) else (store_value m op op.value, op))
    else (m, op)

abbrev fulfil_at : Option ℕ → ℕ → Op → Server → Server
fulfil_at none index op s = s
fulfil_at (some t) index op s = record s {
  futures = set_num s.futures t (ready op);
  wait_map = set_num s.wait_map index none;
}

-- `m_waitMap[index].set_value(op)` and the erasure behind it.
unfoldable pub fulfil : ℕ → Op → Server → Server
fulfil index op s = fulfil_at (s.wait_map index) index op s

abbrev break_future : Fut → Fut
break_future pending = broken
break_future (ready op) = ready op
break_future broken = broken

abbrev abandon_at : Option ℕ → Server → Server
abandon_at none s = s
abandon_at (some t) s = record s { futures = set_num s.futures t (break_future (s.futures t)) }

-- A promise leaves the map: its future is broken unless it was set.
unfoldable pub erase : ℕ → Server → Server
erase index s =
    let m = abandon_at (s.wait_map index) s in record m { wait_map = set_num m.wait_map index none }

-- `m_waitMap[index] = std::move(prom)` for a new promise, whose future is the result.
unfoldable pub register : ℕ → Server → Server × ℕ
register index s =
    let m = abandon_at (s.wait_map index) s in
    (
      record m {
        wait_map = set_num m.wait_map index (some s.next_future);
        futures = set_num m.futures s.next_future pending;
        next_future = s.next_future + 1;
      },
      s.next_future,
    )

-- How the first half of a request ends: with a reply, or with a wait for the entry at `index`.
pub data Begun (R : Type 0) : Type 0 where
  replied : R → Begun R
  waits : (index future : ℕ) → Begun R

abbrev pub err_ok : Bytes
err_ok = bytes "OK"

abbrev pub err_no_key : Bytes
err_no_key = bytes "ErrNoKey"

abbrev pub err_wrong_leader : Bytes
err_wrong_leader = bytes "ErrWrongLeader"

abbrev pub wait_at : {R : Type 0} → Server × ℕ → ℕ → Server × Begun R
wait_at (s, t) index = (s, waits index t)

abbrev pub same_request : Op → ℕ → ℤ → Bool
same_request op client seq = op.client_id == client && int_eq op.seq seq

-- The reply of `get` by what the wait saw: `pending` is a time-out.
abbrev pub get_result : Fut → GetArgs → GetReply → GetReply
get_result pending args reply = record reply { err = err_wrong_leader }
get_result broken args reply = record reply { err = err_wrong_leader }
get_result (ready op) args reply =
    if same_request op args.client_id args.seq
    then (if bytes_eq op.value []
        then record reply { err = err_no_key }
        else record reply { value = op.value; err = err_ok })
    else record reply { err = err_wrong_leader }

abbrev pub put_append_result : Fut → PutAppendArgs → PutAppendReply → PutAppendReply
put_append_result pending args reply = record reply { err = err_wrong_leader }
put_append_result broken args reply = record reply { err = err_wrong_leader }
put_append_result (ready op) args reply =
    if same_request op args.client_id args.seq
    then record reply { err = err_ok }
    else record reply { err = err_wrong_leader }

-- The second half of a request, from `lock.lock()` behind the wait on.
unfoldable pub finish_get : GetArgs → GetReply → ℕ → Fut → Server → Server × GetReply
unfolding erase bytes_eq
finish_get args reply index seen s =
    let m = erase index s in
    if m.dead then (m, record reply { err = err_wrong_leader }) else (m, get_result seen args reply)

unfoldable pub finish_put_append :
    PutAppendArgs → PutAppendReply → ℕ → Fut → Server → Server × PutAppendReply
unfolding erase
finish_put_append args reply index seen s =
    let m = erase index s in
    if m.dead
    then (m, record reply { err = err_wrong_leader })
    else (m, put_append_result seen args reply)

-- `KVServer::kill`, up to the join of the applier thread.
unfoldable pub kill : Server → Server
unfolding close
kill s = record s {
  dead = true;
  node = record s.node { apply_channel = close s.node.apply_channel };
}

module _ ⦃json : JsonLib⦄ where
  -- The body of `applierLoop` for one message; `blank` is the object that `deserializeOp` starts from.
  unfoldable pub apply_msg : Op → ApplyMsg → Server → Server
  unfolding deserialize_op apply_op fulfil
  apply_msg blank msg s =
      if msg.command_valid
      then (let (m, op) = apply_op (deserialize_op msg.command blank) s.machine in
          fulfil msg.command_index op (record s { machine = m }))
      else s

  abbrev applied : Op → Popped → Server → Server
  applied blank blocked s = s
  applied blank closed_out s = s
  applied blank (popped msg c) s =
      apply_msg blank msg (record s { node = record s.node { apply_channel = c } })

  -- A round of `applierLoop`.
  unfoldable pub applier_round : Op → Server → Server
  unfolding pop apply_msg
  applier_round blank s = if s.dead then s else applied blank (pop s.node.apply_channel) s

  abbrev pub get_op : GetArgs → Op
  get_op args = record {
    operation = op_get;
    key = args.key;
    value = [];
    client_id = args.client_id;
    seq = args.seq;
  }

  abbrev pub put_append_op : PutAppendArgs → Op
  put_append_op args = record {
    operation = args.operation;
    key = args.key;
    value = args.value;
    client_id = args.client_id;
    seq = args.seq;
  }

  -- The first half of `get`, up to the wait.
  unfoldable pub begin_get : GetArgs → GetReply → Server → Server × Begun GetReply
  unfolding serialize_op start register
  begin_get args reply s =
      let (n, index, term, is_leader) = start (serialize_op (get_op args)) s.node in
      let m = record s { node = n } in
      if not is_leader
      then (m, replied (record reply { err = err_wrong_leader }))
      else wait_at (register (int_to_u64 index) m) (int_to_u64 index)

  unfoldable pub begin_put_append :
      PutAppendArgs → PutAppendReply → Server → Server × Begun PutAppendReply
  unfolding serialize_op start register is_duplicate
  begin_put_append args reply s =
      let (n, index, term, is_leader) = start (serialize_op (put_append_op args)) s.node in
      let m = record s { node = n } in
      if not is_leader
      then (m, replied (record reply { err = err_wrong_leader }))
      else if is_duplicate m.machine args.client_id args.seq
      then (m, replied (record reply { err = err_ok }))
      else wait_at (register (int_to_u64 index) m) (int_to_u64 index)
