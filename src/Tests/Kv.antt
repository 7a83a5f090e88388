-- ===== src/Tests/Kv.antt =====
-- The key-value server on concrete requests: a write, a read of it, and the write once more.
use raft_drive.Prelude.{
  ◌≡◌, ◌↔◌, ◌⊎◌, get_elem?, take, refl, inr, true, false, [], ◌∷◌, none, some, arith, bytes,
  bytes_eq, pos,
}
use raft_drive.Raft.Types.{ApplyMsg}
use raft_drive.Kv.Models.{
  Op, GetArgs, GetReply, PutAppendArgs, PutAppendReply, serialize_op, deserialize_op, blank_op,
  model_step, encode_get_args, decode_get_args, encode_put_append_args, decode_put_append_args,
}
use raft_drive.Kv.Server.{
  Machine, Server, pending, replied, waits, begin_put_append, put_append_op, apply_op, apply_msg,
  finish_get, finish_put_append, op_put, is_duplicate, err_ok, get_op,
}
use raft_drive.Kv.Once.{apply_all, apply_at_most_once}
use raft_drive.Kv.Register.{register, input_of, output_of, apply_op-model_step}
use raft_drive.Kv.History.{model_run, inputs_on, apply_all-model_run}
use raft_drive.Kv.Codec.{
  deserialize_op-serialize_op, decode_get_args-encode_get_args,
  decode_put_append_args-encode_put_append_args,
}
use raft_drive.Kv.Request.{reply_of, get_served, put_append_served}
use raft_drive.Kv.Begin.{begin_put_append_lem}
use raft_drive.Raft.State.{leader}
use raft_drive.Raft.Persist.{dummy}
use raft_drive.Raft.Invariant.{IsValid}
use raft_drive.Tests.JsonText.{plain_json}
use raft_drive.Tests.Raft.{empty_node, entry}

abbrev write : Op
write = record {
  operation = bytes "Append";
  key = bytes "k";
  value = bytes "v";
  client_id = 7;
  seq = pos 3;
}

abbrev other_write : Op
other_write = record write { operation = bytes "Put"; client_id = 8 }

abbrev fresh_machine : Machine
fresh_machine = record { kv_store = λ k. none; client_seq_map = λ c. none }

apply_at_most_once_example :
    (apply_op write (apply_all (other_write ∷ []) (apply_op write fresh_machine).0)).0
    ≡ apply_all (other_write ∷ []) (apply_op write fresh_machine).0
apply_at_most_once_example = apply_at_most_once write (other_write ∷ []) fresh_machine

apply_op-model_step_example :
    (model_step
        (register write.key fresh_machine)
        (input_of 2 write)
        (output_of (apply_op write fresh_machine).1)
      ≡ (true, register write.key (apply_op write fresh_machine).0))
    × (register (bytes "j") (apply_op write fresh_machine).0 ≡ register (bytes "j") fresh_machine)
unfolding is_duplicate bytes_eq
apply_op-model_step_example =
    apply_op-model_step write fresh_machine 2 (bytes "j") refl (inr refl) refl

deserialize_op-serialize_op_example :
    deserialize_op (serialize_op write) (blank_op 0 (pos 0)) ≡ write
deserialize_op-serialize_op_example =
    deserialize_op-serialize_op write (blank_op 0 (pos 0)) refl refl refl (omega arith)
      (omega arith)

abbrev read_args : GetArgs
read_args = record { key = bytes "k"; client_id = 7; seq = pos 4 }

decode_get_args-encode_get_args_example :
    decode_get_args (encode_get_args read_args) ≡ some read_args
decode_get_args-encode_get_args_example =
    decode_get_args-encode_get_args read_args refl (omega arith) (omega arith)

abbrev write_args : PutAppendArgs
write_args = record {
  key = bytes "k";
  value = bytes "v";
  operation = op_put;
  client_id = 7;
  seq = pos 5;
}

decode_put_append_args-encode_put_append_args_example :
    decode_put_append_args (encode_put_append_args write_args) ≡ some write_args
decode_put_append_args-encode_put_append_args_example =
    decode_put_append_args-encode_put_append_args write_args refl refl refl (omega arith)
      (omega arith)

-- A server on which a read waits for the entry 4, with the future 0.
abbrev waiting_server : Server
waiting_server = record {
  node = empty_node;
  machine = (apply_op write fresh_machine).0;
  wait_map = λ i. elim (bytes_eq (i ∷ []) (4 ∷ [])) [ true ↦ some 0 | false ↦ none ];
  futures = λ t. pending;
  next_future = 1;
  dead = false;
}

abbrev read_entry : ApplyMsg
read_entry = record {
  command_valid = true;
  command_index = 4;
  command_term = 1;
  command = serialize_op (get_op read_args);
  snapshot_valid = false;
  snapshot = [];
  last_included_index = 0;
  last_included_term = 0;
}

abbrev no_reply : GetReply
no_reply = record { value = []; err = [] }

get_served_example :
    ((finish_get read_args no_reply 4
        ((apply_msg (blank_op 0 (pos 0)) read_entry waiting_server).futures 0)
        (apply_msg (blank_op 0 (pos 0)) read_entry waiting_server)).1
      ≡ reply_of (register (bytes "k") waiting_server.machine) no_reply)
    × ((apply_msg (blank_op 0 (pos 0)) read_entry waiting_server).machine ≡ waiting_server.machine)
unfolding bytes_eq
get_served_example =
    get_served (blank_op 0 (pos 0)) read_args no_reply read_entry waiting_server 0 refl refl refl
      refl (omega arith) (omega arith) refl

read_value :
    reply_of (register (bytes "k") waiting_server.machine) no_reply
    ≡ record { value = bytes "v"; err = err_ok }
unfolding apply_op is_duplicate bytes_eq
read_value = refl

abbrev no_put_reply : PutAppendReply
no_put_reply = record { value = []; err = [] }

abbrev write_entry : ApplyMsg
write_entry = record read_entry { command = serialize_op (put_append_op write_args) }

put_append_served_example :
    let op = deserialize_op write_entry.command (blank_op 0 (pos 0)) in
    let a = apply_msg (blank_op 0 (pos 0)) write_entry waiting_server in
    let r = finish_put_append write_args no_put_reply 4 (a.futures 0) a in
    ((r.1.err ≡ err_ok) ↔ (
      (waiting_server.dead ≡ false)
      × (op.client_id ≡ write_args.client_id)
      × (op.seq ≡ write_args.seq)))
    × (r.0.wait_map 4 ≡ none)
    × ((is_duplicate r.0.machine op.client_id op.seq ≡ true)
        ⊎ ((m : Machine) → (apply_op op m).0 ≡ m))
unfolding bytes_eq
put_append_served_example =
    put_append_served (blank_op 0 (pos 0)) write_args no_put_reply write_entry waiting_server 0 refl
      refl

abbrev leading_server : Server
leading_server = record waiting_server {
  node = record empty_node { state = leader; current_term = 1; logs = dummy 0 ∷ entry 1 ∷ [] };
}

leading_server-IsValid : IsValid leading_server.node
leading_server-IsValid = omega arith

begin_put_append_lem_example :
    let r = begin_put_append write_args no_put_reply leading_server in
    (get_elem? r.0.node.logs 2
      ≡ some (record { command = serialize_op (put_append_op write_args); term = 1 }))
    × (take 2 r.0.node.logs ≡ leading_server.node.logs)
    × (((is_duplicate leading_server.machine 7 (pos 5) ≡ true)
          × (r.1 ≡ replied (record no_put_reply { err = err_ok })))
        ⊎ ((is_duplicate leading_server.machine 7 (pos 5) ≡ false)
            × (r.1 ≡ waits 2 1)
            × (r.0.wait_map 2 ≡ some 1)
            × (r.0.futures 1 ≡ pending)))
begin_put_append_lem_example =
    begin_put_append_lem write_args no_put_reply leading_server refl leading_server-IsValid
      (omega arith)

-- The second of three writes is on another key, and the third is the first once more.
apply_all-model_run_example :
    register (bytes "k") (apply_all (write ∷ other_write ∷ write ∷ []) fresh_machine)
    ≡ model_run
        (register (bytes "k") fresh_machine)
        (inputs_on (bytes "k") (write ∷ other_write ∷ write ∷ []) fresh_machine)
apply_all-model_run_example =
    apply_all-model_run (bytes "k") (write ∷ other_write ∷ write ∷ []) fresh_machine
