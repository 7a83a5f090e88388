-- ===== src/Kv/Service.antt =====
-- `KVStoreServiceImpl` (kvcluster/service_kv_grpc.hpp). Each call is in two halves, as in `Server`.
use raft_drive.Prelude.{
  ℕ, ◌+◌, ◌-◌, ◌^◌, not, [], if◌then◌else◌, ◌==◌, Bytes, bytes_eq, ℤ, pos, negsuc,
}
use raft_drive.Json.{JsonLib}
use raft_drive.Raft.Roles.{is_leader}
use raft_drive.Kv.Models.{GetArgs, GetReply, PutAppendArgs, PutAppendReply}
use raft_drive.Kv.Server.{
  Server, Begun, replied, waits, begin_get, begin_put_append, err_no_key, err_wrong_leader, op_put,
  op_append,
}

-- The enumerations of proto/kvstore.proto, as one.
pub data Status : Type 0 where
  ok not_found unavailable wrong_leader : Status

pub record GetResponse : Type 0 where
  pub value : Bytes
  pub status : Status

pub record Service : Type 0 where
  pub server : Server
  pub client_id : ℕ
  pub seq : ℤ

-- `++m_seq` on an `std::atomic<int>`.
unfoldable pub next_seq : ℤ → ℤ
next_seq (pos n) = if n == 2 ^ 31 - 1 then negsuc (2 ^ 31 - 1) else pos (n + 1)
next_seq (negsuc n) = if n == 0 then pos 0 else negsuc (n - 1)

unfoldable pub get_response : GetReply → GetResponse
unfolding bytes_eq
get_response reply =
    if bytes_eq reply.err err_wrong_leader
    then record { value = []; status = wrong_leader }
    else if bytes_eq reply.err err_no_key
    then record { value = []; status = not_found }
    else record { value = reply.value; status = ok }

unfoldable pub put_append_response : PutAppendReply → Status
unfolding bytes_eq
put_append_response reply = if bytes_eq reply.err err_wrong_leader then wrong_leader else ok

abbrev pub empty_reply : GetReply
empty_reply = record { value = []; err = [] }

abbrev pub empty_put_reply : PutAppendReply
empty_put_reply = record { value = []; err = [] }

-- A call that is over has its response; another waits, with the arguments that its second half needs.
pub data Call (Args Resp : Type 0) : Type 0 where
  answered : Resp → Call Args Resp
  waiting : Args → (index future : ℕ) → Call Args Resp

abbrev get_call : GetArgs → Begun GetReply → Call GetArgs GetResponse
get_call args (replied reply) = answered (get_response reply)
get_call args (waits index future) = waiting args index future

abbrev put_call : PutAppendArgs → Begun PutAppendReply → Call PutAppendArgs Status
put_call args (replied reply) = answered (put_append_response reply)
put_call args (waits index future) = waiting args index future

module _ ⦃json : JsonLib⦄ where
  unfoldable pub service_get : Bytes → Service → Service × Call GetArgs GetResponse
  unfolding is_leader next_seq begin_get get_response
  service_get key v =
      if not (is_leader v.server.node)
      then (v, answered (record { value = []; status = wrong_leader }))
      else (let n = next_seq v.seq in
          let args : GetArgs = record { key = key; client_id = v.client_id; seq = n } in
          let (s, begun) = begin_get args empty_reply v.server in
          (record v { server = s; seq = n }, get_call args begun))

  abbrev pub service_write : Bytes → Bytes → Bytes → Service → Service × Call PutAppendArgs Status
  service_write operation key value v =
      if not (is_leader v.server.node)
      then (v, answered wrong_leader)
      else (let n = next_seq v.seq in
          let args : PutAppendArgs = record {
            key = key;
            value = value;
            operation = operation;
            client_id = v.client_id;
            seq = n;
          } in
          let (s, begun) = begin_put_append args empty_put_reply v.server in
          (record v { server = s; seq = n }, put_call args begun))

  unfoldable pub service_put : Bytes → Bytes → Service → Service × Call PutAppendArgs Status
  unfolding is_leader next_seq begin_put_append put_append_response
  service_put key value v = service_write op_put key value v

  unfoldable pub service_append : Bytes → Bytes → Service → Service × Call PutAppendArgs Status
  unfolding is_leader next_seq begin_put_append put_append_response
  service_append key value v = service_write op_append key value v
