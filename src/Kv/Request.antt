-- ===== src/Kv/Request.antt =====
-- A request of `KVServer` from its entry in the log to its reply (kvcluster/kvserver/kvserver.cpp).
use raft_drive.Prelude.{
  ℕ, Bool, ap, sym, subst, ◌∙◌, [], ◌^◌, ◌<◌, ◌≡◌, ◌≢◌, ◌↔◌, refl, true, false, Option-cases, none,
  some, ◌⊎◌, inl, inr, Bytes, bytes_eq, ℤ, ==_iff, int_eq_iff, IsInt, if◌then◌else◌, Bool-cases,
  arith,
}
use raft_drive.Json.{JsonLib, is_ascii}
use raft_drive.Raft.Types.{ApplyMsg}
use raft_drive.Kv.Models.{
  Op, GetArgs, GetReply, PutAppendArgs, PutAppendReply, serialize_op, deserialize_op,
}
use raft_drive.Kv.Server.{
  Server, Machine, Fut, ready, op_put, op_append, is_duplicate, apply_op, apply_msg, fulfil,
  finish_get, finish_put_append, erase, same_request, get_op, err_ok, err_no_key, err_wrong_leader,
  op_get,
}
use raft_drive.Kv.Codec.{deserialize_op-serialize_op}
use raft_drive.Kv.Register.{register}
use raft_drive.Kv.Once.{apply_op-settles}

erase-dead : (index : ℕ) (s : Server) → (erase index s).dead ≡ s.dead
unfolding erase
erase-dead index s = elim (Option-cases (s.wait_map index)) [
  | inl e ↦ rw e refl
  | inr (t, e) ↦ rw e refl
]

wrong_leader_not_ok : err_wrong_leader ≢ err_ok
wrong_leader_not_ok e = cc

same_request_iff :
    (op : Op) (client : ℕ) (seq : ℤ)
    → (same_request op client seq ≡ true) ↔ ((op.client_id ≡ client) × (op.seq ≡ seq))
same_request_iff op client seq = ground (arith, ==_iff op.client_id client, int_eq_iff op.seq seq)

-- The applier changes the result of an operation, not whose it is.
apply_op-whose :
    (op : Op) (m : Machine)
    → ((apply_op op m).1.client_id ≡ op.client_id) × ((apply_op op m).1.seq ≡ op.seq)
unfolding apply_op
apply_op-whose op m = elim (Bool-cases (bytes_eq op.operation op_get)) [
  | inl get ↦ rw get (refl, refl)
  | inr e ↦ elim (Bool-cases (bytes_eq op.operation op_append)) [
    | inl f ↦ elim (Bool-cases (is_duplicate m op.client_id op.seq)) [
      | inl d ↦ rw (e, f, d) (refl, refl)
      | inr d ↦ rw (e, f, d) (refl, refl)
    ]
    | inr f ↦ elim (Bool-cases (bytes_eq op.operation op_put)) [
      | inl g ↦ elim (Bool-cases (is_duplicate m op.client_id op.seq)) [
        | inl d ↦ rw (e, f, g, d) (refl, refl)
        | inr d ↦ rw (e, f, g, d) (refl, refl)
      ]
      | inr g ↦ rw (e, f, g) (refl, refl)
    ]
  ]
]

erase-lem :
    (index : ℕ) (s : Server)
    → ((erase index s).wait_map index ≡ none) × ((erase index s).machine ≡ s.machine)
unfolding erase
erase-lem index s = elim (Option-cases (s.wait_map index)) [
  | inl e ↦ rw (e, (==_iff index index).1 refl) (refl, refl)
  | inr (t, e) ↦ rw (e, (==_iff index index).1 refl) (refl, refl)
]

finish_put_append-erase :
    (args : PutAppendArgs) (reply : PutAppendReply) (index : ℕ) (seen : Fut) (s : Server)
    → (finish_put_append args reply index seen s).0 ≡ erase index s
unfolding finish_put_append
finish_put_append-erase args reply index seen s = elim (Bool-cases (erase index s).dead) [
  | inl e ↦ rw e refl
  | inr e ↦ rw e refl
]

-- The answer to a write whose future was set.
finish_put_append-ok_iff :
    (args : PutAppendArgs) (reply : PutAppendReply) (index : ℕ) (op k : Op) (s : Server) (d : Bool)
    → s.dead ≡ d
    → ((k.client_id ≡ op.client_id) × (k.seq ≡ op.seq))
    → ((finish_put_append args reply index (ready k) s).1.err ≡ err_ok)
      ↔ ((d ≡ false) × (op.client_id ≡ args.client_id) × (op.seq ≡ args.seq))
unfolding finish_put_append
finish_put_append-ok_iff args reply index op k s true dead (c, q) =
    rw (erase-dead index s, dead) ((λ e. absurd (wrong_leader_not_ok e)), (λ h. cc))
finish_put_append-ok_iff args reply index op k s false alive (c, q) =
    let r = same_request_iff k args.client_id args.seq in
    rw (erase-dead index s, alive)
      (elim (Bool-cases (same_request k args.client_id args.seq)) [
        | inl same ↦
            let (x, y) = r.0 same in rw same ((λ e. (refl, sym c ∙ x, sym q ∙ y)), (λ h. refl))
        | inr other ↦
            rw other
              ((λ e. absurd (wrong_leader_not_ok e)), (λ (a, x, y). cc (other, r.1 (c ∙ x, q ∙ y))))
      ])

-- The reply to a read that finds `v`.
abbrev pub reply_of : Bytes → GetReply → GetReply
reply_of v reply =
    if bytes_eq v [] then record reply { err = err_no_key } else record { value = v; err = err_ok }

module _ ⦃json : JsonLib⦄ where
  -- An entry that a request waits for: its future gets the operation with its result.
  apply_msg-fulfils :
      (blank op : Op) (msg : ApplyMsg) (s : Server) (t : ℕ)
      → msg.command_valid ≡ true
      → s.wait_map msg.command_index ≡ some t
      → deserialize_op msg.command blank ≡ op
      → let a = apply_msg blank msg s in
        (a.futures t ≡ ready (apply_op op s.machine).1)
        × (a.machine ≡ (apply_op op s.machine).0)
        × (a.dead ≡ s.dead)
  unfolding apply_msg fulfil
  apply_msg-fulfils blank op msg s t valid held e =
      rw (valid, e, held, (==_iff t t).1 refl) (refl, refl, refl)

  -- A read whose entry a live server applies while the read waits for it, with a UTF-8 key and numbers
  -- in the ranges of their types: the reply has the value that the key has at that point of the log, or
  -- the error for a missing key where that value is empty; and the store is as it was.
  pub get_served :
      (blank : Op) (args : GetArgs) (reply : GetReply) (msg : ApplyMsg) (s : Server) (t : ℕ)
      → msg.command_valid ≡ true
      → s.wait_map msg.command_index ≡ some t
      → msg.command ≡ serialize_op (get_op args)
      → json.is_text args.key ≡ true
      → args.client_id < 2 ^ 64
      → IsInt args.seq
      → s.dead ≡ false
      → let a = apply_msg blank msg s in
        ((finish_get args reply msg.command_index (a.futures t) a).1
          ≡ reply_of (register args.key s.machine) reply)
        × (a.machine ≡ s.machine)
  unfolding finish_get apply_op bytes_eq is_ascii
  get_served blank args reply msg s t valid held e k c q alive =
      let a = apply_msg blank msg s in
      let back =
        deserialize_op-serialize_op (get_op args) blank (json.is_ascii-is_text op_get refl) k
          (json.is_ascii-is_text [] refl) c q in
      let (fut, machine, dead) =
        apply_msg-fulfils blank (get_op args) msg s t valid held
          (ap (λ x. deserialize_op x blank) e ∙ back) in
      rw
        (
          erase-dead msg.command_index a ∙ dead ∙ alive,
          fut,
          machine,
          (same_request_iff (get_op args) args.client_id args.seq).1 (refl, refl),
        )
        (refl, refl)

  -- A write that waits for an index, when the applier comes to that index and the write goes on behind
  -- it, before anything else happens to the server: the write is answered OK exactly when the server is
  -- alive and the operation in the entry there is of the same client and has the same number, whatever
  -- the log had there when the write was begun. Nothing waits for that index any more, and the number of
  -- that operation is recorded, so that a repetition would be a duplicate, unless it is an operation that
  -- never changes the store.
  pub put_append_served :
      (blank : Op) (args : PutAppendArgs) (reply : PutAppendReply) (msg : ApplyMsg) (s : Server)
      (t : ℕ)
      → msg.command_valid ≡ true
      → s.wait_map msg.command_index ≡ some t
      → let op = deserialize_op msg.command blank in
        let a = apply_msg blank msg s in
        let r = finish_put_append args reply msg.command_index (a.futures t) a in
        ((r.1.err ≡ err_ok)
          ↔ ((s.dead ≡ false) × (op.client_id ≡ args.client_id) × (op.seq ≡ args.seq)))
        × (r.0.wait_map msg.command_index ≡ none)
        × ((is_duplicate r.0.machine op.client_id op.seq ≡ true)
            ⊎ ((m : Machine) → (apply_op op m).0 ≡ m))
  put_append_served blank args reply msg s t valid held =
      let op = deserialize_op msg.command blank in
      let a = apply_msg blank msg s in
      let index = msg.command_index in
      let (fut, machine, dead) = apply_msg-fulfils blank op msg s t valid held refl in
      let left = finish_put_append-erase args reply index (a.futures t) a in
      let (waiting, same) = erase-lem index a in
      (
        subst
            (λ f.
              ((finish_put_append args reply index f a).1.err ≡ err_ok)
              ↔ ((s.dead ≡ false) × (op.client_id ≡ args.client_id) × (op.seq ≡ args.seq)))
            (sym fut)
            (finish_put_append-ok_iff args reply index op (apply_op op s.machine).1 a s.dead dead
              (apply_op-whose op s.machine)),
        rw left waiting,
        rw (left, same, machine) (apply_op-settles op s.machine),
      )
