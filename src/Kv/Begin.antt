-- ===== src/Kv/Begin.antt =====
-- The first half of a write (`KVServer::putAppend`, kvcluster/kvserver/kvserver.cpp).
use raft_drive.Prelude.{
  ℕ, ◌+◌, ◌^◌, ◌<◌, ◌≡◌, refl, ap, ◌∙◌, ◌⊎◌, inl, inr, true, false, some, pos, Bool-cases,
  Option-cases, ==_iff, arith, length, get_elem?, take, int_to_u64, Bytes,
}
use raft_drive.Json.{JsonLib}
use raft_drive.Raft.State.{Node, leader}
use raft_drive.Raft.Roles.{start}
use raft_drive.Raft.Invariant.{IsValid}
use raft_drive.Raft.Start.{start_lem}
use raft_drive.Kv.Models.{PutAppendArgs, PutAppendReply, serialize_op}
use raft_drive.Kv.Server.{
  Server, pending, replied, waits, register, is_duplicate, begin_put_append, put_append_op, err_ok,
}

small_index : (n : ℕ) → n < 2 ^ 64 → int_to_u64 (pos n) ≡ n
small_index n h = ground arith

register_lem :
    (index : ℕ) (s : Server)
    → let r = register index s in
      (r.1 ≡ s.next_future)
      × (r.0.wait_map index ≡ some s.next_future)
      × (r.0.futures s.next_future ≡ pending)
      × (r.0.node ≡ s.node)
unfolding register
register_lem index s = elim (Option-cases (s.wait_map index)) [
  | inl e ↦
      rw (e, (==_iff index index).1 refl, (==_iff s.next_future s.next_future).1 refl)
        (refl, refl, refl, refl)
  | inr (t, e) ↦
      rw (e, (==_iff index index).1 refl, (==_iff s.next_future s.next_future).1 refl)
        (refl, refl, refl, refl)
]

module _ ⦃json : JsonLib⦄ where
  start_leads : (command : Bytes) (n : Node) → n.state ≡ leader → (start command n).3 ≡ true
  unfolding start
  start_leads command n leads = rw leads refl

  -- A write on a leader that satisfies the invariant, while the index of the new entry fits in an `int`:
  -- the write stands at the end of the log, in the leader's term, behind all that was there. When a
  -- number that is not lower is recorded for its client it is answered OK at once, before that entry is
  -- applied; else it waits for the index of that entry, with a new future that is not set.
  pub begin_put_append_lem :
      (args : PutAppendArgs) (reply : PutAppendReply) (s : Server)
      → s.node.state ≡ leader
      → IsValid s.node
      → s.node.last_included_index + length s.node.logs < 2 ^ 31
      → let index = s.node.last_included_index + length s.node.logs in
        let r = begin_put_append args reply s in
        (get_elem? r.0.node.logs (length s.node.logs)
          ≡ some
              (record { command = serialize_op (put_append_op args); term = s.node.current_term }))
        × (take (length s.node.logs) r.0.node.logs ≡ s.node.logs)
        × (((is_duplicate s.machine args.client_id args.seq ≡ true)
              × (r.1 ≡ replied (record reply { err = err_ok })))
            ⊎ ((is_duplicate s.machine args.client_id args.seq ≡ false)
                × (r.1 ≡ waits index s.next_future)
                × (r.0.wait_map index ≡ some s.next_future)
                × (r.0.futures s.next_future ≡ pending)))
  unfolding begin_put_append
  begin_put_append_lem args reply s leads valid small =
      let command = serialize_op (put_append_op args) in
      let n = (start command s.node).0 in
      let (fine, at, entry, before, kept) = start_lem command s.node leads valid small in
      let index = s.node.last_included_index + length s.node.logs in
      let same : int_to_u64 (start command s.node).1 ≡ index =
        ap int_to_u64 at ∙ small_index index (omega (arith, small)) in
      let flag = start_leads command s.node leads in
      let (number, held, unset, node) = register_lem index (record s { node = n }) in
      elim (Bool-cases (is_duplicate s.machine args.client_id args.seq)) [
        | inl d ↦ rw (flag, d) (entry, before, inl (refl, refl))
        | inr d ↦
            rw (flag, d, same)
              (
                ap (λ (m : Node). get_elem? m.logs (length s.node.logs)) node ∙ entry,
                ap (λ (m : Node). take (length s.node.logs) m.logs) node ∙ before,
                inr (refl, ap (waits index) number, held, unset),
              )
      ]
