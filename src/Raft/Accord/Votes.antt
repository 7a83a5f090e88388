-- ===== src/Raft/Accord/Votes.antt =====
-- A node that gives its vote has taken nothing that the candidate's log has not (`requestVote`,
-- kvcluster/raft/raft.cpp).
use raft_drive.Prelude.{
  ℕ, suc, ◌-◌, ◌^◌, ◌<◌, ◌≡◌, refl, sym, ap, subst, ◌∙◌, inl, inr, true, none, some, arith, length,
  get_elem?-some, get_elem?-lt, eq_of_some-eq,
}
use raft_drive.Json.{JsonLib}
use raft_drive.Raft.Types.{RequestVoteArgs, RequestVoteReply}
use raft_drive.Raft.State.{Node, Env}
use raft_drive.Raft.Roles.{request_vote, last_log_term}
use raft_drive.Raft.Vote.{UpToDate, request_vote-granted_iff}
use raft_drive.Raft.Ballot.Moves.{request_vote-Calm}
use raft_drive.Raft.Cluster.{asked, answered, Member, put, become, set_call}
use raft_drive.Raft.Cluster.Kept.{Ballot-le, Sound-Calm}
use raft_drive.Raft.Cluster.Granted.{claims-set_call, request_vote-voted}
use raft_drive.Raft.Cluster.Calls.{put-cases}
use raft_drive.Raft.Cluster.Good.{Good, Good-become}
use raft_drive.Raft.Net.Store.{request_vote-SameStore}
use raft_drive.Raft.Net.Ledger.{Ledger, Known}
use raft_drive.Raft.Net.Logged.{NodeLog}
use raft_drive.Raft.Net.Keeps.{Steady-of_Calm}
use raft_drive.Raft.Accord.Defs.{Chronicle, Holds, Handed, Shaped, Brought}
use raft_drive.Raft.Accord.Complete.{up_to_date-Holds}
use raft_drive.Raft.Accord.Stands.{last_log_index-small, last_log_term-entry}
use raft_drive.Raft.Accord.Still.{
  Handed-less, Handed-next, Keeper-Steady, Grown-refl, Accorded-still,
}
use raft_drive.Raft.Accord.Moves.{Accorded-put}
use raft_drive.Raft.Accord.Keeper.{Asks, Keeper, Accorded}

last_log_term-some : (n : Node) → 0 < length n.logs → (t : ℕ) × (last_log_term n ≡ some t)
unfolding last_log_term
last_log_term-some n some_entry =
    let (e, at) = get_elem?-some n.logs (length n.logs - 1) (omega (arith, some_entry)) in
    (e.term, rw (last_log_term, at) refl)

module _ ⦃json : JsonLib⦄ where
  granted-UpToDate :
      (env : Env) (args : RequestVoteArgs) (n : Node) (t : ℕ) {m : Node} {r : RequestVoteReply}
      → last_log_term n ≡ some t
      → request_vote env args n ≡ some (m, r)
      → r.vote_granted ≡ true
      → UpToDate args t n
  granted-UpToDate env args n t {m} {r} found h granted =
      let (k, s, e, iff, recorded, term) = request_vote-granted_iff env args n t found in
      let same : s ≡ r = ap (λ (x : Node × RequestVoteReply). x.1) (eq_of_some-eq (sym e ∙ h)) in
      (iff.0 (ap (λ (x : RequestVoteReply). x.vote_granted) same ∙ granted)).1

  granted-Brought :
      {L : Ledger} {A : Chronicle} (env : Env) (i j : ℕ) (args : RequestVoteArgs) (n : Node)
      {m : Node} {r : RequestVoteReply}
      → length n.logs < 2 ^ 64
      → NodeLog L j n
      → Keeper L A j n
      → Asks L A i (j, args)
      → ((u : ℕ) → Known L u → Shaped L A u)
      → L.leader_of args.term ≡ none
      → request_vote env args n ≡ some (m, r)
      → r.vote_granted ≡ true
      → Brought L A j args.term (A.stand_of i args.term)
  granted-Brought {L} {A} env i j args n {m} {r} room node old asks shaped free h granted t p lt
        some_entry le own handed =
      let still = request_vote-Calm env args n h in
      let same = request_vote-SameStore env args n h in
      let (term, vote) = request_vote-voted env args n h granted in
      let keeper : Keeper L A j m =
        Keeper-Steady {A = A} same.logs (Steady-of_Calm n m still) still.queue old in
      let holds : Holds L t p n.logs = subst (Holds L t p) same.logs (
        keeper.keeps t p some_entry le (
          subst (λ w. Handed L A t p (suc w)) (sym term)
            (Handed-next L A t p args.term free handed))) in
      let filled = get_elem?-lt n.logs 0 node.head in
      let (last, found) = last_log_term-some n filled in
      let (b, at, mine) = last_log_term-entry n last found in
      let index = last_log_index-small n node.whole filled room in
      up_to_date-Holds {A = A} (A.stand_of i args.term) n.logs t p own shaped asks.within
        node.within holds asks.last b args.last_log_index (length n.logs - 1) asks.at at
        (omega (arith, filled))
        (Handed-less L A t p (suc asks.last.term) args.term (omega (arith, asks.earlier)) handed)
        (elim (granted-UpToDate env args n last found h granted) [
          | inl newer ↦ inl (omega (arith, newer, mine, asks.last_term))
          | inr (level, further) ↦
              inr (omega (arith, level, mine, asks.last_term), omega (arith, further, index))
        ])

  -- A request for a vote is answered.
  pub Accorded-called :
      {peers : ℕ} {L : Ledger} {A : Chronicle} (c : ℕ → Member) (i t j : ℕ) (env : Env)
      (args : RequestVoteArgs) {m : Node} {r : RequestVoteReply}
      → i < peers
      → (c i).calls t j ≡ asked args
      → request_vote env args (c j).node ≡ some (m, r)
      → length (c j).node.logs < 2 ^ 64
      → Good peers c
      → NodeLog L j (c j).node
      → Accorded peers L A c
      → let d = put c j (become m (c j)) in
        Accorded peers L A (put d i (set_call t j (answered args r) (d i)))
  Accorded-called {peers} {L} {A} c i t j env args {m} {r} b h answer room good node all =
      let (there, term, candidate_id) = (good.sound i b).asked_well t j args h in
      let still = request_vote-Calm env args (c j).node answer in
      let same = request_vote-SameStore env args (c j).node answer in
      let steady = Steady-of_Calm (c j).node m still in
      let keeper : Keeper L A j m =
        Keeper-Steady {A = A} same.logs steady still.queue (all.keepers j there) in
      let d = put c j (become m (c j)) in
      let (gd, grows) =
        Good-become c j m there still.ballot (Sound-Calm (c j) m still (good.sound j there)) good in
      let first : Accorded peers L A d =
        Accorded-still c j (become m (c j)) good there (Ballot-le (c j).node m still.ballot) keeper
          (λ u k s e. inl e) (λ u k e. e) all in
      let asks = all.asked_well i t j args b h in
      Accorded-put {L = L} {K = L} {A = A} {B = A} d i (set_call t j (answered args r) (d i)) gd b
        (Grown-refl L A) (λ k e s. refl) (λ s lt. refl) (λ k e u. refl) (λ u le. refl) (omega arith)
        (first.keepers i b)
        (λ u k s e. elim (put-cases (d i).calls t j (answered args r) u k) [
          | inl (x, y, g) ↦ absurd (cc (sym g ∙ e))
          | inr (away, g) ↦ inl (sym g ∙ e)
        ])
        (λ u k e free. elim (claims-set_call (d i) t j (answered args r) u k e) [
          | inl before ↦ inl before
          | inr (now, whom, granted) ↦
              let which : args.term ≡ u = term ∙ sym now in
              inr (
                subst (λ v. Brought L A v u (A.stand_of i u)) (sym whom)
                  (subst (λ w. Brought L A j w (A.stand_of i w)) which
                    (granted-Brought env i j args (c j).node room node (all.keepers j there) asks
                      all.shaped (ap L.leader_of which ∙ free) answer granted)))
        ])
        (first.taken i) first.shaped (λ u k led. inl led) first
