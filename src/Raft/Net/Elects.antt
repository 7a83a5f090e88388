-- ===== src/Raft/Net/Elects.antt =====
-- A node that finds itself elected: it comes into the ledger with the log it has
-- (`promoteToLeader`, kvcluster/raft/raft.cpp).
use raft_drive.Prelude.{
  ◌⊎◌, ℕ, ◌<◌, ◌≡◌, refl, sym, ap, subst, ◌∙◌, ◌≢◌, inl, inr, none, some, arith, List, get_elem?,
  eq_of_some-eq, pos, ℕ-cases, Option-cases,
}
use raft_drive.Raft.Types.{AppendEntriesArgs}
use raft_drive.Raft.State.{State, leader, candidate, follower, Node, is_majority}
use raft_drive.Raft.Ballot.Rounds.{Crowned}
use raft_drive.Raft.Cluster.{Member, put, become}
use raft_drive.Raft.Cluster.Tally.{tally-common}
use raft_drive.Raft.Cluster.Sound.{backs}
use raft_drive.Raft.Cluster.Kept.{put-here, put-there, become-votes}
use raft_drive.Raft.Cluster.Good.{Good, Grows-put}
use raft_drive.Raft.Cluster.Safety.{standing-backed, pos_inj}
use raft_drive.Raft.Net.Queue.{append_queue, All, All-map}
use raft_drive.Raft.Net.Store.{SameStore}
use raft_drive.Raft.Net.Ledger.{
  Ledger, Within, Within-Extends, CallOk, CallOk-Extends, Extends, elect, elect-Extends,
}
use raft_drive.Raft.Net.Logged.{
  NodeLog, NodeLog-Extends, Past, Elected, Logged, Logged-put, Logged-same,
}
use raft_drive.Raft.Net.Keeps.{NodeLog-Steady, Past-Steady}

pub leader-cases : (s : State) → s ≢ follower → s ≢ candidate → s ≡ leader
leader-cases leader a b = refl
leader-cases candidate a b = absurd (b refl)
leader-cases follower a b = absurd (a refl)

module _ {peers : ℕ} {L : Ledger} {calls : List (ℕ × AppendEntriesArgs)} (c : ℕ → Member) (i : ℕ)
    (m : Node) (b : i < peers) (good : Good peers c) (crown : Crowned (c i).node m)
    (s : SameStore (c i).node m) (g : Logged peers L c calls) where
  more : (u l : ℕ) → (c i).votes u ≡ pos l → (become m (c i)).votes u ≡ pos l
  more = become-votes m (c i) (good.sound i b) (inr (crown.current_term, inr crown.voted_for))

  -- The term has no leader yet.
  first_crowned :
      L.leader_of (c i).node.current_term ≡ none
      → Logged peers
          (elect L (c i).node.current_term i (c i).node.logs)
          (put c i (become m (c i)))
          calls
  first_crowned new =
      Logged-put K c i (become m (c i)) x more past node
        (λ k d a. NodeLog-Extends x (λ l mine.
          put-there L.log_of t (c k).node.current_term n.logs
            (λ e. cc (ap L.leader_of e, new, mine))))
        (λ u known. elim (ℕ-cases u t) [
          | inl here ↦
              subst (Within K) (sym (ap K.log_of here ∙ put-here L.log_of t n.logs))
                (Within-Extends n.logs x old.within)
          | inr there ↦ subst (Within K) (sym (put-there L.log_of t u n.logs there)) (
              Within-Extends (L.log_of u) x (
                g.logs u (elim known [
                  | inl zeroth ↦ inl zeroth
                  | inr (k, led) ↦ inr (k, sym (put-there L.leader_of t u (some i) there) ∙ led)
                ])))
        ])
        (λ u k led. elim (ℕ-cases u t) [
          | inl here ↦
              let who : i ≡ k =
                eq_of_some-eq
                  (sym (put-here L.leader_of t (some i)) ∙ (ap K.leader_of (sym here) ∙ led)) in
              inr (
                subst (λ w. Elected peers (put c i (become m (c i))) u w) who
                  (subst (λ w. Elected peers (put c i (become m (c i))) w i) (sym here) elected))
          | inr there ↦ inl (sym (put-there L.leader_of t u (some i) there) ∙ led)
        ])
        g
    where
      n : Node
      n = (c i).node

      t : ℕ
      t = n.current_term

      K : Ledger
      K = elect L t i n.logs

      old : NodeLog L i n
      old = g.nodes i b

      x : Extends L K
      x = elect-Extends L t i n.logs (λ e. omega (arith, old.up crown.stood, e)) new

      past : (u : ℕ) → Past u n → Past u m
      past u p = record {
        reached = omega (arith, p.reached, crown.current_term);
        stood = λ e f. cc (f, crown.state);
      }

      node : NodeLog K i m
      node = record {
        whole = s.included ∙ old.whole;
        no_snapshot = s.snapshot ∙ old.no_snapshot;
        head = ap (λ ls. get_elem? ls 0) s.logs ∙ old.head;
        within = subst (λ ls. Within K ls) (sym s.logs) (Within-Extends n.logs x old.within);
        queue = subst (All (CallOk K)) (sym s.queue) (
            All-map (CallOk L) (CallOk K) (append_queue n.tasks) (λ call. CallOk-Extends call x)
              old.queue);
        leads = λ l. (
          ap K.leader_of crown.current_term ∙ put-here L.leader_of t (some i),
          ap K.log_of crown.current_term ∙ (put-here L.log_of t n.logs ∙ sym s.logs),
        );
        up = λ h. omega (arith, old.up crown.stood, crown.current_term);
      }

      elected : Elected peers (put c i (become m (c i))) t i
      elected =
          let (many, mine) = standing-backed {c = c} good b crown.stood (
            ap (λ k. is_majority k n.votes_granted) (sym (good.sound i b).size) ∙ crown.majority) in
          record {
            inside = b;
            backers = backs i (c i) t;
            many = many;
            voted = λ j h. Grows-put c i (become m (c i)) more j t i (mine j h);
            past =
                subst (λ (y : Member). Past t y.node) (sym (put-here c i (become m (c i))))
                  (record {
                    reached = omega (arith, crown.current_term);
                    stood = λ e f. cc (f, crown.state);
                  });
          }

  -- The term has a leader: it is this node, which leads already.
  crowned_again :
      (k : ℕ)
      → L.leader_of (c i).node.current_term ≡ some k
      → ((c i).node.state ≡ leader) × Logged peers L (put c i (become m (c i))) calls
  crowned_again k led =
      let n = (c i).node in
      let t = n.current_term in
      let e = g.elected t k led in
      let (many, mine) =
        standing-backed {c = c} good b crown.stood
          (ap (λ k. is_majority k n.votes_granted) (sym (good.sound i b).size) ∙ crown.majority) in
      let (j, yes_i, yes_k) =
        tally-common (backs i (c i) t) e.backers peers (omega (arith, many, e.many)) in
      let who : k ≡ i = pos_inj (sym (e.voted j yes_k) ∙ mine j yes_i) in
      let leads : n.state ≡ leader =
        leader-cases n.state crown.stood ((subst (λ w. Past t (c w).node) who e.past).stood refl) in
      let steady = inr (crown.current_term, crown.state ∙ sym leads) in
      (
        leads,
        Logged-same c i (become m (c i)) more (λ u. Past-Steady u steady)
            (NodeLog-Steady s steady (g.nodes i b)) g,
      )

  pub Logged-Crowned :
      ((L.leader_of (c i).node.current_term ≡ none)
        × Logged peers
            (elect L (c i).node.current_term i (c i).node.logs)
            (put c i (become m (c i)))
            calls)
      ⊎ (((c i).node.state ≡ leader) × Logged peers L (put c i (become m (c i))) calls)
  Logged-Crowned = elim (Option-cases (L.leader_of (c i).node.current_term)) [
    | inl new ↦ inl (new, first_crowned new)
    | inr (k, led) ↦ inr (crowned_again k led)
  ]
