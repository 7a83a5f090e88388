-- ===== src/Raft/Cluster/Good.antt =====
-- The steps of a cluster keep what holds of its nodes (kvcluster/raft/raft.cpp).
use raft_drive.Prelude.{
  false, ℕ, ◌^◌, ◌≤◌, ◌<◌, ◌≡◌, refl, sym, ap, ap₂, ◌∙◌, ◌⊎◌, inl, inr, true, pos, arith,
}
use raft_drive.Json.{JsonLib}
use raft_drive.Raft.State.{Node}
use raft_drive.Raft.Roles.{on_vote_reply}
use raft_drive.Raft.Ballot.{Ballot, Step-Calm, on_vote_reply-Ballot}
use raft_drive.Raft.Ballot.Moves.{request_vote-Calm}
use raft_drive.Raft.Ballot.Rounds.{Turn, calm, opened, crowned, main_round-Turn, Turn-Ballot}
use raft_drive.Raft.Cluster.{
  idle, asked, answered, Member, put, become, set_call, ClusterStep, moved, turned, taken, sent,
  called, lost, restarted, received, Run, here, later,
}
use raft_drive.Raft.Cluster.Sound.{Sound, claims, is_granted, is_busy, bit}
use raft_drive.Raft.Cluster.Kept.{put-here, become-vote, become-votes, Sound-Calm}
use raft_drive.Raft.Cluster.Elections.{Sound-Opened, Sound-Crowned}
use raft_drive.Raft.Cluster.Calls.{Sound-set_call, Sound-sent, taken-Calm}
use raft_drive.Raft.Cluster.Replies.{Sound-receive}
use raft_drive.Raft.Cluster.Restarts.{Sound-Restarted, init-Restarted}
use raft_drive.Raft.Cluster.Granted.{
  put-elim, or-cases, or-left, or-right, claims-set_call, claims-receive, request_vote-voted,
}

-- Each node is sound, and the votes that one claims are with the others.
pub record Good (peers : ℕ) (c : ℕ → Member) : Type 0 where
  pub sound : (i : ℕ) → i < peers → Sound peers i (c i)
  pub backed :
      (i t j : ℕ) → i < peers → claims (c i) t j ≡ true → (j < peers) × ((c j).votes t ≡ pos i)

-- No vote is taken back.
abbrev pub Grows : (ℕ → Member) → (ℕ → Member) → Type 0
Grows c d = (j t k : ℕ) → (c j).votes t ≡ pos k → (d j).votes t ≡ pos k

pub Grows-put :
    (c : ℕ → Member) (i : ℕ) (x : Member)
    → ((t k : ℕ) → (c i).votes t ≡ pos k → x.votes t ≡ pos k)
    → Grows c (put c i x)
Grows-put c i x more j t k =
    put-elim (λ j y. (c j).votes t ≡ pos k → y.votes t ≡ pos k) c i x j (more t k) (λ d h. h)

pub Good-put :
    {peers : ℕ} (c : ℕ → Member) (i : ℕ) (x : Member)
    → Sound peers i x
    → ((t k : ℕ) → (c i).votes t ≡ pos k → x.votes t ≡ pos k)
    → ((t j : ℕ)
        → claims x t j ≡ true
        → (claims (c i) t j ≡ true) ⊎ ((j < peers) × ((put c i x j).votes t ≡ pos i)))
    → Good peers c
    → Good peers (put c i x) × Grows c (put c i x)
Good-put {peers} c i x s more old g =
    let grows = Grows-put c i x more in
    (
      record {
        sound = λ k b.
            put-elim (λ k y. k < peers → Sound peers k y) c i x k (λ a. s) (λ d. g.sound k) b;
        backed = λ k t j b h.
            put-elim
              (λ k y.
                k < peers → claims y t j ≡ true → (j < peers) × ((put c i x j).votes t ≡ pos k))
              c i x k
              (λ a e. elim (old t j e) [
                | inl before ↦ let (inside, v) = g.backed i t j a before in (inside, grows j t i v)
                | inr now ↦ now
              ])
              (λ d a e. let (inside, v) = g.backed k t j a e in (inside, grows j t k v)) b h;
      },
      grows,
    )

-- A node goes on, with no more votes than before.
pub Good-become :
    {peers : ℕ} (c : ℕ → Member) (i : ℕ) (m : Node)
    → i < peers
    → Ballot (c i).node m
    → Sound peers i (become m (c i))
    → Good peers c
    → Good peers (put c i (become m (c i))) × Grows c (put c i (become m (c i)))
Good-become c i m b ballot s g =
    Good-put c i (become m (c i)) s (become-votes m (c i) (g.sound i b) ballot) (λ t j h. inl h) g

Turn-Sound :
    {peers i : ℕ} (x : Member) (m : Node)
    → i < peers
    → peers ≤ 2 ^ 31
    → Turn x.node m
    → Sound peers i x
    → Sound peers i (become m x)
Turn-Sound x m b small (calm c) s = Sound-Calm x m c s
Turn-Sound x m b small (opened o) s = Sound-Opened x m b small o s
Turn-Sound x m b small (crowned c) s = Sound-Crowned x m c s

module _ ⦃json : JsonLib⦄ where
  pub ClusterStep-Good :
      {peers : ℕ} {c d : ℕ → Member}
      → peers ≤ 2 ^ 31
      → ClusterStep peers c d
      → Good peers c
      → Good peers d × Grows c d
  ClusterStep-Good {peers} {c} small (moved i {m} s b local) g =
      let still = Step-Calm s local in
      Good-become c i m b still.ballot (Sound-Calm (c i) m still (g.sound i b)) g
  ClusterStep-Good {peers} {c} small (turned i env head {m} b room h) g =
      let turn = main_round-Turn env head (c i).node room h in
      Good-become c i m b (Turn-Ballot turn) (Turn-Sound (c i) m b small turn (g.sound i b)) g
  ClusterStep-Good {peers} {c} small (taken i t rest b h quiet) g =
      let still = taken-Calm (c i).node t rest h quiet in
      Good-become c i _ b still.ballot (Sound-Calm (c i) _ still (g.sound i b)) g
  ClusterStep-Good {peers} {c} small (sent i j args rest b h) g =
      let m = record (c i).node { tasks = rest } in
      Good-put c i _ (Sound-sent (c i) j args rest h (g.sound i b))
        (become-votes m (c i) (g.sound i b) (inr (refl, inr refl)))
        (λ t k e. elim (claims-set_call (c i) args.term j (asked args) t k e) [
          | inl before ↦ inl before
          | inr (_, _, f) ↦ absurd (cc f)
        ])
        g
  ClusterStep-Good {peers} {c} small (lost i t j b) g =
      Good-put c i _ (Sound-set_call (c i) t j idle (omega arith) (λ args e. cc e) (g.sound i b))
        (λ u k h. h)
        (λ u k e. elim (claims-set_call (c i) t j idle u k e) [
          | inl before ↦ inl before
          | inr (_, _, f) ↦ absurd (cc f)
        ])
        g
  ClusterStep-Good {peers} {c} small (restarted i env channel {m} b h texts term vote e) g =
      Good-put c i _
        (Sound-Restarted (c i) m (init-Restarted i env channel (c i).node h texts term vote e)
          (g.sound i b))
        (λ t k v. v)
        (λ t j q. elim (or-cases ((c i).counted t j) false q) [
          | inl counts ↦ inl (or-left ((c i).counted t j) _ counts)
          | inr never ↦ absurd (cc never)
        ])
        g
  ClusterStep-Good {peers} {c} small (received i t j env args r b h now) g =
      let inside : r.vote_granted ≡ true → j < peers = λ granted.
        (g.backed i t j b (or-right ((c i).counted t j) _ (ap is_granted h ∙ granted))).0 in
      Good-put c i _ (Sound-receive env (c i) t j r inside (ap is_busy h) now (g.sound i b))
        (become-votes (on_vote_reply env r (c i).node) (c i) (g.sound i b)
          (on_vote_reply-Ballot env r (c i).node))
        (λ u k e. inl (claims-receive env (c i) t j args r u k h e)) g
  ClusterStep-Good {peers} {c} small (called i t j env args {m} {r} b h answer) g =
      let (there, term, candidate_id) = (g.sound i b).asked_well t j args h in
      let still = request_vote-Calm env args (c j).node answer in
      let d = put c j (become m (c j)) in
      let (gd, grows) =
        Good-become c j m there still.ballot (Sound-Calm (c j) m still (g.sound j there)) g in
      let calls : (d i).calls t j ≡ asked args =
        put-elim (λ k y. y.calls t j ≡ (c k).calls t j) c j (become m (c j)) i refl (λ e. refl)
        ∙ h in
      let (ge, more) =
        Good-put d i (set_call t j (answered args r) (d i))
          (Sound-set_call (d i) t j (answered args r)
            (omega (arith, ap (λ w. bit (is_busy w)) calls)) (λ a e. cc e) (gd.sound i b))
          (λ u k v. v)
          (λ u k e. elim (claims-set_call (d i) t j (answered args r) u k e) [
            | inl before ↦ inl before
            | inr (now, whom, granted) ↦
                let (same_term, vote) = request_vote-voted env args (c j).node answer granted in
                let given : (d j).votes t ≡ pos i =
                  ap (λ (y : Member). y.votes t) (put-here c j (become m (c j)))
                  ∙ (ap (become m (c j)).votes (sym term ∙ sym same_term)
                      ∙ (become-vote m (c j) ∙ (vote ∙ candidate_id))) in
                inr (
                  omega (arith, there),
                  Grows-put d i (set_call t j (answered args r) (d i)) (λ w k v. v) k u i
                      (ap₂ (λ a b. (d a).votes b) whom now ∙ given),
                )
          ])
          gd in
      (ge, (λ k u w v. more k u w (grows k u w v)))

  pub Run-Good :
      {peers : ℕ} {c d : ℕ → Member}
      → peers ≤ 2 ^ 31
      → Run peers c d
      → Good peers c
      → Good peers d × Grows c d
  Run-Good small here g = (g, (λ j t k v. v))
  Run-Good small (later r s) g =
      let (h, first) = Run-Good small r g in
      let (e, last) = ClusterStep-Good small s h in (e, (λ j t k v. last j t k (first j t k v)))
