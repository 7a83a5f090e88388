-- ===== src/Raft/Cluster/Granted.antt =====
-- A granted vote stands with the node that gave it, from the answer to the candidate's count
-- (kvcluster/raft/raft.cpp).
use raft_drive.Prelude.{
  ℕ, ◌≡◌, refl, sym, ap, ap₂, subst, ◌∙◌, ◌≢◌, ◌⊎◌, inl, inr, Bool, true, false, ◌||◌, minus_one,
  ℕ-cases, arith, some, int_eq_iff,
}
use raft_drive.Json.{JsonLib}
use raft_drive.Raft.Types.{RequestVoteArgs, RequestVoteReply}
use raft_drive.Raft.State.{Node, Env}
use raft_drive.Raft.Persist.{persist}
use raft_drive.Raft.Roles.{request_vote, step_down}
use raft_drive.Raft.Cluster.{VoteCall, idle, answered, Member, put, set_call, is_counted, receive}
use raft_drive.Raft.Cluster.Sound.{claims, is_granted}
use raft_drive.Raft.Cluster.Kept.{put-here, put-there}
use raft_drive.Raft.Cluster.Calls.{put-cases}

-- What holds of the value put there and of those that were there holds of all.
pub put-elim {ℓ κ} :
    {A : Type ℓ} (P : ℕ → A → Type κ) (f : ℕ → A) (i : ℕ) (x : A) (k : ℕ)
    → P i x
    → (k ≢ i → P k (f k))
    → P k (put f i x k)
put-elim P f i x k here there = elim (ℕ-cases k i) [
  | inl e ↦ subst (λ j. P j (put f i x j)) (sym e) (subst (P i) (sym (put-here f i x)) here)
  | inr d ↦ subst (P k) (sym (put-there f i k x d)) (there d)
]

pub or-cases : (a b : Bool) → (a || b) ≡ true → (a ≡ true) ⊎ (b ≡ true)
or-cases true b h = inl refl
or-cases false b h = inr h

pub or-left : (a b : Bool) → a ≡ true → (a || b) ≡ true
or-left a b h = rw h refl

pub or-right : (a b : Bool) → b ≡ true → (a || b) ≡ true
or-right true b h = refl
or-right false b h = h

-- A call that holds no vote adds none to what the node claims; one that does adds that vote.
pub claims-set_call :
    (x : Member) (t j : ℕ) (call : VoteCall) (u k : ℕ)
    → claims (set_call t j call x) u k ≡ true
    → (claims x u k ≡ true) ⊎ ((u ≡ t) × (k ≡ j) × (is_granted call ≡ true))
claims-set_call x t j call u k h = elim (or-cases (x.counted u k) _ h) [
  | inl counts ↦ inl (or-left (x.counted u k) _ counts)
  | inr granted ↦ elim (put-cases x.calls t j call u k) [
    | inl (e, d, g) ↦ inr (e, d, ap is_granted (sym g) ∙ granted)
    | inr (away, g) ↦ inl (or-right (x.counted u k) _ (ap is_granted (sym g) ∙ granted))
  ]
]

module _ ⦃json : JsonLib⦄ where
  pub request_vote-voted :
      (env : Env) (args : RequestVoteArgs) (n : Node) {m : Node} {r : RequestVoteReply}
      → request_vote env args n ≡ some (m, r)
      → r.vote_granted ≡ true
      → (m.current_term ≡ args.term) × (m.voted_for ≡ args.candidate_id)
  unfolding request_vote step_down persist
  request_vote-voted env args n h granted =
      ground (arith, int_eq_iff n.voted_for minus_one, int_eq_iff n.voted_for args.candidate_id)

  -- A reply adds no vote to those that the node claims.
  pub claims-receive :
      (env : Env) (x : Member) (t j : ℕ) (args : RequestVoteArgs) (r : RequestVoteReply) (u k : ℕ)
      → x.calls t j ≡ answered args r
      → claims (receive env t j r x) u k ≡ true
      → claims x u k ≡ true
  claims-receive env x t j args r u k reply h =
      elim (or-cases ((receive env t j r x).counted u k) _ h) [
        | inl counts ↦ elim (put-cases x.counted t j (x.counted t j || is_counted r x.node) u k) [
          | inl (e, d, g) ↦ elim (or-cases (x.counted t j) _ (sym g ∙ counts)) [
            | inl earlier ↦ or-left (x.counted u k) _ (ap₂ x.counted e d ∙ earlier)
            | inr now ↦
                or-right (x.counted u k) _
                  (ap is_granted (ap₂ x.calls e d ∙ reply) ∙ is_counted-granted r x.node now)
          ]
          | inr (away, g) ↦ or-left (x.counted u k) _ (sym g ∙ counts)
        ]
        | inr granted ↦ elim (put-cases x.calls t j idle u k) [
          | inl (e, d, g) ↦ absurd (cc granted)
          | inr (away, g) ↦ or-right (x.counted u k) _ (ap is_granted (sym g) ∙ granted)
        ]
      ]
    where
      is_counted-granted :
          (r : RequestVoteReply) (n : Node) → is_counted r n ≡ true → r.vote_granted ≡ true
      is_counted-granted r n h = ground arith
