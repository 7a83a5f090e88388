-- ===== src/Raft/Commit.antt =====
-- The commit index of a leader: `helperUpdateLeaderCommitIndex` (kvcluster/raft/raft.cpp).
use raft_drive.Prelude.{
  both, ℤ, List, [], ◌∷◌, subst, ◌≢◌, get_elem?, to_int, int_eq, int_eq_iff, leb→le, ℕ, zero, suc,
  ◌+◌, ◌*◌, ◌/◌, ◌≤◌, ◌<◌, ◌≡◌, refl, ap, ◌∙◌, Bool, true, false, not, ◌||◌, ◌⊎◌, inl, inr, some,
  none, leb, ltb, ◌==◌, Bool-cases, Option-cases, eq_of_some-eq, arith, leb→lt, ltb→lt, ltb→le,
  ==_iff, length,
}
use raft_drive.Raft.State.{
  State, leader, follower, candidate, Node, log_term, relative_index, is_majority, is_leader_state,
}
use raft_drive.Raft.Roles.{last_log_index}
use raft_drive.Raft.Leader.{count_replicated, can_commit, find_commit, update_commit_index}

-- These nodes, in ascending order from `start` on, are not the node itself and store the entry
-- `index`, as far as the leader knows.
abbrev pub Copies : ℤ → ℕ → List ℕ → ℕ → List ℕ → Type 0
Copies id index match start [] = Unit {0}
Copies id index match start (j ∷ js) =
    (start ≤ j)
    × (to_int j ≢ id)
    × ((m : ℕ) × (get_elem? match j ≡ some m) × (index ≤ m))
    × Copies id index match (j + 1) js

-- The leader and so many other nodes that it is more than half of all store the entry `index`, and it
-- is of the leader's own term.
pub record Committable (index : ℕ) (n : Node) : Type 0 where
  pub majority :
      (js : List ℕ) × (n.peers < 2 * (1 + length js)) × Copies n.id index n.match_index 0 js
  pub own_term : log_term n.logs (relative_index n index) ≡ some n.current_term

Copies-earlier :
    (id : ℤ) (index : ℕ) (match : List ℕ) (i : ℕ) (js : List ℕ)
    → Copies id index match (i + 1) js
    → Copies id index match i js
Copies-earlier id index match i [] c = tt
Copies-earlier id index match i (j ∷ js) (le, other, has, rest) = (omega arith, other, has, rest)

-- The count of the code is the number of such nodes.
count_replicated-Copies :
    (id : ℤ) (index : ℕ) (match : List ℕ) (i : ℕ) (ms : List ℕ)
    → ((k : ℕ) → get_elem? match (i + k) ≡ get_elem? ms k)
    → (js : List ℕ) × (length js ≡ count_replicated id index i ms) × Copies id index match i js
unfolding count_replicated
count_replicated-Copies id index match i [] at = ([], refl, tt)
count_replicated-Copies id index match i (m ∷ ms) at =
    let (js, len, c) =
      count_replicated-Copies id index match (i + 1) ms
        (λ k. subst (λ x. get_elem? match x ≡ get_elem? ms k) (omega arith) (at (suc k))) in
    let skip = Copies-earlier id index match i js c in
    elim (Bool-cases (int_eq (to_int i) id)) [
      | inl own ↦ rw own (js, len, skip)
      | inr other ↦ elim (Bool-cases (leb index m)) [
        | inl stores ↦
            rw (other, stores)
              (
                i ∷ js,
                ap suc len,
                (
                  omega arith,
                  (λ e. cc (other, (int_eq_iff (to_int i) id).1 e)),
                  (
                    m,
                    subst (λ x. get_elem? match x ≡ some m) (omega arith) (at 0),
                    leb→le _ _ stores,
                  ),
                  c,
                ),
              )
        | inr lacks ↦ rw (other, lacks) (js, len, skip)
      ]
    ]

can_commit-Committable : (index : ℕ) (n : Node) → can_commit index n ≡ true → Committable index n
unfolding can_commit
can_commit-Committable index n h = elim (Option-cases (log_term n.logs (relative_index n index))) [
  | inl e ↦ let f = both _ false (rw e at h) in cc (f.1)
  | inr (t, e) ↦
      let (m, f) =
        both (is_majority n.peers (1 + count_replicated n.id index 0 n.match_index))
          (t == n.current_term) (rw e at h) in
      let (js, len, c) =
        count_replicated-Copies n.id index n.match_index 0 n.match_index
          (λ k. ap (get_elem? n.match_index) (omega arith)) in
      record {
        majority = (
          js,
          omega (
            arith,
            len,
            ltb→lt (n.peers / 2) (1 + count_replicated n.id index 0 n.match_index)
                (unfold is_majority in m),
          ),
          c,
        );
        own_term = e ∙ ap some ((==_iff t n.current_term).0 f);
      }
]

-- What the loop finds is the first index from above that passes the test.
pub find_commit_lem :
    (k : ℕ) (n : Node)
    → (find_commit k n ≡ none)
      ⊎ ((index : ℕ) × (find_commit k n ≡ some index)
          × (n.commit_index < index)
          × (index ≤ k)
          × Committable index n)
unfolding find_commit
find_commit_lem zero n = inl refl
find_commit_lem (suc k) n = elim (Bool-cases (leb (suc k) n.commit_index)) [
  | inl low ↦ inl (rw low refl)
  | inr high ↦ elim (Bool-cases (can_commit (suc k) n)) [
    | inl ok ↦ inr (
      suc k,
      rw (high, ok) refl,
      omega (arith, leb→lt _ _ high),
      omega arith,
      can_commit-Committable (suc k) n ok,
    )
    | inr not_yet ↦ elim (find_commit_lem k n) [
      | inl e ↦ inl (rw (high, not_yet) e)
      | inr (i, e, low, up, c) ↦ inr (i, rw (high, not_yet) e, low, omega arith, c)
    ]
  ]
]

pub find_commit-maximal :
    (k : ℕ) (n : Node) (index later : ℕ)
    → find_commit k n ≡ some index
    → index < later
    → later ≤ k
    → can_commit later n ≡ false
unfolding find_commit
find_commit-maximal zero n index later e above within = absurd (omega arith)
find_commit-maximal (suc k) n index later e above within =
    elim (Bool-cases (leb (suc k) n.commit_index)) [
      | inl low ↦ let never = rw (find_commit, low) at e in cc
      | inr high ↦ elim (Bool-cases (can_commit (suc k) n)) [
        | inl ok ↦
            let same = eq_of_some-eq (rw (find_commit, high, ok) at e) in absurd (omega arith)
        | inr not_yet ↦ elim (Bool-cases (ltb later (suc k))) [
          | inl before ↦
              let earlier = ltb→lt _ _ before in
              find_commit-maximal k n index later (rw (find_commit, high, not_yet) at e) above
                (omega (arith, earlier))
          | inr last ↦ let same : later ≡ suc k = omega (arith, ltb→le _ _ last) in rw same not_yet
        ]
      ]
    ]

leading :
    (d : Bool) (s : State) (z : Bool)
    → (d || not (is_leader_state s) || z) ≡ false
    → (d ≡ false) × (s ≡ leader)
leading true s z h = cc
leading false leader z h = (refl, refl)
leading false candidate z h = cc
leading false follower z h = cc

-- The commit index of a node stays, or it goes up to an index of the log; then the node is alive and
-- leads, the entry there is of its own term, and there are other nodes that store it as far as the
-- leader knows, which are with the leader more than half of all. Nothing else of the node changes.
pub update_commit_index_lem :
    (n : Node)
    → (update_commit_index n ≡ n)
      ⊎ ((index : ℕ) × (update_commit_index n ≡ record n { commit_index = index })
          × (n.commit_index < index)
          × (index ≤ last_log_index n)
          × (n.dead ≡ false)
          × (n.state ≡ leader)
          × Committable index n)
unfolding update_commit_index
update_commit_index_lem n =
    elim (Bool-cases (n.dead || not (is_leader_state n.state) || length n.logs == 0)) [
      | inl idle ↦ inl (rw idle refl)
      | inr busy ↦ elim (find_commit_lem (last_log_index n) n) [
        | inl e ↦ inl (rw (busy, e) refl)
        | inr (i, e, low, up, c) ↦
            let (alive, leads) = leading n.dead n.state (length n.logs == 0) busy in
            inr (i, rw (busy, e) refl, low, up, alive, leads, c)
      ]
    ]

-- When the commit index of a leader goes up, no index of the log above the new one passes the test of
-- the loop: it goes up as far as it can.
pub update_commit_index-maximal :
    (n : Node) (later : ℕ)
    → n.commit_index < (update_commit_index n).commit_index
    → (update_commit_index n).commit_index < later
    → later ≤ last_log_index n
    → can_commit later n ≡ false
unfolding update_commit_index
update_commit_index-maximal n later more above within =
    elim (Bool-cases (n.dead || not (is_leader_state n.state) || length n.logs == 0)) [
      | inl idle ↦ let never = rw idle at more in absurd (omega (arith, never))
      | inr leads ↦ elim (Option-cases (find_commit (last_log_index n) n)) [
        | inl e ↦ let never = rw (leads, e) at more in absurd (omega (arith, never))
        | inr (i, e) ↦
            find_commit-maximal (last_log_index n) n i later e (rw (leads, e) at above) within
      ]
    ]
