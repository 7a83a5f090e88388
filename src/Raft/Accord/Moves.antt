-- ===== src/Raft/Accord/Moves.antt =====
-- A node of a cluster goes on, and the ledger and the chronicle may have grown
-- (kvcluster/raft/raft.cpp).
use raft_drive.Prelude.{
  ℕ, ◌≤◌, ◌<◌, ◌≡◌, sym, ap, subst, ◌≢◌, ◌⊎◌, inl, inr, true, none, some, arith, ℕ-cases,
  Option-cases,
}
use raft_drive.Raft.Types.{RequestVoteArgs}
use raft_drive.Raft.Cluster.{asked, Member, put}
use raft_drive.Raft.Cluster.Sound.{claims, is_busy, bit}
use raft_drive.Raft.Cluster.Granted.{put-elim}
use raft_drive.Raft.Cluster.Good.{Good}
use raft_drive.Raft.Net.Ledger.{Ledger, Known}
use raft_drive.Raft.Accord.Defs.{
  Chronicle, Shaped, Brought, Backed, Taken, Grown, Brought-Grown, Taken-Grown,
}
use raft_drive.Raft.Accord.Keeper.{
  Asks, Keeper, Accorded, Asks-Grown, Keeper-Grown, claims-reached, not_later,
}

module _ {peers : ℕ} {L K : Ledger} {A B : Chronicle} (c : ℕ → Member) (i : ℕ) (x : Member)
    (good : Good peers c) (inside : i < peers) (g : Grown L A K B)
    (rows : (j : ℕ) → j ≢ i → (t : ℕ) → B.taken_of j t ≡ A.taken_of j t)
    (row : (t : ℕ) → t < (c i).node.current_term → B.taken_of i t ≡ A.taken_of i t)
    (stands : (j : ℕ) → j ≢ i → (u : ℕ) → B.stand_of j u ≡ A.stand_of j u)
    (stand : (u : ℕ) → u ≤ (c i).node.current_term → B.stand_of i u ≡ A.stand_of i u)
    (term : (c i).node.current_term ≤ x.node.current_term) (keeper : Keeper K B i x.node)
    (asks : (t j : ℕ) (args : RequestVoteArgs)
      → x.calls t j ≡ asked args
      → ((c i).calls t j ≡ asked args) ⊎ Asks K B i (j, args))
    (claim : (u j : ℕ)
      → claims x u j ≡ true
      → K.leader_of u ≡ none
      → (claims (c i) u j ≡ true) ⊎ Brought K B j u (B.stand_of i u))
    (taken : (t : ℕ) → 0 < B.taken_of i t → Taken K B i t)
    (shaped : (u : ℕ) → Known K u → Shaped K B u)
    (new : (u k : ℕ)
      → K.leader_of u ≡ some k
      → (L.leader_of u ≡ some k)
        ⊎ ((b : Backed peers K B u) × ((j : ℕ)
              → b.backers j ≡ true
              → j < peers
              → u ≤ (c j).node.current_term)))
    (old : Accorded peers L A c) where
  before : (j t u : ℕ) → t < u → u ≤ (c j).node.current_term → B.taken_of j t ≡ A.taken_of j t
  before j t u lt le = elim (ℕ-cases j i) [
    | inl here ↦
        subst (λ k. B.taken_of k t ≡ A.taken_of k t) (sym here)
          (row t (omega (arith, lt, subst (λ k. u ≤ (c k).node.current_term) here le)))
    | inr there ↦ rows j there t
  ]

  reached : (j : ℕ) → (c j).node.current_term ≤ (put c i x j).node.current_term
  reached j =
      put-elim (λ k y. (c k).node.current_term ≤ y.node.current_term) c i x j term
        (λ d. omega arith)

  stand_then : (k u : ℕ) → u ≤ (c k).node.current_term → B.stand_of k u ≡ A.stand_of k u
  stand_then k u le = elim (ℕ-cases k i) [
    | inl here ↦
        subst (λ k. B.stand_of k u ≡ A.stand_of k u) (sym here)
          (stand u (subst (λ k. u ≤ (c k).node.current_term) here le))
    | inr there ↦ stands k there u
  ]

  none_before : (u : ℕ) → K.leader_of u ≡ none → L.leader_of u ≡ none
  none_before u h = elim (Option-cases (L.leader_of u)) [
    | inl e ↦ e
    | inr (k, e) ↦ cc (h, g.extends.leaders u k e)
  ]

  claim_before :
      (k u j : ℕ)
      → k < peers
      → claims (c k) u j ≡ true
      → K.leader_of u ≡ none
      → Brought K B j u (B.stand_of k u)
  claim_before k u j b h free =
      let (mine, voter, theirs) = claims-reached k u j good b h in
      subst (Brought K B j u) (sym (stand_then k u mine)) (
        Brought-Grown {L = L} {K = K} {A = A} {B = B} j u (A.stand_of k u) g (old.taken j)
          (λ t lt. before j t u lt theirs) (old.voted k u j b h (none_before u free)))

  Backed-before :
      (u k : ℕ)
      → L.leader_of u ≡ some k
      → (b : Backed peers K B u) × ((j : ℕ)
          → b.backers j ≡ true
          → j < peers
          → u ≤ (put c i x j).node.current_term)
  Backed-before u k led =
      let (b, past) = old.backed u k led in
      (
        record {
          backers = b.backers;
          many = b.many;
          brought = λ j h. subst (Brought K B j u) (sym (g.bases u k led)) (
              Brought-Grown {L = L} {K = K} {A = A} {B = B} j u (A.base_of u) g (old.taken j)
                (λ t lt. elim (ℕ-cases j i) [
                  | inl here ↦ before j t u lt (past j h (omega (arith, here, inside)))
                  | inr there ↦ rows j there t
                ])
                (b.brought j h));
        },
        λ j h a. omega (arith, past j h a, reached j),
      )

  asks_before :
      (k t j : ℕ) (args : RequestVoteArgs)
      → k < peers
      → (c k).calls t j ≡ asked args
      → Asks K B k (j, args)
  asks_before k t j args b e =
      let s = good.sound k b in
      let (voter, same, candidate_id) = s.asked_well t j args e in
      let le =
        not_later t (c k).node.current_term
          (λ lt. omega (arith, s.no_load t j lt, ap (λ w. bit (is_busy w)) e)) in
      Asks-Grown {L = L} {K = K} {A = A} {B = B} k (j, args) g
        (stand_then k args.term (omega (arith, same, le))) (old.asked_well k t j args b e)

  pub Accorded-put : Accorded peers K B (put c i x)
  Accorded-put = record {
    keepers = λ k b.
        put-elim (λ k y. k < peers → Keeper K B k y.node) c i x k (λ a. keeper)
          (λ d a.
            Keeper-Grown {L = L} {K = K} {A = A} {B = B} k (c k).node g (rows k d)
              (λ u le. stands k d u) (old.taken k) (old.keepers k a))
          b;
    asked_well = λ k t j args b h.
        put-elim (λ k y. k < peers → y.calls t j ≡ asked args → Asks K B k (j, args)) c i x k
          (λ a e. elim (asks t j args e) [
            | inl before ↦ asks_before i t j args a before
            | inr now ↦ now
          ])
          (λ d a e. asks_before k t j args a e) b h;
    voted = λ k u j b h free.
        put-elim (λ k y. k < peers → claims y u j ≡ true → Brought K B j u (B.stand_of k u)) c i x k
          (λ a e. elim (claim u j e free) [
            | inl before ↦ claim_before i u j a before free
            | inr now ↦ now
          ])
          (λ d a e. claim_before k u j a e free) b h;
    taken = λ j t some_entry. elim (ℕ-cases j i) [
      | inl here ↦
          subst (λ k. Taken K B k t) (sym here)
            (taken t (subst (λ k. 0 < B.taken_of k t) here some_entry))
      | inr there ↦
          Taken-Grown {L = L} {K = K} {A = A} {B = B} j t g (rows j there t)
            (old.taken j t (omega (arith, some_entry, rows j there t)))
    ];
    shaped = shaped;
    backed = λ u k led. elim (new u k led) [
      | inl before ↦ Backed-before u k before
      | inr (b, past) ↦ (b, λ j h a. omega (arith, past j h a, reached j))
    ];
  }
