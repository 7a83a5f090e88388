-- ===== src/Raft/Accord/Still.antt =====
-- What leaves the leaders' entries as they are (kvcluster/raft/raft.cpp).
use raft_drive.Prelude.{
  ℕ, suc, ◌≤◌, ◌<◌, ◌≡◌, refl, sym, ap, subst, ◌∙◌, ◌⊎◌, inl, inr, true, List, none, arith, length,
  get_elem?, ℕ-cases,
}
use raft_drive.Raft.Types.{LogEntry, RequestVoteArgs}
use raft_drive.Raft.State.{candidate, Node}
use raft_drive.Raft.Ballot.{vote_queue}
use raft_drive.Raft.Cluster.{asked, Member, put}
use raft_drive.Raft.Cluster.Sound.{claims}
use raft_drive.Raft.Cluster.Good.{Good}
use raft_drive.Raft.Net.Queue.{All, All-map}
use raft_drive.Raft.Net.Ledger.{Ledger}
use raft_drive.Raft.Net.Logged.{Extends-refl}
use raft_drive.Raft.Net.Keeps.{Steady}
use raft_drive.Raft.Accord.Defs.{Chronicle, Holds, Handed, Grown}
use raft_drive.Raft.Accord.Moves.{Accorded-put}
use raft_drive.Raft.Accord.Keeper.{Asks, Queued, Keeper, Accorded}

pub Steady-le : (n m : Node) → Steady n m → n.current_term ≤ m.current_term
Steady-le n m (inl (follows, later)) = later
Steady-le n m (inr (same, role)) = omega (arith, same)

Steady-candidate :
    (n m : Node)
    → Steady n m
    → m.state ≡ candidate
    → (n.state ≡ candidate) × (m.current_term ≡ n.current_term)
Steady-candidate n m (inl (follows, later)) h = absurd (cc (follows, h))
Steady-candidate n m (inr (same, role)) h = (sym role ∙ h, same)

pub Handed-less :
    (L : Ledger) (A : Chronicle) (t p w u : ℕ) → w ≤ u → Handed L A t p u → Handed L A t p w
Handed-less L A t p w u le h v k after before led = h v k after (omega arith) led

-- A term without a leader hands nothing on.
pub Handed-next :
    (L : Ledger) (A : Chronicle) (t p w : ℕ)
    → L.leader_of w ≡ none
    → Handed L A t p w
    → Handed L A t p (suc w)
Handed-next L A t p w new h v k after before led = elim (ℕ-cases v w) [
  | inl here ↦ cc (ap L.leader_of here, new, led)
  | inr there ↦ h v k after (omega (arith, there)) led
]

pub Keeper-Steady :
    {L : Ledger} {A : Chronicle} {i : ℕ} {n m : Node}
    → m.logs ≡ n.logs
    → Steady n m
    → vote_queue m.tasks ≡ vote_queue n.tasks
    → Keeper L A i n
    → Keeper L A i m
Keeper-Steady {L} {A} {i} {n} {m} logs steady queue old =
    let le = Steady-le n m steady in
    record {
      current = λ t h. omega (arith, old.current t h, le);
      keeps = λ t p some_entry taken handed. subst (Holds L t p) (sym logs) (
          old.keeps t p some_entry taken (
            Handed-less L A t p (suc n.current_term) (suc m.current_term) (omega (arith, le))
              handed));
      terms =
          λ p e at. omega (arith, old.terms p e (ap (λ ls. get_elem? ls p) (sym logs) ∙ at), le);
      young = λ h p e at.
          let (stood, same) = Steady-candidate n m steady h in
          omega (arith, old.young stood p e (ap (λ ls. get_elem? ls p) (sym logs) ∙ at), same);
      stands = λ h.
          let (stood, same) = Steady-candidate n m steady h in
          ap (A.stand_of i) same ∙ (old.stands stood ∙ sym logs);
      asks =
          All-map (Queued L A i n.current_term) (Queued L A i m.current_term) (vote_queue m.tasks)
            (λ call q. record { asks = q.asks; reached = omega (arith, q.reached, le) })
            (subst (All (Queued L A i n.current_term)) (sym queue) old.asks);
      leads = λ l. elim steady [
        | inl (follows, later) ↦ absurd (cc (follows, l))
        | inr (same, role) ↦ omega (
          arith,
          old.leads (sym role ∙ l),
          ap (λ (ls : List LogEntry). length ls) logs,
          ap (A.taken_of i) same,
        )
      ];
    }

pub Grown-refl : (L : Ledger) (A : Chronicle) → Grown L A L A
Grown-refl L A = record { extends = Extends-refl L; bases = λ u k h. refl }

-- The node goes on, and the leaders' entries are as they were.
pub Accorded-still :
    {peers : ℕ} {L : Ledger} {A : Chronicle} (c : ℕ → Member) (i : ℕ) (x : Member)
    → Good peers c
    → i < peers
    → (c i).node.current_term ≤ x.node.current_term
    → Keeper L A i x.node
    → ((t j : ℕ) (args : RequestVoteArgs)
        → x.calls t j ≡ asked args
        → ((c i).calls t j ≡ asked args) ⊎ Asks L A i (j, args))
    → ((u j : ℕ) → claims x u j ≡ true → claims (c i) u j ≡ true)
    → Accorded peers L A c
    → Accorded peers L A (put c i x)
Accorded-still {L = L} {A = A} c i x good b term keeper asks claim old =
    Accorded-put {L = L} {K = L} {A = A} {B = A} c i x good b (Grown-refl L A) (λ j d t. refl)
      (λ t lt. refl) (λ j d u. refl) (λ u le. refl) term keeper asks
      (λ u j h free. inl (claim u j h)) (old.taken i) old.shaped (λ u k h. inl h) old
