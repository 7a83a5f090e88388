-- ===== src/Raft/Net/Queue.antt =====
-- The calls of `appendEntries` in a node's queue (kvcluster/raft/raft.cpp).
use raft_drive.Prelude.{
  ℕ, zero, suc, ◌≡◌, refl, ap, ◌∙◌, List, [], ◌∷◌, ◌++◌, some, get_elem?, eq_of_some-eq, subst,
  append-nil,
}
use raft_drive.Raft.Types.{AppendEntriesArgs, InstallSnapshotArgs}
use raft_drive.Raft.State.{Task, send_request_vote, send_append_entries, send_install_snapshot}

-- The calls that the tasks are to make, each with the peer that is called.
abbrev pub append_queue : List Task → List (ℕ × AppendEntriesArgs)
append_queue [] = []
append_queue (send_append_entries id last started args ∷ ts) = (id, args) ∷ append_queue ts
append_queue (send_request_vote id args ∷ ts) = append_queue ts
append_queue (send_install_snapshot id args ∷ ts) = append_queue ts

pub append_queue-append :
    (ts us : List Task) → append_queue (ts ++ us) ≡ append_queue ts ++ append_queue us
append_queue-append [] us = refl
append_queue-append (send_append_entries id last started args ∷ ts) us =
    ap (λ q. (id, args) ∷ q) (append_queue-append ts us)
append_queue-append (send_request_vote id args ∷ ts) us = append_queue-append ts us
append_queue-append (send_install_snapshot id args ∷ ts) us = append_queue-append ts us

pub append_queue-install_snapshot :
    (ts : List Task) (id : ℕ) (args : InstallSnapshotArgs)
    → append_queue (ts ++ send_install_snapshot id args ∷ []) ≡ append_queue ts
append_queue-install_snapshot ts id args =
    append_queue-append ts (send_install_snapshot id args ∷ []) ∙ append-nil (append_queue ts)

abbrev pub All {ℓ κ} : {A : Type ℓ} → (A → Type κ) → List A → Type κ
All P [] = Unit
All P (x ∷ xs) = P x × All P xs

pub All-append {ℓ κ} :
    {A : Type ℓ} (P : A → Type κ) (xs ys : List A) → All P xs → All P ys → All P (xs ++ ys)
All-append P [] ys hx hy = hy
All-append P (x ∷ xs) ys hx hy = (hx.0, All-append P xs ys hx.1 hy)

pub All-right {ℓ κ} : {A : Type ℓ} (P : A → Type κ) (xs ys : List A) → All P (xs ++ ys) → All P ys
All-right P [] ys h = h
All-right P (x ∷ xs) ys h = All-right P xs ys h.1

pub All-left {ℓ κ} : {A : Type ℓ} (P : A → Type κ) (xs ys : List A) → All P (xs ++ ys) → All P xs
All-left P [] ys h = tt
All-left P (x ∷ xs) ys h = (h.0, All-left P xs ys h.1)

pub All-map {ℓ κ} :
    {A : Type ℓ} (P Q : A → Type κ) (xs : List A) → ((x : A) → P x → Q x) → All P xs → All Q xs
All-map P Q [] f h = tt
All-map P Q (x ∷ xs) f h = (f x h.0, All-map P Q xs f h.1)

pub All-at {ℓ κ} :
    {A : Type ℓ} (P : A → Type κ) (xs : List A) (k : ℕ) {x : A}
    → All P xs
    → get_elem? xs k ≡ some x
    → P x
All-at P [] k h e = cc e
All-at P (y ∷ xs) zero h e = subst P (eq_of_some-eq e) h.0
All-at P (y ∷ xs) (suc k) h e = All-at P xs k h.1 e
