-- ===== src/Raft/Accord/Starting.antt =====
-- A cluster that starts: no term has had a leader, and no node has taken anything
-- (kvcluster/raft/raft.cpp).
use raft_drive.Prelude.{
  ℕ, zero, suc, ◌≡◌, refl, sym, ap, subst, ◌∙◌, inl, inr, [], ◌∷◌, none, some, arith, get_elem?,
  eq_of_some-eq,
}
use raft_drive.Raft.Types.{LogEntry}
use raft_drive.Raft.Persist.{dummy}
use raft_drive.Raft.Cluster.Safety.{AllResting-Good}
use raft_drive.Raft.Net.{Net, Starting}
use raft_drive.Raft.Net.Queue.{append_queue, All}
use raft_drive.Raft.Net.Ledger.{Ledger, CallOk, Within, Known}
use raft_drive.Raft.Net.Logged.{Logged}
use raft_drive.Raft.Accord.Defs.{Chronicle, Shaped}
use raft_drive.Raft.Accord.Keeper.{Queued, Accorded}
use raft_drive.Raft.Accord.Steps.{Took}
use raft_drive.Raft.Accord.Runs.{Held}

-- No term has had a leader.
abbrev no_leaders : Ledger
no_leaders = record { leader_of = λ t. none; log_of = λ t. dummy 0 ∷ [] }

no_leaders-Within : Within no_leaders (dummy 0 ∷ [])
no_leaders-Within zero e at =
    (inl (sym (ap (λ (x : LogEntry). x.term) (eq_of_some-eq at))), λ q le. refl)
no_leaders-Within (suc p) e at = absurd (cc at)

Starting-Logged :
    {peers : ℕ} {d : Net} → Starting peers d → Logged peers no_leaders d.members d.calls
Starting-Logged {peers} {d} start = record {
  nodes = λ i b.
      let empty = sym (start.empty i b) in
      let state = (start.resting i b).state in
      record {
        whole = start.whole i b;
        no_snapshot = start.no_snapshot i b;
        head = ap (λ ls. get_elem? ls 0) (start.empty i b);
        within = subst (Within no_leaders) empty no_leaders-Within;
        queue =
            subst (λ ts. All (CallOk no_leaders) (append_queue ts)) (sym (start.no_tasks i b)) tt;
        leads = λ l. absurd (cc (l, state));
        up = λ up. absurd (up state);
      };
  made_well = subst (All (CallOk no_leaders)) (sym start.no_calls) tt;
  logs = λ t known. no_leaders-Within;
  elected = λ t k h. absurd (cc h);
}

-- No node has taken anything.
abbrev nothing_taken : Chronicle
nothing_taken = record { base_of = λ t. []; stand_of = λ j t. []; taken_of = λ j t. 0 }

dummy-term : (q : ℕ) (e : LogEntry) → get_elem? (dummy 0 ∷ []) q ≡ some e → e.term ≡ 0
dummy-term zero e at = sym (ap (λ (x : LogEntry). x.term) (eq_of_some-eq at))
dummy-term (suc q) e at = absurd (cc at)

no_leaders-Shaped : (u : ℕ) → Known no_leaders u → Shaped no_leaders nothing_taken u
no_leaders-Shaped u (inr (k, led)) = absurd (cc led)
no_leaders-Shaped u (inl zeroth) = record {
  begins = λ q lt. absurd (omega arith);
  earlier = λ q e at lt. absurd (omega arith);
  own = λ q e at le. dummy-term q e at ∙ sym zeroth;
  rises = λ p q e f le x y. omega (arith, dummy-term p e x);
}

Starting-Accorded :
    {peers : ℕ} {d : Net} → Starting peers d → Accorded peers no_leaders nothing_taken d.members
Starting-Accorded {peers} {d} start = record {
  keepers = λ i b.
      let state = (start.resting i b).state in
      record {
        current = λ t h. absurd (omega arith);
        keeps = λ t p some_entry le. absurd (omega arith);
        terms = λ p e at.
            omega (arith, dummy-term p e (ap (λ ls. get_elem? ls p) (sym (start.empty i b)) ∙ at));
        young = λ h. absurd (cc (h, state));
        stands = λ h. absurd (cc (h, state));
        asks =
            subst (All (Queued no_leaders nothing_taken i (d.members i).node.current_term))
              (sym (start.resting i b).queue) tt;
        leads = λ l. absurd (cc (l, state));
      };
  asked_well = λ i t j args b h. absurd (cc (h, (start.resting i b).no_calls t j));
  voted = λ i u j b h.
      absurd (cc (rw ((start.resting i b).no_count u j, (start.resting i b).no_calls u j) at h));
  taken = λ j t h. absurd (omega arith);
  shaped = no_leaders-Shaped;
  backed = λ u k led. absurd (cc led);
}

pub Starting-Held : {peers : ℕ} {d : Net} → Starting peers d → Held peers d
Starting-Held {peers} {d} start = record {
  ledger = no_leaders;
  chronicle = nothing_taken;
  good = AllResting-Good d.members start.resting;
  logged = Starting-Logged start;
  accorded = Starting-Accorded start;
  took = subst (All (Took nothing_taken)) (sym start.none_accepted) tt;
}
