-- ===== src/Raft/Net/Ledger.antt =====
-- The logs of the leaders, by their terms, and logs that stand within them.
use raft_drive.Prelude.{
  ℕ, ◌+◌, ◌^◌, ◌≤◌, ◌<◌, ◌≡◌, sym, ap, ◌∙◌, ◌≢◌, ◌⊎◌, inl, inr, List, [], ◌∷◌, ◌++◌, Option, none,
  some, arith, get_elem?, get_elem?-some, get_elem?-lt, get_elem?-append_left, ℕ-cases, pos, to_int,
}
use raft_drive.Raft.Types.{LogEntry, AppendEntriesArgs}
use raft_drive.Raft.Cluster.{put}
use raft_drive.Raft.Cluster.Kept.{put-there}
use raft_drive.Raft.Cluster.Granted.{put-elim}

-- For each term that has had a leader, the leader, and its log as it was last in that term.
pub record Ledger : Type 0 where
  pub leader_of : ℕ → Option ℕ
  pub log_of : ℕ → List LogEntry

-- Term 0 stands for the first entry of every log.
abbrev pub Known : Ledger → ℕ → Type 0
Known L t = (t ≡ 0) ⊎ ((k : ℕ) × (L.leader_of t ≡ some k))

-- Up to each entry, the log is that of the leader of the entry's term.
abbrev pub Within : Ledger → List LogEntry → Type 0
Within L xs =
    (p : ℕ) (e : LogEntry)
    → get_elem? xs p ≡ some e
    → Known L e.term × ((q : ℕ) → q ≤ p → get_elem? xs q ≡ get_elem? (L.log_of e.term) q)

-- A call to node `id` is of another node, that has led in the term of the call, and has entries of its
-- log, and the one before them.
pub record CallOk (L : Ledger) (call : ℕ × AppendEntriesArgs) : Type 0 where
  pub sender : ℕ
  pub sent_by : L.leader_of call.1.term ≡ some sender
  pub other : to_int call.0 ≢ pos sender
  pub word : call.1.pre_log_index < 2 ^ 64
  pub last : LogEntry
  pub previous : get_elem? (L.log_of call.1.term) call.1.pre_log_index ≡ some last
  pub previous_term : last.term ≡ call.1.pre_log_term
  pub entries :
      (q : ℕ) (e : LogEntry)
      → get_elem? call.1.entries q ≡ some e
      → get_elem? (L.log_of call.1.term) (call.1.pre_log_index + 1 + q) ≡ some e

-- Leaders and entries have come, and none have gone.
pub record Extends (L K : Ledger) : Type 0 where
  pub leaders : (t k : ℕ) → L.leader_of t ≡ some k → K.leader_of t ≡ some k
  pub logs :
      (t : ℕ)
      → Known L t
      → (q : ℕ) (e : LogEntry) → get_elem? (L.log_of t) q ≡ some e
      → get_elem? (K.log_of t) q ≡ some e

pub Known-Extends : {L K : Ledger} (t : ℕ) → Extends L K → Known L t → Known K t
Known-Extends t x (inl zeroth) = inl zeroth
Known-Extends t x (inr (k, e)) = inr (k, x.leaders t k e)

-- A log that stands within the ledger reads the same in the larger one.
pub Within-Extends : {L K : Ledger} (xs : List LogEntry) → Extends L K → Within L xs → Within K xs
Within-Extends {L} {K} xs x w p e at =
    let (known, before) = w p e at in
    (
      Known-Extends e.term x known,
      λ q le.
          let (f, here) = get_elem?-some xs q (omega (arith, get_elem?-lt xs p at)) in
          here ∙ sym (x.logs e.term known q f (sym (before q le) ∙ here)),
    )

pub CallOk-Extends :
    {L K : Ledger} (call : ℕ × AppendEntriesArgs) → Extends L K → CallOk L call → CallOk K call
CallOk-Extends call x c =
    let known = inr (c.sender, c.sent_by) in
    record {
      sender = c.sender;
      sent_by = x.leaders call.1.term c.sender c.sent_by;
      other = c.other;
      word = c.word;
      last = c.last;
      previous = x.logs call.1.term known call.1.pre_log_index c.last c.previous;
      previous_term = c.previous_term;
      entries =
          λ q e at. x.logs call.1.term known (call.1.pre_log_index + 1 + q) e (c.entries q e at);
    }

-- A beginning of a log that stands within the ledger does too.
pub Within-prefix :
    (L : Ledger) (xs ys : List LogEntry)
    → ((q : ℕ) (e : LogEntry) → get_elem? xs q ≡ some e → get_elem? ys q ≡ some e)
    → Within L ys
    → Within L xs
Within-prefix L xs ys begins w p e at =
    let (known, before) = w p e (begins p e at) in
    (
      known,
      λ q le.
          let (f, here) = get_elem?-some xs q (omega (arith, get_elem?-lt xs p at)) in
          here ∙ (sym (begins q f here) ∙ before q le),
    )

-- Two logs within the ledger that have entries of one term in one place are the same up to there.
pub Within-matching :
    (L : Ledger) (xs ys : List LogEntry) (p : ℕ) (e f : LogEntry)
    → Within L xs
    → Within L ys
    → get_elem? xs p ≡ some e
    → get_elem? ys p ≡ some f
    → e.term ≡ f.term
    → (q : ℕ) → q ≤ p
    → get_elem? xs q ≡ get_elem? ys q
Within-matching L xs ys p e f w v at to same q le =
    (w p e at).1 q le ∙ (ap (λ t. get_elem? (L.log_of t) q) same ∙ sym ((v p f to).1 q le))

-- A node is elected with the log it has.
abbrev pub elect : Ledger → ℕ → ℕ → List LogEntry → Ledger
elect L t k xs = record { leader_of = put L.leader_of t (some k); log_of = put L.log_of t xs }

pub elect-Extends :
    (L : Ledger) (t k : ℕ) (xs : List LogEntry)
    → t ≢ 0
    → L.leader_of t ≡ none
    → Extends L (elect L t k xs)
elect-Extends L t k xs later new = record {
  leaders = λ u j e. elim (ℕ-cases u t) [
    | inl here ↦ absurd (cc (ap L.leader_of here, new, e))
    | inr there ↦ put-there L.leader_of t u (some k) there ∙ e
  ];
  logs = λ u known q e at. elim (ℕ-cases u t) [
    | inl here ↦ elim known [
      | inl zeroth ↦ absurd (later (sym here ∙ zeroth))
      | inr (j, led) ↦ absurd (cc (ap L.leader_of here, new, led))
    ]
    | inr there ↦ ap (λ ys. get_elem? ys q) (put-there L.log_of t u xs there) ∙ at
  ];
}

-- A leader has one more entry.
abbrev pub extend : Ledger → ℕ → LogEntry → Ledger
extend L t e = record L { log_of = put L.log_of t (L.log_of t ++ e ∷ []) }

pub extend-Extends : (L : Ledger) (t : ℕ) (e : LogEntry) → Extends L (extend L t e)
extend-Extends L t e = record {
  leaders = λ u j h. h;
  logs = λ u known q f at.
      put-elim (λ v ys. get_elem? (L.log_of v) q ≡ some f → get_elem? ys q ≡ some f) L.log_of t
        (L.log_of t ++ e ∷ []) u
        (λ h. get_elem?-append_left (L.log_of t) (e ∷ []) q (get_elem?-lt (L.log_of t) q h) ∙ h)
        (λ d h. h) at;
}
