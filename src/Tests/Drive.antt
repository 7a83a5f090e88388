-- ===== src/Tests/Drive.antt =====
-- The keys of the drive, and a client of three servers of which number 2 leads.
use raft_drive.Prelude.{
  ==_iff, ℕ, ◌≤◌, inr, Bool-cases, ◌≢◌, ◌↔◌, ◌+◌, ◌<◌, ◌≡◌, refl, ◌⊎◌, inl, true, false, [], none,
  some, if◌then◌else◌, ◌==◌, arith, bytes,
}
use raft_drive.Kv.Service.{ok, wrong_leader, GetResponse}
use raft_drive.Drive.Client.{Stubs, Client, client_get, client_put}
use raft_drive.Drive.Answers.{client_put-answered, client_get-answered}
use raft_drive.Drive.Reach.{client_put-calls, client_put-finds}
use raft_drive.Drive.Metadata.{dir_key, file_key, children_key}
use raft_drive.Drive.Keys.{keys_apart}

-- The world counts the calls.
abbrev three_servers : Stubs ℕ
three_servers = record {
  get = λ i key w.
      (w + 1, some (record { value = bytes "v"; status = if i == 2 then ok else wrong_leader }));
  put = λ i key value w. (w + 1, some (if i == 2 then ok else wrong_leader));
  append = λ i key value w. (w + 1, none);
  pause = λ w. w;
}

abbrev three : Client
three = record { stubs = 3; leader_hint = 0 }

client_put-answered_example :
    ((client_put three_servers (bytes "k") (bytes "v") (0, three)).0.1.stubs ≡ 3)
    × ((client_put three_servers (bytes "k") (bytes "v") (0, three)).0.1.leader_hint < 3)
    × (((client_put three_servers (bytes "k") (bytes "v") (0, three)).1 ≡ false)
        ⊎ ((v : ℕ) × ((three_servers.put
                (client_put three_servers (bytes "k") (bytes "v") (0, three)).0.1.leader_hint
                (bytes "k")
                (bytes "v")
                v).1
              ≡ some ok)))
client_put-answered_example =
    client_put-answered three_servers (bytes "k") (bytes "v") 0 three (omega arith) (omega arith)

client_get-answered_example :
    ((client_get three_servers (bytes "k") (0, three)).0.1.stubs ≡ 3)
    × ((client_get three_servers (bytes "k") (0, three)).0.1.leader_hint < 3)
    × (((client_get three_servers (bytes "k") (0, three)).1 ≡ [])
        ⊎ ((v : ℕ) × (g : GetResponse) × ((three_servers.get
                (client_get three_servers (bytes "k") (0, three)).0.1.leader_hint
                (bytes "k")
                v).1
              ≡ some g)
            × (g.status ≡ ok)
            × ((client_get three_servers (bytes "k") (0, three)).1 ≡ g.value)))
client_get-answered_example =
    client_get-answered three_servers (bytes "k") 0 three (omega arith) (omega arith)

keys_apart_example :
    (dir_key (bytes "/a") ≢ file_key (bytes "/a"))
    × (dir_key (bytes "/a") ≢ children_key (bytes "/a"))
    × (file_key (bytes "/a") ≢ children_key (bytes "/a"))
    × ((dir_key (bytes "/a") ≡ dir_key (bytes "/a")) ↔ (bytes "/a" ≡ bytes "/a"))
    × ((file_key (bytes "/a") ≡ file_key (bytes "/a")) ↔ (bytes "/a" ≡ bytes "/a"))
    × ((children_key (bytes "/a") ≡ children_key (bytes "/a")) ↔ (bytes "/a" ≡ bytes "/a"))
keys_apart_example = keys_apart (bytes "/a") (bytes "/a")

-- The world counts the calls of server 1, which does not lead.
abbrev counted : Stubs ℕ
counted = record three_servers {
  put = λ i key value w. (if i == 1 then w + 1 else w, some wrong_leader);
}

counted-apart : (i w : ℕ) → i ≢ 1 → (counted.put i (bytes "k") (bytes "v") w).0 ≤ w
counted-apart i w other = elim (Bool-cases (i == 1)) [
  | inl e ↦ absurd (other ((==_iff i 1).0 e))
  | inr e ↦ rw e (omega arith)
]

client_put-calls_example : (client_put counted (bytes "k") (bytes "v") (0, three)).0.0 ≤ 0 + 25
client_put-calls_example =
    client_put-calls counted (bytes "k") (bytes "v") 1 (λ w. w) (λ w. omega arith) counted-apart
      (λ w. omega arith) 0 three (omega arith)

three_answers :
    (i w : ℕ)
    → ((three_servers.put i (bytes "k") (bytes "v") w).1 ≡ none)
      ⊎ (((three_servers.put i (bytes "k") (bytes "v") w).1 ≡ some wrong_leader)
          ⊎ ((three_servers.put i (bytes "k") (bytes "v") w).1 ≡ some ok))
three_answers i w = elim (Bool-cases (i == 2)) [
  | inl e ↦ rw e (inr (inr refl))
  | inr e ↦ rw e (inr (inl refl))
]

client_put-finds_example : (client_put three_servers (bytes "k") (bytes "v") (0, three)).1 ≡ true
client_put-finds_example =
    client_put-finds three_servers (bytes "k") (bytes "v") 2 (λ w. refl) three_answers 0 three
      (omega arith) (omega arith)
