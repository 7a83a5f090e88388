-- ===== src/Tests.antt =====
-- Runs of the model on concrete inputs, and its theorems at inputs that meet their hypotheses.
mod JsonText
mod Raft
mod Kv
mod Node
mod Drive
mod Transport
mod Upload
mod Cluster
mod Net
mod Race
mod Handover
