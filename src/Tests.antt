-- ===== src/Tests.antt =====
-- Runs on concrete inputs: instances of theorems on the world of Kube/Memory.antt, and cases of the
-- repository's own tests.
mod Data
mod Naming
mod Ingress
mod Cleaner
mod Secret
mod Events
mod Worker
mod Group
mod Turns
mod Overlap
mod Logged
mod Informers
mod Program
mod Elected
mod Started
mod Template
