-- ===== src/Tests.antt =====
-- Concrete inputs for the theorems: the origin's side, and the side of the chain.
mod Origin
mod Runs
mod Exchange
mod Chain
mod Documents
mod Requests
mod Bindings
mod Evidence
