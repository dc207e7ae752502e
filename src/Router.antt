-- ===== src/Router.antt =====
-- The router: its global state, and the handlers from a received frame to the frames sent.
pub mod State
pub mod Output
pub mod Arp
pub mod Nat
pub mod Ours
pub mod Input
pub mod Frames
pub mod Setup
pub mod Loop
pub mod Chapter1
pub mod Sound
pub mod Routes
pub mod Start
pub mod Evolve
pub mod Safety
pub mod Reachable
pub mod Parsed
pub mod Run
pub mod Expected
pub mod Heard
pub mod Onward
pub mod Through
pub mod Forwarded
pub mod Resolve
pub mod Lengths
pub mod Own
pub mod Ping
pub mod Masquerade
pub mod Inside
pub mod Returned
