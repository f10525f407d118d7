-- ===== src/Verification.antt =====
-- packages/verification: the shared contracts of a verification wave, and the fusion of evidence.
pub mod Contracts
pub mod Fusion
