-- ===== src/MpcCrypto.antt =====
-- packages/mpc-crypto/src: what the three parties share. Byte arrays are lists of numbers.
pub mod Routing
pub mod Ethereum
