-- ===== src/Tests.antt =====
-- Runs of the model at fixed inputs, and one instance of each theorem.
mod Serial
mod Spi
mod SlaveSpi
mod Rpc
mod Slave
mod Outbound
mod Interleaving
mod Util
mod Mempool
mod Connect
mod Channel
mod Lifecycle
