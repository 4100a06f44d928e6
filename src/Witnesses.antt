-- ===== src/Witnesses.antt =====
-- Concrete inputs at which the theorems on the program apply.
mod Samples
mod OfSubs
mod OfEntities
mod OfStorage
mod OfOwner
mod OfThreads
mod OfNetwork
mod OfPeer
mod PeerSamples
mod OfProtocol
mod OfSyncing
mod OfAccounts
mod OfWeb
mod OfAddresses
mod OfProofs
