-- ===== src/Examples.antt =====
-- Runs of the definitions at concrete data, and the theorems at concrete data.
mod Toy
mod ToyLaws
mod Data
mod History
mod Witnesses
mod KeyWitnesses
mod FileWitnesses
mod PortWitnesses
mod MatrixWitnesses
mod OriginWitnesses
mod TokenWitnesses
mod Provisioned
mod ProvisionFacts
mod ProvisionWitnesses
mod RenewalWitnesses
mod RevocationWitnesses
mod LifetimeWitnesses
mod ConformanceWitnesses
mod CommandWitnesses
