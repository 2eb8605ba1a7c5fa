-- ===== src/Tests.antt =====
-- Runs of the models on concrete inputs, and the theorems at inputs that meet their hypotheses.
mod BrachaRun
mod DolevRun
mod FrameworkRun
mod OptimizedRun
mod PathsRun
mod RingRun
mod ConfigsRun
mod ConnectionRun
mod BasicRun
mod SigningRun
mod RemoteRun
mod EncodingRun
mod SimpleRun
mod LaunchRun
mod TreeRun
mod TransportRun
mod ChainRun
mod PayloadRun
