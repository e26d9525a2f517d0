-- ===== src/Cluster.antt =====
-- internal/cluster: what the program asks of the Kubernetes cluster.
pub mod PortForward
pub mod Polling
pub mod Objects
pub mod Proxy
pub mod Kube
pub mod Api
pub mod Runtime
