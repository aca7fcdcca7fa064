-- ===== src/Providers.antt =====
-- pkg/cloudprovider/provider: the cloud providers, and what the controller relies on in each.
pub mod Common
pub mod Contract
pub mod Release
pub mod Hetzner
pub mod Linode
pub mod DigitalOcean
pub mod Packet
pub mod Aws
pub mod Azure
pub mod Kubevirt
