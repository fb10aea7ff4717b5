-- ===== src/Redis.antt =====
-- libs/redis: the nodes of a cluster, the connections that are opened, and the scans of keys.
pub mod ClusterNodes
pub mod Connection
pub mod Client
pub mod Scan
