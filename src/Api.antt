-- ===== src/Api.antt =====
-- api/v1alpha1: the conditions (condition_types.go) and the VCluster object (vcluster_types.go).
pub mod Condition
pub mod VCluster
