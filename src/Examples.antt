-- ===== src/Examples.antt =====
-- Concrete inputs at which the theorems apply, and runs of the models that can be followed in the
-- source.
mod Replicas
mod Logs
mod Protocol
mod Strings
mod Lists
mod Streams
mod Sessions
mod Users
mod SortedSets
mod Connections
mod Subscriptions
mod Rdb
mod Geo
