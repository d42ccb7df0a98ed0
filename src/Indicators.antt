-- ===== src/Indicators.antt =====
-- FMSG-006 indicators (cmd/fmsgd/indicators.go). One child models each part of the file.
pub mod Datagram
pub mod Window
pub mod Targets
pub mod Pending
pub mod Cache
pub mod Service
