-- ===== src/Sender.antt =====
-- Sending messages to other hosts (cmd/fmsgd/sender.go): the rows of the recipients, the targets
-- that have pending rows, one exchange with a host, and the units of a message.
pub mod Rows
pub mod Targets
pub mod Exchange
pub mod Deliver
pub mod Message
