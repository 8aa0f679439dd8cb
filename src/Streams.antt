-- ===== src/Streams.antt =====
-- What the Go side sends over the bridge, in frontend/src/infrastructure: the subscriptions of
-- entityRepo/kube/transport, channel, process and download.
pub mod Inbox
pub mod KubeStream
pub mod Channel
pub mod Forward
pub mod Pty
pub mod Process
pub mod Download
