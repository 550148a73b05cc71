-- ===== src/Handout.antt =====
-- The small programs of handout: the time server and its client (handout/timeserver.go,
-- handout/timeclient.go), and the echo server and its client (handout/echoserver.go,
-- handout/echoclient.go).
pub mod Time
pub mod Echo
