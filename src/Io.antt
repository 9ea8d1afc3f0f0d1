-- ===== src/Io.antt =====
-- rabbitpy/io.py: the thread that reads and writes the socket. Read is how received bytes become
-- frames on the channels' queues, Loop the loop that reads and writes, Poll the registrations of the
-- poll object.
pub mod Read
pub mod Loop
pub mod Poll
pub mod Thread
pub mod Select
pub mod Kqueue
