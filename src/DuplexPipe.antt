-- ===== src/DuplexPipe.antt =====
-- task2/duplex-pipe: a file goes from the parent to the child and back over two pipes, in packets
-- with a header of three bytes. `Pipe` holds the objects of src/dp_pipe.c and src/dp_string.c and
-- what src/dp_main.c does with them, `Packet` a packet, and `RoundTrip` what arrives.
pub mod Pipe
pub mod Packet
pub mod RoundTrip
pub mod Tests
