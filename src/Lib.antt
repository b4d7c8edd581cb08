-- ===== src/Lib.antt =====
-- fatun, a transport proxy: a client captures the TCP and UDP packets of a process and sends them,
-- without their IP header, to a server; the server gives each of them a port of its own, sends it
-- on, and leads the answers back.
--
-- The parts and their files, each with the lemmas on it in the folder of its name:
--   Ports/AddrSet, Ports/Adapter, Ports/Manager, Ports/Filter: ports/adapter.go, ports/manager.go,
--     and ports/ports_linux.go with its stub in ports/ports_windows.go. `get_port`
--     is GetPort and `del_port` DelPort; a local port is shared by remotes that differ. A map is an
--     association list, and the order in which a range loop visits it is an argument.
--   Links, Links/Heap, Links/Maps, Links/Mutex: links/links.go, links/maps/maps.go and
--     links/maps/mutx.go. `add`, `uplink`, `downlink` and `cleanup` are the operations of the link
--     manager, which holds an Adapter and a Heap of the links in the order of their expiry;
--     Links/Maps/Table has the table that it stands for.
--   Session: session.go and StripIP of links/links.go.
--   Conn/Peer, Conn/Crypto, Conn/Udp: conn/peer.go, conn/crypto.go, conn/udp/listen.go and
--     conn/udp/conn.go.
--   Conn/Channel: Recv, Send and outboundService of conn/conn.go after the handshake, which use
--     Peer and Crypto. Conn/Handshake: handshake and handshakeInboundService of conn/conn.go; a
--     step is what one goroutine does between two points at which it may wait; setting the
--     connection and closing the channel are two steps, and so are a read of the service and the look
--     at the channel before it.
--   Checksum: checksum/checkusm.go.
--   Server/Proxy: the rounds of serveConn and recvService of server.go, which call the link manager
--     and Checksum, and acceptService; Server/Proxy/Serving puts the rounds in any order, one at a
--     time, Server/Proxy/Apart says where the answers go then, and Server/Proxy/Loops has the whole
--     loop of recvService.
--   Server/Filter: the BPF program of server_linux.go.
--   Client/Mss: UpdateTcpMssOption of client.go; Client/Service: the rounds of its uplinkService and
--     downlinkServic, and rechecksum, with the whole loop of uplinkService in
--     Client/Service/Loops; Client/Capture: Capture and Inject of client_windows.go.
--   Ustack/Slice, Ustack/Link, Ustack/Closing: the packet queue and the link of
--     ustack/link/list.go, match of ustack/link/link.go, and the wait of SynClose;
--     Ustack/Slice/Waiting: the waits of Get and GetBy, as steps of goroutines. Ustack/Stack:
--     ustack/ustack.go and ustack/wrap.go; a `Shape` is the stack or a wrapper around it, and the
--     `World` is what they share.
--   Tunnel: a captured packet on its way through Client/Service, Conn/Channel and Server/Proxy, and
--     the answer on its way back; it takes what gVisor's IPv4 header does as laws.
--   Opening: what the constructors and close methods of conn/listen.go, conn/conn.go,
--     server_linux.go, server.go, client.go and client_windows.go open and close, as lists of
--     effects.
--   Base: lists, maps and results of Go. Net: net/netip. Packet: views of packets, as parameters.
--   Tests: the theorems at concrete inputs.
--
-- State is passed explicitly. `Fallible` is a value or an error, `Run` a call that returns or
-- panics. What the system, the clock and third-party libraries answer are arguments or records of
-- operations with laws. Times are nanoseconds. A call of an operation is one step, although some of them
-- give their lock up on the way; Ports/Adapter/Racing says what becomes of two calls of GetPort then.
--
-- Fuel: `search_loop` of the binary search has the length of the set, which bounds its rounds, and
-- `sweep` the size of the queue, which does not grow; `scan` of the TCP options, `put_loop` and
-- `wait_drained` return none when their fuel is used up, and the theorems on them say when it is
-- enough. `Wait` of Ustack/Stack passes such a fuel on. Not modelled: system calls and drivers, the
-- copy of gonet, logging, debug checks, printing, and the option setters of fatun.go.
pub mod Base
pub mod Checksum
pub mod Client
pub mod Conn
pub mod Links
pub mod Net
pub mod Opening
pub mod Packet
pub mod Ports
pub mod Server
pub mod Session
pub mod Tests
pub mod Tunnel
pub mod Ustack
