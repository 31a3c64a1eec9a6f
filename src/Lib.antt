-- ===== src/Lib.antt =====
-- innernet: a private network over WireGuard. A server keeps a database of CIDRs, peers and
-- associations between CIDRs, and tells each peer which others it may talk to; clients fetch that
-- list and configure their WireGuard interface by it.
--
-- Parts and files
--   Prelude   Boolean tests, lists over the native numbers, lists with distinct keys.
--   Net       `IpAddr`, `SocketAddr` and the interface to the package `ipnetwork`, with the laws that
--             its documentation states; Net/Intervals: networks as intervals of addresses;
--             Net/Ipv4: an instance.
--   Wg        wgctrl-rs/src (key.rs, device.rs, config.rs, backends): keys, the description of a
--             device, and the builders of changes (Wg/PeerBuilder, Wg/DeviceBuilder).
--             Wg/Userspace: the parser of what a userspace device answers, and the request that
--             configures one (Requests). Wg/Kernel: the structures of the C library, lists linked by
--             pointers on a heap (Pointers), and devices (Device, Enumerate), from
--             backends/kernel.rs.
--   Shared    shared/src/lib.rs: the data that client and server exchange; Shared/Tree: `CidrTree`.
--             Shared/Diff: `Peer::diff` and the builders made of a peer and of a difference.
--             Shared/Prompts: the dialogs of prompts.rs, as functions of the answers.
--             Shared/InterfaceConfig, Shared/Files: interface_config.rs on a table of files.
--             Shared/Commands: wg.rs.
--   Server/Db server/src/db and server/src/error.rs. A `Connection` is the three tables and the pragma
--             `foreign_keys`; a statement is a function that returns the tables after it and a
--             result. Cidrs, Peers and Associations have one function per method of
--             `DatabaseCidr`, `DatabasePeer` and `DatabaseAssociation`, with the guards of the code
--             and the constraints of the tables (`accepted`, `is_restricted`). Access is
--             `get_all_allowed_peers`. Invariant says what a well formed database is.
--   Server/Session  `get_session` and the session filters of server/src/main.rs.
--   Server/Api      the handlers of server/src/api on the state they share (Admin, User), and
--             which request reaches which handler (Routes).
--   Server/Endpoints  a turn of the thread of server/src/endpoints.rs.
--   Server/World    the server between the turns of its lock: the lookup of a session and the handler
--             (Server/Api/Tasks) are two steps, which those of other requests, the delayed tasks of
--             `redeem` and the thread that looks at the interface may separate.
--   Server/Commands the commands `add-peer` and `add-cidr` of server/src/main.rs.
--   Server/Serve    `serve` of server/src/main.rs, up to the listening socket.
--   Server/Initialize  the database of a new network, server/src/initialize.rs.
--   Client/Store    client/src/data_store.rs: the peers and CIDRs that a client keeps.
--   Client/Fetch    `fetch` of client/src/main.rs, from the answer of the server on: the change of
--             the interface, then the hosts file, then the store.
--   Client/Http     the calls of client/src/util.rs, to any server; Client/Commands: the commands of
--             client/src/main.rs made of them. Client/Commands/Deletes and Client/Commands/Enables put
--             them before the model of the server.
--   Client/Install  `install` of client/src/main.rs, up to the `fetch` it ends with.
--   Client/Show     `show` of client/src/main.rs: the tree that it prints, the lines for devices and
--             peers (Texts, with the durations and sizes of client/src/util.rs), their order (Sort),
--             and the command on the devices and stores it reads (Devices).
--   Hosts     hostsfile/src/lib.rs: the section of a hosts file, as a function on its lines.
--   Server/Example, Client/Example and the files whose names end in Tests hold concrete data and the
--             theorems at them.
--
-- Packages are parameters: the functions of `ipnetwork`, the row id that SQLite chooses
-- (`next_rowid`), the regular expressions, base64, the parsing of a request's body and path
-- segments, and whether the interface accepts a configuration. SQL texts are read as functions on
-- lists of rows, in the order of the table. Whether SQLite fails for a reason that is not in the
-- tables (`read_fails`, `write_fails`) is a parameter where peers and CIDRs are created; elsewhere a
-- statement fails by what the tables hold, and every row is one that `from_row` reads. The code holds the lock on the connection during a
-- handler, so its statements are not interleaved with others. `serve_request` takes the lookup of the
-- session and the handler, which lock one after the other, together; Server/World separates them.
--
-- Fuel: the two recursive parts of the query of allowed peers run on fuel and return `none` without
-- it. `up_fuel` is enough because ids fall from a CIDR to its parent, `down_fuel` because a CIDR
-- enters the queue once. The loops over pointers of the kernel backend have as many turns as there are
-- cells, and that over the names of the interfaces as there are bytes. `print_tree` runs on fuel too:
-- the number of the youngest CIDR is enough, and a CIDR below itself has no end at any fuel.
--
-- Not modelled: terminals, sockets, logging, and what serde, warp and SQLite do inside; the C library
-- that the kernel backend binds; what commands other than `show` print in client/src/main.rs; the
-- wizard of server/src/initialize.rs; the macOS parts of shared/src/wg.rs.
pub mod Prelude
pub mod Net
pub mod Wg
pub mod Shared
pub mod Server
pub mod Client
pub mod Hosts
