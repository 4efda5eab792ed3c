-- ===== src/Lib.antt =====
-- The C++ daemon of the peer-to-peer version control system (src/backend/cpp), which runs beside a
-- coordinator in Go: it watches a directory and reports what changes there, serves the
-- coordinator's requests, and moves the content of files to and from the coordinator over local
-- sockets.
--
-- The parts and their files.
--
-- Disk: the file system as the daemon calls it, std::filesystem and the file streams. A disk is a
-- map from path to node and a schedule of faults, which says of each coming call whether the
-- operating system fails it. A statement is a function of the disk that gives a result, or
-- `threw` for an exception, and the disk after it. Paths are compared as texts. A write that is
-- accepted reaches the file, and a file that is opened is read to its end: the buffer of an
-- output stream, a flush that fails at close and a read that fails midway are not modelled.
--
-- Sockets: the calls on stream sockets, a parameter, with their documented laws as records: a read
-- takes a front part of what the stream holds (IsStream), and descriptors are had and given back
-- (IsHolding).
--
-- Crypto: src/backend/cpp/src/sha256.cpp. `sha256` and `sha256_file` are the functions of those names;
-- OpenSSL is the parameter Evp.
--
-- Transfer: src/backend/cpp/src/file_transfer.cpp. Transfer.Socket has the wrappers of the socket
-- calls. Transfer.Download and Transfer.Upload are the two directions of `handle_file_transfer`, which
-- is in Transfer.Upload; Transfer.Chunked has the two handlers of chunks, and
-- Transfer.ChunkOrder hands the first the chunks of one file in order, which nothing in the daemon
-- does yet.
--
-- Ipc: src/backend/cpp/src/ipc_client.cpp. Ipc.Client is `UnixIpcClient`, whose state is the
-- descriptor `socketFd_`, and Ipc.Windows is `WindowsIpcClient`; Ipc.Port has `getIpcTcpPort` and
-- `derivePort`. Ipc.Interface is the class `IpcClient` of src/backend/cpp/include/ipc_client.h, with
-- both implementations and runs over lists of calls. Ipc.Locks has what each operation does with the
-- three mutexes and with the socket, and threads that do so under any schedule; Ipc.Exclusion and
-- Ipc.Deadlock are about them.
--
-- Watch: the watchers of directories. Watch.Polling is a round of `watchLoop` of
-- src/backend/cpp/src/filesystem_watcher.cpp, on what the directory iterator meets, and Watch.Rounds
-- the loop. Watch.Inotify and Watch.InotifyLoop are src/backend/cpp/src/inotify_watcher.cpp,
-- Watch.Changes and Watch.ChangesLoop are src/backend/cpp/src/readdirectorychanges_watcher.cpp,
-- Watch.Fsevents is src/backend/cpp/src/fsevents_watcher.cpp. The calls of the system are parameters;
-- the buffers that it fills are lists of bytes, which the code takes apart. Watch.Classes is the class
-- `FileSystemWatcher` of src/backend/cpp/include/filesystem_watcher.h, with its implementations.
--
-- Daemon: src/backend/cpp/src/main.cpp. Daemon.Options reads the command line, Daemon.Requests is
-- `handle_ipc_message` and the loop around it, Daemon.Paths and Daemon.Report are the watch
-- callback. Daemon.Main has the loops of the threads of `main`, over the interface of the client, and
-- Daemon.Start is `main` from its arguments to its result. The JSON library is the parameter Json;
-- the clock, the times of files and the printing of a message are parameters as well.
--
-- Examples: a peer, a digest, a disk, and the theorems and the code run on them.
--
-- How they interact: a request of the coordinator comes in through `receive` and starts a transfer
-- or deletes a file; the transfer works on the disk and hashes what it has received; an event of the
-- watcher is described from the disk, with the same digest, and goes out through `send`.
--
-- Loops. The loop of `sha256_file` has fuel one beyond the length of the file, and the loops of a
-- transfer have fuel one beyond the size that is asked for: each round but the last takes a byte at
-- least. The loop that reads a fixed number of bytes has that number as fuel. A loop that writes a
-- buffer has the length of the buffer as fuel; it can run out only where a write takes no byte and
-- does not fail, which POSIX excludes for sockets, and where the source would not end.
--
-- `addWatchRecursive` has the depth of the tree as fuel, and the loops over a buffer of events its
-- length: every event takes bytes. The loops that run until a flag is set are run for any number of
-- rounds.
--
-- Threads. An operation of a client is one step in Ipc.Client, which the mutexes make it for other
-- operations; the order of the mutexes themselves is in Ipc.Locks. The thread and the `stop` of the
-- watcher of macOS are interleaved step by step; in the other watchers a flag or a handle that another
-- thread may change is read from the state of the system. In Daemon.Start the thread that serves
-- the coordinator runs where `main` waits for it.
--
-- Not modelled: the interleaving of the watch callback with the thread that serves the coordinator,
-- the wait for a thread in `stop`, the log and what `main` prints, the Windows branches of
-- file_transfer.cpp, and `inet_pton`, which is applied to a literal. The callback of a watcher is
-- always given, as it is by the daemon. Sizes are natural numbers or integers without a bound: the
-- source keeps them in 64 bits.
pub mod Prelude
pub mod Disk
pub mod Crypto
pub mod Sockets
pub mod Transfer
pub mod Ipc
pub mod Examples
pub mod Watch
pub mod Daemon
