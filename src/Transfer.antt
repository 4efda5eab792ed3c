-- ===== src/Transfer.antt =====
-- src/backend/cpp/src/file_transfer.cpp: one file over a socket, to or from the watched directory.
pub mod Socket
pub mod Download
pub mod Receive
pub mod Finish
pub mod Atomic
pub mod Promise
pub mod Unread
pub mod Complete
pub mod Arrival
pub mod Upload
pub mod Send
pub mod Progress
pub mod UploadPromise
pub mod Descriptors
pub mod Chunked
pub mod ChunkPromise
pub mod ChunkStore
pub mod ChunkOrder
pub mod ChunkSequence
pub mod ChunkUpload
