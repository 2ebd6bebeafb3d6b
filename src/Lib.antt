-- ===== src/Lib.antt =====
-- A model of go-rsync-receiver, which speaks rsync protocol 27 over a connection that the caller
-- opens, and keeps files in a file system that the caller provides (utils.FS).
--
-- The two sides share the wire, the header of the block checksums and the checksums. The sender
-- sends a list of its files. The receiver's generator asks for files by their index in the list,
-- with the checksums of the blocks that it has. The sender answers with literal bytes and with
-- numbers of blocks, behind the index and the header, and ends with a checksum of the whole file;
-- the receiver's other half puts the file together from them.
--
-- Outcome: the results of the operations (a value, an error, a panic, fuel that ran out), and the
--   state passing that the other files share. A Go error is a constructor of `Error`.
-- Wire: rsyncwire/wire.go. `Conn` is the connection: the bytes that are to come, the bytes written,
--   the writer in use, and the network's choice of which writes fail. The input of a `Conn` is what
--   its Reader gives: the messages of a multiplexed stream are read by `mplex_read`.
-- Rsync: rsync/consts.go and rsync/types.go, SumHead's ReadFrom and WriteTo.
-- Sizes: rsynccommon/rsynccommon.go, SumSizesSqroot.
-- Checksum: rsyncchecksum/rsyncchecksum.go, Checksum1, Checksum2 and the tags.
-- Files: utils/file.go and utils/fs.go. Of utils.FS only the results of its calls are known, and
--   these are arguments.
-- Receiver/Opts: rsyncreceiver/transfer.go.
-- Receiver/FileList: rsyncreceiver/flist.go and rsyncreceiver/uidlist.go, ReceiveFileList,
--   receiveFileEntry and RecvIdList.
-- Receiver/Generator: rsyncreceiver/generator.go, GenerateFiles down to generateAndSendSums.
-- Receiver/Data: rsyncreceiver/token.go and receiveData of rsyncreceiver/receiver.go.
-- Receiver/Loop: RecvFiles and recvFile1 of rsyncreceiver/receiver.go.
-- Receiver/Client: the options that ClientRun of rsyncreceiver/client.go gives the transfer.
-- Sender/Whole: sendFile of rsyncsender/sender.go.
-- Sender/Blocks: receiveSums of rsyncsender/sender.go.
-- Sender/Requests: SendFiles of rsyncsender/sender.go, with the tables of the receiver's blocks.
-- Sender/Roll: the rolling checksum of rsyncsender/match.go.
-- Sender/Search: rsyncsender/token.go, and what a round of hashSearch does with the window and the
--   rolling sums; matched of rsyncsender/match.go. The window is a parameter `ptr`.
-- Sender/HashSearch: hashSearch of rsyncsender/match.go. A search runs on fuel, two more than the
--   bytes of the file; each round moves the offset on, so that the fuel is enough.
-- Sender/Window: rsyncsender/fileio.go, mapFile and ptr, over os.File by what its Seek and Read give.
-- Sender/Delta: the exchange over one file, from generateAndSendSums to receiveData.
-- Sender/Filters: rsyncsender/exclude.go.
-- Sender/FileList: SendFileList of rsyncsender/flist.go, and rsyncsender/stat.go. What the calls of
--   the file system, of os.Readlink and of the user database give is an argument.
-- Options: rsyncopts/popt.go and rsyncopts/rsyncopts.go. `Options` holds the fields of the Go struct
--   by name, so that a row of a table refers to one; a failed type assertion is a panic. The loops run
--   on fuel, one more than the bytes and arguments that are left; each turn takes one at least.
--   ParseArguments' `version_opt_cnt` is never read, and is left out.
-- Stats: rsyncstats/rsyncstats.go, and the statistics and the goodbye of rsyncsender/do.go and
--   rsyncreceiver/do.go.
-- Tests: runs at concrete inputs.
--
-- Numbers are natural numbers with the wrap-around written out; int32 and int64 are integers in
-- range, or a conversion of their bits. A byte is a number, and is less than 256 where it matters.
-- Parameters stand for what the library code computes: `md4` for the digest of
-- github.com/mmcloughlin/md4, `root` for int32(math.Sqrt(float64(n))), `clean` and `base` for
-- filepath.Clean and filepath.Base, `sort` for utils.SortFileList, which is sort.Slice by name,
-- and for sort.Slice by tag.
-- Loops over the connection run on fuel, one more than the bytes to come; each round takes a byte at
-- least, so that the fuel never runs out.
--
-- The goroutine that hands a pipe to utils.FS.Put is the sequence of bytes written to that pipe.
-- Logging has no effect here. What the system allocates never fails, except that a negative length
-- panics, as in Go.
--
-- Not modelled: the session set-up of the two ClientRun, the two halves of the receiver running at
-- once and the deletion of files (the rest of rsyncreceiver/do.go), and FileChecksum, which reads a
-- file from the disk.
pub mod Prelude
pub mod Options
pub mod Outcome
pub mod Wire
pub mod Rsync
pub mod Sizes
pub mod Checksum
pub mod Sender
pub mod Files
pub mod Receiver
pub mod Stats
pub mod Tests
