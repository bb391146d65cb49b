-- ===== src/Lib.antt =====
-- go-libtail: the lines of log files, followed while the files grow, are renamed and truncated.
--
-- The program. A file tailer (tailer/fswatcher) watches the directories of some globs
-- (tailer/glob). On an event of the operating system, or at an interval, it brings its watched
-- files in line with a directory and reads what is new in them; each watched file has a line
-- reader, which splits the bytes into lines and cuts lines above a limit. The lines go through a
-- channel to the consumer. A buffered tailer (tailer/bufferedTailer.go) stands in between: it
-- takes the lines as they come into a queue (tailer/lineBuffer.go) and gives them out from there.
--
-- The parts, and the files that model them:
--   * LineReader.antt and LineReader/: tailer/fswatcher/linereader.go. The record LineReader has
--     the fields of lineReader; ReadLine is read_line, its helpers discard_until_newline,
--     read_chunk and set_buffer_from_bytes, a `for` loop a turn and the recursion on it. What
--     ReadLine is to do is Spec.next, on the bytes still to be delivered; Contract.antt is about a
--     reader bound to its file, Idle.antt about one that goes on with another.
--   * Bufio.antt: what the line reader uses of bufio.Reader and bytes.IndexByte. A Read returns as
--     many bytes as are there and fit.
--   * Errors.antt: tailer/fswatcher/errors.go.
--   * FileTailer/ReadNewLines.antt: readNewLines of tailer/fswatcher/fswatcher.go. The consumer is
--     a function that tells for each line whether it is taken or the done channel is closed.
--   * FileTailer/Session.antt and FileTailer/Sync.antt: the state of fileTailer, uniqueDirs,
--     checkMissingFile and syncFilesInDir of tailer/fswatcher/fswatcher.go. The map of watched
--     files holds pointers into a heap of fileWithReader. What the operating system answers during
--     a call is a parameter, the record System; its answers need not agree with each other.
--     filepath.Match is a parameter too. FileTailer/Os.antt: the record Os of what the code of an
--     operating system gives to syncFilesInDir, and Linux's, of tailer/fswatcher/file_linux.go.
--   * FileTailer/Run.antt and Run/: runFileTailer of tailer/fswatcher/fswatcher.go: its goroutine,
--     as a function of the sequence of events that its loop receives, with watchDirs, the first
--     sync, the event consumer loop and shutdown; an error is received, or the done channel is
--     closed, or else the goroutine waits for one of them. FileTailer/Handles.antt and Handles/: which
--     handles are open.
--   * FileTailer/Linux.antt: processEvent of tailer/fswatcher/fswatcher_linux.go, and the texts of
--     events of tailer/fswatcher/fseventProducerLoop_linux.go; FileTailer/Linux/Events.antt: how
--     that file takes the events apart that it reads. FileTailer/Polling.antt and Polling/:
--     tailer/fswatcher/pollingwatcher.go, for Linux, macOS and Windows.
--     FileTailer/Total.antt is about the end of these calls.
--   * FileTailer/Darwin.antt: tailer/fswatcher/fswatcher_darwin.go, with what differs from Linux in
--     tailer/fswatcher/file_darwin.go. The descriptor of a handle is a parameter.
--   * FileTailer/Windows/File.antt: tailer/fswatcher/file_windows.go; FileTailer/Windows.antt:
--     tailer/fswatcher/fswatcher_windows.go. filepath.Join and filepath.Dir of Windows are
--     parameters.
--   * Glob.antt and Glob/: tailer/glob/validator.go for Windows and other systems, and
--     tailer/glob/glob.go for the others. Patterns are lists of code points. The grammar of
--     filepath.Match is Glob/Validator/Grammar.antt.
--   * LineBuffer.antt and LineBuffer/: tailer/lineBuffer.go. Every method runs under its lock, so a
--     call is one step; LineBuffer/Queue.antt is the queue that it is to be.
--   * BufferedTailer.antt and BufferedTailer/: tailer/bufferedTailer.go. The two goroutines are
--     states between the calls that others can see; every order of their steps is a list of moves.
--   * StdinTailer.antt: tailer/stdinTailer.go. Command.antt and Command/: cmd/tailer/tailer.go, as a
--     function of the sequence in which it receives lines and errors.
--   * Prelude.antt: names of the libraries passed on, tests, slices. Tests.antt: examples.
--
-- Numbers are natural numbers: the code's ints are lengths and indices, bounded by the memory;
-- where a sign is tested they are the ℤ of Prelude/Int.antt. Loops that are not bounded by their
-- data run on fuel: read_line needs two more than the bytes to be read, since each turn but the
-- last takes a byte, and fuel_for gives read_new_lines as
-- much; tail_stdin needs one more than the lines of the input.
--
-- Not modelled: the loops that read events with system calls and pass them on, but for the parts
-- named above; the closing of directories and of the watcher; the times that the command measures;
-- the waking of goroutines that wait for the line buffer's lock.
pub mod Prelude
pub mod Bufio
pub mod LineReader
pub mod Errors
pub mod FileTailer
pub mod LineBuffer
pub mod BufferedTailer
pub mod Glob
pub mod StdinTailer
pub mod Command
pub mod Tests
