-- ===== src/Logger/Async.antt =====
-- data-plane/internal/logger/async_writer.go: a bounded queue of log lines and the worker that writes them
-- through a `bufio.Writer`. Calls and worker steps interleave as operations of one list. The
-- output behind the `bufio.Writer` takes what it is given.
pub mod Fifo
pub mod Shutdown
pub mod Line
pub mod Refine
pub mod Whole
pub mod Lossless
use sentinel_zero_trust.Common.{
  ℕ, suc, ◌+◌, ◌-◌, ◌≡◌, Bool, true, false, List, [], ◌∷◌, ◌++◌, Text, codes, length, take, drop,
  leb, ltb, if◌then◌else◌, ◌==◌,
}
use sentinel_zero_trust.Std.Strconv.{itoa}

-- The default size of a `bufio.Writer`.
abbrev pub buf_size : ℕ
buf_size = 4096

-- The `bufio.Writer`: what is buffered, and what the output behind it has received.
pub record BufioWriter : Type 0 where
  pub buf : Text
  pub out : Text

unfoldable pub flush : BufioWriter → BufioWriter
flush b = record { buf = []; out = b.out ++ b.buf }

-- `Write` with an empty buffer: a large text goes straight to the output.
unfoldable pub write_empty : Text → Text → BufioWriter
write_empty out p =
    if leb (length p) buf_size
    then record { buf = p; out = out }
    else record { buf = []; out = out ++ p }

-- A text that does not fit fills the buffer, which is flushed; the rest meets an empty buffer.
unfoldable pub bw_write : BufioWriter → Text → BufioWriter
bw_write b p =
    let room = buf_size - length b.buf in
    if leb (length p) room
    then record { buf = b.buf ++ p; out = b.out }
    else if length b.buf == 0
    then write_empty b.out p
    else write_empty (b.out ++ (b.buf ++ take room p)) (drop room p)

pub record AsyncWriter : Type 0 where
  pub inner : BufioWriter
  pub buffer : List Text
  pub queue_size : ℕ
  pub is_closed : Bool  -- the channel
  pub is_done : Bool  -- the worker

unfoldable pub new_async_writer : ℕ → AsyncWriter
new_async_writer queue_size = record {
  inner = record { buf = []; out = [] };
  buffer = [];
  queue_size = queue_size;
  is_closed = false;
  is_done = false;
}

pub data Op : Type 0 where
  write : Text → Op
  worker_receive : Op  -- the worker's `select` takes the channel
  worker_tick : Op  -- it takes the ticker
  close : Op

pub data Reply : Type 0 where
  written : ℕ → Reply
  overflow : Text → Reply
  panicked : Reply  -- a send or a close on a closed channel
  nothing : Reply

unfoldable pub overflow_message : ℕ → Text
overflow_message n = codes "async buffer overflow, dropped " ++ (itoa n ++ codes " bytes")

unfoldable pub enqueue : AsyncWriter → Text → AsyncWriter × Reply
enqueue aw p =
    if aw.is_closed
    then (aw, panicked)
    else if ltb (length aw.buffer) aw.queue_size
    then (record aw { buffer = aw.buffer ++ (p ∷ []) }, written (length p))
    else (aw, overflow (overflow_message (length p)))

-- An open channel that is empty blocks; a closed one that is empty ends the worker.
unfoldable pub receive : List Text → Bool → AsyncWriter → AsyncWriter
receive [] true aw = record aw { inner = flush aw.inner; is_done = true }
receive [] false aw = aw
receive (line ∷ rest) closed aw = record aw { inner = bw_write aw.inner line; buffer = rest }

-- By `is_done`, and by the case that the `select` takes.
unfoldable pub worker_by : Bool → Bool → AsyncWriter → AsyncWriter
worker_by true takes_channel aw = aw
worker_by false true aw = receive aw.buffer aw.is_closed aw
worker_by false false aw = record aw { inner = flush aw.inner }

abbrev pub worker : Bool → AsyncWriter → AsyncWriter
worker takes_channel aw = worker_by aw.is_done takes_channel aw

unfoldable pub close_channel : AsyncWriter → AsyncWriter × Reply
close_channel aw =
    if aw.is_closed then (aw, panicked) else (record aw { is_closed = true }, nothing)

unfoldable pub step : AsyncWriter → Op → AsyncWriter × Reply
step aw (write p) = enqueue aw p
step aw worker_receive = (worker true aw, nothing)
step aw worker_tick = (worker false aw, nothing)
step aw close = close_channel aw

unfoldable pub run : AsyncWriter → List Op → AsyncWriter
run aw [] = aw
run aw (op ∷ ops) = run (step aw op).0 ops
