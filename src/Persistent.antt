-- ===== src/Persistent.antt =====
-- The probe's persistent worker: internal/probe/persistent/worker.go. Its goroutines are those that
-- call `Enqueue`, the pool that writes, the one that `Stop` wakes, and the callers of `Stop`; a step is
-- what one of them does between two points where another may run. A panic ends the process.
-- The file system, the clock and the encoders are parameters.
mod Capacity
pub mod Queue
pub mod Late
pub mod Drain
mod Tests
use go2net_spectra.Base.{
  ℕ, zero, suc, ◌+◌, ◌-◌, ◌^◌, Bytes, text, bytes_eq, itoa, List, [], ◌∷◌, ◌++◌, Option, none, some,
  Bool, true, false, not, ◌&&◌, ◌||◌, length, get_elem?, ltb, leb, ◌≡◌, ◌==◌, if◌then◌else◌,
}
use go2net_spectra.Packet.{PacketInfo}

-- `config.PersistenceConfig`, with its integers as 64-bit patterns.
pub record PersistenceConfig : Type 0 where
  pub path : Bytes
  pub num_workers : ℕ
  pub encoding : Bytes
  pub channel_buffer_size : ℕ

-- `packet_chan` holds at most `capacity` containers. `checking` are the callers of `Enqueue` that have
-- read `stopping` and not yet tried to send, with their containers. `idle` workers wait at the channel,
-- and `taken` are the containers that the others are writing. `accepted` is what was ever sent.
-- `written` and `failed` are those whose write returned no error, or an error.
pub record Worker (A : Type 0) : Type 0 where
  pub capacity : ℕ
  pub packet_chan : List A
  pub chan_closed : Bool
  pub stopping : Bool
  pub stop_chan_closed : Bool
  pub checking : List A
  pub idle : ℕ
  pub taken : List A
  pub accepted : List A
  pub written : List A
  pub failed : List A
  pub done : Bool
  pub panicked : Bool

pub data WorkerError : Type 0 where
  directory_failed file_failed header_failed unknown_encoding : WorkerError

pub data Started (A : Type 0) : Type 0 where
  started : A → Started A
  refused : WorkerError → Started A

-- `x <= 0` on an `int`.
abbrev pub not_positive : ℕ → Bool
not_positive x = x == 0 || leb (2 ^ 63) x

unfoldable pub fresh_worker : {A : Type 0} → ℕ → ℕ → Worker A
fresh_worker capacity workers = record {
  capacity = capacity;
  packet_chan = [];
  chan_closed = false;
  stopping = false;
  stop_chan_closed = false;
  checking = [];
  idle = workers;
  taken = [];
  accepted = [];
  written = [];
  failed = [];
  done = false;
  panicked = false;
}

-- `NewWorker` and `start`: whether the directory, the file and the header of a pcap file could be made
-- is the environment's answer.
unfoldable pub new_worker :
    {A : Type 0} → Bool → Bool → Bool → PersistenceConfig → Started (Worker A)
unfolding fresh_worker
new_worker directory file header cfg =
    let size = if not_positive cfg.channel_buffer_size then 10000 else cfg.channel_buffer_size in
    let workers = if not_positive cfg.num_workers then 1 else cfg.num_workers in
    if not directory
    then refused directory_failed
    else if not file
    then refused file_failed
    else if bytes_eq cfg.encoding (text "gob") || bytes_eq cfg.encoding (text "text")
    then started (fresh_worker size workers)
    else if bytes_eq cfg.encoding (text "pcap")
    then if header then started (fresh_worker size workers) else refused header_failed
    else refused unknown_encoding

-- The extension that `createOutputFile` gives.
unfoldable pub extension : Bytes → Bytes
extension encoding =
    if bytes_eq encoding (text "gob")
    then text ".gob"
    else if bytes_eq encoding (text "pcap")
    then text ".pcap"
    else text ".log"

-- `%d` of an `int`.
abbrev pub show_int : ℕ → Bytes
show_int x = if ltb x (2 ^ 63) then itoa x else text "-" ++ itoa (2 ^ 64 - x)

-- A line of `runTextWorker`.
unfoldable pub text_line : (ℕ → Bytes) → (Bytes → Bytes) → PacketInfo → Bytes
text_line show_time ip_string p =
    let ft = p.five_tuple in
    show_time p.timestamp
    ++ (text " - "
        ++ (ip_string ft.src_ip
            ++ (text ":"
                ++ (itoa ft.src_port
                    ++ (text " -> "
                        ++ (ip_string ft.dst_ip
                            ++ (text ":"
                                ++ (itoa ft.dst_port
                                    ++ (text ", Proto: "
                                        ++ (itoa ft.protocol
                                            ++ (text ", Len: "
                                                ++ (show_int p.length ++ (10 ∷ [])))))))))))))

-- A list without its i-th entry.
abbrev pub remove_at {ℓ} : {A : Type ℓ} → List A → ℕ → List A
remove_at [] i = []
remove_at (x ∷ xs) zero = xs
remove_at (x ∷ xs) (suc i) = x ∷ remove_at xs i

-- The steps. `none` is a step that cannot be taken now.
module _ {A : Type 0} where
  -- The first half of `Enqueue`: a container is dropped, or goes on to the second half.
  unfoldable pub enqueue_check : A → Worker A → Worker A
  enqueue_check c w = if w.stopping then w else record w { checking = w.checking ++ c ∷ [] }

  -- The `select` of `Enqueue` by one of those callers: a send on a closed channel panics, and a full
  -- channel drops the container.
  unfoldable pub enqueue_send : ℕ → Worker A → Option (Worker A)
  enqueue_send i w = elim (get_elem? w.checking i) [
    | none ↦ none
    | some c ↦
        let left = record w { checking = remove_at w.checking i } in
        if w.chan_closed
        then some (record left { panicked = true })
        else if ltb (length w.packet_chan) w.capacity
        then some
            (record left { packet_chan = w.packet_chan ++ c ∷ []; accepted = w.accepted ++ c ∷ [] })
        else some left
  ]

  -- The body of `stopOnce.Do`, which runs once.
  unfoldable pub stop_mark : Worker A → Worker A
  stop_mark w = record w { stopping = true }

  unfoldable pub stop_signal : Worker A → Option (Worker A)
  stop_signal w =
      if w.stopping && not w.stop_chan_closed
      then some (record w { stop_chan_closed = true })
      else none

  -- The goroutine that `Stop` wakes: it closes the channel, ...
  unfoldable pub close_chan : Worker A → Option (Worker A)
  close_chan w =
      if w.stop_chan_closed && not w.chan_closed
      then some (record w { stopping = true; chan_closed = true })
      else none

  -- ... and when every worker has returned it closes the file, and `done`.
  unfoldable pub close_done : Worker A → Option (Worker A)
  close_done w = elim w.taken [
    | c ∷ cs ↦ none
    | [] ↦
        if w.chan_closed && (w.idle == 0 && not w.done)
        then some (record w { done = true })
        else none
  ]

  -- A worker receives, ...
  unfoldable pub take_packet : Worker A → Option (Worker A)
  take_packet w = elim w.packet_chan [
    | [] ↦ none
    | c ∷ cs ↦
        if w.idle == 0
        then none
        else some (record w { packet_chan = cs; idle = w.idle - 1; taken = w.taken ++ c ∷ [] })
  ]

  -- ... writes what it received, or logs the encoder's error, and goes back to the channel. In the text
  -- encoding a written line may still stand in the buffered writer, whose last `Flush` is not modelled;
  unfoldable pub write_packet : Bool → ℕ → Worker A → Option (Worker A)
  write_packet ok i w = elim (get_elem? w.taken i) [
    | none ↦ none
    | some c ↦
        let free = record w { taken = remove_at w.taken i; idle = w.idle + 1 } in
        some (
          if ok
          then record free { written = w.written ++ c ∷ [] }
          else record free { failed = w.failed ++ c ∷ [] })
  ]

  -- it returns when the channel is closed and empty.
  unfoldable pub worker_return : Worker A → Option (Worker A)
  worker_return w = elim w.packet_chan [
    | c ∷ cs ↦ none
    | [] ↦
        if w.chan_closed && not (w.idle == 0) then some (record w { idle = w.idle - 1 }) else none
  ]

pub data Event (A : Type 0) : Type 0 where
  checks : A → Event A
  sends : ℕ → Event A
  marks signals closes finishes takes : Event A
  writes : Bool → ℕ → Event A
  returns : Event A

unfoldable pub step : {A : Type 0} → Worker A → Event A → Option (Worker A)
unfolding enqueue_check enqueue_send stop_mark stop_signal close_chan close_done take_packet
    write_packet worker_return
step w (checks c) = some (enqueue_check c w)
step w (sends i) = enqueue_send i w
step w marks = some (stop_mark w)
step w signals = stop_signal w
step w closes = close_chan w
step w finishes = close_done w
step w takes = take_packet w
step w (writes ok i) = write_packet ok i w
step w returns = worker_return w

-- What the goroutines can reach in any order, as long as none has panicked.
pub data Reach {A : Type 0} (w : Worker A) : Worker A → Type 0 where
  here : Reach w w
  next :
      {u v : Worker A}
      → Reach w u
      → u.panicked ≡ false
      → (e : Event A) → step u e ≡ some v
      → Reach w v
