-- ===== src/TcpConnection/Progress.antt =====
-- What a connection that is up can do after any run.
use epoll.Base.{ℕ, ◌+◌, ◌≡◌, ◌≤◌, true, false, List, ◌++◌, length, ok, max_size}
use epoll.Buffer.Valid.{content}
use epoll.Channel.{LoopOps}
use epoll.TcpConnection.{Functor, Connection, Written, wrote, shutdown, handle_write}
use epoll.TcpConnection.Sending.{send}
use epoll.TcpConnection.Invariant.{Inv, is_up, stream}
use epoll.TcpConnection.History.{
  History, History-Streams, send_lem, handle_write-Streams, shutdown_lem,
}

module _ (ops : LoopOps Functor) where
  -- After any run of sends, writes and shutdowns no operation faults: a send for which the buffer
  -- has room, a write of a part of the output and a shutdown all succeed.
  pub History-proceeds :
      {w : Connection ops} {bytes : List ℕ} {w' : Connection ops} (message : List ℕ)
      (answer : Written) (n : ℕ)
      → History ops w bytes w'
      → Inv ops w
      → is_up w.state ≡ true
      → w.write_closed ≡ false
      → w'.output_buffer.writer_index + length message ≤ max_size
      → n ≤ length (content w'.output_buffer)
      → ((after : Connection ops) × (send ops message answer w' ≡ ok after))
        × ((after : Connection ops) × (handle_write ops (wrote n) w' ≡ ok after))
        × ((after : Connection ops) × (shutdown ops w' ≡ ok after))
  History-proceeds {w = w} {bytes = bytes} {w' = u} message answer n h v up still fits part =
      let t = History-Streams ops h v up still in
      let all = stream ops w ++ bytes in
      let (sent, e, _, _, _, _) = send_lem ops message answer all u t fits in
      let (wrote_some, e', _, _, _, _) = handle_write-Streams ops n all u t part in
      let (closing, e'', _, _) = shutdown_lem ops all u t in
      ((sent, e), (wrote_some, e'), (closing, e''))
