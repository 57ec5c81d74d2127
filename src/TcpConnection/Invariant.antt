-- ===== src/TcpConnection/Invariant.antt =====
-- What holds of a connection between two of its handlers.
use epoll.Base.{refl, subst, ◌∙◌, ℕ, ◌≡◌, ◌≢◌, ◌<◌, Bool, true, false, not, ◌||◌, List, ◌++◌, ◌==◌}
use epoll.Buffer.{Buffer, readable_bytes}
use epoll.Buffer.Valid.{IsValid, content}
use epoll.Channel.{LoopOps, is_writing, new_index, none_event}
use epoll.TcpConnection.{
  Functor, StateE, Connection, is_disconnected, is_connected, is_disconnecting,
}

-- Connected, or half closed.
abbrev pub is_up : StateE → Bool
is_up s = is_connected s || is_disconnecting s

abbrev pub is_empty : Buffer → Bool
is_empty b = readable_bytes b == 0

module _ (ops : LoopOps Functor) where
  open ops use {Tracks}

  -- The loop's records fit the channel, the buffers are well formed, and the channel waits for
  -- room to write exactly while there is output to write.
  pub record Inv (w : Connection ops) : Type 0 where
    pub tracks : Tracks w.loop w.channel
    pub input_valid : IsValid w.input_buffer
    pub output_valid : IsValid w.output_buffer
    pub mask : w.channel.events < 8
    pub flow :
        is_disconnected w.state ≡ false → is_writing w.channel ≡ not (is_empty w.output_buffer)
    pub quiet : is_up w.state ≡ false → w.channel.events ≡ none_event
    pub registered : is_up w.state ≡ true → w.channel.index ≢ new_index

  -- A handler leaves the connection its channel's descriptor and address, and spares the channels
  -- of other descriptors in the loop.
  pub record Keeps (w w' : Connection ops) : Type 0 where
    pub fd_lem : w'.channel.fd ≡ w.channel.fd
    pub address_lem : w'.channel.address ≡ w.channel.address
    pub spares : ops.Spares w.channel.fd w.loop w'.loop

  pub Keeps-refl : (w : Connection ops) → Keeps w w
  Keeps-refl w = record {
    fd_lem = refl;
    address_lem = refl;
    spares = ops.spares_refl w.channel.fd w.loop;
  }

  pub Keeps-trans : (u v w : Connection ops) → Keeps u v → Keeps v w → Keeps u w
  Keeps-trans u v w k l = record {
    fd_lem = l.fd_lem ∙ k.fd_lem;
    address_lem = l.address_lem ∙ k.address_lem;
    spares =
        ops.spares_trans u.channel.fd u.loop v.loop w.loop k.spares
          (subst (λ fd. ops.Spares fd v.loop w.loop) k.fd_lem l.spares);
  }

  -- What the kernel has taken, and then what waits in the output buffer.
  abbrev pub stream : Connection ops → List ℕ
  stream w = w.wire ++ content w.output_buffer
