-- ===== src/Channel/Update.antt =====
-- The `enable`, `disable` and `remove` functions of a channel that its loop keeps track of.
use epoll.Base.{ℕ, ◌≡◌, ◌≢◌, bit_or, true, Result, ok}
use epoll.Channel.{
  Channel, Index, new_index, LoopOps, read_event, write_event, none_event, without, enable_reading,
  enable_writing, disable_writing, disable_all,
}
use epoll.Channel

-- The channel after an update to the events `ev` that gave it the index `i`.
abbrev pub switched : Channel → ℕ → Index → Channel
switched c ev i = record c { added_to_loop = true; events = ev; index = i }

module _ {F : Type 0} (ops : LoopOps F) where
  open ops use {Loop, Tracks, Removable, Spares, pending}

  -- The update succeeds, and the loop then fits the channel.
  pub record Switch (c : Channel) (l : Loop) (ev : ℕ) (r : Result (Channel × Loop)) : Type 0 where
    pub index : Index
    pub loop : Loop
    pub done : r ≡ ok (switched c ev index, loop)
    pub tracks : Tracks loop (switched c ev index)
    pub known : index ≢ new_index
    pub pending_lem : pending loop ≡ pending l
    pub removable : Removable l c.address → Removable loop c.address
    pub spares : Spares c.fd l loop

  update_to :
      (ev : ℕ) (c : Channel) (l : Loop)
      → Tracks l c
      → Switch c l ev (Channel.update ops (record c { events = ev }) l)
  unfolding Channel.update
  update_to ev c l t =
      let fits = ops.flags_lem c l c.event_handling true c.tied c.revents ev t in
      let (i, l', e, t', k, p, r, s) =
        ops.update_lem (record c { added_to_loop = true; events = ev }) l fits in
      record {
        index = i;
        loop = l';
        done = e;
        tracks = t';
        known = k;
        pending_lem = p;
        removable = r;
        spares = s;
      }

  pub enable_reading_lem :
      (c : Channel) (l : Loop)
      → Tracks l c
      → Switch c l (bit_or c.events read_event) (enable_reading ops c l)
  unfolding enable_reading
  enable_reading_lem c l t = update_to (bit_or c.events read_event) c l t

  pub enable_writing_lem :
      (c : Channel) (l : Loop)
      → Tracks l c
      → Switch c l (bit_or c.events write_event) (enable_writing ops c l)
  unfolding enable_writing
  enable_writing_lem c l t = update_to (bit_or c.events write_event) c l t

  pub disable_writing_lem :
      (c : Channel) (l : Loop)
      → Tracks l c
      → Switch c l (without c.events write_event) (disable_writing ops c l)
  unfolding disable_writing
  disable_writing_lem c l t = update_to (without c.events write_event) c l t

  pub disable_all_lem :
      (c : Channel) (l : Loop) → Tracks l c → Switch c l none_event (disable_all ops c l)
  unfolding disable_all
  disable_all_lem c l t = update_to none_event c l t
