-- ===== src/Channel/Printing.antt =====
-- The names of events in Channel.cpp, for the log.
use epoll.Base.{ℕ, [], ◌++◌, if◌then◌else◌, Text, codes, decimal}
use epoll.Channel.{Channel, has, pollin, pollpri, pollout, pollerr, pollhup, pollnval, pollrdhup}

-- The name of an event, if it is set.
abbrev name_of : ℕ → ℕ → Text → Text
name_of ev bit name = if has ev bit then name else []

unfoldable pub events_to_string : ℕ → ℕ → Text
events_to_string fd ev =
    decimal fd
    ++ codes ": "
    ++ name_of ev pollin (codes "IN ")
    ++ name_of ev pollpri (codes "PRI ")
    ++ name_of ev pollout (codes "OUT ")
    ++ name_of ev pollhup (codes "HUP ")
    ++ name_of ev pollrdhup (codes "RDDHUP ")
    ++ name_of ev pollerr (codes "ERR ")
    ++ name_of ev pollnval (codes "NVAL ")

unfoldable pub own_events_to_string : Channel → Text
own_events_to_string c = events_to_string c.fd c.events

unfoldable pub revents_to_string : Channel → Text
revents_to_string c = events_to_string c.fd c.revents
