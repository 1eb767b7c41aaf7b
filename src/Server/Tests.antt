-- ===== src/Server/Tests.antt =====
-- An interest list as a function, with what epoll promises of it.
mod World
mod Sending
mod Requests
use so.Common.{
  inl, ℕ, ◌≡◌, ◌≢◌, refl, Bool, true, false, Option, none, some, ◌==◌, ◌&&◌, if◌then◌else◌, arith,
  eq→==, ne→==,
}
use so.Server.Epoll.{
  EpollOp, EpollData, EpollEvent, epollin, epollout, epollinout, Epoll, IsEpoll, w_epoll_add_fd_in,
  w_epoll_add_fd_out, w_epoll_add_fd_inout, w_epoll_add_ptr_in, w_epoll_add_ptr_out,
  w_epoll_add_ptr_inout, w_epoll_update_ptr_in, w_epoll_update_ptr_inout, w_epoll_update_fd_in,
  w_epoll_update_fd_out, w_epoll_update_fd_inout, w_epoll_update_ptr_out,
}

-- The events of a descriptor in the list of an epoll descriptor.
abbrev pub Lists : Type 0
Lists = ℕ → ℕ → Option EpollEvent

abbrev pub set : Lists → ℕ → ℕ → Option EpollEvent → Lists
set s ep d o ep' d' = if (ep' == ep) && (d' == d) then o else s ep' d'

-- `epoll_ctl` by what the list holds for the descriptor.
unfoldable pub ctl : ℕ → EpollOp → ℕ → EpollEvent → Lists → Option EpollEvent → Bool × Lists
ctl ep EpollOp.ctl_add d ev s none = (true, set s ep d (some ev))
ctl ep EpollOp.ctl_mod d ev s none = (false, s)
ctl ep EpollOp.ctl_del d ev s none = (false, s)
ctl ep EpollOp.ctl_add d ev s (some old) = (false, s)
ctl ep EpollOp.ctl_mod d ev s (some old) = (true, set s ep d (some ev))
ctl ep EpollOp.ctl_del d ev s (some old) = (true, set s ep d none)

abbrev pub epoll : Epoll Lists
epoll = record {
  epoll_create = λ size s. (some 3, s);
  epoll_ctl = λ ep op d ev s. ctl ep op d ev s (s ep d);
  epoll_wait = λ ep most time s. (some (s ep 9), s);
}

abbrev pub interest : Lists → ℕ → ℕ → Option EpollEvent
interest s = s

set-same : (s : Lists) (ep d : ℕ) (o : Option EpollEvent) → set s ep d o ep d ≡ o
set-same s ep d o = rw (eq→== ep ep refl, eq→== d d refl) refl

set-other :
    (s : Lists) (ep d d' : ℕ) (o : Option EpollEvent) → d' ≢ d → set s ep d o ep d' ≡ s ep d'
set-other s ep d d' o ne = rw (eq→== ep ep refl, ne→== d' d ne) refl

ctl-other :
    (ep d d' : ℕ) (op : EpollOp) (ev : EpollEvent) (s : Lists) (o : Option EpollEvent)
    → d' ≢ d
    → (ctl ep op d ev s o).1 ep d' ≡ s ep d'
unfolding ctl
ctl-other ep d d' EpollOp.ctl_add ev s none ne = set-other s ep d d' (some ev) ne
ctl-other ep d d' EpollOp.ctl_mod ev s none ne = refl
ctl-other ep d d' EpollOp.ctl_del ev s none ne = refl
ctl-other ep d d' EpollOp.ctl_add ev s (some old) ne = refl
ctl-other ep d d' EpollOp.ctl_mod ev s (some old) ne = set-other s ep d d' (some ev) ne
ctl-other ep d d' EpollOp.ctl_del ev s (some old) ne = set-other s ep d d' none ne

pub epoll-IsEpoll : IsEpoll epoll interest
unfolding ctl
epoll-IsEpoll = record {
  add_new = λ ep d ev s new. inl (rw (new, ctl) (refl, set-same s ep d (some ev)));
  add_old = λ ep d ev old s known. rw (known, ctl) refl;
  mod_old = λ ep d ev old s known. rw (known, ctl) (refl, set-same s ep d (some ev));
  mod_new = λ ep d ev s new. rw (new, ctl) refl;
  del_new = λ ep d ev s new. rw (new, ctl) refl;
  del_old = λ ep d ev old s known. rw (known, ctl) (refl, set-same s ep d none);
  others = λ ep d d' op ev s ne. ctl-other ep d d' op ev s (s ep d) ne;
}
