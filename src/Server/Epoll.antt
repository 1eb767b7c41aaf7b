-- ===== src/Server/Epoll.antt =====
-- Homeworks/Asynchronous_Web_Server/w_epoll.h: wrappers of the epoll calls. The calls are an
-- interface, and `IsEpoll` is what their manual page says of the interest list.
use so.Common.{ℕ, ◌≡◌, ◌≢◌, ◌⊎◌, Bool, true, false, Option, none, some}

-- `EPOLL_CTL_ADD`, `EPOLL_CTL_MOD` and `EPOLL_CTL_DEL`
pub data EpollOp : Type 0 where
  ctl_add ctl_mod ctl_del : EpollOp

-- The union `epoll_data_t`, as it was written last.
pub data EpollData : Type 0 where
  fd ptr : ℕ → EpollData

-- `struct epoll_event`
pub record EpollEvent : Type 0 where
  pub events : ℕ
  pub udata : EpollData

abbrev pub epollin : ℕ
epollin = 1

abbrev pub epollout : ℕ
epollout = 4

-- `EPOLLIN | EPOLLOUT`
abbrev pub epollinout : ℕ
epollinout = 5

-- A Boolean says whether a call succeeds, and `none` is the result -1 of `epoll_create`.
-- `epoll_wait` takes the most events to return and the time to wait, of which `none` is -1.
pub record Epoll (S : Type 0) : Type 0 where
  pub epoll_create : ℕ → S → Option ℕ × S
  pub epoll_ctl : ℕ → EpollOp → ℕ → EpollEvent → S → Bool × S
  pub epoll_wait : ℕ → ℕ → Option ℕ → S → Option (Option EpollEvent) × S

-- What `epoll_ctl` promises of the list of an epoll descriptor: it adds a descriptor that is not in
-- it or fails (memory, the limit of watches, a file that cannot be watched) and leaves it out, changes
-- and removes one that is, and otherwise fails and leaves the list alone.
pub record IsEpoll {S : Type 0} (e : Epoll S) (interest : S → ℕ → ℕ → Option EpollEvent)
    : Type 0 where
  pub add_new :
      (ep d : ℕ) (ev : EpollEvent) (s : S)
      → interest s ep d ≡ none
      → (((e.epoll_ctl ep EpollOp.ctl_add d ev s).0 ≡ true)
          × (interest (e.epoll_ctl ep EpollOp.ctl_add d ev s).1 ep d ≡ some ev))
        ⊎ (((e.epoll_ctl ep EpollOp.ctl_add d ev s).0 ≡ false)
            × (interest (e.epoll_ctl ep EpollOp.ctl_add d ev s).1 ep d ≡ none))
  pub add_old :
      (ep d : ℕ) (ev old : EpollEvent) (s : S)
      → interest s ep d ≡ some old
      → e.epoll_ctl ep EpollOp.ctl_add d ev s ≡ (false, s)
  pub mod_old :
      (ep d : ℕ) (ev old : EpollEvent) (s : S)
      → interest s ep d ≡ some old
      → ((e.epoll_ctl ep EpollOp.ctl_mod d ev s).0 ≡ true)
        × (interest (e.epoll_ctl ep EpollOp.ctl_mod d ev s).1 ep d ≡ some ev)
  pub mod_new :
      (ep d : ℕ) (ev : EpollEvent) (s : S)
      → interest s ep d ≡ none
      → e.epoll_ctl ep EpollOp.ctl_mod d ev s ≡ (false, s)
  pub del_new :
      (ep d : ℕ) (ev : EpollEvent) (s : S)
      → interest s ep d ≡ none
      → e.epoll_ctl ep EpollOp.ctl_del d ev s ≡ (false, s)
  pub del_old :
      (ep d : ℕ) (ev old : EpollEvent) (s : S)
      → interest s ep d ≡ some old
      → ((e.epoll_ctl ep EpollOp.ctl_del d ev s).0 ≡ true)
        × (interest (e.epoll_ctl ep EpollOp.ctl_del d ev s).1 ep d ≡ none)
  pub others :
      (ep d d' : ℕ) (op : EpollOp) (ev : EpollEvent) (s : S)
      → d' ≢ d
      → interest (e.epoll_ctl ep op d ev s).1 ep d' ≡ interest s ep d'

module _ {S : Type 0} (e : Epoll S) where
  unfoldable pub w_epoll_create : S → Option ℕ × S
  w_epoll_create s = e.epoll_create 10 s

  unfoldable pub w_epoll_add_fd_in : ℕ → ℕ → S → Bool × S
  w_epoll_add_fd_in epollfd d s =
      e.epoll_ctl epollfd EpollOp.ctl_add d (record { events = epollin; udata = EpollData.fd d }) s

  unfoldable pub w_epoll_add_fd_out : ℕ → ℕ → S → Bool × S
  w_epoll_add_fd_out epollfd d s =
      e.epoll_ctl epollfd EpollOp.ctl_add d (record { events = epollout; udata = EpollData.fd d }) s

  unfoldable pub w_epoll_add_fd_inout : ℕ → ℕ → S → Bool × S
  w_epoll_add_fd_inout epollfd d s =
      e.epoll_ctl epollfd EpollOp.ctl_add d (record { events = epollinout; udata = EpollData.fd d })
        s

  unfoldable pub w_epoll_update_fd_in : ℕ → ℕ → S → Bool × S
  w_epoll_update_fd_in epollfd d s =
      e.epoll_ctl epollfd EpollOp.ctl_mod d (record { events = epollin; udata = EpollData.fd d }) s

  unfoldable pub w_epoll_update_fd_out : ℕ → ℕ → S → Bool × S
  w_epoll_update_fd_out epollfd d s =
      e.epoll_ctl epollfd EpollOp.ctl_mod d (record { events = epollout; udata = EpollData.fd d }) s

  unfoldable pub w_epoll_update_fd_inout : ℕ → ℕ → S → Bool × S
  w_epoll_update_fd_inout epollfd d s =
      e.epoll_ctl epollfd EpollOp.ctl_mod d (record { events = epollinout; udata = EpollData.fd d })
        s

  unfoldable pub w_epoll_remove_fd : ℕ → ℕ → S → Bool × S
  w_epoll_remove_fd epollfd d s =
      e.epoll_ctl epollfd EpollOp.ctl_del d (record { events = epollin; udata = EpollData.fd d }) s

  unfoldable pub w_epoll_add_ptr_in : ℕ → ℕ → ℕ → S → Bool × S
  w_epoll_add_ptr_in epollfd d p s =
      e.epoll_ctl epollfd EpollOp.ctl_add d (record { events = epollin; udata = EpollData.ptr p }) s

  unfoldable pub w_epoll_add_ptr_out : ℕ → ℕ → ℕ → S → Bool × S
  w_epoll_add_ptr_out epollfd d p s =
      e.epoll_ctl epollfd EpollOp.ctl_add d (record { events = epollout; udata = EpollData.ptr p })
        s

  unfoldable pub w_epoll_add_ptr_inout : ℕ → ℕ → ℕ → S → Bool × S
  w_epoll_add_ptr_inout epollfd d p s =
      e.epoll_ctl epollfd EpollOp.ctl_add d
        (record { events = epollinout; udata = EpollData.ptr p }) s

  unfoldable pub w_epoll_update_ptr_in : ℕ → ℕ → ℕ → S → Bool × S
  w_epoll_update_ptr_in epollfd d p s =
      e.epoll_ctl epollfd EpollOp.ctl_mod d (record { events = epollin; udata = EpollData.ptr p }) s

  unfoldable pub w_epoll_update_ptr_out : ℕ → ℕ → ℕ → S → Bool × S
  w_epoll_update_ptr_out epollfd d p s =
      e.epoll_ctl epollfd EpollOp.ctl_mod d (record { events = epollout; udata = EpollData.ptr p })
        s

  unfoldable pub w_epoll_update_ptr_inout : ℕ → ℕ → ℕ → S → Bool × S
  w_epoll_update_ptr_inout epollfd d p s =
      e.epoll_ctl epollfd EpollOp.ctl_mod d
        (record { events = epollinout; udata = EpollData.ptr p }) s

  unfoldable pub w_epoll_remove_ptr : ℕ → ℕ → ℕ → S → Bool × S
  w_epoll_remove_ptr epollfd d p s =
      e.epoll_ctl epollfd EpollOp.ctl_del d (record { events = epollin; udata = EpollData.ptr p }) s

  -- `EPOLL_TIMEOUT_INFINITE` is -1.
  unfoldable pub w_epoll_wait_infinite : ℕ → S → Option (Option EpollEvent) × S
  w_epoll_wait_infinite epollfd s = e.epoll_wait epollfd 1 none s
