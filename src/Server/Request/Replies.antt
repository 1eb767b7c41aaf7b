-- ===== src/Server/Request/Replies.antt =====
-- What a handler holds behind a request: the file, its type, and the header of the reply.
use so.Common.{
  ℕ, ◌+◌, ◌≡◌, ◌≢◌, ◌≤◌, refl, ap, true, false, Option, none, some, List, [], ◌∷◌, ◌++◌, length,
  ne→==, if◌then◌else◌, All,
}
use so.Server.Types.{
  codes, overlay, zeros, bufsiz, aws_document_root, http_ok_msg, http_not_found_msg, Handlers,
  FileType, set_handler, set_handler-same, set_handler-again, Connection,
}
use so.Server.System.{System, Whence}
use so.Server.Epoll.{w_epoll_update_ptr_inout}
use so.Server.Monad.{
  Server, Outcome, returns, ◌>>=◌, ◌>>◌, done, call, die, found, load, store, modify,
}
use so.Server.Files.{get_file_sz}
use so.Server.Request.{
  c_string, write_over, contains, type_of_token, set_connection_send_buffer, on_path_cb,
  update_inout, parse_path, is_missing, watch_both, respond,
}
use so.Server.Request.Paths.{IsTypeOf, type_of_token-IsTypeOf, set_connection_path_and_file-opens}

-- The header for the result of `open`.
abbrev pub reply_for : Option ℕ → List ℕ
reply_for none = http_not_found_msg
reply_for (some file) = http_ok_msg

module _ {S : Type 0} (sys : System S) where
  -- The size that `lseek` finds, 0 without a file, and the system behind its calls.
  abbrev pub size_for : Option ℕ → S → ℕ
  size_for none t = 0
  size_for (some file) t =
      (sys.lseek file 0 Whence.seek_end (sys.lseek file 0 Whence.seek_cur t).1).0

  abbrev pub behind_size : Option ℕ → S → S
  behind_size none t = t
  behind_size (some file) t =
      (sys.lseek file (sys.lseek file 0 Whence.seek_cur t).0 Whence.seek_set
        (sys.lseek file 0 Whence.seek_end (sys.lseek file 0 Whence.seek_cur t).1).1).1

  abbrev pub answered : Connection → Option ℕ → S → Connection
  answered conn file t = record conn {
    file = file;
    send_buffer = overlay (reply_for file) zeros;
    send_len = length (reply_for file);
    file_sz = size_for file t;
  }

  modify-at :
      (p : ℕ) (conn : Connection) (f : Connection → Connection) (h : Handlers) (s : Server S)
      → modify p f (record s { handlers = set_handler h p (some conn) })
        ≡ returns tt (record s { handlers = set_handler h p (some (f conn)) })
  unfolding modify load found store ◌>>=◌
  modify-at p conn f h s =
      let leave : Handlers → Outcome S (Unit {0}) = λ h'. returns tt (record s { handlers = h' }) in
      rw (set_handler-same h p (some conn))
        (ap leave (set_handler-again h p (some conn) (some (f conn))))

  set_connection_send_buffer-sets :
      (p : ℕ) (file : Option ℕ) (conn : Connection) (h : Handlers) (s : Server S)
      → set_connection_send_buffer sys p
          (is_missing sys file)
          (record s { handlers = set_handler h p (some (record conn { file = file })) })
        ≡ returns tt (record s {
          handlers = set_handler h p (some (answered conn file s.sys));
          sys = behind_size file s.sys;
        })
  unfolding set_connection_send_buffer get_file_sz ◌>>=◌ ◌>>◌ done call load found
  set_connection_send_buffer-sets p none conn h s =
      let refused : Connection → Connection = λ c. record c {
        send_buffer = overlay http_not_found_msg zeros;
        send_len = length http_not_found_msg;
        file_sz = 0;
      } in
      modify-at p (record conn { file = none }) refused h s
  set_connection_send_buffer-sets p (some f) conn h s =
      let opened : Connection = record conn { file = some f } in
      let header : Connection → Connection =
        λ c. record c { send_buffer = overlay http_ok_msg zeros; send_len = length http_ok_msg } in
      let sized : Connection → Connection = λ c. record c { file_sz = size_for (some f) s.sys } in
      rw (modify-at p opened header h s) (
        rw (set_handler-same h p (some (header opened)))
          (modify-at p (header opened) sized h (record s { sys = behind_size (some f) s.sys })))

  copied : (xs : List ℕ) → All (λ c. c ≢ 0) xs → c_string (write_over xs []) ≡ xs
  unfolding c_string write_over
  copied [] ok = refl
  copied (x ∷ xs) (ne, ok) = rw (ne→== x 0 ne, copied xs ok) refl

  -- One path, without a NUL, that the parser finds.
  parse_path-returns :
      (p : ℕ) (conn : Connection) (path : List ℕ) (s : Server S)
      → s.handlers p ≡ some conn
      → (sys.parse_request conn.recv_buffer conn.recv_len s.sys).0 ≡ path ∷ []
      → All (λ c. c ≢ 0) path
      → parse_path sys p s
        ≡ returns path
            (record s { sys = (sys.parse_request conn.recv_buffer conn.recv_len s.sys).1 })
  unfolding parse_path on_path_cb ◌>>=◌ done call load found
  parse_path-returns p conn path s live parsed text =
      rw live (rw (parsed) (rw (copied path text) refl))

  -- A request whose path `/folder/...` the parser finds, with the handler live and a file name that fits
  -- in BUFSIZ bytes: the handler then holds the name, `./folder/...` with the extension `dat`, the file,
  -- the type of the folder (static for `static`, dynamic for `dynamic`, neither for any other), and the
  -- header of the reply: `200 OK` with the size that `lseek` finds right behind the `open`, `404 Not
  -- Found` and 0 without a file. Here `epoll_ctl` succeeds, and no byte of the folder's
  -- name is taken for a delimiter.
  pub respond-replies :
      (c : ℕ) (w tail behind more : List ℕ) (p : ℕ) (conn : Connection) (s : Server S)
      (path name : List ℕ)
      → path ≡ b'/' ∷ ((c ∷ w) ++ b'/' ∷ tail)
      → name
        ≡ aws_document_root
          ++ (((c ∷ w) ++ b'/' ∷ tail)
              ++ (if contains b'.' path then codes "dat" else codes ".dat"))
      → length name + 1 ≤ bufsiz
      → All (λ d. contains d (b'/' ∷ more) ≡ false) (c ∷ w)
      → All (λ d. d ≢ 0) path
      → s.handlers p ≡ some conn
      → (sys.parse_request conn.recv_buffer conn.recv_len s.sys).0 ≡ path ∷ []
      → ((t : S) → (w_epoll_update_ptr_inout sys.epoll s.epollfd conn.sockfd p t).0 ≡ true)
      → (file : Option ℕ) × (kind : FileType) × (t final : S) × IsTypeOf (c ∷ w) kind
        × (sys.open_file name (sys.parse_request conn.recv_buffer conn.recv_len s.sys).1
            ≡ (file, t))
        × (respond sys behind more p s
            ≡ returns tt (record s {
              handlers =
                  set_handler s.handlers p
                    (some (answered (record conn { path = name; file_type = kind }) file t));
              sys = final;
            }))
  unfolding respond watch_both update_inout ◌>>=◌ ◌>>◌ call die load found
  respond-replies c w tail behind more p conn s path name is_path is_name fits clear text live
        parsed watched =
      let t1 = (sys.parse_request conn.recv_buffer conn.recv_len s.sys).1 in
      let file = (sys.open_file name t1).0 in
      let t2 = (sys.open_file name t1).1 in
      let typed : Connection = record conn { path = name; file_type = type_of_token (c ∷ w) } in
      let opened : Connection = record typed { file = file } in
      let t3 = behind_size file t2 in
      let full : Connection = answered typed file t2 in
      (
        file,
        type_of_token (c ∷ w),
        t2,
        (w_epoll_update_ptr_inout sys.epoll s.epollfd conn.sockfd p t3).1,
        type_of_token-IsTypeOf (c ∷ w),
        refl,
        rw (parse_path-returns p conn path s live parsed text) (
            rw
              (set_connection_path_and_file-opens sys c w tail behind more p conn
                (record s { sys = t1 }) path name is_path is_name fits clear live)
              (rw (set_handler-same s.handlers p (some opened)) (
                rw (set_connection_send_buffer-sets p file typed s.handlers (record s { sys = t2 }))
                  (rw (set_handler-same s.handlers p (some full)) (rw (watched t3) refl))))),
      )
