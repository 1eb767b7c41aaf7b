-- ===== src/Server/Request.antt =====
-- Homeworks/Asynchronous_Web_Server/aws.c: from a request to the file and the header of its reply.
pub mod Paths
pub mod Replies
use so.Common.{
  ℕ, suc, Bool, true, false, not, Option, none, some, List, [], ◌∷◌, ◌++◌, length, leb, ◌==◌, ◌&&◌,
  ◌||◌, if◌then◌else◌,
}
use so.Server.Types.{
  codes, overlay, zeros, bufsiz, http_ok_msg, http_not_found_msg, aws_document_root, FileType,
  static, dynamic, other_type, ConnectionState, data_received, data_sent, connection_closed,
}
use so.Server.System.{System}
use so.Server.Monad.{M, ◌>>=◌, ◌>>◌, done, call, die, load, modify, branch}
use so.Server.Epoll.{w_epoll_update_ptr_inout}
use so.Server.Connection.{receive_message}
use so.Server.Files.{get_file_sz, no_meaning}

-- The bytes before the first NUL.
unfoldable pub c_string : List ℕ → List ℕ
c_string [] = []
c_string (x ∷ xs) = let rest = c_string xs in if x == 0 then [] else x ∷ rest

-- `memcpy` of the first text to the start of the second.
unfoldable pub write_over : List ℕ → List ℕ → List ℕ
write_over [] old = old
write_over (x ∷ xs) [] = x ∷ write_over xs []
write_over (x ∷ xs) (y ∷ ys) = x ∷ write_over xs ys

-- `strcmp(s, t) == 0`
unfoldable pub text_eq : List ℕ → List ℕ → Bool
text_eq [] [] = true
text_eq [] (y ∷ ys) = false
text_eq (x ∷ xs) [] = false
text_eq (x ∷ xs) (y ∷ ys) = (x == y) && text_eq xs ys

unfoldable pub contains : ℕ → List ℕ → Bool
contains c [] = false
contains c (x ∷ xs) = (x == c) || contains c xs

-- The tail of `path + 1`, for a path that is not empty.
abbrev pub rest_of : List ℕ → List ℕ
rest_of [] = []
rest_of (x ∷ xs) = xs

-- `strtok(temp, &delim)`: the bytes behind `delim` are delimiters too, up to the next NUL.
unfoldable pub skip_delims : List ℕ → List ℕ → List ℕ
unfolding contains
skip_delims ds [] = []
skip_delims ds (x ∷ xs) = let rest = skip_delims ds xs in if contains x ds then rest else x ∷ xs

unfoldable pub until_delim : List ℕ → List ℕ → List ℕ
unfolding contains
until_delim ds [] = []
until_delim ds (x ∷ xs) = let rest = until_delim ds xs in if contains x ds then [] else x ∷ rest

-- The type for a token, of which `[]` is NULL: a token has at least a byte.
unfoldable pub type_of_token : List ℕ → FileType
unfolding text_eq
type_of_token token =
    if text_eq token (codes "static")
    then static
    else if text_eq token (codes "dynamic")
    then dynamic
    else other_type

-- `temp` is not initialised: `behind` is what it holds behind the copy of the path, up to a NUL, and
-- `more` what stands behind `delim`.
unfoldable pub determine_file_type : List ℕ → List ℕ → List ℕ → FileType
unfolding type_of_token skip_delims until_delim
determine_file_type path behind more =
    type_of_token (until_delim (b'/' ∷ more) (skip_delims (b'/' ∷ more) (rest_of path ++ behind)))

-- The name of the file, which is built in the handler's `path`.
unfoldable pub file_name : List ℕ → List ℕ
unfolding contains
file_name path =
    aws_document_root
    ++ (rest_of path ++ (if contains b'.' path then codes "dat" else codes ".dat"))

module _ {S : Type 0} (sys : System S) where
  -- `open` with O_RDWR, and the type. The stack bytes are those of `determine_file_type`.
  unfoldable pub open_path : List ℕ → List ℕ → List ℕ → ℕ → M S (Unit {0})
  unfolding determine_file_type file_name
  open_path path behind more p = do
    file ← call (sys.open_file (file_name path))
    modify p (λ c. record c {
      path = file_name path;
      file = file;
      file_type = determine_file_type path behind more;
    })

  -- With no path nothing happens; a name that does not fit in BUFSIZ bytes is written past them.
  unfoldable pub set_connection_path_and_file : List ℕ → List ℕ → List ℕ → ℕ → M S (Unit {0})
  unfolding open_path
  set_connection_path_and_file [] behind more p = done tt
  set_connection_path_and_file (x ∷ path) behind more p =
      branch (leb (suc (length (file_name (x ∷ path)))) bufsiz) (open_path (x ∷ path) behind more p)
        no_meaning

  -- The Boolean is the argument `file_not_found`.
  unfoldable pub set_connection_send_buffer : ℕ → Bool → M S (Unit {0})
  unfolding get_file_sz
  set_connection_send_buffer p false = do
    modify p
        (λ c. record c { send_buffer = overlay http_ok_msg zeros; send_len = length http_ok_msg })
    size ← get_file_sz sys p
    modify p (λ c. record c { file_sz = size })
  set_connection_send_buffer p true = modify p (λ c. record c {
    send_buffer = overlay http_not_found_msg zeros;
    send_len = length http_not_found_msg;
    file_sz = 0;
  })

  -- `on_path_cb` for each path that the parser finds, on the bytes of the global `path`.
  unfoldable pub on_path_cb : List ℕ → List (List ℕ) → List ℕ
  unfolding write_over
  on_path_cb path [] = path
  on_path_cb path (buf ∷ more) = on_path_cb (write_over buf path) more

  unfoldable pub update_inout : ℕ → ℕ → M S Bool
  unfolding w_epoll_update_ptr_inout
  update_inout d p s = call (w_epoll_update_ptr_inout sys.epoll s.epollfd d p) s

  -- `memset(path, 0, BUFSIZ)` and the parser; the path is the text before the first NUL.
  unfoldable pub parse_path : ℕ → M S (List ℕ)
  unfolding on_path_cb c_string
  parse_path p = do
    c ← load p
    paths ← call (sys.parse_request c.recv_buffer c.recv_len)
    done (c_string (on_path_cb [] paths))

  abbrev pub is_missing : Option ℕ → Bool
  is_missing none = true
  is_missing (some file) = false

  -- `w_epoll_update_ptr_inout(epollfd, conn->sockfd, conn)`
  unfoldable pub watch_both : ℕ → M S Bool
  unfolding update_inout
  watch_both p = do c ← load p; update_inout c.sockfd p

  -- Behind the first test of `handle_client_request`.
  unfoldable pub respond : List ℕ → List ℕ → ℕ → M S (Unit {0})
  respond behind more p = do
    path ← parse_path p
    set_connection_path_and_file path behind more p
    c ← load p
    set_connection_send_buffer p (is_missing c.file)
    rc ← watch_both p
    die (not rc)

  -- From the result of `receive_message` on.
  unfoldable pub answer : List ℕ → List ℕ → ℕ → ConnectionState → M S (Unit {0})
  unfolding respond
  answer behind more p connection_closed = done tt
  answer behind more p data_sent = respond behind more p
  answer behind more p data_received = respond behind more p

  unfoldable pub handle_client_request : List ℕ → List ℕ → ℕ → M S (Unit {0})
  unfolding answer receive_message
  handle_client_request behind more p = do state ← receive_message sys p; answer behind more p state
