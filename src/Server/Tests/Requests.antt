-- ===== src/Server/Tests/Requests.antt =====
-- Requests, at concrete inputs.
use so.Common.{true, ℕ, ◌+◌, ◌≡◌, ◌≢◌, refl, Option, some, [], ◌∷◌, arith}
use so.Server.Types.{codes, overlay, zeros, set_handler, FileType, Connection}
use so.Server.System.{System}
use so.Server.Monad.{Server, returns}
use so.Server.Epoll.{w_epoll_update_ptr_inout}
use so.Server.Request.{contains, respond}
use so.Server.Request.Paths.{IsTypeOf}
use so.Server.Request.Replies.{answered, respond-replies}
use so.Server.Tests.World.{World, world, world_epoll}
use so.Server.Tests.Sending.{start, reply}

-- The request of the file, as the parser finds it.
abbrev asking : Connection
asking = record (reply 0) { recv_buffer = overlay (codes "/static/a") zeros; recv_len = 9 }

abbrev asked : Server World
asked = record start { handlers = λ p. some asking }

-- The world, with each `epoll_ctl` a success.
abbrev granting : System World
granting = record world { epoll = record world_epoll { epoll_ctl = λ ep op d ev s. (true, s) } }

byte : (n : ℕ) → n + 1 ≢ 0
byte n e = absurd (omega (arith, e))

-- The stack holds `dy` behind the path, and a newline behind the delimiter.
respond-replies_example :
    (file : Option ℕ) × (kind : FileType) × (t final : World) × IsTypeOf (codes "static") kind
    × (granting.open_file (codes "./static/a.dat") asked.sys ≡ (file, t))
    × (respond granting (codes "dy") (10 ∷ []) 64 asked
        ≡ returns tt (record asked {
          handlers = set_handler asked.handlers 64 (
              some (
                answered granting
                  (record asking { path = codes "./static/a.dat"; file_type = kind })
                  file
                  t));
          sys = final;
        }))
unfolding contains w_epoll_update_ptr_inout
respond-replies_example =
    respond-replies granting b's' (codes "tatic") (codes "a") (codes "dy") (10 ∷ []) 64 asking asked
      (codes "/static/a") (codes "./static/a.dat") refl refl (omega arith)
      (refl, (refl, (refl, (refl, (refl, (refl, tt))))))
      (
        byte 46,
        (
          byte 114,
          (byte 115, (byte 96, (byte 115, (byte 104, (byte 98, (byte 46, (byte 96, tt))))))),
        ),
      )
      refl refl (λ t. refl)
