-- ===== src/Server/Monad.antt =====
-- The server's state, and code that changes it: it returns, ends the process (DIE), has no defined
-- meaning (`fault`), or uses up the fuel of a loop (`timeout`).
use so.Common.{ℕ, Bool, true, false, Option, none, some}
use so.Server.Types.{Connection, Handlers, set_handler}

-- The handlers, the descriptors of aws.c, and the system. The global `path` is cleared for each request
-- and is a value of the code that handles it.
pub record Server (S : Type 0) : Type 0 where
  pub handlers : Handlers
  pub listenfd : ℕ
  pub epollfd : ℕ
  pub sys : S

pub data Outcome (S A : Type 0) : Type 0 where
  returns : A → Server S → Outcome S A
  exits : Server S → Outcome S A
  fault : Outcome S A
  timeout : Outcome S A

abbrev pub M : Type 0 → Type 0 → Type 0
M S A = Server S → Outcome S A

abbrev pub and_then : {S A B : Type 0} → Outcome S A → (A → M S B) → Outcome S B
and_then (returns a s) f = f a s
and_then (exits s) f = exits s
and_then fault f = fault
and_then timeout f = timeout

infixl 5 ◌>>=◌ ◌>>◌
-- These stay shut, so that a rule for each serves the code that is made of them.
unfoldable pub ◌>>=◌ : {S A B : Type 0} → M S A → (A → M S B) → M S B
(m >>= f) s = and_then (m s) f

unfoldable pub ◌>>◌ : {S B : Type 0} → M S (Unit {0}) → M S B → M S B
(m >> k) s = and_then (m s) (λ _. k)

unfoldable pub done : {S A : Type 0} → A → M S A
done a s = returns a s

-- A call of the system.
unfoldable pub call : {S A : Type 0} → (S → A × S) → M S A
call f s = returns (f s.sys).0 (record s { sys = (f s.sys).1 })

-- DIE, at an assertion.
unfoldable pub die : {S : Type 0} → Bool → M S (Unit {0})
die true s = exits s
die false s = returns tt s

-- `DIE(rc < 0)`, where `none` is below 0.
unfoldable pub or_die : {S A : Type 0} → Option A → M S A
or_die none s = exits s
or_die (some a) s = returns a s

unfoldable pub found : {S A : Type 0} → Option A → M S A
found none s = fault
found (some a) s = returns a s

-- The handler at an address; it was freed if there is none.
unfoldable pub load : {S : Type 0} → ℕ → M S Connection
unfolding found
load p s = found (s.handlers p) s

unfoldable pub store : {S : Type 0} → ℕ → Option Connection → M S (Unit {0})
store p c s = returns tt (record s { handlers = set_handler s.handlers p c })

-- Assignments to fields of the handler at an address.
unfoldable pub modify : {S : Type 0} → ℕ → (Connection → Connection) → M S (Unit {0})
unfolding load store ◌>>=◌
modify p f = load p >>= λ c. store p (some (f c))

-- `if`, on code.
unfoldable pub branch : {S A : Type 0} → Bool → M S A → M S A → M S A
branch true m k = m
branch false m k = k
