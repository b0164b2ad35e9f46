-- ===== src/Memory.antt =====
-- What the pointer code runs on: objects at addresses, and programs that may crash or not return.
-- An address is a number and NULL is 0. The address that `malloc` returns is an argument of the
-- program that calls it, NULL when memory is exhausted.
pub mod Ensures
pub mod Holds
pub mod Agrees
use epoll_net.Base.{ℕ, Option, none, some, ◌==◌, if◌then◌else◌}

abbrev pub Ptr : Type 0
Ptr = ℕ

abbrev pub null : Ptr
null = 0

abbrev pub Store : Type 0 → Type 0
Store V = Ptr → Option V

-- A run ends with a value, or touches memory that it may not, or is still running when the fuel of
-- its loops is used up.
pub data Outcome (S A : Type 0) : Type 0 where
  done : A → S → Outcome S A
  crash : Outcome S A
  running : Outcome S A

abbrev pub Prog : Type 0 → Type 0 → Type 0
Prog S A = S → Outcome S A

module _ {S A : Type 0} where
  abbrev pub pure : A → Prog S A
  pure a s = done a s

  abbrev pub give_up : Prog S A
  give_up s = running

module _ {S A B : Type 0} where
  abbrev pub resume : (A → Prog S B) → Outcome S A → Outcome S B
  resume k (done a s) = k a s
  resume k crash = crash
  resume k running = running

  infixl 5 ◌>>=◌ ◌>>◌
  abbrev pub ◌>>=◌ : Prog S A → (A → Prog S B) → Prog S B
  ◌>>=◌ m k s = resume k (m s)

  abbrev pub ◌>>◌ : Prog S A → Prog S B → Prog S B
  ◌>>◌ m k s = resume (λ _. k) (m s)

module _ {V : Type 0} where
  unfoldable pub write : Store V → Ptr → Option V → Store V
  write h p c a = if p == a then c else h a

  -- `*p`: NULL and an address with no object crash.
  unfoldable pub load : Ptr → Prog (Store V) V
  load p h = if p == null then crash else elim (h p) [ none ↦ crash | some v ↦ done v h ]

  -- A new object at the address that `malloc` gave.
  unfoldable pub place : Ptr → V → Prog (Store V) (Unit {0})
  unfolding write
  place p v h = done tt (write h p (some v))

  -- `*p = f(*p)`: an assignment to a field.
  unfoldable pub modify : Ptr → (V → V) → Prog (Store V) (Unit {0})
  unfolding load write
  modify p f = do v ← load p; λ h. done tt (write h p (some (f v)))

  unfoldable pub free : Ptr → Prog (Store V) (Unit {0})
  unfolding load write
  free p = do _ ← load p; λ h. done tt (write h p none)
