-- ===== src/Memory/Ensures.antt =====
-- Total correctness of a run: it ends with a value, and the value and the state satisfy `P`.
use epoll_net.Memory.{Outcome, done, Prog, resume}

pub data Ensures {S A : Type 0} (P : A → S → Type 0) : Outcome S A → Type 0 where
  ends : {a : A} {s : S} → P a s → Ensures P (done a s)

module _ {S A : Type 0} {P : A → S → Type 0} where
  pub chain :
      {B : Type 0} {Q : B → S → Type 0} {r : Outcome S A} {k : A → Prog S B}
      → Ensures P r
      → ((a : A) (s : S) → P a s → Ensures Q (k a s))
      → Ensures Q (resume k r)
  chain (ends p) next = next _ _ p

  pub weaken :
      {Q : A → S → Type 0} {r : Outcome S A}
      → Ensures P r
      → ((a : A) (s : S) → P a s → Q a s)
      → Ensures Q r
  weaken (ends p) f = ends (f _ _ p)
