-- ===== src/Memory/Holds.antt =====
-- What an address holds, and what each memory operation does at an address that holds an object.
use epoll_net.Base.{◌≡◌, false, none, some, arith, ◌≢◌, ◌==◌, refl}
use epoll_net.Memory.{Ptr, null, Store, done, crash, write, load, modify, free}

pub record Holds {V : Type 0} (h : Store V) (p : Ptr) (v : V) : Type 0 where
  pub ne_null : p ≢ null
  pub object : h p ≡ some v

pub modify-null : {V : Type 0} (h : Store V) (f : V → V) → modify null f h ≡ crash
unfolding modify load
modify-null h f = refl

module _ {V : Type 0} {h : Store V} {p : Ptr} {v : V} (e : Holds h p v) where
  pub not_null : (p == null) ≡ false
  not_null = ground arith

  pub load-done : load p h ≡ done v h
  unfolding load
  load-done = rw (not_null, e.object)

  pub modify-done : (f : V → V) → modify p f h ≡ done tt (write h p (some (f v)))
  unfolding modify
  modify-done f = rw load-done

  pub free-done : free p h ≡ done tt (write h p none)
  unfolding free
  free-done = rw load-done

  pub Holds-write : (w : V) → Holds (write h p (some w)) p w
  unfolding write
  Holds-write w = ground arith

  pub Holds-write_ne : {q : Ptr} (o : _) → q ≢ p → Holds (write h q o) p v
  unfolding write
  Holds-write_ne o ne = ground arith

pub Holds-new :
    {V : Type 0} (h : Store V) (p : Ptr) (v : V) → p ≢ null → Holds (write h p (some v)) p v
unfolding write
Holds-new h p v ne = ground arith
