-- ===== src/Socket/Options.antt =====
-- `noDelay`, `keepAlive` and `noBlock` of connobj.c: the one call that each makes, whose result is not
-- looked at.
use epoll_net.Base.{ℕ, Bool, true, false, Option, ◌==◌, if◌then◌else◌}

-- `setsockopt` with TCP_NODELAY or SO_KEEPALIVE and the value of `opt`, and `fcntl` with F_SETFL and
-- O_RDWR, with O_NONBLOCK or without.
pub data OptionCall : Type 0 where
  tcp_nodelay so_keepalive : Option ℕ → ℕ → OptionCall
  set_flags : Option ℕ → Bool → OptionCall

-- `enable ? 1 : 0`
abbrev opt : ℕ → ℕ
opt enable = if enable == 0 then 0 else 1

-- `enable` is an `int` as a bit pattern.
module _ (fd : Option ℕ) (enable : ℕ) where
  unfoldable pub no_delay : OptionCall
  no_delay = tcp_nodelay fd (opt enable)

  unfoldable pub keep_alive : OptionCall
  keep_alive = so_keepalive fd (opt enable)

  unfoldable pub no_block : OptionCall
  no_block = set_flags fd (if enable == 0 then false else true)
