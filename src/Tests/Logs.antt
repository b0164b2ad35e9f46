-- ===== src/Tests/Logs.antt =====
-- A logger with a file of 20 bytes at most, and calls that reach the limit.
use epoll_net.Base.{
  ◌-◌, ◌/◌, ◌<◌, ◌≤◌, ◌≡◌, ◌⊎◌, inl, refl, arith, true, false, some, [], ◌∷◌, ◌++◌, length, take,
  replicate,
}
use epoll_net.Memory.{done, crash, ◌>>◌}
use epoll_net.Logger.{
  Logger, Environment, level_warn, level_info, level_none, buf_len, hex_digits, hex_line, overflow,
  log_plain, log_hex,
}
use epoll_net.Logger.Lines.{text_line}
use epoll_net.Logger.Dumps.{dumped, dumped_len}
use epoll_net.Logger.Digits.{All, IsDigit, read_digits, hex_digits-IsDigit}
use epoll_net.Logger.Closing.{destroy, destroy-log_plain}
use epoll_net.Logger.Rotation.{Written, log_plain-Written, log_plain-rotate, log_hex-Written}

abbrev fresh : Logger
fresh = record {
  ready = true;
  level = level_none;
  fp = some 3;
  wcurr = 0;
  wtotal = 0;
  rotatesize = 20;
  open_files = 3 ∷ [];
  written = [];
}

-- The time is 12 bytes, a new file is number 4.
abbrev noon : Environment
noon = record { stamp = replicate 12 48; behind = []; renamed = true; opened = some 4 }

abbrev no_rename : Environment
no_rename = record { stamp = replicate 12 48; behind = 0 ∷ []; renamed = false; opened = some 4 }

log_plain-Written_example :
    (lg' : Logger) × (log_plain noon level_info (some (104 ∷ 105 ∷ [])) fresh ≡ done 0 lg')
    × Written fresh true (some 4) 3 (text_line [] level_info (replicate 12 48) (104 ∷ 105 ∷ [])) lg'
    × (length (text_line [] level_info (replicate 12 48) (104 ∷ 105 ∷ [])) ≤ buf_len - 9)
log_plain-Written_example =
    log_plain-Written fresh noon 3 refl refl level_info (104 ∷ 105 ∷ []) refl (omega arith)
      (omega arith)

log_plain-rotate_example :
    (log_plain no_rename level_info (some (104 ∷ 105 ∷ [])) >> log_plain noon level_warn (some []))
      fresh
    ≡ crash
log_plain-rotate_example =
    log_plain-rotate fresh no_rename 3 refl refl level_info (104 ∷ 105 ∷ []) refl (omega arith)
      (omega arith) (omega arith) (omega arith) (inl refl) noon level_warn [] refl (omega arith)
      (omega arith)

log_hex-Written_example :
    (dumped_len (0 ∷ []) (replicate 12 48) [] (255 ∷ 10 ∷ []) ≤ buf_len)
      × ((lg' : Logger) × (log_hex no_rename [] (255 ∷ 10 ∷ []) fresh ≡ done 0 lg')
          × Written fresh false
              (some 4)
              3
              (take (buf_len - 10) (dumped (0 ∷ []) (replicate 12 48) [] (255 ∷ 10 ∷ []))
                ++ 10 ∷ [])
              lg')
    ⊎ (buf_len < dumped_len (0 ∷ []) (replicate 12 48) [] (255 ∷ 10 ∷ []))
      × (hex_line (0 ∷ []) (replicate 12 48) [] (255 ∷ 10 ∷ []) ≡ overflow)
      × (log_hex no_rename [] (255 ∷ 10 ∷ []) fresh ≡ crash)
log_hex-Written_example =
    log_hex-Written fresh no_rename 3 refl refl [] (255 ∷ 10 ∷ []) (omega arith)

destroy-log_plain_example :
    (lg' : Logger) × ((log_plain noon level_info (some (104 ∷ 105 ∷ [])) >> destroy) fresh
      ≡ done tt lg')
    × (lg'.open_files ≡ 3 ∷ [])
    × (lg'.fp ≡ some 4)
destroy-log_plain_example =
    destroy-log_plain fresh noon 3 4 refl refl level_info (104 ∷ 105 ∷ []) refl (omega arith)
      (omega arith) (omega arith) (omega arith) refl refl refl

hex_digits-IsDigit_example :
    (read_digits (hex_digits (buf_len / 2) (0 ∷ 255 ∷ 10 ∷ []))
      ≡ take (buf_len / 2) (0 ∷ 255 ∷ 10 ∷ []))
    × All IsDigit (hex_digits (buf_len / 2) (0 ∷ 255 ∷ 10 ∷ []))
hex_digits-IsDigit_example =
    hex_digits-IsDigit (0 ∷ 255 ∷ 10 ∷ []) (omega arith, (omega arith, (omega arith, tt)))
