-- ===== src/Logger.antt =====
-- log.c: the line that is built in a buffer of 4096 bytes, the counters, and the rotation of the file.
-- `sprintf` of the time, what a format expands to, and what `rename` and `fopen` do are arguments. A
-- file is a number, and so are the standard streams.
pub mod Lines
pub mod Dumps
pub mod Digits
pub mod Closing
pub mod Rotation
use epoll_net.Base.{
  ℕ, zero, suc, ◌+◌, ◌-◌, ◌*◌, ◌/◌, ◌%◌, ◌^◌, Bool, true, false, ◌&&◌, Option, none, some, List, [],
  ◌∷◌, ◌++◌, ◌==◌, ltb, leb, if◌then◌else◌, length, take, replicate,
}
use epoll_net.Memory.{Prog, Outcome, done, crash, pure, ◌>>=◌, ◌>>◌}

-- `enum LOGEVEL`, by its numbers.
pub data Level : Type 0 where
  level_none level_error level_warn level_debug level_info level_hex : Level
  -- Any other `int`.
  level_other : Level

abbrev pub name_len : ℕ
name_len = 8

abbrev pub buf_len : ℕ
buf_len = 4096

-- `getLevelName`, with the 0 at its end: "[NONE] ", "[ERROR] ", and so on.
abbrev pub level_name : Level → List ℕ
level_name level_none = 91 ∷ 78 ∷ 79 ∷ 78 ∷ 69 ∷ 93 ∷ 32 ∷ 0 ∷ []
level_name level_error = 91 ∷ 69 ∷ 82 ∷ 82 ∷ 79 ∷ 82 ∷ 93 ∷ 32 ∷ 0 ∷ []
level_name level_warn = 91 ∷ 87 ∷ 65 ∷ 82 ∷ 78 ∷ 93 ∷ 32 ∷ 0 ∷ []
level_name level_info = 91 ∷ 73 ∷ 78 ∷ 70 ∷ 79 ∷ 93 ∷ 32 ∷ 0 ∷ []
level_name level_debug = 91 ∷ 68 ∷ 69 ∷ 66 ∷ 85 ∷ 71 ∷ 93 ∷ 32 ∷ 0 ∷ []
level_name level_hex = 91 ∷ 72 ∷ 69 ∷ 88 ∷ 93 ∷ 32 ∷ 0 ∷ []
level_name level_other = 0 ∷ []

-- What becomes of the buffer: a read behind a level's name, a write outside `buf`, an error of
-- `sprintf`, or the bytes in front of `ptr`.
pub data Line : Type 0 where
  over_read overflow format_error : Line
  line : List ℕ → Line

-- A write at `ptr`, which stands behind `before`.
unfoldable pub put : List ℕ → List ℕ → (List ℕ → Line) → Line
put before bytes k =
    if ltb buf_len (length before + length bytes) then overflow else k (before ++ bytes)

-- `memcpy(ptr, getLevelName(level), LEVEL_NAME_LEN)`, where `behind` are the bytes that may be read
-- behind the name.
unfoldable pub put_name : List ℕ → Level → List ℕ → (List ℕ → Line) → Line
unfolding put
put_name behind level before k =
    let bytes = level_name level ++ behind in
    if ltb (length bytes) name_len then over_read else put before (take name_len bytes) k

-- `vsnprintf` with `size` bytes of room, and the bytes that the caller moves `ptr` by, at most `size`.
abbrev pub expanded : ℕ → List ℕ → List ℕ
expanded zero text = []
expanded (suc n) text = if ltb (length text) (suc n) then text else take n text ++ 0 ∷ []

-- The end of the line, and the 0 behind it, which is not part of it.
unfoldable pub finish : List ℕ → Line
unfolding put
finish before = put before (10 ∷ 0 ∷ []) (λ _. line (before ++ 10 ∷ []))

-- `space = sizeof(buf) - (ptr - buf) - 10`; a space below 0 is a size that `vsnprintf` does not stop at.
unfoldable pub put_text : Option (List ℕ) → List ℕ → Line
unfolding put finish
put_text none before = format_error
put_text (some text) before =
    let space = buf_len - 10 - length before in
    if ltb (buf_len - 10) (length before) then overflow else put before (expanded space text) finish

abbrev pub hex_digit : ℕ → ℕ
hex_digit n = if ltb n 10 then 48 + n else 55 + n

-- `while (index < LOG_BUF_LEN - 1 && b < e)`, which stops at 2048 bytes.
abbrev pub hex_digits : ℕ → List ℕ → List ℕ
hex_digits zero bytes = []
hex_digits (suc n) [] = []
hex_digits (suc n) (b ∷ bytes) = hex_digit (b / 16) ∷ hex_digit (b % 16) ∷ hex_digits n bytes

-- `memcpy(ptr, hex, index)`, and `ptr` is moved on by `space` at most.
unfoldable pub put_hex : List ℕ → List ℕ → Line
unfolding put finish
put_hex bytes before =
    put before (hex_digits (buf_len / 2) bytes) (λ all. finish (take (buf_len - 10) all))

-- The text in front of a dump: 1023 bytes at most are written, but `ptr` moves by its whole length.
abbrev pub dump_text : List ℕ → List ℕ
dump_text text = take 1023 text ++ replicate (length text - 1023) 0

-- The line of `logv` for each level but the last, and for the last.
unfoldable pub plain_line : List ℕ → Level → List ℕ → Option (List ℕ) → Line
unfolding put_name put_text
plain_line behind level stamp text = put_name behind level stamp (put_text text)

unfoldable pub hex_line : List ℕ → List ℕ → List ℕ → List ℕ → Line
unfolding put put_name put_hex
hex_line behind stamp text bytes =
    put stamp (dump_text text) (λ before. put_name behind level_hex before (put_hex bytes))

-- The line of a dump whose text cannot be formatted: the name goes one byte back, over the last byte of
-- the time.
unfoldable pub failed_hex_line : List ℕ → List ℕ → Line
unfolding put_name put_hex
failed_hex_line behind [] = overflow
failed_hex_line behind (x ∷ xs) = put_name behind level_hex (take (length xs) (x ∷ xs)) (put_hex [])

-- The line that `logv` builds of a call without bytes to dump; `none` is a text that cannot be formatted.
unfoldable pub logv_line : List ℕ → Level → List ℕ → Option (List ℕ) → Line
unfolding plain_line hex_line failed_hex_line
logv_line behind level_hex stamp (some text) = hex_line behind stamp text []
logv_line behind level_hex stamp none = failed_hex_line behind stamp
logv_line behind level stamp text = plain_line behind level stamp text

-- `struct taglogger`, without the name, with the files that are open. `ready` says that the lock is
-- there, `none` is a NULL `fp`.
pub record Logger : Type 0 where
  pub ready : Bool
  pub level : Level
  pub fp : Option ℕ
  pub wcurr : ℕ
  pub wtotal : ℕ
  pub rotatesize : ℕ
  pub open_files : List ℕ
  -- What was written, oldest first.
  pub written : List (ℕ × List ℕ)

-- `fopen`, which gives no file or a new one.
unfoldable pub open_log : Option ℕ → Logger → Logger
open_log none lg = record lg { fp = none }
open_log (some f) lg = record lg {
  fp = some f;
  open_files = f ∷ lg.open_files;
  wcurr = 0;
  wtotal = 0;
}

-- `rotate`, with whether `rename` succeeds. The file in use was set to NULL before it is kept in
-- `tmp_fp`, so that it is not closed.
unfoldable pub rotate : Bool → Option ℕ → Logger → Logger
unfolding open_log
rotate false opened lg = record lg { fp = none }
rotate true opened lg = open_log opened (record lg { fp = none })

unfoldable pub after_write : Bool → Option ℕ → ℕ → Logger → Logger
unfolding rotate
after_write renamed opened n lg =
    let lg' = record lg { wcurr = (lg.wcurr + n) % 2 ^ 64; wtotal = (lg.wtotal + n) % 2 ^ 64 } in
    if ltb 0 lg.rotatesize && ltb lg.rotatesize lg'.wcurr then rotate renamed opened lg' else lg'

-- `fwrite` to the file, which must not be NULL, and what follows.
unfoldable pub write_bytes : Bool → Option ℕ → List ℕ → Option ℕ → Prog Logger ℕ
unfolding after_write
write_bytes renamed opened bytes none lg = crash
write_bytes renamed opened bytes (some f) lg = done 0 (
    after_write renamed opened (length bytes)
      (record lg { written = lg.written ++ (f, bytes) ∷ [] }))

-- The end of `logv`; 1 stands for -1.
unfoldable pub write_line : Bool → Option ℕ → Line → Prog Logger ℕ
unfolding write_bytes
write_line renamed opened over_read lg = crash
write_line renamed opened overflow lg = crash
write_line renamed opened format_error lg = done 1 lg
write_line renamed opened (line bytes) lg = write_bytes renamed opened bytes lg.fp lg

-- What the system gives to one call: the bytes of the time, those behind a name, whether `rename`
-- succeeds, and what `fopen` gives.
pub record Environment : Type 0 where
  pub stamp : List ℕ
  pub behind : List ℕ
  pub renamed : Bool
  pub opened : Option ℕ

-- Without `Logger_Create` there is no lock, and its table is read through NULL.
unfoldable pub locked : (Logger → Outcome Logger ℕ) → Prog Logger ℕ
locked m lg = if lg.ready then m lg else crash

module _ (env : Environment) (level : Level) (text : Option (List ℕ)) where
  -- `logv` without bytes to dump, for a level that `setlevel` stores first.
  unfoldable pub log_plain : Prog Logger ℕ
  unfolding locked write_line logv_line
  log_plain = locked λ lg.
      write_line env.renamed env.opened (logv_line env.behind level env.stamp text)
        (record lg { level = level })

  unfoldable pub log_error : Prog Logger ℕ
  unfolding log_plain
  log_error = log_plain

  unfoldable pub log_debug : Prog Logger ℕ
  unfolding log_plain
  log_debug = log_plain

  unfoldable pub log_warn : Prog Logger ℕ
  unfolding log_plain
  log_warn = log_plain

  unfoldable pub log_info : Prog Logger ℕ
  unfolding log_plain
  log_info = log_plain

unfoldable pub log_hex : Environment → List ℕ → List ℕ → Prog Logger ℕ
unfolding locked write_line hex_line
log_hex env text bytes = locked λ lg.
    write_line env.renamed env.opened (hex_line env.behind env.stamp text bytes)
      (record lg { level = level_hex })

-- Where a log goes: to a standard stream, or to a file of this name.
pub data Target : Type 0 where
  stream : ℕ → Target
  file : Option ℕ → Target

-- `rotate_size * 1024 * 1024` on an `int` that wraps, and its value as `unsigned long long`.
abbrev pub rotate_bytes : ℕ → ℕ
rotate_bytes megabytes =
    let word = megabytes * 1024 * 1024 % 2 ^ 32 in
    if ltb word (2 ^ 31) then word else word + 2 ^ 64 - 2 ^ 32

unfoldable pub start_target : Target → Logger → Option Logger
start_target (stream f) lg = some (record lg { fp = some f })
start_target (file none) lg = none
start_target (file (some f)) lg = some (record lg { fp = some f; open_files = f ∷ lg.open_files })

-- `Logger_Create`, with whether there is memory for the lock; `none` is NULL.
unfoldable pub create : Bool → Level → ℕ → Target → Logger → Option Logger
unfolding start_target
create locks level megabytes target lg = start_target target (record lg {
  ready = locks;
  level = level;
  fp = none;
  wcurr = 0;
  wtotal = 0;
  rotatesize = rotate_bytes megabytes;
})
