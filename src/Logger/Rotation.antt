-- ===== src/Logger/Rotation.antt =====
-- The calls of log.c that write a line to a logger with a file: what they write, when they rotate the
-- file, and what a rotation leaves.
use epoll_net.Base.{
  ℕ, ◌+◌, ◌-◌, ◌%◌, ◌^◌, ◌≤◌, ◌<◌, true, false, Bool, Option, none, some, List, [], ◌∷◌, ◌++◌, ◌≡◌,
  ◌∙◌, refl, arith, length, take, lt→ltb, le→ltb, ◌⊎◌, inl, inr,
}
use epoll_net.Memory.{done, crash, ◌>>◌}
use epoll_net.Logger.{
  Level, level_hex, level_name, hex_line, name_len, buf_len, overflow, line, Logger, Environment,
  rotate, after_write, write_line, locked, log_plain, log_hex, dump_text,
}
use epoll_net.Logger.Lines.{less_or_not, text_line, is_hex, logv_line-line, length-text_line}
use epoll_net.Logger.Dumps.{
  dumped, dumped_len, hex_line-line, hex_line-overflow, hex_line-over_read,
}

-- The counter behind a line of `n` bytes.
abbrev pub counted : Logger → ℕ → ℕ
counted lg n = (lg.wcurr + n) % 2 ^ 64

module _ (lg : Logger) (renamed : Bool) (opened : Option ℕ) (f : ℕ) (bytes : List ℕ)
    (lg' : Logger) where
  -- The file of before is still in use.
  abbrev pub GoesOn : Type 0
  GoesOn =
      ((lg.rotatesize ≡ 0) ⊎ (counted lg (length bytes) ≤ lg.rotatesize))
      × (lg'.fp ≡ some f)
      × (lg'.open_files ≡ lg.open_files)
      × (lg'.wcurr ≡ counted lg (length bytes))

  -- A new file is in use, and the one of before stays open.
  abbrev pub Rotates : Type 0
  Rotates =
      (0 < lg.rotatesize)
      × (lg.rotatesize < counted lg (length bytes))
      × (renamed ≡ true)
      × ((g : ℕ) × (opened ≡ some g)
          × (lg'.fp ≡ some g)
          × (lg'.open_files ≡ g ∷ lg.open_files)
          × (lg'.wcurr ≡ 0))

  -- No file is in use.
  abbrev pub Loses : Type 0
  Loses =
      (0 < lg.rotatesize)
      × (lg.rotatesize < counted lg (length bytes))
      × ((renamed ≡ false) ⊎ (opened ≡ none))
      × (lg'.fp ≡ none)

  abbrev pub Written : Type 0
  Written =
      (lg'.written ≡ lg.written ++ (f, bytes) ∷ [])
      × (lg'.ready ≡ lg.ready)
      × (GoesOn ⊎ (Rotates ⊎ Loses))

module _ (lg : Logger) (f : ℕ) (bytes : List ℕ) (level : Level) where
  -- The logger with the line in its file, before it is counted, and after.
  abbrev pub put_down : Logger
  put_down = record lg { level = level; written = lg.written ++ (f, bytes) ∷ [] }

  abbrev pub tallied : Logger
  tallied = record put_down {
    wcurr = counted lg (length bytes);
    wtotal = (lg.wtotal + length bytes) % 2 ^ 64;
  }

  rotate-Written :
      (renamed : Bool) (opened : Option ℕ)
      → 0 < lg.rotatesize
      → lg.rotatesize < counted lg (length bytes)
      → Written lg renamed opened f bytes (rotate renamed opened tallied)
  unfolding rotate
  rotate-Written false opened limit over = (refl, refl, inr (inr (limit, over, inl refl, refl)))
  rotate-Written true none limit over = (refl, refl, inr (inr (limit, over, inr refl, refl)))
  rotate-Written true (some g) limit over =
      (refl, refl, inr (inl (limit, over, refl, (g, refl, refl, refl, refl))))

  module _ (renamed : Bool) (opened : Option ℕ) where
    tallied-Written :
        (lg.rotatesize ≡ 0) ⊎ (counted lg (length bytes) ≤ lg.rotatesize)
        → lg.fp ≡ some f
        → Written lg renamed opened f bytes tallied
    tallied-Written under in_use = (refl, refl, inl (under, in_use, refl, refl))

    after_write-Written :
        lg.fp ≡ some f
        → Written lg renamed opened f bytes (after_write renamed opened (length bytes) put_down)
    unfolding after_write
    after_write-Written in_use = elim (less_or_not 0 lg.rotatesize) [
      | inl some_size ↦ elim (less_or_not lg.rotatesize (counted lg (length bytes))) [
        | inl over ↦
            rw
              (
                lt→ltb 0 lg.rotatesize some_size,
                lt→ltb lg.rotatesize (counted lg (length bytes)) over,
              )
              (rotate-Written renamed opened some_size over)
        | inr under ↦
            rw
              (
                lt→ltb 0 lg.rotatesize some_size,
                le→ltb lg.rotatesize (counted lg (length bytes)) under,
              )
              (tallied-Written (inr under) in_use)
      ]
      | inr no_size ↦
          rw (le→ltb 0 lg.rotatesize no_size) (tallied-Written (inl (omega arith)) in_use)
    ]

-- A logger without a file crashes on a line.
log_plain-none :
    (lg : Logger) (env : Environment) (level : Level) (text : List ℕ)
    → lg.ready ≡ true
    → lg.fp ≡ none
    → is_hex level ≡ false
    → name_len ≤ length (level_name level ++ env.behind)
    → length env.stamp ≤ buf_len - 10 - name_len
    → log_plain env level (some text) lg ≡ crash
unfolding log_plain locked write_line
log_plain-none lg env level text ready no_file plain name short =
    rw (logv_line-line env.behind level env.stamp text name short plain, ready, no_file)

-- A rotation that fails leaves no file.
Written-Loses :
    (lg : Logger) (renamed : Bool) (opened : Option ℕ) (f : ℕ) (bytes : List ℕ) (lg' : Logger)
    → 0 < lg.rotatesize
    → lg.rotatesize < counted lg (length bytes)
    → (renamed ≡ false) ⊎ (opened ≡ none)
    → GoesOn lg renamed opened f bytes lg'
      ⊎ (Rotates lg renamed opened f bytes lg' ⊎ Loses lg renamed opened f bytes lg')
    → lg'.fp ≡ none
Written-Loses lg renamed opened f bytes lg' limit over failed (inl (inl no_size, a, b, c)) =
    absurd (omega arith)
Written-Loses lg renamed opened f bytes lg' limit over failed (inl (inr under, a, b, c)) =
    absurd (omega arith)
Written-Loses lg renamed opened f bytes lg' limit over (inl fails)
      (inr (inl (limited, h, renames, (g, opens', a, b, c)))) =
    absurd cc
Written-Loses lg renamed opened f bytes lg' limit over (inr fails)
      (inr (inl (limited, h, renames, (g, opens', a, b, c)))) =
    absurd cc
Written-Loses lg renamed opened f bytes lg' limit over failed
      (inr (inr (limited, h, why, no_file))) =
    no_file

module _ (lg : Logger) (env : Environment) (f : ℕ) (ready : lg.ready ≡ true)
    (in_use : lg.fp ≡ some f) where
  write_line-line :
      (bytes : List ℕ) (level : Level)
      → locked
          (λ lg. write_line env.renamed env.opened (line bytes) (record lg { level = level }))
          lg
        ≡ done 0 (after_write env.renamed env.opened (length bytes) (put_down lg f bytes level))
  unfolding locked write_line
  write_line-line bytes level = rw (ready, in_use)

  module _ (level : Level) (text : List ℕ) where
    -- The bytes of the line of a text.
    abbrev pub text_bytes : List ℕ
    text_bytes = text_line env.behind level env.stamp text

    -- A call of `logerror`, `logdebug`, `logwarn` or `loginfo` with another level than `LEVEL_HEX`, a time
    -- of at most 4078 bytes and 8 bytes that may be read for the name of the level returns 0. It writes
    -- one line of at most 4087 bytes to the file in use and counts it. The file stays in use while there
    -- is no limit or the counter is not above it. Otherwise, with a limit above 0 that the counter is
    -- above, the next file that opened is in use, the counter is 0, and the old file is still open; or,
    -- when `rename` or `fopen` failed, no file is in use.
    pub log_plain-Written :
        is_hex level ≡ false
        → name_len ≤ length (level_name level ++ env.behind)
        → length env.stamp ≤ buf_len - 10 - name_len
        → (lg' : Logger) × (log_plain env level (some text) lg ≡ done 0 lg')
          × Written lg env.renamed env.opened f text_bytes lg'
          × (length text_bytes ≤ buf_len - 9)
    unfolding log_plain
    log_plain-Written plain name short = (
      after_write env.renamed env.opened (length text_bytes) (put_down lg f text_bytes level),
      rw (
        logv_line-line env.behind level env.stamp text name short plain,
        write_line-line text_bytes level,
      ),
      after_write-Written lg f text_bytes level env.renamed env.opened in_use,
      length-text_line env.behind level env.stamp text name short,
    )

    -- A call of `logerror`, `logdebug`, `logwarn` or `loginfo` whose line takes the counter above a limit
    -- that is not 0, and whose rotation fails, leaves no file: the next such call crashes. Neither call
    -- has the level `LEVEL_HEX`, and the time and the name of the level fit in both.
    pub log_plain-rotate :
        is_hex level ≡ false
        → name_len ≤ length (level_name level ++ env.behind)
        → length env.stamp ≤ buf_len - 10 - name_len
        → 0 < lg.rotatesize
        → lg.rotatesize < counted lg (length text_bytes)
        → (env.renamed ≡ false) ⊎ (env.opened ≡ none)
        → (env' : Environment) (level' : Level) (text' : List ℕ) → is_hex level' ≡ false
        → name_len ≤ length (level_name level' ++ env'.behind)
        → length env'.stamp ≤ buf_len - 10 - name_len
        → (log_plain env level (some text) >> log_plain env' level' (some text')) lg ≡ crash
    unfolding log_plain
    log_plain-rotate plain name short limit over failed env' level' text' plain' name' short' =
        let (lg', called, (kept, ready', next), bound) = log_plain-Written plain name short in
        let lost =
          Written-Loses lg env.renamed env.opened f text_bytes lg' limit over failed next in
        rw (called, log_plain-none lg' env' level' text' (ready' ∙ ready) lost plain' name' short')

  module _ (text bytes : List ℕ) where
    -- The bytes of the line of a dump.
    abbrev pub dump_bytes : List ℕ
    dump_bytes = take (buf_len - 10) (dumped env.behind env.stamp text bytes) ++ 10 ∷ []

    -- A call of `loghex`, whose name "[HEX] " is 7 bytes with its 0, with a byte that may be read behind
    -- the name. When the time, the text in front, the name, and two digits for each of at most 2048 bytes
    -- are not more than 4096 bytes, it returns 0 and writes one line, cut to 4087 bytes. When they are
    -- more, it writes outside the buffer.
    pub log_hex-Written :
        0 < length env.behind
        → (dumped_len env.behind env.stamp text bytes ≤ buf_len)
            × ((lg' : Logger) × (log_hex env text bytes lg ≡ done 0 lg')
                × Written lg env.renamed env.opened f dump_bytes lg')
          ⊎ (buf_len < dumped_len env.behind env.stamp text bytes)
            × (hex_line env.behind env.stamp text bytes ≡ overflow)
            × (log_hex env text bytes lg ≡ crash)
    unfolding log_hex locked write_line
    log_hex-Written there =
        elim (less_or_not buf_len (dumped_len env.behind env.stamp text bytes)) [
          | inl long ↦
              let out = hex_line-overflow env.behind env.stamp text bytes there long in
              inr (long, out, rw (ready, out))
          | inr fits ↦ inl (
            fits,
            (
              after_write env.renamed env.opened (length dump_bytes)
                  (put_down lg f dump_bytes level_hex),
              rw (
                hex_line-line env.behind env.stamp text bytes there fits,
                write_line-line dump_bytes level_hex,
              ),
              after_write-Written lg f dump_bytes level_hex env.renamed env.opened in_use,
            ),
          )
        ]

    -- Without such a byte, and with a time and a text that fit, `loghex` reads behind the name.
    pub log_hex-over_read :
        env.behind ≡ []
        → length env.stamp + length (dump_text text) ≤ buf_len
        → log_hex env text bytes lg ≡ crash
    unfolding log_hex locked write_line
    log_hex-over_read none_behind fits =
        let out = hex_line-over_read [] env.stamp text bytes fits in rw (ready, none_behind, out)
