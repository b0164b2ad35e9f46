-- ===== src/Logger/Closing.antt =====
-- `Logger_Destory` of log.c: the lock is cleared, and the file in use is closed, but kept in `fp`.
use epoll_net.Base.{
  ℕ, ◌-◌, ◌<◌, ◌≤◌, ◌++◌, ◌∙◌, ◌⊎◌, inl, inr, arith, length, ◌≡◌, ap, true, false, Bool, ◌||◌,
  Option, none, some, List, [], ◌∷◌, ◌==◌, if◌then◌else◌, ==_refl,
}
use epoll_net.Memory.{Prog, done, crash, ◌>>◌}
use epoll_net.Logger.{Logger, Level, Environment, level_name, name_len, buf_len, log_plain}
use epoll_net.Logger.Lines.{is_hex}
use epoll_net.Logger.Rotation.{counted, GoesOn, Rotates, Loses, text_bytes, log_plain-Written}

-- The standard streams, as `Target.stream` numbers them.
abbrev pub stdin : ℕ
stdin = 0

abbrev pub stdout : ℕ
stdout = 1

-- One open file is closed.
abbrev pub closed : ℕ → List ℕ → List ℕ
closed f [] = []
closed f (g ∷ gs) = if f == g then gs else g ∷ closed f gs

-- `logclose`; `fclose` of NULL crashes.
unfoldable pub log_close : Option ℕ → Prog Logger (Unit {0})
log_close none lg = crash
log_close (some f) lg =
    if f == stdin || f == stdout
    then done tt lg
    else done tt (record lg { open_files = closed f lg.open_files })

-- `Logger_Destory`; without a lock its table is read through NULL. The lock's object becomes NULL, for
-- which its functions return -1; the log calls do not look at that.
unfoldable pub destroy : Prog Logger (Unit {0})
unfolding log_close
destroy lg = if lg.ready then log_close lg.fp lg else crash

closed_self : (f : ℕ) (fs : List ℕ) → closed f (f ∷ fs) ≡ fs
closed_self f fs = rw (==_refl f)

-- A rotation that succeeds leaves the new file.
Written-Rotates :
    (lg : Logger) (renamed : Bool) (opened : Option ℕ) (f g : ℕ) (bytes : List ℕ) (lg' : Logger)
    → 0 < lg.rotatesize
    → lg.rotatesize < counted lg (length bytes)
    → renamed ≡ true
    → opened ≡ some g
    → GoesOn lg renamed opened f bytes lg'
      ⊎ (Rotates lg renamed opened f bytes lg' ⊎ Loses lg renamed opened f bytes lg')
    → (lg'.fp ≡ some g) × (lg'.open_files ≡ g ∷ lg.open_files)
Written-Rotates lg renamed opened f g bytes lg' limit over moved got (inl (inl no_size, a, b, c)) =
    absurd (omega arith)
Written-Rotates lg renamed opened f g bytes lg' limit over moved got (inl (inr under, a, b, c)) =
    absurd (omega arith)
Written-Rotates lg renamed opened f g bytes lg' limit over moved got
      (inr (inl (limited, h, renames, (g', opens, a, b, c)))) =
    (cc, cc)
Written-Rotates lg renamed opened f g bytes lg' limit over moved got
      (inr (inr (limited, h, inl fails, a))) =
    absurd cc
Written-Rotates lg renamed opened f g bytes lg' limit over moved got
      (inr (inr (limited, h, inr fails, a))) =
    absurd cc

destroy_file :
    (lg : Logger) (g : ℕ)
    → lg.ready ≡ true
    → lg.fp ≡ some g
    → (g == stdin || g == stdout) ≡ false
    → destroy lg ≡ done tt (record lg { open_files = closed g lg.open_files })
unfolding destroy
destroy_file lg g ready now apart =
    ap (λ b. if b then log_close lg.fp lg else crash) ready
    ∙ (ap (λ o. log_close o lg) now ∙ rw apart)

-- A log call that rotates the file, and `Logger_Destory` behind it: the new file is closed, the file from
-- before the rotation stays open, and the logger still holds the file that was closed. The new file is
-- not a standard stream, the level is not `LEVEL_HEX`, and the line fits as for any log call.
pub destroy-log_plain :
    (lg : Logger) (env : Environment) (f g : ℕ) (ready : lg.ready ≡ true) (in_use : lg.fp ≡ some f)
    (level : Level) (text : List ℕ)
    → is_hex level ≡ false
    → name_len ≤ length (level_name level ++ env.behind)
    → length env.stamp ≤ buf_len - 10 - name_len
    → 0 < lg.rotatesize
    → lg.rotatesize < counted lg (length (text_bytes lg env f ready in_use level text))
    → env.renamed ≡ true
    → env.opened ≡ some g
    → (g == stdin || g == stdout) ≡ false
    → (lg' : Logger) × ((log_plain env level (some text) >> destroy) lg ≡ done tt lg')
      × (lg'.open_files ≡ lg.open_files)
      × (lg'.fp ≡ some g)
destroy-log_plain lg env f g ready in_use level text plain name short limit over moved got apart =
    let (lg', called, (kept, ready', next), bound) =
      log_plain-Written lg env f ready in_use level text plain name short in
    let (now, files) =
      Written-Rotates lg env.renamed env.opened f g (text_bytes lg env f ready in_use level text)
        lg' limit over moved got next in
    (
      record lg' { open_files = closed g lg'.open_files },
      rw called (destroy_file lg' g (ready' ∙ ready) now apart),
      ap (λ fs. closed g fs) files ∙ closed_self g lg.open_files,
      now,
    )
