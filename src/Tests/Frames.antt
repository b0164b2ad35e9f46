-- ===== src/Tests/Frames.antt =====
-- `Decode` at a frame with both escapes and two lone escape bytes.
use epoll_net.Base.{ℕ, ◌≡◌, refl, List, [], ◌∷◌, ◌++◌}
use epoll_net.Frame.{decoded, at, loop, decode}
use epoll_net.Frame.Unescape.{unescape}
use epoll_net.Frame.Roundtrip.{decode-unescape, decode-escape_all, escape_all}

unescape_runs :
    unescape (1 ∷ 0x7d ∷ 2 ∷ 0x7d ∷ 1 ∷ 0x7d ∷ 3 ∷ 0x7d ∷ [])
    ≡ 1 ∷ 0x7e ∷ 0x7d ∷ 0x7d ∷ 3 ∷ 0x7d ∷ []
unfolding unescape
unescape_runs = refl

decode_runs :
    decode (0x7e ∷ 1 ∷ 0x7d ∷ 2 ∷ 0x7d ∷ 1 ∷ 0x7d ∷ 3 ∷ 0x7d ∷ 0x7e ∷ [])
    ≡ decoded (0x7e ∷ 1 ∷ 0x7e ∷ 0x7d ∷ 0x7d ∷ 3 ∷ 0x7d ∷ 0x7e ∷ [])
unfolding decode loop at
decode_runs = refl

abbrev body : List ℕ
body = 1 ∷ 0x7d ∷ 2 ∷ 0x7d ∷ 1 ∷ 0x7d ∷ 3 ∷ 0x7d ∷ []

abbrev message : List ℕ
message = 0x7e ∷ 5 ∷ 0x7d ∷ 2 ∷ []

decode-unescape_example :
    decode (0x7e ∷ (body ++ 0x7e ∷ [])) ≡ decoded (0x7e ∷ (unescape body ++ 0x7e ∷ []))
decode-unescape_example = decode-unescape 0x7e 0x7e body

decode-escape_all_example :
    decode (0x7e ∷ (escape_all message ++ 0x7e ∷ [])) ≡ decoded (0x7e ∷ (message ++ 0x7e ∷ []))
decode-escape_all_example = decode-escape_all message
