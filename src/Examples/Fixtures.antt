-- ===== src/Examples/Fixtures.antt =====
-- The fixture server on toy sockets, and the theorem about its loop.
use webproof_solana.Prelude.{◌<◌, ◌≡◌, ◌↔◌, refl, some, none, [], ◌∷◌, codes, ok}
use webproof_solana.Tlsn.Fixture.{start, serve}
use webproof_solana.Tlsn.Fixture.Serving.{Answers, serve_iff}
use webproof_solana.Examples.Settings.{toy_tcp}

started : start toy_tcp ≡ ok 4000
unfolding start
started = refl

served : serve toy_tcp 4 (codes "127.0.0.1", 0) 0 ≡ some (100 ∷ 101 ∷ 102 ∷ [])
unfolding serve
served = refl

running : serve toy_tcp 3 (codes "127.0.0.1", 0) 0 ≡ none
unfolding serve
running = refl

serve_iff_example :
    (serve toy_tcp 4 (codes "127.0.0.1", 0) 0 ≡ some (100 ∷ 101 ∷ 102 ∷ []))
    ↔ ((3 < 4) × Answers toy_tcp (codes "127.0.0.1", 0) 0 (100 ∷ 101 ∷ 102 ∷ []))
serve_iff_example = serve_iff toy_tcp (codes "127.0.0.1", 0) 4 (100 ∷ 101 ∷ 102 ∷ [])
