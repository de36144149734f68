-- ===== src/Echo/Tests.antt =====
-- src/echo_server.c: concrete runs.
use molerat.Base.{◌≡◌, some, refl, arith, [], ◌∷◌, ok}
use molerat.Stream.{stream_ok, moves, Source, Sink}
use molerat.Echo.{Echoer, Ending, echoer_create, echoer_echo}
use molerat.Echo.Echoing.{Echoes, echoer_echo-Echoes}

-- Three bytes come in two pieces, and go out in three.
abbrev source : Source
source = record { bytes = 1 ∷ 2 ∷ 3 ∷ []; answers = moves 2 ∷ moves 5 ∷ moves 1 ∷ [] }

abbrev sink : Sink
sink = record { written = []; answers = moves 1 ∷ moves 9 ∷ moves 4 ∷ [] }

echoer_echo-Echoes_example :
    (r : Echoer × Ending) × (echoer_echo 4 stream_ok (echoer_create source sink) ≡ ok r)
    × Echoes (echoer_create source sink) (r.0, some r.1)
unfolding echoer_create
echoer_echo-Echoes_example =
    echoer_echo-Echoes 4 stream_ok (echoer_create source sink) refl (omega arith) (omega arith)
