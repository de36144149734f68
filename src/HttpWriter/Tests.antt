-- ===== src/HttpWriter/Tests.antt =====
-- src/http_writer.c: concrete runs.
use molerat.Base.{false, ◌≡◌, ◌≤◌, ◌<◌, refl, arith, [], ◌∷◌, ◌++◌, take, write_at, ok}
use molerat.Stream.{StreamResult, moved, moves, Sink}
use molerat.HttpWriter.{headers, HttpWriter, http_writer_write}
use molerat.HttpWriter.Finishing.{IsReady, pending, http_writer_write-Sends}

abbrev writer : HttpWriter
writer = record {
  state = headers;
  prebody = record {
    memory = write_at (λ i. 0) 0 (71 ∷ 69 ∷ 84 ∷ []);
    limit = 1000;
    end = 3;
    frozen = false;
  };
  prebody_out = [];
}

abbrev sink : Sink
sink = record { written = 1 ∷ []; answers = moves 2 ∷ moves 9 ∷ moves 1 ∷ [] }

writer-IsReady : IsReady writer
writer-IsReady = record {
  begun = λ e. cc;
  open' = λ e. record { thawed = refl; within = omega arith };
  size = λ e. record {
    some_limit = omega arith;
    within = omega arith;
    limit_lt = omega arith;
    fits = omega arith;
  };
}

http_writer_write-Sends_example :
    (r : (HttpWriter × Sink) × StreamResult) × (http_writer_write 4 writer sink (7 ∷ 8 ∷ []) ≡ ok r)
    × (r.0.1.written ++ pending r.0.0
        ≡ (sink.written ++ pending writer) ++ take (moved r.1) (7 ∷ 8 ∷ []))
    × (moved r.1 ≤ 2)
    × (0 < moved r.1 → pending r.0.0 ≡ [])
    × IsReady r.0.0
http_writer_write-Sends_example =
    http_writer_write-Sends 4 writer sink (7 ∷ 8 ∷ []) writer-IsReady (omega arith)
