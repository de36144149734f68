-- ===== src/DelimStream/Closing.antt =====
-- src/delim_stream.c: proofs about `delim_write_stream_close`.
use molerat.Base.{
  ℕ, zero, suc, ◌+◌, ◌-◌, ◌≤◌, ◌<◌, ◌≡◌, refl, ap, sym, ◌∙◌, subst, arith, ◌⊎◌, inl, inr, true,
  false, List, [], ◌∷◌, ◌++◌, length, take, drop, take-all, append-nil, append_assoc, ok, ltb,
  lt→ltb, dec_lt, zero-add,
}
use molerat.Stream.{
  StreamResult, progress, stream_ok, stream_waiting, stream_error, Sink, stream_write, Stalled,
  stalled_waiting, stalled_error, stream_write-WriteOutcome, answers-stream_write,
}
use molerat.DelimStream.{
  DelimState, start, chunk_intro_1, payload, final_chunk_intro_0, final_chunk_intro_1, end,
  state_number, state_of, DelimWriteStream, Written, chunk_size_to_net, chunk_size_end_bit,
  close_loop, close_in_start, delim_write_stream_close,
}
use molerat.DelimStream.Wire.{Chunks, frames, wire, wire-frames}

abbrev end_size : List ℕ
end_size = chunk_size_to_net chunk_size_end_bit

-- A writer that has sent `j` bytes of the last size, after the chunks `cs`.
pub record Finishing (s : DelimWriteStream) (sent : List ℕ) (cs : Chunks) (j : ℕ) : Type 0 where
  pub number : state_number s.state ≡ 3 + j
  pub lt : j < 2
  pub sent_is : sent ≡ frames cs ++ take j end_size

-- A writer that is between chunks, or being closed.
pub data Closing (s : DelimWriteStream) (sent : List ℕ) (cs : Chunks) : Type 0 where
  not_begun : s.state ≡ start → sent ≡ frames cs → Closing s sent cs
  finishing : (j : ℕ) → Finishing s sent cs j → Closing s sent cs

-- A close that sent all of the stream, or what it has to be called again for.
pub record Closes (sink : Sink) (sent : List ℕ) (cs : Chunks) (w : Written) : Type 0 where
  pub more : List ℕ
  pub wrote : w.0.1.written ≡ sink.written ++ more
  pub outcome :
      ((w.1 ≡ stream_ok) × (sent ++ more ≡ wire cs) × (w.0.0.state ≡ end) × (w.0.0.current ≡ false))
      ⊎ (Stalled w.1 × Closing w.0.0 (sent ++ more) cs)

take-take-drop : (j n : ℕ) (xs : List ℕ) → take j xs ++ take n (drop j xs) ≡ take (j + n) xs
take-take-drop zero n xs = rw zero-add refl
take-take-drop (suc j) zero [] = let h : suc j + zero ≡ suc j = omega arith in rw h refl
take-take-drop (suc j) (suc n) [] =
    let h : suc j + suc n ≡ suc (suc (j + n)) = omega arith in rw h refl
take-take-drop (suc j) n (x ∷ xs) =
    let h : suc j + n ≡ suc (j + n) = omega arith in rw h (ap (◌∷◌ x) (take-take-drop j n xs))

state_number-state_of : (m : ℕ) → m ≤ 5 → state_number (state_of m) ≡ m
state_number-state_of zero h = refl
state_number-state_of (suc zero) h = refl
state_number-state_of (suc (suc zero)) h = refl
state_number-state_of (suc (suc (suc zero))) h = refl
state_number-state_of (suc (suc (suc (suc zero)))) h = refl
state_number-state_of (suc (suc (suc (suc (suc zero))))) h = refl
state_number-state_of (suc (suc (suc (suc (suc (suc n)))))) h = absurd (omega arith)

Stalled-cases : {r : StreamResult} → Stalled r → (r ≡ stream_waiting) ⊎ (r ≡ stream_error)
Stalled-cases stalled_waiting = inl refl
Stalled-cases stalled_error = inr refl

-- A round of the loop.
module _ (fuel : ℕ) (s : DelimWriteStream) (sink : Sink) where
  close_write : Sink × StreamResult
  close_write = stream_write sink (drop (state_number s.state - 3) end_size)

  loop-Stalled :
      Stalled close_write.1 → close_loop (suc fuel) s sink ≡ ok ((s, close_write.0), close_write.1)
  unfolding close_loop close_write
  loop-Stalled stalled = elim (Stalled-cases stalled) [
    | inl e ↦ rw (close_loop, e) refl
    | inr e ↦ rw (close_loop, e) refl
  ]

  loop_goes_on :
      (n : ℕ)
      → close_write.1 ≡ progress n
      → state_number s.state + n < 5
      → close_loop (suc fuel) s sink
        ≡ close_loop fuel (record s { state = state_of (state_number s.state + n) }) close_write.0
  unfolding close_loop close_write
  loop_goes_on n e lt =
      let more : ltb (state_number s.state + n) 5 ≡ true = lt→ltb _ _ lt in
      rw (close_loop, e, more) refl

  loop_ends :
      (n : ℕ)
      → close_write.1 ≡ progress n
      → 5 ≤ state_number s.state + n
      → close_loop (suc fuel) s sink
        ≡ ok (
          (
            record s { state = state_of (state_number s.state + n); current = false },
            close_write.0,
          ),
          stream_ok,
        )
  unfolding close_loop close_write
  loop_ends n e le =
      let past : ltb (state_number s.state + n) 5 ≡ false = ground arith in
      rw (close_loop, e, past) refl

sent_more :
    (sent : List ℕ) (cs : Chunks) (j k : ℕ)
    → sent ≡ frames cs ++ take j end_size
    → sent ++ take k (drop j end_size) ≡ frames cs ++ take (j + k) end_size
sent_more sent cs j k e =
    ap (λ xs. xs ++ take k (drop j end_size)) e
    ∙ append_assoc (frames cs) (take j end_size) (take k (drop j end_size))
    ∙ ap (λ xs. frames cs ++ xs) (take-take-drop j k end_size)

sent_all : (cs : Chunks) (n : ℕ) → 2 ≤ n → frames cs ++ take n end_size ≡ wire cs
sent_all cs n h = ap (λ xs. frames cs ++ xs) (take-all end_size n h) ∙ sym (wire-frames cs)

end_of : (n : ℕ) → 5 ≤ n → state_of n ≡ end
end_of zero h = absurd (omega arith)
end_of (suc zero) h = absurd (omega arith)
end_of (suc (suc zero)) h = absurd (omega arith)
end_of (suc (suc (suc zero))) h = absurd (omega arith)
end_of (suc (suc (suc (suc zero)))) h = absurd (omega arith)
end_of (suc (suc (suc (suc (suc n))))) h = refl

-- A write below that went before.
Closes-after :
    {sink sink' : Sink} {sent : List ℕ} {cs : Chunks} {w : Written} (first : List ℕ)
    → sink'.written ≡ sink.written ++ first
    → Closes sink' (sent ++ first) cs w
    → Closes sink sent cs w
Closes-after {sink} {sink'} {sent} {cs} {w} first e h =
    let assoc = append_assoc sent first h.more in
    record {
      more = first ++ h.more;
      wrote = h.wrote ∙ (ap (λ xs. xs ++ h.more) e ∙ append_assoc sink.written first h.more);
      outcome = elim h.outcome [
        | inl (done, whole, at_end, free) ↦ inl (done, sym assoc ∙ whole, at_end, free)
        | inr (stalled, closing) ↦ inr (stalled, subst (λ xs. Closing w.0.0 xs cs) assoc closing)
      ];
    }

close_loop-Closes :
    (fuel : ℕ) (s : DelimWriteStream) (sink : Sink) (sent : List ℕ) (cs : Chunks) (j : ℕ)
    → Finishing s sent cs j
    → length sink.answers < fuel
    → (w : Written) × (close_loop fuel s sink ≡ ok w) × Closes sink sent cs w
unfolding close_write
close_loop-Closes zero s sink sent cs j h enough = absurd (omega arith)
close_loop-Closes (suc fuel) s sink sent cs j h enough =
    let pos : state_number s.state - 3 ≡ j = omega (arith, h.number) in
    let r = stream_write sink (drop (state_number s.state - 3) end_size) in
    elim (stream_write-WriteOutcome sink (drop (state_number s.state - 3) end_size)) [
      | inl (stalled, same) ↦ (
        ((s, r.0), r.1),
        loop-Stalled fuel s sink stalled,
        record {
          more = [];
          wrote = same ∙ sym (append-nil sink.written);
          outcome = inr (stalled, rw (append-nil sent) (finishing j h));
        },
      )
      | inr (k, e, within, after) ↦
          let sent_is = sent_more sent cs j k h.sent_is in
          let after' : r.0.written ≡ sink.written ++ take k (drop j end_size) =
            after ∙ ap (λ i. sink.written ++ take k (drop i end_size)) pos in
          elim (dec_lt (state_number s.state + k) 5) [
            | yes lt ↦
                let (w, e', c) =
                  close_loop-Closes fuel (record s { state = state_of (state_number s.state + k) })
                    r.0 (sent ++ take k (drop j end_size)) cs (j + k)
                    (record {
                      number =
                          state_number-state_of (state_number s.state + k) (omega arith)
                          ∙ omega (arith, h.number);
                      lt = omega (arith, h.number);
                      sent_is = sent_is;
                    })
                    (omega (
                      arith,
                      answers-stream_write sink (drop (state_number s.state - 3) end_size) k e,
                    )) in
                (
                  w,
                  loop_goes_on fuel s sink k e lt ∙ e',
                  Closes-after (take k (drop j end_size)) after' c,
                )
            | no ge ↦ (
              (
                (record s { state = state_of (state_number s.state + k); current = false }, r.0),
                stream_ok,
              ),
              loop_ends fuel s sink k e (omega arith),
              record {
                more = take k (drop j end_size);
                wrote = after';
                outcome = inl (
                  refl,
                  sent_is ∙ sent_all cs (j + k) (omega (arith, h.number)),
                  end_of _ (omega arith),
                  refl,
                );
              },
            )
          ]
    ]

-- The first write of a close is a round of the loop.
close_in_start-close_loop :
    (fuel : ℕ) (s : DelimWriteStream) (sink : Sink)
    → close_in_start fuel s sink
      ≡ close_loop (suc fuel) (record s { state = final_chunk_intro_0 }) sink
unfolding close_in_start close_loop
close_in_start-close_loop fuel s sink = elim (stream_write-WriteOutcome sink end_size) [
  | inl (stalled, same) ↦ elim (Stalled-cases stalled) [
    | inl e ↦ rw (close_in_start, close_loop, e) refl
    | inr e ↦ rw (close_in_start, close_loop, e) refl
  ]
  | inr (k, e, within, after) ↦ elim (dec_lt k 2) [
    | yes lt ↦
        let more₁ : ltb k 2 ≡ true = lt→ltb _ _ lt in
        let more₂ : ltb (3 + k) 5 ≡ true = lt→ltb _ _ (omega arith) in
        rw (close_in_start, close_loop, e, more₁, more₂) refl
    | no ge ↦
        let past₁ : ltb k 2 ≡ false = ground arith in
        let past₂ : ltb (3 + k) 5 ≡ false = ground arith in
        rw (close_in_start, close_loop, e, past₁, past₂) refl
  ]
]

final_state :
    (st : DelimState) (j : ℕ)
    → state_number st ≡ 3 + j
    → j < 2
    → (st ≡ final_chunk_intro_0) ⊎ (st ≡ final_chunk_intro_1)
final_state final_chunk_intro_0 j e lt = inl refl
final_state final_chunk_intro_1 j e lt = inr refl
final_state start j e lt = absurd (omega arith)
final_state chunk_intro_1 j e lt = absurd (omega arith)
final_state payload j e lt = absurd (omega arith)
final_state end j e lt = absurd (omega arith)

close_goes_on :
    (fuel : ℕ) (s : DelimWriteStream) (sink : Sink)
    → (s.state ≡ final_chunk_intro_0) ⊎ (s.state ≡ final_chunk_intro_1)
    → delim_write_stream_close fuel s sink ≡ close_loop fuel s sink
unfolding delim_write_stream_close
close_goes_on fuel s sink (inl st) =
    rw (delim_write_stream_close, st) (ap (λ x. close_loop fuel (record s { state = x }) sink) st)
close_goes_on fuel s sink (inr st) =
    rw (delim_write_stream_close, st) (ap (λ x. close_loop fuel (record s { state = x }) sink) st)

-- Closing a stream that is between chunks, or going on with it, comes back: each round of the loop
-- uses up an answer of the stream below. It reports success only when all of the stream is sent, and
-- else is to be called again in a state from which it goes on with what is still to be sent.
pub delim_write_close-Closes :
    (fuel : ℕ) (s : DelimWriteStream) (sink : Sink) (sent : List ℕ) (cs : Chunks)
    → Closing s sent cs
    → length sink.answers < fuel
    → (w : Written) × (delim_write_stream_close fuel s sink ≡ ok w) × Closes sink sent cs w
unfolding delim_write_stream_close
delim_write_close-Closes fuel s sink sent cs (not_begun st sent_is) enough =
    let (w, e, c) =
      close_loop-Closes (suc fuel) (record s { state = final_chunk_intro_0 }) sink sent cs 0
        (record {
          number = refl;
          lt = omega arith;
          sent_is = sent_is ∙ sym (append-nil (frames cs));
        })
        (omega arith) in
    (w, rw st (close_in_start-close_loop fuel s sink ∙ e), c)
delim_write_close-Closes fuel s sink sent cs (finishing j h) enough =
    let (w, e, c) = close_loop-Closes fuel s sink sent cs j h enough in
    (w, close_goes_on fuel s sink (final_state s.state j h.number h.lt) ∙ e, c)
