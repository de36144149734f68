-- ===== src/Buffer/Contents.antt =====
-- src/buffer.c: the bytes of a growing buffer, from `start` to `end`, as a list.
use molerat.Base.{
  ◌≢◌, dec_le, ℕ_discrete, zero-add, ℕ, ◌+◌, ◌-◌, ◌≤◌, ◌<◌, ◌≡◌, refl, ap, sym, ◌∙◌, arith, ◌⊎◌,
  inl, inr, false, List, ◌++◌, length, drop, le→leb, ok, aborted, slice, slice-cong, drop-slice,
  write_at, slice-write_at_end,
}
use molerat.Buffer.{
  GrowBuf, growbuf_append, growbuf_length, growbuf_reserve, growbuf_advance, growbuf_shift,
  moved_down,
}
use molerat.Buffer.Growth.{HasSize, growbuf_reserve-Grown}

abbrev pub contents : GrowBuf → List ℕ
contents g = slice g.memory 0 g.end

-- A buffer that may be written to, whose bytes lie within its memory.
pub record IsOpen (g : GrowBuf) : Type 0 where
  pub thawed : g.frozen ≡ false
  pub within : g.end ≤ g.limit

module _ (g : GrowBuf) (bytes : List ℕ) (o : IsOpen g) (h : HasSize g (length bytes)) where
  append_steps :
      (g' : GrowBuf)
      → growbuf_reserve g (length bytes) ≡ ok g'
      → g'.end + length bytes ≤ g'.limit
      → growbuf_append g bytes
        ≡ ok (record g' { memory = write_at g'.memory g'.end bytes; end = g'.end + length bytes })
  unfolding growbuf_append growbuf_advance
  append_steps g' e room = rw (e, growbuf_append, le→leb _ _ room)

  -- An append within the sizes that do not overflow succeeds, and puts the bytes behind the others.
  pub contents-append :
      (g' : GrowBuf) × (growbuf_append g bytes ≡ ok g')
      × (contents g' ≡ contents g ++ bytes)
      × IsOpen g'
  contents-append =
      let (r, e, grown) = growbuf_reserve-Grown g (length bytes) h o.thawed in
      let same_end = grown.end in
      let room = grown.room in
      (
        record r { memory = write_at r.memory r.end bytes; end = r.end + length bytes },
        append_steps r e (omega arith),
        slice-write_at_end r.memory r.end (r.end + length bytes) bytes refl
            ∙ ap (λ xs. xs ++ bytes)
                (ap (λ m. slice m 0 r.end) grown.memory ∙ ap (slice g.memory 0) grown.end),
        record { thawed = grown.frozen ∙ o.thawed; within = omega arith },
      )

module _ (g : GrowBuf) (pos : ℕ) (o : IsOpen g) where
  shift_nothing : pos ≡ 0 → growbuf_shift g pos ≡ ok g
  unfolding growbuf_shift
  shift_nothing e = let t = o.thawed in ground arith

  shift_moves :
      pos ≢ 0
      → pos ≤ g.end
      → growbuf_shift g pos
        ≡ ok (record g { memory = moved_down g.memory pos (g.end - pos); end = g.end - pos })
  unfolding growbuf_shift growbuf_length
  shift_moves ne fits = let t = o.thawed in ground arith

  contents_moved :
      pos ≤ g.end
      → slice (moved_down g.memory pos (g.end - pos)) 0 (g.end - pos) ≡ drop pos (contents g)
  contents_moved fits =
      slice-cong (moved_down g.memory pos (g.end - pos)) g.memory 0 pos (g.end - pos)
        (λ i lt. rw zero-add (ground arith))
      ∙ sym (
          drop-slice g.memory 0 pos (g.end - pos) g.end (omega arith)
          ∙ ap (λ i. slice g.memory i (g.end - pos)) (zero-add pos))

  -- A shift drops the first `pos` bytes, and aborts where there are fewer.
  pub contents-shift :
      ((pos ≤ g.end)
        × ((g' : GrowBuf) × (growbuf_shift g pos ≡ ok g')
            × (contents g' ≡ drop pos (contents g))
            × IsOpen g'))
      ⊎ ((g.end < pos) × (growbuf_shift g pos ≡ aborted))
  unfolding growbuf_shift growbuf_length
  contents-shift = elim (dec_le pos g.end) [
    | yes fits ↦ elim (ℕ_discrete pos 0) [
      | yes none_of_it ↦
          inl
            (fits, (g, shift_nothing none_of_it, sym (ap (λ n. drop n (contents g)) none_of_it), o))
      | no some_of_it ↦ inl (
        fits,
        (
          record g { memory = moved_down g.memory pos (g.end - pos); end = g.end - pos },
          shift_moves some_of_it fits,
          contents_moved fits,
          record { thawed = o.thawed; within = omega (arith, o.within) },
        ),
      )
    ]
    | no beyond ↦ inr (omega arith, (let t = o.thawed in ground arith))
  ]

  -- The bounds that a shift leaves.
  pub growbuf_shift-bounds :
      pos ≤ g.end
      → (g' : GrowBuf) × (growbuf_shift g pos ≡ ok g')
        × (g'.limit ≡ g.limit)
        × (g'.end ≡ g.end - pos)
        × (g'.frozen ≡ g.frozen)
  growbuf_shift-bounds fits = elim (ℕ_discrete pos 0) [
    | yes none_of_it ↦ (g, shift_nothing none_of_it, refl, omega arith, refl)
    | no some_of_it ↦ (
      record g { memory = moved_down g.memory pos (g.end - pos); end = g.end - pos },
      shift_moves some_of_it fits,
      refl,
      refl,
      refl,
    )
  ]
