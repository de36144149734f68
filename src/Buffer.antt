-- ===== src/Buffer.antt =====
-- src/buffer.c, include/molerat/buffer.h: byte ranges and growing buffers. Offsets count from
-- `start`; sizes are of type `size_t`, which wraps at 2 ^ 64.
pub mod Growth
pub mod Contents
pub mod Printing
pub mod Compare
mod Tests
use molerat.Base.{
  ℕ, zero, suc, ◌+◌, ◌-◌, ◌*◌, ◌%◌, ◌^◌, Bool, true, false, not, List, [], ◌∷◌, ◌++◌, ltb, leb,
  ◌==◌, if◌then◌else◌, length, take, drop, slice, write_at, Result, ok, aborted, out_of_fuel, ◌>>=◌,
  ◌>>◌, assert,
}

-- `struct growbuf`: the memory from `start` on, with the offsets of `limit` and `end`.
pub record GrowBuf : Type 0 where
  pub memory : ℕ → ℕ
  pub limit : ℕ
  pub end : ℕ
  pub frozen : Bool

-- `growbuf_init`; what `xalloc` returns holds anything.
unfoldable pub growbuf_init : (junk : ℕ → ℕ) → ℕ → GrowBuf
growbuf_init junk capacity = record { memory = junk; limit = capacity; end = 0; frozen = false }

unfoldable pub growbuf_reset : GrowBuf → GrowBuf
growbuf_reset g = record g { end = 0; frozen = false }

unfoldable pub growbuf_length : GrowBuf → ℕ
growbuf_length g = g.end

unfoldable pub growbuf_space : GrowBuf → Result ℕ
growbuf_space g = do assert (not g.frozen); ok (g.limit - g.end)

-- The `memmove` of the bytes from `pos` on to the start.
abbrev pub moved_down : (ℕ → ℕ) → ℕ → ℕ → ℕ → ℕ
moved_down f pos n i = if ltb i n then f (pos + i) else f i

unfoldable pub growbuf_shift : GrowBuf → ℕ → Result GrowBuf
unfolding growbuf_length
growbuf_shift g pos = do
  assert (not g.frozen)
  if pos == 0
      then ok g
      else (assert (leb pos (growbuf_length g))
          >> ok (record g {
            memory = moved_down g.memory pos (growbuf_length g - pos);
            end = g.end - pos;
          }))

-- The loop of `growbuf_grow`, with its difference of type `size_t`.
unfoldable pub grow_capacity : (fuel capacity used need : ℕ) → Result ℕ
grow_capacity zero capacity used need = out_of_fuel
grow_capacity (suc fuel) capacity used need =
    let doubled = capacity * 2 % 2 ^ 64 in
    let rest = grow_capacity fuel doubled used need in
    if ltb ((doubled + 2 ^ 64 - used) % 2 ^ 64) need then rest else ok doubled

-- `growbuf_grow`; a capacity that is not zero is doubled 64 times at most.
unfoldable pub growbuf_grow : GrowBuf → ℕ → Result GrowBuf
unfolding grow_capacity
growbuf_grow g need = do
  capacity ← grow_capacity 64 g.limit g.end need
  ok (record g { limit = capacity })

unfoldable pub growbuf_reserve : GrowBuf → ℕ → Result GrowBuf
unfolding growbuf_grow
growbuf_reserve g need = do
  assert (not g.frozen)
  if leb need (g.limit - g.end) then ok g else growbuf_grow g need

unfoldable pub growbuf_advance : GrowBuf → ℕ → Result GrowBuf
growbuf_advance g len = do assert (leb (g.end + len) g.limit); ok (record g { end = g.end + len })

unfoldable pub growbuf_append : GrowBuf → List ℕ → Result GrowBuf
unfolding growbuf_reserve growbuf_advance
growbuf_append g bytes = do
  g' ← growbuf_reserve g (length bytes)
  growbuf_advance (record g' { memory = write_at g'.memory g'.end bytes }) (length bytes)

unfoldable pub growbuf_append_growbuf : GrowBuf → GrowBuf → Result GrowBuf
unfolding growbuf_append growbuf_length
growbuf_append_growbuf dest src = growbuf_append dest (slice src.memory 0 (growbuf_length src))

unfoldable pub double_capacity : GrowBuf → GrowBuf
double_capacity g = record g { limit = g.limit * 2 % 2 ^ 64 }

-- C's `vsnprintf` of a format that comes to `text`, into `space` bytes at `p`: as much as leaves
-- one byte for the null that ends it, and nothing at all into no space.
abbrev pub vsnprintf : (ℕ → ℕ) → ℕ → ℕ → List ℕ → ℕ → ℕ
vsnprintf f p zero text = f
vsnprintf f p (suc room) text = write_at f p (take room text ++ 0 ∷ [])

-- The loop of `growbuf_vprintf`; `text` is what the format and its arguments come to. The result of
-- `vsnprintf` is an int, and negative where there are more bytes than fit: the code then dies.
unfoldable pub vprintf_loop : (fuel : ℕ) → GrowBuf → List ℕ → Result GrowBuf
unfolding double_capacity
vprintf_loop zero g text = out_of_fuel
vprintf_loop (suc fuel) g text =
    let space = g.limit - g.end in
    let g' = record g { memory = vsnprintf g.memory g.end space text } in
    let rest = vprintf_loop fuel (double_capacity g') text in
    if ltb (length text) (2 ^ 31)
    then (if leb (length text) space then ok (record g' { end = g.end + length text }) else rest)
    else aborted

unfoldable pub growbuf_vprintf : GrowBuf → List ℕ → Result GrowBuf
growbuf_vprintf g text = do assert (not g.frozen); vprintf_loop 65 g text

-- `growbuf_to_bytes`: the buffer may not be grown while the bytes are in use.
unfoldable pub growbuf_to_bytes : GrowBuf → GrowBuf × List ℕ
growbuf_to_bytes g = (record g { frozen = true }, slice g.memory 0 g.end)

-- `struct bytes` is the list of bytes from `pos` to `end`.
unfoldable pub bytes_length : List ℕ → ℕ
bytes_length b = length b

unfoldable pub bytes_advance : List ℕ → ℕ → Result (List ℕ)
unfolding bytes_length
bytes_advance b step = do assert (leb step (bytes_length b)); ok (drop step b)

-- The sign of an `int` result.
pub data Sign : Type 0 where
  less equal greater : Sign

-- C's `memcmp`, which compares `unsigned char`.
abbrev pub memcmp : ℕ → List ℕ → List ℕ → Sign
memcmp zero a b = equal
memcmp (suc n) [] b = equal
memcmp (suc n) (x ∷ a) [] = equal
memcmp (suc n) (x ∷ a) (y ∷ b) =
    let rest = memcmp n a b in if ltb x y then less else if ltb y x then greater else rest

unfoldable pub bytes_compare : List ℕ → List ℕ → Sign
unfolding bytes_length
bytes_compare a b =
    let a_len = bytes_length a in
    let b_len = bytes_length b in
    elim (memcmp (if ltb a_len b_len then a_len else b_len) a b) [
      | equal ↦ if ltb b_len a_len then greater else if ltb a_len b_len then less else equal
      | less ↦ less
      | greater ↦ greater
    ]
