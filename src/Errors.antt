-- ===== src/Errors.antt =====
-- src/base.c, include/molerat/base.h: errors, `struct error`, and the memory of their messages.
mod Tests
pub mod Owning
pub mod Lifetimes
use molerat.Base.{
  ℕ, ◌+◌, Bool, true, false, not, Option, none, some, List, [], ◌∷◌, ◌==◌, if◌then◌else◌, update,
  Result, ok, aborted, ◌>>=◌, ◌>>◌, assert,
}

-- A message: memory from `malloc`, the text `fallback_message`, or the null that `strdup` gives where it
-- fails.
pub data Message : Type 0 where
  allocated_message : ℕ → Message
  fallback_message null_message : Message

-- `struct error`
pub record Error : Type 0 where
  pub category : ℕ
  pub message : Message

-- The errors by their addresses, and which memory is allocated and what it holds.
pub record Heap : Type 0 where
  pub error : ℕ → Error
  pub allocated : ℕ → Bool
  pub text : ℕ → List ℕ

abbrev pub set_error : ℕ → Error → Heap → Heap
set_error e r h = record h { error = update h.error e r }

-- `malloc` or `strdup` with the given address, and what is written there.
abbrev pub allocate : ℕ → List ℕ → Heap → Heap
allocate a text h = record h { allocated = update h.allocated a true; text = update h.text a text }

-- `free`, of memory that is allocated, or of a null.
unfoldable pub free_message : Message → Heap → Result Heap
free_message fallback_message h = ok h
free_message null_message h = ok h
free_message (allocated_message a) h = do
  assert (h.allocated a)
  ok (record h { allocated = update h.allocated a false })

unfoldable pub error_init : (e : ℕ) → Heap → Heap
error_init e h = set_error e (record (h.error e) { category = 0 }) h

unfoldable pub error_ok : (e : ℕ) → Heap → Bool
error_ok e h = (h.error e).category == 0

-- A message that is not the fallback is freed where the category is not 0.
unfoldable pub error_fini : (e : ℕ) → Heap → Result Heap
unfolding free_message
error_fini e h = if (h.error e).category == 0 then ok h else free_message (h.error e).message h

-- The text that a message points to; a null cannot be read through.
unfoldable pub text_of : (fallback : List ℕ) → Message → Heap → Result (List ℕ)
text_of fallback fallback_message h = ok fallback
text_of fallback null_message h = aborted
text_of fallback (allocated_message a) h = do assert (h.allocated a); ok (h.text a)

-- What `strdup` gives of a text: an address, or a null.
abbrev pub copied : Option ℕ → (category : ℕ) (text : List ℕ) (dest : ℕ) → Heap → Heap
copied none category text dest h =
    set_error dest (record { category = category; message = null_message }) h
copied (some a) category text dest h =
    set_error dest (record { category = category; message = allocated_message a })
      (allocate a text h)

-- `error_copy` behind the call of `error_fini`, with whether `src` has no error.
abbrev pub copy_over :
    (ok_src : Bool) (fallback : List ℕ) → Option ℕ → (src dest : ℕ) → Heap → Result Heap
copy_over true fallback a src dest h =
    ok (set_error dest (record (h.error dest) { category = (h.error src).category }) h)
copy_over false fallback a src dest h = do
  text ← text_of fallback (h.error src).message h
  ok (copied a (h.error src).category text dest h)

-- `error_copy`, where `strdup` gives the address `a`, or fails.
unfoldable pub error_copy : (fallback : List ℕ) → Option ℕ → (src dest : ℕ) → Heap → Result Heap
unfolding error_fini text_of
error_copy fallback a src dest h = do
  h' ← error_fini dest h
  copy_over ((h'.error src).category == 0) fallback a src dest h'

unfoldable pub error_propogate : (src dest : ℕ) → Heap → Result Heap
unfolding error_fini
error_propogate src dest h = do h' ← error_fini dest h; ok (set_error dest (h'.error src) h')

unfoldable pub error_reset : (e : ℕ) → Heap → Result Heap
unfolding error_fini
error_reset e h = do h' ← error_fini e h; ok (set_error e (record (h'.error e) { category = 0 }) h')

-- `error_set_va`, where `vasprintf` fails, or gives an address and writes a text there.
unfoldable pub error_set_va : (e category : ℕ) → Option (ℕ × List ℕ) → Heap → Result Heap
unfolding error_fini
error_set_va e category none h = do
  h' ← error_fini e h
  ok (set_error e (record { category = category; message = fallback_message }) h')
error_set_va e category (some (a, text)) h = do
  h' ← error_fini e (allocate a text h)
  ok (set_error e (record { category = category; message = allocated_message a }) h')
