-- ===== src/Errors/Lifetimes.antt =====
-- src/base.c: proofs about the messages of errors in use.
use molerat.Base.{
  ℕ, ◌≡◌, ◌≢◌, refl, sym, ◌∙◌, arith, inl, inr, Bool, true, false, Bool-cases, Option, none, some,
  List, ◌==◌, if◌then◌else◌, Result, ok,
}
use molerat.Errors.{
  Heap, set_error, allocate, error_init, error_fini, text_of, copy_over, copied, error_copy,
  Message, allocated_message, fallback_message, null_message, error_propogate, error_reset,
  error_set_va,
}
use molerat.Errors.Owning.{
  Owned, but, also, fini-Owned, clear-Owned, adopt-Owned, unowned-Owned, Owned-cong, fini-allocate,
}

-- A call of a function on errors, with the address of the new memory where it allocates some.
pub data Call : Type 0 where
  inits : (e : ℕ) → Call
  finishes : (e : ℕ) → Call
  resets : (e : ℕ) → Call
  sets : (e category : ℕ) → Option (ℕ × List ℕ) → Call
  copies : Option ℕ → (src dest : ℕ) → Call
  passes : (src dest : ℕ) → Call

abbrev pub run : (fallback : List ℕ) → Call → Heap → Result Heap
run fallback (inits e) h = ok (error_init e h)
run fallback (finishes e) h = error_fini e h
run fallback (resets e) h = error_reset e h
run fallback (sets e category m) h = error_set_va e category m h
run fallback (copies a src dest) h = error_copy fallback a src dest h
run fallback (passes src dest) h = error_propogate src dest h

-- The callers use errors between error_init and error_fini, set them to other categories than 0, and do not
-- use an error further that was propagated. They copy no error whose message is the null of a copy that
-- found no memory.
abbrev pub Proper : Call → (ℕ → Bool) → Heap → Type 0
Proper (inits e) live h = live e ≡ false
Proper (finishes e) live h = live e ≡ true
Proper (resets e) live h = live e ≡ true
Proper (sets e category none) live h = live e ≡ true
Proper (sets e category (some (a, text))) live h =
    (live e ≡ true) × (category == 0 ≡ false) × (h.allocated a ≡ false)
Proper (copies a src dest) live h =
    (live src ≡ true)
    × (live dest ≡ true)
    × (src == dest ≡ false)
    × ((h.error src).category == 0 ≡ false → (h.error src).message ≢ null_message)
    × ((x : ℕ) → a ≡ some x → h.allocated x ≡ false)
Proper (passes src dest) live h = (live src ≡ true) × (live dest ≡ true) × (src == dest ≡ false)

-- The errors in use afterwards.
abbrev pub after : Call → (ℕ → Bool) → ℕ → Bool
after (inits e) live = also e live
after (finishes e) live = but e live
after (resets e) live = live
after (sets e category m) live = live
after (copies a src dest) live = live
after (passes src dest) live = but src live

abbrev pub IsOwned : (ℕ → Bool) → Heap → Type 0
IsOwned live h = (owner : ℕ → ℕ) × Owned live owner h

back_again : (e : ℕ) (live : ℕ → Bool) → live e ≡ true → (v : ℕ) → also e (but e live) v ≡ live v
back_again e live on v = ground arith

-- An error passes on what it has, and is not used further.
pass-Owned :
    (src dest : ℕ) (live : ℕ → Bool) (owner : ℕ → ℕ) (h : Heap)
    → Owned live owner h
    → live src ≡ true
    → live dest ≡ false
    → Owned
        (but src (also dest live))
        (λ a. if owner a == src then dest else owner a)
        (set_error dest (h.error src) h)
pass-Owned src dest live owner h o on off = record {
  held = λ v a l s m. let b = o.held v a in let c = o.held src a in ground arith;
  owned = λ v a l s m. let b = o.owned v a in let c = o.owned src a in ground arith;
  owner_live = λ a q. let b = o.owner_live a q in ground arith;
  owner_set = λ a q. let b = o.owner_live a q in let c = o.owner_set a q in ground arith;
  owner_message = λ a q. let b = o.owner_live a q in let c = o.owner_message a q in ground arith;
}

-- What `strdup` gave, in the error.
copied-Owned :
    (a : Option ℕ) (category dest : ℕ) (text : List ℕ) (live : ℕ → Bool) (owner : ℕ → ℕ) (h : Heap)
    → Owned live owner h
    → live dest ≡ false
    → category == 0 ≡ false
    → ((x : ℕ) → a ≡ some x → h.allocated x ≡ false)
    → IsOwned (also dest live) (copied a category text dest h)
copied-Owned none category dest text live owner h o off set fresh =
    (owner, unowned-Owned dest category null_message (λ a e. cc) live owner h o off)
copied-Owned (some x) category dest text live owner h o off set fresh =
    (_, adopt-Owned dest category x text live owner h o off set (fresh x refl))

-- The text of a message that is not null and belongs to an error in use.
readable :
    (fallback : List ℕ) (src : ℕ) (live : ℕ → Bool) (owner : ℕ → ℕ) (h : Heap) (m : Message)
    → (h.error src).message ≡ m
    → Owned live owner h
    → live src ≡ true
    → (h.error src).category == 0 ≡ false
    → m ≢ null_message
    → (text : List ℕ) × (text_of fallback m h ≡ ok text)
unfolding text_of
readable fallback src live owner h fallback_message e o on set some_text = (fallback, refl)
readable fallback src live owner h null_message e o on set some_text = absurd (some_text refl)
readable fallback src live owner h (allocated_message x) e o on set some_text =
    (h.text x, rw (o.held src x on set e) refl)

-- `error_copy` behind the call of `error_fini`.
copy_over-Owned :
    (fallback : List ℕ) (a : Option ℕ) (src dest : ℕ) (live : ℕ → Bool) (owner : ℕ → ℕ) (h : Heap)
    → Owned live owner h
    → live src ≡ true
    → live dest ≡ false
    → ((h.error src).category == 0 ≡ false → (h.error src).message ≢ null_message)
    → ((x : ℕ) → a ≡ some x → h.allocated x ≡ false)
    → (h' : Heap) × (copy_over ((h.error src).category == 0) fallback a src dest h ≡ ok h')
      × IsOwned (also dest live) h'
copy_over-Owned fallback a src dest live owner h o on off some_text fresh =
    elim (Bool-cases ((h.error src).category == 0)) [
      | inl clear ↦
          let r = record (h.error dest) { category = (h.error src).category } in
          (set_error dest r h, rw clear refl, (owner, clear-Owned dest r live owner h o off clear))
      | inr set ↦
          let (text, read) =
            readable fallback src live owner h (h.error src).message refl o on set
              (some_text set) in
          (
            copied a (h.error src).category text dest h,
            rw (set, read) refl,
            copied-Owned a (h.error src).category dest text live owner h o off set fresh,
          )
    ]

-- For errors that own their messages, a proper call comes back, also where there is no memory for a
-- message: it frees no message twice and reads none that was freed; and the errors in use afterwards own all messages again, so that none is lost.
pub run-IsOwned :
    (fallback : List ℕ) (call : Call) (live : ℕ → Bool) (h : Heap)
    → IsOwned live h
    → Proper call live h
    → (h' : Heap) × (run fallback call h ≡ ok h') × IsOwned (after call live) h'
unfolding error_init error_reset error_copy error_propogate error_set_va
run-IsOwned fallback (inits e) live h (owner, o) off =
    (_, refl, (owner, clear-Owned e (record (h.error e) { category = 0 }) live owner h o off refl))
run-IsOwned fallback (finishes e) live h (owner, o) on =
    let (al, ran, o', kept) = fini-Owned e live owner h o on in (_, ran, (owner, o'))
run-IsOwned fallback (resets e) live h (owner, o) on =
    let (al, ran, o', kept) = fini-Owned e live owner h o on in
    let o'' =
      clear-Owned e (record (h.error e) { category = 0 }) (but e live) owner _ o' (ground arith)
        refl in
    (_, rw ran refl, (owner, Owned-cong (back_again e live on) o''))
run-IsOwned fallback (sets e category none) live h (owner, o) on =
    let (al, ran, o', kept) = fini-Owned e live owner h o on in
    let o'' =
      unowned-Owned e category fallback_message (λ a e. cc) (but e live) owner _ o'
        (ground arith) in
    (_, rw ran refl, (owner, Owned-cong (back_again e live on) o''))
run-IsOwned fallback (sets e category (some (a, text))) live h (owner, o) (on, set, fresh) =
    let (al, ran, o', kept) = fini-Owned e live owner h o on in
    let o'' =
      adopt-Owned e category a text (but e live) owner _ o' (ground arith) set (kept a fresh) in
    let first = fini-allocate e a text live owner h o on fresh in
    let ran' : error_fini e (allocate a text h)
        ≡ ok (allocate a text (record h { allocated = al })) =
      sym first ∙ rw ran refl in
    (_, rw ran' refl, (_, Owned-cong (back_again e live on) o''))
run-IsOwned fallback (copies a src dest) live h (owner, o) (on, on', other, some_text, fresh) =
    let (al, ran, o', kept) = fini-Owned dest live owner h o on' in
    let (h', ran', (owner', o'')) =
      copy_over-Owned fallback a src dest (but dest live) owner _ o' (ground arith) (ground arith)
        some_text (λ x e. kept x (fresh x e)) in
    (h', rw ran ran', (owner', Owned-cong (back_again dest live on') o''))
run-IsOwned fallback (passes src dest) live h (owner, o) (on, on', other) =
    let (al, ran, o', kept) = fini-Owned dest live owner h o on' in
    let o'' = pass-Owned src dest (but dest live) owner _ o' (ground arith) (ground arith) in
    (_, rw ran refl, (_, Owned-cong (λ v. ground arith) o''))
