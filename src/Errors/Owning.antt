-- ===== src/Errors/Owning.antt =====
-- src/base.c: proofs about the memory of messages.
use molerat.Base.{
  ℕ, ◌≡◌, refl, sym, ap, arith, inl, inr, Bool, true, false, not, ◌&&◌, ◌||◌, Bool-cases, List, ◌∙◌,
  ◌⊎◌, ◌==◌, update, ok, ◌>>=◌,
}
use molerat.Errors.{
  Message, allocated_message, fallback_message, null_message, Error, Heap, set_error, allocate,
  free_message, error_fini,
}

-- Each message belongs to one live error that is set, and only to that one; `owner` says to which.
pub record Owned (live : ℕ → Bool) (owner : ℕ → ℕ) (h : Heap) : Type 0 where
  pub held :
      (e a : ℕ)
      → live e ≡ true
      → (h.error e).category == 0 ≡ false
      → (h.error e).message ≡ allocated_message a
      → h.allocated a ≡ true
  pub owned :
      (e a : ℕ)
      → live e ≡ true
      → (h.error e).category == 0 ≡ false
      → (h.error e).message ≡ allocated_message a
      → owner a ≡ e
  pub owner_live : (a : ℕ) → h.allocated a ≡ true → live (owner a) ≡ true
  pub owner_set : (a : ℕ) → h.allocated a ≡ true → (h.error (owner a)).category == 0 ≡ false
  pub owner_message :
      (a : ℕ) → h.allocated a ≡ true → (h.error (owner a)).message ≡ allocated_message a

abbrev pub but : ℕ → (ℕ → Bool) → ℕ → Bool
but e live v = not (v == e) && live v

abbrev pub also : ℕ → (ℕ → Bool) → ℕ → Bool
also e live v = (v == e) || live v

-- A message that is not memory to be freed.
abbrev pub NoMemory : Message → Type 0
NoMemory m = (a : ℕ) → m ≡ allocated_message a → ⊥

pub Message-cases : (m : Message) → NoMemory m ⊎ ((a : ℕ) × (m ≡ allocated_message a))
Message-cases fallback_message = inl λ a e. cc
Message-cases null_message = inl λ a e. cc
Message-cases (allocated_message a) = inr (a, refl)

free_unowned : (m : Message) (h : Heap) → NoMemory m → free_message m h ≡ ok h
unfolding free_message
free_unowned fallback_message h none = refl
free_unowned null_message h none = refl
free_unowned (allocated_message a) h none = absurd (none a refl)

message_injective : (a b : ℕ) → allocated_message a ≡ allocated_message b → a ≡ b
message_injective a b e = cc

-- `error_fini` frees what the error has, and nothing else.
pub fini-Owned :
    (e : ℕ) (live : ℕ → Bool) (owner : ℕ → ℕ) (h : Heap)
    → Owned live owner h
    → live e ≡ true
    → (allocated : ℕ → Bool) × (error_fini e h ≡ ok (record h { allocated = allocated }))
      × Owned (but e live) owner (record h { allocated = allocated })
      × ((a : ℕ) → h.allocated a ≡ false → allocated a ≡ false)
unfolding error_fini free_message
fini-Owned e live owner h o on = elim (Bool-cases ((h.error e).category == 0)) [
  | inl clear ↦ (
    h.allocated,
    rw (error_fini, clear) refl,
    record {
      held = λ v a l s m. o.held v a (ground arith) s m;
      owned = λ v a l s m. o.owned v a (ground arith) s m;
      owner_live = λ a q. let b = o.owner_live a q in let c = o.owner_set a q in ground arith;
      owner_set = o.owner_set;
      owner_message = o.owner_message;
    },
    λ a q. q,
  )
  | inr set ↦ elim (Message-cases (h.error e).message) [
    | inl fb ↦ (
      h.allocated,
      rw (error_fini, set, free_unowned (h.error e).message h fb) refl,
      record {
        held = λ v a l s m. o.held v a (ground arith) s m;
        owned = λ v a l s m. o.owned v a (ground arith) s m;
        owner_live = λ a q.
            let b = o.owner_live a q in
            elim (Bool-cases (owner a == e)) [
              | inr other ↦ ground arith
              | inl same ↦
                  let q' : owner a ≡ e = ground arith in
                  absurd (fb a (ap (λ v. (h.error v).message) (sym q') ∙ o.owner_message a q))
            ];
        owner_set = o.owner_set;
        owner_message = o.owner_message;
      },
      λ a q. q,
    )
    | inr (x, mx) ↦
        let there = o.held e x on set mx in
        let mine = o.owned e x on set mx in
        (
          update h.allocated x false,
          rw (error_fini, set, mx, there) refl,
          record {
            held = λ v a l s m.
                let b = o.held v a (ground arith) s m in
                let c = o.owned v a (ground arith) s m in ground arith;
            owned = λ v a l s m. o.owned v a (ground arith) s m;
            owner_live = λ a q.
                let q' : h.allocated a ≡ true = ground arith in
                let b = o.owner_live a q' in
                elim (Bool-cases (owner a == e)) [
                  | inr other ↦ ground arith
                  | inl same ↦
                      let k : owner a ≡ e = ground arith in
                      let x' =
                        message_injective x a (
                          sym mx
                          ∙ (ap (λ v. (h.error v).message) (sym k) ∙ o.owner_message a q')) in
                      absurd (ground arith)
                ];
            owner_set = λ a q. o.owner_set a (ground arith);
            owner_message = λ a q. o.owner_message a (ground arith);
          },
          λ a q. ground arith,
        )
  ]
]

-- An error without a message.
pub clear-Owned :
    (e : ℕ) (r : Error) (live : ℕ → Bool) (owner : ℕ → ℕ) (h : Heap)
    → Owned live owner h
    → live e ≡ false
    → r.category == 0 ≡ true
    → Owned (also e live) owner (set_error e r h)
clear-Owned e r live owner h o off clear = record {
  held = λ v a l s m. let b = o.held v a in ground arith;
  owned = λ v a l s m. let b = o.owned v a in ground arith;
  owner_live = λ a q. let b = o.owner_live a q in ground arith;
  owner_set = λ a q. let b = o.owner_live a q in let c = o.owner_set a q in ground arith;
  owner_message = λ a q. let b = o.owner_live a q in let c = o.owner_message a q in ground arith;
}

-- An error with new memory for its message.
pub adopt-Owned :
    (e category a : ℕ) (text : List ℕ) (live : ℕ → Bool) (owner : ℕ → ℕ) (h : Heap)
    → Owned live owner h
    → live e ≡ false
    → category == 0 ≡ false
    → h.allocated a ≡ false
    → Owned (also e live) (update owner a e) (
        set_error e
          (record { category = category; message = allocated_message a })
          (allocate a text h))
adopt-Owned e category a text live owner h o off set fresh = record {
  held = λ v x l s m. let b = o.held v x in let k = message_injective a x in ground arith;
  owned = λ v x l s m.
      let b = o.owned v x in let c = o.held v x in let k = message_injective a x in ground arith;
  owner_live = λ x q. let b = o.owner_live x in ground arith;
  owner_set = λ x q. let b = o.owner_live x in let c = o.owner_set x in ground arith;
  owner_message = λ x q. let b = o.owner_live x in let c = o.owner_message x in ground arith;
}

-- An error whose message is not memory to be freed.
pub unowned-Owned :
    (e category : ℕ) (m : Message)
    → NoMemory m
    → (live : ℕ → Bool) (owner : ℕ → ℕ) (h : Heap) → Owned live owner h
    → live e ≡ false
    → Owned (also e live) owner (set_error e (record { category = category; message = m }) h)
unowned-Owned e category m none live owner h o off = record {
  held = λ v a l s m. let b = o.held v a in let k = none a in ground arith;
  owned = λ v a l s m. let b = o.owned v a in let k = none a in ground arith;
  owner_live = λ a q. let b = o.owner_live a q in ground arith;
  owner_set = λ a q. let b = o.owner_live a q in let c = o.owner_set a q in ground arith;
  owner_message = λ a q. let b = o.owner_live a q in let c = o.owner_message a q in ground arith;
}

pub Owned-cong :
    {live live' : ℕ → Bool} {owner : ℕ → ℕ} {h : Heap}
    → ((v : ℕ) → live v ≡ live' v)
    → Owned live owner h
    → Owned live' owner h
Owned-cong e o = record {
  held = λ v a l s m. o.held v a (e v ∙ l) s m;
  owned = λ v a l s m. o.owned v a (e v ∙ l) s m;
  owner_live = λ a q. sym (e _) ∙ o.owner_live a q;
  owner_set = o.owner_set;
  owner_message = o.owner_message;
}

-- New memory beside what `error_fini` frees.
pub fini-allocate :
    (e a : ℕ) (text : List ℕ) (live : ℕ → Bool) (owner : ℕ → ℕ) (h : Heap)
    → Owned live owner h
    → live e ≡ true
    → h.allocated a ≡ false
    → (error_fini e h >>= (λ h'. ok (allocate a text h'))) ≡ error_fini e (allocate a text h)
unfolding error_fini free_message
fini-allocate e a text live owner h o on fresh = elim (Bool-cases ((h.error e).category == 0)) [
  | inl clear ↦ rw (error_fini, clear) refl
  | inr set ↦ elim (Message-cases (h.error e).message) [
    | inl fb ↦
        rw
          (
            error_fini,
            set,
            free_unowned (h.error e).message h fb,
            free_unowned (h.error e).message (allocate a text h) fb,
          )
          refl
    | inr (x, mx) ↦
        let there = o.held e x on set mx in
        let there' : update h.allocated a true x ≡ true = ground arith in
        let same : (v : ℕ)
            → update (update h.allocated x false) a true v
              ≡ update (update h.allocated a true) x false v =
          λ v. ground arith in
        rw (error_fini, set, mx, there', there)
          (ap (λ al. ok (record h { allocated = al; text = update h.text a text }))
            (λ i v. same v i))
  ]
]
