-- ===== src/Buffer/Growth.antt =====
-- src/buffer.c: the loops that double a capacity.
use molerat.Base.{
  ap, sym, ◌∙◌, ◌⊎◌, if◌then◌else◌, ℕ, zero, suc, ◌+◌, ◌-◌, ◌*◌, ◌%◌, ◌^◌, ◌≤◌, ◌<◌, ◌≡◌, refl,
  arith, inl, inr, true, false, Bool-cases, ltb, leb, leb→le, ok,
}
use molerat.Buffer.{GrowBuf, grow_capacity, growbuf_grow, growbuf_reserve}

-- The capacity after `f` doublings.
unfoldable pub doublings : ℕ → ℕ → ℕ
doublings zero n = n
doublings (suc f) n = doublings f (n * 2)

pub doublings_mono : (f m n : ℕ) → m ≤ n → doublings f m ≤ doublings f n
unfolding doublings
doublings_mono zero m n h = h
doublings_mono (suc f) m n h = doublings_mono f (m * 2) (n * 2) (omega arith)

doublings_64 : doublings 64 1 ≡ 2 ^ 64
unfolding doublings
doublings_64 = refl

doubles_on :
    (f capacity used need : ℕ)
    → ltb ((capacity * 2 % 2 ^ 64 + 2 ^ 64 - used) % 2 ^ 64) need ≡ true
    → capacity * 2 % 2 ^ 64 ≡ capacity * 2
    → grow_capacity (suc f) capacity used need ≡ grow_capacity f (capacity * 2) used need
unfolding grow_capacity
doubles_on f capacity used need more wraps =
    ap
      (λ b.
        if b then grow_capacity f (capacity * 2 % 2 ^ 64) used need else ok (capacity * 2 % 2 ^ 64))
      more
    ∙ ap (λ c. grow_capacity f c used need) wraps

-- Enough doublings without overflow give the room asked for.
grow_capacity_enough :
    (f capacity used need : ℕ)
    → used ≤ capacity
    → capacity < 2 ^ 63
    → used + need ≤ 2 ^ 63
    → 0 < f
    → used + need ≤ doublings f capacity
    → (c : ℕ) × (grow_capacity f capacity used need ≡ ok c)
      × (used + need ≤ c)
      × (capacity ≤ c)
      × (c < 2 ^ 64)
unfolding grow_capacity doublings
grow_capacity_enough zero capacity used need h₁ h₂ h₃ h₄ h₅ = absurd (omega arith)
grow_capacity_enough (suc f) capacity used need h₁ h₂ h₃ h₄ h₅ =
    elim (Bool-cases (ltb ((capacity * 2 % 2 ^ 64 + 2 ^ 64 - used) % 2 ^ 64) need)) [
      | inl more ↦
          let wraps : capacity * 2 % 2 ^ 64 ≡ capacity * 2 = omega arith in
          let short : capacity * 2 < used + need = ground arith in
          let (c, e, room, grown, fits) =
            grow_capacity_enough f (capacity * 2) used need (omega arith) (omega arith) h₃
              (fuel_left f short h₅) h₅ in
          (c, doubles_on f capacity used need more wraps ∙ e, room, omega arith, fits)
      | inr enough ↦ (capacity * 2 % 2 ^ 64, rw enough, ground arith, omega arith, omega arith)
    ]
  where
    fuel_left :
        (f : ℕ) → capacity * 2 < used + need → used + need ≤ doublings (suc f) capacity → 0 < f
    fuel_left zero short h = absurd (omega arith)
    fuel_left (suc f) short h = omega arith

pub enough_doublings : (capacity : ℕ) → 0 < capacity → 2 ^ 64 ≤ doublings 64 capacity
enough_doublings capacity h =
    omega (arith, doublings_64, doublings_mono 64 1 capacity (omega arith))

ok_injective : {A : Type 0} {a b : A} → ok a ≡ ok b → a ≡ b
ok_injective e = cc

-- A capacity that did not do is at most doubled beyond what was asked for.
grow_capacity_upto :
    (f capacity used need c : ℕ)
    → used < 2 ^ 64
    → capacity < used + need
    → grow_capacity f capacity used need ≡ ok c
    → c < 2 * (used + need)
unfolding grow_capacity
grow_capacity_upto zero capacity used need c h short e = absurd (cc)
grow_capacity_upto (suc f) capacity used need c h short e =
    let d = capacity * 2 % 2 ^ 64 in
    elim (Bool-cases (ltb ((d + 2 ^ 64 - used) % 2 ^ 64) need)) [
      | inl more ↦
          grow_capacity_upto f d used need c h (ground arith)
            (sym (ap (λ b. if b then grow_capacity f d used need else ok d) more) ∙ e)
      | inr enough ↦
          let same : d ≡ c =
            ok_injective
              (sym (ap (λ b. if b then grow_capacity f d used need else ok d) enough) ∙ e) in
          omega arith
    ]

-- A need that does not fit, beyond the limit.
short_limit : (limit end need : ℕ) → leb need (limit - end) ≡ false → limit < end + need
short_limit limit end need e = ground arith

-- What the growing functions give back: the same bytes, with room for `need` more.
pub record Grown (g : GrowBuf) (need : ℕ) (g' : GrowBuf) : Type 0 where
  pub memory : g'.memory ≡ g.memory
  pub end : g'.end ≡ g.end
  pub frozen : g'.frozen ≡ g.frozen
  pub room : g.end + need ≤ g'.limit

-- The sizes at which nothing overflows: a buffer that is not empty, and less than 2 ^ 63 bytes.
pub record HasSize (g : GrowBuf) (need : ℕ) : Type 0 where
  pub some_limit : 0 < g.limit
  pub within : g.end ≤ g.limit
  pub limit_lt : g.limit < 2 ^ 63
  pub fits : g.end + need ≤ 2 ^ 63

module _ (g : GrowBuf) (need : ℕ) (h : HasSize g need) where
  pub growbuf_grow-Grown : (g' : GrowBuf) × (growbuf_grow g need ≡ ok g') × Grown g need g'
  unfolding growbuf_grow
  growbuf_grow-Grown =
      let (c, e, room, grown, fits) =
        grow_capacity_enough 64 g.limit g.end need h.within h.limit_lt h.fits (omega arith)
          (omega (arith, enough_doublings g.limit h.some_limit, h.fits)) in
      (
        record g { limit = c },
        rw e,
        record { memory = refl; end = refl; frozen = refl; room = room },
      )

  reserve_grows :
      g.frozen ≡ false
      → leb need (g.limit - g.end) ≡ false
      → growbuf_reserve g need ≡ growbuf_grow g need
  unfolding growbuf_reserve
  reserve_grows thawed short = ground arith

  reserve_stays :
      g.frozen ≡ false → leb need (g.limit - g.end) ≡ true → growbuf_reserve g need ≡ ok g
  unfolding growbuf_reserve
  reserve_stays thawed short = ground arith

  pub growbuf_reserve-Grown :
      g.frozen ≡ false → (g' : GrowBuf) × (growbuf_reserve g need ≡ ok g') × Grown g need g'
  unfolding growbuf_reserve
  growbuf_reserve-Grown thawed = elim (Bool-cases (leb need (g.limit - g.end))) [
    | inl room ↦ (
      g,
      reserve_stays thawed room,
      record {
        memory = refl;
        end = refl;
        frozen = refl;
        room = omega (arith, h.within, leb→le _ _ room);
      },
    )
    | inr short ↦
        let (g', e, grown) = growbuf_grow-Grown in (g', reserve_grows thawed short ∙ e, grown)
  ]

  -- A reserve leaves the limit, or less than twice of what is needed.
  pub growbuf_reserve-limit :
      g.frozen ≡ false
      → (g' : GrowBuf) → growbuf_reserve g need ≡ ok g'
      → (g'.limit ≡ g.limit) ⊎ (g'.limit < 2 * (g.end + need))
  unfolding growbuf_grow
  growbuf_reserve-limit thawed g' e = elim (Bool-cases (leb need (g.limit - g.end))) [
    | inl room ↦ inl (ap (λ x. x.limit) (ok_injective (sym e ∙ reserve_stays thawed room)))
    | inr short ↦
        let (c, d, room, grown, fits) =
          grow_capacity_enough 64 g.limit g.end need h.within h.limit_lt h.fits (omega arith)
            (omega (arith, enough_doublings g.limit h.some_limit, h.fits)) in
        let grows : growbuf_grow g need ≡ ok (record g { limit = c }) = rw d refl in
        let same : g'.limit ≡ c =
          ap (λ x. x.limit) (ok_injective (sym e ∙ reserve_grows thawed short ∙ grows)) in
        let upto : c < 2 * (g.end + need) =
          grow_capacity_upto 64 g.limit g.end need c (omega (arith, h.within, h.limit_lt))
            (short_limit g.limit g.end need short) d in
        inr (omega (arith, same, upto))
  ]
