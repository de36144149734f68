-- ===== src/HttpReader/Finishing.antt =====
-- src/http_reader.c: proofs about the last loop of `http_reader_body`.
use molerat.Base.{
  ℕ, suc, ◌+◌, ◌≤◌, ◌≡◌, refl, sym, subst, arith, inl, inr, true, false, Bool, length, slice,
  length-slice, ok, ◌==◌,
}
use molerat.Buffer.{GrowBuf}
use molerat.Buffer.Growth.{HasSize}
use molerat.Buffer.Contents.{IsOpen, contents-append}
use molerat.HttpReader.Callbacks.{in_buffer}
use molerat.HttpReader.Parsing.{Errno, hpe_ok, hpe_other, Outside, Reading, parse}
use molerat.HttpReader.Prebody.{size_sub}
use molerat.HttpReader.Body.{body_loop}
use molerat.HttpReader.Filling.{
  IsBodyParser, Errno-cases, size_sub-minus, Filling, parse-Parsed, at_eom-ok,
}

pub size_sub_self : (a : ℕ) → size_sub a a ≡ 0
size_sub_self a = omega arith

pub HasSize-less : (g : GrowBuf) (m n : ℕ) → m ≤ n → HasSize g n → HasSize g m
HasSize-less g m n le h = record {
  some_limit = h.some_limit;
  within = h.within;
  limit_lt = h.limit_lt;
  fits = omega (arith, h.fits);
}

module _ {P : Type 0} (o : Outside P) (InBody : P → Type 0) (protocol : IsBodyParser o InBody)
    (buf len : ℕ) (before : ℕ → ℕ) where
  abbrev buf_end : ℕ
  buf_end = buf + len

  abbrev pub Fills : Reading P → Type 0
  Fills s = Filling buf (buf + len) before s

  module _ (fuel buf_pos got : ℕ) (s : Reading P) where
    abbrev last_step : (Reading P × ℕ) × Errno
    last_step = parse o (in_buffer buf_pos) (slice s.1 buf_pos got) s

    loop_done :
        last_step.1 ≡ hpe_ok
        → size_sub got last_step.0.1 == 0 ≡ true
        → body_loop o (suc fuel) buf_pos got s ≡ ok (last_step.0.0, true)
    unfolding body_loop
    loop_done e d = rw (body_loop, e, d) refl

    loop_failed :
        last_step.1 ≡ hpe_other → body_loop o (suc fuel) buf_pos got s ≡ ok (last_step.0.0, false)
    unfolding body_loop
    loop_failed e = rw (body_loop, e) refl

    -- The last loop ends in its first round.
    pub body_loop-Filling :
        InBody s.0.parser
        → Fills s
        → s.0.body_end + got ≤ buf + len
        → IsOpen s.0.prebody
        → HasSize s.0.prebody got
        → (z : Reading P × Bool) × (body_loop o (suc fuel) buf_pos got s ≡ ok z) × Fills z.0
    unfolding body_loop
    body_loop-Filling inside f room open' size =
        let x = last_step in
        let long = length-slice s.1 buf_pos got in
        let p =
          parse-Parsed o InBody protocol buf (buf + len) before (in_buffer buf_pos)
            (slice s.1 buf_pos got) s inside f (omega (arith, long)) in
        elim (Errno-cases x.1) [
          | inl e ↦
              let none : size_sub got x.0.1 == 0 ≡ true =
                rw ((p.whole e).0, long, size_sub_self got) refl in
              ((x.0.0, true), loop_done e none, p.filling)
          | inr (inl e) ↦
              let s' : Reading P =
                (record (x.0.0.0) { parser = o.unpause x.0.0.0.parser }, x.0.0.1) in
              let g = s'.0.prebody in
              let got' = size_sub got x.0.1 in
              let rest = slice s'.1 (buf_pos + x.0.1) got' in
              let left =
                size_sub-minus got x.0.1 (omega (arith, p.within e, long))
                  (omega (arith, size.fits)) in
              let size' : HasSize g (length rest) =
                HasSize-less g (length rest) got
                  (omega (arith, length-slice s'.1 (buf_pos + x.0.1) got', left))
                  (subst (λ h. HasSize h got) (sym p.same) size) in
              let (g', appended, contents, opened) =
                contents-append g rest (subst IsOpen (sym p.same) open') size' in
              (
                ((record (s'.0) { prebody = g' }, s'.1), true),
                rw
                    (
                      body_loop,
                      e,
                      at_eom-ok o InBody protocol buf (buf + len) before x.0.0 (p.complete e),
                      appended,
                    )
                    refl,
                record { from = p.filling.from; upto = p.filling.upto; frame = p.filling.frame },
              )
          | inr (inr e) ↦ ((x.0.0, false), loop_failed e, p.filling)
        ]
